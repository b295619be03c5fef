-- ===== src/ConstFold/Unary.antt =====
-- src/constantNode.cpp: operators with one operand, and integer arguments.
use gsim.Prelude.{ℕ, Bool, ◌&&◌, ◌||◌, not, Option, some, none, leb, min, if◌then◌else◌}
use gsim.Prelude.Int.{ℤ, pos}
use gsim.Gmp.{Gmp}
use gsim.OpFuncs.{
  u_as_u_int, s_as_s_int, u_as_clock, u_as_async_reset, u_cvt, s_cvt, s_neg, u_not, u_andr, u_orr,
  u_xorr, u_pad, s_pad, u_shl, u_shr, s_shr, u_head, u_tail, u_bits, u_bits_noshift,
}
use gsim.ValInfo.{ValInfo, new_val_info}
use gsim.ConstFold.Entry.{Operand, known, computed, zero_constant}

module _ (g : Gmp) (width : ℕ) (sign : Bool) (a : Operand) where
  -- A call of an operator on the child's constant and width.
  abbrev folded : (ℤ → ℕ → ℤ) → ValInfo
  folded f =
      if known a
      then computed g width sign (f a.info.cons_val a.info.width)
      else new_val_info width sign

  -- TODO() on a signed result, or on an unsigned one.
  abbrev unsigned_only : ValInfo → Option ValInfo
  unsigned_only v = if known a && sign then none else some v

  abbrev signed_only : ValInfo → Option ValInfo
  signed_only v = if known a && not sign then none else some v

  unfoldable pub cons_as_u_int : Option ValInfo
  cons_as_u_int = unsigned_only (folded (u_as_u_int g))

  unfoldable pub cons_as_s_int : Option ValInfo
  cons_as_s_int = signed_only (folded (s_as_s_int g))

  unfoldable pub cons_as_clock : Option ValInfo
  cons_as_clock = unsigned_only (folded (u_as_clock g))

  unfoldable pub cons_as_async_reset : Option ValInfo
  cons_as_async_reset = unsigned_only (folded (u_as_async_reset g))

  unfoldable pub cons_cvt : ValInfo
  cons_cvt = folded (if sign then s_cvt g else u_cvt g)

  unfoldable pub cons_neg : Option ValInfo
  cons_neg = signed_only (folded (s_neg g))

  unfoldable pub cons_not : Option ValInfo
  cons_not = unsigned_only (folded (u_not g))

  unfoldable pub cons_andr : Option ValInfo
  cons_andr = unsigned_only (folded (u_andr g))

  unfoldable pub cons_orr : Option ValInfo
  cons_orr = unsigned_only (folded (u_orr g))

  unfoldable pub cons_xorr : Option ValInfo
  cons_xorr = unsigned_only (folded (u_xorr g))

  -- An unsigned pad, and one that does not widen, is its child.
  unfoldable pub cons_pad : ℕ → ValInfo
  cons_pad n =
      if not sign || leb width a.info.width
      then a.info
      else folded (λ v w. (if sign then s_pad g else u_pad g) v w n)

  unfoldable pub cons_shl : ℕ → Option ValInfo
  cons_shl n = unsigned_only (folded (λ v w. u_shl g v w n))

  -- s_shr reads dst, which is the fresh consVal, 0.
  unfoldable pub cons_shr : ℕ → ValInfo
  cons_shr n = folded (λ v w. if sign then s_shr g (pos 0) v w n else u_shr g v w n)

  unfoldable pub cons_head : ℕ → Option ValInfo
  cons_head n = unsigned_only (folded (λ v w. u_head g v w n))

  unfoldable pub cons_tail : ℕ → Option ValInfo
  cons_tail n = unsigned_only (folded (λ v w. u_tail g v w (min width n)))

  -- Bits above the operand are 0.
  abbrev beyond : ℕ → Bool
  beyond lo = leb a.width lo || leb a.info.width lo

  unfoldable pub cons_bits : ℕ → ℕ → ValInfo
  cons_bits hi lo =
      if known a
      then computed g width sign (u_bits g a.info.cons_val a.info.width hi lo)
      else if beyond lo
      then zero_constant g width sign
      else new_val_info width sign

  unfoldable pub cons_bits_no_shift : ℕ → ℕ → ValInfo
  cons_bits_no_shift hi lo =
      if known a
      then computed g width sign (u_bits_noshift g a.info.cons_val a.info.width hi lo)
      else if beyond lo
      then zero_constant g width sign
      else new_val_info width sign
