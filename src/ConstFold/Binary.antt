-- ===== src/ConstFold/Binary.antt =====
-- src/constantNode.cpp: operators with two operands.
use gsim.Prelude.{ℕ, Bool, ◌&&◌, ◌||◌, not, Option, some, none, if◌then◌else◌}
use gsim.Prelude.Int.{ℤ, pos}
use gsim.Gmp.{Gmp}
use gsim.OpFuncs.{
  is_zero, mask_of, us_add, us_sub, us_mul, us_div, us_rem, us_lt, us_leq, us_gt, us_geq, us_eq,
  us_neq, u_dshl, u_dshr, s_dshr, u_and, u_ior, u_xor, u_cat,
}
use gsim.ValInfo.{ValInfo, new_val_info}
use gsim.ConstFold.Entry.{Operand, known, computed, zero_constant, cons_zero, mpz_out_of_bound}

module _ (g : Gmp) (width : ℕ) (sign : Bool) (a b : Operand) where
  open g use {mpz_cmp}

  abbrev both : Bool
  both = known a && known b

  -- A call of an operator on the children's constants and widths.
  abbrev on_children {ℓ} : {R : Type ℓ} → (ℤ → ℕ → ℤ → ℕ → R) → R
  on_children f = f a.info.cons_val a.info.width b.info.cons_val b.info.width

  abbrev folded : (ℤ → ℕ → ℤ → ℕ → ℤ) → ValInfo
  folded f = if both then computed g width sign (on_children f) else new_val_info width sign

  unfoldable pub cons_add : ValInfo
  unfolding computed
  cons_add = folded (us_add g)

  unfoldable pub cons_sub : ValInfo
  unfolding computed
  cons_sub =
      if both
      then computed g width sign (us_sub g a.info.cons_val b.info.cons_val width)
      else new_val_info width sign

  unfoldable pub cons_mul : ValInfo
  cons_mul = folded (us_mul g)

  -- The fresh consVal is 0.
  unfoldable pub cons_d_iv : ValInfo
  cons_d_iv = folded (us_div g (pos 0))

  unfoldable pub cons_rem : ValInfo
  cons_rem = folded (us_rem g (pos 0))

  unfoldable pub cons_lt : ValInfo
  cons_lt =
      if both
      then computed g width sign (on_children (us_lt g))
      else if not a.sign && (known b && cons_zero g b)
      then zero_constant g width sign
      else new_val_info width sign

  unfoldable pub cons_leq : ValInfo
  cons_leq = folded (us_leq g)

  unfoldable pub cons_gt : ValInfo
  cons_gt = folded (us_gt g)

  unfoldable pub cons_geq : ValInfo
  cons_geq = folded (us_geq g)

  unfoldable pub cons_eq : ValInfo
  cons_eq =
      if both
      then computed g width sign (on_children (us_eq g))
      else if known a && mpz_out_of_bound g a.info.cons_val b.width
          || known b && mpz_out_of_bound g b.info.cons_val a.width
      then zero_constant g width sign
      else new_val_info width sign

  unfoldable pub cons_neq : ValInfo
  cons_neq = folded (us_neq g)

  -- TODO() on a signed result.
  abbrev unsigned_only : ValInfo → Option ValInfo
  unsigned_only v = if both && sign then none else some v

  unfoldable pub cons_dshl : Option ValInfo
  cons_dshl = unsigned_only (folded (u_dshl g))

  unfoldable pub cons_dshr : ValInfo
  cons_dshr = folded (if sign then s_dshr g else u_dshr g)

  unfoldable pub cons_and : Option ValInfo
  cons_and = unsigned_only (
      if both
      then computed g width sign (on_children (u_and g))
      else if known a && cons_zero g a || known b && cons_zero g b
      then zero_constant g width sign
      else new_val_info width sign)

  -- A constant of ones at the full width.
  abbrev all_ones : Operand → Bool
  all_ones c = known c && is_zero (mpz_cmp c.info.cons_val (mask_of g width))

  unfoldable pub cons_or : Option ValInfo
  cons_or = unsigned_only (
      if both
      then computed g width sign (on_children (u_ior g))
      else if all_ones a || all_ones b
      then computed g width sign (mask_of g width)
      else new_val_info width sign)

  unfoldable pub cons_xor : Option ValInfo
  cons_xor = unsigned_only (folded (u_xor g))

  -- u_cat fails on a negative operand.
  unfoldable pub cons_cat : Option ValInfo
  cons_cat =
      if both
      then if sign
        then none
        else elim (on_children (u_cat g)) [ none ↦ none | some z ↦ some (computed g width sign z) ]
      else some (new_val_info width sign)
