-- ===== src/Firrtl.antt =====
-- The meaning of FIRRTL's primitive operators on integers, from its specification and independent of
-- the code: an operator gives an exact integer, which its enode reads at its own width and sign.
-- A bitwise operator works on two's complement; a division by zero, which FIRRTL leaves open, is 0.
pub mod Bounds
pub mod Range
use gsim.Prelude.{
  ℕ, zero, suc, ◌+◌, ◌-◌, ◌*◌, ◌/◌, ◌%◌, ◌^◌, Bool, true, false, ◌≡◌, ◌==◌, ltb, leb, if◌then◌else◌,
  Ordering,
}
use gsim.Prelude.Int.{ℤ, pos, negsuc, ◌+ℤ◌, ◌-ℤ◌, ◌*ℤ◌, sub_ℕ, pos_part, compare_ℤ}
use gsim.Prelude.Residue.{modp, wrap, floor_div}
use gsim.Circuit.{
  OpType, op_add, op_sub, op_mul, op_div, op_rem, op_lt, op_leq, op_gt, op_geq, op_eq, op_neq,
  op_dshl, op_dshr, op_and, op_or, op_xor, op_cat, op_asuint, op_assint, op_sext, op_asclock,
  op_asasyncreset, op_cvt, op_neg, op_not, op_andr, op_orr, op_xorr, op_pad, op_shl, op_shr,
  op_head, op_tail, op_bits, op_bits_noshift,
}
use gsim.Gmp.{trunc_div, trunc_rem}
use gsim.Gmp.Reference.{and_ℤ, ior_ℤ, xor_ℤ, flip, popcount}

abbrev pub truth : Bool → ℤ
truth true = pos 1
truth false = pos 0

abbrev pub less : ℤ → ℤ → Bool
less a b = elim (compare_ℤ a b) [ Ordering.lt ↦ true | _ ↦ false ]

abbrev pub same : ℤ → ℤ → Bool
same a b = elim (compare_ℤ a b) [ Ordering.eq ↦ true | _ ↦ false ]

abbrev pub negate : Bool → Bool
negate true = false
negate false = true

-- Two operands, with their widths.
unfoldable pub prim2 : OpType → ℕ → ℤ → ℕ → ℤ → ℤ
prim2 op_add wa a wb b = a +ℤ b
prim2 op_sub wa a wb b = a -ℤ b
prim2 op_mul wa a wb b = a *ℤ b
prim2 op_div wa a wb b = if same b (pos 0) then pos 0 else trunc_div a b
prim2 op_rem wa a wb b = if same b (pos 0) then pos 0 else trunc_rem a b
prim2 op_lt wa a wb b = truth (less a b)
prim2 op_leq wa a wb b = truth (negate (less b a))
prim2 op_gt wa a wb b = truth (less b a)
prim2 op_geq wa a wb b = truth (negate (less a b))
prim2 op_eq wa a wb b = truth (same a b)
prim2 op_neq wa a wb b = truth (negate (same a b))
prim2 op_dshl wa a wb b = a *ℤ pos (2 ^ pos_part b)
prim2 op_dshr wa a wb b = floor_div a (2 ^ pos_part b)
prim2 op_and wa a wb b = and_ℤ a b
prim2 op_or wa a wb b = ior_ℤ a b
prim2 op_xor wa a wb b = xor_ℤ a b
prim2 op_cat wa a wb b = pos (modp a (2 ^ wa) * 2 ^ wb + modp b (2 ^ wb))
prim2 _ wa a wb b = pos 0

-- One operand with its width, and the integer arguments. The argument of head is the count of bits
-- that it drops, and that of tail the count that it keeps.
unfoldable pub prim1 : OpType → ℕ → ℕ → ℕ → ℤ → ℤ
prim1 op_asuint n m wa a = pos (modp a (2 ^ wa))
prim1 op_assint n m wa a = wrap wa true a
prim1 op_sext n m wa a = a
prim1 op_asclock n m wa a = a
prim1 op_asasyncreset n m wa a = a
prim1 op_cvt n m wa a = a
prim1 op_neg n m wa a = pos 0 -ℤ a
prim1 op_not n m wa a = flip a
prim1 op_andr n m wa a = truth (modp a (2 ^ wa) == 2 ^ wa - 1)
prim1 op_orr n m wa a = truth (negate (same a (pos 0)))
prim1 op_xorr n m wa a = pos (popcount (pos (modp a (2 ^ wa))) % 2)
prim1 op_pad n m wa a = a
prim1 op_shl n m wa a = a *ℤ pos (2 ^ n)
prim1 op_shr n m wa a = floor_div a (2 ^ n)
prim1 op_head n m wa a = pos (modp a (2 ^ wa) / 2 ^ n)
prim1 op_tail n m wa a = pos (modp a (2 ^ n))
prim1 op_bits n m wa a = pos (modp a (2 ^ wa) / 2 ^ m % 2 ^ (n - m + 1))
prim1 op_bits_noshift n m wa a = pos (modp a (2 ^ wa) / 2 ^ m % 2 ^ (n - m + 1) * 2 ^ m)
prim1 _ n m wa a = pos 0
