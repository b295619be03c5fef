-- ===== src/ConstFold/Sound/Parts.antt =====
-- Folding the operators that take a field of the bits, and sign extension.
use native.Mathlib.Nat.{mod-eq_of_lt, div-lt_iff_lt-mul}
use gsim.Prelude.{
  ◌*◌, ℕ, ◌+◌, ◌-◌, ◌/◌, ◌%◌, ◌^◌, ◌≤◌, ◌<◌, Bool, true, ◌≡◌, ap, ap₂, ◌∙◌, arith, ◌||◌,
  if◌then◌else◌, leb,
}
use gsim.Prelude.Int.{eq_of_parts, mul_pos_parts, pos_part, ℤ, pos, negsuc}
use gsim.Prelude.Residue.{modp, wrap, two_pow_pos, two_pow_le, modp_lt}
use gsim.Circuit.{op_bits_noshift, op_bits}
use gsim.Firrtl.{prim1}
use gsim.Firrtl.Range.{range_upper, InRange}
use gsim.Gmp.{Gmp}
use gsim.Gmp.Masks.{mask_lem, and_mask}
use gsim.Gmp.Fields.{and_field}
use gsim.OpFuncs.{u_bits_noshift, negative, pattern_of, u_bits, mask_of, field_width}
use gsim.ValInfo.Wrap.{Fits}
use gsim.ConstFold.{cons_bits_no_shift, Operand, known, cons_bits}
use gsim.ConstFold.Sound.{Holds, OperandHolds, computed-Holds}
use gsim.ConstFold.Sound.Arith.{split-Holds, zero_tested-Holds}
use gsim.ConstFold.Sound.Values.{pattern_negative}

field_width_lem : (h l : ℕ) → l ≤ h → h < 2 ^ 63 → field_width h l ≡ h - l + 1
field_width_lem h l p q = omega arith

module _ (g : Gmp) where
  -- The shifted pattern of a value of k bits.
  shifted :
      (v : ℤ) (k l : ℕ) (s : Bool)
      → InRange k s v
      → (if negative (g.mpz_sgn v)
          then g.mpz_tdiv_q_2exp (pattern_of g v k) l
          else g.mpz_tdiv_q_2exp v l)
        ≡ pos (modp v (2 ^ k) / 2 ^ l)
  shifted (pos n) k l s h = ground (
    arith,
    g.sgn_law (pos n),
    g.tdiv_q_2exp_law (pos n) l,
    mod-eq_of_lt (range_upper k s (pos n) h),
  )
  shifted (negsuc n) k l s h = ground (
    arith,
    g.sgn_law (negsuc n),
    pattern_negative g n k s h,
    g.tdiv_q_2exp_law (pos (modp (negsuc n) (2 ^ k))) l,
  )

  bits_value :
      (v : ℤ) (k h l : ℕ) (s : Bool)
      → InRange k s v
      → l ≤ h
      → h < 2 ^ 63
      → u_bits g v k h l ≡ prim1 op_bits h l k v
  unfolding u_bits prim1
  bits_value v k h l s r p q =
      ap₂ (λ t (f : ℕ). g.mpz_and t (mask_of g f)) (shifted v k l s r) (field_width_lem h l p q)
      ∙ ap (g.mpz_and (pos (modp v (2 ^ k) / 2 ^ l))) (mask_lem g (h - l + 1))
      ∙ and_mask g (h - l + 1) (pos (modp v (2 ^ k) / 2 ^ l))

module _ (g : Gmp) (w : ℕ) (s : Bool) (fits : Fits w) (a : Operand) {v : ℤ}
    (ha : OperandHolds a v) where
  -- Bits above the operand are 0.
  bits_beyond :
      (h l : ℕ) → (leb a.width l || leb a.info.width l) ≡ true → prim1 op_bits h l a.width v ≡ pos 0
  unfolding prim1
  bits_beyond h l t =
      ap (λ (q : ℕ). pos (q % 2 ^ (h - l + 1)))
        (quotient_zero (modp v (2 ^ a.width)) (2 ^ l) (
          omega
            (arith, modp_lt v (2 ^ a.width) (two_pow_pos a.width), two_pow_le a.width l width_le)))
      ∙ ap pos (mod-eq_of_lt (two_pow_pos (h - l + 1)))
    where
      quotient_zero : (x y : ℕ) → x < y → x / y ≡ 0
      quotient_zero x y h =
          omega (arith, (div-lt_iff_lt-mul {k = y} {x = x} {y = 1} (omega arith)).1 (omega arith))

      width_le : a.width ≤ l
      width_le = ground (arith, ha.full)

  pub cons_bits-Holds :
      (h l : ℕ)
      → l ≤ h
      → h < 2 ^ 63
      → Holds w s (cons_bits g w s a h l) (wrap w s (prim1 op_bits h l a.width v))
  unfolding cons_bits
  cons_bits-Holds h l p q =
      split-Holds w s (known a) _ _ _
        (λ k. computed-Holds g w s _ _ fits (
          ap (λ z. modp z (2 ^ w))
            (ap₂ (λ p q. u_bits g p q h l) (ha.denotes k) ha.full
              ∙ bits_value g v a.width h l a.sign ha.range p q)))
        (λ _. zero_tested-Holds g w s fits _ _ (bits_beyond h l))

module _ (g : Gmp) where
  -- The pattern of a value of k bits.
  pattern :
      (v : ℤ) (k : ℕ) (s : Bool)
      → InRange k s v
      → (if negative (g.mpz_sgn v) then pattern_of g v k else v) ≡ pos (modp v (2 ^ k))
  pattern (pos n) k s h =
      ground (arith, g.sgn_law (pos n), mod-eq_of_lt (range_upper k s (pos n) h))
  pattern (negsuc n) k s h = ground (arith, g.sgn_law (negsuc n), pattern_negative g n k s h)

  shifted_mask : (n l : ℕ) → g.mpz_mul_2exp (mask_of g n) l ≡ pos ((2 ^ n - 1) * 2 ^ l)
  shifted_mask n l =
      ap (λ t. g.mpz_mul_2exp t l) (mask_lem g n)
      ∙ g.mul_2exp_law (pos (2 ^ n - 1)) l
      ∙ eq_of_parts _ _ (omega (arith, mul_pos_parts (pos (2 ^ n - 1)) (2 ^ l)))

  bits_noshift_value :
      (v : ℤ) (k h l : ℕ) (s : Bool)
      → InRange k s v
      → l ≤ h
      → h < 2 ^ 63
      → u_bits_noshift g v k h l ≡ prim1 op_bits_noshift h l k v
  unfolding u_bits_noshift prim1
  bits_noshift_value v k h l s r p q =
      ap₂ (λ t (f : ℕ). g.mpz_and t (g.mpz_mul_2exp (mask_of g f) l)) (pattern v k s r)
        (field_width_lem h l p q)
      ∙ ap (g.mpz_and (pos (modp v (2 ^ k)))) (shifted_mask (h - l + 1) l)
      ∙ and_field g l (h - l + 1) (modp v (2 ^ k))

module _ (g : Gmp) (w : ℕ) (s : Bool) (fits : Fits w) (a : Operand) {v : ℤ}
    (ha : OperandHolds a v) where
  noshift_beyond :
      (h l : ℕ)
      → (leb a.width l || leb a.info.width l) ≡ true
      → prim1 op_bits_noshift h l a.width v ≡ pos 0
  unfolding prim1
  noshift_beyond h l t =
      ap (λ z. pos (pos_part z * 2 ^ l)) (no_bits h l t) ∙ ap pos (no_power (2 ^ l))
    where
      no_bits :
          (h l : ℕ)
          → (leb a.width l || leb a.info.width l) ≡ true
          → pos (modp v (2 ^ a.width) / 2 ^ l % 2 ^ (h - l + 1)) ≡ pos 0
      no_bits h l t = bits_beyond g w s fits a ha h l t

      no_power : (x : ℕ) → 0 * x ≡ 0
      no_power x = omega arith

  pub cons_bits_no_shift-Holds :
      (h l : ℕ)
      → l ≤ h
      → h < 2 ^ 63
      → Holds w s (cons_bits_no_shift g w s a h l) (wrap w s (prim1 op_bits_noshift h l a.width v))
  unfolding cons_bits_no_shift
  cons_bits_no_shift-Holds h l p q =
      split-Holds w s (known a) _ _ _
        (λ k. computed-Holds g w s _ _ fits (
          ap (λ z. modp z (2 ^ w))
            (ap₂ (λ p q. u_bits_noshift g p q h l) (ha.denotes k) ha.full
              ∙ bits_noshift_value g v a.width h l a.sign ha.range p q)))
        (λ _. zero_tested-Holds g w s fits _ _ (noshift_beyond h l))
