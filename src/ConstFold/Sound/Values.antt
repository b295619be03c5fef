-- ===== src/ConstFold/Sound/Values.antt =====
-- What the operators of src/opFuncs.cpp with one operand compute, as residues or values. Shifts to the
-- right, head and the reductions are stated for numbers.
use native.Mathlib.Nat.{mod-eq_of_lt}
use gsim.Prelude.{
  ℕ, ◌+◌, ◌-◌, ◌%◌, ◌^◌, ◌≤◌, ◌<◌, Bool, true, false, not, ◌≡◌, refl, ap, ◌∙◌, arith, inl, inr,
  Bool-cases, ◌&&◌, if◌then◌else◌, some, none,
}
use gsim.Prelude.Int.{ℤ, pos, negsuc, ◌-ℤ◌, ◌+ℤ◌, int_laws}
use gsim.Prelude.Residue.{
  modp, two_pow_split, two_pow_pos, floor_div, modp_small, modp_cong, modp_lt,
}
use gsim.Circuit.{op_andr, op_orr, op_xorr, op_head}
use gsim.Firrtl.{prim1}
use gsim.Firrtl.Range.{range_upper, range_lower, InRange}
use gsim.Gmp.{Gmp}
use gsim.Gmp.Masks.{mask_lem, two_exp_lem, xor_mask, mask_and}
use gsim.Gmp.Agree.{popcount_agree}
use gsim.Gmp.Reference.{flip}
use gsim.OpFuncs.{
  is_zero, negative, positive, mask_of, u_as_u_int, s_as_s_int, u_not, u_andr, u_orr, u_xorr, u_shr,
  s_shr, u_head, u_tail, pattern_of,
}
use gsim.ValInfo.{ValInfo}
use gsim.ValInfo.Wrap.{Fits, s_as_s_int_pattern}

pub signed_never_fails :
    (t : Bool) (v : ValInfo) → (if t && not true then none else some v) ≡ some v
signed_never_fails true v = refl
signed_never_fails false v = refl

pub flip_residue : (v : ℤ) (m : ℕ) → 0 < m → modp (flip v) m + modp v m + 1 ≡ m
flip_residue (pos n) m h = omega arith
flip_residue (negsuc n) m h = omega arith

-- 2^k - n - 1 is the pattern of a negative value.
pattern_sum : (n k : ℕ) → n < 2 ^ k → pos (2 ^ k) +ℤ negsuc n ≡ pos (modp (negsuc n) (2 ^ k))
unfolding ◌+ℤ◌
pattern_sum n k h = ground (arith, mod-eq_of_lt h)

module _ (g : Gmp) where
  open g use {add_law, sub_law, cmp_law, sgn_law}

  pub pattern_negative :
      (n k : ℕ) (s : Bool)
      → InRange k s (negsuc n)
      → g.mpz_add (g.mpz_mul_2exp (pos 1) k) (negsuc n) ≡ pos (modp (negsuc n) (2 ^ k))
  pattern_negative n k s h =
      rw (two_exp_lem g k)
        (add_law (pos (2 ^ k)) (negsuc n) ∙ pattern_sum n k (omega (arith, range_lower k n s h)))

  -- The pattern of a value in k bits.
  pub as_u_int_value :
      (v : ℤ) (k : ℕ) (s : Bool) → InRange k s v → u_as_u_int g v k ≡ pos (modp v (2 ^ k))
  unfolding u_as_u_int
  as_u_int_value (pos n) k s h =
      ground (arith, cmp_law (pos n) (pos 0), modp_small n (2 ^ k) (range_upper k s (pos n) h))
  as_u_int_value (negsuc n) k s h =
      ground (arith, cmp_law (negsuc n) (pos 0), pattern_negative n k s h)

  pub as_s_int_residue : (v : ℤ) (k : ℕ) → modp (s_as_s_int g v k) (2 ^ k) ≡ modp v (2 ^ k)
  unfolding s_as_s_int
  as_s_int_residue v k =
      elim (Bool-cases (positive (g.mpz_sgn v) && g.mpz_tstbit v ((k + 2 ^ 64 - 1) % 2 ^ 64))) [
        | inl e ↦
            rw (e, two_exp_lem g k, sub_law, g.neg_law)
              (modp_cong (pos 0 -ℤ (pos (2 ^ k) -ℤ v)) v (2 ^ k) 1 0 (two_pow_pos k)
                (omega int_laws))
        | inr e ↦ rw e
      ]

  pub sext_value : (v : ℤ) (k : ℕ) → Fits k → InRange k true v → s_as_s_int g v k ≡ v
  sext_value (pos n) k f h = s_as_s_int_pattern g n k f (range_upper k true (pos n) h) ∙ h
  sext_value (negsuc n) k f h = unfold s_as_s_int in ground (arith, sgn_law (negsuc n))

  pub not_residue : (v : ℤ) (k : ℕ) → modp (u_not g v k) (2 ^ k) ≡ modp (flip v) (2 ^ k)
  unfolding u_not
  not_residue v k =
      ap (λ z. modp (g.mpz_xor z v) (2 ^ k)) (mask_lem g k)
      ∙ omega (arith, xor_mask g k v, flip_residue v (2 ^ k) (two_pow_pos k))

  pub orr_value : (v : ℤ) (k n m : ℕ) → u_orr g v k ≡ prim1 op_orr n m k v
  unfolding u_orr prim1
  orr_value v k n m = ground (arith, cmp_law v (pos 0))

  pub andr_value : (x k n m : ℕ) → x < 2 ^ k → u_andr g (pos x) k ≡ prim1 op_andr n m k (pos x)
  unfolding u_andr prim1
  andr_value x k n m h =
      rw (mask_lem g k, mod-eq_of_lt h) (ground (arith, cmp_law (pos (2 ^ k - 1)) (pos x)))

  pub xorr_value : (x k n m : ℕ) → x < 2 ^ k → u_xorr g (pos x) k ≡ prim1 op_xorr n m k (pos x)
  unfolding u_xorr prim1
  xorr_value x k n m h = rw (mod-eq_of_lt h) (ap (λ (t : ℕ). pos (t % 2)) (popcount_agree g x))

  pub shr_value :
      (s : Bool) (x k n : ℕ)
      → (if s then s_shr g (pos 0) (pos x) k n else u_shr g (pos x) k n) ≡ floor_div (pos x) (2 ^ n)
  unfolding s_shr u_shr
  shr_value false x k n = g.tdiv_q_2exp_law (pos x) n
  shr_value true x k n = ground (arith, cmp_law (pos x) (pos 0), g.tdiv_q_2exp_law (pos x) n)

  pub head_value : (x k n m : ℕ) → x < 2 ^ k → u_head g (pos x) k n ≡ prim1 op_head n m k (pos x)
  unfolding u_head prim1
  head_value x k n m h = g.tdiv_q_2exp_law (pos x) n ∙ rw (mod-eq_of_lt h)

  kept : (z : ℤ) (n : ℕ) → modp (g.mpz_and (mask_of g n) z) (2 ^ n) ≡ modp z (2 ^ n)
  kept z n =
      ap (λ t. modp (g.mpz_and t z) (2 ^ n)) (mask_lem g n)
      ∙ ap (λ t. modp t (2 ^ n)) (mask_and g n z)
      ∙ modp_small (modp z (2 ^ n)) (2 ^ n) (modp_lt z (2 ^ n) (two_pow_pos n))

  -- The low n bits of the pattern of k bits, for n up to k.
  pattern_residue : (v : ℤ) (k n : ℕ) → n ≤ k → modp (pattern_of g v k) (2 ^ n) ≡ modp v (2 ^ n)
  pattern_residue v k n h =
      ap (λ t. modp (g.mpz_add t v) (2 ^ n)) (two_exp_lem g k)
      ∙ ap (λ t. modp t (2 ^ n)) (add_law (pos (2 ^ k)) v)
      ∙ modp_cong (pos (2 ^ k) +ℤ v) v (2 ^ n) 0 (2 ^ (k - n)) (two_pow_pos n)
          (omega (int_laws, two_pow_split n k h))

  pub tail_value : (v : ℤ) (k n : ℕ) → n ≤ k → modp (u_tail g v k n) (2 ^ n) ≡ modp v (2 ^ n)
  unfolding u_tail
  tail_value v k n h = elim (Bool-cases (is_zero (g.mpz_sgn v))) [
    | inl e ↦ rw e
    | inr e ↦ elim (Bool-cases (negative (g.mpz_sgn v))) [
      | inl t ↦ rw (e, t) (kept (pattern_of g v k) n ∙ pattern_residue v k n h)
      | inr t ↦ rw (e, t) (kept v n)
    ]
  ]
