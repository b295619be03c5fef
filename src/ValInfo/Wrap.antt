-- ===== src/ValInfo/Wrap.antt =====
-- Updating the constant of a valInfo reads it at its width and sign.
use native.Mathlib.Nat.{div-eq_of_lt, div-eq-sub-div}
use native.Mathlib.Decide.{dec_lt}
use gsim.Prelude.{
  ℕ, zero, suc, ◌+◌, ◌-◌, ◌*◌, ◌/◌, ◌%◌, ◌^◌, ◌<◌, true, ◌≡◌, arith, ltb, if◌then◌else◌,
}
use gsim.Prelude.Int.{pos, ◌-ℤ◌, sub_ℕ}
use gsim.Prelude.Residue.{modp, wrap, two_pow_suc, two_pow_pos, modp_lt, modp_small, wrap_cong}
use gsim.Gmp.{Gmp}
use gsim.Gmp.Masks.{two_exp_lem, mask_lem, and_mask}
use gsim.OpFuncs.{s_as_s_int}
use gsim.ValInfo.{ValInfo, update_cons_val}

-- The widths that fit the index of mpz_tstbit.
abbrev pub Fits : ℕ → Type 0
Fits w = w < 2 ^ 64

module _ (g : Gmp) where
  open g use {mpz_neg, mpz_sub, mpz_mul_2exp, sub_law, neg_law, sgn_law, tstbit_law}

  index : (w : ℕ) → Fits (suc w) → (suc w + 2 ^ 64 - 1) % 2 ^ 64 ≡ w
  index w h = omega arith

  minus_complement :
      (k r : ℕ) → r < 2 ^ k → mpz_neg (mpz_sub (mpz_mul_2exp (pos 1) k) (pos r)) ≡ sub_ℕ r (2 ^ k)
  unfolding ◌-ℤ◌
  minus_complement k r h = rw (two_exp_lem g k, sub_law, neg_law) (ground arith)

  quot_cases : (r m : ℕ) → 0 < m → r < 2 * m → r / m ≡ (if ltb r m then 0 else 1)
  quot_cases r m h b = elim (dec_lt r m) [
    | yes lt ↦ ground (arith, div-eq_of_lt lt)
    | no ge ↦ ground (arith, div-eq-sub-div {m = m} {n = r} h, div-eq_of_lt {n = r - m} {m = m})
  ]

  top_bit : (r m : ℕ) → 0 < m → r < 2 * m → r / m % 2 ≡ (if ltb r m then 0 else 1)
  top_bit r m h b = ground (arith, quot_cases r m)

  -- A pattern of w bits is read as a signed number.
  pub s_as_s_int_pattern :
      (r w : ℕ) → Fits w → r < 2 ^ w → s_as_s_int g (pos r) w ≡ wrap w true (pos r)
  unfolding s_as_s_int
  s_as_s_int_pattern r zero h b = ground (arith, sgn_law (pos r), modp_small r (2 ^ 0))
  s_as_s_int_pattern r (suc w) h b = ground (
    arith,
    sgn_law (pos r),
    index w h,
    tstbit_law (pos r) w,
    top_bit r (2 ^ w) (two_pow_pos w),
    two_pow_suc w,
    modp_small r (2 ^ suc w),
    minus_complement (suc w) r b,
  )

  -- For an entry of width below 2^64, updateConsVal leaves the constant that its value is when
  -- read at the entry's width and sign in two's complement.
  pub update_cons_val_lem :
      (v : ValInfo) → Fits v.width → (update_cons_val g v).cons_val ≡ wrap v.width v.sign v.cons_val
  unfolding update_cons_val
  update_cons_val_lem v h = ground (
    arith,
    mask_lem g v.width,
    and_mask g v.width v.cons_val,
    modp_lt v.cons_val (2 ^ v.width) (two_pow_pos v.width),
    s_as_s_int_pattern (modp v.cons_val (2 ^ v.width)) v.width h,
    wrap_cong v.width true (pos (modp v.cons_val (2 ^ v.width))) v.cons_val,
    modp_small (modp v.cons_val (2 ^ v.width)) (2 ^ v.width),
  )
