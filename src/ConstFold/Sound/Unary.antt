-- ===== src/ConstFold/Sound/Unary.antt =====
-- Folding the operators with one operand.
use gsim.Prelude.{
  refl, ℕ, ◌^◌, ◌≤◌, ◌<◌, Bool, true, false, not, ◌≡◌, ap, ap₂, ◌∙◌, sym, arith, ◌&&◌,
  if◌then◌else◌, some, none, min,
}
use gsim.Prelude.Int.{ℤ, pos, negsuc, pos_part, neg_part, ◌-ℤ◌}
use gsim.Prelude.Residue.{modp, wrap, two_pow_pos, floor_div, modp-wrap, modp_small, modp_lt}
use gsim.Circuit.{
  op_asclock, op_asasyncreset, op_cvt, op_sext, op_asuint, op_assint, op_neg, op_not, op_andr,
  op_orr, op_xorr, op_shl, op_shr, op_head, op_tail,
}
use gsim.Firrtl.{prim1}
use gsim.Gmp.{Gmp}
use gsim.Gmp.Reference.{flip}
use gsim.OpFuncs.{
  u_as_clock, u_as_async_reset, u_cvt, s_cvt, u_as_u_int, s_as_s_int, s_neg, u_not, u_andr, u_orr,
  u_xorr, u_shl, u_shr, s_shr, u_head, u_tail,
}
use gsim.ValInfo.{new_val_info}
use gsim.ValInfo.Wrap.{Fits}
use gsim.ConstFold.{
  cons_as_clock, cons_as_async_reset, cons_cvt, Operand, known, computed, cons_as_u_int,
  cons_as_s_int, cons_neg, cons_not, cons_andr, cons_orr, cons_xorr, cons_shl, cons_shr, cons_head,
  cons_tail,
}
use gsim.ConstFold.Sound.{Holds, OperandHolds}
use gsim.ConstFold.Sound.Arith.{tested-Holds}
use gsim.ConstFold.Sound.Logic.{Folds, unsigned_never_fails, unsigned_number}
use gsim.ConstFold.Sound.Values.{
  sext_value, signed_never_fails, as_u_int_value, as_s_int_residue, not_residue, orr_value,
  andr_value, xorr_value, shr_value, head_value, tail_value,
}

-- What holds of every number holds of an integer that is one.
at_natural {ℓ} : (v : ℤ) (P : ℤ → Type ℓ) → neg_part v ≡ 0 → ((x : ℕ) → P (pos x)) → P v
at_natural (pos n) P e f = f n
at_natural (negsuc n) P e f = absurd (omega (arith, e))

at_number {ℓ} :
    (k : ℕ) (v : ℤ) (P : ℤ → Type ℓ)
    → (v ≡ pos (pos_part v)) × (pos_part v < 2 ^ k)
    → ((x : ℕ) → x < 2 ^ k → P (pos x))
    → P v
at_number k (pos n) P h f = f n h.1
at_number k (negsuc n) P h f = absurd (omega (arith, ap neg_part h.0))

module _ (g : Gmp) (w : ℕ) (fits : Fits w) (a : Operand) {v : ℤ} (ha : OperandHolds a v) where
  -- A call on the child's constant agrees with y when it does so on the value.
  pub folded1-Holds :
      (s : Bool) (f : ℤ → ℕ → ℤ) (y : ℤ)
      → modp (f v a.width) (2 ^ w) ≡ modp y (2 ^ w)
      → Holds w s
          (if known a then computed g w s (f a.info.cons_val a.info.width) else new_val_info w s)
          (wrap w s y)
  folded1-Holds s f y h =
      tested-Holds g w s fits (known a) _ y
        (λ k. ap₂ (λ p q. modp (f p q) (2 ^ w)) (ha.denotes k) ha.full ∙ h)

  unsigned_Folds :
      (f : ℤ → ℕ → ℤ) (y : ℤ)
      → modp (f v a.width) (2 ^ w) ≡ modp y (2 ^ w)
      → Folds
          (if known a && false
            then none
            else some (
                if known a
                then computed g w false (f a.info.cons_val a.info.width)
                else new_val_info w false))
          w
          false
          (wrap w false y)
  unsigned_Folds f y h = (_, unsigned_never_fails (known a) _, folded1-Holds false f y h)

  signed_Folds :
      (f : ℤ → ℕ → ℤ) (y : ℤ)
      → modp (f v a.width) (2 ^ w) ≡ modp y (2 ^ w)
      → Folds
          (if known a && not true
            then none
            else some (
                if known a
                then computed g w true (f a.info.cons_val a.info.width)
                else new_val_info w true))
          w
          true
          (wrap w true y)
  signed_Folds f y h = (_, signed_never_fails (known a) _, folded1-Holds true f y h)

  pub cons_as_u_int-Folds :
      Folds (cons_as_u_int g w false a) w false (wrap w false (prim1 op_asuint 0 0 a.width v))
  unfolding cons_as_u_int prim1
  cons_as_u_int-Folds =
      unsigned_Folds (u_as_u_int g) (pos (modp v (2 ^ a.width)))
        (ap (λ z. modp z (2 ^ w)) (as_u_int_value g v a.width a.sign ha.range))

  -- asSInt keeps the width.
  pub cons_as_s_int-Folds :
      a.width ≡ w
      → Folds (cons_as_s_int g w true a) w true (wrap w true (prim1 op_assint 0 0 a.width v))
  unfolding cons_as_s_int prim1
  cons_as_s_int-Folds e = signed_Folds (s_as_s_int g) (wrap a.width true v) (
      ap (λ (t : ℕ). modp (s_as_s_int g v a.width) (2 ^ t)) (sym e)
      ∙ as_s_int_residue g v a.width
      ∙ sym (modp-wrap a.width true v)
      ∙ ap (λ (t : ℕ). modp (wrap a.width true v) (2 ^ t)) e)

  pub cons_neg-Folds : Folds (cons_neg g w true a) w true (wrap w true (prim1 op_neg 0 0 a.width v))
  unfolding cons_neg s_neg prim1
  cons_neg-Folds =
      signed_Folds (s_neg g) (pos 0 -ℤ v) (ap (λ z. modp z (2 ^ w)) (g.sub_law (pos 0) v))

  pub cons_not-Folds :
      a.width ≡ w → Folds (cons_not g w false a) w false (wrap w false (prim1 op_not 0 0 a.width v))
  unfolding cons_not prim1
  cons_not-Folds e = unsigned_Folds (u_not g) (flip v) (
      ap (λ (t : ℕ). modp (u_not g v a.width) (2 ^ t)) (sym e)
      ∙ not_residue g v a.width
      ∙ ap (λ (t : ℕ). modp (flip v) (2 ^ t)) e)

  pub cons_orr-Folds :
      Folds (cons_orr g w false a) w false (wrap w false (prim1 op_orr 0 0 a.width v))
  unfolding cons_orr
  cons_orr-Folds = unsigned_Folds (u_orr g) _ (ap (λ z. modp z (2 ^ w)) (orr_value g v a.width 0 0))

  pub cons_andr-Folds :
      a.sign ≡ false
      → Folds (cons_andr g w false a) w false (wrap w false (prim1 op_andr 0 0 a.width v))
  unfolding cons_andr
  cons_andr-Folds e = unsigned_Folds (u_andr g) _ (
      ap (λ z. modp z (2 ^ w))
        (at_number a.width v (λ z. u_andr g z a.width ≡ prim1 op_andr 0 0 a.width z)
          (unsigned_number a.width a.sign v e ha.range) (λ x h. andr_value g x a.width 0 0 h)))

  pub cons_xorr-Folds :
      a.sign ≡ false
      → Folds (cons_xorr g w false a) w false (wrap w false (prim1 op_xorr 0 0 a.width v))
  unfolding cons_xorr
  cons_xorr-Folds e = unsigned_Folds (u_xorr g) _ (
      ap (λ z. modp z (2 ^ w))
        (at_number a.width v (λ z. u_xorr g z a.width ≡ prim1 op_xorr 0 0 a.width z)
          (unsigned_number a.width a.sign v e ha.range) (λ x h. xorr_value g x a.width 0 0 h)))

  pub cons_shl-Folds :
      (n : ℕ) → Folds (cons_shl g w false a n) w false (wrap w false (prim1 op_shl n 0 a.width v))
  unfolding cons_shl u_shl prim1
  cons_shl-Folds n =
      unsigned_Folds (λ p q. u_shl g p q n) _ (ap (λ z. modp z (2 ^ w)) (g.mul_2exp_law v n))

  -- A right shift of a value that is not negative.
  pub cons_shr-Holds :
      (s : Bool) (n : ℕ)
      → neg_part v ≡ 0
      → Holds w s (cons_shr g w s a n) (wrap w s (prim1 op_shr n 0 a.width v))
  unfolding cons_shr prim1
  cons_shr-Holds s n e =
      folded1-Holds s (λ p q. if s then s_shr g (pos 0) p q n else u_shr g p q n)
        (floor_div v (2 ^ n))
        (ap (λ z. modp z (2 ^ w))
          (at_natural v
            (λ z.
              (if s then s_shr g (pos 0) z a.width n else u_shr g z a.width n)
              ≡ floor_div z (2 ^ n))
            e (λ x. shr_value g s x a.width n)))

  pub cons_head-Folds :
      (n : ℕ)
      → a.sign ≡ false
      → Folds (cons_head g w false a n) w false (wrap w false (prim1 op_head n 0 a.width v))
  unfolding cons_head
  cons_head-Folds n e =
      unsigned_Folds (λ p q. u_head g p q n) _
        (ap (λ z. modp z (2 ^ w))
          (at_number a.width v (λ z. u_head g z a.width n ≡ prim1 op_head n 0 a.width z)
            (unsigned_number a.width a.sign v e ha.range) (λ x h. head_value g x a.width n 0 h)))

  -- The enode of tail keeps n bits, no more than the operand has.
  pub cons_tail-Folds :
      (n : ℕ)
      → n ≡ w
      → n ≤ a.width
      → Folds (cons_tail g w false a n) w false (wrap w false (prim1 op_tail n 0 a.width v))
  unfolding cons_tail prim1
  cons_tail-Folds n e h =
      unsigned_Folds (λ p q. u_tail g p q (min w n)) (pos (modp v (2 ^ n)))
        (ap (λ (t : ℕ). modp (u_tail g v a.width t) (2 ^ w)) (omega (arith, e))
          ∙ ap (λ (t : ℕ). modp (u_tail g v a.width n) (2 ^ t)) (sym e)
          ∙ tail_value g v a.width n h
          ∙ sym (modp_small (modp v (2 ^ n)) (2 ^ n) (modp_lt v (2 ^ n) (two_pow_pos n)))
          ∙ ap (λ (t : ℕ). modp (pos (modp v (2 ^ n))) (2 ^ t)) e)

  pub cons_as_clock-Folds :
      Folds (cons_as_clock g w false a) w false (wrap w false (prim1 op_asclock 0 0 a.width v))
  unfolding cons_as_clock u_as_clock prim1
  cons_as_clock-Folds = unsigned_Folds (u_as_clock g) v refl

  pub cons_as_async_reset-Folds :
      Folds
        (cons_as_async_reset g w false a)
        w
        false
        (wrap w false (prim1 op_asasyncreset 0 0 a.width v))
  unfolding cons_as_async_reset u_as_async_reset prim1
  cons_as_async_reset-Folds = unsigned_Folds (u_as_async_reset g) v refl

  pub cons_cvt-Holds :
      (s : Bool) → Holds w s (cons_cvt g w s a) (wrap w s (prim1 op_cvt 0 0 a.width v))
  unfolding cons_cvt u_cvt s_cvt prim1
  cons_cvt-Holds true = folded1-Holds true (s_cvt g) v refl
  cons_cvt-Holds false = folded1-Holds false (u_cvt g) v refl

  -- A sign extension folds as asSInt does.
  pub cons_sext-Folds :
      Fits a.width
      → a.sign ≡ true
      → Folds (cons_as_s_int g w true a) w true (wrap w true (prim1 op_sext 0 0 a.width v))
  unfolding cons_as_s_int prim1
  cons_sext-Folds f e = signed_Folds (s_as_s_int g) v (
      ap (λ z. modp z (2 ^ w))
        (sext_value g v a.width f (ap (λ t. wrap a.width t v) (sym e) ∙ ha.range)))
