-- ===== src/ConstFold/Sound/Arith.antt =====
-- Folding the arithmetic operators and the comparisons: the entry agrees with FIRRTL's value.
use gsim.Prelude.{
  ℕ, ◌^◌, Bool, true, false, ◌≡◌, ◌≢◌, refl, ap, ap₂, ◌∙◌, sym, arith, inl, inr, Bool-cases, ◌&&◌,
  if◌then◌else◌, Ordering,
}
use gsim.Prelude.Int.{ℤ, pos, ◌-ℤ◌, ◌+ℤ◌, int_laws, compare_ℤ, pos_part, neg_part, eq_of_parts}
use gsim.Prelude.Residue.{modp, wrap, modp_cong, two_pow_pos}
use gsim.Circuit.{
  op_add, op_sub, op_mul, op_div, op_rem, op_lt, op_leq, op_gt, op_geq, op_eq, op_neq,
}
use gsim.Firrtl.{prim2, same}
use gsim.Gmp.{Gmp}
use gsim.Gmp.Masks.{two_exp_lem}
use gsim.OpFuncs.{
  is_zero, us_add, us_sub, us_mul, us_div, us_rem, us_lt, us_leq, us_gt, us_geq, us_eq, us_neq,
}
use gsim.ValInfo.{ValInfo, new_val_info}
use gsim.ValInfo.Wrap.{Fits}
use gsim.ConstFold.{
  Operand, known, computed, zero_constant, cons_add, cons_sub, cons_mul, cons_d_iv, cons_rem,
  cons_leq, cons_gt, cons_geq, cons_neq,
}
use gsim.ConstFold.Sound.{Holds, OperandHolds, fresh-Holds, computed-Holds, zero-Holds}
use gsim.Firrtl.Range.{wrap-InRange}

pub known_left : (a b : Bool) → (a && b) ≡ true → a ≡ true
known_left a b h = ground arith

pub known_right : (a b : Bool) → (a && b) ≡ true → b ≡ true
known_right a b h = ground arith

compare_zero : (b : ℤ) → compare_ℤ b (pos 0) ≡ Ordering.eq → b ≡ pos 0
compare_zero b h = eq_of_parts b (pos 0) (ground arith)

not_same : (b : ℤ) → same b (pos 0) ≡ false → b ≢ pos 0
not_same b h e = ground arith

-- Either branch of a test.
pub split-Holds :
    (w : ℕ) (s : Bool) (test : Bool) (x y : ValInfo) (v : ℤ)
    → (test ≡ true → Holds w s x v)
    → (test ≡ false → Holds w s y v)
    → Holds w s (if test then x else y) v
split-Holds w s true x y v p q = p refl
split-Holds w s false x y v p q = q refl

module _ (g : Gmp) (w : ℕ) (s : Bool) (fits : Fits w) where
  open g use {add_law, sub_law, mul_law, tdiv_q_law, tdiv_r_law, cmp_law, sgn_law}

  -- A computed constant behind a test, which else leaves the entry open.
  pub tested-Holds :
      (test : Bool) (z y : ℤ)
      → (test ≡ true → modp z (2 ^ w) ≡ modp y (2 ^ w))
      → Holds w s (if test then computed g w s z else new_val_info w s) (wrap w s y)
  tested-Holds true z y h = computed-Holds g w s z y fits (h refl)
  tested-Holds false z y h = fresh-Holds w s (wrap w s y) (wrap-InRange w s y)

  sgn_zero : (b : ℤ) → is_zero (g.mpz_sgn b) ≡ true → pos_part b ≡ neg_part b
  sgn_zero b h = ground (arith, sgn_law b)

  -- A constant 0 behind a test.
  pub zero_tested-Holds :
      (test : Bool) (y : ℤ)
      → (test ≡ true → y ≡ pos 0)
      → Holds w s (if test then zero_constant g w s else new_val_info w s) (wrap w s y)
  zero_tested-Holds true y h = zero-Holds g w s y fits (ap (λ z. modp z (2 ^ w)) (sym (h refl)))
  zero_tested-Holds false y h = fresh-Holds w s (wrap w s y) (wrap-InRange w s y)

  module _ (a b : Operand) {va vb : ℤ} (ha : OperandHolds a va) (hb : OperandHolds b vb) where
    -- The fold of two constants by f, where f is right on the operands' values.
    pub folded2-Holds :
        (f : ℤ → ℤ → ℤ) (y : ℤ)
        → modp (f va vb) (2 ^ w) ≡ modp y (2 ^ w)
        → Holds w s
            (if known a && known b
              then computed g w s (f a.info.cons_val b.info.cons_val)
              else new_val_info w s)
            (wrap w s y)
    folded2-Holds f y h = tested-Holds (known a && known b) _ y (λ k.
        ap₂ (λ p q. modp (f p q) (2 ^ w)) (ha.denotes (known_left (known a) (known b) k))
          (hb.denotes (known_right (known a) (known b) k))
        ∙ h)

    -- The same where the test is known to hold.
    pub computed2-Holds :
        (f : ℤ → ℤ → ℤ) (y : ℤ)
        → modp (f va vb) (2 ^ w) ≡ modp y (2 ^ w)
        → (known a && known b) ≡ true
        → Holds w s (computed g w s (f a.info.cons_val b.info.cons_val)) (wrap w s y)
    computed2-Holds f y h k = computed-Holds g w s _ y fits (
        ap₂ (λ p q. modp (f p q) (2 ^ w)) (ha.denotes (known_left (known a) (known b) k))
          (hb.denotes (known_right (known a) (known b) k))
        ∙ h)

    pub cons_add-Holds :
        Holds w s (cons_add g w s a b) (wrap w s (prim2 op_add a.width va b.width vb))
    unfolding cons_add us_add prim2
    cons_add-Holds =
        folded2-Holds (λ p q. us_add g p a.info.width q b.info.width) (va +ℤ vb)
          (ap (λ z. modp z (2 ^ w)) (add_law va vb))

    us_sub_residue : modp (us_sub g va vb w) (2 ^ w) ≡ modp (va -ℤ vb) (2 ^ w)
    unfolding us_sub
    us_sub_residue = elim (Bool-cases (is_zero (g.mpz_sgn vb))) [
      | inl e ↦
          rw e
            (modp_cong va (va -ℤ vb) (2 ^ w) 0 0 (two_pow_pos w) (omega (int_laws, sgn_zero vb e)))
      | inr e ↦
          rw (e, two_exp_lem g w, add_law, sub_law)
            (modp_cong (pos (2 ^ w) -ℤ vb +ℤ va) (va -ℤ vb) (2 ^ w) 0 1 (two_pow_pos w)
              (omega int_laws))
    ]

    pub cons_sub-Holds :
        Holds w s (cons_sub g w s a b) (wrap w s (prim2 op_sub a.width va b.width vb))
    unfolding cons_sub prim2
    cons_sub-Holds = folded2-Holds (λ p q. us_sub g p q w) (va -ℤ vb) us_sub_residue

    pub cons_mul-Holds :
        Holds w s (cons_mul g w s a b) (wrap w s (prim2 op_mul a.width va b.width vb))
    unfolding cons_mul us_mul prim2
    cons_mul-Holds =
        folded2-Holds (λ p q. us_mul g p a.info.width q b.info.width) _
          (ap (λ z. modp z (2 ^ w)) (mul_law va vb))

    div_value :
        us_div g (pos 0) va a.info.width vb b.info.width ≡ prim2 op_div a.width va b.width vb
    unfolding us_div prim2
    div_value = elim (Bool-cases (same vb (pos 0))) [
      | inl e ↦ ground (arith, cmp_law vb (pos 0))
      | inr e ↦ ground (arith, cmp_law vb (pos 0), tdiv_q_law va vb (not_same vb e))
    ]

    rem_value :
        us_rem g (pos 0) va a.info.width vb b.info.width ≡ prim2 op_rem a.width va b.width vb
    unfolding us_rem prim2
    rem_value = elim (Bool-cases (same vb (pos 0))) [
      | inl e ↦ ground (arith, cmp_law vb (pos 0))
      | inr e ↦ ground (arith, cmp_law vb (pos 0), tdiv_r_law va vb (not_same vb e))
    ]

    leq_value : us_leq g va a.info.width vb b.info.width ≡ prim2 op_leq a.width va b.width vb
    unfolding us_leq prim2
    leq_value = ground (arith, cmp_law va vb)

    pub lt_value : us_lt g va a.info.width vb b.info.width ≡ prim2 op_lt a.width va b.width vb
    unfolding us_lt prim2
    lt_value = ground (arith, cmp_law va vb)

    gt_value : us_gt g va a.info.width vb b.info.width ≡ prim2 op_gt a.width va b.width vb
    unfolding us_gt prim2
    gt_value = ground (arith, cmp_law va vb)

    geq_value : us_geq g va a.info.width vb b.info.width ≡ prim2 op_geq a.width va b.width vb
    unfolding us_geq prim2
    geq_value = ground (arith, cmp_law va vb)

    pub eq_value : us_eq g va a.info.width vb b.info.width ≡ prim2 op_eq a.width va b.width vb
    unfolding us_eq prim2
    eq_value = ground (arith, cmp_law va vb)

    neq_value : us_neq g va a.info.width vb b.info.width ≡ prim2 op_neq a.width va b.width vb
    unfolding us_neq prim2
    neq_value = ground (arith, cmp_law va vb)

    pub cons_d_iv-Holds :
        Holds w s (cons_d_iv g w s a b) (wrap w s (prim2 op_div a.width va b.width vb))
    unfolding cons_d_iv
    cons_d_iv-Holds =
        folded2-Holds (λ p q. us_div g (pos 0) p a.info.width q b.info.width) _
          (ap (λ z. modp z (2 ^ w)) div_value)

    pub cons_rem-Holds :
        Holds w s (cons_rem g w s a b) (wrap w s (prim2 op_rem a.width va b.width vb))
    unfolding cons_rem
    cons_rem-Holds =
        folded2-Holds (λ p q. us_rem g (pos 0) p a.info.width q b.info.width) _
          (ap (λ z. modp z (2 ^ w)) rem_value)

    pub cons_leq-Holds :
        Holds w s (cons_leq g w s a b) (wrap w s (prim2 op_leq a.width va b.width vb))
    unfolding cons_leq
    cons_leq-Holds =
        folded2-Holds (λ p q. us_leq g p a.info.width q b.info.width) _
          (ap (λ z. modp z (2 ^ w)) leq_value)

    pub cons_gt-Holds : Holds w s (cons_gt g w s a b) (wrap w s (prim2 op_gt a.width va b.width vb))
    unfolding cons_gt
    cons_gt-Holds =
        folded2-Holds (λ p q. us_gt g p a.info.width q b.info.width) _
          (ap (λ z. modp z (2 ^ w)) gt_value)

    pub cons_geq-Holds :
        Holds w s (cons_geq g w s a b) (wrap w s (prim2 op_geq a.width va b.width vb))
    unfolding cons_geq
    cons_geq-Holds =
        folded2-Holds (λ p q. us_geq g p a.info.width q b.info.width) _
          (ap (λ z. modp z (2 ^ w)) geq_value)

    pub cons_neq-Holds :
        Holds w s (cons_neq g w s a b) (wrap w s (prim2 op_neq a.width va b.width vb))
    unfolding cons_neq
    cons_neq-Holds =
        folded2-Holds (λ p q. us_neq g p a.info.width q b.info.width) _
          (ap (λ z. modp z (2 ^ w)) neq_value)
