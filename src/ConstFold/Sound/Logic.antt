-- ===== src/ConstFold/Sound/Logic.antt =====
-- Folding the bitwise operators, concatenation and the dynamic shifts. Where the code gives up on a
-- signed result, the entry is stated for an unsigned one.
use gsim.Prelude.{
  ℕ, ◌+◌, ◌-◌, ◌*◌, ◌^◌, ◌<◌, Bool, true, false, ◌≡◌, refl, ap, ap₂, ◌∙◌, sym, arith, inl, inr,
  Bool-cases, ◌&&◌, ◌||◌, if◌then◌else◌, Option, some, none,
}
use gsim.Prelude.Int.{ℤ, pos, negsuc, mul_pos_parts, eq_of_parts, pos_part, neg_part}
use gsim.Prelude.Residue.{modp, wrap, two_pow_pos, floor_div, modp_small}
use gsim.Circuit.{op_and, op_or, op_xor, op_cat, op_dshl, op_dshr}
use gsim.Firrtl.{prim2}
use gsim.Firrtl.Range.{range_upper, range_unsigned, InRange, wrap-InRange}
use gsim.Gmp.{Gmp}
use gsim.Gmp.Masks.{mask_lem, ior_fields, and_mask, mask_and, modp_one}
use gsim.Gmp.Agree.{and_agree, ior_agree, xor_agree, join_ones}
use gsim.Gmp.Reference.{and_ℤ, ior_ℤ}
use gsim.OpFuncs.{is_zero, mask_of, u_and, u_ior, u_xor, u_cat, u_dshl, u_dshr, s_dshr}
use gsim.ValInfo.{ValInfo, new_val_info}
use gsim.ValInfo.Wrap.{Fits}
use gsim.ConstFold.{
  Operand, known, computed, cons_zero, cons_and, cons_or, cons_xor, cons_cat, cons_dshl, cons_dshr,
}
use gsim.ConstFold.Sound.{Holds, OperandHolds, fresh-Holds, computed-Holds}
use gsim.ConstFold.Sound.Shortcut.{sgn_is_zero}
use gsim.ConstFold.Sound.Arith.{
  known_left, known_right, split-Holds, zero_tested-Holds, folded2-Holds, computed2-Holds,
  tested-Holds,
}

-- The call does not fail, and its entry holds.
abbrev pub Folds : Option ValInfo → ℕ → Bool → ℤ → Type 0
Folds o w s v = (r : ValInfo) × (o ≡ some r) × Holds w s r v

-- An unsigned result never meets TODO().
pub unsigned_never_fails {ℓ} :
    {A : Type ℓ} (t : Bool) (v : A) → (if t && false then none else some v) ≡ some v
unsigned_never_fails true v = refl
unsigned_never_fails false v = refl

-- An unsigned value is a number below 2^w.
pub unsigned_number :
    (w : ℕ) (s : Bool) (z : ℤ)
    → s ≡ false
    → InRange w s z
    → (z ≡ pos (pos_part z)) × (pos_part z < 2 ^ w)
unsigned_number w s z e h = (number z (range_unsigned w s z e h), range_upper w s z h)
  where
    number : (y : ℤ) → neg_part y ≡ 0 → y ≡ pos (pos_part y)
    number (pos n) q = refl
    number (negsuc n) q = absurd (omega (arith, q))

module _ (g : Gmp) where
  and_zero_right : (z : ℤ) → and_ℤ z (pos 0) ≡ pos 0
  and_zero_right z = sym (and_agree g z (pos 0)) ∙ and_mask g 0 z ∙ ap pos (modp_one z)

  and_zero_left : (z : ℤ) → and_ℤ (pos 0) z ≡ pos 0
  and_zero_left z = sym (and_agree g (pos 0) z) ∙ mask_and g 0 z ∙ ap pos (modp_one z)

  ones_residue : (w : ℕ) → modp (mask_of g w) (2 ^ w) + 1 ≡ 2 ^ w
  ones_residue w =
      rw (mask_lem g w) (
        omega (arith, modp_small (2 ^ w - 1) (2 ^ w) (omega (arith, two_pow_pos w)), two_pow_pos w))

  is_ones : (c : ℤ) (w : ℕ) → is_zero (g.mpz_cmp c (mask_of g w)) ≡ true → c ≡ pos (2 ^ w - 1)
  is_ones c w h =
      eq_of_parts c (pos (2 ^ w - 1)) (ground (arith, g.cmp_law c (pos (2 ^ w - 1)), mask_lem g w))

  ior_ones_left :
      (w : ℕ) (z : ℤ) → modp (mask_of g w) (2 ^ w) ≡ modp (ior_ℤ (pos (2 ^ w - 1)) z) (2 ^ w)
  ior_ones_left w z =
      rw (← ior_agree g (pos (2 ^ w - 1)) z)
        (omega (arith, ones_residue w, join_ones g.mpz_ior g.ior_half g.ior_odd w z))

  ior_ones_right :
      (w : ℕ) (z : ℤ) → modp (mask_of g w) (2 ^ w) ≡ modp (ior_ℤ z (pos (2 ^ w - 1))) (2 ^ w)
  ior_ones_right w z = rw (← ior_agree g z (pos (2 ^ w - 1))) (
      omega (
        arith,
        ones_residue w,
        join_ones (λ x y. g.mpz_ior y x) (λ x y. g.ior_half y x)
            (λ x y. omega (arith, g.ior_odd y x)) w z,
      ))

  mul_2exp_pos : (x n : ℕ) → g.mpz_mul_2exp (pos x) n ≡ pos (x * 2 ^ n)
  mul_2exp_pos x n =
      g.mul_2exp_law (pos x) n ∙ eq_of_parts _ _ (omega (arith, mul_pos_parts (pos x) (2 ^ n)))

  u_cat_value :
      (x y wa wb : ℕ) → y < 2 ^ wb → u_cat g (pos x) wa (pos y) wb ≡ some (pos (x * 2 ^ wb + y))
  unfolding u_cat
  u_cat_value x y wa wb h =
      ground (arith, g.sgn_law (pos x), g.sgn_law (pos y), mul_2exp_pos x wb, ior_fields g wb x y h)

module _ (g : Gmp) (w : ℕ) (fits : Fits w) (a b : Operand) {va vb : ℤ} (ha : OperandHolds a va)
    (hb : OperandHolds b vb) where
  zero_and : (known a && cons_zero g a || known b && cons_zero g b) ≡ true → and_ℤ va vb ≡ pos 0
  zero_and h = elim (Bool-cases (known a && cons_zero g a)) [
    | inl l ↦ rw (zero_value a va ha l) (and_zero_left g vb)
    | inr r ↦ rw (zero_value b vb hb (ground arith)) (and_zero_right g va)
  ]
    where
      zero_value :
          (c : Operand) (v : ℤ) → OperandHolds c v → (known c && cons_zero g c) ≡ true → v ≡ pos 0
      zero_value c v hc t =
          sym (hc.denotes (ground arith)) ∙ sgn_is_zero g c.info.cons_val (ground arith)

  pub cons_and-Folds :
      Folds (cons_and g w false a b) w false (wrap w false (prim2 op_and a.width va b.width vb))
  unfolding cons_and prim2 u_and
  cons_and-Folds = (
    _,
    unsigned_never_fails (known a && known b) _,
    split-Holds w false (known a && known b) _ _ _
        (computed2-Holds g w false fits a b ha hb (λ p q. g.mpz_and p q) _
          (ap (λ z. modp z (2 ^ w)) (and_agree g va vb)))
        (λ _. zero_tested-Holds g w false fits _ _ zero_and),
  )

  pub cons_xor-Folds :
      Folds (cons_xor g w false a b) w false (wrap w false (prim2 op_xor a.width va b.width vb))
  unfolding cons_xor prim2 u_xor
  cons_xor-Folds = (
    _,
    unsigned_never_fails (known a && known b) _,
    folded2-Holds g w false fits a b ha hb (λ p q. g.mpz_xor p q) _
        (ap (λ z. modp z (2 ^ w)) (xor_agree g va vb)),
  )

  ones_or :
      (known a && is_zero (g.mpz_cmp a.info.cons_val (mask_of g w))
          || known b && is_zero (g.mpz_cmp b.info.cons_val (mask_of g w)))
        ≡ true
      → modp (mask_of g w) (2 ^ w) ≡ modp (ior_ℤ va vb) (2 ^ w)
  ones_or h = elim (Bool-cases (known a && is_zero (g.mpz_cmp a.info.cons_val (mask_of g w)))) [
    | inl l ↦ rw (ones_value a va ha l) (ior_ones_left g w vb)
    | inr r ↦ rw (ones_value b vb hb (ground arith)) (ior_ones_right g w va)
  ]
    where
      ones_value :
          (c : Operand) (v : ℤ)
          → OperandHolds c v
          → (known c && is_zero (g.mpz_cmp c.info.cons_val (mask_of g w))) ≡ true
          → v ≡ pos (2 ^ w - 1)
      ones_value c v hc t =
          sym (hc.denotes (ground arith)) ∙ is_ones g c.info.cons_val w (ground arith)

  -- For an unsigned enode of width w below 2^64 and operands whose entries hold of va and vb, the
  -- fold of an or does not fail, and its entry holds of the bitwise or of va and vb in w bits,
  -- also where one constant of w ones decides it.
  pub cons_or-Folds :
      Folds (cons_or g w false a b) w false (wrap w false (prim2 op_or a.width va b.width vb))
  unfolding cons_or prim2 u_ior
  cons_or-Folds = (
    _,
    unsigned_never_fails (known a && known b) _,
    split-Holds w false (known a && known b) _ _ _
        (computed2-Holds g w false fits a b ha hb (λ p q. g.mpz_ior p q) _
          (ap (λ z. modp z (2 ^ w)) (ior_agree g va vb)))
        (λ _. tested-Holds g w false fits _ _ _ ones_or),
  )

  dshl_count : (v : ℤ) → pos_part v < 2 ^ 64 → v ≡ pos (pos_part v) → g.mpz_get_ui v ≡ pos_part v
  dshl_count v h e = ap g.mpz_get_ui e ∙ g.get_ui_law (pos_part v) ∙ omega arith

  pub cons_dshl-Folds :
      pos_part vb < 2 ^ 64
      → b.sign ≡ false
      → Folds (cons_dshl g w false a b) w false (wrap w false (prim2 op_dshl a.width va b.width vb))
  unfolding cons_dshl u_dshl prim2
  cons_dshl-Folds small e = (
    _,
    unsigned_never_fails (known a && known b) _,
    folded2-Holds g w false fits a b ha hb (λ p q. g.mpz_mul_2exp p (g.mpz_get_ui q)) _
        (ap (λ z. modp z (2 ^ w))
          (ap (g.mpz_mul_2exp va)
              (dshl_count vb small (unsigned_number b.width b.sign vb e hb.range).0)
            ∙ g.mul_2exp_law va (pos_part vb))),
  )

  joined : ℕ
  joined = modp va (2 ^ a.width) * 2 ^ b.width + modp vb (2 ^ b.width)

  number_residue :
      (v : ℤ) (k : ℕ) → (v ≡ pos (pos_part v)) × (pos_part v < 2 ^ k) → pos_part v ≡ modp v (2 ^ k)
  number_residue v k h = sym (ap (λ z. modp z (2 ^ k)) h.0 ∙ modp_small (pos_part v) (2 ^ k) h.1)

  cat_value :
      a.sign ≡ false
      → b.sign ≡ false
      → (known a && known b) ≡ true
      → u_cat g a.info.cons_val a.info.width b.info.cons_val b.info.width ≡ some (pos joined)
  unfolding joined
  cat_value ea eb k =
      let na = unsigned_number a.width a.sign va ea ha.range in
      let nb = unsigned_number b.width b.sign vb eb hb.range in
      ap₂ (λ p q. u_cat g p a.info.width q b.info.width)
        (ha.denotes (known_left (known a) (known b) k) ∙ na.0)
        (hb.denotes (known_right (known a) (known b) k) ∙ nb.0)
      ∙ ap (λ t. u_cat g (pos (pos_part va)) a.info.width (pos (pos_part vb)) t) hb.full
      ∙ u_cat_value g (pos_part va) (pos_part vb) a.info.width b.width nb.1
      ∙ ap₂ (λ (x y : ℕ). some (pos (x * 2 ^ b.width + y))) (number_residue va a.width na)
          (number_residue vb b.width nb)

  -- For an unsigned enode of width w below 2^64 and unsigned operands whose entries hold of va and
  -- vb, the fold of a concatenation does not fail, and its entry holds of the pattern of va above
  -- that of vb, in w bits.
  pub cons_cat-Folds :
      a.sign ≡ false
      → b.sign ≡ false
      → Folds (cons_cat g w false a b) w false (wrap w false (prim2 op_cat a.width va b.width vb))
  unfolding cons_cat prim2 joined
  cons_cat-Folds ea eb = elim (Bool-cases (known a && known b)) [
    | inl k ↦ (
      computed g w false (pos joined),
      rw (k, cat_value ea eb k),
      computed-Holds g w false (pos joined) (pos joined) fits refl,
    )
    | inr k ↦ (
      new_val_info w false,
      rw k,
      fresh-Holds w false (wrap w false (pos joined)) (wrap-InRange w false (pos joined)),
    )
  ]

  -- A dynamic right shift: the count is read as an int for a signed operand.
  dshr_value :
      (s : Bool) (v u : ℤ)
      → (s ≡ false → neg_part v ≡ 0)
      → u ≡ pos (pos_part u)
      → pos_part u < 2 ^ 31
      → (if s then s_dshr g else u_dshr g) v a.info.width u b.info.width
        ≡ floor_div v (2 ^ pos_part u)
  unfolding s_dshr u_dshr
  dshr_value false (pos x) u h e small =
      ground (arith, dshl_count u (omega arith) e, g.tdiv_q_2exp_law (pos x) (pos_part u))
  dshr_value false (negsuc x) u h e small = absurd (omega (arith, h refl))
  dshr_value true (pos x) u h e small = ground (
    arith,
    g.cmp_law (pos x) (pos 0),
    dshl_count u (omega arith) e,
    g.tdiv_q_2exp_law (pos x) (pos_part u),
  )
  dshr_value true (negsuc x) u h e small = ground (
    arith,
    g.cmp_law (negsuc x) (pos 0),
    dshl_count u (omega arith) e,
    g.fdiv_q_2exp_law (negsuc x) (pos_part u),
  )

  pub cons_dshr-Holds :
      (s : Bool)
      → pos_part vb < 2 ^ 31
      → a.sign ≡ s
      → b.sign ≡ false
      → Holds w s (cons_dshr g w s a b) (wrap w s (prim2 op_dshr a.width va b.width vb))
  unfolding cons_dshr prim2
  cons_dshr-Holds s small e eb =
      folded2-Holds g w s fits a b ha hb
        (λ p q. (if s then s_dshr g else u_dshr g) p a.info.width q b.info.width) _
        (ap (λ z. modp z (2 ^ w))
          (dshr_value s va vb (λ f. range_unsigned a.width a.sign va (e ∙ f) ha.range)
            (unsigned_number b.width b.sign vb eb hb.range).0 small))
