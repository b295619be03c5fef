-- ===== src/UsedBits/Enough.antt =====
-- The bits that an enode asks of its children are enough for the bits that are asked of it.
use gsim.Prelude.{
  ℕ, ◌+◌, ◌*◌, ◌%◌, ◌^◌, ◌<◌, min, max, Bool, ◌≡◌, refl, ap, ap₂, ◌∙◌, sym, arith, Option, some,
  none, ◌⊎◌, inl, inr,
}
use gsim.Prelude.Int.{ℤ, pos_part, neg_part, ◌+ℤ◌, ◌-ℤ◌, ◌*ℤ◌, sub_ℕ, int_laws}
use gsim.Prelude.Residue.{modp, floor_div, modp_split, modp_cong, modp_add, wrap_cong, two_pow_pos}
use gsim.Circuit.{
  OpType, op_add, op_sub, op_mul, op_div, op_rem, op_lt, op_leq, op_gt, op_geq, op_eq, op_neq,
  op_and, op_or, op_xor, op_dshr, op_dshl,
}
use gsim.Firrtl.{prim2}
use gsim.Firrtl.Range.{InRange}
use gsim.Gmp.Reference.{reference, and_ℤ, ior_ℤ, xor_ℤ}
use gsim.UsedBits.{bits2}
use gsim.UsedBits.Bitwise.{bitwise_cong}

-- Two values that agree on their low u bits.
abbrev pub Agree : ℕ → ℤ → ℤ → Type 0
Agree u a b = modp a (2 ^ u) ≡ modp b (2 ^ u)

add-Agree : (u : ℕ) (a b c d : ℤ) → Agree u a c → Agree u b d → Agree u (a +ℤ b) (c +ℤ d)
add-Agree u a b c d h k =
    modp_add a b (2 ^ u) (two_pow_pos u)
    ∙ ap₂ (λ (x y : ℕ). (x + y) % 2 ^ u) h k
    ∙ sym (modp_add c d (2 ^ u) (two_pow_pos u))

-- Values that agree differ by a multiple.
multiple :
    (m : ℕ) (a b : ℤ)
    → 0 < m
    → modp a m ≡ modp b m
    → pos_part a + neg_part b + m * (neg_part (floor_div a m) + pos_part (floor_div b m))
      ≡ pos_part b + neg_part a + m * (pos_part (floor_div a m) + neg_part (floor_div b m))
multiple m a b h e = omega (arith, modp_split a m h, modp_split b m h, e)

sub-Agree : (u : ℕ) (a b c d : ℤ) → Agree u a c → Agree u b d → Agree u (a -ℤ b) (c -ℤ d)
sub-Agree u a b c d h k =
    modp_cong (a -ℤ b) (c -ℤ d) (2 ^ u)
      (neg_part (floor_div a (2 ^ u))
        + pos_part (floor_div c (2 ^ u))
        + (pos_part (floor_div b (2 ^ u)) + neg_part (floor_div d (2 ^ u))))
      (pos_part (floor_div a (2 ^ u))
        + neg_part (floor_div c (2 ^ u))
        + (neg_part (floor_div b (2 ^ u)) + pos_part (floor_div d (2 ^ u))))
      (two_pow_pos u)
      (omega
        (int_laws, multiple (2 ^ u) a c (two_pow_pos u) h, multiple (2 ^ u) b d (two_pow_pos u) k))

mul_parts :
    (a b : ℤ)
    → pos_part (a *ℤ b) + (pos_part a * neg_part b + neg_part a * pos_part b)
      ≡ neg_part (a *ℤ b) + (pos_part a * pos_part b + neg_part a * neg_part b)
unfolding ◌*ℤ◌
mul_parts a b = sub_parts _ _
  where
    sub_parts : (x y : ℕ) → pos_part (sub_ℕ x y) + y ≡ neg_part (sub_ℕ x y) + x
    sub_parts x y = ground arith

scaled : (p x y k l m : ℕ) → x + m * k ≡ y + m * l → p * x + m * (p * k) ≡ p * y + m * (p * l)
scaled p x y k l m e = omega (arith, ap (λ (t : ℕ). p * t) e)

mul_comm : (a b : ℤ) → a *ℤ b ≡ b *ℤ a
unfolding ◌*ℤ◌
mul_comm a b = ap₂ sub_ℕ (omega arith) (omega arith)

mul_right-Agree : (u : ℕ) (a b d : ℤ) → Agree u b d → Agree u (a *ℤ b) (a *ℤ d)
mul_right-Agree u a b d h =
    let k = neg_part (floor_div b (2 ^ u)) + pos_part (floor_div d (2 ^ u)) in
    let l = pos_part (floor_div b (2 ^ u)) + neg_part (floor_div d (2 ^ u)) in
    let e = multiple (2 ^ u) b d (two_pow_pos u) h in
    modp_cong (a *ℤ b) (a *ℤ d) (2 ^ u) (pos_part a * k + neg_part a * l)
      (pos_part a * l + neg_part a * k) (two_pow_pos u)
      (omega (
        arith,
        mul_parts a b,
        mul_parts a d,
        scaled (pos_part a) (pos_part b + neg_part d) (pos_part d + neg_part b) k l (2 ^ u) e,
        scaled (neg_part a) (pos_part b + neg_part d) (pos_part d + neg_part b) k l (2 ^ u) e,
      ))

mul-Agree : (u : ℕ) (a b c d : ℤ) → Agree u a c → Agree u b d → Agree u (a *ℤ b) (c *ℤ d)
mul-Agree u a b c d h k =
    mul_right-Agree u a b d k
    ∙ ap (λ z. modp z (2 ^ u)) (mul_comm a d)
    ∙ mul_right-Agree u d a c h
    ∙ ap (λ z. modp z (2 ^ u)) (mul_comm d c)

-- Two values of w bits that agree on the low n bits they keep of w, agree on n bits.
Agree-full :
    (w n : ℕ) (s : Bool) (a c : ℤ)
    → InRange w s a
    → InRange w s c
    → Agree (min w n) a c
    → Agree n a c
Agree-full w n s a c ha hc h = elim (min_cases w n) [
  | inl e ↦ ap (λ (t : ℕ). modp a (2 ^ t)) (sym e) ∙ h ∙ ap (λ (t : ℕ). modp c (2 ^ t)) e
  | inr e ↦
      ap (λ z. modp z (2 ^ n))
        (sym ha
          ∙ wrap_cong w s a c
              (ap (λ (t : ℕ). modp a (2 ^ t)) (sym e) ∙ h ∙ ap (λ (t : ℕ). modp c (2 ^ t)) e)
          ∙ hc)
]
  where
    min_cases : (x y : ℕ) → (min x y ≡ y) ⊎ (min x y ≡ x)
    min_cases x y = ground arith

-- Values of w bits that agree on all of them are one.
same_value :
    (w : ℕ) (s : Bool) (a c : ℤ) → InRange w s a → InRange w s c → Agree (min w w) a c → a ≡ c
same_value w s a c ha hc h = sym ha ∙ wrap_cong w s a c (Agree-full w w s a c ha hc h) ∙ hc

-- The operands agree on the bits that are asked of them, no more than they have.
abbrev pub AgreeOn2 : ℕ → ℕ → ℤ → ℤ → ℤ → ℤ → Option (ℕ × ℕ) → Type 0
AgreeOn2 wa wb a b c d none = ⊥
AgreeOn2 wa wb a b c d (some q) = Agree (min wa q.0) a c × Agree (min wb q.1) b d

abbrev pub AgreeOn1 : ℕ → ℤ → ℤ → Option ℕ → Type 0
AgreeOn1 w a c none = ⊥
AgreeOn1 w a c (some n) = Agree (min w n) a c

pub data Covered2 : OpType → Type 0 where
  add : Covered2 op_add
  sub : Covered2 op_sub
  mul : Covered2 op_mul
  div : Covered2 op_div
  rem : Covered2 op_rem
  lt : Covered2 op_lt
  leq : Covered2 op_leq
  gt : Covered2 op_gt
  geq : Covered2 op_geq
  eq : Covered2 op_eq
  neq : Covered2 op_neq
  and : Covered2 op_and
  or : Covered2 op_or
  xor : Covered2 op_xor
  dshl : Covered2 op_dshl
  dshr : Covered2 op_dshr

module _ (u wa wb : ℕ) (sa sb : Bool) (a b c d : ℤ) (ha : InRange wa sa a) (hb : InRange wb sb b)
    (hc : InRange wa sa c) (hd : InRange wb sb d) where
  -- An operator on all the bits of its operands.
  on_values :
      (f : ℤ → ℤ → ℤ) → Agree (min wa wa) a c → Agree (min wb wb) b d → Agree u (f a b) (f c d)
  on_values f h k =
      ap₂ (λ x y. modp (f x y) (2 ^ u)) (same_value wa sa a c ha hc h)
        (same_value wb sb b d hb hd k)

  -- An operator on the low bits.
  on_bits :
      (f : ℤ → ℤ → ℤ) (p q : ℕ)
      → ((x y z w : ℤ) → Agree u x z → Agree u y w → Agree u (f x y) (f z w))
      → min wa u ≡ min wa p
      → min wb u ≡ min wb q
      → Agree (min wa p) a c
      → Agree (min wb q) b d
      → Agree u (f a b) (f c d)
  on_bits f p q r e1 e2 h k =
      r a b c d
        (Agree-full wa u sa a c ha hc
          (ap (λ (t : ℕ). modp a (2 ^ t)) e1 ∙ h ∙ ap (λ (t : ℕ). modp c (2 ^ t)) (sym e1)))
        (Agree-full wb u sb b d hb hd
          (ap (λ (t : ℕ). modp b (2 ^ t)) e2 ∙ k ∙ ap (λ (t : ℕ). modp d (2 ^ t)) (sym e2)))

  -- For an operator that Covered2 names, and operands in the range of their widths and signs that
  -- agree on the low bits that passWidthToChild asks of them, no more than their widths, the exact
  -- results agree on the low u bits that are asked of the operator.
  pub bits2-enough :
      (op : OpType)
      → Covered2 op
      → AgreeOn2 wa wb a b c d (bits2 op u wa wb)
      → modp (prim2 op wa a wb b) (2 ^ u) ≡ modp (prim2 op wa c wb d) (2 ^ u)
  unfolding bits2 prim2
  bits2-enough _ add h = on_bits (λ x y. x +ℤ y) u u (add-Agree u) refl refl h.0 h.1
  bits2-enough _ sub h = on_bits (λ x y. x -ℤ y) u u (sub-Agree u) refl refl h.0 h.1
  bits2-enough _ mul h =
      on_bits (λ x y. x *ℤ y) (min u wa) (min u wb) (mul-Agree u) (omega arith) (omega arith) h.0
        h.1
  bits2-enough _ and h =
      on_bits and_ℤ u u (bitwise_cong and_ℤ min reference.and_half reference.and_odd u) refl refl
        h.0 h.1
  bits2-enough _ or h =
      on_bits ior_ℤ u u (bitwise_cong ior_ℤ max reference.ior_half reference.ior_odd u) refl refl
        h.0 h.1
  bits2-enough _ xor h =
      on_bits xor_ℤ u u
        (bitwise_cong xor_ℤ (λ (x y : ℕ). (x + y) % 2) reference.xor_half reference.xor_odd u) refl
        refl h.0 h.1
  bits2-enough _ div h = on_values (λ x y. prim2 op_div wa x wb y) h.0 h.1
  bits2-enough _ rem h = on_values (λ x y. prim2 op_rem wa x wb y) h.0 h.1
  bits2-enough _ lt h = on_values (λ x y. prim2 op_lt wa x wb y) h.0 h.1
  bits2-enough _ leq h = on_values (λ x y. prim2 op_leq wa x wb y) h.0 h.1
  bits2-enough _ gt h = on_values (λ x y. prim2 op_gt wa x wb y) h.0 h.1
  bits2-enough _ geq h = on_values (λ x y. prim2 op_geq wa x wb y) h.0 h.1
  bits2-enough _ eq h = on_values (λ x y. prim2 op_eq wa x wb y) h.0 h.1
  bits2-enough _ neq h = on_values (λ x y. prim2 op_neq wa x wb y) h.0 h.1
  bits2-enough _ dshl h = on_values (λ x y. prim2 op_dshl wa x wb y) h.0 h.1
  bits2-enough _ dshr h = on_values (λ x y. prim2 op_dshr wa x wb y) h.0 h.1
