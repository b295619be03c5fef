-- ===== src/InferWidth/Exact.antt =====
-- The widths that inferWidth gives hold the exact results of the operators.
use native.Mathlib.Nat.{mul-le-mul_right}
use gsim.Prelude.{
  ℕ, ◌+◌, ◌*◌, ◌^◌, ◌<◌, ◌≤◌, max, Bool, true, false, ◌≡◌, refl, ap, ◌∙◌, sym, arith, Option, some,
  none, if◌then◌else◌,
}
use mathlib.Core.Path.{subst}
use gsim.Prelude.Int.{ℤ, pos, pos_part, neg_part, ◌+ℤ◌, ◌-ℤ◌, ◌*ℤ◌}
use gsim.Prelude.Residue.{modp, wrap, two_pow_pos, two_pow_suc, two_pow_add, two_pow_le, modp_lt}
use gsim.Circuit.{
  OpType, op_add, op_sub, op_mul, op_lt, op_leq, op_gt, op_geq, op_eq, op_neq, op_cat,
}
use gsim.Firrtl.{prim2, truth, less, same, negate}
use gsim.Firrtl.Range.{InRange}
use gsim.Firrtl.Bounds.{Within, Within-InRange, InRange-Within, mul-Within}
use gsim.Tree.{Label}
use gsim.InferWidth.{Shape, infer2, same_sign}

-- The operators with two operands whose result is exact, and a subtraction of signed operands.
pub data Exact2 (s : Bool) : OpType → Type 0 where
  add : Exact2 s op_add
  sub : s ≡ true → Exact2 s op_sub
  mul : Exact2 s op_mul
  lt : Exact2 s op_lt
  leq : Exact2 s op_leq
  gt : Exact2 s op_gt
  geq : Exact2 s op_geq
  eq : Exact2 s op_eq
  neq : Exact2 s op_neq
  cat : Exact2 s op_cat

add_le :
    (a b : ℤ)
    → (pos_part (a +ℤ b) ≤ pos_part a + pos_part b) × (neg_part (a +ℤ b) ≤ neg_part a + neg_part b)
unfolding ◌+ℤ◌
add_le a b = ground arith

sub_le :
    (a b : ℤ)
    → (pos_part (a -ℤ b) ≤ pos_part a + neg_part b) × (neg_part (a -ℤ b) ≤ neg_part a + pos_part b)
unfolding ◌-ℤ◌
sub_le a b = ground arith

widened : (w : ℕ) → 2 ^ (w + 1) ≡ 2 * 2 ^ w
widened w = ap (λ (t : ℕ). 2 ^ t) (omega arith) ∙ two_pow_suc w

max_pow : (a b : ℕ) → (2 ^ a ≤ 2 ^ max a b) × (2 ^ b ≤ 2 ^ max a b)
max_pow a b = (two_pow_le a (max a b) (omega arith), two_pow_le b (max a b) (omega arith))

add-Within :
    (s : Bool) (wa wb : ℕ) (a b : ℤ)
    → Within wa s a
    → Within wb s b
    → Within (max wa wb + 1) s (a +ℤ b)
add-Within false wa wb a b h k = (
  omega (arith, add_le a b, max_pow wa wb, widened (max wa wb), h, k),
  omega (arith, add_le a b, max_pow wa wb, widened (max wa wb), h, k),
)
add-Within true wa wb a b h k = (
  omega (arith, add_le a b, max_pow wa wb, widened (max wa wb), h, k),
  omega (arith, add_le a b, max_pow wa wb, widened (max wa wb), h, k),
)

sub-Within :
    (wa wb : ℕ) (a b : ℤ)
    → Within wa true a
    → Within wb true b
    → Within (max wa wb + 1) true (a -ℤ b)
sub-Within wa wb a b h k = (
  omega (arith, sub_le a b, max_pow wa wb, widened (max wa wb), h, k),
  omega (arith, sub_le a b, max_pow wa wb, widened (max wa wb), h, k),
)

truth-Within : (t : Bool) → Within 1 false (truth t)
truth-Within true = (refl, omega arith)
truth-Within false = (refl, omega arith)

-- Two fields.
field : (p q x y : ℕ) → x < p → y < q → x * q + y < p * q
field p q x y h k = omega (arith, mul-le-mul_right q (le x p h))
  where
    le : (a b : ℕ) → a < b → a + 1 ≤ b
    le a b t = omega arith

cat-Within :
    (wa wb x y : ℕ) → x < 2 ^ wa → y < 2 ^ wb → Within (wa + wb) false (pos (x * 2 ^ wb + y))
cat-Within wa wb x y h k = (refl, omega (arith, two_pow_add wa wb, field (2 ^ wa) (2 ^ wb) x y h k))

-- The value is in the range of the inferred shape.
abbrev InShape : Option Shape → ℤ → Type 0
InShape none z = ⊥
InShape (some x) z = InRange x.width x.sign z

-- A check that succeeds leaves its result.
checked :
    (s t : Bool) (x : Option Shape) (r : Shape) (z : ℤ)
    → (if same_sign s t then x else none) ≡ some r
    → (s ≡ t → InShape x z)
    → InRange r.width r.sign z
checked true true x r z e f = subst (λ o. InShape o z) e (f refl)
checked false false x r z e f = subst (λ o. InShape o z) e (f refl)
checked true false x r z e f = cc
checked false true x r z e f = cc

-- If inferWidth gives a shape for an operator that Exact2 names, and the operands are in the range
-- of their widths and signs, FIRRTL's exact result is in the range of that shape: wrapping to it
-- changes nothing.
pub infer2-exact :
    (op : OpType) (a b : Label) (va vb : ℤ) (r : Shape)
    → infer2 op a b ≡ some r
    → Exact2 a.sign op
    → InRange a.width a.sign va
    → InRange b.width b.sign vb
    → wrap r.width r.sign (prim2 op a.width va b.width vb) ≡ prim2 op a.width va b.width vb
unfolding infer2 prim2
infer2-exact _ a b va vb r e add ha hb = checked a.sign b.sign _ r (va +ℤ vb) e (λ q.
    Within-InRange _ a.sign _ (
      add-Within a.sign a.width b.width va vb (InRange-Within _ a.sign va ha)
        (InRange-Within _ a.sign vb (subst (λ s. InRange b.width s vb) (sym q) hb))))
infer2-exact _ a b va vb r e (sub t) ha hb = checked a.sign b.sign _ r (va -ℤ vb) e (λ q.
    subst (λ s. InRange (max a.width b.width + 1) s (va -ℤ vb)) (sym t)
      (Within-InRange _ true _ (
        sub-Within a.width b.width va vb
          (InRange-Within _ true va (subst (λ s. InRange a.width s va) t ha))
          (InRange-Within _ true vb (subst (λ s. InRange b.width s vb) (sym q ∙ t) hb)))))
infer2-exact _ a b va vb r e mul ha hb = checked a.sign b.sign _ r (va *ℤ vb) e (λ q.
    Within-InRange _ a.sign _ (
      mul-Within a.sign a.width b.width va vb (InRange-Within _ a.sign va ha)
        (InRange-Within _ a.sign vb (subst (λ s. InRange b.width s vb) (sym q) hb))))
infer2-exact _ a b va vb r e lt ha hb =
    checked a.sign b.sign _ r _ e (λ _. Within-InRange 1 false _ (truth-Within (less va vb)))
infer2-exact _ a b va vb r e leq ha hb =
    checked a.sign b.sign _ r _ e
      (λ _. Within-InRange 1 false _ (truth-Within (negate (less vb va))))
infer2-exact _ a b va vb r e gt ha hb =
    checked a.sign b.sign _ r _ e (λ _. Within-InRange 1 false _ (truth-Within (less vb va)))
infer2-exact _ a b va vb r e geq ha hb =
    checked a.sign b.sign _ r _ e
      (λ _. Within-InRange 1 false _ (truth-Within (negate (less va vb))))
infer2-exact _ a b va vb r e eq ha hb =
    checked a.sign b.sign _ r _ e (λ _. Within-InRange 1 false _ (truth-Within (same va vb)))
infer2-exact _ a b va vb r e neq ha hb =
    checked a.sign b.sign _ r _ e
      (λ _. Within-InRange 1 false _ (truth-Within (negate (same va vb))))
infer2-exact _ a b va vb r e cat ha hb = checked a.sign b.sign _ r _ e (λ _.
    Within-InRange (a.width + b.width) false _ (
      cat-Within a.width b.width (modp va (2 ^ a.width)) (modp vb (2 ^ b.width))
        (modp_lt va (2 ^ a.width) (two_pow_pos a.width))
        (modp_lt vb (2 ^ b.width) (two_pow_pos b.width))))
