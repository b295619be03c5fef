-- ===== src/InferWidth/Tails.antt =====
-- The arguments of tail that updateHeadTail leaves, for the folding of tail.
use gsim.Prelude.{
  ℕ, ◌-◌, ◌≤◌, false, Option, some, none, [], ◌∷◌, ◌≡◌, refl, ap, ◌∙◌, sym, arith, ltb,
}
use gsim.Circuit.{op_tail}
use gsim.Tree.{Label}
use gsim.InferWidth.{Shape, infer1, update_label, set_shape}

-- The width of a shape that is there.
width_or : ℕ → Option Shape → ℕ
width_or d none = d
width_or d (some r) = r.width

not_below : (a n : ℕ) → n ≤ a → ltb a n ≡ false
not_below a n h = ground arith

tail_width :
    (a : Label) (n : ℕ) → n ≤ a.width → width_or 0 (infer1 op_tail (n ∷ []) a) ≡ a.width - n
unfolding infer1 width_or
tail_width a n h = rw (not_below a.width n h) refl

-- For a tail whose argument n is at most the operand's width and whose shape inferWidth gives,
-- updateHeadTail leaves the inferred width as its argument, and that is at most the operand's
-- width.
pub update_label-tail :
    (l a : Label) (n : ℕ) (r : Shape)
    → l.op_type ≡ op_tail
    → l.values ≡ n ∷ []
    → n ≤ a.width
    → infer1 op_tail (n ∷ []) a ≡ some r
    → ((update_label (set_shape l r) (some a ∷ [])).values ≡ r.width ∷ []) × (r.width ≤ a.width)
unfolding width_or
update_label-tail l a n r o v h e =
    let q = sym (tail_width a n h) ∙ ap (width_or 0) e in
    (rw (o, v) (ap (λ (t : ℕ). t ∷ []) q), omega (arith, q))
