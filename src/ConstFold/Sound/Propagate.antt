-- ===== src/ConstFold/Sound/Propagate.antt =====
-- Folding a whole expression tree, for a run with given values of the nodes.
use gsim.Prelude.{
  ℕ, Bool, true, false, ◌≡◌, refl, ap, ap₂, ◌∙◌, sym, arith, inl, inr, Bool-cases, ◌&&◌, ◌||◌,
  if◌then◌else◌, Option, some, none, List, [], ◌∷◌, get_or, ◌==◌, ltb, leb, ◌^◌, ==_iff, zero, suc,
}
use mathlib.Core.Path.{subst, subst₂, subst⁻¹}
use gsim.Prelude.Int.{ℤ, pos, ◌-ℤ◌, eq_of_parts}
use gsim.Prelude.Residue.{modp, wrap}
use gsim.Gmp.Masks.{modp_one}
use gsim.Circuit.{NodeType, op_mux, op_int}
use gsim.Firrtl.{same}
use gsim.Firrtl.Range.{InRange}
use gsim.Gmp.{Gmp}
use gsim.OpFuncs.{is_zero}
use gsim.ValInfo.{ValInfo, is_constant, update_cons_val, new_val_info, set_constant_by_str}
use gsim.ValInfo.Wrap.{Fits}
use gsim.Util.{fir_str_base}
use gsim.ConstFold.{
  Operand, known, cons_zero, cons_eq_val, zero_constant, computed, cons_mux, cons_int,
}
use gsim.ConstFold.Tree.{
  fold0, fold3, compute_constant, sign_after, own_entry, with_children, add_operand, operand,
  node_entry, memory_entry, basic_width,
}
use gsim.Tree.{Label, ENode, enode, no_more, child, label}
use gsim.ConstFold.Sound.{Holds, OperandHolds, computed-Holds, zero-Holds, fresh-Holds}
use gsim.ConstFold.Sound.Arith.{split-Holds}
use gsim.ConstFold.Sound.Logic.{Folds}
use gsim.ConstFold.Sound.Expr.{Binary-plain, Unary-plain, fold1-Folds, fold2-Folds}
use gsim.ConstFold.Sound.Runs.{
  Runs, reads, literal, minus, unary, binary, mux, sign_plain, or_true, or_false, op_mux_plain,
  Runs-InRange,
}

-- An entry for another spelling of the width, the sign and the call.
Folds-cong :
    (o p : Option ValInfo) (w : ℕ) (s t : Bool) (v : ℤ)
    → o ≡ p
    → s ≡ t
    → Folds p w t v
    → Folds o w s v
Folds-cong o p w s t v e es f = (f.0, e ∙ f.1, subst⁻¹ (λ x. Holds w x f.0 v) es f.2)

range_zero : (s : Bool) (v : ℤ) → wrap 0 s v ≡ pos 0
range_zero false v = ap pos (modp_one v)
range_zero true v = rw (modp_one v) refl

unfitted : (x y z : Bool) (p q : ValInfo) → y ≡ false → (if x && y && z then p else q) ≡ q
unfitted true y z p q e = rw e refl
unfitted false y z p q e = refl

not_less : (a b : ℕ) → b ≡ a → ltb a b ≡ false
not_less a b e = ground (arith, e)

module _ (g : Gmp) where
  zero-entry :
      (w : ℕ) (s t : Bool) (v : ℤ) → w ≡ 0 → InRange w t v → Holds w t (zero_constant g w s) v
  zero-entry zero s t v e h =
      let z = zero-Holds g 0 s v (omega arith) (omega (arith, modp_one v)) in
      record {
        denotes = λ k. z.denotes k ∙ range_zero s v ∙ sym (range_zero t v) ∙ h;
        range = h;
        full = z.full;
      }
  zero-entry (suc n) s t v e h = absurd (omega (arith, e))

  node_entry-Holds :
      (w : ℕ) (s : Bool) (r : ValInfo) (v : ℤ)
      → Holds w s r v
      → Holds w s (node_entry g false w r) v
  unfolding node_entry
  node_entry-Holds w s r v h = record {
    denotes =
        subst (λ i. is_constant i ≡ true → i.cons_val ≡ v)
          (sym (
            unfitted (leb r.width basic_width) (ltb w r.width) (is_constant r) (update_cons_val g r)
              r (not_less w r.width h.full)))
          h.denotes;
    range = h.range;
    full = refl;
  }

  -- consVal of a text, for a fresh entry.
  text_entry :
      (w : ℕ) (s : Bool) (str : List ℕ) (base : ℕ)
      → set_constant_by_str g (new_val_info w s) str base
        ≡ computed g w s (g.mpz_set_str (pos 0) str base)
  unfolding set_constant_by_str computed new_val_info
  text_entry w s str base = refl

  cons_int_entry :
      (w : ℕ) (s t : Bool) (str : List ℕ) (base : ℕ) (text : List ℕ)
      → fir_str_base str ≡ (base, text)
      → (s || get_or text 0 0 == b'-') ≡ t
      → (cons_int g w s str).0 ≡ computed g w t (g.mpz_set_str (pos 0) text base)
  unfolding cons_int
  cons_int_entry w s t str base text q e = rw (q, e) (text_entry w t text base)

  zero_test : (v c : ℤ) → c ≡ v → is_zero (g.mpz_sgn c) ≡ same v (pos 0)
  zero_test v c e = ap (λ z. is_zero (g.mpz_sgn z)) e ∙ ground (arith, g.sgn_law v)

  equal_values : (c d : ℤ) → is_zero (g.mpz_cmp c d) ≡ true → c ≡ d
  equal_values c d h = eq_of_parts c d (ground (arith, g.cmp_law c d))

  -- If the entry of the condition holds of vc, and those of the branches hold of va and vb at the
  -- width and sign of the mux, the entry of the mux holds of vb if vc is 0 and of va otherwise.
  pub mux-Holds :
      (w : ℕ) (s : Bool) (c a b : Operand) (vc va vb : ℤ)
      → OperandHolds c vc
      → Holds w s a.info va
      → Holds w s b.info vb
      → Holds w s (cons_mux g w s c a b) (if same vc (pos 0) then vb else va)
  unfolding cons_mux
  mux-Holds w s c a b vc va vb hc ha hb =
      split-Holds w s (known c) _ _ _
        (λ k.
          subst (λ t. Holds w s (if cons_zero g c then b.info else a.info) (if t then vb else va))
            (zero_test vc c.info.cons_val (hc.denotes k)) (pick (cons_zero g c)))
        (λ _.
          split-Holds w s (known a && known b && cons_eq_val g a b) _ _ _
            (λ e. agreed (same vc (pos 0)) (
              sym (ha.denotes (ground arith))
              ∙ equal_values a.info.cons_val b.info.cons_val (ground arith)
              ∙ hb.denotes (ground arith)))
            (λ _. fresh-Holds w s _ (branch_range (same vc (pos 0)))))
    where
      pick : (t : Bool) → Holds w s (if t then b.info else a.info) (if t then vb else va)
      pick true = hb
      pick false = ha

      agreed : (t : Bool) → va ≡ vb → Holds w s a.info (if t then vb else va)
      agreed true e = subst (Holds w s a.info) e ha
      agreed false e = ha

      branch_range : (t : Bool) → InRange w s (if t then vb else va)
      branch_range true = hb.range
      branch_range false = ha.range

module _ (g : Gmp) (t : NodeType) (memory_info : ℕ → Option ValInfo) (node_info : ℕ → ValInfo)
    (node_value : ℕ → ℤ) where
  -- An enode of width 0 is the constant 0.
  own-Folds :
      (l : Label) (os : List (Option Operand)) (s : Bool) (v : ℤ)
      → InRange l.width s v
      → Folds (own_entry g t false node_info memory_info l os) l.width s v
      → Folds (with_children g t false node_info memory_info l (some os)) l.width s v
  own-Folds l os s v h r = elim (Bool-cases (l.width == 0)) [
    | inl z ↦ (
      zero_constant g l.width l.sign,
      rw z refl,
      zero-entry g l.width l.sign s v ((==_iff l.width 0).0 z) h,
    )
    | inr z ↦ (r.0, rw z r.1, r.2)
  ]

  -- A literal whose text denotes z.
  int-Folds :
      (l : Label) (base : ℕ) (text : List ℕ) (s : Bool) (z : ℤ)
      → Fits l.width
      → l.node_ptr ≡ none
      → l.op_type ≡ op_int
      → fir_str_base l.str_val ≡ (base, text)
      → (l.sign || get_or text 0 0 == b'-') ≡ s
      → g.mpz_set_str (pos 0) text base ≡ z
      → Folds
          (own_entry g t false node_info memory_info l [])
          l.width
          (sign_after l)
          (wrap l.width s z)
  unfolding fold0
  int-Folds l base text s z f p o q e d =
      Folds-cong _ _ _ _ s _
        (rw (p, o) (ap some (cons_int_entry g l.width l.sign s l.str_val base text q e)))
        (rw (o, q) e) (_, refl, computed-Holds g l.width s _ z f (ap (λ y. modp y (2 ^ l.width)) d))

  three_children :
      (l : Label) (c a b : ENode) (x y z : ValInfo)
      → compute_constant g t false node_info memory_info c ≡ some x
      → compute_constant g t false node_info memory_info a ≡ some y
      → compute_constant g t false node_info memory_info b ≡ some z
      → compute_constant g t false node_info memory_info
          (enode l (child c (child a (child b no_more))))
        ≡ with_children g t false node_info memory_info l (
            some (
              some (operand g t false node_info memory_info c x)
              ∷ some (operand g t false node_info memory_info a y)
              ∷ some (operand g t false node_info memory_info b z)
              ∷ []))
  unfolding compute_constant
  three_children l c a b x y z ex ey ez = rw (ex, ey, ez) refl

  mux_entry :
      (l : Label) (c a b : ENode) (x y z : ValInfo)
      → l.node_ptr ≡ none
      → l.op_type ≡ op_mux
      → own_entry g t false node_info memory_info l (
          some (operand g t false node_info memory_info c x)
          ∷ some (operand g t false node_info memory_info a y)
          ∷ some (operand g t false node_info memory_info b z)
          ∷ [])
        ≡ some (
            cons_mux g l.width l.sign
              (operand g t false node_info memory_info c x)
              (operand g t false node_info memory_info a y)
              (operand g t false node_info memory_info b z))
  unfolding fold3
  mux_entry l c a b x y z p o = rw (p, o) refl

  -- For an expression whose value in a run is v by the relation Runs, computeConstant does not
  -- fail on it; the entry has the enode's width, v is in the range of the enode's width and sign,
  -- and if the entry is a constant then it is v.
  pub compute_constant-Folds :
      (e : ENode) (v : ℤ)
      → Runs node_info node_value e v
      → Folds
          (compute_constant g t false node_info memory_info e)
          (label e).width
          (sign_after (label e))
          v
  unfolding compute_constant
  compute_constant-Folds _ _ (reads l n p q h) =
      own-Folds l [] (sign_after l) _ (Runs-InRange node_info node_value _ _ (reads l n p q h)) (
        Folds-cong _ (some (node_entry g false l.width (node_info n))) l.width _ l.sign _
          (rw p refl) (sign_plain l q)
          (_, refl, node_entry-Holds g l.width l.sign (node_info n) (node_value n) h))
  compute_constant-Folds _ _ (literal l base c n cs f p o q r x y d) =
      own-Folds l [] (sign_after l) _
        (Runs-InRange node_info node_value _ _ (literal l base c n cs f p o q r x y d))
        (int-Folds l base (c ∷ cs) l.sign (pos n) f p o q (rw r (or_false l.sign))
          (g.set_str_law (pos 0) c cs base n x y d))
  compute_constant-Folds _ _ (minus l base c n cs f p o q x y d) =
      own-Folds l [] (sign_after l) _
        (Runs-InRange node_info node_value _ _ (minus l base c n cs f p o q x y d))
        (int-Folds l base (b'-' ∷ c ∷ cs) true (pos 0 -ℤ pos n) f p o q (or_true l.sign)
          (g.set_str_minus (pos 0) c cs base n x y d))
  compute_constant-Folds _ _ (unary l e v f p u r) =
      let ih = compute_constant-Folds e v r in
      Folds-cong _ _ _ _ _ _
        (ap
          (λ o.
            with_children g t false node_info memory_info l
              (add_operand g t false node_info memory_info e o (some [])))
          ih.1)
        refl
        (own-Folds l _ (sign_after l) _
          (Runs-InRange node_info node_value _ _ (unary l e v f p u r))
          (Folds-cong _ _ _ _ _ _ (rw (p, (Unary-plain u).0) refl) (sign_plain l (Unary-plain u).1)
            (fold1-Folds g l.op_type l.width l.values l.sign
              (memory_entry g t false node_info memory_info l.memory_node)
              (operand g t false node_info memory_info e ih.0) v f u ih.2)))
  compute_constant-Folds _ _ (binary l a b va vb f p u ra rb) =
      let iha = compute_constant-Folds a va ra in
      let ihb = compute_constant-Folds b vb rb in
      Folds-cong _ _ _ _ _ _
        (ap₂
          (λ o r. with_children g t false node_info memory_info l (
            add_operand g t false node_info memory_info a o
              (add_operand g t false node_info memory_info b r (some []))))
          iha.1 ihb.1)
        refl
        (own-Folds l _ (sign_after l) _
          (Runs-InRange node_info node_value _ _ (binary l a b va vb f p u ra rb))
          (Folds-cong _ _ _ _ _ _ (rw (p, (Binary-plain u).0) refl)
            (sign_plain l (Binary-plain u).1)
            (fold2-Folds g l.op_type l.width l.sign
              (operand g t false node_info memory_info a iha.0)
              (operand g t false node_info memory_info b ihb.0) va vb f u iha.2 ihb.2)))
  compute_constant-Folds _ _ (mux l c a b vc va vb p o wa wb sa sb rc ra rb) =
      let ihc = compute_constant-Folds c vc rc in
      let iha = compute_constant-Folds a va ra in
      let ihb = compute_constant-Folds b vb rb in
      Folds-cong _ _ _ _ _ _ (three_children l c a b ihc.0 iha.0 ihb.0 ihc.1 iha.1 ihb.1) refl (
        own-Folds l _ (sign_after l) _
          (Runs-InRange node_info node_value _ _ (mux l c a b vc va vb p o wa wb sa sb rc ra rb))
          (Folds-cong _ _ _ _ _ _ (mux_entry l c a b ihc.0 iha.0 ihb.0 p o)
            (sign_plain l (op_mux_plain l.op_type o).1)
            (
              _,
              refl,
              mux-Holds g l.width l.sign (operand g t false node_info memory_info c ihc.0)
                  (operand g t false node_info memory_info a iha.0)
                  (operand g t false node_info memory_info b ihb.0) vc va vb ihc.2
                  (subst₂ (λ x y. Holds x y iha.0 va) wa sa iha.2)
                  (subst₂ (λ x y. Holds x y ihb.0 vb) wb sb ihb.2),
            )))
