-- ===== src/ExprOpt/Meaning.antt =====
-- What treeOpt gives means what the tree means.
use gsim.Prelude.{
  ℕ, zero, suc, Bool, true, false, List, ◌∷◌, Option, none, some, ◌==◌, ==_iff, if◌then◌else◌,
  ◌>>=◌, some_of_bind, ◌≡◌, refl, sym, ap, ap₂, ◌∙◌,
}
use mathlib.Core.Path.{subst}
use gsim.Tree.{Label, ENode, enode, Children, no_more, child, null, label}
use gsim.ExprOpt.{
  child_at, branch_eq, Slot, slot_at, rebuild, descend, Kind, choice, reset_cast, sign_cast, plain,
  kind, same_bool, same_shape, opt_enode, tree_opt, opt_each,
}
use gsim.ExprOpt.Branches.{NoMemory-child_at, first_child, next_children}
use gsim.ExprOpt.Laws.{Value, Laws, FitsAt, FitsKind, Fitting, AllFitting, eval-Shaped}
use gsim.ExprOpt.Equal.{
  NoMemory, NoMemories, eval, eval_children, eval-sub_tree_eq, and_left, and_right, same_bool_sound,
}

module _ (rv : ℕ → Option ℕ) (mean : Label → List (Option Value) → Value) where
  module _ (laws : Laws rv mean) where
    -- What is known of the children when the body of an enode runs.
    record Done (cs : Children) (slots : List Slot) : Type 0 where
      at :
          (i : ℕ) (r : ENode)
          → slot_at slots i ≡ some r
          → (e : ENode) × (child_at cs i ≡ some (some e)) × (eval rv mean r ≡ eval rv mean e)
      all :
          (ds : Children)
          → rebuild slots ≡ some ds
          → eval_children rv mean ds ≡ eval_children rv mean cs

    descend_means :
        (l : Label) (cs : Children) (slots : List Slot) (r : ENode)
        → Done cs slots
        → descend l slots ≡ some r
        → eval rv mean r ≡ mean l (eval_children rv mean cs)
    descend_means l cs slots r h e =
        let (ds, p, q) = some_of_bind (rebuild slots) (λ ds. some (enode l ds)) r e in
        let same : enode l ds ≡ r = cc q in ap (eval rv mean) (sym same) ∙ ap (mean l) (h.all ds p)

    choice_means :
        (l : Label) (cs : Children) (slots : List Slot) (r : ENode) (a b : Option ENode) (t : Bool)
        → kind l.op_type ≡ choice
        → FitsAt l (child_at cs 1)
        → NoMemories cs
        → Done cs slots
        → child_at cs 1 ≡ some a
        → child_at cs 2 ≡ some b
        → branch_eq rv a b ≡ some t
        → (if t then slot_at slots 1 else descend l slots) ≡ some r
        → eval rv mean r ≡ mean l (eval_children rv mean cs)
    choice_means l cs slots r a b false k fits m h p q e w = descend_means l cs slots r h w
    choice_means l cs slots r none none true k fits m h p q e w = cc e
    choice_means l cs slots r none (some f) true k fits m h p q e w = cc e
    choice_means l cs slots r (some x) none true k fits m h p q e w = cc e
    choice_means l cs slots r (some x) (some f) true k fits m h p q e w =
        let (y, found, value) = h.at 1 r w in
        let same : y ≡ x = cc (sym found ∙ p) in
        let equal =
          eval-sub_tree_eq rv mean laws.similar x f (NoMemory-child_at cs 1 x m p)
            (NoMemory-child_at cs 2 f m q) e in
        let (c, vs, shape) = next_children rv mean cs x f p q in
        let (width, sign) = subst (FitsAt l) p fits in
        value
        ∙ ap (eval rv mean) same
        ∙ sym (laws.chosen l c (eval rv mean x) vs k (eval-Shaped rv mean laws l x width sign))
        ∙ ap (λ v. mean l (c ∷ some (eval rv mean x) ∷ some v ∷ vs)) equal
        ∙ ap (mean l) (sym shape)

    sign_means :
        (l : Label) (cs : Children) (slots : List Slot) (r e : ENode) (t : Bool)
        → kind l.op_type ≡ sign_cast
        → Done cs slots
        → child_at cs 0 ≡ some (some e)
        → same_shape l (label e) ≡ t
        → (if t then slot_at slots 0 else some (enode l cs)) ≡ some r
        → eval rv mean r ≡ mean l (eval_children rv mean cs)
    sign_means l cs slots r e false k h p q w =
        let same : enode l cs ≡ r = cc w in ap (eval rv mean) (sym same)
    sign_means l cs slots r x true k h p q w =
        let (y, found, value) = h.at 0 r w in
        let same : y ≡ x = cc (sym found ∙ p) in
        let (vs, shape) = first_child rv mean cs x p in
        let width =
          (==_iff (label x).width l.width).0
            (and_right (same_bool (label x).sign l.sign) ((label x).width == l.width) q) in
        let sign =
          same_bool_sound (label x).sign l.sign
            (and_left (same_bool (label x).sign l.sign) ((label x).width == l.width) q) in
        value
        ∙ ap (eval rv mean) same
        ∙ sym (laws.as_sign l (eval rv mean x) vs k (eval-Shaped rv mean laws l x width sign))
        ∙ ap (mean l) (sym shape)

    opt_enode_means :
        (l : Label) (cs : Children) (slots : List Slot) (r : ENode)
        → FitsKind (kind l.op_type) l cs
        → NoMemories cs
        → Done cs slots
        → opt_enode rv l cs slots ≡ some r
        → eval rv mean r ≡ mean l (eval_children rv mean cs)
    unfolding opt_enode
    opt_enode_means l cs slots r fits m h = by_kind (kind l.op_type) refl fits
      where
        by_kind :
            (k : Kind)
            → kind l.op_type ≡ k
            → FitsKind k l cs
            → (elim k [
              | choice ↦ (do
                a ← child_at cs 1
                b ← child_at cs 2
                t ← branch_eq rv a b
                if t then slot_at slots 1 else descend l slots)
              | reset_cast ↦ slot_at slots 0
              | sign_cast ↦ (do
                a ← child_at cs 0
                e ← a
                if same_shape l (label e) then slot_at slots 0 else some (enode l cs))
              | plain ↦ descend l slots
            ])
              ≡ some r
            → eval rv mean r ≡ mean l (eval_children rv mean cs)
        by_kind choice k fits e =
            let (a, p, e1) = some_of_bind (child_at cs 1) _ r e in
            let (b, q, e2) = some_of_bind (child_at cs 2) _ r e1 in
            let (t, u, e3) = some_of_bind (branch_eq rv a b) _ r e2 in
            choice_means l cs slots r a b t k fits m h p q u e3
        by_kind reset_cast k fits e =
            let (y, found, value) = h.at 0 r e in
            let (vs, shape) = first_child rv mean cs y found in
            let (width, sign) = subst (FitsAt l) found fits in
            value
            ∙ sym (laws.as_reset l (eval rv mean y) vs k (eval-Shaped rv mean laws l y width sign))
            ∙ ap (mean l) (sym shape)
        by_kind sign_cast k fits e =
            let (a, p, e1) = some_of_bind (child_at cs 0) _ r e in
            let (x, q, e2) = some_of_bind a _ r e1 in
            sign_means l cs slots r x (same_shape l (label x)) k h (p ∙ ap some q) refl e2
        by_kind plain k fits e = descend_means l cs slots r h e

    mutual
      unfolding tree_opt rebuild

      tree_means :
          (e r : ENode)
          → Fitting e
          → NoMemory e
          → tree_opt rv e ≡ some r
          → eval rv mean r ≡ eval rv mean e
      tree_means (enode l cs) r (fits, fs) (_, ms) e =
          opt_enode_means l cs (opt_each rv cs) r fits ms
            (record { at = at_means cs fs ms; all = all_mean cs fs ms }) e

      at_means :
          (cs : Children)
          → AllFitting cs
          → NoMemories cs
          → (i : ℕ) (r : ENode) → slot_at (opt_each rv cs) i ≡ some r
          → (e : ENode) × (child_at cs i ≡ some (some e)) × (eval rv mean r ≡ eval rv mean e)
      at_means no_more fs ms i r p = cc p
      at_means (child e cs) (f, fs) (m, ms) zero r p = (e, refl, tree_means e r f m p)
      at_means (child e cs) (f, fs) (m, ms) (suc i) r p = at_means cs fs ms i r p
      at_means (null cs) fs ms zero r p = cc p
      at_means (null cs) fs ms (suc i) r p = at_means cs fs ms i r p

      all_mean :
          (cs : Children)
          → AllFitting cs
          → NoMemories cs
          → (ds : Children) → rebuild (opt_each rv cs) ≡ some ds
          → eval_children rv mean ds ≡ eval_children rv mean cs
      all_mean no_more fs ms ds p =
          let same : no_more ≡ ds = cc p in ap (eval_children rv mean) (sym same)
      all_mean (child e cs) (f, fs) (m, ms) ds p =
          let (x, q, p1) = some_of_bind (tree_opt rv e) _ ds p in
          let (xs, u, p2) =
            some_of_bind (rebuild (opt_each rv cs)) (λ xs. some (child x xs)) ds p1 in
          let same : child x xs ≡ ds = cc p2 in
          ap (eval_children rv mean) (sym same)
          ∙ ap₂ (λ v vs. some v ∷ vs) (tree_means e x f m q) (all_mean cs fs ms xs u)
      all_mean (null cs) fs ms ds p =
          let (xs, u, p1) = some_of_bind (rebuild (opt_each rv cs)) (λ xs. some (null xs)) ds p in
          let same : null xs ≡ ds = cc p1 in
          ap (eval_children rv mean) (sym same) ∙ ap (λ vs. none ∷ vs) (all_mean cs fs ms xs u)

    -- For a meaning of the operators that gives each enode a value of its width and sign, that
    -- reads only the fields that checkENodeEq compares and the memory, and in which a mux or when
    -- of two equal values and a cast give the value where it has the width and sign of the enode
    -- and is in their range, the tree that treeOpt makes has the value of the tree, if that is
    -- without memories and the first branch of each mux and when and the operand of each
    -- asAsyncReset have the width and sign of their enode.
    pub eval-tree_opt :
        (e r : ENode)
        → Fitting e
        → NoMemory e
        → tree_opt rv e ≡ some r
        → eval rv mean r ≡ eval rv mean e
    eval-tree_opt e r f m p = tree_means e r f m p
