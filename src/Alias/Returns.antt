-- ===== src/Alias/Returns.antt =====
-- replace gives a tree where references to aliased nodes have no indices.
use gsim.Prelude.{Option, none, some, ◌>>=◌, ℕ, ◌≡◌, refl, ap, ◌∙◌}
use gsim.Tree.{Label, ENode, enode, Children, no_more, child, null}
use gsim.Tree.Copies.{dup}
use gsim.Alias.{
  with_width, alias_of, replacement, replace_child, replace_children, replace_below, replace,
}
use gsim.Alias.Free.{
  Free, Plain, PlainAll, Free-Plain, replacement-no_more, replacement-Free, replace-Free,
}

module _ (alias_map : ℕ → Option ENode) where
  replacement_returns :
      (l : Label) (cs : Children) (a : ENode)
      → cs ≡ no_more
      → (r : ENode) × (replacement alias_map l cs a ≡ some r)
  replacement_returns l cs a bare = (
    with_width l.width (dup a),
    ap (λ ds. replacement alias_map l ds a) bare ∙ replacement-no_more alias_map l a,
  )

  mutual
    unfolding replace_child

    child_returns :
        (e : ENode) → Plain alias_map e → (r : ENode) × (replace_child alias_map e ≡ some r)
    child_returns (enode l cs) (bare, plain) =
        by_alias (alias_of alias_map l.node_ptr) refl (children_return cs plain)
      where
        by_alias :
            (o : Option ENode)
            → alias_of alias_map l.node_ptr ≡ o
            → ((ds : Children) × (replace_children alias_map cs ≡ some ds))
            → (r : ENode) × ((elim o [
              | none ↦ replace_children alias_map cs >>= λ ds. some (enode l ds)
              | some a ↦ replacement alias_map l cs a
            ])
                ≡ some r)
        by_alias none e (ds, q) = (enode l ds, rw q refl)
        by_alias (some a) e below = replacement_returns l cs a (bare a e)

    children_return :
        (cs : Children)
        → PlainAll alias_map cs
        → (ds : Children) × (replace_children alias_map cs ≡ some ds)
    children_return no_more plain = (no_more, refl)
    children_return (child e cs) (plain, plains) =
        let (x, p) = child_returns e plain in
        let (ds, q) = children_return cs plains in (child x ds, rw (p, q) refl)
    children_return (null cs) plain = let (ds, q) = children_return cs plain in (null ds, rw q refl)

  below_returns :
      (e : ENode) → Plain alias_map e → (r : ENode) × (replace_below alias_map e ≡ some r)
  below_returns (enode l cs) (_, plain) =
      let (ds, q) = children_return cs plain in (enode l ds, rw q refl)

  -- When the trees of the alias map refer to no node of the map, and references to such nodes in a
  -- root have no indices, ExpTree::replace gives a tree, and that refers to no node of the map.
  pub replace_returns :
      (root : ENode)
      → ((v : ℕ) (a : ENode) → alias_map v ≡ some a → Free alias_map a)
      → Plain alias_map root
      → (r : ENode) × (replace alias_map root ≡ some r) × Free alias_map r
  unfolding replace
  replace_returns (enode l cs) closed (bare, plain) =
      let (r, p) = by_alias (alias_of alias_map l.node_ptr) refl in
      (r, p, replace-Free alias_map closed (enode l cs) r (bare, plain) p)
    where
      by_alias :
          (o : Option ENode)
          → alias_of alias_map l.node_ptr ≡ o
          → (r : ENode) × (((elim o [
            | none ↦ some (enode l cs)
            | some a ↦ replacement alias_map l cs a
          ])
                >>= λ e. replace_below alias_map e)
              ≡ some r)
      by_alias none e = below_returns (enode l cs) (bare, plain)
      by_alias (some a) e =
          let (x, q) = replacement_returns l cs a (bare a e) in
          let (r, p) =
            below_returns x (
              Free-Plain alias_map x (replacement-Free alias_map closed l cs a x e (bare a e) q)) in
          (r, rw q p)
