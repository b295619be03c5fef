-- ===== src/Alias/Free.antt =====
-- After replace the tree is free of the nodes that the map of aliases has.
use gsim.Prelude.{ℕ, Option, none, some, ◌>>=◌, some_of_bind, ◌≡◌, refl, sym, ap, ◌∙◌}
use mathlib.Core.Path.{subst}
use gsim.Tree.{Label, ENode, enode, Children, no_more, child, null}
use gsim.Tree.Copies.{dup, dup_children}
use gsim.Alias.{
  add_copies, with_width, alias_of, replacement, replace_child, replace_children, replace_below,
  replace,
}

module _ (alias_map : ℕ → Option ENode) where
  abbrev pub FreeOf : Option ℕ → Type 0
  FreeOf none = Unit
  FreeOf (some v) = alias_map v ≡ none

  -- No enode of the tree refers to a node of the map.
  abbrev mutual
    pub Free : ENode → Type 0
    Free (enode l cs) = FreeOf l.node_ptr × FreeAll cs

    pub FreeAll : Children → Type 0
    FreeAll no_more = Unit
    FreeAll (child e cs) = Free e × FreeAll cs
    FreeAll (null cs) = FreeAll cs

  -- A reference to a node of the map has no indices.
  abbrev mutual
    pub Plain : ENode → Type 0
    Plain (enode l cs) =
        ((a : ENode) → alias_of alias_map l.node_ptr ≡ some a → cs ≡ no_more) × PlainAll cs

    pub PlainAll : Children → Type 0
    PlainAll no_more = Unit
    PlainAll (child e cs) = Plain e × PlainAll cs
    PlainAll (null cs) = PlainAll cs

  mutual
    unfolding dup

    dup-Free : (e : ENode) → Free e → Free (dup e)
    dup-Free (enode l cs) (f, fs) = (f, children_Free cs fs)

    children_Free : (cs : Children) → FreeAll cs → FreeAll (dup_children cs)
    children_Free no_more f = tt
    children_Free (child e cs) (f, fs) = (dup-Free e f, children_Free cs fs)
    children_Free (null cs) f = children_Free cs f

  alias-FreeOf : (p : Option ℕ) → alias_of alias_map p ≡ none → FreeOf p
  alias-FreeOf none e = tt
  alias-FreeOf (some v) e = e

  alias_of-none : (p : Option ℕ) → FreeOf p → alias_of alias_map p ≡ none
  alias_of-none none f = refl
  alias_of-none (some v) f = f

  mutual
    pub Free-Plain : (e : ENode) → Free e → Plain e
    Free-Plain (enode l cs) (f, fs) =
        (λ a e. cc (sym (alias_of-none l.node_ptr f) ∙ e), FreeAll-Plain cs fs)

    pub FreeAll-Plain : (cs : Children) → FreeAll cs → PlainAll cs
    FreeAll-Plain no_more f = tt
    FreeAll-Plain (child e cs) (f, fs) = (Free-Plain e f, FreeAll-Plain cs fs)
    FreeAll-Plain (null cs) f = FreeAll-Plain cs f

  add_copies-no_more : (cs : Children) → add_copies cs no_more ≡ some cs
  unfolding add_copies
  add_copies-no_more no_more = refl
  add_copies-no_more (child e cs) = rw (add_copies-no_more cs) refl
  add_copies-no_more (null cs) = rw (add_copies-no_more cs) refl

  pub with_width-Free : (w : ℕ) (e : ENode) → Free e → Free (with_width w e)
  with_width-Free w (enode l cs) f = f

  pub replacement-no_more :
      (l : Label) (a : ENode)
      → replacement alias_map l no_more a ≡ some (with_width l.width (dup a))
  unfolding dup
  replacement-no_more l (enode k ds) = rw (add_copies-no_more (dup_children ds)) refl

  module _ (closed : (v : ℕ) (a : ENode) → alias_map v ≡ some a → Free a) where
    alias_of-Free : (p : Option ℕ) (a : ENode) → alias_of alias_map p ≡ some a → Free a
    alias_of-Free none a e = cc e
    alias_of-Free (some v) a e = closed v a e

    pub replacement-Free :
        (l : Label) (cs : Children) (a r : ENode)
        → alias_of alias_map l.node_ptr ≡ some a
        → cs ≡ no_more
        → replacement alias_map l cs a ≡ some r
        → Free r
    replacement-Free l cs a r e bare p =
        let same : with_width l.width (dup a) ≡ r = cc (
          sym (replacement-no_more l a) ∙ ap (λ ds. replacement alias_map l ds a) (sym bare) ∙ p) in
        subst Free same
          (with_width-Free l.width (dup a) (dup-Free a (alias_of-Free l.node_ptr a e)))

    mutual
      unfolding replace_child

      child_Free : (e r : ENode) → Plain e → replace_child alias_map e ≡ some r → Free r
      child_Free (enode l cs) r (bare, plain) p =
          by_alias (alias_of alias_map l.node_ptr) refl p (λ ds q. all_Free cs ds plain q)
        where
          by_alias :
              (o : Option ENode)
              → alias_of alias_map l.node_ptr ≡ o
              → (elim o [
                | none ↦ replace_children alias_map cs >>= λ ds. some (enode l ds)
                | some a ↦ replacement alias_map l cs a
              ])
                ≡ some r
              → ((ds : Children) → replace_children alias_map cs ≡ some ds → FreeAll ds)
              → Free r
          by_alias none e q go =
              let (ds, q1, q2) =
                some_of_bind (replace_children alias_map cs) (λ ds. some (enode l ds)) r q in
              let same : enode l ds ≡ r = cc q2 in
              subst Free same (alias-FreeOf l.node_ptr e, go ds q1)
          by_alias (some a) e q go = replacement-Free l cs a r e (bare a e) q

      all_Free :
          (cs ds : Children) → PlainAll cs → replace_children alias_map cs ≡ some ds → FreeAll ds
      all_Free no_more ds plain p = let same : no_more ≡ ds = cc p in subst FreeAll same tt
      all_Free (child e cs) ds (plain, plains) p =
          let (x, q, p1) = some_of_bind (replace_child alias_map e) _ ds p in
          let (rest, q1, p2) =
            some_of_bind (replace_children alias_map cs) (λ rest. some (child x rest)) ds p1 in
          let same : child x rest ≡ ds = cc p2 in
          subst FreeAll same (child_Free e x plain q, all_Free cs rest plains q1)
      all_Free (null cs) ds plain p =
          let (rest, q, p1) =
            some_of_bind (replace_children alias_map cs) (λ rest. some (null rest)) ds p in
          let same : null rest ≡ ds = cc p1 in subst FreeAll same (all_Free cs rest plain q)

    replace_below-Free :
        (l : Label) (cs : Children) (r : ENode)
        → FreeOf l.node_ptr
        → PlainAll cs
        → replace_below alias_map (enode l cs) ≡ some r
        → Free r
    replace_below-Free l cs r f plain p =
        let (ds, q, p1) =
          some_of_bind (replace_children alias_map cs) (λ ds. some (enode l ds)) r p in
        let same : enode l ds ≡ r = cc p1 in subst Free same (f, all_Free cs ds plain q)

    again_Free : (e r : ENode) → Free e → replace_below alias_map e ≡ some r → Free r
    again_Free (enode l cs) r (f, fs) p = replace_below-Free l cs r f (FreeAll-Plain cs fs) p

    pub replace-Free : (root r : ENode) → Plain root → replace alias_map root ≡ some r → Free r
    unfolding replace
    replace-Free (enode l cs) r (bare, plain) p = by_alias (alias_of alias_map l.node_ptr) refl p
      where
        by_alias :
            (o : Option ENode)
            → alias_of alias_map l.node_ptr ≡ o
            → ((elim o [ none ↦ some (enode l cs) | some a ↦ replacement alias_map l cs a ])
                >>= λ e. replace_below alias_map e)
              ≡ some r
            → Free r
        by_alias none e q = replace_below-Free l cs r (alias-FreeOf l.node_ptr e) plain q
        by_alias (some a) e q =
            let (x, q1, q2) =
              some_of_bind (replacement alias_map l cs a) (λ e. replace_below alias_map e) r q in
            again_Free x r (replacement-Free l cs a x e (bare a e) q1) q2
