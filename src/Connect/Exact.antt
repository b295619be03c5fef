-- ===== src/Connect/Exact.antt =====
-- updateDep leaves the predecessors, so that those of reconnectAll are what updateConnect gives.
use gsim.Prelude.{
  ℕ, Bool, true, false, List, [], ◌∷◌, Option, none, some, if◌then◌else◌, ◌>>=◌, ◌≡◌, refl, sym, ap,
  ◌∙◌, inl, inr, ◌⊎◌, ◌↔◌, some_of_bind,
}
use mathlib.Core.List.{Memᴰ}
use mathlib.Core.List.Memᴰ
use mathlib.Core.Path.{subst}
use gsim.Relations.{Relations, depend}
use gsim.Connect.{
  Node, Super, is_reg_src, all_rely_nodes, depend_on, next_depend, reset_depend, value_depend,
  reset_cond, reset_value, update_dep, update_all, connect_dep, all_members, clear_all,
  reconnect_super, reconnect_all,
}
use gsim.Connect.Whole.{Alone, Alone-clear_all}
use gsim.Connect.Prev.{Gives, Memᴰ-update_all}

-- The predecessors are as given, where there is a result.
PrevIf : (ℕ → List ℕ) → Option Relations → Type 0
PrevIf p none = Unit
PrevIf p (some r) = r.prev ≡ p

PrevIf-after {ℓ} :
    {A : Type ℓ} (p : ℕ → List ℕ) (o : Option A) (f : A → Option Relations)
    → ((a : A) → PrevIf p (f a))
    → PrevIf p (o >>= f)
unfolding PrevIf
PrevIf-after p none f k = tt
PrevIf-after p (some a) f k = k a

PrevIf-bind :
    (p : ℕ → List ℕ) (o : Option Relations) (f : Relations → Option Relations)
    → PrevIf p o
    → ((r : Relations) → r.prev ≡ p → PrevIf p (f r))
    → PrevIf p (o >>= f)
unfolding PrevIf
PrevIf-bind p none f h k = tt
PrevIf-bind p (some r) f h k = k r h

prev-if : (b : Bool) (r s : Relations) → r.prev ≡ s.prev → (if b then r else s).prev ≡ s.prev
prev-if true r s e = e
prev-if false r s e = refl

module _ (node : ℕ → Node) where
  prev-depend_on :
      (this : ℕ) (ns : List ℕ) (r : Relations) → (depend_on node this ns r).prev ≡ r.prev
  unfolding depend_on
  prev-depend_on this [] r = refl
  prev-depend_on this (n ∷ ns) r = prev-depend_on this ns (depend n this r)

  prev-next_depend : (ns : List ℕ) (n : ℕ) (r : Relations) → (next_depend node ns n r).prev ≡ r.prev
  unfolding next_depend
  prev-next_depend [] n r = refl
  prev-next_depend (m ∷ ns) n r = prev-next_depend ns n (depend m n r)

  prev-dst :
      (o : Option ℕ) (n : ℕ) (r : Relations)
      → (elim o as (λ _. Relations) [ none ↦ r | some dst ↦ depend dst n r ]).prev ≡ r.prev
  prev-dst none n r = refl
  prev-dst (some dst) n r = refl

  prev-reset_depend :
      (this : ℕ) (ns : List ℕ) (r : Relations) → (reset_depend node this ns r).prev ≡ r.prev
  unfolding reset_depend
  prev-reset_depend this [] r = refl
  prev-reset_depend this (n ∷ ns) r =
      prev-reset_depend this ns _
      ∙ prev-dst (node this).dst n (next_depend node (r.next this) n (depend n this r))
      ∙ prev-next_depend (r.next this) n (depend n this r)

  prev-value_depend :
      (this : ℕ) (ns : List ℕ) (r : Relations) → (value_depend node this ns r).prev ≡ r.prev
  unfolding value_depend
  prev-value_depend this [] r = refl
  prev-value_depend this (n ∷ ns) r =
      prev-value_depend this ns _
      ∙ prev-if (is_reg_src (node n).node_type) (depend n this r) (depend this n r) refl

  PrevIf-update_dep : (this : ℕ) (r : Relations) → PrevIf r.prev (update_dep node this r)
  unfolding update_dep PrevIf
  PrevIf-update_dep this r =
      PrevIf-after r.prev (reset_cond node (node this).reset (node this).reset_tree) _ (λ cond.
        PrevIf-after r.prev (reset_value node (node this).reset_tree) _ (λ value.
          prev-value_depend this value _
          ∙ prev-reset_depend this cond _
          ∙ prev-depend_on this (all_rely_nodes node (node this).assign_tree []) r))

  PrevIf-connect_dep : (vs : List ℕ) (r : Relations) → PrevIf r.prev (connect_dep node vs r)
  unfolding connect_dep PrevIf
  PrevIf-connect_dep [] r = refl
  PrevIf-connect_dep (v ∷ vs) r =
      PrevIf-bind r.prev (if is_reg_src (node v).node_type then update_dep node v r else some r) _
        (by_test (is_reg_src (node v).node_type))
        (λ s e. subst (λ p. PrevIf p (connect_dep node vs s)) e (PrevIf-connect_dep vs s))
    where
      by_test : (b : Bool) → PrevIf r.prev (if b then update_dep node v r else some r)
      by_test true = PrevIf-update_dep v r
      by_test false = refl

-- When only members of super nodes have relations before, and reconnectAll ends with no failed
-- assertion, the predecessors of a node are exactly those that some member gives: the nodes that
-- the member's own trees refer to, the reader for each write port of its memory, and each read
-- port for a writer of its memory.
pub Memᴰ-reconnect_all :
    (node : ℕ → Node) (super_of : ℕ → Option ℕ) (supers : List Super) (nodes before r s : Relations)
    (u v : ℕ)
    → ((w : ℕ) → Memᴰ w (all_members supers) ⊎ Alone nodes w)
    → reconnect_all super_of node supers nodes before ≡ some (r, s)
    → Memᴰ u (r.prev v) ↔ Gives node (all_members supers) u v
unfolding reconnect_all PrevIf
Memᴰ-reconnect_all node super_of supers nodes before r s u v h e =
    let all = all_members supers in
    let cleared = clear_all all nodes in
    let (r1, run, after) =
      some_of_bind (connect_dep node all (update_all node all cleared))
        (λ r1. reconnect_super super_of supers r1 before >>= λ s1. some (r1, s1)) (r, s) e in
    let (s1, _, out) =
      some_of_bind (reconnect_super super_of supers r1 before) (λ s1. some (r1, s1)) (r, s) after in
    let same : r1.prev ≡ (update_all node all cleared).prev =
      subst (PrevIf (update_all node all cleared).prev) run
        (PrevIf-connect_dep node all (update_all node all cleared)) in
    let at_end : r1 ≡ r = cc out in
    let prevs : r.prev v ≡ (update_all node all cleared).prev v =
      ap (λ k. k.prev v) (sym at_end) ∙ ap (λ p. p v) same in
    let given = Memᴰ-update_all node all cleared u v in
    (
      λ m. elim (given.0 (subst (Memᴰ u) prevs m)) [
        | inl g ↦ g
        | inr old ↦
            absurd (Memᴰ.not-nil (subst (Memᴰ u) (Alone-clear_all all nodes v (h v)).no_prev old))
      ],
      λ g. subst (Memᴰ u) (sym prevs) (given.1 (inl g)),
    )
