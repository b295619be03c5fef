-- ===== src/Connect/Prev.antt =====
-- The predecessors that updateConnect gives, read off the expression trees and the memory ports.
use gsim.Prelude.{
  ℕ, zero, suc, ◌+◌, ◌≤◌, Bool, true, false, List, [], ◌∷◌, ◌++◌, Option, none, some, if◌then◌else◌,
  ◌≡◌, refl, arith, inl, inr, ◌⊎◌, ◌↔◌, Memᴰ-cons,
}
use mathlib.Core.List.{Memᴰ}
use mathlib.Core.List.Memᴰ
use mathlib.Core.Logic.{⊎_elim}
use gsim.Circuit.{NodeType, node_reg_src, node_reader, node_writer}
use gsim.Tree.{ENode, enode, Children, no_more, child, null}
use gsim.Tree.Mentions.{ExpTree, Mentions, MentionsIn, MentionsAny, sizes, children_size}
use gsim.Relations.{Relations, connect_prev, connect_next}
use gsim.Relations.Laws.{Memᴰ-insert_at}
use gsim.Connect.{
  Node, connect_some, connect_loop, children_list, is_reader, is_writer, tree_queue,
  connect_writers, connect_readers, update_connect, update_all,
}

MentionsAny-append :
    (v : ℕ) (es fs : List ENode) → MentionsAny v (es ++ fs) ↔ (MentionsAny v es ⊎ MentionsAny v fs)
MentionsAny-append v [] fs = (inr, ⊎_elim (λ e. absurd e) (λ m. m))
MentionsAny-append v (e ∷ es) fs = ground (arith, MentionsAny-append v es fs)

sizes-append : (es fs : List ENode) → sizes (es ++ fs) ≡ sizes es + sizes fs
sizes-append [] fs = omega arith
sizes-append (e ∷ es) fs = omega (arith, sizes-append es fs)

sizes-children_list : (cs : Children) → sizes (children_list cs) ≡ children_size cs
sizes-children_list no_more = refl
sizes-children_list (child e cs) = omega (arith, sizes-children_list cs)
sizes-children_list (null cs) = sizes-children_list cs

MentionsAny-children_list :
    (v : ℕ) (cs : Children) → MentionsAny v (children_list cs) ↔ MentionsIn v cs
MentionsAny-children_list v no_more = (λ e. e, λ e. e)
MentionsAny-children_list v (child e cs) = ground (arith, MentionsAny-children_list v cs)
MentionsAny-children_list v (null cs) = MentionsAny-children_list v cs

Memᴰ-connect_some :
    (this : ℕ) (p : Option ℕ) (r : Relations) (u v : ℕ)
    → Memᴰ u ((connect_some this p r).prev v) ↔ ((v ≡ this) × (p ≡ some u) ⊎ Memᴰ u (r.prev v))
Memᴰ-connect_some this none r u v = (inr, ⊎_elim (λ (_, e). cc e) (λ m. m))
Memᴰ-connect_some this (some p) r u v = ground (arith, Memᴰ-insert_at r.prev this p v u)

Memᴰ-connect_loop :
    (fuel this : ℕ) (q : List ENode) (r : Relations) (u v : ℕ)
    → sizes q ≤ fuel
    → Memᴰ u ((connect_loop fuel this q r).prev v)
      ↔ ((v ≡ this) × MentionsAny u q ⊎ Memᴰ u (r.prev v))
unfolding connect_loop
Memᴰ-connect_loop zero this [] r u v h = (inr, ⊎_elim (λ (_, e). absurd e) (λ m. m))
Memᴰ-connect_loop zero this (enode l cs ∷ q) r u v h = absurd (omega arith)
Memᴰ-connect_loop (suc fuel) this [] r u v h = (inr, ⊎_elim (λ (_, e). absurd e) (λ m. m))
Memᴰ-connect_loop (suc fuel) this (enode l cs ∷ q) r u v h =
    let ih =
      Memᴰ-connect_loop fuel this (q ++ children_list cs) (connect_some this l.node_ptr r) u v
        (omega (arith, sizes-append q (children_list cs), sizes-children_list cs)) in
    ground (
      arith,
      ih,
      Memᴰ-connect_some this l.node_ptr r u v,
      MentionsAny-append u q (children_list cs),
      MentionsAny-children_list u cs,
    )

-- A tree of the list refers to the node.
abbrev pub MentionsTrees : ℕ → List ExpTree → Type 0
MentionsTrees v [] = ⊥
MentionsTrees v (tree ∷ trees) =
    Mentions v tree.root ⊎ MentionsAny v tree.lvalue_child ⊎ MentionsTrees v trees

MentionsAny-tree_queue :
    (v : ℕ) (trees : List ExpTree) → MentionsAny v (tree_queue trees) ↔ MentionsTrees v trees
unfolding tree_queue
MentionsAny-tree_queue v [] = (λ e. e, λ e. e)
MentionsAny-tree_queue v (tree ∷ trees) = ground (
  arith,
  MentionsAny-tree_queue v trees,
  MentionsAny-append v tree.lvalue_child (tree_queue trees),
)

-- One edge that is added under a test.
Memᴰ-tested :
    (b : Bool) (r s : Relations) (x y u v : ℕ)
    → (Memᴰ u (s.prev v) ↔ ((v ≡ x) × (u ≡ y) ⊎ Memᴰ u (r.prev v)))
    → Memᴰ u ((if b then s else r).prev v) ↔ ((b ≡ true) × (v ≡ x) × (u ≡ y) ⊎ Memᴰ u (r.prev v))
Memᴰ-tested true r s x y u v h = ground (arith, h)
Memᴰ-tested false r s x y u v h = (inr, ⊎_elim (λ (e, _, _). cc e) (λ m. m))

-- Two steps that each add some: what both add.
both {ℓ} :
    {after middle before first second : Type ℓ}
    → (after ↔ (second ⊎ middle))
    → (middle ↔ (first ⊎ before))
    → (after ↔ ((first ⊎ second) ⊎ before))
both h k = (
  λ m. elim (h.0 m) [ inl e ↦ inl (inr e) | inr e ↦ ⊎_elim (λ o. inl (inl o)) inr (k.0 e) ],
  λ m. elim m [
    | inl (inl o) ↦ h.1 (inr (k.1 (inl o)))
    | inl (inr e) ↦ h.1 (inl e)
    | inr e ↦ h.1 (inr (k.1 (inr e)))
  ],
)

module _ (node : ℕ → Node) where
  Memᴰ-connect_writers :
      (this : ℕ) (ports : List ℕ) (r : Relations) (u v : ℕ)
      → Memᴰ u ((connect_writers node this ports r).prev v)
        ↔ ((u ≡ this) × Memᴰ v ports × (is_writer (node v).node_type ≡ true) ⊎ Memᴰ u (r.prev v))
  unfolding connect_writers
  Memᴰ-connect_writers this [] r u v = (inr, ⊎_elim (λ (_, m, _). absurd (Memᴰ.not-nil m)) (λ m. m))
  Memᴰ-connect_writers this (port ∷ ports) r u v =
      let test = is_writer (node port).node_type in
      let first =
        Memᴰ-tested test r (connect_next this port r) port this u v
          (Memᴰ-insert_at r.prev port this v u) in
      let ih = Memᴰ-connect_writers this ports (if test then connect_next this port r else r) u v in
      ground (arith, first, ih, Memᴰ-cons v port ports)

  Memᴰ-connect_readers :
      (this : ℕ) (ports : List ℕ) (r : Relations) (u v : ℕ)
      → Memᴰ u ((connect_readers node this ports r).prev v)
        ↔ ((v ≡ this) × Memᴰ u ports × (is_reader (node u).node_type ≡ true) ⊎ Memᴰ u (r.prev v))
  unfolding connect_readers
  Memᴰ-connect_readers this [] r u v = (inr, ⊎_elim (λ (_, m, _). absurd (Memᴰ.not-nil m)) (λ m. m))
  Memᴰ-connect_readers this (port ∷ ports) r u v =
      let test = is_reader (node port).node_type in
      let first =
        Memᴰ-tested test r (connect_prev this port r) this port u v
          (Memᴰ-insert_at r.prev this port v u) in
      let ih = Memᴰ-connect_readers this ports (if test then connect_prev this port r else r) u v in
      ground (arith, first, ih, Memᴰ-cons u port ports)

  -- The node w of this type gives v the predecessor u.
  abbrev pub GivesAt : NodeType → ℕ → ℕ → ℕ → Type 0
  GivesAt t w u v = elim t [
    | node_reg_src ↦ ⊥
    | node_reader ↦
        (v ≡ w) × MentionsTrees u (node w).assign_tree
        ⊎ (u ≡ w) × Memᴰ v (node (node w).parent).member × (is_writer (node v).node_type ≡ true)
    | node_writer ↦
        (v ≡ w) × MentionsTrees u (node w).assign_tree
        ⊎ (v ≡ w) × Memᴰ u (node (node w).parent).member × (is_reader (node u).node_type ≡ true)
    | _ ↦ (v ≡ w) × MentionsTrees u (node w).assign_tree
  ]

  -- One of the nodes gives v the predecessor u.
  abbrev pub Gives : List ℕ → ℕ → ℕ → Type 0
  Gives [] u v = ⊥
  Gives (w ∷ ws) u v = GivesAt (node w).node_type w u v ⊎ Gives ws u v

  Memᴰ-update_connect :
      (w : ℕ) (r : Relations) (u v : ℕ)
      → Memᴰ u ((update_connect node w r).prev v)
        ↔ (GivesAt (node w).node_type w u v ⊎ Memᴰ u (r.prev v))
  unfolding update_connect
  Memᴰ-update_connect w r u v = by_type (node w).node_type
    where
      q : List ENode
      q = tree_queue (node w).assign_tree

      s : Relations
      s = connect_loop (sizes q) w q r

      ports : List ℕ
      ports = (node (node w).parent).member

      own : Memᴰ u (s.prev v) ↔ ((v ≡ w) × MentionsTrees u (node w).assign_tree ⊎ Memᴰ u (r.prev v))
      own =
          let all = Memᴰ-connect_loop (sizes q) w q r u v (omega arith) in
          let trees = MentionsAny-tree_queue u (node w).assign_tree in
          (
            λ m. ⊎_elim (λ (e, k). inl (e, trees.0 k)) inr (all.0 m),
            λ m. all.1 (⊎_elim (λ (e, k). inl (e, trees.1 k)) inr m),
          )

      after : NodeType → Relations
      after t = elim t [
        | node_reg_src ↦ r
        | node_reader ↦ connect_writers node w ports s
        | node_writer ↦ connect_readers node w ports s
        | _ ↦ s
      ]

      by_type : (t : NodeType) → Memᴰ u ((after t).prev v) ↔ (GivesAt t w u v ⊎ Memᴰ u (r.prev v))
      by_type node_reg_src = (inr, ⊎_elim (λ e. absurd e) (λ m. m))
      by_type node_reader = both (Memᴰ-connect_writers w ports s u v) own
      by_type node_writer = both (Memᴰ-connect_readers w ports s u v) own
      by_type _ = own

  -- updateConnect of a list of nodes adds to prev exactly the predecessors that their trees give.
  pub Memᴰ-update_all :
      (ws : List ℕ) (r : Relations) (u v : ℕ)
      → Memᴰ u ((update_all node ws r).prev v) ↔ (Gives ws u v ⊎ Memᴰ u (r.prev v))
  unfolding update_all
  Memᴰ-update_all [] r u v = (inr, ⊎_elim (λ e. absurd e) (λ m. m))
  Memᴰ-update_all (w ∷ ws) r u v =
      both (Memᴰ-update_all ws (update_connect node w r) u v) (Memᴰ-update_connect w r u v)
