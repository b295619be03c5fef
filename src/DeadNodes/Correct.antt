-- ===== src/DeadNodes/Correct.antt =====
-- The marks of removeDeadNodes are what the roots reach.
use gsim.Prelude.{
  ℕ, zero, suc, true, List, [], ◌∷◌, Option, none, some, ◌≡◌, ◌≢◌, refl, sym, arith, inl, inr, ◌⊎◌,
  ◌↔◌, List-cases, Memᴰ-cons,
}
use mathlib.Core.List.{Memᴰ}
use mathlib.Core.List.Memᴰ
use mathlib.Core.Logic.{⊎_elim}
use mathlib.Core.Path.{subst}
use gsim.Circuit.{NodeType, node_reg_src, node_reader, node_ext_out}
use gsim.Tree.Mentions.{ExpTree, Mentions, MentionsAny, Memᴰ-get_rely_nodes}
use gsim.DeadNodes.{
  Node, Search, is_write_port, write_ports, reset_nodes, relied, add_all, expand, loop, start,
  reach,
}
use gsim.DeadNodes.Loop.{Marked, Marked-add_all, Memᴰ-add_all}

-- A reset tree refers to the node.
abbrev pub ResetMentions : ℕ → Option ExpTree → Type 0
ResetMentions v none = ⊥
ResetMentions v (some tree) = Mentions v tree.root ⊎ MentionsAny v tree.lvalue_child

module _ (node : ℕ → Node) where
  -- What a node relies on: its predecessors, the destination and the reset of a register, the write
  -- ports of the memory of a reader, and all of the external module of one of its outputs.
  abbrev pub ReliesBesides : NodeType → Node → ℕ → Type 0
  ReliesBesides t u v = elim t [
    | node_reg_src ↦ (v ≡ u.dst) ⊎ ResetMentions v u.reset_tree
    | node_reader ↦ Memᴰ v (node u.parent).member × (is_write_port (node v).node_type ≡ true)
    | node_ext_out ↦ Memᴰ v (node u.parent).member
    | _ ↦ ⊥
  ]

  abbrev pub Relies : ℕ → ℕ → Type 0
  Relies u v = Memᴰ v (node u).prev ⊎ ReliesBesides (node u).node_type (node u) v

  pub data Reached (from : List ℕ) : ℕ → Type 0 where
    root : {v : ℕ} → Memᴰ v from → Reached from v
    relies : {u v : ℕ} → Reached from u → Relies u v → Reached from v

  Memᴰ-write_ports :
      (epoch : ℕ) (ps : List ℕ) (v : ℕ)
      → Memᴰ v (write_ports node epoch ps) ↔ (Memᴰ v ps × (is_write_port (node v).node_type ≡ true))
  unfolding write_ports
  Memᴰ-write_ports epoch [] v = (λ m. absurd (Memᴰ.not-nil m), λ (m, _). absurd (Memᴰ.not-nil m))
  Memᴰ-write_ports epoch (p ∷ ps) v = ground (
    arith,
    Memᴰ-write_ports epoch ps v,
    Memᴰ-cons v p ps,
    Memᴰ-cons v p (write_ports node epoch ps),
  )

  Memᴰ-reset_nodes :
      (epoch : ℕ) (tree : Option ExpTree) (v : ℕ)
      → Memᴰ v (reset_nodes node epoch tree) ↔ ResetMentions v tree
  unfolding reset_nodes
  Memᴰ-reset_nodes epoch none v = (λ m. Memᴰ.not-nil m, λ e. absurd e)
  Memᴰ-reset_nodes epoch (some tree) v =
      let all = Memᴰ-get_rely_nodes tree [] v in
      (
        λ m. elim (all.0 m) [
          | inl r ↦ inl r
          | inr (inl l) ↦ inr l
          | inr (inr e) ↦ absurd (Memᴰ.not-nil e)
        ],
        ⊎_elim (λ r. all.1 (inl r)) (λ l. all.1 (inr (inl l))),
      )

  Memᴰ-relied :
      (epoch : ℕ) (u : Node) (v : ℕ) → Memᴰ v (relied node epoch u) ↔ ReliesBesides u.node_type u v
  unfolding relied
  Memᴰ-relied epoch u v = by_type u.node_type
    where
      by_type :
          (t : NodeType)
          → Memᴰ v (elim t [
            | node_reg_src ↦ u.dst ∷ reset_nodes node epoch u.reset_tree
            | node_reader ↦ write_ports node epoch (node u.parent).member
            | node_ext_out ↦ (node u.parent).member
            | _ ↦ []
          ])
            ↔ ReliesBesides t u v
      by_type node_reg_src = ground (
        arith,
        Memᴰ-cons v u.dst (reset_nodes node epoch u.reset_tree),
        Memᴰ-reset_nodes epoch u.reset_tree v,
      )
      by_type node_reader = Memᴰ-write_ports epoch (node u.parent).member v
      by_type node_ext_out = (λ m. m, λ m. m)
      by_type _ = (λ m. Memᴰ.not-nil m, λ e. absurd e)

  module _ (epoch : ℕ) (from : List ℕ) where
    record Inv (s : Search) : Type 0 where
      source : (v : ℕ) → Memᴰ v from → Marked node epoch s v
      queued : (v : ℕ) → Memᴰ v s.pending → Marked node epoch s v
      sound : (v : ℕ) → Marked node epoch s v → Reached from v
      closed :
          (u v : ℕ) → Marked node epoch s u → Relies u v → Memᴰ u s.pending ⊎ Marked node epoch s v

    abbrev taken : Search → List ℕ → Search
    taken s rest = record { pending = rest; reach_epoch = s.reach_epoch }

    Marked-expand :
        (s : Search) (top : ℕ) (rest : List ℕ) (w : ℕ)
        → Marked node epoch (expand node epoch s top rest) w
          ↔ (Marked node epoch s w ⊎ Relies top w)
    unfolding expand
    Marked-expand s top rest w =
        let first = Marked-add_all node epoch (node top).prev (taken s rest) w in
        let second =
          Marked-add_all node epoch (relied node epoch (node top))
            (add_all node epoch (node top).prev (taken s rest)) w in
        let other = Memᴰ-relied epoch (node top) w in
        (
          λ m. elim (second.0 m) [
            | inl a ↦ elim (first.0 a) [ inl b ↦ inl b | inr b ↦ inr (inl b) ]
            | inr a ↦ inr (inr (other.0 a))
          ],
          λ m. elim m [
            | inl b ↦ second.1 (inl (first.1 (inl b)))
            | inr (inl b) ↦ second.1 (inl (first.1 (inr b)))
            | inr (inr b) ↦ second.1 (inr (other.1 b))
          ],
        )

    -- The queue after a round, and the nodes that the round marked are in it.
    queue-expand :
        (s : Search) (top : ℕ) (rest : List ℕ) (w : ℕ)
        → (Memᴰ w (expand node epoch s top rest).pending
            → Memᴰ w rest ⊎ Marked node epoch (expand node epoch s top rest) w)
          × (Memᴰ w rest → Memᴰ w (expand node epoch s top rest).pending)
          × (Marked node epoch (expand node epoch s top rest) w
              → Marked node epoch s w ⊎ Memᴰ w (expand node epoch s top rest).pending)
    unfolding expand
    queue-expand s top rest w =
        let middle = add_all node epoch (node top).prev (taken s rest) in
        let m1 = Marked-add_all node epoch (node top).prev (taken s rest) w in
        let m2 = Marked-add_all node epoch (relied node epoch (node top)) middle w in
        let q1 = Memᴰ-add_all node epoch (node top).prev (taken s rest) w in
        let q2 = Memᴰ-add_all node epoch (relied node epoch (node top)) middle w in
        ground (arith, m1, m2, q1, q2)

    Inv-expand :
        (s : Search) (top : ℕ) (rest : List ℕ)
        → s.pending ≡ top ∷ rest
        → Inv s
        → Inv (expand node epoch s top rest)
    Inv-expand s top rest e h =
        let flags = λ (w : ℕ). Marked-expand s top rest w in
        let queue = λ (w : ℕ). queue-expand s top rest w in
        let was : (w : ℕ) → Memᴰ w (top ∷ rest) → Marked node epoch s w =
          λ w m. h.queued w (subst (Memᴰ w) (sym e) m) in
        let to_top = h.sound top (was top (Memᴰ.head refl)) in
        record {
          source = λ v m. (flags v).1 (inl (h.source v m));
          queued =
              λ v q. ⊎_elim (λ r. (flags v).1 (inl (was v (Memᴰ.tail r)))) (λ m. m) ((queue v).0 q);
          sound = λ v m. ⊎_elim (h.sound v) (relies to_top) ((flags v).0 m);
          closed = λ u v m r. elim ((queue u).2 m) [
            | inr q ↦ inl q
            | inl old ↦ elim (h.closed u v old r) [
              | inr k ↦ inr ((flags v).1 (inl k))
              | inl waiting ↦ elim (Memᴰ.cases_cons (subst (Memᴰ u) e waiting)) [
                | inl here ↦ inr ((flags v).1 (inr (subst (λ x. Relies x v) here r)))
                | inr q ↦ inl ((queue u).1 q)
              ]
            ]
          ];
        }

    loop-Inv :
        (fuel : ℕ) (s t : Search)
        → Inv s
        → loop node epoch fuel s ≡ some t
        → Inv t × (t.pending ≡ [])
    unfolding loop
    loop-Inv zero s t h e = elim (List-cases s.pending) [
      | inl empty ↦ ground arith
      | inr (top, rest, p) ↦ ground arith
    ]
    loop-Inv (suc fuel) s t h e = elim (List-cases s.pending) [
      | inl empty ↦ ground arith
      | inr (top, rest, p) ↦
          loop-Inv fuel (expand node epoch s top rest) t (Inv-expand s top rest p h)
            (rw (p, loop) at e)
    ]

    Inv-start : (marks : ℕ → ℕ) → ((v : ℕ) → marks v ≢ epoch) → Inv (start node epoch from marks)
    Inv-start marks fresh =
        let none_yet : Search = record { pending = []; reach_epoch = marks } in
        let flags = λ (w : ℕ). Marked-add_all node epoch from none_yet w in
        let queue = λ (w : ℕ). Memᴰ-add_all node epoch from none_yet w in
        record {
          source = λ v m. (flags v).1 (inr m);
          queued = λ v q.
              ⊎_elim (λ m. absurd (Memᴰ.not-nil m)) (λ (m, _). (flags v).1 (inr m)) ((queue v).0 q);
          sound = λ v m. ⊎_elim (λ k. absurd (fresh v k)) root ((flags v).0 m);
          closed = λ u v m r. inl (
              ⊎_elim (λ k. absurd (fresh u k)) (λ k. (queue u).1 (inr (k, fresh u)))
                ((flags u).0 m));
        }

    complete :
        (t : Search) → Inv t → t.pending ≡ [] → {v : ℕ} → Reached from v → Marked node epoch t v
    complete t h e (root {v} m) = h.source v m
    complete t h e (relies {u} {v} p r) = elim (h.closed u v (complete t h e p) r) [
      | inl waiting ↦ absurd (Memᴰ.not-nil (subst (Memᴰ u) e waiting))
      | inr m ↦ m
    ]

  -- From marks without the epoch, a search that ends marks exactly the nodes that it reaches from its start.
  pub reach-Reached :
      (epoch fuel : ℕ) (from : List ℕ) (marks : ℕ → ℕ) (t : Search) (v : ℕ)
      → ((u : ℕ) → marks u ≢ epoch)
      → reach node epoch fuel from marks ≡ some t
      → (t.reach_epoch v ≡ epoch) ↔ Reached from v
  reach-Reached epoch fuel from marks t v fresh e =
      let (inv, empty) =
        loop-Inv epoch from fuel (start node epoch from marks) t (Inv-start epoch from marks fresh)
          e in
      (inv.sound v, complete epoch from t inv empty)
