-- ===== src/DeadNodes/Pass.antt =====
-- What removeDeadNodes leaves of the graph.
use gsim.Prelude.{
  ℕ, ◌<◌, Bool, true, false, not, ◌&&◌, ◌||◌, List, [], ◌∷◌, Option, none, some, ◌==◌, ==_iff,
  if◌then◌else◌, ◌>>=◌, some_of_bind, ◌≡◌, ◌≢◌, refl, sym, ap, ◌∙◌, arith, inl, inr, ◌⊎◌, ◌↔◌,
}
use mathlib.Core.List.{Memᴰ}
use mathlib.Core.List.Memᴰ
use mathlib.Core.Logic.{⊎_elim}
use mathlib.Core.Path.{subst}
use gsim.Circuit.{NodeStatus, dead_node}
use gsim.SuperGraph.{SuperNode, has_status, remove_nodes_no_connect}
use gsim.SuperGraph.Removal.{
  Member, NoneEmpty, Member-remove_nodes_no_connect, Member-remove_empty_super,
  NoneEmpty-remove_empty_super,
}
use gsim.DeadNodes.{
  Node, Graph, is_inp_or_out, mark_members, mark_dead, sweep, reach, roots, relied,
  remove_dead_nodes,
}
use gsim.DeadNodes.Correct.{Reached, relies, Relies, reach-Reached}
use gsim.DeadNodes.Loop.{Below, reach_returns}

module _ (node : ℕ → Node) (epoch : ℕ) where
  -- The pass keeps the node: a port of the circuit, or one with the mark.
  abbrev spared : (ℕ → ℕ) → ℕ → Bool
  spared marks v = is_inp_or_out (node v).node_type || marks v == epoch

  dead-next :
      (marks : ℕ → ℕ) (status : ℕ → NodeStatus) (u v : ℕ)
      → (has_status (if v == u && not (spared marks u) then dead_node else status v) dead_node
          ≡ false)
        ↔ ((has_status (status v) dead_node ≡ false) × (v ≡ u → spared marks v ≡ true))
  dead-next marks status u v = by_test (v == u) (spared marks u) refl refl
    where
      by_test :
          (t k : Bool)
          → (v == u) ≡ t
          → spared marks u ≡ k
          → (has_status (if t && not k then dead_node else status v) dead_node ≡ false)
            ↔ ((has_status (status v) dead_node ≡ false) × (v ≡ u → spared marks v ≡ true))
      by_test true true p q = (λ e. (e, λ same. ap (spared marks) same ∙ q), λ (e, _). e)
      by_test true false p q = (
        λ e. cc,
        λ (_, h). cc (sym q ∙ sym (ap (spared marks) ((==_iff v u).0 p)) ∙ h ((==_iff v u).0 p)),
      )
      by_test false k p q =
          (λ e. (e, λ same. absurd (cc (sym p ∙ (==_iff v u).1 same))), λ (e, _). e)

  dead-mark_members :
      (marks : ℕ → ℕ) (vs : List ℕ) (status : ℕ → NodeStatus) (v : ℕ)
      → (has_status (mark_members node epoch marks vs status v) dead_node ≡ false)
        ↔ ((has_status (status v) dead_node ≡ false) × (Memᴰ v vs → spared marks v ≡ true))
  unfolding mark_members
  dead-mark_members marks [] status v = (λ e. (e, λ m. absurd (Memᴰ.not-nil m)), λ (e, _). e)
  dead-mark_members marks (u ∷ us) status v =
      let next : ℕ → NodeStatus =
        λ w. if w == u && not (spared marks u) then dead_node else status w in
      let ih = dead-mark_members marks us next v in
      let one = dead-next marks status u v in
      (
        λ e.
            let (before, later) = ih.0 e in
            let (kept, here) = one.0 before in (kept, λ m. ⊎_elim here later (Memᴰ.cases_cons m)),
        λ (kept, h). ih.1 (one.1 (kept, λ e. h (Memᴰ.head e)), λ m. h (Memᴰ.tail m)),
      )

  dead-mark_dead :
      (marks : ℕ → ℕ) (supers : List SuperNode) (status : ℕ → NodeStatus) (v : ℕ)
      → (has_status (mark_dead node epoch marks supers status v) dead_node ≡ false)
        ↔ ((has_status (status v) dead_node ≡ false) × (Member v supers → spared marks v ≡ true))
  unfolding mark_dead
  dead-mark_dead marks [] status v = (λ e. (e, λ m. absurd m), λ (e, _). e)
  dead-mark_dead marks (super ∷ supers) status v =
      let ih = dead-mark_dead marks supers (mark_members node epoch marks super.member status) v in
      let one = dead-mark_members marks super.member status v in
      (
        λ e.
            let (before, later) = ih.0 e in
            let (kept, here) = one.0 before in (kept, λ m. ⊎_elim here later m),
        λ (kept, h). ih.1 (one.1 (kept, λ m. h (inl m)), λ m. h (inr m)),
      )

  Member-sweep :
      (g : Graph) (status : ℕ → NodeStatus) (v : ℕ)
      → Member v (sweep g status).sorted_super
        ↔ (Member v g.sorted_super × (has_status (status v) dead_node ≡ false))
  unfolding sweep
  Member-sweep g status v =
      let twice =
        Member-remove_empty_super (remove_nodes_no_connect dead_node status g.sorted_super) v in
      let once = Member-remove_nodes_no_connect dead_node status g.sorted_super v in
      (λ m. once.0 (twice.0 m), λ m. twice.1 (once.1 m))

  spared_iff :
      (marks : ℕ → ℕ) (v : ℕ)
      → (spared marks v ≡ true) ↔ ((is_inp_or_out (node v).node_type ≡ true) ⊎ (marks v ≡ epoch))
  spared_iff marks v = ground (arith, ==_iff (marks v) epoch)

  -- When no node has the mark of the pass or the status DEAD_NODE before, and the loop of
  -- removeDeadNodes ends, a node is a member of a super node afterwards if and only if it was one
  -- before and is an input, an output, or reached from the outputs, the special nodes and the
  -- nodes of external modules over the predecessors, a register's destination and reset, a
  -- reader's write ports and an external module's members.
  pub Member-remove_dead_nodes :
      (fuel : ℕ) (marks : ℕ → ℕ) (g after : Graph) (v : ℕ)
      → ((u : ℕ) → marks u ≢ epoch)
      → ((u : ℕ) → has_status (g.status u) dead_node ≡ false)
      → remove_dead_nodes node epoch fuel marks g ≡ some after
      → Member v after.sorted_super ↔ (
          Member v g.sorted_super
          × ((is_inp_or_out (node v).node_type ≡ true)
              ⊎ Reached node (roots node epoch g.output g.special_nodes g.sorted_super) v))
  unfolding remove_dead_nodes
  Member-remove_dead_nodes fuel marks g after v fresh alive e =
      let from = roots node epoch g.output g.special_nodes g.sorted_super in
      let (t, run, out) =
        some_of_bind (reach node epoch fuel from marks)
          (λ t. some (sweep g (mark_dead node epoch t.reach_epoch g.sorted_super g.status))) after
          e in
      let status = mark_dead node epoch t.reach_epoch g.sorted_super g.status in
      let swept =
        subst
          (λ o. MemberOf o ↔ (Member v g.sorted_super × (has_status (status v) dead_node ≡ false)))
          out (Member-sweep g status v) in
      let dead = dead-mark_dead t.reach_epoch g.sorted_super g.status v in
      let kept = spared_iff t.reach_epoch v in
      let reached = reach-Reached node epoch fuel from marks t v fresh run in
      (
        λ m.
            let (was, not_dead) = swept.0 m in
            (was, ⊎_elim inl (λ k. inr (reached.0 k)) (kept.0 ((dead.0 not_dead).1 was))),
        λ (was, h).
            swept.1 (was, dead.1 (alive v, λ _. kept.1 (⊎_elim inl (λ k. inr (reached.1 k)) h))),
      )
    where
      MemberOf : Option Graph → Type 0
      MemberOf none = ⊥
      MemberOf (some h) = Member v h.sorted_super

  NoneEmpty-sweep : (g : Graph) (status : ℕ → NodeStatus) → NoneEmpty (sweep g status).sorted_super
  unfolding sweep
  NoneEmpty-sweep g status =
      NoneEmpty-remove_empty_super (remove_nodes_no_connect dead_node status g.sorted_super)

  -- When the starting nodes, and the predecessors and other relied nodes of the nodes below n, are
  -- below n, removeDeadNodes with n rounds of its loop gives a graph, in which no super node that
  -- removeEmptySuper removes is left.
  pub remove_dead_nodes_returns :
      (n : ℕ) (marks : ℕ → ℕ) (g : Graph)
      → Below node epoch n (roots node epoch g.output g.special_nodes g.sorted_super)
      → ((v : ℕ) → v < n → Below node epoch n (node v).prev)
      → ((v : ℕ) → v < n → Below node epoch n (relied node epoch (node v)))
      → (after : Graph) × (remove_dead_nodes node epoch n marks g ≡ some after)
        × NoneEmpty after.sorted_super
  unfolding remove_dead_nodes
  remove_dead_nodes_returns n marks g from_below prev_below relied_below =
      let from = roots node epoch g.output g.special_nodes g.sorted_super in
      let (t, run) = reach_returns node epoch n prev_below relied_below from marks from_below in
      let status = mark_dead node epoch t.reach_epoch g.sorted_super g.status in
      (
        sweep g status,
        ap
            (λ o. o >>= λ r.
              some (sweep g (mark_dead node epoch r.reach_epoch g.sorted_super g.status)))
            run,
        NoneEmpty-sweep g status,
      )

  -- When no node has the mark of the pass or the status DEAD_NODE before, and the loop ends, a
  -- node that relies on another, is no input or output and is still a member of a super node after
  -- removeDeadNodes has not lost that other node, if it was a member before.
  pub remove_dead_nodes_keeps :
      (fuel : ℕ) (marks : ℕ → ℕ) (g after : Graph) (u v : ℕ)
      → ((w : ℕ) → marks w ≢ epoch)
      → ((w : ℕ) → has_status (g.status w) dead_node ≡ false)
      → remove_dead_nodes node epoch fuel marks g ≡ some after
      → Member u after.sorted_super
      → is_inp_or_out (node u).node_type ≡ false
      → Relies node u v
      → Member v g.sorted_super
      → Member v after.sorted_super
  remove_dead_nodes_keeps fuel marks g after u v fresh alive e m plain r was =
      let of_u = Member-remove_dead_nodes fuel marks g after u fresh alive e in
      let of_v = Member-remove_dead_nodes fuel marks g after v fresh alive e in
      elim (of_u.0 m).1 [
        | inl port ↦ cc (sym plain ∙ port)
        | inr reached ↦ of_v.1 (was, inr (relies reached r))
      ]
