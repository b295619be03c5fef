-- ===== src/DeadNodes/Composed.antt =====
-- removeDeadNodes on the relations that reconnectAll made: what a kept node's trees refer to is kept.
use gsim.Prelude.{ℕ, false, List, [], ◌∷◌, Option, some, ◌≡◌, ◌≢◌, refl, sym, inl, inr, ◌⊎◌}
use mathlib.Core.List.{Memᴰ}
use mathlib.Core.List.Memᴰ
use mathlib.Core.Path.{subst}
use gsim.Circuit.{NodeType, dead_node, node_reg_src, node_reader, node_writer}
use gsim.Relations.{Relations}
use gsim.Connect
use gsim.Connect.{Super, is_reg_src, all_members, reconnect_all}
use gsim.Connect.Whole.{Alone}
use gsim.Connect.Prev.{MentionsTrees, GivesAt, Gives}
use gsim.Connect.Exact.{Memᴰ-reconnect_all}
use gsim.SuperGraph.{has_status}
use gsim.SuperGraph.Removal.{Member}
use gsim.DeadNodes.{Node, Graph, is_inp_or_out, remove_dead_nodes}
use gsim.DeadNodes.Pass.{remove_dead_nodes_keeps}

GivesAt-own :
    (tree : ℕ → Connect.Node) (t : NodeType) (u v : ℕ)
    → is_reg_src t ≡ false
    → MentionsTrees v (tree u).assign_tree
    → GivesAt tree t u v u
GivesAt-own tree node_reg_src u v e m = cc e
GivesAt-own tree node_reader u v e m = inl (refl, m)
GivesAt-own tree node_writer u v e m = inl (refl, m)
GivesAt-own tree _ u v e m = (refl, m)

Gives-own :
    (tree : ℕ → Connect.Node) (ws : List ℕ) (u v : ℕ)
    → Memᴰ u ws
    → is_reg_src (tree u).node_type ≡ false
    → MentionsTrees v (tree u).assign_tree
    → Gives tree ws v u
Gives-own tree [] u v k e m = absurd (Memᴰ.not-nil k)
Gives-own tree (w ∷ ws) u v k e m = elim (Memᴰ.cases_cons k) [
  | inl same ↦ inl (
      subst (λ x. GivesAt tree (tree x).node_type x v u) same
        (GivesAt-own tree (tree u).node_type u v e m))
  | inr later ↦ inr (Gives-own tree ws u v later e m)
]

-- When removeDeadNodes reads the predecessors that reconnectAll made, no node has the mark of the
-- pass or the status DEAD_NODE before, and the loop ends, then a node that is neither an input, an
-- output nor the source of a register and is still a member of a super node afterwards has kept
-- every member that its own expression trees refer to.
pub remove_dead_nodes-reconnect_all :
    (tree : ℕ → Connect.Node) (super_of : ℕ → Option ℕ) (supers : List Super)
    (nodes before r s : Relations) (node : ℕ → Node) (epoch fuel : ℕ) (marks : ℕ → ℕ)
    (g after : Graph) (u v : ℕ)
    → ((w : ℕ) → Memᴰ w (all_members supers) ⊎ Alone nodes w)
    → reconnect_all super_of tree supers nodes before ≡ some (r, s)
    → ((w : ℕ) → (node w).prev ≡ r.prev w)
    → ((w : ℕ) → marks w ≢ epoch)
    → ((w : ℕ) → has_status (g.status w) dead_node ≡ false)
    → remove_dead_nodes node epoch fuel marks g ≡ some after
    → Member u after.sorted_super
    → is_inp_or_out (node u).node_type ≡ false
    → Memᴰ u (all_members supers)
    → is_reg_src (tree u).node_type ≡ false
    → MentionsTrees v (tree u).assign_tree
    → Member v g.sorted_super
    → Member v after.sorted_super
remove_dead_nodes-reconnect_all tree super_of supers nodes before r s node epoch fuel marks g after
      u v alone connected prevs fresh alive removed kept plain listed no_source mentioned was =
    remove_dead_nodes_keeps node epoch fuel marks g after u v fresh alive removed kept plain
      (inl (
        subst (Memᴰ v) (sym (prevs u)) (
          (Memᴰ-reconnect_all tree super_of supers nodes before r s v u alone connected).1
            (Gives-own tree (all_members supers) u v listed no_source mentioned))))
      was
