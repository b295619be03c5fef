-- ===== src/Examples/Connections.antt =====
-- The relations of a small graph.
use gsim.Prelude.{ℕ, zero, suc, List, [], ◌∷◌, Option, none, some, ◌≡◌, refl, inr, ◌↔◌}
use mathlib.Core.List.{Memᴰ}
use gsim.Circuit.{node_others, node_reg_src, NodeType, uncertain}
use gsim.Tree.{enode, no_more, child}
use gsim.Tree.Mentions.{ExpTree}
use gsim.Relations.{Relations}
use gsim.Relations.Laws.{Mirror}
use gsim.Connect.{
  Node, Super, reconnect_all, all_members, super_ids, update_all, update_connect, connect_loop,
  connect_dep, update_dep, all_rely_nodes, depend_on, reset_depend, value_depend, clear_all,
  reconnect_super, connect_supers, construct_super_connect, join_supers, tree_queue,
}
use gsim.Connect.Whole.{Alone, Mirror-reconnect_all}
use gsim.Connect.Prev.{Gives}
use gsim.Connect.Exact.{Memᴰ-reconnect_all}
use gsim.Examples.Graph.{reference_to}

abbrev pub node_of : NodeType → List ExpTree → Node
node_of t trees = record {
  node_type = t;
  assign_tree = trees;
  reset = uncertain;
  reset_tree = none;
  dst = none;
  parent = 0;
  member = [];
}

-- Node 0 reads 1 and 2.
abbrev pub graph : ℕ → Node
graph zero = node_of node_others (
    record {
      root = enode (reference_to 1) (child (enode (reference_to 2) no_more) no_more);
      lvalue_child = [];
    }
    ∷ [])
graph (suc zero) = node_of node_reg_src []
graph (suc (suc _)) = node_of node_others []

abbrev pub two_supers : List Super
two_supers = record { id = 5; member = 1 ∷ 2 ∷ [] } ∷ record { id = 7; member = 0 ∷ [] } ∷ []

abbrev pub super_of : ℕ → Option ℕ
super_of zero = some 7
super_of (suc _) = some 5

abbrev pub blank : Relations
blank = record { prev = λ v. []; next = λ v. []; dep_prev = λ v. []; dep_next = λ v. [] }

pub blank-Alone : (v : ℕ) → Alone blank v
blank-Alone v = record { no_prev = refl; no_next = refl; no_dep_prev = refl; no_dep_next = refl }

abbrev pub part : Option (Relations × Relations) → Relations × Relations
part none = (blank, blank)
part (some p) = p

abbrev pub result : Relations × Relations
result = part (reconnect_all super_of graph two_supers blank blank)

pub whole : reconnect_all super_of graph two_supers blank blank ≡ some result
unfolding reconnect_all all_members super_ids update_all update_connect connect_loop connect_dep
    update_dep all_rely_nodes depend_on reset_depend value_depend clear_all reconnect_super
    connect_supers construct_super_connect join_supers tree_queue
whole = refl

Mirror-reconnect_all_example : Mirror result.0 × Mirror result.1
Mirror-reconnect_all_example =
    Mirror-reconnect_all graph super_of two_supers blank blank result.0 result.1
      (λ v. inr (blank-Alone v)) (λ v. inr (blank-Alone v)) whole

Memᴰ-reconnect_all_example :
    Memᴰ {A = ℕ} 2 (result.0.prev 0) ↔ Gives graph (all_members two_supers) 2 0
Memᴰ-reconnect_all_example =
    Memᴰ-reconnect_all graph super_of two_supers blank blank result.0 result.1 2 0
      (λ v. inr (blank-Alone v)) whole

pub prev_test : result.0.prev 0 ≡ 2 ∷ 1 ∷ []
unfolding reconnect_all all_members super_ids update_all update_connect connect_loop connect_dep
    update_dep all_rely_nodes depend_on reset_depend value_depend clear_all reconnect_super
    connect_supers construct_super_connect join_supers tree_queue
prev_test = refl

pub prev_one : result.0.prev 1 ≡ []
unfolding reconnect_all all_members super_ids update_all update_connect connect_loop connect_dep
    update_dep all_rely_nodes depend_on reset_depend value_depend clear_all reconnect_super
    connect_supers construct_super_connect join_supers tree_queue
prev_one = refl

pub prev_two : result.0.prev 2 ≡ []
unfolding reconnect_all all_members super_ids update_all update_connect connect_loop connect_dep
    update_dep all_rely_nodes depend_on reset_depend value_depend clear_all reconnect_super
    connect_supers construct_super_connect join_supers tree_queue
prev_two = refl
