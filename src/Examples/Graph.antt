-- ===== src/Examples/Graph.antt =====
-- The theorems on graphs of nodes at concrete inputs.
use gsim.Prelude.{
  ℕ, zero, suc, ◌<◌, true, false, List, [], ◌∷◌, none, some, ◌≡◌, ◌≢◌, refl, arith, inl, inr, ◌⊎◌,
  ◌↔◌,
}
use mathlib.Core.List.{Memᴰ}
use mathlib.Core.List.Memᴰ
use gsim.Circuit.{
  op_add, node_out, node_others, node_reg_src, NodeType, valid_node, super_valid, NodeStatus,
}
use gsim.Tree.{Label, enode, no_more, child, null}
use gsim.Tree.Mentions.{
  ExpTree, Mentions, MentionsAny, get_rely_nodes, get_enode_rely_nodes, rely_lvalue, rely_loop,
  Memᴰ-get_rely_nodes,
}
use gsim.SuperGraph.Removal.{Member, NoneEmpty}
use gsim.DeadNodes.{
  Node, Graph, roots, relied, ext_nodes, ext_members, reset_nodes, is_inp_or_out, remove_dead_nodes,
}
use gsim.DeadNodes.Loop.{Below}
use gsim.DeadNodes.Correct.{Reached, root, relies}
use gsim.DeadNodes.Pass.{
  Member-remove_dead_nodes, remove_dead_nodes_returns, remove_dead_nodes_keeps,
}

abbrev pub reference_to : ℕ → Label
reference_to v = record {
  op_type = op_add;
  width = 8;
  sign = false;
  values = [];
  str_val = [];
  node_ptr = some v;
  memory_node = none;
  is_clock = false;
}

-- Node 4 at the root, null and node 7 below it; node 2 on the left-hand side.
abbrev reset_example : ExpTree
reset_example = record {
  root = enode (reference_to 4) (null (child (enode (reference_to 7) no_more) no_more));
  lvalue_child = enode (reference_to 2) no_more ∷ [];
}

Memᴰ-get_rely_nodes_example :
    Memᴰ 7 (get_rely_nodes reset_example [])
    ↔ (Mentions 7 reset_example.root ⊎ MentionsAny 7 reset_example.lvalue_child ⊎ Memᴰ {A = ℕ} 7 [])
Memᴰ-get_rely_nodes_example = Memᴰ-get_rely_nodes reset_example [] 7

get_rely_nodes_test : get_rely_nodes reset_example [] ≡ 2 ∷ 7 ∷ 4 ∷ []
unfolding get_rely_nodes rely_lvalue get_enode_rely_nodes rely_loop
get_rely_nodes_test = refl

-- The output 0 reads the register 1, whose destination 2 reads the node 3; nothing reads 4.
abbrev node_of : NodeType → List ℕ → ℕ → Node
node_of t prev dst = record {
  node_type = t;
  prev = prev;
  dst = dst;
  reset_tree = none;
  parent = 0;
  member = [];
}

abbrev circuit : ℕ → Node
circuit zero = node_of node_out (1 ∷ []) 0
circuit (suc zero) = node_of node_reg_src [] 2
circuit (suc (suc zero)) = node_of node_others (3 ∷ []) 0
circuit (suc (suc (suc _))) = node_of node_others [] 0

abbrev no_mark : ℕ → ℕ
no_mark v = 0

abbrev all_valid : ℕ → NodeStatus
all_valid v = valid_node

abbrev before : Graph
before = record {
  output = 0 ∷ [];
  special_nodes = [];
  sorted_super =
      record { super_type = super_valid; member = 3 ∷ 4 ∷ [] }
      ∷ record { super_type = super_valid; member = 4 ∷ [] }
      ∷ record { super_type = super_valid; member = 1 ∷ 2 ∷ 0 ∷ [] }
      ∷ [];
  regsrc = 1 ∷ [];
  memory = [];
  member = λ v. [];
  status = all_valid;
}

abbrev from : List ℕ
from = roots circuit 1 before.output before.special_nodes before.sorted_super

from-Below : Below circuit 1 5 from
unfolding ext_nodes ext_members
from-Below v m = omega (arith, Memᴰ.eq_of_singleton m)

prev-Below : (v : ℕ) → v < 5 → Below circuit 1 5 (circuit v).prev
prev-Below zero h v m = omega (arith, Memᴰ.eq_of_singleton m)
prev-Below (suc zero) h v m = absurd (Memᴰ.not-nil m)
prev-Below (suc (suc zero)) h v m = omega (arith, Memᴰ.eq_of_singleton m)
prev-Below (suc (suc (suc u))) h v m = absurd (Memᴰ.not-nil m)

relied-Below : (v : ℕ) → v < 5 → Below circuit 1 5 (relied circuit 1 (circuit v))
unfolding relied reset_nodes
relied-Below zero h v m = absurd (Memᴰ.not-nil m)
relied-Below (suc zero) h v m = omega (arith, Memᴰ.eq_of_singleton m)
relied-Below (suc (suc zero)) h v m = absurd (Memᴰ.not-nil m)
relied-Below (suc (suc (suc u))) h v m = absurd (Memᴰ.not-nil m)

remove_dead_nodes_returns_example :
    (after : Graph) × (remove_dead_nodes circuit 1 5 no_mark before ≡ some after)
    × NoneEmpty after.sorted_super
remove_dead_nodes_returns_example =
    remove_dead_nodes_returns circuit 1 5 no_mark before from-Below prev-Below relied-Below

abbrev run :
    (after : Graph) × (remove_dead_nodes circuit 1 5 no_mark before ≡ some after)
    × NoneEmpty after.sorted_super
run = remove_dead_nodes_returns circuit 1 5 no_mark before from-Below prev-Below relied-Below

unmarked-before : (v : ℕ) → no_mark v ≢ 1
unmarked-before v e = cc e

Member-remove_dead_nodes_example : Member 3 run.0.sorted_super ↔ (
    Member 3 before.sorted_super
    × ((is_inp_or_out (circuit 3).node_type ≡ true) ⊎ Reached circuit from 3))
Member-remove_dead_nodes_example =
    Member-remove_dead_nodes circuit 1 5 no_mark before run.0 3 unmarked-before (λ u. refl) run.1

Member-reached : Member 2 run.0.sorted_super
unfolding ext_nodes ext_members
Member-reached =
    (Member-remove_dead_nodes circuit 1 5 no_mark before run.0 2 unmarked-before (λ u. refl)
        run.1).1
      (
        inr (inr (inl (Memᴰ.tail (Memᴰ.head refl)))),
        inr (relies (relies (root (Memᴰ.head refl)) (inl (Memᴰ.head refl))) (inr (inl refl))),
      )

remove_dead_nodes_keeps_example : Member 3 run.0.sorted_super
remove_dead_nodes_keeps_example =
    remove_dead_nodes_keeps circuit 1 5 no_mark before run.0 2 3 unmarked-before (λ u. refl) run.1
      Member-reached refl (inl (Memᴰ.head refl)) (inl (Memᴰ.head refl))
