-- ===== src/Examples/Kept.antt =====
-- removeDeadNodes on the relations of Examples.Connections.
use gsim.Prelude.{ℕ, zero, suc, ◌<◌, [], ◌∷◌, none, some, ◌≡◌, ◌≢◌, refl, arith, inl, inr}
use mathlib.Core.List.{Memᴰ}
use mathlib.Core.List.Memᴰ
use mathlib.Core.Path.{subst}
use gsim.Circuit.{node_others, valid_node, super_valid}
use gsim.Connect.{all_members}
use gsim.SuperGraph.Removal.{Member, NoneEmpty}
use gsim.DeadNodes.{Node, Graph, remove_dead_nodes, roots, relied, ext_nodes, ext_members}
use gsim.DeadNodes.Loop.{Below}
use gsim.DeadNodes.Correct.{root}
use gsim.DeadNodes.Pass.{Member-remove_dead_nodes, remove_dead_nodes_returns}
use gsim.DeadNodes.Composed.{remove_dead_nodes-reconnect_all}
use gsim.Examples.Connections.{
  graph, two_supers, super_of, blank, blank-Alone, result, whole, prev_test, prev_one, prev_two,
}

abbrev plain : ℕ → Node
plain v = record {
  node_type = node_others;
  prev = result.0.prev v;
  dst = 0;
  reset_tree = none;
  parent = 0;
  member = [];
}

abbrev marks : ℕ → ℕ
marks v = 0

marks-fresh : (v : ℕ) → marks v ≢ 1
marks-fresh v e = cc e

abbrev input : Graph
input = record {
  output = 0 ∷ [];
  special_nodes = [];
  sorted_super =
      record { super_type = super_valid; member = 1 ∷ 2 ∷ [] }
      ∷ record { super_type = super_valid; member = 0 ∷ [] }
      ∷ [];
  regsrc = [];
  memory = [];
  member = λ v. [];
  status = λ v. valid_node;
}

from-Below : Below plain 1 3 (roots plain 1 input.output input.special_nodes input.sorted_super)
unfolding ext_nodes ext_members
from-Below v m = omega (arith, Memᴰ.eq_of_singleton m)

two-Below : Below plain 1 3 (2 ∷ 1 ∷ [])
two-Below v m = elim (Memᴰ.cases_cons m) [
  | inl e ↦ omega (arith, e)
  | inr k ↦ omega (arith, Memᴰ.eq_of_singleton k)
]

prev-Below : (v : ℕ) → v < 3 → Below plain 1 3 (plain v).prev
prev-Below zero h v m = two-Below v (subst (Memᴰ v) prev_test m)
prev-Below (suc zero) h v m = absurd (Memᴰ.not-nil (subst (Memᴰ v) prev_one m))
prev-Below (suc (suc zero)) h v m = absurd (Memᴰ.not-nil (subst (Memᴰ v) prev_two m))
prev-Below (suc (suc (suc _))) h v m = absurd (omega arith)

relied-Below : (v : ℕ) → v < 3 → Below plain 1 3 (relied plain 1 (plain v))
unfolding relied
relied-Below v h w m = absurd (Memᴰ.not-nil m)

abbrev run :
    (after : Graph) × (remove_dead_nodes plain 1 3 marks input ≡ some after)
    × NoneEmpty after.sorted_super
run = remove_dead_nodes_returns plain 1 3 marks input from-Below prev-Below relied-Below

kept-Member : Member 0 run.0.sorted_super
kept-Member =
    (Member-remove_dead_nodes plain 1 3 marks input run.0 0 marks-fresh (λ u. refl) run.1).1
      (inr (inl (Memᴰ.head refl)), inr (root (Memᴰ.head refl)))

remove_dead_nodes-reconnect_all_example : Member 2 run.0.sorted_super
unfolding all_members
remove_dead_nodes-reconnect_all_example =
    remove_dead_nodes-reconnect_all graph super_of two_supers blank blank result.0 result.1 plain 1
      3 marks input run.0 0 2 (λ v. inr (blank-Alone v)) whole (λ w. refl) marks-fresh (λ w. refl)
      run.1 kept-Member refl (Memᴰ.tail (Memᴰ.tail (Memᴰ.head refl))) refl
      (inl (inr (inl (inl refl)))) (inl (Memᴰ.tail (Memᴰ.head refl)))
