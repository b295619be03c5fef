-- ===== src/Examples/Rewrites.antt =====
-- treeOpt on a mux of casts, with FIRRTL's meaning of the operators.
use gsim.Prelude.{ℕ, true, List, Option, none, some, ◌≡◌, refl, arith}
use gsim.Prelude.Int.{ℤ, pos, negsuc, ◌-ℤ◌}
use gsim.Firrtl.{prim1, prim2}
use gsim.Util.{fir_str_base}
use gsim.Circuit.{OpType, op_mux, op_asuint, op_assint, op_lt, op_neg}
use gsim.Tree.{Label, ENode, enode, no_more, child}
use gsim.ExprOpt.{tree_opt, opt_enode, sub_tree_eq, check_enode_eq, rebuild}
use gsim.ExprOpt.Equal.{eval, NoMemory}
use gsim.ExprOpt.Laws.{Value, Fitting}
use gsim.ExprOpt.FirrtlMeaning.{meaning, meaning-Laws}
use gsim.ExprOpt.Meaning.{eval-tree_opt}
use gsim.ExprOpt.Total.{Full, tree_opt_returns}
use gsim.Examples.Graph.{reference_to}

abbrev no_real : ℕ → Option ℕ
no_real v = none

abbrev leaf : ENode
leaf = enode (reference_to 3) no_more

abbrev with_op : OpType → Label
with_op op = record (reference_to 0) { op_type = op; node_ptr = none }

-- mux (3, asUInt 3, asUInt 3) becomes 3.
abbrev same_branches : ENode
same_branches = enode (with_op op_mux) (
    child leaf (
      child (enode (with_op op_asuint) (child leaf no_more))
        (child (enode (with_op op_asuint) (child leaf no_more)) no_more)))

tree_opt_test : tree_opt no_real same_branches ≡ some leaf
unfolding tree_opt opt_enode sub_tree_eq check_enode_eq rebuild
tree_opt_test = refl

-- An enode of a signed result.
abbrev signed_label : OpType → ℕ → Label
signed_label op w = record (with_op op) { width = w; sign = true }

abbrev operand : ℕ → ENode
operand n = enode (record (reference_to n) { sign = true }) no_more

abbrev cast_operand : ENode
cast_operand = enode (signed_label op_assint 8) (child (operand 3) no_more)

abbrev comparison : ENode
comparison =
    enode (record (with_op op_lt) { width = 1 }) (child (operand 3) (child (operand 4) no_more))

-- neg (mux (lt (3, 4), asSInt 3, asSInt 3)) becomes neg 3.
abbrev negated_choice : ENode
negated_choice = enode (signed_label op_neg 9) (
    child
      (enode (signed_label op_mux 8)
        (child comparison (child cast_operand (child cast_operand no_more))))
      no_more)

abbrev negated : ENode
negated = enode (signed_label op_neg 9) (child (operand 3) no_more)

negated_test : tree_opt no_real negated_choice ≡ some negated
unfolding tree_opt opt_enode sub_tree_eq check_enode_eq rebuild
negated_test = refl

-- The nodes hold -100.
abbrev held_value : ℕ → List (Option Value) → ℤ
held_value n vs = negsuc 99

abbrev firrtl_meaning : Label → List (Option Value) → Value
firrtl_meaning = meaning held_value (pos 0)

negation_test :
    eval no_real firrtl_meaning negated_choice ≡ record { width = 9; sign = true; number = pos 100 }
unfolding fir_str_base prim1 prim2 ◌-ℤ◌
negation_test = refl

eval-tree_opt_example :
    eval no_real firrtl_meaning negated ≡ eval no_real firrtl_meaning negated_choice
eval-tree_opt_example =
    eval-tree_opt no_real firrtl_meaning
      (meaning-Laws held_value (pos 0) no_real (λ a b v p q. refl)) negated_choice negated
      (tt, (((refl, refl), ((tt, ((tt, tt), ((tt, tt), tt))), (cast, (cast, tt)))), tt))
      (refl, ((refl, ((refl, ((refl, tt), ((refl, tt), tt))), (no_memory, (no_memory, tt)))), tt))
      negated_test
  where
    cast : Fitting cast_operand
    cast = (tt, ((tt, tt), tt))

    no_memory : NoMemory cast_operand
    no_memory = (refl, ((refl, tt), tt))

tree_opt_returns_example : (r : ENode) × (tree_opt no_real same_branches ≡ some r)
tree_opt_returns_example =
    tree_opt_returns no_real same_branches (omega arith, ((omega arith, tt), (cast, (cast, tt))))
  where
    cast : Full (enode (with_op op_asuint) (child leaf no_more))
    cast = (omega arith, ((omega arith, tt), tt))
