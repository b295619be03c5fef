-- ===== src/ExprOpt.antt =====
-- src/exprOpt.cpp, subTreeEq and ExpTree::treeOpt, and src/commonExpr.cpp, checkENodeEq. The stack of
-- treeOpt visits the enodes in an order that does not matter, since each is changed in its own
-- place; the model goes down the tree. A child that the code reads and that is missing or null is
-- none. The field realValue of a node is a parameter.
pub mod Branches
pub mod Equal
pub mod Laws
pub mod Meaning
pub mod FirrtlMeaning
pub mod Total
use gsim.Prelude.{
  ℕ, zero, suc, Bool, true, false, not, ◌&&◌, ◌||◌, List, [], ◌∷◌, Option, none, some, ◌==◌,
  if◌then◌else◌, ◌>>=◌,
}
use gsim.Circuit.{OpType, op_when, op_mux, op_asasyncreset, op_assint, op_asuint, op_int}
use gsim.Circuit.Numbers.{same_op}
use gsim.Tree.{Label, ENode, enode, Children, no_more, child, null, label}

abbrev pub same_bool : Bool → Bool → Bool
same_bool true b = b
same_bool false b = not b

abbrev pub same_list : List ℕ → List ℕ → Bool
same_list [] [] = true
same_list [] (_ ∷ _) = false
same_list (_ ∷ _) [] = false
same_list (m ∷ ms) (n ∷ ns) = m == n && same_list ms ns

abbrev pub child_num : Children → ℕ
child_num no_more = 0
child_num (child e cs) = suc (child_num cs)
child_num (null cs) = suc (child_num cs)

-- getChild: none for a missing child, some none for a null one.
abbrev pub child_at : Children → ℕ → Option (Option ENode)
child_at no_more i = none
child_at (child e cs) zero = some (some e)
child_at (null cs) zero = some none
child_at (child e cs) (suc i) = child_at cs i
child_at (null cs) (suc i) = child_at cs i

-- What becomes of a child: nothing of a null one.
pub data Slot : Type 0 where
  nothing : Slot
  result : Option ENode → Slot

abbrev pub slot_at : List Slot → ℕ → Option ENode
slot_at [] i = none
slot_at (nothing ∷ slots) zero = none
slot_at (result o ∷ slots) zero = o
slot_at (_ ∷ slots) (suc i) = slot_at slots i

unfoldable pub rebuild : List Slot → Option Children
rebuild [] = some no_more
rebuild (nothing ∷ slots) = rebuild slots >>= λ cs. some (null cs)
rebuild (result o ∷ slots) = do e ← o; cs ← rebuild slots; some (child e cs)

-- The last loop of the body, and setChild.
abbrev pub descend : Label → List Slot → Option ENode
descend l slots = rebuild slots >>= λ cs. some (enode l cs)

-- The kinds of enodes that the body tells apart.
pub data Kind : Type 0 where
  choice reset_cast sign_cast plain : Kind

abbrev pub kind : OpType → Kind
kind op = elim op [
  | op_when ↦ choice
  | op_mux ↦ choice
  | op_asasyncreset ↦ reset_cast
  | op_assint ↦ sign_cast
  | op_asuint ↦ sign_cast
  | _ ↦ plain
]

abbrev pub same_shape : Label → Label → Bool
same_shape l k = same_bool k.sign l.sign && k.width == l.width

module _ (real_value : ℕ → Option ℕ) where
  -- Two nodes stand for one value: the same node, or one realValue that both have.
  abbrev pub same_real : Option ℕ → Option ℕ → Bool
  same_real none b = false
  same_real (some a) none = false
  same_real (some a) (some b) = a == b

  abbrev pub same_node : Option ℕ → Option ℕ → Bool
  same_node none none = true
  same_node none (some b) = false
  same_node (some a) none = false
  same_node (some a) (some b) = a == b || same_real (real_value a) (real_value b)

  -- checkENodeEq of two enodes that are not null.
  unfoldable pub check_enode_eq : ENode → ENode → Bool
  check_enode_eq (enode l cs) (enode k ds) =
      same_op l.op_type k.op_type
      && l.width == k.width
      && same_bool l.sign k.sign
      && child_num cs == child_num ds
      && (not (same_op l.op_type op_int) || same_list l.str_val k.str_val)
      && same_node l.node_ptr k.node_ptr
      && same_list l.values k.values

  -- subTreeEq; two null children are equal for checkENodeEq, and then the first is followed.
  unfoldable mutual
    pub sub_tree_eq : ENode → ENode → Option Bool
    sub_tree_eq (enode l cs) (enode k ds) =
        let rest = children_eq cs ds in
        if check_enode_eq (enode l cs) (enode k ds) then rest else some false

    pub children_eq : Children → Children → Option Bool
    children_eq no_more ds = some true
    children_eq (child e cs) (child f ds) =
        let rest = children_eq cs ds in sub_tree_eq e f >>= λ t. if t then rest else some false
    children_eq (child e cs) (null ds) = some false
    children_eq (null cs) (child f ds) = some false
    children_eq (null cs) (null ds) = none
    children_eq (child e cs) no_more = none
    children_eq (null cs) no_more = none

  -- subTreeEq of two children.
  abbrev pub branch_eq : Option ENode → Option ENode → Option Bool
  branch_eq none none = none
  branch_eq none (some f) = some false
  branch_eq (some e) none = some false
  branch_eq (some e) (some f) = sub_tree_eq e f

  -- The body for one enode, when its children are done.
  unfoldable pub opt_enode : Label → Children → List Slot → Option ENode
  opt_enode l cs slots = elim (kind l.op_type) [
    | choice ↦ (do
      a ← child_at cs 1
      b ← child_at cs 2
      t ← branch_eq a b
      if t then slot_at slots 1 else descend l slots)
    | reset_cast ↦ slot_at slots 0
    | sign_cast ↦ (do
      a ← child_at cs 0
      e ← a
      if same_shape l (label e) then slot_at slots 0 else some (enode l cs))
    | plain ↦ descend l slots
  ]

  unfoldable mutual
    pub tree_opt : ENode → Option ENode
    tree_opt (enode l cs) = opt_enode l cs (opt_each cs)

    pub opt_each : Children → List Slot
    opt_each no_more = []
    opt_each (child e cs) = result (tree_opt e) ∷ opt_each cs
    opt_each (null cs) = nothing ∷ opt_each cs
