-- ===== src/ConstFold/Copies.antt =====
-- src/ENode.cpp and src/constantNode.cpp: the entry of a copied tree.
use gsim.Prelude.{ℕ, Bool, Option, ◌≡◌, refl, ap, ap₂}
use gsim.Gmp.{Gmp}
use gsim.Circuit.{NodeType}
use gsim.ValInfo.{ValInfo}
use gsim.ConstFold.Tree.{compute_constant, compute_children, with_children, add_operand, add_null}
use gsim.Tree.{ENode, enode, Children, no_more, child, null}
use gsim.Tree.Copies.{dup, dup_children}

module _ (g : Gmp) (t : NodeType) (is_lvalue : Bool) (node_info : ℕ → ValInfo)
    (memory_info : ℕ → Option ValInfo) where
  mutual
    unfolding compute_constant dup

    copy_entry :
        (e : ENode)
        → compute_constant g t is_lvalue node_info memory_info (dup e)
          ≡ compute_constant g t is_lvalue node_info memory_info e
    copy_entry (enode l cs) =
        ap (with_children g t is_lvalue node_info memory_info l) (copy_entries cs)

    copy_entries :
        (cs : Children)
        → compute_children g t is_lvalue node_info memory_info (dup_children cs)
          ≡ compute_children g t is_lvalue node_info memory_info cs
    copy_entries no_more = refl
    copy_entries (child (enode l ds) cs) =
        ap₂ (add_operand g t is_lvalue node_info memory_info (enode l ds)) (copy_entry (enode l ds))
          (copy_entries cs)
    copy_entries (null cs) = ap (add_null g t is_lvalue node_info memory_info) (copy_entries cs)

  -- computeConstant gives a copy of a tree, made by dup, the entry that it gives the tree.
  pub compute_constant-dup :
      (e : ENode)
      → compute_constant g t is_lvalue node_info memory_info (dup e)
        ≡ compute_constant g t is_lvalue node_info memory_info e
  compute_constant-dup = copy_entry
