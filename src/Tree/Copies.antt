-- ===== src/Tree/Copies.antt =====
-- src/ENode.cpp: ENode::dup, a copy of a tree that does not keep isClock.
use gsim.Prelude.{false}
use gsim.Tree.{Label, ENode, enode, Children, no_more, child, null}

-- `new ENode(opType)` and the fields that are copied.
abbrev pub dup_label : Label → Label
dup_label l = record l { is_clock = false }

unfoldable mutual
  pub dup : ENode → ENode
  dup (enode l cs) = enode (dup_label l) (dup_children cs)

  pub dup_children : Children → Children
  dup_children no_more = no_more
  dup_children (child e cs) = child (dup e) (dup_children cs)
  dup_children (null cs) = null (dup_children cs)
