-- ===== src/Tree.antt =====
-- include/ExpTree.h: the tree of enodes. Only the fields that the modelled passes read are kept: a
-- node or a memory is a number, and what a pass knows of it is a parameter of that pass. A child may
-- be null, as one branch of a when is.
pub mod Copies
pub mod Index
pub mod Mentions
pub mod Widths
pub mod Range
pub mod Single
use gsim.Prelude.{ℕ, Bool, List, Option}
use gsim.Circuit.{OpType}

-- The fields of an ENode besides its children.
pub record Label : Type 0 where
  pub op_type : OpType
  pub width : ℕ
  pub sign : Bool
  pub values : List ℕ
  pub str_val : List ℕ
  pub node_ptr : Option ℕ
  pub memory_node : Option ℕ
  pub is_clock : Bool

mutual
  pub data ENode : Type 0 where
    enode : Label → Children → ENode

  pub data Children : Type 0 where
    no_more : Children
    child : ENode → Children → Children
    null : Children → Children

abbrev pub label : ENode → Label
label (enode l cs) = l
