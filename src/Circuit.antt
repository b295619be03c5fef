-- ===== src/Circuit.antt =====
-- include/ExpTree.h, include/Node.h and include/common.h: the kinds of operators, nodes and resets,
-- and the expression tree of an assignment.
pub mod Numbers
use gsim.Prelude.{ℕ, Bool}

-- enum OPType.
pub data OpType : Type 0 where
  op_empty op_mux : OpType
  op_add op_sub op_mul op_div op_rem op_lt op_leq op_gt op_geq op_eq op_neq : OpType
  op_dshl op_dshr op_and op_or op_xor op_cat : OpType
  op_asuint op_assint op_asclock op_asasyncreset op_cvt op_neg op_not op_andr op_orr op_xorr :
      OpType
  op_pad op_shl op_shr op_head op_tail op_bits op_bits_noshift : OpType
  op_index_int op_index op_when op_printf op_assert op_exit op_int op_group : OpType
  op_read_mem op_write_mem op_infer_mem op_invalid op_reset op_sext op_ext_func : OpType
  op_stmt_seq op_stmt_when op_stmt_node : OpType

-- enum NodeType.
pub data NodeType : Type 0 where
  node_invalid node_reg_src node_reg_dst node_special node_inp node_out node_memory : NodeType
  node_reader node_writer node_readwriter node_infer node_others node_reg_reset : NodeType
  node_ext_in node_ext_out node_ext : NodeType

-- enum ResetType.
pub data ResetType : Type 0 where
  uncertain asyreset uintreset zero_reset : ResetType

abbrev pub is_others : NodeType → Bool
is_others t = elim t [ node_others ↦ Bool.true | _ ↦ Bool.false ]

abbrev pub is_group : OpType → Bool
is_group op = elim op [ op_group ↦ Bool.true | _ ↦ Bool.false ]

abbrev pub is_int : OpType → Bool
is_int op = elim op [ op_int ↦ Bool.true | _ ↦ Bool.false ]

-- enum NodeStatus.
pub data NodeStatus : Type 0 where
  valid_node dead_node constant_node replication_node splitted_node empty_reg : NodeStatus

-- The number of a status in the enum.
abbrev pub status_number : NodeStatus → ℕ
status_number valid_node = 0
status_number dead_node = 1
status_number constant_node = 2
status_number replication_node = 3
status_number splitted_node = 4
status_number empty_reg = 5

-- enum SuperType.
pub data SuperType : Type 0 where
  super_valid super_extmod super_async_reset super_uint_reset super_update_reg : SuperType
