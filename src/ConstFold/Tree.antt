-- ===== src/ConstFold/Tree.antt =====
-- src/constantNode.cpp: ENode::computeConstant, over the whole tree of an enode, for references to
-- nodes that are no arrays. The memo consEMap is left out: the entry of a child is passed to its parent.
-- `none` is TODO(), Panic() or a failed assertion.
use gsim.Prelude.{
  ℕ, Bool, true, false, not, ◌&&◌, ◌||◌, List, [], ◌∷◌, Option, none, some, ◌==◌, ltb, leb, get_or,
  if◌then◌else◌,
}
use gsim.Prelude.Int.{ℤ, pos}
use gsim.Gmp.{Gmp}
use gsim.Circuit.{
  OpType, NodeType, is_group, is_int, op_mux, op_add, op_sub, op_mul, op_div, op_rem, op_lt, op_leq,
  op_gt, op_geq, op_eq, op_neq, op_dshl, op_dshr, op_and, op_or, op_xor, op_cat, op_asuint,
  op_assint, op_asclock, op_asasyncreset, op_cvt, op_neg, op_not, op_andr, op_orr, op_xorr, op_pad,
  op_shl, op_shr, op_head, op_tail, op_bits, op_bits_noshift, op_index_int, op_index, op_when,
  op_printf, op_assert, op_exit, op_int, op_read_mem, op_write_mem, op_invalid, op_reset, op_sext,
  op_ext_func,
}
use gsim.Util.{fir_str_base}
use gsim.ValInfo.{ValInfo, new_val_info, is_constant, update_cons_val}
use gsim.OpFuncs.{is_zero}
use gsim.Tree.{Label, ENode, enode, Children, no_more, child, null, label}
use gsim.ConstFold.{
  Operand, known, computed, zero_constant, cons_add, cons_sub, cons_mul, cons_d_iv, cons_rem,
  cons_lt, cons_leq, cons_gt, cons_geq, cons_eq, cons_neq, cons_dshl, cons_dshr, cons_and, cons_or,
  cons_xor, cons_cat, cons_as_u_int, cons_as_s_int, cons_as_clock, cons_as_async_reset, cons_cvt,
  cons_neg, cons_not, cons_andr, cons_orr, cons_xorr, cons_pad, cons_shl, cons_shr, cons_head,
  cons_tail, cons_bits, cons_bits_no_shift, cons_mux, cons_when, cons_int, cons_read_mem,
  cons_invalid, cons_reset, cons_assert, cons_exit,
}

-- BASIC_WIDTH of include/common.h.
abbrev pub basic_width : ℕ
basic_width = 256

module _ (g : Gmp) (w : ℕ) (s : Bool) where
  -- Two children.
  unfoldable pub fold2 : OpType → Operand → Operand → Option ValInfo
  fold2 op_add a b = some (cons_add g w s a b)
  fold2 op_sub a b = some (cons_sub g w s a b)
  fold2 op_mul a b = some (cons_mul g w s a b)
  fold2 op_div a b = some (cons_d_iv g w s a b)
  fold2 op_rem a b = some (cons_rem g w s a b)
  fold2 op_lt a b = some (cons_lt g w s a b)
  fold2 op_leq a b = some (cons_leq g w s a b)
  fold2 op_gt a b = some (cons_gt g w s a b)
  fold2 op_geq a b = some (cons_geq g w s a b)
  fold2 op_eq a b = some (cons_eq g w s a b)
  fold2 op_neq a b = some (cons_neq g w s a b)
  fold2 op_dshl a b = cons_dshl g w s a b
  fold2 op_dshr a b = some (cons_dshr g w s a b)
  fold2 op_and a b = cons_and g w s a b
  fold2 op_or a b = cons_or g w s a b
  fold2 op_xor a b = cons_xor g w s a b
  fold2 op_cat a b = cons_cat g w s a b
  fold2 op_reset a b = some (cons_reset g w s a b)
  fold2 op_assert a b = some (cons_assert g w s a b)
  fold2 op_index_int a b = some (new_val_info w s)
  fold2 op_write_mem a b = some (new_val_info w s)
  fold2 op_printf a b = some (new_val_info 0 false)
  fold2 op_ext_func a b = some (new_val_info w s)
  fold2 _ a b = none

  -- One child, with the integer arguments.
  unfoldable pub fold1 : OpType → List ℕ → Option ValInfo → Operand → Option ValInfo
  fold1 op_asuint vs m a = cons_as_u_int g w s a
  fold1 op_sext vs m a = cons_as_s_int g w s a
  fold1 op_assint vs m a = cons_as_s_int g w s a
  fold1 op_asclock vs m a = cons_as_clock g w s a
  fold1 op_asasyncreset vs m a = cons_as_async_reset g w s a
  fold1 op_cvt vs m a = some (cons_cvt g w s a)
  fold1 op_neg vs m a = cons_neg g w s a
  fold1 op_not vs m a = cons_not g w s a
  fold1 op_andr vs m a = cons_andr g w s a
  fold1 op_orr vs m a = cons_orr g w s a
  fold1 op_xorr vs m a = cons_xorr g w s a
  fold1 op_pad vs m a = some (cons_pad g w s a (get_or vs 0 0))
  fold1 op_shl vs m a = cons_shl g w s a (get_or vs 0 0)
  fold1 op_shr vs m a = some (cons_shr g w s a (get_or vs 0 0))
  fold1 op_head vs m a = cons_head g w s a (get_or vs 0 0)
  fold1 op_tail vs m a = cons_tail g w s a (get_or vs 0 0)
  fold1 op_bits vs m a = some (cons_bits g w s a (get_or vs 0 0) (get_or vs 1 0))
  fold1 op_bits_noshift vs m a = some (cons_bits_no_shift g w s a (get_or vs 0 0) (get_or vs 1 0))
  fold1 op_index_int vs m a = some (new_val_info w s)
  fold1 op_index vs m a = some (new_val_info w s)
  fold1 op_read_mem vs m a = some (cons_read_mem g w s m)
  fold1 op_exit vs m a = some (cons_exit g w s a)
  fold1 op_printf vs m a = some (new_val_info 0 false)
  fold1 op_ext_func vs m a = some (new_val_info w s)
  fold1 _ vs m a = none

  -- No child.
  unfoldable pub fold0 : OpType → List ℕ → Option ValInfo
  fold0 op_int str_val = some (cons_int g w s str_val).0
  fold0 op_invalid str_val = some (cons_invalid g w s)
  fold0 _ str_val = none

  -- A choice: the branches of a when may be null.
  unfoldable pub fold3 :
      OpType → NodeType → Operand → Option Operand → Option Operand → Option ValInfo
  fold3 op_mux t c (some a) (some b) = some (cons_mux g w s c a b)
  fold3 op_when t c a b = some (cons_when g w s t c a b)
  fold3 _ t c a b = none

-- consGroup: a constant if all members are the same one. The members' entries themselves are not kept.
abbrev all_same : Gmp → ℤ → List (Option Operand) → Bool
all_same g z [] = true
all_same g z (none ∷ os) = false
all_same g z (some o ∷ os) = known o && is_zero (g.mpz_cmp z o.info.cons_val) && all_same g z os

unfoldable pub cons_group : Gmp → ℕ → Bool → List (Option Operand) → ValInfo
cons_group g w s [] = computed g w s (pos 0)
cons_group g w s (none ∷ os) = new_val_info w s
cons_group g w s (some o ∷ os) =
    if all_same g o.info.cons_val (some o ∷ os)
    then computed g w s o.info.cons_val
    else new_val_info w s

-- The switch on the operator.
abbrev pub fold_op :
    Gmp → NodeType → Option ValInfo → Label → List (Option Operand) → Option ValInfo
fold_op g t m l [] = fold0 g l.width l.sign l.op_type l.str_val
fold_op g t m l (some a ∷ []) = fold1 g l.width l.sign l.op_type l.values m a
fold_op g t m l (some a ∷ some b ∷ []) = fold2 g l.width l.sign l.op_type a b
fold_op g t m l (some c ∷ a ∷ b ∷ []) = fold3 g l.width l.sign l.op_type t c a b
fold_op g t m l os = none

-- A reference to a node takes a copy of the node's entry.
unfoldable pub node_entry : Gmp → Bool → ℕ → ValInfo → ValInfo
node_entry g is_lvalue w ret =
    let fitted =
      if not is_lvalue && leb ret.width basic_width && ltb w ret.width && is_constant ret
      then update_cons_val g ret
      else ret in
    record fitted { width = w }

-- consInt sets the sign of its enode.
abbrev pub sign_after : Label → Bool
sign_after l =
    if is_int l.op_type then l.sign || get_or (fir_str_base l.str_val).1 0 0 == b'-' else l.sign

module _ (g : Gmp) (node_type : NodeType) (is_lvalue : Bool) (node_info : ℕ → ValInfo)
    (memory_info : ℕ → Option ValInfo) where
  abbrev pub operand : ENode → ValInfo → Operand
  operand e v = record { width = (label e).width; sign = sign_after (label e); info = v }

  abbrev pub memory_entry : Option ℕ → Option ValInfo
  memory_entry none = none
  memory_entry (some m) = memory_info m

  -- The entry of an enode, from those of its children.
  abbrev pub own_entry : Label → List (Option Operand) → Option ValInfo
  own_entry l os = elim l.node_ptr [
    | some n ↦ some (node_entry g is_lvalue l.width (node_info n))
    | none ↦
        if is_group l.op_type
        then some (cons_group g l.width l.sign os)
        else fold_op g node_type (memory_entry l.memory_node) l os
  ]

  abbrev pub with_children : Label → Option (List (Option Operand)) → Option ValInfo
  with_children l none =
      if l.width == 0 && not is_lvalue then some (zero_constant g l.width l.sign) else none
  with_children l (some os) =
      if l.width == 0 && not is_lvalue
      then some (zero_constant g l.width l.sign)
      else own_entry l os

  abbrev pub add_operand :
      ENode → Option ValInfo → Option (List (Option Operand)) → Option (List (Option Operand))
  add_operand e none os = none
  add_operand e (some v) none = none
  add_operand e (some v) (some os) = some (some (operand e v) ∷ os)

  abbrev pub add_null : Option (List (Option Operand)) → Option (List (Option Operand))
  add_null none = none
  add_null (some os) = some (none ∷ os)

  unfoldable mutual
    pub compute_constant : ENode → Option ValInfo
    compute_constant (enode l cs) = with_children l (compute_children cs)

    pub compute_children : Children → Option (List (Option Operand))
    compute_children no_more = some []
    compute_children (child e cs) = add_operand e (compute_constant e) (compute_children cs)
    compute_children (null cs) = add_null (compute_children cs)
