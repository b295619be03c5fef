-- ===== src/InferWidth.antt =====
-- src/inferWidth.cpp: ENode::inferWidth and Node::updateHeadTail. The shape of a node or a memory is a
-- parameter. `none` is a failed assertion. A width is a number: an unset one, -1, is read as 0, which
-- only OP_GROUP and the index operators read. `1 << w1` of OP_DSHL is 2^w1, which an int holds for w1
-- up to 30.
pub mod Exact
pub mod Nodes
pub mod Tails
use gsim.Prelude.{
  ℕ, ◌+◌, ◌-◌, ◌^◌, min, max, Bool, true, false, not, List, [], ◌∷◌, Option, none, some, ltb,
  if◌then◌else◌,
}
use gsim.Circuit.{
  OpType, op_mux, op_add, op_sub, op_mul, op_div, op_rem, op_lt, op_leq, op_gt, op_geq, op_eq,
  op_neq, op_dshl, op_dshr, op_and, op_or, op_xor, op_cat, op_asuint, op_assint, op_asclock,
  op_asasyncreset, op_cvt, op_neg, op_not, op_andr, op_orr, op_xorr, op_pad, op_shl, op_shr,
  op_head, op_tail, op_bits, op_bits_noshift, op_index_int, op_index, op_when, op_printf, op_assert,
  op_exit, op_int, op_group, op_read_mem, op_write_mem, op_invalid, op_reset, op_ext_func,
}
use gsim.Tree.{Label, ENode, enode, Children, no_more, child, null, label}

-- width, sign and isClock of an enode or a node.
pub record Shape : Type 0 where
  pub width : ℕ
  pub sign : Bool
  pub is_clock : Bool

abbrev pub shape : ℕ → Bool → Option Shape
shape w s = some (record { width = w; sign = s; is_clock = false })

abbrev pub same_sign : Bool → Bool → Bool
same_sign true s = s
same_sign false s = not s

-- A sign as a number of bits.
abbrev pub sign_bit : Bool → ℕ
sign_bit true = 1
sign_bit false = 0

-- The assertion that both children have one sign.
abbrev if_same_sign : Label → Label → Option Shape → Option Shape
if_same_sign a b r = if same_sign a.sign b.sign then r else none

-- Two children.
unfoldable pub infer2 : OpType → Label → Label → Option Shape
infer2 op_add a b = if_same_sign a b (shape (max a.width b.width + 1) a.sign)
infer2 op_sub a b = if_same_sign a b (shape (max a.width b.width + 1) a.sign)
infer2 op_mul a b = if_same_sign a b (shape (a.width + b.width) a.sign)
infer2 op_cat a b = if_same_sign a b (shape (a.width + b.width) false)
infer2 op_div a b = if_same_sign a b (shape (a.width + sign_bit a.sign) a.sign)
infer2 op_rem a b = if_same_sign a b (shape (min a.width b.width) a.sign)
infer2 op_lt a b = if_same_sign a b (shape 1 false)
infer2 op_leq a b = if_same_sign a b (shape 1 false)
infer2 op_gt a b = if_same_sign a b (shape 1 false)
infer2 op_geq a b = if_same_sign a b (shape 1 false)
infer2 op_eq a b = if_same_sign a b (shape 1 false)
infer2 op_neq a b = if_same_sign a b (shape 1 false)
infer2 op_dshl a b = if b.sign then none else shape (a.width + 2 ^ b.width - 1) a.sign
infer2 op_dshr a b = shape a.width a.sign
infer2 op_and a b = if_same_sign a b (shape (max a.width b.width) false)
infer2 op_or a b = if_same_sign a b (shape (max a.width b.width) false)
infer2 op_xor a b = if_same_sign a b (shape (max a.width b.width) false)
infer2 _ a b = none

-- One child, and the integer arguments.
unfoldable pub infer1 : OpType → List ℕ → Label → Option Shape
infer1 op_asuint vs a = shape a.width false
infer1 op_assint vs a = shape a.width true
infer1 op_asclock vs a = some (record { width = 1; sign = false; is_clock = true })
infer1 op_asasyncreset vs a = shape 1 false
infer1 op_cvt vs a = shape (a.width + sign_bit (not a.sign)) true
infer1 op_neg vs a = shape (a.width + 1) true
infer1 op_not vs a = shape a.width false
infer1 op_andr vs a = shape 1 false
infer1 op_orr vs a = shape 1 false
infer1 op_xorr vs a = shape 1 false
infer1 op_pad (n ∷ []) a = shape (max a.width n) a.sign
infer1 op_shl (n ∷ []) a = shape (a.width + n) a.sign
infer1 op_shr (n ∷ []) a = shape (a.width - n) a.sign
infer1 op_head (n ∷ []) a = shape n false
infer1 op_tail (n ∷ []) a = if ltb a.width n then shape 0 false else shape (a.width - n) false
infer1 op_bits (h ∷ l ∷ []) a = shape (h - l + 1) false
infer1 op_bits_noshift (h ∷ l ∷ []) a = shape (h + 1) false
infer1 _ vs a = none

-- mux and when: a branch of a when may be null.
unfoldable pub infer_choice : List (Option Label) → Option Shape
infer_choice (c ∷ some a ∷ some b ∷ []) = shape (max a.width b.width) a.sign
infer_choice (c ∷ some a ∷ none ∷ []) = shape a.width a.sign
infer_choice (c ∷ none ∷ some b ∷ []) = shape b.width b.sign
infer_choice _ = none

-- The members of a group: the widest, and the sign of the last.
abbrev group_shape : ℕ → Bool → List (Option Label) → Option Shape
group_shape w s [] = shape w s
group_shape w s (none ∷ cs) = none
group_shape w s (some a ∷ cs) = group_shape (max w a.width) a.sign cs

abbrev second_shape : Bool → List (Option Label) → Option Shape
second_shape keep (a ∷ some b ∷ cs) = shape b.width (if keep then b.sign else false)
second_shape keep _ = none

abbrev by_count : Label → List (Option Label) → Option Shape
by_count l (some a ∷ []) = infer1 l.op_type l.values a
by_count l (some a ∷ some b ∷ []) = infer2 l.op_type a b
by_count l _ = none

-- The switch on the operator, from the inferred children.
unfoldable pub infer_op : Option Shape → Label → List (Option Label) → Option Shape
infer_op mem l cs = elim l.op_type [
  | op_int ↦ shape l.width l.sign
  | op_mux ↦ infer_choice cs
  | op_when ↦ infer_choice cs
  | op_group ↦ group_shape l.width l.sign cs
  | op_read_mem ↦ mem
  | op_write_mem ↦ second_shape true cs
  | op_invalid ↦ shape 0 false
  | op_reset ↦ second_shape false cs
  | op_printf ↦ shape 1 false
  | op_assert ↦ shape 1 false
  | op_exit ↦ shape 1 false
  | op_ext_func ↦ shape 1 false
  | op_index_int ↦ shape l.width l.sign
  | op_index ↦ shape l.width l.sign
  | _ ↦ by_count l cs
]

abbrev pub set_shape : Label → Shape → Label
set_shape l x = record l { width = x.width; sign = x.sign; is_clock = x.is_clock }

abbrev pub labels : Children → List (Option Label)
labels no_more = []
labels (child e cs) = some (label e) ∷ labels cs
labels (null cs) = none ∷ labels cs

module _ (node_shape : ℕ → Shape) (memory_shape : ℕ → Shape) where
  abbrev memory_of : Option ℕ → Option Shape
  memory_of none = none
  memory_of (some m) = some (memory_shape m)

  abbrev own_shape : Label → List (Option Label) → Option Shape
  own_shape l cs = elim l.node_ptr [
    | some n ↦ some (node_shape n)
    | none ↦ infer_op (memory_of l.memory_node) l cs
  ]

  abbrev rebuild : Label → Children → Option Shape → Option ENode
  rebuild l cs none = none
  rebuild l cs (some x) = some (enode (set_shape l x) cs)

  abbrev infer_own : Label → Option Children → Option ENode
  infer_own l none = none
  infer_own l (some cs) = rebuild l cs (own_shape l (labels cs))

  abbrev add_child : Option ENode → Option Children → Option Children
  add_child none cs = none
  add_child (some e) none = none
  add_child (some e) (some cs) = some (child e cs)

  abbrev add_null_child : Option Children → Option Children
  add_null_child none = none
  add_null_child (some cs) = some (null cs)

  unfoldable mutual
    pub infer_width : ENode → Option ENode
    infer_width (enode l cs) = infer_own l (infer_children cs)

    pub infer_children : Children → Option Children
    infer_children no_more = some no_more
    infer_children (child e cs) = add_child (infer_width e) (infer_children cs)
    infer_children (null cs) = add_null_child (infer_children cs)

-- head counts the bits it drops from then on, and tail those it keeps. The difference of two ints is
-- taken where the operand has the bits.
abbrev kept_count : List ℕ → List (Option Label) → List ℕ
kept_count (n ∷ vs) (some a ∷ cs) = (a.width - n) ∷ vs
kept_count vs cs = vs

abbrev pub update_label : Label → List (Option Label) → Label
update_label l cs = elim l.op_type [
  | op_head ↦ record l { values = kept_count l.values cs }
  | op_tail ↦ record l { values = kept_count l.values cs }
  | _ ↦ l
]

unfoldable mutual
  pub update_head_tail : ENode → ENode
  update_head_tail (enode l cs) = enode (update_label l (labels cs)) (update_children cs)

  pub update_children : Children → Children
  update_children no_more = no_more
  update_children (child e cs) = child (update_head_tail e) (update_children cs)
  update_children (null cs) = null (update_children cs)
