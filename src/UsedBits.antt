-- ===== src/UsedBits.antt =====
-- src/usedBits.cpp, ENode::passWidthToChild, and src/ENode.cpp, ENode::usedBitWithFixRoot: how many of
-- the low bits of its children an enode asks for, when usedBit of its own low bits are read. `none` is
-- Panic() or the failed assertion on the number of children. The walk over nodes is not modelled.
pub mod Enough
pub mod Bitwise
use gsim.Prelude.{
  ℕ, ◌+◌, ◌-◌, min, Bool, true, false, List, [], ◌∷◌, Option, none, some, length, ◌==◌,
  if◌then◌else◌, map,
}
use gsim.Circuit.{
  OpType, op_mux, op_add, op_sub, op_mul, op_div, op_rem, op_lt, op_leq, op_gt, op_geq, op_eq,
  op_neq, op_dshl, op_dshr, op_and, op_or, op_xor, op_cat, op_asuint, op_assint, op_asclock,
  op_asasyncreset, op_cvt, op_neg, op_not, op_andr, op_orr, op_xorr, op_pad, op_shl, op_shr,
  op_head, op_tail, op_bits, op_bits_noshift, op_index_int, op_index, op_when, op_printf, op_assert,
  op_exit, op_group, op_read_mem, op_write_mem, op_reset, op_sext, op_ext_func,
}
use gsim.Tree.{Label, ENode, enode, Children, no_more, child, null, label}

-- Two children, of widths wa and wb.
unfoldable pub bits2 : OpType → ℕ → ℕ → ℕ → Option (ℕ × ℕ)
bits2 op_add u wa wb = some (u, u)
bits2 op_sub u wa wb = some (u, u)
bits2 op_or u wa wb = some (u, u)
bits2 op_xor u wa wb = some (u, u)
bits2 op_and u wa wb = some (u, u)
bits2 op_mul u wa wb = some (min u wa, min u wb)
bits2 op_div u wa wb = some (wa, wb)
bits2 op_rem u wa wb = some (wa, wb)
bits2 op_dshl u wa wb = some (wa, wb)
bits2 op_dshr u wa wb = some (wa, wb)
bits2 op_lt u wa wb = some (wa, wb)
bits2 op_leq u wa wb = some (wa, wb)
bits2 op_gt u wa wb = some (wa, wb)
bits2 op_geq u wa wb = some (wa, wb)
bits2 op_eq u wa wb = some (wa, wb)
bits2 op_neq u wa wb = some (wa, wb)
bits2 op_cat u wa wb = some (u - wb, min wb u)
bits2 op_reset u wa wb = some (1, u)
bits2 _ u wa wb = none

-- One child, of width wa, and the integer arguments.
unfoldable pub bits1 : OpType → List ℕ → ℕ → ℕ → Option ℕ
bits1 op_cvt vs u wa = some u
bits1 op_asclock vs u wa = some wa
bits1 op_asasyncreset vs u wa = some wa
bits1 op_andr vs u wa = some wa
bits1 op_orr vs u wa = some wa
bits1 op_xorr vs u wa = some wa
bits1 op_index_int vs u wa = some wa
bits1 op_index vs u wa = some wa
bits1 op_asuint vs u wa = some u
bits1 op_assint vs u wa = some u
bits1 op_not vs u wa = some u
bits1 op_neg vs u wa = some u
bits1 op_pad vs u wa = some u
bits1 op_tail vs u wa = some u
bits1 op_shl (n ∷ vs) u wa = some (u - n)
bits1 op_shr (n ∷ vs) u wa = some (u + n)
bits1 op_head (n ∷ vs) u wa = some (u + n)
bits1 op_bits (h ∷ l ∷ vs) u wa = some (min (u + l) (h + 1))
bits1 op_bits_noshift vs u wa = some u
bits1 op_sext vs u wa = some u
bits1 op_read_mem vs u wa = some wa
bits1 _ vs u wa = none

-- A mux or a when.
abbrev choice_bits : ℕ → ℕ → Option (List ℕ)
choice_bits u n = if n == 3 then some (1 ∷ u ∷ u ∷ []) else none

abbrev one : Option ℕ → Option (List ℕ)
one none = none
one (some x) = some (x ∷ [])

abbrev two : Option (ℕ × ℕ) → Option (List ℕ)
two none = none
two (some (x, y)) = some (x ∷ y ∷ [])

-- The widths of the children, which those of a mux or a when may lack.
abbrev by_count : OpType → List ℕ → ℕ → List ℕ → Option (List ℕ)
by_count op vs u (a ∷ []) = one (bits1 op vs u a)
by_count op vs u (a ∷ b ∷ []) = two (bits2 op u a b)
by_count op vs u ws = none

-- The children's bits in passWidthToChild, from the children's widths.
unfoldable pub child_bits : Label → ℕ → ℕ → List ℕ → Option (List ℕ)
child_bits l mem_width u ws = elim l.op_type [
  | op_mux ↦ choice_bits u (length ws)
  | op_when ↦ choice_bits u (length ws)
  | op_write_mem ↦ elim ws [ a ∷ b ∷ [] ↦ some (a ∷ mem_width ∷ []) | _ ↦ none ]
  | op_group ↦ some ws
  | op_exit ↦ some ws
  | op_printf ↦ some ws
  | op_assert ↦ some ws
  | op_ext_func ↦ some ws
  | _ ↦ by_count l.op_type l.values u ws
]

-- The children's bits in usedBitWithFixRoot: a cvt asks for one bit less of an unsigned child.
unfoldable pub fix_root_bits : Label → Bool → ℕ → List ℕ → Option (List ℕ)
fix_root_bits l first_sign u ws = elim l.op_type [
  | op_mux ↦ choice_bits u (length ws)
  | op_when ↦ choice_bits u (length ws)
  | op_cvt ↦ elim ws [ a ∷ [] ↦ some ((if first_sign then u else u - 1) ∷ []) | _ ↦ none ]
  | op_exit ↦ elim ws [ a ∷ [] ↦ some (1 ∷ []) | _ ↦ none ]
  | op_printf ↦ some ws
  | op_assert ↦ some ws
  | op_write_mem ↦ none
  | op_group ↦ none
  | op_ext_func ↦ none
  | _ ↦ by_count l.op_type l.values u ws
]

abbrev widths : Children → List ℕ
widths no_more = []
widths (child e cs) = (label e).width ∷ widths cs
widths (null cs) = 0 ∷ widths cs

abbrev first_sign : Children → Bool
first_sign (child e cs) = (label e).sign
first_sign _ = false

-- A tree cut to the bits that are asked of its root. A reference to a node and a leaf stay.
abbrev cut_label : Label → ℕ → Label
cut_label l u = record l { width = min l.width u }

-- The upper bound of a bits operator follows its width, which is not 0 there.
abbrev cut_bits : Label → Label
cut_bits l = elim l.op_type [
  | op_bits ↦ elim l.values [
    | h ∷ m ∷ vs ↦ record l { values = min h (l.width + m - 1) ∷ m ∷ vs }
    | _ ↦ l
  ]
  | _ ↦ l
]

abbrev cut_enode : Label → ℕ → Option Children → Option ENode
cut_enode l u none = none
cut_enode l u (some cs) = some (enode (cut_bits (cut_label l u)) cs)

abbrev cons_child : Option ENode → Option Children → Option Children
cons_child none cs = none
cons_child (some e) none = none
cons_child (some e) (some cs) = some (child e cs)

abbrev cons_null : Option Children → Option Children
cons_null none = none
cons_null (some cs) = some (null cs)

unfoldable mutual
  pub used_bit_with_fix_root : ENode → ℕ → Option ENode
  used_bit_with_fix_root (enode l no_more) u = some (enode l no_more)
  used_bit_with_fix_root (enode l (child e cs)) u = elim l.node_ptr [
    | some n ↦ some (enode l (child e cs))
    | none ↦ elim (fix_root_bits l (label e).sign u ((label e).width ∷ widths cs)) [
      | some (b ∷ bs) ↦ cut_enode l u (cons_child (used_bit_with_fix_root e b) (fix_children cs bs))
      | _ ↦ none
    ]
  ]
  used_bit_with_fix_root (enode l (null cs)) u = elim l.node_ptr [
    | some n ↦ some (enode l (null cs))
    | none ↦ elim (fix_root_bits l false u (0 ∷ widths cs)) [
      | some (b ∷ bs) ↦ cut_enode l u (cons_null (fix_children cs bs))
      | _ ↦ none
    ]
  ]

  pub fix_children : Children → List ℕ → Option Children
  fix_children no_more bs = some no_more
  fix_children (child e cs) (b ∷ bs) = cons_child (used_bit_with_fix_root e b) (fix_children cs bs)
  fix_children (null cs) (b ∷ bs) = cons_null (fix_children cs bs)
  fix_children cs [] = none
