-- ===== src/Circuit/Numbers.antt =====
-- Equality of the kinds of operators, by their numbers in the enum.
use gsim.Prelude.{ℕ, Bool, true, List, [], ◌∷◌, ◌==◌, ==_iff, ◌≡◌, refl, ap, sym, ◌∙◌, get_or}
use gsim.Circuit.{
  OpType, op_empty, op_mux, op_add, op_sub, op_mul, op_div, op_rem, op_lt, op_leq, op_gt, op_geq,
  op_eq, op_neq, op_dshl, op_dshr, op_and, op_or, op_xor, op_cat, op_asuint, op_assint, op_asclock,
  op_asasyncreset, op_cvt, op_neg, op_not, op_andr, op_orr, op_xorr, op_pad, op_shl, op_shr,
  op_head, op_tail, op_bits, op_bits_noshift, op_index_int, op_index, op_when, op_printf, op_assert,
  op_exit, op_int, op_group, op_read_mem, op_write_mem, op_infer_mem, op_invalid, op_reset, op_sext,
  op_ext_func, op_stmt_seq, op_stmt_when, op_stmt_node,
}

abbrev pub op_number : OpType → ℕ
op_number op_empty = 0
op_number op_mux = 1
op_number op_add = 2
op_number op_sub = 3
op_number op_mul = 4
op_number op_div = 5
op_number op_rem = 6
op_number op_lt = 7
op_number op_leq = 8
op_number op_gt = 9
op_number op_geq = 10
op_number op_eq = 11
op_number op_neq = 12
op_number op_dshl = 13
op_number op_dshr = 14
op_number op_and = 15
op_number op_or = 16
op_number op_xor = 17
op_number op_cat = 18
op_number op_asuint = 19
op_number op_assint = 20
op_number op_asclock = 21
op_number op_asasyncreset = 22
op_number op_cvt = 23
op_number op_neg = 24
op_number op_not = 25
op_number op_andr = 26
op_number op_orr = 27
op_number op_xorr = 28
op_number op_pad = 29
op_number op_shl = 30
op_number op_shr = 31
op_number op_head = 32
op_number op_tail = 33
op_number op_bits = 34
op_number op_bits_noshift = 35
op_number op_index_int = 36
op_number op_index = 37
op_number op_when = 38
op_number op_printf = 39
op_number op_assert = 40
op_number op_exit = 41
op_number op_int = 42
op_number op_group = 43
op_number op_read_mem = 44
op_number op_write_mem = 45
op_number op_infer_mem = 46
op_number op_invalid = 47
op_number op_reset = 48
op_number op_sext = 49
op_number op_ext_func = 50
op_number op_stmt_seq = 51
op_number op_stmt_when = 52
op_number op_stmt_node = 53

abbrev op_list : List OpType
op_list =
    op_empty ∷ op_mux ∷ op_add ∷ op_sub ∷ op_mul ∷ op_div ∷ op_rem ∷ op_lt ∷ op_leq ∷ op_gt ∷ op_geq
    ∷ op_eq ∷ op_neq ∷ op_dshl ∷ op_dshr ∷ op_and ∷ op_or ∷ op_xor ∷ op_cat ∷ op_asuint ∷ op_assint
    ∷ op_asclock ∷ op_asasyncreset ∷ op_cvt ∷ op_neg ∷ op_not ∷ op_andr ∷ op_orr ∷ op_xorr ∷ op_pad
    ∷ op_shl ∷ op_shr ∷ op_head ∷ op_tail ∷ op_bits ∷ op_bits_noshift ∷ op_index_int ∷ op_index
    ∷ op_when ∷ op_printf ∷ op_assert ∷ op_exit ∷ op_int ∷ op_group ∷ op_read_mem ∷ op_write_mem
    ∷ op_infer_mem ∷ op_invalid ∷ op_reset ∷ op_sext ∷ op_ext_func ∷ op_stmt_seq ∷ op_stmt_when
    ∷ op_stmt_node ∷ []

op_at-number : (op : OpType) → get_or op_list (op_number op) op_empty ≡ op
op_at-number op_empty = refl
op_at-number op_mux = refl
op_at-number op_add = refl
op_at-number op_sub = refl
op_at-number op_mul = refl
op_at-number op_div = refl
op_at-number op_rem = refl
op_at-number op_lt = refl
op_at-number op_leq = refl
op_at-number op_gt = refl
op_at-number op_geq = refl
op_at-number op_eq = refl
op_at-number op_neq = refl
op_at-number op_dshl = refl
op_at-number op_dshr = refl
op_at-number op_and = refl
op_at-number op_or = refl
op_at-number op_xor = refl
op_at-number op_cat = refl
op_at-number op_asuint = refl
op_at-number op_assint = refl
op_at-number op_asclock = refl
op_at-number op_asasyncreset = refl
op_at-number op_cvt = refl
op_at-number op_neg = refl
op_at-number op_not = refl
op_at-number op_andr = refl
op_at-number op_orr = refl
op_at-number op_xorr = refl
op_at-number op_pad = refl
op_at-number op_shl = refl
op_at-number op_shr = refl
op_at-number op_head = refl
op_at-number op_tail = refl
op_at-number op_bits = refl
op_at-number op_bits_noshift = refl
op_at-number op_index_int = refl
op_at-number op_index = refl
op_at-number op_when = refl
op_at-number op_printf = refl
op_at-number op_assert = refl
op_at-number op_exit = refl
op_at-number op_int = refl
op_at-number op_group = refl
op_at-number op_read_mem = refl
op_at-number op_write_mem = refl
op_at-number op_infer_mem = refl
op_at-number op_invalid = refl
op_at-number op_reset = refl
op_at-number op_sext = refl
op_at-number op_ext_func = refl
op_at-number op_stmt_seq = refl
op_at-number op_stmt_when = refl
op_at-number op_stmt_node = refl

abbrev pub same_op : OpType → OpType → Bool
same_op a b = op_number a == op_number b

pub same_op_sound : (a b : OpType) → same_op a b ≡ true → a ≡ b
same_op_sound a b t =
    sym (op_at-number a)
    ∙ ap (λ n. get_or op_list n op_empty) ((==_iff (op_number a) (op_number b)).0 t)
    ∙ op_at-number b
