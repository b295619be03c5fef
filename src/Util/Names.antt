-- ===== src/Util/Names.antt =====
-- src/util.cpp: the operators that FIRRTL's names stand for. A name that is not in a table fails the
-- assertion.
use gsim.Prelude.{
  ℕ, Bool, true, false, ◌&&◌, List, [], ◌∷◌, Option, none, some, ◌==◌, if◌then◌else◌,
}
use gsim.Circuit.{
  OpType, op_add, op_sub, op_mul, op_div, op_rem, op_lt, op_leq, op_gt, op_geq, op_eq, op_neq,
  op_dshl, op_dshr, op_and, op_or, op_xor, op_cat, op_asuint, op_assint, op_asclock,
  op_asasyncreset, op_cvt, op_neg, op_not, op_andr, op_orr, op_xorr, op_pad, op_shl, op_shr,
  op_head, op_tail,
}

abbrev same_text : List ℕ → List ℕ → Bool
same_text [] [] = true
same_text [] (c ∷ t) = false
same_text (c ∷ s) [] = false
same_text (c ∷ s) (d ∷ t) = c == d && same_text s t

abbrev find_op : List (List ℕ × OpType) → List ℕ → Option OpType
find_op [] name = none
find_op ((key, op) ∷ es) name = if same_text key name then some op else find_op es name

-- expr2Map.
abbrev expr2_map : List (List ℕ × OpType)
expr2_map =
    (b'a' ∷ b'd' ∷ b'd' ∷ [], op_add)
    ∷ (b's' ∷ b'u' ∷ b'b' ∷ [], op_sub)
    ∷ (b'm' ∷ b'u' ∷ b'l' ∷ [], op_mul)
    ∷ (b'd' ∷ b'i' ∷ b'v' ∷ [], op_div)
    ∷ (b'r' ∷ b'e' ∷ b'm' ∷ [], op_rem)
    ∷ (b'l' ∷ b't' ∷ [], op_lt)
    ∷ (b'l' ∷ b'e' ∷ b'q' ∷ [], op_leq)
    ∷ (b'g' ∷ b't' ∷ [], op_gt)
    ∷ (b'g' ∷ b'e' ∷ b'q' ∷ [], op_geq)
    ∷ (b'e' ∷ b'q' ∷ [], op_eq)
    ∷ (b'n' ∷ b'e' ∷ b'q' ∷ [], op_neq)
    ∷ (b'd' ∷ b's' ∷ b'h' ∷ b'l' ∷ [], op_dshl)
    ∷ (b'd' ∷ b's' ∷ b'h' ∷ b'r' ∷ [], op_dshr)
    ∷ (b'a' ∷ b'n' ∷ b'd' ∷ [], op_and)
    ∷ (b'o' ∷ b'r' ∷ [], op_or)
    ∷ (b'x' ∷ b'o' ∷ b'r' ∷ [], op_xor)
    ∷ (b'c' ∷ b'a' ∷ b't' ∷ [], op_cat)
    ∷ []

unfoldable pub str2op_expr2 : List ℕ → Option OpType
str2op_expr2 name = find_op expr2_map name

-- expr1Map.
abbrev expr1_map : List (List ℕ × OpType)
expr1_map =
    (b'a' ∷ b's' ∷ b'U' ∷ b'I' ∷ b'n' ∷ b't' ∷ [], op_asuint)
    ∷ (b'a' ∷ b's' ∷ b'S' ∷ b'I' ∷ b'n' ∷ b't' ∷ [], op_assint)
    ∷ (b'a' ∷ b's' ∷ b'C' ∷ b'l' ∷ b'o' ∷ b'c' ∷ b'k' ∷ [], op_asclock)
    ∷ (
      b'a' ∷ b's' ∷ b'A' ∷ b's' ∷ b'y' ∷ b'n' ∷ b'c' ∷ b'R' ∷ b'e' ∷ b's' ∷ b'e' ∷ b't' ∷ [],
      op_asasyncreset,
    )
    ∷ (b'c' ∷ b'v' ∷ b't' ∷ [], op_cvt)
    ∷ (b'n' ∷ b'e' ∷ b'g' ∷ [], op_neg)
    ∷ (b'n' ∷ b'o' ∷ b't' ∷ [], op_not)
    ∷ (b'a' ∷ b'n' ∷ b'd' ∷ b'r' ∷ [], op_andr)
    ∷ (b'o' ∷ b'r' ∷ b'r' ∷ [], op_orr)
    ∷ (b'x' ∷ b'o' ∷ b'r' ∷ b'r' ∷ [], op_xorr)
    ∷ []

unfoldable pub str2op_expr1 : List ℕ → Option OpType
str2op_expr1 name = find_op expr1_map name

-- expr1int1Map.
abbrev expr1int1_map : List (List ℕ × OpType)
expr1int1_map =
    (b'p' ∷ b'a' ∷ b'd' ∷ [], op_pad)
    ∷ (b's' ∷ b'h' ∷ b'l' ∷ [], op_shl)
    ∷ (b's' ∷ b'h' ∷ b'r' ∷ [], op_shr)
    ∷ (b'h' ∷ b'e' ∷ b'a' ∷ b'd' ∷ [], op_head)
    ∷ (b't' ∷ b'a' ∷ b'i' ∷ b'l' ∷ [], op_tail)
    ∷ []

unfoldable pub str2op_expr1int1 : List ℕ → Option OpType
str2op_expr1int1 name = find_op expr1int1_map name
