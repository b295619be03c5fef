-- ===== src/Examples.antt =====
-- The theorems at concrete inputs, with the reference implementation of GMP's functions.
mod Graph
mod Loops
mod Rewrites
mod Places
mod Aliases
mod Kept
mod Connections
mod Plans
mod Searches
use gsim.Prelude.{
  ℕ, ◌-◌, ◌≤◌, ◌<◌, zero, suc, ◌*◌, ◌^◌, Bool, true, false, ◌≡◌, refl, arith, Option, some, none,
  List, [], ◌∷◌, if◌then◌else◌,
}
use gsim.Prelude.Int.{ℤ, pos, negsuc}
use gsim.Prelude.Residue.{wrap, modp}
use gsim.Circuit.{
  op_index_int, op_empty, op_tail, op_lt, op_or, op_add, op_sub, op_eq, op_int, op_neg, op_mul,
  op_cat, node_others,
}
use gsim.Gmp.{digits_value, digit_value}
use gsim.Util.{fir_str_base}
use gsim.Gmp.Reference.{reference}
use gsim.Firrtl.{prim1, prim2, same}
use gsim.ValInfo.{ValInfo, new_val_info}
use gsim.ConstFold.{Operand, computed}
use gsim.ConstFold.Tree.{compute_constant, fold1, fold2}
use gsim.ConstFold.Sound.{Holds, OperandHolds, computed-Holds}
use gsim.ConstFold.Sound.Logic.{Folds, cons_or-Folds, cons_cat-Folds}
use gsim.ConstFold.Sound.Expr.{add, sub, neg, fold1-Folds, fold2-Folds}
use gsim.ConstFold.Sound.Runs.{Runs, literal, binary}
use gsim.ConstFold.Sound.Propagate.{compute_constant-Folds, mux-Holds}
use gsim.ConstFold.{cons_mux, cons_eq, cons_lt, cons_or, cons_cat}
use gsim.ConstFold.Sound.Shortcut.{cons_lt-Holds}
use gsim.ValInfo.{update_cons_val}
use gsim.ValInfo.Wrap.{update_cons_val_lem}
use gsim.InferWidth.{infer1, infer2, update_label, set_shape}
use gsim.InferWidth.Exact.{Exact2, infer2-exact}
use gsim.UsedBits.{bits2}
use gsim.UsedBits.Enough.{Covered2, bits2-enough, AgreeOn2}
use gsim.Util.{to_hex_string, upper_power2}
use gsim.Util.Mask.{MaskText, bit_mask, bit_mask-value}
use gsim.Tree.Copies.{dup}
use gsim.ConstFold.Copies.{compute_constant-dup}
use gsim.Tree.Index.{get_array_index, index, done, get_array_index-Inside}
use gsim.Util.Hex.{digits_value-to_hex_string}
use gsim.Util.Power.{upper_power2-bounds}
use gsim.TopoSort.{State, step, begin, next, start, set_mark, push_sources}
use gsim.TopoSort.Order.{Ordered, Reaches-Ordered}
use gsim.InferWidth.Nodes.{NodeShape, node_infer_width, AllWithin, node_infer_width-AllWithin}
use gsim.InferWidth.Tails.{update_label-tail}
use gsim.Tree.{Children, Label, ENode, enode, no_more, child}

abbrev nothing_known : ℕ → ValInfo
nothing_known n = new_val_info 8 false

abbrev no_memory : ℕ → Option ValInfo
no_memory n = none

abbrev text_label : List ℕ → Label
text_label str = record {
  op_type = op_int;
  width = 8;
  sign = false;
  values = [];
  str_val = str;
  node_ptr = none;
  memory_node = none;
  is_clock = false;
}

-- UInt<8>(0hc8) and UInt<8>(100).
abbrev two_hundred : Label
two_hundred = text_label (b'0' ∷ b'h' ∷ b'c' ∷ b'8' ∷ [])

abbrev one_hundred : Label
one_hundred = text_label (b'1' ∷ b'0' ∷ b'0' ∷ [])

two_hundred_text : fir_str_base two_hundred.str_val ≡ (16, b'c' ∷ b'8' ∷ [])
unfolding fir_str_base
two_hundred_text = refl

one_hundred_text : fir_str_base one_hundred.str_val ≡ (10, b'1' ∷ b'0' ∷ b'0' ∷ [])
unfolding fir_str_base
one_hundred_text = refl

two_hundred_digits : digits_value 16 0 (b'c' ∷ b'8' ∷ []) ≡ some 200
unfolding digits_value digit_value
two_hundred_digits = refl

one_hundred_digits : digits_value 10 0 (b'1' ∷ b'0' ∷ b'0' ∷ []) ≡ some 100
unfolding digits_value digit_value
one_hundred_digits = refl

abbrev sum_label : Label
sum_label = record (text_label []) { op_type = op_add; width = 9 }

abbrev sum : ENode
sum =
    enode sum_label (child (enode two_hundred no_more) (child (enode one_hundred no_more) no_more))

abbrev sum_value : ℤ
sum_value = wrap 9 false (prim2 op_add 8 (wrap 8 false (pos 200)) 8 (wrap 8 false (pos 100)))

abbrev sum_runs : Runs nothing_known (λ n. pos 0) sum sum_value
sum_runs =
    binary sum_label _ _ _ _ (omega arith) refl add
      (literal two_hundred 16 b'c' 200 (b'8' ∷ []) (omega arith) refl refl two_hundred_text refl
        (omega arith) (omega arith) two_hundred_digits)
      (literal one_hundred 10 b'1' 100 (b'0' ∷ b'0' ∷ []) (omega arith) refl refl one_hundred_text
        refl (omega arith) (omega arith) one_hundred_digits)

compute_constant-Folds_example :
    Folds
      (compute_constant reference node_others false nothing_known no_memory sum)
      9
      false
      sum_value
compute_constant-Folds_example =
    compute_constant-Folds reference node_others no_memory nothing_known (λ n. pos 0) sum sum_value
      sum_runs

-- Operands of 8 bits with the entries of a constant.
abbrev constant : Bool → ℤ → Operand
constant t z = record { width = 8; sign = t; info = computed reference 8 t z }

constant-Holds : (t : Bool) (z : ℤ) → OperandHolds (constant t z) (wrap 8 t z)
constant-Holds t z = computed-Holds reference 8 t z z (omega arith) refl

fold2-Folds_example :
    Folds
      (fold2 reference 9 true op_sub (constant true (negsuc 99)) (constant true (pos 100)))
      9
      true
      (wrap 9 true (prim2 op_sub 8 (wrap 8 true (negsuc 99)) 8 (wrap 8 true (pos 100))))
fold2-Folds_example =
    fold2-Folds reference op_sub 9 true (constant true (negsuc 99)) (constant true (pos 100))
      (wrap 8 true (negsuc 99)) (wrap 8 true (pos 100)) (omega arith) sub
      (constant-Holds true (negsuc 99)) (constant-Holds true (pos 100))

fold1-Folds_example :
    Folds
      (fold1 reference 9 true op_neg [] none (constant true (negsuc 127)))
      9
      true
      (wrap 9 true (prim1 op_neg 0 0 8 (wrap 8 true (negsuc 127))))
fold1-Folds_example =
    fold1-Folds reference op_neg 9 [] true none (constant true (negsuc 127))
      (wrap 8 true (negsuc 127)) (omega arith) neg (constant-Holds true (negsuc 127))

mux-Holds_example :
    Holds 8 false
      (cons_mux reference 8 false
        (constant false (pos 1))
        (constant false (pos 7))
        (constant false (pos 9)))
      (if same (wrap 8 false (pos 1)) (pos 0) then wrap 8 false (pos 9) else wrap 8 false (pos 7))
mux-Holds_example =
    mux-Holds reference 8 false (constant false (pos 1)) (constant false (pos 7))
      (constant false (pos 9)) (wrap 8 false (pos 1)) (wrap 8 false (pos 7)) (wrap 8 false (pos 9))
      (constant-Holds false (pos 1)) (constant-Holds false (pos 7)) (constant-Holds false (pos 9))

abbrev byte_label : Label
byte_label = record (text_label []) { sign = true }

inferred :
    infer2 op_mul byte_label byte_label
    ≡ some (record { width = 16; sign = true; is_clock = false })
unfolding infer2
inferred = refl

infer2-exact_example :
    wrap 16 true (prim2 op_mul 8 (negsuc 127) 8 (negsuc 127))
    ≡ prim2 op_mul 8 (negsuc 127) 8 (negsuc 127)
infer2-exact_example =
    infer2-exact op_mul byte_label byte_label (negsuc 127) (negsuc 127)
      (record { width = 16; sign = true; is_clock = false }) inferred Exact2.mul refl refl

mul_asked : AgreeOn2 8 8 (pos 200) (pos 3) (pos 8) (pos 19) (bits2 op_mul 4 8 8)
unfolding bits2
mul_asked = (refl, refl)

bits2-enough_example :
    modp (prim2 op_mul 8 (pos 200) 8 (pos 3)) (2 ^ 4)
    ≡ modp (prim2 op_mul 8 (pos 8) 8 (pos 19)) (2 ^ 4)
bits2-enough_example =
    bits2-enough 4 8 8 false false (pos 200) (pos 3) (pos 8) (pos 19) refl refl refl refl op_mul
      Covered2.mul mul_asked

digits_value-to_hex_string_example : digits_value 16 0 (to_hex_string 48879) ≡ some 48879
digits_value-to_hex_string_example = digits_value-to_hex_string 48879 (omega arith)

-- Two super nodes, with an edge from 0 to 1.
abbrev edge_next : ℕ → List ℕ
edge_next zero = 1 ∷ []
edge_next (suc n) = []

abbrev edge_prev_size : ℕ → ℕ
edge_prev_size zero = 0
edge_prev_size (suc n) = 1

abbrev first_state : State
first_state = start edge_next edge_prev_size (0 ∷ 1 ∷ [])

abbrev second_state : State
second_state = record {
  stack = 1 ∷ [];
  mark = set_mark (set_mark (λ v. none) 0 0) 1 1;
  sorted = 0 ∷ [];
}

abbrev last_state : State
last_state = record { stack = []; mark = set_mark second_state.mark 1 0; sorted = 1 ∷ 0 ∷ [] }

first_step : step edge_next edge_prev_size first_state ≡ some second_state
unfolding step push_sources
first_step = refl

second_step : step edge_next edge_prev_size second_state ≡ some last_state
unfolding step
second_step = refl

Reaches-Ordered_example : Ordered edge_next edge_prev_size (1 ∷ 0 ∷ [])
Reaches-Ordered_example =
    Reaches-Ordered edge_next edge_prev_size (0 ∷ 1 ∷ []) last_state
      (next second_state last_state (next first_state second_state begin first_step) second_step)

abbrev wide_node : NodeShape
wide_node = record {
  node_type = node_others;
  width = none;
  sign = false;
  is_clock = false;
  reset_root = none;
  assign_roots = one_hundred ∷ sum_label ∷ [];
}

node_infer_width-AllWithin_example :
    (w : ℕ) × ((node_infer_width wide_node).width ≡ some w)
    × AllWithin w (one_hundred ∷ sum_label ∷ [])
    × AllWithin w []
node_infer_width-AllWithin_example = node_infer_width-AllWithin wide_node refl refl

abbrev tail_label : Label
tail_label = record (text_label []) { op_type = op_tail; values = 3 ∷ [] }

tail_inferred :
    infer1 op_tail (3 ∷ []) one_hundred
    ≡ some (record { width = 5; sign = false; is_clock = false })
unfolding infer1
tail_inferred = refl

compute_constant-dup_example :
    compute_constant reference node_others false nothing_known no_memory (dup sum)
    ≡ compute_constant reference node_others false nothing_known no_memory sum
compute_constant-dup_example =
    compute_constant-dup reference node_others false nothing_known no_memory sum

-- The reference a[2][1] to an array of 3 by 4 elements.
abbrev constant_index : ℕ → ENode
constant_index n =
    enode (record (text_label []) { op_type = op_index_int; values = n ∷ [] }) no_more

abbrev reference_label : Label
reference_label = record (text_label []) { op_type = op_empty; node_ptr = some 0 }

abbrev two_indices : Children
two_indices = child (constant_index 2) (child (constant_index 1) no_more)
