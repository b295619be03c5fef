-- ===== src/ConstFold/Control.antt =====
-- src/constantNode.cpp: choices, resets, literals and memory reads. A child of a when may be absent.
-- The pieces of consWhen that copy the members of an array reference are not modelled.
use gsim.Prelude.{
  ℕ, Bool, true, false, ◌&&◌, ◌||◌, Option, some, none, List, ◌==◌, get_or, if◌then◌else◌,
}
use gsim.Prelude.Int.{pos}
use gsim.Circuit.{NodeType, is_others}
use gsim.Gmp.{Gmp}
use gsim.OpFuncs.{is_zero}
use gsim.Util.{fir_str_base}
use gsim.ValInfo.{
  ValInfo, val_empty, val_constant, val_invalid, new_val_info, is_constant, is_empty, is_invalid,
  set_constant_by_str,
}
use gsim.ConstFold.Entry.{Operand, known, computed, cons_zero, cons_eq_val}

-- `new valInfo(0, 0)` with the status VAL_EMPTY.
unfoldable pub empty_info : ValInfo
unfolding new_val_info
empty_info = record (new_val_info 0 false) { status = val_empty }

-- The entry of a branch that may be absent.
abbrev pub branch_info : Option Operand → ValInfo
branch_info none = empty_info
branch_info (some o) = o.info

abbrev pub absent_or_empty : Option Operand → Bool
absent_or_empty none = true
absent_or_empty (some o) = is_empty o.info

abbrev pub present_invalid : Option Operand → Bool
present_invalid none = false
present_invalid (some o) = is_invalid o.info

-- `ret->sameConstant` and its value, taken from a branch.
abbrev pub copy_same : ValInfo → ValInfo → ValInfo
copy_same ret from =
    if from.same_constant
    then record ret { same_constant = true; assignment_cons = from.assignment_cons }
    else ret

module _ (g : Gmp) (width : ℕ) (sign : Bool) where
  open g use {mpz_cmp}

  unfoldable pub cons_mux : Operand → Operand → Operand → ValInfo
  unfolding new_val_info
  cons_mux c a b =
      if known c
      then if cons_zero g c then b.info else a.info
      else if known a && known b && cons_eq_val g a b
      then a.info
      else new_val_info width sign

  -- Two constant branches that agree.
  abbrev agree : Option Operand → Option Operand → Bool
  agree (some a) (some b) = known a && known b && cons_eq_val g a b
  agree none b = false
  agree (some a) none = false

  -- The last part of consWhen: what both branches assign.
  unfoldable pub when_unknown : Option Operand → Option Operand → ValInfo
  unfolding new_val_info
  when_unknown none none = record (new_val_info width sign) { status = val_empty }
  when_unknown none (some b) =
      if is_empty b.info
      then record (new_val_info width sign) { status = val_empty }
      else copy_same (new_val_info width sign) b.info
  when_unknown (some a) none =
      if is_empty a.info
      then record (new_val_info width sign) { status = val_empty }
      else copy_same (new_val_info width sign) a.info
  when_unknown (some a) (some b) =
      if is_empty a.info && is_empty b.info
      then record (new_val_info width sign) { status = val_empty }
      else if is_empty a.info
      then copy_same (new_val_info width sign) b.info
      else if is_empty b.info
      then copy_same (new_val_info width sign) a.info
      else if a.info.same_constant
          && b.info.same_constant
          && is_zero (mpz_cmp a.info.assignment_cons b.info.assignment_cons)
      then record (new_val_info width sign) {
        same_constant = true;
        assignment_cons = a.info.assignment_cons;
      }
      else new_val_info width sign

  unfoldable pub cons_when : NodeType → Operand → Option Operand → Option Operand → ValInfo
  unfolding when_unknown empty_info
  cons_when node_type c a b =
      if known c
      then if is_zero (mpz_cmp c.info.cons_val (pos 0)) then branch_info b else branch_info a
      else if agree a b
      then branch_info a
      else if present_invalid a && is_others node_type
      then branch_info b
      else if present_invalid b && is_others node_type
      then branch_info a
      else when_unknown a b

  -- The literal's text makes it signed if it starts with a minus; the new sign is the enode's too.
  unfoldable pub cons_int : List ℕ → ValInfo × Bool
  unfolding new_val_info
  cons_int str_val =
      let (base, str) = fir_str_base str_val in
      let need_signed = sign || get_or str 0 0 == b'-' in
      (set_constant_by_str g (new_val_info width need_signed) str base, need_signed)

  -- `consMap[memoryNode]`, where it is there.
  unfoldable pub cons_read_mem : Option ValInfo → ValInfo
  unfolding new_val_info
  cons_read_mem none = new_val_info width sign
  cons_read_mem (some m) =
      if is_constant m
      then record (new_val_info width sign) { status = val_constant; cons_val = m.cons_val }
      else new_val_info width sign

  unfoldable pub cons_invalid : ValInfo
  unfolding new_val_info
  cons_invalid = record (new_val_info width sign) { status = val_invalid }

  -- Where the condition holds, ret is the entry of the value itself, so the writes below change it.
  unfoldable pub cons_reset : Operand → Operand → ValInfo
  unfolding new_val_info
  cons_reset c a =
      let ret =
        if known c
        then if cons_zero g c
          then record (new_val_info width sign) { status = val_empty }
          else a.info
        else new_val_info width sign in
      record ret { same_constant = a.info.same_constant; assignment_cons = a.info.cons_val }

  unfoldable pub cons_assert : Operand → Operand → ValInfo
  cons_assert pred en =
      if known pred && (if cons_zero g pred then false else true)
      then computed g width sign (pos 0)
      else if known en && cons_zero g en
      then computed g width sign (pos 0)
      else new_val_info width sign

  unfoldable pub cons_exit : Operand → ValInfo
  cons_exit c =
      if known c && cons_zero g c then computed g width sign (pos 0) else new_val_info width sign
