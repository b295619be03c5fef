-- ===== src/ValInfo.antt =====
-- include/valInfo.h: what constant propagation knows of a value. The C++ text of the value and the
-- members of an array are not modelled; `beg` and `end` are those of an array reference.
pub mod Wrap
use gsim.Prelude.{ℕ, Bool, true, false, List, if◌then◌else◌}
use gsim.Prelude.Int.{ℤ, pos}
use gsim.Gmp.{Gmp}
use gsim.OpFuncs.{mask_of, s_as_s_int}

pub data ValStatus : Type 0 where
  val_empty val_valid val_constant val_finish val_invalid val_ext : ValStatus

pub record ValInfo : Type 0 where
  pub status : ValStatus
  pub cons_val : ℤ
  pub width : ℕ
  pub sign : Bool
  pub same_constant : Bool
  pub assignment_cons : ℤ
  pub direct_update : Bool

-- `new valInfo(width, sign)`.
unfoldable pub new_val_info : ℕ → Bool → ValInfo
new_val_info w s = record {
  status = val_valid;
  cons_val = pos 0;
  width = w;
  sign = s;
  same_constant = false;
  assignment_cons = pos 0;
  direct_update = true;
}

abbrev pub is_constant : ValInfo → Bool
is_constant v = elim v.status [ val_constant ↦ true | _ ↦ false ]

abbrev pub is_empty : ValInfo → Bool
is_empty v = elim v.status [ val_empty ↦ true | _ ↦ false ]

abbrev pub is_invalid : ValInfo → Bool
is_invalid v = elim v.status [ val_invalid ↦ true | _ ↦ false ]

unfoldable pub set_cons_str : ValInfo → ValInfo
set_cons_str v = record v {
  status = val_constant;
  assignment_cons = v.cons_val;
  same_constant = true;
}

module _ (g : Gmp) where
  open g use {mpz_and, mpz_set_str}

  unfoldable pub update_cons_val : ValInfo → ValInfo
  unfolding set_cons_str
  update_cons_val v =
      let masked = mpz_and v.cons_val (mask_of g v.width) in
      let val = if v.sign then s_as_s_int g masked v.width else masked in
      set_cons_str (record v { cons_val = val })

  unfoldable pub set_constant_by_str : ValInfo → List ℕ → ℕ → ValInfo
  unfolding update_cons_val
  set_constant_by_str v str base =
      update_cons_val (record v { cons_val = mpz_set_str v.cons_val str base })
