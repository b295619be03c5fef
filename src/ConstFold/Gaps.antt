-- ===== src/ConstFold/Gaps.antt =====
-- src/constantNode.cpp and src/opFuncs.cpp: constants that the folding gets wrong, and the tests that
-- the rewriting of expressions makes on entries.
use gsim.Prelude.{Bool, true, false, Option, none, some, ◌&&◌, ◌||◌, if◌then◌else◌}
use gsim.Gmp.{Gmp}
use gsim.OpFuncs.{is_zero}
use gsim.ValInfo.{ValInfo, is_constant, is_empty}

-- isConsZero and isConsNoZero, of an entry that may be missing.
unfoldable pub is_cons_zero : Gmp → Option ValInfo → Bool
is_cons_zero g none = false
is_cons_zero g (some v) = is_constant v && is_zero (g.mpz_sgn v.cons_val)

unfoldable pub is_cons_no_zero : Gmp → Option ValInfo → Bool
is_cons_no_zero g none = false
is_cons_no_zero g (some v) =
    is_constant v && (if is_zero (g.mpz_sgn v.cons_val) then false else true)

-- cons_resetConsEq: a reset that leaves the register's constant.
unfoldable pub cons_reset_cons_eq : Gmp → ValInfo → Option ValInfo → Bool
cons_reset_cons_eq g dst none = true
cons_reset_cons_eq g dst (some r) =
    let cons_val = if is_constant dst then dst.cons_val else dst.assignment_cons in
    is_empty r
    || is_constant r && is_zero (g.mpz_cmp r.cons_val cons_val)
    || r.same_constant && is_zero (g.mpz_cmp r.assignment_cons cons_val)
