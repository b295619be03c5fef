-- ===== src/ConstFold/Entry.antt =====
-- src/constantNode.cpp: a child of an enode and what is known of it.
use gsim.Prelude.{ℕ, Bool, [], ◌∷◌}
use gsim.Prelude.Int.{ℤ}
use gsim.Gmp.{Gmp}
use gsim.OpFuncs.{is_zero, positive, mask_of}
use gsim.ValInfo.{ValInfo, new_val_info, is_constant, update_cons_val, set_constant_by_str}

-- The child's own width and sign, and `consEMap[child]`.
pub record Operand : Type 0 where
  pub width : ℕ
  pub sign : Bool
  pub info : ValInfo

-- `status == VAL_CONSTANT`, of one child and of both.
abbrev pub known : Operand → Bool
known a = is_constant a.info

module _ (g : Gmp) where
  open g use {mpz_cmp, mpz_sgn}

  -- `ret->consVal` written and `ret->updateConsVal()`.
  unfoldable pub computed : ℕ → Bool → ℤ → ValInfo
  unfolding update_cons_val new_val_info
  computed width sign z = update_cons_val g (record (new_val_info width sign) { cons_val = z })

  -- `ret->setConstantByStr("0")`.
  unfoldable pub zero_constant : ℕ → Bool → ValInfo
  unfolding set_constant_by_str new_val_info
  zero_constant width sign = set_constant_by_str g (new_val_info width sign) (b'0' ∷ []) 16

  -- `mpz_sgn(consVal) == 0`.
  abbrev pub cons_zero : Operand → Bool
  cons_zero a = is_zero (mpz_sgn a.info.cons_val)

  abbrev pub cons_eq_val : Operand → Operand → Bool
  cons_eq_val a b = is_zero (mpz_cmp a.info.cons_val b.info.cons_val)

  unfoldable pub mpz_out_of_bound : ℤ → ℕ → Bool
  mpz_out_of_bound val width = positive (mpz_cmp val (mask_of g width))
