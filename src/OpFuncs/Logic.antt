-- ===== src/OpFuncs/Logic.antt =====
-- src/opFuncs.cpp: bitwise operators, reductions and concatenation.
use gsim.Prelude.{ℕ, ◌%◌, Option, some, none, if◌then◌else◌}
use gsim.Prelude.Int.{ℤ, pos}
use gsim.Gmp.{Gmp}
use gsim.OpFuncs.Values.{negative, is_zero, mask_of, of_bool}

module _ (g : Gmp) where
  open g use {mpz_mul_2exp, mpz_and, mpz_ior, mpz_xor, mpz_cmp, mpz_sgn, mpz_popcount}

  unfoldable pub u_not : ℤ → ℕ → ℤ
  u_not src bitcnt = mpz_xor (mask_of g bitcnt) src

  unfoldable pub u_orr : ℤ → ℕ → ℤ
  u_orr src bitcnt = if is_zero (mpz_cmp src (pos 0)) then pos 0 else pos 1

  unfoldable pub u_andr : ℤ → ℕ → ℤ
  u_andr src bitcnt = of_bool (is_zero (mpz_cmp (mask_of g bitcnt) src))

  -- `& 1` of a number.
  unfoldable pub u_xorr : ℤ → ℕ → ℤ
  u_xorr src bitcnt = pos (mpz_popcount src % 2)

  unfoldable pub u_and : ℤ → ℕ → ℤ → ℕ → ℤ
  u_and src1 bitcnt1 src2 bitcnt2 = mpz_and src1 src2

  unfoldable pub u_ior : ℤ → ℕ → ℤ → ℕ → ℤ
  u_ior src1 bitcnt1 src2 bitcnt2 = mpz_ior src1 src2

  unfoldable pub u_xor : ℤ → ℕ → ℤ → ℕ → ℤ
  u_xor src1 bitcnt1 src2 bitcnt2 = mpz_xor src1 src2

  -- The assertion fails on a negative operand.
  unfoldable pub u_cat : ℤ → ℕ → ℤ → ℕ → Option ℤ
  u_cat src1 bitcnt1 src2 bitcnt2 =
      if negative (mpz_sgn src1)
      then none
      else if negative (mpz_sgn src2)
      then none
      else some (mpz_ior (mpz_mul_2exp src1 bitcnt2) src2)
