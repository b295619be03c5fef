-- ===== src/OpFuncs/Values.antt =====
-- src/opFuncs.cpp: conversions, arithmetic, comparisons and the multiplexer.
use gsim.Prelude.{
  ℕ, ◌+◌, ◌-◌, ◌^◌, ◌%◌, Bool, true, false, ◌&&◌, ◌||◌, Ordering, leb, if◌then◌else◌,
}
use gsim.Prelude.Int.{ℤ, pos}
use gsim.Gmp.{Gmp}

-- The sign of an int result.
abbrev pub negative : Ordering → Bool
negative Ordering.lt = true
negative _ = false

abbrev pub positive : Ordering → Bool
positive Ordering.gt = true
positive _ = false

abbrev pub is_zero : Ordering → Bool
is_zero Ordering.eq = true
is_zero _ = false

-- A C++ bool as a number.
abbrev pub of_bool : Bool → ℤ
of_bool true = pos 1
of_bool false = pos 0

module _ (g : Gmp) where
  open g use {mpz_add, mpz_sub, mpz_mul, mpz_mul_2exp, mpz_tdiv_q, mpz_tdiv_r, mpz_ior}
  open g use {mpz_cmp, mpz_sgn, mpz_tstbit, mpz_neg}

  -- 1 << n, and n ones.
  abbrev pub two_exp : ℕ → ℤ
  two_exp n = mpz_mul_2exp (pos 1) n

  abbrev pub mask_of : ℕ → ℤ
  mask_of n = mpz_sub (two_exp n) (pos 1)

  unfoldable pub u_pad : ℤ → ℕ → ℕ → ℤ
  u_pad src bitcnt n = src

  unfoldable pub s_pad : ℤ → ℕ → ℕ → ℤ
  s_pad src bitcnt n =
      if leb n bitcnt || leb_zero
      then src
      else mpz_ior (mpz_mul_2exp (mask_of (n - bitcnt)) bitcnt) src
    where
      leb_zero : Bool
      leb_zero = if negative (mpz_cmp src (pos 0)) then false else true

  unfoldable pub u_as_u_int : ℤ → ℕ → ℤ
  u_as_u_int src bitcnt =
      if negative (mpz_cmp src (pos 0)) then mpz_add (two_exp bitcnt) src else src

  -- `bitcnt - 1` is a difference of unsigned longs.
  unfoldable pub s_as_s_int : ℤ → ℕ → ℤ
  s_as_s_int src bitcnt =
      if positive (mpz_sgn src) && mpz_tstbit src ((bitcnt + 2 ^ 64 - 1) % 2 ^ 64)
      then mpz_neg (mpz_sub (two_exp bitcnt) src)
      else src

  unfoldable pub u_as_clock : ℤ → ℕ → ℤ
  u_as_clock src bitcnt = src

  unfoldable pub u_as_async_reset : ℤ → ℕ → ℤ
  u_as_async_reset src bitcnt = src

  unfoldable pub u_cvt : ℤ → ℕ → ℤ
  u_cvt src bitcnt = src

  unfoldable pub s_cvt : ℤ → ℕ → ℤ
  s_cvt src bitcnt = src

  unfoldable pub s_neg : ℤ → ℕ → ℤ
  s_neg src bitcnt = mpz_sub (pos 0) src

  unfoldable pub us_add : ℤ → ℕ → ℤ → ℕ → ℤ
  us_add src1 bitcnt1 src2 bitcnt2 = mpz_add src1 src2

  unfoldable pub us_sub : ℤ → ℤ → ℕ → ℤ
  us_sub src1 src2 dst_bitcnt =
      if is_zero (mpz_sgn src2) then src1 else mpz_add (mpz_sub (two_exp dst_bitcnt) src2) src1

  unfoldable pub us_mul : ℤ → ℕ → ℤ → ℕ → ℤ
  us_mul src1 bitcnt1 src2 bitcnt2 = mpz_mul src1 src2

  -- A zero divisor leaves dst as it was.
  unfoldable pub us_div : ℤ → ℤ → ℕ → ℤ → ℕ → ℤ
  us_div dst src1 bitcnt1 src2 bitcnt2 =
      if is_zero (mpz_cmp src2 (pos 0)) then dst else mpz_tdiv_q src1 src2

  unfoldable pub us_rem : ℤ → ℤ → ℕ → ℤ → ℕ → ℤ
  us_rem dst src1 bitcnt1 src2 bitcnt2 =
      if is_zero (mpz_cmp src2 (pos 0)) then dst else mpz_tdiv_r src1 src2

  unfoldable pub us_lt : ℤ → ℕ → ℤ → ℕ → ℤ
  us_lt op1 bitcnt1 op2 bitcnt2 = of_bool (negative (mpz_cmp op1 op2))

  unfoldable pub us_leq : ℤ → ℕ → ℤ → ℕ → ℤ
  us_leq op1 bitcnt1 op2 bitcnt2 = of_bool (if positive (mpz_cmp op1 op2) then false else true)

  unfoldable pub us_gt : ℤ → ℕ → ℤ → ℕ → ℤ
  us_gt op1 bitcnt1 op2 bitcnt2 = of_bool (positive (mpz_cmp op1 op2))

  unfoldable pub us_geq : ℤ → ℕ → ℤ → ℕ → ℤ
  us_geq op1 bitcnt1 op2 bitcnt2 = of_bool (if negative (mpz_cmp op1 op2) then false else true)

  unfoldable pub us_eq : ℤ → ℕ → ℤ → ℕ → ℤ
  us_eq op1 bitcnt1 op2 bitcnt2 = of_bool (is_zero (mpz_cmp op1 op2))

  unfoldable pub us_neq : ℤ → ℕ → ℤ → ℕ → ℤ
  us_neq op1 bitcnt1 op2 bitcnt2 = of_bool (if is_zero (mpz_cmp op1 op2) then false else true)

  unfoldable pub us_mux : ℤ → ℤ → ℤ → ℤ
  us_mux cond src1 src2 = if is_zero (mpz_sgn cond) then src2 else src1
