-- ===== src/OpFuncs/Shifts.antt =====
-- src/opFuncs.cpp: shifts, and the operators that take a part of the bits.
use gsim.Prelude.{ℕ, ◌+◌, ◌-◌, ◌^◌, ◌%◌, ltb, if◌then◌else◌}
use gsim.Prelude.Int.{ℤ, pos}
use gsim.Gmp.{Gmp}
use gsim.OpFuncs.Values.{negative, is_zero, two_exp, mask_of}

-- The count that a shift gets from `int n = mpz_get_ui(src2)`: cut to an int, and read as an
-- unsigned long.
abbrev pub shift_count : ℕ → ℕ
shift_count x = if ltb (x % 2 ^ 32) (2 ^ 31) then x % 2 ^ 32 else x % 2 ^ 32 + 2 ^ 64 - 2 ^ 32

-- h - l + 1 on unsigned longs.
abbrev pub field_width : ℕ → ℕ → ℕ
field_width h l = (h + 2 ^ 64 - l + 1) % 2 ^ 64

module _ (g : Gmp) where
  open g use {mpz_add, mpz_sub, mpz_mul_2exp, mpz_tdiv_q_2exp, mpz_fdiv_q_2exp, mpz_and}
  open g use {mpz_cmp, mpz_sgn, mpz_get_ui}

  unfoldable pub u_shl : ℤ → ℕ → ℕ → ℤ
  u_shl src bitcnt n = mpz_mul_2exp src n

  unfoldable pub u_shr : ℤ → ℕ → ℕ → ℤ
  u_shr src bitcnt n = mpz_tdiv_q_2exp src n

  -- For a negative source the code shifts dst.
  unfoldable pub s_shr : ℤ → ℤ → ℕ → ℕ → ℤ
  s_shr dst src bitcnt n =
      if negative (mpz_cmp src (pos 0)) then mpz_fdiv_q_2exp dst n else mpz_tdiv_q_2exp src n

  unfoldable pub u_head : ℤ → ℕ → ℕ → ℤ
  u_head src bitcnt n = mpz_tdiv_q_2exp src n

  -- The two's complement pattern of a negative source.
  abbrev pub pattern_of : ℤ → ℕ → ℤ
  pattern_of src bitcnt = mpz_add (two_exp g bitcnt) src

  unfoldable pub u_tail : ℤ → ℕ → ℕ → ℤ
  u_tail src bitcnt n =
      if is_zero (mpz_sgn src)
      then src
      else if negative (mpz_sgn src)
      then mpz_and (mask_of g n) (pattern_of src bitcnt)
      else mpz_and (mask_of g n) src

  unfoldable pub u_dshl : ℤ → ℕ → ℤ → ℕ → ℤ
  u_dshl src1 bitcnt1 src2 bitcnt2 = mpz_mul_2exp src1 (mpz_get_ui src2)

  unfoldable pub u_dshr : ℤ → ℕ → ℤ → ℕ → ℤ
  u_dshr src1 bitcnt1 src2 bitcnt2 = mpz_tdiv_q_2exp src1 (mpz_get_ui src2)

  unfoldable pub s_dshr : ℤ → ℕ → ℤ → ℕ → ℤ
  s_dshr src1 bitcnt1 src2 bitcnt2 =
      if negative (mpz_cmp src1 (pos 0))
      then mpz_fdiv_q_2exp src1 (shift_count (mpz_get_ui src2))
      else mpz_tdiv_q_2exp src1 (shift_count (mpz_get_ui src2))

  unfoldable pub u_bits : ℤ → ℕ → ℕ → ℕ → ℤ
  u_bits src bitcnt h l =
      let t1 =
        if negative (mpz_sgn src)
        then mpz_tdiv_q_2exp (pattern_of src bitcnt) l
        else mpz_tdiv_q_2exp src l in
      mpz_and t1 (mask_of g (field_width h l))

  unfoldable pub u_bits_noshift : ℤ → ℕ → ℕ → ℕ → ℤ
  u_bits_noshift src bitcnt h l =
      let t1 = if negative (mpz_sgn src) then pattern_of src bitcnt else src in
      mpz_and t1 (mpz_mul_2exp (mask_of g (field_width h l)) l)
