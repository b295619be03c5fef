-- ===== src/PatternDetect.antt =====
-- src/patternDetect.cpp, checkPattern2: the comparison of two joined signals with a constant becomes one
-- comparison for each signal. The widths and the constant are modelled, and what the new comparisons test; the new
-- enodes are not. The constant is not negative, and rwidth is 1 or more.
pub mod Split
use gsim.Prelude.{ℕ, zero, suc, ◌+◌, ◌-◌, ◌*◌, ◌/◌, ◌%◌, ◌^◌, Bool, ◌&&◌, ◌==◌}

-- How catNode joins the signals: OP_CAT, or OP_OR with an OP_SHL of this shift and width on the left.
pub data Joined : Type 0 where
  cat : Joined
  or_shl : (shift width : ℕ) → Joined

unfoldable pub bits_mpz : ℕ → ℕ → ℕ → ℕ
bits_mpz op high_bit low_bit = op / 2 ^ low_bit % 2 ^ (high_bit + 1 - low_bit)

unfoldable pub constant1 : Joined → ℕ → ℕ → ℕ → ℕ
unfolding bits_mpz
constant1 cat lwidth rwidth constant = bits_mpz constant (lwidth + rwidth) (rwidth + 1)
constant1 (or_shl shift width) lwidth rwidth constant = bits_mpz constant (width - 1) shift

unfoldable pub constant2 : Joined → ℕ → ℕ → ℕ → ℕ
unfolding bits_mpz
constant2 joined lwidth rwidth constant = bits_mpz constant (rwidth - 1) 0

-- The new root, OP_AND of two OP_EQ.
unfoldable pub split_test : Joined → ℕ → ℕ → ℕ → ℕ → ℕ → Bool
unfolding constant1 constant2
split_test joined lwidth rwidth constant lsignal rsignal =
    (lsignal == constant1 joined lwidth rwidth constant)
    && (rsignal == constant2 joined lwidth rwidth constant)
