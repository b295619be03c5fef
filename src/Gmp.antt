-- ===== src/Gmp.antt =====
-- The operations of the GNU MP library that opFuncs.cpp, valInfo.h and constantNode.cpp call, with
-- what its manual says of them. An mpz_t is an integer of any size; the int that mpz_cmp and
-- mpz_sgn return stands for its sign. The logical functions behave as on two's complement numbers:
-- the lowest bit of the result is that of the operands' lowest bits, and halving commutes.
pub mod Agree
pub mod Fields
pub mod Masks
pub mod Reference
use gsim.Prelude.{
  ℕ, ◌+◌, ◌-◌, ◌*◌, ◌/◌, ◌%◌, ◌^◌, ◌≤◌, ◌≡◌, ◌≢◌, Bool, min, max, compare, Ordering, ◌==◌, ltb, leb,
  if◌then◌else◌, Option, some, none, List, [], ◌∷◌,
}
use gsim.Prelude.Int.{ℤ, pos, negsuc, ◌+ℤ◌, ◌-ℤ◌, ◌*ℤ◌, sub_ℕ, pos_part, neg_part, compare_ℤ}
use gsim.Prelude.Residue.{floor_div, half, odd}

-- The absolute value.
abbrev pub magnitude : ℤ → ℕ
magnitude z = pos_part z + neg_part z

-- The quotient rounded towards zero; the remainder has the sign of the dividend.
abbrev pub trunc_div : ℤ → ℤ → ℤ
trunc_div (pos n) (pos m) = pos (n / m)
trunc_div (pos n) (negsuc m) = sub_ℕ 0 (n / (m + 1))
trunc_div (negsuc n) (pos m) = sub_ℕ 0 ((n + 1) / m)
trunc_div (negsuc n) (negsuc m) = pos ((n + 1) / (m + 1))

abbrev pub trunc_rem : ℤ → ℤ → ℤ
trunc_rem (pos n) b = pos (n % magnitude b)
trunc_rem (negsuc n) b = sub_ℕ 0 ((n + 1) % magnitude b)

-- The value of a digit, '0' to '9', 'a' to 'z' or 'A' to 'Z', if it is one of the base.
unfoldable pub digit_value : ℕ → ℕ → Option ℕ
digit_value base c =
    let d =
      if ltb c b'0'
      then base
      else if leb c b'9'
      then c - b'0'
      else if ltb c b'A'
      then base
      else if leb c b'Z'
      then c - b'A' + 10
      else if ltb c b'a'
      then base
      else c - b'a' + 10 in
    if ltb d base then some d else none

-- The number that the digits spell, after `acc`.
unfoldable pub digits_value : ℕ → ℕ → List ℕ → Option ℕ
digits_value base acc [] = some acc
digits_value base acc (c ∷ cs) = elim (digit_value base c) [
  | none ↦ none
  | some d ↦ digits_value base (acc * base + d) cs
]

pub record Gmp : Type 0 where
  pub mpz_add : ℤ → ℤ → ℤ
  pub mpz_sub : ℤ → ℤ → ℤ
  pub mpz_mul : ℤ → ℤ → ℤ
  pub mpz_neg : ℤ → ℤ
  pub mpz_mul_2exp : ℤ → ℕ → ℤ
  pub mpz_tdiv_q : ℤ → ℤ → ℤ
  pub mpz_tdiv_r : ℤ → ℤ → ℤ
  pub mpz_tdiv_q_2exp : ℤ → ℕ → ℤ
  pub mpz_fdiv_q_2exp : ℤ → ℕ → ℤ
  pub mpz_and : ℤ → ℤ → ℤ
  pub mpz_ior : ℤ → ℤ → ℤ
  pub mpz_xor : ℤ → ℤ → ℤ
  pub mpz_cmp : ℤ → ℤ → Ordering
  pub mpz_sgn : ℤ → Ordering
  pub mpz_tstbit : ℤ → ℕ → Bool
  pub mpz_popcount : ℤ → ℕ
  pub mpz_get_ui : ℤ → ℕ
  -- The old value, the text and the base.
  pub mpz_set_str : ℤ → List ℕ → ℕ → ℤ
  pub add_law : (a b : ℤ) → mpz_add a b ≡ a +ℤ b
  pub sub_law : (a b : ℤ) → mpz_sub a b ≡ a -ℤ b
  pub mul_law : (a b : ℤ) → mpz_mul a b ≡ a *ℤ b
  pub neg_law : (a : ℤ) → mpz_neg a ≡ pos 0 -ℤ a
  pub mul_2exp_law : (a : ℤ) (n : ℕ) → mpz_mul_2exp a n ≡ a *ℤ pos (2 ^ n)
  pub tdiv_q_law : (a b : ℤ) → b ≢ pos 0 → mpz_tdiv_q a b ≡ trunc_div a b
  pub tdiv_r_law : (a b : ℤ) → b ≢ pos 0 → mpz_tdiv_r a b ≡ trunc_rem a b
  pub tdiv_q_2exp_law : (a : ℤ) (n : ℕ) → mpz_tdiv_q_2exp a n ≡ trunc_div a (pos (2 ^ n))
  pub fdiv_q_2exp_law : (a : ℤ) (n : ℕ) → mpz_fdiv_q_2exp a n ≡ floor_div a (2 ^ n)
  pub and_half : (a b : ℤ) → half (mpz_and a b) ≡ mpz_and (half a) (half b)
  pub and_odd : (a b : ℤ) → odd (mpz_and a b) ≡ min (odd a) (odd b)
  pub ior_half : (a b : ℤ) → half (mpz_ior a b) ≡ mpz_ior (half a) (half b)
  pub ior_odd : (a b : ℤ) → odd (mpz_ior a b) ≡ max (odd a) (odd b)
  pub xor_half : (a b : ℤ) → half (mpz_xor a b) ≡ mpz_xor (half a) (half b)
  pub xor_odd : (a b : ℤ) → odd (mpz_xor a b) ≡ (odd a + odd b) % 2
  pub cmp_law : (a b : ℤ) → mpz_cmp a b ≡ compare_ℤ a b
  pub sgn_law : (a : ℤ) → mpz_sgn a ≡ compare_ℤ a (pos 0)
  pub tstbit_law : (a : ℤ) (i : ℕ) → mpz_tstbit a i ≡ (odd (floor_div a (2 ^ i)) == 1)
  pub popcount_zero : mpz_popcount (pos 0) ≡ 0
  pub popcount_step : (n : ℕ) → mpz_popcount (pos n) ≡ mpz_popcount (pos (n / 2)) + n % 2
  pub get_ui_law : (n : ℕ) → mpz_get_ui (pos n) ≡ n % 2 ^ 64
  pub set_str_law :
      (z : ℤ) (c : ℕ) (cs : List ℕ) (base n : ℕ)
      → 2 ≤ base
      → base ≤ 36
      → digits_value base 0 (c ∷ cs) ≡ some n
      → mpz_set_str z (c ∷ cs) base ≡ pos n
  pub set_str_minus :
      (z : ℤ) (c : ℕ) (cs : List ℕ) (base n : ℕ)
      → 2 ≤ base
      → base ≤ 36
      → digits_value base 0 (c ∷ cs) ≡ some n
      → mpz_set_str z (b'-' ∷ c ∷ cs) base ≡ pos 0 -ℤ pos n
