-- ===== src/Gmp/Reference.antt =====
-- A model of the library's integers that has every documented law: it shows that the interface can
-- be met, and the tests run on it.
mod Bits
use mathlib.Core.Option
use Bits.{and_digit, or_digit, xor_digit, and-le}
use Prim.Native.Nat.{bit_and, bit_or, bit_xor}
use gsim.Prelude.{
  ℕ, zero, suc, ◌+◌, ◌-◌, ◌*◌, ◌/◌, ◌%◌, ◌^◌, ◌≤◌, ◌≡◌, refl, ap, min, max, arith, ◌==◌, Option,
  some, none, List, [], ◌∷◌, if◌then◌else◌, Bool-cases, ==_iff, inl, inr, ◌≢◌,
}
use gsim.Prelude.Int.{ℤ, pos, negsuc, ◌+ℤ◌, ◌-ℤ◌, ◌*ℤ◌, compare_ℤ, pos_part}
use gsim.Prelude.Residue.{floor_div, half, odd}
use gsim.Gmp.{Gmp, trunc_div, trunc_rem, digit_value, digits_value}

-- -z - 1: every bit flipped.
abbrev pub flip : ℤ → ℤ
flip (pos n) = negsuc n
flip (negsuc n) = pos n

abbrev pub and_ℤ : ℤ → ℤ → ℤ
and_ℤ (pos a) (pos b) = pos (bit_and a b)
and_ℤ (pos a) (negsuc b) = pos (a - bit_and a b)
and_ℤ (negsuc a) (pos b) = pos (b - bit_and b a)
and_ℤ (negsuc a) (negsuc b) = negsuc (bit_or a b)

abbrev pub ior_ℤ : ℤ → ℤ → ℤ
ior_ℤ a b = flip (and_ℤ (flip a) (flip b))

abbrev pub xor_ℤ : ℤ → ℤ → ℤ
xor_ℤ (pos a) (pos b) = pos (bit_xor a b)
xor_ℤ (pos a) (negsuc b) = negsuc (bit_xor a b)
xor_ℤ (negsuc a) (pos b) = negsuc (bit_xor a b)
xor_ℤ (negsuc a) (negsuc b) = pos (bit_xor a b)

pub and_half : (a b : ℤ) → half (and_ℤ a b) ≡ and_ℤ (half a) (half b)
and_half (pos a) (pos b) = ap pos (omega (arith, and_digit a b))
and_half (pos a) (negsuc b) = ap pos (omega (arith, and_digit a b, and-le (a / 2) (b / 2)))
and_half (negsuc a) (pos b) = ap pos (omega (arith, and_digit b a, and-le (b / 2) (a / 2)))
and_half (negsuc a) (negsuc b) = ap negsuc (omega (arith, or_digit a b))

pub and_odd : (a b : ℤ) → odd (and_ℤ a b) ≡ min (odd a) (odd b)
and_odd (pos a) (pos b) = omega (arith, and_digit a b)
and_odd (pos a) (negsuc b) = omega (arith, and_digit a b, and-le (a / 2) (b / 2))
and_odd (negsuc a) (pos b) = omega (arith, and_digit b a, and-le (b / 2) (a / 2))
and_odd (negsuc a) (negsuc b) = omega (arith, or_digit a b)

half-flip : (a : ℤ) → half (flip a) ≡ flip (half a)
half-flip (pos n) = refl
half-flip (negsuc n) = refl

odd-flip : (a : ℤ) → odd (flip a) ≡ 1 - odd a
odd-flip (pos n) = refl
odd-flip (negsuc n) = omega arith

pub ior_half : (a b : ℤ) → half (ior_ℤ a b) ≡ ior_ℤ (half a) (half b)
ior_half a b =
    simp (half-flip (and_ℤ (flip a) (flip b)), and_half (flip a) (flip b), half-flip a, half-flip b)

odd_bit : (a : ℤ) → odd a ≡ (odd a) % 2
odd_bit (pos n) = omega arith
odd_bit (negsuc n) = omega arith

pub ior_odd : (a b : ℤ) → odd (ior_ℤ a b) ≡ max (odd a) (odd b)
ior_odd a b = omega (
  arith,
  odd-flip (and_ℤ (flip a) (flip b)),
  and_odd (flip a) (flip b),
  odd-flip a,
  odd-flip b,
  odd_bit a,
  odd_bit b,
)

pub xor_half : (a b : ℤ) → half (xor_ℤ a b) ≡ xor_ℤ (half a) (half b)
xor_half (pos a) (pos b) = ap pos (omega (arith, xor_digit a b))
xor_half (pos a) (negsuc b) = ap negsuc (omega (arith, xor_digit a b))
xor_half (negsuc a) (pos b) = ap negsuc (omega (arith, xor_digit a b))
xor_half (negsuc a) (negsuc b) = ap pos (omega (arith, xor_digit a b))

pub xor_odd : (a b : ℤ) → odd (xor_ℤ a b) ≡ (odd a + odd b) % 2
xor_odd (pos a) (pos b) = omega (arith, xor_digit a b)
xor_odd (pos a) (negsuc b) = omega (arith, xor_digit a b)
xor_odd (negsuc a) (pos b) = omega (arith, xor_digit a b)
xor_odd (negsuc a) (negsuc b) = omega (arith, xor_digit a b)

-- The number of ones among the lowest n digits.
ones : ℕ → ℕ → ℕ
ones zero x = 0
ones (suc n) x = ones n (x / 2) + x % 2

ones-zero : (n : ℕ) → ones n 0 ≡ 0
unfolding ones
ones-zero zero = refl
ones-zero (suc n) = omega (arith, ones-zero n)

ones_enough : (n m x : ℕ) → x ≤ n → x ≤ m → ones n x ≡ ones m x
unfolding ones
ones_enough zero m zero hn hm = omega (arith, ones-zero m)
ones_enough n zero zero hn hm = omega (arith, ones-zero n)
ones_enough (suc n) (suc m) x hn hm =
    omega (arith, ones_enough n m (x / 2) (omega arith) (omega arith))
ones_enough _ _ x hn hm = absurd (omega arith)

unfoldable pub popcount : ℤ → ℕ
unfolding ones
popcount z = ones (pos_part z) (pos_part z)

pub popcount_step : (n : ℕ) → popcount (pos n) ≡ popcount (pos (n / 2)) + n % 2
unfolding popcount
popcount_step zero = refl
popcount_step (suc n) =
    omega (arith, ones_enough n (suc n / 2) (suc n / 2) (omega arith) (omega arith))

pub popcount_zero : popcount (pos 0) ≡ 0
unfolding popcount
popcount_zero = refl

-- A text that is no number leaves the old value.
abbrev pub or_old : ℤ → Option ℤ → ℤ
or_old z none = z
or_old z (some v) = v

unfoldable pub set_str : ℤ → List ℕ → ℕ → ℤ
set_str z [] base = z
set_str z (c ∷ cs) base = or_old z (
    if c == b'-'
    then Option.map (λ n. pos 0 -ℤ pos n) (digits_value base 0 cs)
    else Option.map pos (digits_value base 0 (c ∷ cs)))

minus_no_digit : (cs : List ℕ) (base n : ℕ) → digits_value base 0 (b'-' ∷ cs) ≢ some n
unfolding digits_value digit_value
minus_no_digit cs base n h = ground arith

pub set_str_law :
    (z : ℤ) (c : ℕ) (cs : List ℕ) (base n : ℕ)
    → 2 ≤ base
    → base ≤ 36
    → digits_value base 0 (c ∷ cs) ≡ some n
    → set_str z (c ∷ cs) base ≡ pos n
unfolding set_str
set_str_law z c cs base n lo hi h = elim (Bool-cases (c == b'-')) [
  | inl e ↦ absurd (minus_no_digit cs base n (rw (← (==_iff c b'-').0 e) h))
  | inr e ↦ rw (e, h)
]

pub set_str_minus :
    (z : ℤ) (c : ℕ) (cs : List ℕ) (base n : ℕ)
    → 2 ≤ base
    → base ≤ 36
    → digits_value base 0 (c ∷ cs) ≡ some n
    → set_str z (b'-' ∷ c ∷ cs) base ≡ pos 0 -ℤ pos n
unfolding set_str
set_str_minus z c cs base n lo hi h = rw (h, set_str)

abbrev pub reference : Gmp
reference = record {
  mpz_add = ◌+ℤ◌;
  mpz_sub = ◌-ℤ◌;
  mpz_mul = ◌*ℤ◌;
  mpz_neg = λ a. pos 0 -ℤ a;
  mpz_mul_2exp = λ a n. a *ℤ pos (2 ^ n);
  mpz_tdiv_q = trunc_div;
  mpz_tdiv_r = trunc_rem;
  mpz_tdiv_q_2exp = λ a n. trunc_div a (pos (2 ^ n));
  mpz_fdiv_q_2exp = λ a n. floor_div a (2 ^ n);
  mpz_and = and_ℤ;
  mpz_ior = ior_ℤ;
  mpz_xor = xor_ℤ;
  mpz_cmp = compare_ℤ;
  mpz_sgn = λ a. compare_ℤ a (pos 0);
  mpz_tstbit = λ a i. odd (floor_div a (2 ^ i)) == 1;
  mpz_popcount = popcount;
  mpz_get_ui = λ a. pos_part a % 2 ^ 64;
  mpz_set_str = set_str;
  add_law = λ a b. refl;
  sub_law = λ a b. refl;
  mul_law = λ a b. refl;
  neg_law = λ a. refl;
  mul_2exp_law = λ a n. refl;
  tdiv_q_law = λ a b h. refl;
  tdiv_r_law = λ a b h. refl;
  tdiv_q_2exp_law = λ a n. refl;
  fdiv_q_2exp_law = λ a n. refl;
  and_half = and_half;
  and_odd = and_odd;
  ior_half = ior_half;
  ior_odd = ior_odd;
  xor_half = xor_half;
  xor_odd = xor_odd;
  cmp_law = λ a b. refl;
  sgn_law = λ a. refl;
  tstbit_law = λ a i. refl;
  popcount_zero = popcount_zero;
  popcount_step = popcount_step;
  get_ui_law = λ n. refl;
  set_str_law = set_str_law;
  set_str_minus = set_str_minus;
}
