-- ===== src/Gmp/Masks.antt =====
-- What the logical functions of GMP do with masks and with disjoint fields, from their laws on the
-- lowest bit.
use gsim.Prelude.{
  ℕ, zero, suc, ◌+◌, ◌-◌, ◌*◌, ◌/◌, ◌%◌, ◌^◌, ◌≤◌, ◌<◌, ◌≡◌, ap, sym, ◌∙◌, min, max, arith,
}
use gsim.Prelude.Int.{ℤ, pos, negsuc, ◌-ℤ◌, ◌*ℤ◌}
use gsim.Prelude.Residue.{
  modp, half, odd, half-odd_eq, modp_step, two_pow_pos, two_pow_suc, modp_lt,
}
use gsim.Gmp.{Gmp, magnitude}

-- Bit i of a value in two's complement.
abbrev pub bit : ℤ → ℕ → ℕ
bit z zero = odd z
bit z (suc i) = bit (half z) i

-- A fixed point of halving with an even value is 0.
halving_zero : (v : ℤ) → half v ≡ v → odd v ≡ 0 → v ≡ pos 0
halving_zero v h e = ground arith

pub half_ones : (n : ℕ) → (2 ^ suc n - 1) / 2 ≡ 2 ^ n - 1
half_ones n = omega (arith, two_pow_suc n, two_pow_pos n)

pub odd_ones : (n : ℕ) → (2 ^ suc n - 1) % 2 ≡ 1
odd_ones n = omega (arith, two_pow_suc n, two_pow_pos n)

pub odd_lt : (z : ℤ) → odd z < 2
odd_lt (pos n) = omega arith
odd_lt (negsuc n) = omega arith

pub modp-suc : (z : ℤ) (n : ℕ) → modp z (2 ^ suc n) ≡ 2 * modp (half z) (2 ^ n) + odd z
modp-suc z n = ap (modp z) (two_pow_suc n) ∙ modp_step z (2 ^ n) (two_pow_pos n)

pub modp_one : (z : ℤ) → modp z (2 ^ 0) ≡ 0
modp_one z = omega (arith, modp_lt z 1 (omega arith))

halving_minus_one : (v : ℤ) → half v ≡ v → odd v ≡ 1 → v ≡ negsuc 0
halving_minus_one v h e = ground arith

double_field : (x n : ℕ) → x * 2 ^ suc n ≡ 2 * (x * 2 ^ n)
double_field x n = omega (arith, ap (λ (t : ℕ). x * t) (two_pow_suc n))

half_field : (x n : ℕ) → x * 2 ^ suc n / 2 ≡ x * 2 ^ n
half_field x n = omega (arith, double_field x n)

modp-half : (z : ℤ) (n : ℕ) → modp z (2 ^ suc n) / 2 ≡ modp (half z) (2 ^ n)
modp-half z n = omega (arith, modp-suc z n, odd_lt z)

modp-odd : (z : ℤ) (n : ℕ) → modp z (2 ^ suc n) % 2 ≡ odd z
modp-odd z n = omega (arith, modp-suc z n, odd_lt z)

-- A conjunction, in either order of its operands.
module _ (op : ℤ → ℤ → ℤ) (op_half : (a b : ℤ) → half (op a b) ≡ op (half a) (half b))
    (op_odd : (a b : ℤ) → odd (op a b) ≡ min (odd a) (odd b)) where
  and_zero : (k : ℕ) (z : ℤ) → magnitude z ≤ k → op z (pos 0) ≡ pos 0
  and_zero k (pos zero) h =
      halving_zero _ (op_half (pos 0) (pos 0)) (omega (arith, op_odd (pos 0) (pos 0)))
  and_zero k (negsuc zero) h =
      halving_zero _ (op_half (negsuc 0) (pos 0)) (omega (arith, op_odd (negsuc 0) (pos 0)))
  and_zero zero (pos (suc n)) h = absurd (omega arith)
  and_zero (suc k) (pos (suc n)) h =
      half-odd_eq _ _ (op_half (pos (suc n)) (pos 0) ∙ and_zero k (pos (suc n / 2)) (omega arith))
        (omega (arith, op_odd (pos (suc n)) (pos 0)))
  and_zero zero (negsuc (suc n)) h = absurd (omega arith)
  and_zero (suc k) (negsuc (suc n)) h =
      half-odd_eq _ _
        (op_half (negsuc (suc n)) (pos 0) ∙ and_zero k (negsuc (suc n / 2)) (omega arith))
        (omega (arith, op_odd (negsuc (suc n)) (pos 0)))

  and_ones : (n : ℕ) (z : ℤ) → op z (pos (2 ^ n - 1)) ≡ pos (modp z (2 ^ n))
  and_ones zero z = and_zero (magnitude z) z (omega arith) ∙ ap pos (omega (arith, modp_one z))
  and_ones (suc n) z =
      half-odd_eq _ _
        (op_half z (pos (2 ^ suc n - 1))
          ∙ ap (λ t. op (half z) (pos t)) (half_ones n)
          ∙ and_ones n (half z)
          ∙ ap pos (sym (modp-half z n)))
        (omega (arith, op_odd z (pos (2 ^ suc n - 1)), odd_ones n, modp-odd z n, odd_lt z))

module _ (g : Gmp) where
  open g use {mpz_and, mpz_ior, mpz_xor, mpz_mul_2exp, mpz_sub}
  open g use {and_half, and_odd, ior_half, ior_odd, xor_half, xor_odd, mul_2exp_law, sub_law}

  pub two_exp_lem : (n : ℕ) → mpz_mul_2exp (pos 1) n ≡ pos (2 ^ n)
  unfolding ◌*ℤ◌
  two_exp_lem n = mul_2exp_law (pos 1) n ∙ ground arith

  pub mask_lem : (n : ℕ) → mpz_sub (mpz_mul_2exp (pos 1) n) (pos 1) ≡ pos (2 ^ n - 1)
  unfolding ◌-ℤ◌
  mask_lem n = rw (two_exp_lem n) (sub_law (pos (2 ^ n)) (pos 1) ∙ ground (arith, two_pow_pos n))

  -- The conjunction with n ones is the residue.
  pub and_mask : (n : ℕ) (z : ℤ) → mpz_and z (pos (2 ^ n - 1)) ≡ pos (modp z (2 ^ n))
  and_mask = and_ones mpz_and and_half and_odd

  pub mask_and : (n : ℕ) (z : ℤ) → mpz_and (pos (2 ^ n - 1)) z ≡ pos (modp z (2 ^ n))
  mask_and = and_ones (λ a b. mpz_and b a) (λ a b. and_half b a) (λ a b. omega (arith, and_odd b a))

  -- The exclusive or with n ones flips the low n bits.
  pub xor_mask :
      (n : ℕ) (z : ℤ) → modp (mpz_xor (pos (2 ^ n - 1)) z) (2 ^ n) + modp z (2 ^ n) + 1 ≡ 2 ^ n
  xor_mask zero z = omega (arith, modp_one z, modp_one (mpz_xor (pos (2 ^ 0 - 1)) z))
  xor_mask (suc n) z =
      let halves =
        xor_half (pos (2 ^ suc n - 1)) z ∙ ap (λ t. mpz_xor (pos t) (half z)) (half_ones n) in
      omega (
        arith,
        modp-suc (mpz_xor (pos (2 ^ suc n - 1)) z) n,
        ap (λ v. modp v (2 ^ n)) halves,
        xor_mask n (half z),
        xor_odd (pos (2 ^ suc n - 1)) z,
        odd_ones n,
        modp-suc z n,
        odd_lt z,
        two_pow_suc n,
      )

  ior_zero : (k n : ℕ) → n ≤ k → mpz_ior (pos n) (pos 0) ≡ pos n
  ior_zero k zero h =
      halving_zero _ (ior_half (pos 0) (pos 0)) (omega (arith, ior_odd (pos 0) (pos 0)))
  ior_zero zero (suc n) h = absurd (omega arith)
  ior_zero (suc k) (suc n) h =
      half-odd_eq _ _ (ior_half (pos (suc n)) (pos 0) ∙ ior_zero k (suc n / 2) (omega arith))
        (omega (arith, ior_odd (pos (suc n)) (pos 0)))

  ior_minus_one : (k n : ℕ) → n ≤ k → mpz_ior (pos n) (negsuc 0) ≡ negsuc 0
  ior_minus_one k zero h =
      halving_minus_one _ (ior_half (pos 0) (negsuc 0)) (omega (arith, ior_odd (pos 0) (negsuc 0)))
  ior_minus_one zero (suc n) h = absurd (omega arith)
  ior_minus_one (suc k) (suc n) h =
      half-odd_eq _ _
        (ior_half (pos (suc n)) (negsuc 0) ∙ ior_minus_one k (suc n / 2) (omega arith))
        (omega (arith, ior_odd (pos (suc n)) (negsuc 0)))

  -- A field above n bits, joined with a value of n bits.
  pub ior_fields : (n x y : ℕ) → y < 2 ^ n → mpz_ior (pos (x * 2 ^ n)) (pos y) ≡ pos (x * 2 ^ n + y)
  ior_fields zero x zero h = ior_zero (x * 2 ^ 0) (x * 2 ^ 0) (omega arith) ∙ ap pos (omega arith)
  ior_fields zero x (suc y) h = absurd (omega arith)
  ior_fields (suc n) x y h =
      half-odd_eq _ _
        (ior_half (pos (x * 2 ^ suc n)) (pos y)
          ∙ ap (λ t. mpz_ior (pos t) (pos (y / 2))) (half_field x n)
          ∙ ior_fields n x (y / 2) (omega (arith, two_pow_suc n))
          ∙ ap pos (omega (arith, double_field x n)))
        (omega (arith, ior_odd (pos (x * 2 ^ suc n)) (pos y), double_field x n))

  -- Ones above bit n change nothing in a negative value of n bits.
  pub ior_sign : (n x y : ℕ) → y < 2 ^ n → mpz_ior (pos (x * 2 ^ n)) (negsuc y) ≡ negsuc y
  ior_sign zero x zero h = ior_minus_one (x * 2 ^ 0) (x * 2 ^ 0) (omega arith)
  ior_sign zero x (suc y) h = absurd (omega arith)
  ior_sign (suc n) x y h =
      half-odd_eq _ _
        (ior_half (pos (x * 2 ^ suc n)) (negsuc y)
          ∙ ap (λ t. mpz_ior (pos t) (negsuc (y / 2))) (half_field x n)
          ∙ ior_sign n x (y / 2) (omega (arith, two_pow_suc n)))
        (omega (arith, ior_odd (pos (x * 2 ^ suc n)) (negsuc y), double_field x n))

  -- Each bit of a result is made of the operands' bits.
  pub and_bit : (i : ℕ) (a b : ℤ) → bit (mpz_and a b) i ≡ min (bit a i) (bit b i)
  and_bit zero a b = and_odd a b
  and_bit (suc i) a b = ap (λ v. bit v i) (and_half a b) ∙ and_bit i (half a) (half b)

  pub ior_bit : (i : ℕ) (a b : ℤ) → bit (mpz_ior a b) i ≡ max (bit a i) (bit b i)
  ior_bit zero a b = ior_odd a b
  ior_bit (suc i) a b = ap (λ v. bit v i) (ior_half a b) ∙ ior_bit i (half a) (half b)

  pub xor_bit : (i : ℕ) (a b : ℤ) → bit (mpz_xor a b) i ≡ (bit a i + bit b i) % 2
  xor_bit zero a b = xor_odd a b
  xor_bit (suc i) a b = ap (λ v. bit v i) (xor_half a b) ∙ xor_bit i (half a) (half b)

-- Wrapping keeps the bits below the width.
pub bit_cong : (w i : ℕ) (a b : ℤ) → i < w → modp a (2 ^ w) ≡ modp b (2 ^ w) → bit a i ≡ bit b i
bit_cong zero i a b h e = absurd (omega arith)
bit_cong (suc w) zero a b h e = omega (arith, modp-odd a w, modp-odd b w)
bit_cong (suc w) (suc i) a b h e =
    bit_cong w i (half a) (half b) (omega arith) (omega (arith, modp-half a w, modp-half b w))
