-- ===== src/Gmp/Reference/Bits.antt =====
-- The native logical functions, one binary digit at a time.
use Prim.Native.Nat.{digits, bitwise, differ, bit_and, bit_or, bit_xor}
use Prim.Native.Nat.{bit_and-bitwise, bit_or-bitwise, bit_xor-bitwise}
use gsim.Prelude.{ℕ, zero, suc, ◌+◌, ◌*◌, ◌/◌, ◌%◌, ◌≤◌, ◌<◌, min, max, ◌≡◌, refl, ap, arith}

module _ (rest : ℕ → ℕ) (digit : ℕ → ℕ → ℕ) where
  -- Any count of digits that covers the first number gives the same result.
  count_irrelevant :
      (c d x y : ℕ) → x ≤ c → x ≤ d → digits rest digit c x y ≡ digits rest digit d x y
  count_irrelevant zero zero zero y hc hd = refl
  count_irrelevant zero (suc d) zero y hc hd = refl
  count_irrelevant (suc c) zero zero y hc hd = refl
  count_irrelevant (suc c) (suc d) zero y hc hd = refl
  count_irrelevant (suc c) (suc d) (suc x) y hc hd =
      ap (λ (t : ℕ). t * 2 + digit (suc x % 2) (y % 2))
        (count_irrelevant c d (suc x / 2) (y / 2) (omega arith) (omega arith))
  count_irrelevant _ _ (suc x) y hc hd = absurd (omega arith)

  lowest_digit :
      (x y : ℕ)
      → bitwise rest digit (suc x) y
        ≡ bitwise rest digit (suc x / 2) (y / 2) * 2 + digit (suc x % 2) (y % 2)
  lowest_digit x y =
      ap (λ (t : ℕ). t * 2 + digit (suc x % 2) (y % 2))
        (count_irrelevant x (suc x / 2) (suc x / 2) (y / 2) (omega arith) (omega arith))

pub and_digit : (x y : ℕ) → bit_and x y ≡ bit_and (x / 2) (y / 2) * 2 + min (x % 2) (y % 2)
and_digit zero y = simp bit_and-bitwise (omega arith)
and_digit (suc x) y = simp bit_and-bitwise (lowest_digit (λ b. zero) min x y)

pub or_digit : (x y : ℕ) → bit_or x y ≡ bit_or (x / 2) (y / 2) * 2 + max (x % 2) (y % 2)
or_digit zero y = simp bit_or-bitwise (omega arith)
or_digit (suc x) y = simp bit_or-bitwise (lowest_digit (λ b. b) max x y)

differ_digit : (x y : ℕ) → x < 2 → y < 2 → differ x y ≡ (x + y) % 2
differ_digit zero y hx hy = omega arith
differ_digit (suc zero) zero hx hy = omega arith
differ_digit (suc zero) (suc zero) hx hy = omega arith
differ_digit (suc zero) (suc (suc y)) hx hy = absurd (omega arith)
differ_digit (suc (suc x)) y hx hy = absurd (omega arith)

pub xor_digit : (x y : ℕ) → bit_xor x y ≡ bit_xor (x / 2) (y / 2) * 2 + (x % 2 + y % 2) % 2
xor_digit zero y = simp bit_xor-bitwise (omega arith)
xor_digit (suc x) y = simp bit_xor-bitwise (
    omega (
      arith,
      lowest_digit (λ b. b) differ x y,
      differ_digit (suc x % 2) (y % 2) (omega arith) (omega arith),
    ))

and-le_upto : (k x y : ℕ) → x ≤ k → bit_and x y ≤ x
and-le_upto k zero y h = simp bit_and-bitwise (omega arith)
and-le_upto zero (suc x) y h = absurd (omega arith)
and-le_upto (suc k) (suc x) y h =
    omega (arith, and_digit (suc x) y, and-le_upto k (suc x / 2) (y / 2) (omega arith))

pub and-le : (x y : ℕ) → bit_and x y ≤ x
and-le x y = and-le_upto x x y (omega arith)
