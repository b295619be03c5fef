-- ===== src/Prelude/Residue.antt =====
-- Integers modulo a power of two: the bit pattern of a value, and the value of a bit pattern.
use native.Mathlib.Nat.{
  add-zero, pow-le-pow_right, pow-suc, one-le-pow, mul-add-mod_self_left, mod-eq_of_lt, div-add-mod,
  mod-lt,
}
use Prim.Native.Nat.{ℕ, zero, suc, ◌+◌, ◌-◌, ◌*◌, ◌/◌, ◌%◌, ◌^◌, ◌≤◌, ◌<◌}
use mathlib.Core.Path.{◌≡◌, sym, ap, ◌∙◌}
use mathlib.Core.Bool.{Bool, true, false}
use native.Mathlib.Decide.{dec_lt}
use native.Mathlib.Omega.{arith}
use gsim.Prelude.Tests.{ltb, if◌then◌else◌}
use gsim.Prelude.Int.{ℤ, pos, negsuc, ◌+ℤ◌, pos_part, neg_part, sub_ℕ, int_laws}

-- z mod m in 0 .. m - 1, for 0 < m.
abbrev pub modp : ℤ → ℕ → ℕ
modp (pos n) m = n % m
modp (negsuc n) m = m - 1 - n % m

-- The quotient rounded towards minus infinity.
abbrev pub floor_div : ℤ → ℕ → ℤ
floor_div (pos n) m = pos (n / m)
floor_div (negsuc n) m = negsuc (n / m)

-- Half and parity: a value without its lowest bit, and that bit in two's complement.
abbrev pub half : ℤ → ℤ
half (pos n) = pos (n / 2)
half (negsuc n) = negsuc (n / 2)

abbrev pub odd : ℤ → ℕ
odd (pos n) = n % 2
odd (negsuc n) = 1 - n % 2

-- The value of the low w bits of z, read as signed or not.
abbrev pub wrap : ℕ → Bool → ℤ → ℤ
wrap w false z = pos (modp z (2 ^ w))
wrap w true z =
    if ltb (2 * modp z (2 ^ w)) (2 ^ w)
    then pos (modp z (2 ^ w))
    else sub_ℕ (modp z (2 ^ w)) (2 ^ w)

pub two_pow_pos : (n : ℕ) → 0 < 2 ^ n
two_pow_pos n = one-le-pow n 2 (omega arith)

pub two_pow_suc : (n : ℕ) → 2 ^ suc n ≡ 2 * 2 ^ n
two_pow_suc n = omega (arith, pow-suc 2 n)

pub two_pow_add : (a b : ℕ) → 2 ^ (a + b) ≡ 2 ^ a * 2 ^ b
two_pow_add a zero = rw add-zero (omega arith)
two_pow_add a (suc b) =
    ap (λ (t : ℕ). 2 ^ t) (shift a b)
    ∙ two_pow_suc (a + b)
    ∙ omega (arith, two_pow_add a b, ap (λ (t : ℕ). 2 ^ a * t) (two_pow_suc b))
  where
    shift : (x y : ℕ) → x + suc y ≡ suc (x + y)
    shift x y = omega arith

-- A larger power is a multiple of a smaller one.
pub two_pow_split : (w k : ℕ) → w ≤ k → 2 ^ k ≡ 2 ^ w * 2 ^ (k - w)
two_pow_split w k h = ap (λ (t : ℕ). 2 ^ t) (whole w k h) ∙ two_pow_add w (k - w)
  where
    whole : (x y : ℕ) → x ≤ y → y ≡ x + (y - x)
    whole x y h = omega arith

pub two_pow_le : (w k : ℕ) → w ≤ k → 2 ^ w ≤ 2 ^ k
two_pow_le w k h = pow-le-pow_right (omega arith) h

pub modp_lt : (z : ℤ) (m : ℕ) → 0 < m → modp z m < m
modp_lt (pos n) m h = omega arith
modp_lt (negsuc n) m h = omega arith

-- n = m * q + r determines the remainder.
mod_unique : (n m q r : ℕ) → r < m → n ≡ m * q + r → n % m ≡ r
mod_unique n m q r h e = rw e (mul-add-mod_self_left m q r ∙ mod-eq_of_lt h)

quot_split : (n m : ℕ) → n ≡ m * (n / m) + n % m
quot_split n m = sym (div-add-mod n m)

mul_gap : (m l k : ℕ) → l < k → m * l + m ≤ m * k
mul_gap m l k h = grind arith

mul_diff : (m k l : ℕ) → k ≤ l → m * l ≡ m * k + m * (l - k)
mul_diff m k l h = omega (arith, ap (λ (t : ℕ). m * t) (diff k l h))
  where
    diff : (a b : ℕ) → a ≤ b → b ≡ a + (b - a)
    diff a b g = omega arith

-- z is a multiple of m and its residue.
pub modp_split :
    (z : ℤ) (m : ℕ)
    → 0 < m
    → pos_part z + m * neg_part (floor_div z m)
      ≡ neg_part z + m * pos_part (floor_div z m) + modp z m
modp_split (pos n) m h = omega (arith, quot_split n m)
modp_split (negsuc n) m h = omega (arith, quot_split n m, mod-lt n h)

quot_le : (m k l r : ℕ) → m * k ≤ m * l + r → r < m → k ≤ l
quot_le m k l r h b = elim (dec_lt l k) [
  | yes lt ↦ absurd (omega (arith, h, mul_gap m l k lt))
  | no ge ↦ omega arith
]

quot_lt : (m k l : ℕ) → m * l < m * k → l < k
quot_lt m k l h = grind arith

pub modp_unique :
    (z : ℤ) (m r k l : ℕ) → r < m → pos_part z + m * k ≡ neg_part z + m * l + r → modp z m ≡ r
modp_unique (pos n) m r k l h e =
    mod_unique n m (l - k) r h (omega (arith, mul_diff m k l (quot_le m k l r (omega arith) h)))
modp_unique (negsuc n) m r k l h e = omega (
  arith,
  mod_unique n m (k - suc l) (m - 1 - r) (omega arith) (
      omega (
        arith,
        mul_diff m (suc l) k (
            quot_le m (suc l) k 0 (omega (arith, mul_gap m l k (quot_lt m k l (omega arith))))
              (omega arith)),
      )),
)

-- Values that differ by a multiple of m have the same residue.
pub modp_cong :
    (a b : ℤ) (m k l : ℕ)
    → 0 < m
    → pos_part a + neg_part b + m * k ≡ pos_part b + neg_part a + m * l
    → modp a m ≡ modp b m
modp_cong a b m k l h e =
    modp_unique a m (modp b m) (k + neg_part (floor_div b m)) (l + pos_part (floor_div b m))
      (modp_lt b m h) (omega (arith, modp_split b m h))

pub modp_step : (z : ℤ) (m : ℕ) → 0 < m → modp z (2 * m) ≡ 2 * modp (half z) m + odd z
modp_step (pos n) m h =
    modp_unique (pos n) (2 * m) (2 * (n / 2 % m) + n % 2) 0 (n / 2 / m)
      (omega (arith, mod-lt (n / 2) h)) (omega (arith, quot_split (n / 2) m))
modp_step (negsuc n) m h =
    modp_unique (negsuc n) (2 * m) (2 * (m - 1 - n / 2 % m) + (1 - n % 2)) (suc (n / 2 / m)) 0
      (omega (arith, mod-lt (n / 2) h)) (omega (arith, quot_split (n / 2) m, mod-lt (n / 2) h))

pub half-odd_eq : (a b : ℤ) → half a ≡ half b → odd a ≡ odd b → a ≡ b
half-odd_eq a b h k = ground arith

pub modp_add : (a b : ℤ) (m : ℕ) → 0 < m → modp (a +ℤ b) m ≡ (modp a m + modp b m) % m
modp_add a b m h =
    modp_cong (a +ℤ b) (pos (modp a m + modp b m)) m
      (neg_part (floor_div a m) + neg_part (floor_div b m))
      (pos_part (floor_div a m) + pos_part (floor_div b m)) h
      (omega (int_laws, modp_split a m h, modp_split b m h))

-- A value in 0 .. m - 1 is its own residue.
pub modp_small : (n m : ℕ) → n < m → modp (pos n) m ≡ n
modp_small n m h = mod-eq_of_lt h

wrap_bound : (w r : ℕ) → r < 2 ^ w → 2 ^ w ≤ 2 * r → sub_ℕ r (2 ^ w) ≡ negsuc (2 ^ w - r - 1)
wrap_bound w r h k = ground arith

-- Wrapping keeps the bit pattern.
pub modp-wrap : (w : ℕ) (s : Bool) (z : ℤ) → modp (wrap w s z) (2 ^ w) ≡ modp z (2 ^ w)
modp-wrap w false z = modp_small (modp z (2 ^ w)) (2 ^ w) (modp_lt z (2 ^ w) (two_pow_pos w))
modp-wrap w true z = ground (
  arith,
  modp_small (modp z (2 ^ w)) (2 ^ w),
  modp_lt z (2 ^ w) (two_pow_pos w),
  modp_cong (sub_ℕ (modp z (2 ^ w)) (2 ^ w)) (pos (modp z (2 ^ w))) (2 ^ w) 1 0,
)

-- A value depends only on its bit pattern.
pub wrap_cong :
    (w : ℕ) (s : Bool) (a b : ℤ) → modp a (2 ^ w) ≡ modp b (2 ^ w) → wrap w s a ≡ wrap w s b
wrap_cong w false a b h = ap pos h
wrap_cong w true a b h = rw h
