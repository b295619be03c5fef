-- ===== src/Firrtl/Bounds.antt =====
-- A width and a sign as bounds, and the bounds of sums, products and quotients.
use native.Mathlib.Nat.{mod-eq_of_lt, mul-le-mul}
use gsim.Prelude.{ℕ, zero, suc, ◌+◌, ◌*◌, ◌^◌, ◌<◌, ◌≤◌, Bool, true, false, ◌≡◌, refl, ap, arith}
use gsim.Prelude.Int.{ℤ, pos, negsuc, pos_part, neg_part, sub_ℕ, ◌*ℤ◌}
use gsim.Prelude.Residue.{two_pow_pos, two_pow_add}
use gsim.Firrtl.Range.{InRange, signed_range, range_upper, range_unsigned}

-- The integers that w bits hold.
abbrev pub Within : ℕ → Bool → ℤ → Type 0
Within w false z = (neg_part z ≡ 0) × (pos_part z < 2 ^ w)
Within w true z = (2 * neg_part z ≤ 2 ^ w) × (2 * pos_part z < 2 ^ w)

small : (n m : ℕ) → 2 * n < m → n < m
small n m h = omega arith

small_negative : (n m : ℕ) → 2 * suc n ≤ m → n < m
small_negative n m h = omega arith

pub Within-InRange : (w : ℕ) (s : Bool) (z : ℤ) → Within w s z → InRange w s z
Within-InRange w false (pos n) h = ap pos (mod-eq_of_lt h.1)
Within-InRange w false (negsuc n) h = absurd (omega (arith, h.0))
Within-InRange w true (pos n) h = ground (arith, mod-eq_of_lt (small n (2 ^ w) h.1))
Within-InRange w true (negsuc n) h = ground (arith, mod-eq_of_lt (small_negative n (2 ^ w) h.0))

pub InRange-Within : (w : ℕ) (s : Bool) (z : ℤ) → InRange w s z → Within w s z
InRange-Within w false z h = (range_unsigned w false z refl h, range_upper w false z h)
InRange-Within w true z h = signed_range w z h

-- Products of bounded numbers.
product_le : (x y p q : ℕ) → 2 * x ≤ p → 2 * y ≤ q → 4 * (x * y) ≤ p * q
product_le x y p q h k = omega (arith, mul-le-mul h k)

product_lt : (x y p q : ℕ) → x < p → y < q → x * y < p * q
product_lt x y (suc p) (suc q) h k = omega (arith, mul-le-mul (le x p h) (le y q k))
  where
    le : (a b : ℕ) → a < suc b → a ≤ b
    le a b t = omega arith
product_lt x y zero q h k = absurd (omega (arith, h))
product_lt x y (suc p) zero h k = absurd (omega (arith, k))

sub_ℕ_le : (x y : ℕ) → (pos_part (sub_ℕ x y) ≤ x) × (neg_part (sub_ℕ x y) ≤ y)
sub_ℕ_le x y = ground arith

mul_le :
    (a b : ℤ)
    → (pos_part (a *ℤ b) ≤ pos_part a * pos_part b + neg_part a * neg_part b)
      × (neg_part (a *ℤ b) ≤ pos_part a * neg_part b + neg_part a * pos_part b)
unfolding ◌*ℤ◌
mul_le a b =
    sub_ℕ_le (pos_part a * pos_part b + neg_part a * neg_part b)
      (pos_part a * neg_part b + neg_part a * pos_part b)

-- 2z ≤ x*y with x and y at most half of p and q.
half_bound :
    (wa wb x y z : ℕ)
    → z ≤ x * y
    → 2 * x ≤ 2 ^ wa
    → 2 * y ≤ 2 ^ wb
    → (2 * z ≤ 2 ^ (wa + wb)) × (2 * z < 2 ^ (wa + wb))
half_bound wa wb x y z h p q =
    let le = product_le x y (2 ^ wa) (2 ^ wb) p q in
    (
      omega (arith, two_pow_add wa wb, le),
      omega (arith, two_pow_add wa wb, le, two_pow_pos (wa + wb)),
    )

pub mul-Within :
    (s : Bool) (wa wb : ℕ) (a b : ℤ) → Within wa s a → Within wb s b → Within (wa + wb) s (a *ℤ b)
mul-Within false wa wb (pos n) (pos m) h k =
    let le = mul_le (pos n) (pos m) in
    (
      omega (arith, le),
      omega (arith, le, two_pow_add wa wb, product_lt n m (2 ^ wa) (2 ^ wb) h.1 k.1),
    )
mul-Within false wa wb (negsuc n) b h k = absurd (omega (arith, h.0))
mul-Within false wa wb (pos n) (negsuc m) h k = absurd (omega (arith, k.0))
mul-Within true wa wb (pos n) (pos m) h k =
    let le = mul_le (pos n) (pos m) in
    let t =
      half_bound wa wb n m (pos_part (pos n *ℤ pos m)) (omega (arith, le)) (omega (arith, h))
        (omega (arith, k)) in
    (omega (arith, le), t.1)
mul-Within true wa wb (pos n) (negsuc m) h k =
    let le = mul_le (pos n) (negsuc m) in
    let t =
      half_bound wa wb n (suc m) (neg_part (pos n *ℤ negsuc m)) (omega (arith, le))
        (omega (arith, h)) (omega (arith, k)) in
    (t.0, omega (arith, le, two_pow_pos (wa + wb)))
mul-Within true wa wb (negsuc n) (pos m) h k =
    let le = mul_le (negsuc n) (pos m) in
    let t =
      half_bound wa wb (suc n) m (neg_part (negsuc n *ℤ pos m)) (omega (arith, le))
        (omega (arith, h)) (omega (arith, k)) in
    (t.0, omega (arith, le, two_pow_pos (wa + wb)))
mul-Within true wa wb (negsuc n) (negsuc m) h k =
    let le = mul_le (negsuc n) (negsuc m) in
    let t =
      half_bound wa wb (suc n) (suc m) (pos_part (negsuc n *ℤ negsuc m)) (omega (arith, le))
        (omega (arith, h)) (omega (arith, k)) in
    (omega (arith, le), t.1)
