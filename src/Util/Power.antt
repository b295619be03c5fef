-- ===== src/Util/Power.antt =====
-- Powers of two above a number.
use gsim.Prelude.{
  ℕ, zero, suc, ◌-◌, ◌*◌, ◌/◌, ◌^◌, ◌<◌, ◌≤◌, ◌≡◌, refl, false, sym, ap, arith, leb, ◌==◌, ==_iff,
  Bool-cases, inl, inr, if◌then◌else◌,
}
use mathlib.Core.Path.{subst}
use gsim.Prelude.Residue.{two_pow_suc}
use gsim.Util.{bit_length, upper_power2}

bit_length_zero : (n : ℕ) → bit_length n 0 ≡ 0
unfolding bit_length
bit_length_zero zero = refl
bit_length_zero (suc n) = refl

halves :
    (n x : ℕ)
    → (0 < x / 2 → 2 ^ bit_length n (x / 2) ≤ 2 * (x / 2))
    → 0 < x
    → 2 ^ suc (bit_length n (x / 2)) ≤ 2 * x
halves n x f p = elim (Bool-cases (x / 2 == 0)) [
  | inl e ↦ omega (
    arith,
    ap (λ (t : ℕ). 2 ^ suc (bit_length n t)) ((==_iff (x / 2) 0).0 e),
    ap (λ (t : ℕ). 2 ^ suc t) (bit_length_zero n),
  )
  | inr e ↦ omega (arith, f (nonzero (x / 2) e), two_pow_suc (bit_length n (x / 2)))
]
  where
    nonzero : (y : ℕ) → (y == 0) ≡ false → 0 < y
    nonzero zero e = cc
    nonzero (suc y) e = omega arith

-- The binary digits of a number that n of them can hold.
bit_length-bounds :
    (n x : ℕ) → x < 2 ^ n → (x < 2 ^ bit_length n x) × (0 < x → 2 ^ bit_length n x ≤ 2 * x)
unfolding bit_length
bit_length-bounds zero x h = (omega arith, λ p. absurd (omega arith))
bit_length-bounds (suc n) x h = elim (Bool-cases (x == 0)) [
  | inl e ↦ rw e (omega (arith, (==_iff x 0).0 e), λ p. absurd (omega (arith, (==_iff x 0).0 e)))
  | inr e ↦
      let ih = bit_length-bounds n (x / 2) (omega (arith, h, two_pow_suc n)) in
      rw e (omega (arith, ih.0, two_pow_suc (bit_length n (x / 2))), λ p. halves n x ih.1 p)
]

upper_power2_lem : (x : ℕ) → upper_power2 x ≡ (if leb x 1 then x else 2 ^ bit_length 32 (x - 1))
unfolding upper_power2
upper_power2_lem x = refl

-- For x above 0 and below 2^31, upperPower2 is at least x and less than 2 * x.
pub upper_power2-bounds :
    (x : ℕ) → 0 < x → x < 2 ^ 31 → (x ≤ upper_power2 x) × (upper_power2 x < 2 * x)
upper_power2-bounds x p h =
    subst (λ (t : ℕ). (x ≤ t) × (t < 2 * x)) (sym (upper_power2_lem x))
      (elim (Bool-cases (leb x 1)) [
        | inl e ↦ rw e (omega arith, omega (arith, p))
        | inr e ↦
            let b = bit_length-bounds 32 (x - 1) (omega (arith, h)) in
            rw e (omega (arith, b.0), omega (arith, b.1 (big x e)))
      ])
  where
    big : (y : ℕ) → leb y 1 ≡ false → 0 < y - 1
    big y e = ground arith
