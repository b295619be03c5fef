-- ===== src/Prelude/Counting.antt =====
-- How many of the first numbers pass a test.
use Prim.Native.Nat.{ℕ, zero, suc, ◌+◌, ◌≤◌, ◌<◌}
use mathlib.Core.Path.{◌≡◌, refl, ap, ap₂, sym, ◌∙◌}
use mathlib.Core.Logic.{◌≢◌, inl, inr}
use mathlib.Core.Bool.{Bool, true, false}
use native.Mathlib.Omega.{arith}
use gsim.Prelude.Lists.{bit}
use gsim.Prelude.Tests.{◌==◌, ==_iff, Bool-cases}

unfoldable pub count_below : (ℕ → Bool) → ℕ → ℕ
count_below p zero = 0
count_below p (suc n) = bit (p n) + count_below p n

pub count_below-zero : (p : ℕ → Bool) → count_below p 0 ≡ 0
unfolding count_below
count_below-zero p = refl

pub count_below-suc : (p : ℕ → Bool) (n : ℕ) → count_below p (suc n) ≡ bit (p n) + count_below p n
unfolding count_below
count_below-suc p n = refl

pub count_below_ext :
    (p q : ℕ → Bool) (n : ℕ) → ((i : ℕ) → i < n → p i ≡ q i) → count_below p n ≡ count_below q n
unfolding count_below
count_below_ext p q zero h = refl
count_below_ext p q (suc n) h =
    ap₂ (λ b c. bit b + c) (h n (omega arith))
      (count_below_ext p q n (λ i l. h i (omega (arith, l))))

-- One more index passes.
pub count_below_one :
    (p q : ℕ → Bool) (i n : ℕ)
    → i < n
    → p i ≡ true
    → q i ≡ false
    → ((j : ℕ) → j ≢ i → p j ≡ q j)
    → count_below p n ≡ 1 + count_below q n
unfolding count_below
count_below_one p q i zero l hp hq h = absurd (omega (arith, l))
count_below_one p q i (suc n) l hp hq h = elim (Bool-cases (i == n)) [
  | inl t ↦ ground (
    arith,
    ==_iff i n,
    hp,
    hq,
    count_below_ext p q n (λ j l2. h j (omega (arith, l2, (==_iff i n).0 t))),
  )
  | inr t ↦ ground (
    arith,
    ==_iff i n,
    count_below_one p q i n (ground (arith, ==_iff i n)) hp hq h,
    h n (λ e. ground (arith, e, ==_iff i n)),
  )
]

pub count_below_pos :
    (p : ℕ → Bool) (n : ℕ) → count_below p n ≢ 0 → (i : ℕ) × (i < n) × (p i ≡ true)
unfolding count_below
count_below_pos p zero h = absurd (h refl)
count_below_pos p (suc n) h = elim (Bool-cases (p n)) [
  | inl t ↦ (n, omega arith, t)
  | inr f ↦
      let (i, l, t) = count_below_pos p n (λ e. h (ground (arith, e, f))) in
      (i, omega (arith, l), t)
]

pub count_below_le : (p : ℕ → Bool) (n : ℕ) → count_below p n ≤ n
unfolding count_below
count_below_le p zero = omega arith
count_below_le p (suc n) = ground (arith, count_below_le p n)

pub count_below_full : (p : ℕ → Bool) (n : ℕ) → n ≤ count_below p n → (i : ℕ) → i < n → p i ≡ true
unfolding count_below
count_below_full p zero h i l = absurd (omega (arith, l))
count_below_full p (suc n) h i l = elim (Bool-cases (p n)) [
  | inl t ↦ elim (Bool-cases (i == n)) [
    | inl e ↦ rw ((==_iff i n).0 e) t
    | inr e ↦ count_below_full p n (ground (arith, h, t)) i (ground (arith, ==_iff i n))
  ]
  | inr f ↦ absurd (ground (arith, h, f, count_below_le p n))
]

pub count_below_some : (p : ℕ → Bool) (i n : ℕ) → i < n → p i ≡ true → count_below p n ≢ 0
unfolding count_below
count_below_some p i zero l h e = omega (arith, l)
count_below_some p i (suc n) l h e = elim (Bool-cases (i == n)) [
  | inl t ↦ ground (arith, e, sym (ap p ((==_iff i n).0 t)) ∙ h)
  | inr t ↦ count_below_some p i n (ground (arith, ==_iff i n)) h (omega (arith, e))
]

pub count_below_miss :
    (p : ℕ → Bool) (n : ℕ) → count_below p n < n → (i : ℕ) × (i < n) × (p i ≡ false)
unfolding count_below
count_below_miss p zero h = absurd (omega (arith, h))
count_below_miss p (suc n) h = elim (Bool-cases (p n)) [
  | inl t ↦ let (i, l, f) = count_below_miss p n (ground (arith, h, t)) in (i, omega (arith, l), f)
  | inr f ↦ (n, omega arith, f)
]

pub count_below_mono :
    (p q : ℕ → Bool) (n : ℕ)
    → ((j : ℕ) → p j ≡ true → q j ≡ true)
    → count_below p n ≤ count_below q n
unfolding count_below
count_below_mono p q zero h = omega arith
count_below_mono p q (suc n) h = ground (arith, h n, count_below_mono p q n h)

pub count_below_lt :
    (p q : ℕ → Bool) (i n : ℕ)
    → i < n
    → p i ≡ false
    → q i ≡ true
    → ((j : ℕ) → p j ≡ true → q j ≡ true)
    → count_below p n < count_below q n
unfolding count_below
count_below_lt p q i zero l hp hq h = absurd (omega (arith, l))
count_below_lt p q i (suc n) l hp hq h = elim (Bool-cases (i == n)) [
  | inl t ↦
      let e = (==_iff i n).0 t in
      ground (arith, sym (ap p e) ∙ hp, sym (ap q e) ∙ hq, count_below_mono p q n h)
  | inr t ↦ ground (arith, h n, count_below_lt p q i n (ground (arith, ==_iff i n)) hp hq h)
]

pub count_below_none : (n : ℕ) → count_below (λ i. false) n ≡ 0
unfolding count_below
count_below_none zero = refl
count_below_none (suc n) = omega (arith, count_below_none n)
