-- ===== src/Util/Mask.antt =====
-- src/util.cpp: bitMask, the C++ expression of a mask of width bits.
use native.Mathlib.Nat.{pow-suc}
use gsim.Prelude.{
  ℕ, zero, suc, ◌+◌, ◌-◌, ◌*◌, ◌/◌, ◌%◌, ◌^◌, ◌<◌, ◌≤◌, true, false, List, [], ◌∷◌, ◌++◌, Option,
  none, some, get_or, leb, ◌==◌, ◌≡◌, refl, ap, ◌∙◌, arith, if◌then◌else◌,
}
use gsim.Prelude.Residue.{two_pow_add}
use gsim.Gmp.{digits_value, digit_value}

-- A hexadecimal literal, behind its 0x, or an expression over a wider type: 0 - 1 or (1 << width) - 1.
pub data MaskText : Type 0 where
  literal : List ℕ → MaskText
  all_ones : MaskText
  shifted : ℕ → MaskText

-- `std::string(n, 'f')`.
unfoldable pub all_f : ℕ → List ℕ
all_f zero = []
all_f (suc n) = b'f' ∷ all_f n

-- headTable.
abbrev mask_head : ℕ → List ℕ
mask_head n = get_or ([] ∷ (b'1' ∷ []) ∷ (b'3' ∷ []) ∷ (b'7' ∷ []) ∷ []) n []

-- A width of 0 fails the assertion.
unfoldable pub bit_mask : ℕ → Option MaskText
bit_mask width =
    if width == 0
    then none
    else if leb width 64
    then some (literal (mask_head (width % 4) ++ all_f (width / 4)))
    else if width % 64 == 0
    then some all_ones
    else some (shifted width)

next_power : (n a : ℕ) → (a * 16 + 15 + 1) * 16 ^ n ≡ (a + 1) * 16 ^ suc n
next_power n a = omega (arith, ap (λ (t : ℕ). (a + 1) * t) (pow-suc 16 n))

all_f-value : (n a : ℕ) → digits_value 16 a (all_f n) ≡ some ((a + 1) * 16 ^ n - 1)
unfolding all_f digits_value digit_value
all_f-value zero a = ap some (omega arith)
all_f-value (suc n) a = all_f-value n (a * 16 + 15) ∙ ap (λ (t : ℕ). some (t - 1)) (next_power n a)

sixteen_pow : (n : ℕ) → 16 ^ n ≡ 2 ^ (4 * n)
sixteen_pow zero = refl
sixteen_pow (suc n) =
    omega (
      arith,
      pow-suc 16 n,
      sixteen_pow n,
      two_pow_add 4 (4 * n),
      ap (λ (t : ℕ). 2 ^ t) (four_suc n),
    )
  where
    four_suc : (k : ℕ) → 4 * suc k ≡ 4 + 4 * k
    four_suc k = omega arith

-- The head and the full digits, for a rest r of the division by 4.
head-value :
    (r q : ℕ) → r < 4 → digits_value 16 0 (mask_head r ++ all_f q) ≡ some (2 ^ r * 16 ^ q - 1)
unfolding digits_value digit_value
head-value zero q h = all_f-value q 0 ∙ ap some (omega arith)
head-value (suc zero) q h = all_f-value q 1 ∙ ap some (omega arith)
head-value (suc (suc zero)) q h = all_f-value q 3 ∙ ap some (omega arith)
head-value (suc (suc (suc zero))) q h = all_f-value q 7 ∙ ap some (omega arith)
head-value (suc (suc (suc (suc r)))) q h = absurd (omega (arith, h))

mask_value : (w : ℕ) → 2 ^ (w % 4) * 16 ^ (w / 4) ≡ 2 ^ w
mask_value w = omega (
  arith,
  ap (λ (t : ℕ). 2 ^ (w % 4) * t) (sixteen_pow (w / 4)),
  two_pow_add (w % 4) (4 * (w / 4)),
  ap (λ (t : ℕ). 2 ^ t) (parts w),
)
  where
    parts : (x : ℕ) → x % 4 + 4 * (x / 4) ≡ x
    parts x = omega arith

-- For a width from 1 to 64, bitMask gives a hexadecimal literal whose digits denote 2^width - 1.
pub bit_mask-value :
    (w : ℕ)
    → 0 < w
    → w ≤ 64
    → (t : List ℕ) × (bit_mask w ≡ some (literal t)) × (digits_value 16 0 t ≡ some (2 ^ w - 1))
unfolding bit_mask
bit_mask-value w p h = (
  mask_head (w % 4) ++ all_f (w / 4),
  rw (not_zero w p, below w h) refl,
  head-value (w % 4) (w / 4) (omega arith) ∙ ap (λ (t : ℕ). some (t - 1)) (mask_value w),
)
  where
    not_zero : (x : ℕ) → 0 < x → (x == 0) ≡ false
    not_zero x h = ground arith

    below : (x : ℕ) → x ≤ 64 → leb x 64 ≡ true
    below x h = ground arith
