-- ===== src/Util/Hex.antt =====
-- Hexadecimal text.
use gsim.Prelude.{
  Bool, true, false, ℕ, zero, suc, ◌/◌, ◌%◌, ◌^◌, ◌<◌, ◌≡◌, refl, ap, ◌∙◌, sym, arith, ◌==◌, ==_iff,
  Bool-cases, inl, inr, if◌then◌else◌, Option, some, List, [], ◌∷◌,
}
use native.Mathlib.Nat.{pow-suc}
use gsim.Gmp.{digits_value, digit_value}
use gsim.Util.{hex_digit, hex_loop, to_hex_string}

hex_digit-value : (r : ℕ) → r < 16 → digit_value 16 (hex_digit r) ≡ some r
unfolding digit_value
hex_digit-value r h = ground arith

-- A digit in front of the text, when the value so far is x / 16.
digit_step :
    (x : ℕ) (ret : List ℕ)
    → digits_value 16 (x / 16) (hex_digit (x % 16) ∷ ret) ≡ digits_value 16 x ret
unfolding digits_value
digit_step x ret =
    rw (hex_digit-value (x % 16) (omega arith), digits_value)
      (ap (λ (t : ℕ). digits_value 16 t ret) (omega arith))

hex_loop-value :
    (fuel x : ℕ) (ret : List ℕ)
    → x < 16 ^ fuel
    → digits_value 16 0 (hex_loop fuel x ret) ≡ digits_value 16 x ret
unfolding hex_loop
hex_loop-value zero x ret h = ap (λ (t : ℕ). digits_value 16 t ret) (omega arith)
hex_loop-value (suc fuel) x ret h = elim (Bool-cases (x == 0)) [
  | inl e ↦ rw e (ap (λ (t : ℕ). digits_value 16 t ret) (sym ((==_iff x 0).0 e)))
  | inr e ↦ rw e (
      hex_loop-value fuel (x / 16) (hex_digit (x % 16) ∷ ret) (omega (arith, h, pow-suc 16 fuel))
      ∙ digit_step x ret)
]

zero_text : digits_value 16 0 (b'0' ∷ []) ≡ Option.some 0
unfolding digits_value digit_value
zero_text = refl

digits_empty : (x : ℕ) → digits_value 16 x [] ≡ Option.some x
unfolding digits_value
digits_empty x = refl

to_hex_string_lem : (x : ℕ) → to_hex_string x ≡ (if x == 0 then b'0' ∷ [] else hex_loop 32 x [])
unfolding to_hex_string
to_hex_string_lem x = refl

-- The text that to_hex_string gives for a number below 2^128 denotes that number in base 16.
pub digits_value-to_hex_string :
    (x : ℕ) → x < 2 ^ 128 → digits_value 16 0 (to_hex_string x) ≡ some x
digits_value-to_hex_string x h = ap (digits_value 16 0) (to_hex_string_lem x) ∙ chosen (x == 0) refl
  where
    chosen :
        (t : Bool)
        → (x == 0) ≡ t
        → digits_value 16 0 (if t then b'0' ∷ [] else hex_loop 32 x []) ≡ some x
    chosen true e = zero_text ∙ ap some (sym ((==_iff x 0).0 e))
    chosen false e = hex_loop-value 32 x [] (omega (arith, h)) ∙ digits_empty x
