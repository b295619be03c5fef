-- ===== src/Firrtl/Range.antt =====
-- Values that a width and a sign can hold.
use gsim.Prelude.{
  ℕ, ◌*◌, ◌^◌, ◌<◌, ◌≤◌, Bool, true, false, ◌≡◌, refl, sym, arith, ltb, if◌then◌else◌,
}
use gsim.Prelude.Int.{ℤ, pos, negsuc, pos_part, neg_part, sub_ℕ}
use gsim.Prelude.Residue.{modp, wrap, modp-wrap, wrap_cong, modp_lt, two_pow_pos}

-- A value that wrapping leaves alone.
abbrev pub InRange : ℕ → Bool → ℤ → Type 0
InRange w s z = wrap w s z ≡ z

pub wrap-InRange : (w : ℕ) (s : Bool) (z : ℤ) → InRange w s (wrap w s z)
wrap-InRange w s z = wrap_cong w s (wrap w s z) z (modp-wrap w s z)

-- An unsigned value is its residue.
pub unsigned_range :
    (w : ℕ) (z : ℤ) → InRange w false z → (z ≡ pos (modp z (2 ^ w))) × (modp z (2 ^ w) < 2 ^ w)
unsigned_range w z h = (sym h, modp_lt z (2 ^ w) (two_pow_pos w))

-- A signed value lies between -2^(w-1) and 2^(w-1) - 1.
pub signed_range :
    (w : ℕ) (z : ℤ) → InRange w true z → (2 * neg_part z ≤ 2 ^ w) × (2 * pos_part z < 2 ^ w)
signed_range w z h = rw (← h) (bounds (modp z (2 ^ w)) (2 ^ w) (modp_lt z (2 ^ w) (two_pow_pos w)))
  where
    bounds :
        (r m : ℕ)
        → r < m
        → (2 * neg_part (if ltb (2 * r) m then pos r else sub_ℕ r m) ≤ m)
          × (2 * pos_part (if ltb (2 * r) m then pos r else sub_ℕ r m) < m)
    bounds r m b = ground arith

-- A value of w bits is below 2^w.
pub range_upper : (w : ℕ) (s : Bool) (z : ℤ) → InRange w s z → pos_part z < 2 ^ w
range_upper w false z h = rw (unsigned_range w z h).0 (omega (arith, (unsigned_range w z h).1))
range_upper w true z h = omega (arith, signed_range w z h)

-- An unsigned value is not negative.
pub range_unsigned : (w : ℕ) (s : Bool) (z : ℤ) → s ≡ false → InRange w s z → neg_part z ≡ 0
range_unsigned w false z e h = rw (unsigned_range w z h).0
range_unsigned w true z e h = cc

-- The magnitude of a negative value of w bits.
pub range_lower : (w n : ℕ) (s : Bool) → InRange w s (negsuc n) → 2 * n < 2 ^ w
range_lower w n false h = absurd (omega (arith, range_unsigned w false (negsuc n) refl h))
range_lower w n true h = omega (arith, signed_range w (negsuc n) h)
