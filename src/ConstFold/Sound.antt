-- ===== src/ConstFold/Sound.antt =====
-- When an entry of consEMap agrees with the run-time value of its enode, and the entries that the
-- folding functions build from a computed constant, from 0, or from nothing.
pub mod Arith
pub mod Logic
pub mod Parts
pub mod Propagate
pub mod Runs
pub mod Shortcut
pub mod Expr
pub mod Unary
pub mod Values
use native.Mathlib.Nat.{le_refl}
use gsim.Prelude.{
  ℕ, ◌^◌, ◌≤◌, ◌<◌, Bool, true, false, ◌≡◌, refl, ap, ◌∙◌, sym, arith, List, Option, [], ◌∷◌, ◌⊎◌,
  inl, inr, Bool-cases, ◌&&◌, if◌then◌else◌,
}
use gsim.Prelude.Int.{ℤ, pos}
use gsim.Prelude.Residue.{modp, wrap, wrap_cong}
use gsim.Firrtl.Range.{InRange, wrap-InRange}
use gsim.Gmp.{Gmp, digits_value, digit_value}
use gsim.ValInfo.{ValInfo, new_val_info, is_constant, update_cons_val, set_constant_by_str}
use gsim.ValInfo.Wrap.{Fits, update_cons_val_lem}
use gsim.ConstFold.{Operand, known, computed, zero_constant}

-- A known constant is the value, the value fits the enode, and the entry has the enode's width.
pub record Holds (w : ℕ) (s : Bool) (info : ValInfo) (v : ℤ) : Type 0 where
  pub denotes : is_constant info ≡ true → info.cons_val ≡ v
  pub range : InRange w s v
  pub full : info.width ≡ w

abbrev pub OperandHolds : Operand → ℤ → Type 0
OperandHolds a v = Holds a.width a.sign a.info v

pub fresh-Holds : (w : ℕ) (s : Bool) (v : ℤ) → InRange w s v → Holds w s (new_val_info w s) v
unfolding new_val_info
fresh-Holds w s v h = record { denotes = λ e. cc; range = h; full = refl }

module _ (g : Gmp) where
  pub computed_val : (w : ℕ) (s : Bool) (z : ℤ) → Fits w → (computed g w s z).cons_val ≡ wrap w s z
  unfolding computed
  computed_val w s z h = update_cons_val_lem g (record (new_val_info w s) { cons_val = z }) h

  computed_width : (w : ℕ) (s : Bool) (z : ℤ) → (computed g w s z).width ≡ w
  unfolding computed
  computed_width w s z = refl

  pub computed-Holds :
      (w : ℕ) (s : Bool) (z y : ℤ)
      → Fits w
      → modp z (2 ^ w) ≡ modp y (2 ^ w)
      → Holds w s (computed g w s z) (wrap w s y)
  computed-Holds w s z y h e = record {
    denotes = λ _. computed_val w s z h ∙ wrap_cong w s z y e;
    range = wrap-InRange w s y;
    full = computed_width w s z;
  }

  zero_digit : digits_value 16 0 (b'0' ∷ []) ≡ Option.some 0
  unfolding digits_value digit_value
  zero_digit = refl

  zero_constant-computed : (w : ℕ) (s : Bool) → zero_constant g w s ≡ computed g w s (pos 0)
  unfolding zero_constant computed
  zero_constant-computed w s =
      ap (λ z. update_cons_val g (record (new_val_info w s) { cons_val = z }))
        (g.set_str_law (pos 0) b'0' [] 16 0 (omega arith) (omega arith) zero_digit)

  pub zero-Holds :
      (w : ℕ) (s : Bool) (y : ℤ)
      → Fits w
      → modp (pos 0) (2 ^ w) ≡ modp y (2 ^ w)
      → Holds w s (zero_constant g w s) (wrap w s y)
  zero-Holds w s y h e = rw (zero_constant-computed w s) (computed-Holds w s (pos 0) y h e)
