-- ===== src/Gmp/Fields.antt =====
-- The conjunction with a shifted mask.
use native.Mathlib.Nat.{div-div-eq-div-mul}
use gsim.Prelude.{ℕ, zero, suc, ◌-◌, ◌*◌, ◌/◌, ◌%◌, ◌^◌, ◌≡◌, ap, sym, ◌∙◌, arith}
use gsim.Prelude.Int.{pos}
use gsim.Prelude.Residue.{half-odd_eq, two_pow_suc}
use gsim.Gmp.{Gmp}
use gsim.Gmp.Masks.{and_mask}

module _ (g : Gmp) where
  whole : (p : ℕ) → p ≡ p / 2 ^ 0
  whole p = omega arith

  once : (x : ℕ) → x ≡ x * 2 ^ 0
  once x = omega arith

  double_half : (x l : ℕ) → x * 2 ^ suc l / 2 ≡ x * 2 ^ l
  double_half x l = omega (arith, ap (λ (t : ℕ). x * t) (two_pow_suc l))

  double_odd : (x l : ℕ) → x * 2 ^ suc l % 2 ≡ 0
  double_odd x l = omega (arith, ap (λ (t : ℕ). x * t) (two_pow_suc l))

  shorter : (p l : ℕ) → p / 2 / 2 ^ l ≡ p / 2 ^ suc l
  shorter p l = div-div-eq-div-mul p 2 (2 ^ l) ∙ ap (λ (t : ℕ). p / t) (sym (two_pow_suc l))

  pub and_field :
      (l n p : ℕ) → g.mpz_and (pos p) (pos ((2 ^ n - 1) * 2 ^ l)) ≡ pos (p / 2 ^ l % 2 ^ n * 2 ^ l)
  and_field zero n p =
      ap (λ (t : ℕ). g.mpz_and (pos p) (pos t)) (omega arith)
      ∙ and_mask g n (pos p)
      ∙ ap (λ (t : ℕ). pos (t % 2 ^ n)) (whole p)
      ∙ ap pos (once (p / 2 ^ 0 % 2 ^ n))
  and_field (suc l) n p =
      half-odd_eq _ _
        (g.and_half (pos p) (pos ((2 ^ n - 1) * 2 ^ suc l))
          ∙ ap (λ (t : ℕ). g.mpz_and (pos (p / 2)) (pos t)) (double_half (2 ^ n - 1) l)
          ∙ and_field l n (p / 2)
          ∙ ap (λ (t : ℕ). pos (t % 2 ^ n * 2 ^ l)) (shorter p l)
          ∙ ap pos (sym (double_half (p / 2 ^ suc l % 2 ^ n) l)))
        (omega (
          arith,
          g.and_odd (pos p) (pos ((2 ^ n - 1) * 2 ^ suc l)),
          double_odd (2 ^ n - 1) l,
          double_odd (p / 2 ^ suc l % 2 ^ n) l,
        ))
