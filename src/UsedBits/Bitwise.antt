-- ===== src/UsedBits/Bitwise.antt =====
-- The low bits of a bitwise result depend on no higher bit of the operands.
use gsim.Prelude.{ℕ, zero, suc, ◌+◌, ◌*◌, ◌^◌, ◌≡◌, ap, ap₂, ◌∙◌, sym, arith}
use gsim.Prelude.Int.{ℤ}
use gsim.Prelude.Residue.{modp, half, odd}
use gsim.Gmp.Masks.{modp-suc, modp_one, odd_lt}

-- An operation on bits is one on the lowest bits and on the halves.
module _ (op : ℤ → ℤ → ℤ) (f : ℕ → ℕ → ℕ)
    (op_half : (a b : ℤ) → half (op a b) ≡ op (half a) (half b))
    (op_odd : (a b : ℤ) → odd (op a b) ≡ f (odd a) (odd b)) where
  pub bitwise_cong :
      (n : ℕ) (a b c d : ℤ)
      → modp a (2 ^ n) ≡ modp c (2 ^ n)
      → modp b (2 ^ n) ≡ modp d (2 ^ n)
      → modp (op a b) (2 ^ n) ≡ modp (op c d) (2 ^ n)
  bitwise_cong zero a b c d h k = modp_one (op a b) ∙ sym (modp_one (op c d))
  bitwise_cong (suc n) a b c d h k =
      let ih =
        bitwise_cong n (half a) (half b) (half c) (half d)
          (omega (arith, h, modp-suc a n, modp-suc c n, odd_lt a, odd_lt c))
          (omega (arith, k, modp-suc b n, modp-suc d n, odd_lt b, odd_lt d)) in
      modp-suc (op a b) n
      ∙ ap₂ (λ (x y : ℕ). 2 * x + y)
          (ap (λ z. modp z (2 ^ n)) (op_half a b)
            ∙ ih
            ∙ sym (ap (λ z. modp z (2 ^ n)) (op_half c d)))
          (op_odd a b
            ∙ ap₂ f (omega (arith, h, modp-suc a n, modp-suc c n, odd_lt a, odd_lt c))
                (omega (arith, k, modp-suc b n, modp-suc d n, odd_lt b, odd_lt d))
            ∙ sym (op_odd c d))
      ∙ sym (modp-suc (op c d) n)
