-- ===== src/Gmp/Agree.antt =====
-- The laws on the lowest bit fix the logical functions and the count of ones.
use gsim.Prelude.{
  ℕ, zero, suc, ◌+◌, ◌-◌, ◌/◌, ◌%◌, ◌^◌, ◌≤◌, ◌≡◌, ap, ap₂, ◌∙◌, sym, arith, min, max,
}
use gsim.Prelude.Int.{ℤ, pos, negsuc}
use gsim.Prelude.Residue.{half, odd, half-odd_eq, modp, two_pow_suc, two_pow_pos}
use gsim.Gmp.{Gmp}
use gsim.Gmp.Masks.{modp-suc, modp_one, odd_lt, half_ones, odd_ones}
use gsim.Gmp.Reference
use gsim.Gmp.Reference.{and_ℤ, ior_ℤ, xor_ℤ, popcount}

abbrev size : ℤ → ℕ
size (pos n) = n
size (negsuc n) = n

size-half : (a : ℤ) → size (half a) ≡ size a / 2
size-half (pos n) = omega arith
size-half (negsuc n) = omega arith

fixed_eq : (u v : ℤ) → half u ≡ u → half v ≡ v → odd u ≡ odd v → u ≡ v
fixed_eq u v p q h = ground arith

half_fixed : (a : ℤ) → size a ≤ 0 → half a ≡ a
half_fixed (pos n) h = ap pos (omega arith)
half_fixed (negsuc n) h = ap negsuc (omega arith)

module _ (op op' : ℤ → ℤ → ℤ) (digit : ℕ → ℕ → ℕ)
    (op_half : (a b : ℤ) → half (op a b) ≡ op (half a) (half b))
    (op_odd : (a b : ℤ) → odd (op a b) ≡ digit (odd a) (odd b))
    (op_half' : (a b : ℤ) → half (op' a b) ≡ op' (half a) (half b))
    (op_odd' : (a b : ℤ) → odd (op' a b) ≡ digit (odd a) (odd b)) where
  agree_upto : (k : ℕ) (a b : ℤ) → size a + size b ≤ k → op a b ≡ op' a b
  agree_upto zero a b h =
      let p = half_fixed a (omega arith) in
      let q = half_fixed b (omega arith) in
      fixed_eq _ _ (op_half a b ∙ ap₂ op p q) (op_half' a b ∙ ap₂ op' p q)
        (op_odd a b ∙ sym (op_odd' a b))
  agree_upto (suc k) a b h =
      half-odd_eq _ _
        (op_half a b
          ∙ agree_upto k (half a) (half b) (omega (arith, size-half a, size-half b))
          ∙ sym (op_half' a b))
        (op_odd a b ∙ sym (op_odd' a b))

module _ (g : Gmp) where
  pub and_agree : (a b : ℤ) → g.mpz_and a b ≡ and_ℤ a b
  and_agree a b =
      agree_upto g.mpz_and and_ℤ min g.and_half g.and_odd Reference.and_half Reference.and_odd
        (size a + size b) a b (omega arith)

  pub ior_agree : (a b : ℤ) → g.mpz_ior a b ≡ ior_ℤ a b
  ior_agree a b =
      agree_upto g.mpz_ior ior_ℤ max g.ior_half g.ior_odd Reference.ior_half Reference.ior_odd
        (size a + size b) a b (omega arith)

  pub xor_agree : (a b : ℤ) → g.mpz_xor a b ≡ xor_ℤ a b
  xor_agree a b =
      agree_upto g.mpz_xor xor_ℤ (λ x y. (x + y) % 2) g.xor_half g.xor_odd Reference.xor_half
        Reference.xor_odd (size a + size b) a b (omega arith)

  popcount_upto : (k n : ℕ) → n ≤ k → g.mpz_popcount (pos n) ≡ popcount (pos n)
  popcount_upto k zero h = g.popcount_zero ∙ sym Reference.popcount_zero
  popcount_upto zero (suc n) h = absurd (omega arith)
  popcount_upto (suc k) (suc n) h = omega (
    arith,
    g.popcount_step (suc n),
    Reference.popcount_step (suc n),
    popcount_upto k (suc n / 2) (omega arith),
  )

  pub popcount_agree : (n : ℕ) → g.mpz_popcount (pos n) ≡ popcount (pos n)
  popcount_agree n = popcount_upto n n (omega arith)

-- Ones joined with anything are ones, on either side.
module _ (op : ℤ → ℤ → ℤ) (op_half : (a b : ℤ) → half (op a b) ≡ op (half a) (half b))
    (op_odd : (a b : ℤ) → odd (op a b) ≡ max (odd a) (odd b)) where
  pub join_ones : (n : ℕ) (z : ℤ) → modp (op (pos (2 ^ n - 1)) z) (2 ^ n) + 1 ≡ 2 ^ n
  join_ones zero z = omega (arith, modp_one (op (pos (2 ^ 0 - 1)) z))
  join_ones (suc n) z = omega (
    arith,
    modp-suc (op (pos (2 ^ suc n - 1)) z) n,
    ap (λ v. modp v (2 ^ n))
        (op_half (pos (2 ^ suc n - 1)) z ∙ ap (λ t. op (pos t) (half z)) (half_ones n)),
    join_ones n (half z),
    op_odd (pos (2 ^ suc n - 1)) z,
    odd_ones n,
    odd_lt z,
    two_pow_suc n,
    two_pow_pos n,
  )
