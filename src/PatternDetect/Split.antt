-- ===== src/PatternDetect/Split.antt =====
-- Whether the two comparisons of checkPattern2 in src/patternDetect.cpp are the one that they replace.
use native.Mathlib.Nat.{div-div-eq-div-mul, div-eq_of_lt-le, mul-add-mod_self_right, mod-eq_of_lt}
use gsim.Prelude.{
  ℕ, ◌+◌, ◌-◌, ◌*◌, ◌/◌, ◌%◌, ◌^◌, ◌≤◌, ◌<◌, Bool, true, false, ◌&&◌, ◌==◌, ==_iff, ◌≡◌, ◌↔◌, refl,
  ap, sym, ◌∙◌, arith,
}
use gsim.Prelude.Residue.{two_pow_add}
use gsim.PatternDetect.{Joined, cat, bits_mpz, constant1, constant2, split_test}

-- The parts of a number that is joined of two.
join_parts : (l r k : ℕ) → r < k → ((l * k + r) / k ≡ l) × ((l * k + r) % k ≡ r)
join_parts l r k h = (
  div-eq_of_lt-le k (omega arith) (omega (arith, h)),
  mul-add-mod_self_right l k r ∙ mod-eq_of_lt h,
)

constant2_low :
    (joined : Joined) (lwidth rwidth c : ℕ)
    → 1 ≤ rwidth
    → constant2 joined lwidth rwidth c ≡ c % 2 ^ rwidth
unfolding constant2 bits_mpz
constant2_low joined lwidth rwidth c l =
    let whole : c / 2 ^ 0 ≡ c = omega arith in
    let width : rwidth - 1 + 1 - 0 ≡ rwidth = omega (arith, l) in rw (whole, width) refl

constant1_cat :
    (lwidth rwidth c : ℕ) → constant1 cat lwidth rwidth c ≡ c / 2 ^ rwidth / 2 % 2 ^ lwidth
unfolding constant1 bits_mpz
constant1_cat lwidth rwidth c =
    let width : lwidth + rwidth + 1 - (rwidth + 1) ≡ lwidth = omega arith in
    let low : 2 ^ (rwidth + 1) ≡ 2 ^ rwidth * 2 = two_pow_add rwidth 1 in
    rw (width, low) (ap (λ q. q % 2 ^ lwidth) (sym (div-div-eq-div-mul c (2 ^ rwidth) 2)))

test_iff :
    (joined : Joined) (lwidth rwidth c l r : ℕ)
    → (split_test joined lwidth rwidth c l r ≡ true)
      ↔ ((l ≡ constant1 joined lwidth rwidth c) × (r ≡ constant2 joined lwidth rwidth c))
unfolding split_test
test_iff joined lwidth rwidth c l r =
    both (l == constant1 joined lwidth rwidth c) (r == constant2 joined lwidth rwidth c) _ _
      (==_iff l _) (==_iff r _)
  where
    both :
        (a b : Bool) (P Q : Type 0) → (a ≡ true) ↔ P → (b ≡ true) ↔ Q → ((a && b) ≡ true) ↔ (P × Q)
    both true true P Q p q = (λ e. (p.0 e, q.0 e), λ e. refl)
    both true false P Q p q = (λ e. cc, λ (_, y). q.1 y)
    both false b P Q p q = (λ e. cc, λ (x, _). p.1 x)

-- For OP_CAT on signals that are neither shifted nor padded, with a right width of 1 or more,
-- values below the powers of their widths, and a constant equal to the joined value, the
-- comparisons that checkPattern2 puts in place hold exactly if the value of the left signal is 0.
pub split_test-cat_iff :
    (lwidth rwidth c l r : ℕ)
    → 1 ≤ rwidth
    → l < 2 ^ lwidth
    → r < 2 ^ rwidth
    → l * 2 ^ rwidth + r ≡ c
    → (split_test cat lwidth rwidth c l r ≡ true) ↔ (l ≡ 0)
split_test-cat_iff lwidth rwidth c l r some hl hr e =
    let (high, low) = join_parts l r (2 ^ rwidth) hr in
    let c1 : constant1 cat lwidth rwidth c ≡ l / 2 =
      constant1_cat lwidth rwidth c
      ∙ ap (λ q. q / 2 % 2 ^ lwidth) (ap (λ n. n / 2 ^ rwidth) (sym e) ∙ high)
      ∙ mod-eq_of_lt (omega (arith, hl)) in
    let c2 : constant2 cat lwidth rwidth c ≡ r =
      constant2_low cat lwidth rwidth c some ∙ ap (λ n. n % 2 ^ rwidth) (sym e) ∙ low in
    let test = test_iff cat lwidth rwidth c l r in
    (λ t. omega (arith, (test.0 t).0, c1), λ zero_l. test.1 (omega (arith, zero_l, c1), sym c2))
