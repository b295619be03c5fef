-- ===== src/MtPlan/Workers/Deal.antt =====
-- The mtasks that src/cppEmitterMtPlan.cpp deals out: each to one worker, whose sums are of what it has.
use gsim.Prelude.{
  ℕ, zero, suc, ◌+◌, ◌-◌, ◌≤◌, ◌<◌, Bool, List, [], ◌∷◌, ◌++◌, ltb, ◌==◌, ==_iff, ◌≡◌, ◌≢◌, refl,
  ◌∙◌, sym, arith, bit, occurs, occurs-append, Bool-cases, inl, inr,
}
use gsim.MtPlan.Workers.{
  insert_by, sort_by, up_to, Loads, no_loads, best_worker, give, deal, deal_all, comes_first,
}

occurs-insert_by :
    (less : ℕ → ℕ → Bool) (a x : ℕ) (xs : List ℕ)
    → occurs a (insert_by less x xs) ≡ bit (x == a) + occurs a xs
unfolding insert_by
occurs-insert_by less a x [] = refl
occurs-insert_by less a x (y ∷ ys) = elim (Bool-cases (less x y)) [
  | inl t ↦ rw t (omega arith)
  | inr t ↦ rw t (omega (arith, occurs-insert_by less a x ys))
]

pub occurs-sort_by :
    (less : ℕ → ℕ → Bool) (a : ℕ) (xs : List ℕ) → occurs a (sort_by less xs) ≡ occurs a xs
unfolding sort_by
occurs-sort_by less a [] = refl
occurs-sort_by less a (x ∷ xs) =
    omega (arith, occurs-insert_by less a x (sort_by less xs), occurs-sort_by less a xs)

occurs-up_to : (a n : ℕ) → occurs a (up_to n) ≡ bit (ltb a n)
occurs-up_to a zero = ground arith
occurs-up_to a (suc n) =
    ground (arith, occurs-up_to a n, occurs-append a (up_to n) (n ∷ []), ==_iff n a)

-- The sum over the first n workers.
unfoldable pub sum_below : (ℕ → ℕ) → ℕ → ℕ
sum_below f zero = 0
sum_below f (suc n) = f n + sum_below f n

abbrev pub sum_of : (ℕ → ℕ) → List ℕ → ℕ
sum_of cost [] = 0
sum_of cost (i ∷ is) = cost i + sum_of cost is

sum_of-append :
    (cost : ℕ → ℕ) (xs ys : List ℕ) → sum_of cost (xs ++ ys) ≡ sum_of cost xs + sum_of cost ys
sum_of-append cost [] ys = omega arith
sum_of-append cost (x ∷ xs) ys = omega (arith, sum_of-append cost xs ys)

sum_of-insert_by :
    (less : ℕ → ℕ → Bool) (cost : ℕ → ℕ) (x : ℕ) (xs : List ℕ)
    → sum_of cost (insert_by less x xs) ≡ cost x + sum_of cost xs
unfolding insert_by
sum_of-insert_by less cost x [] = refl
sum_of-insert_by less cost x (y ∷ ys) = elim (Bool-cases (less x y)) [
  | inl t ↦ rw t (omega arith)
  | inr t ↦ rw t (omega (arith, sum_of-insert_by less cost x ys))
]

pub sum_of-sort_by :
    (less : ℕ → ℕ → Bool) (cost : ℕ → ℕ) (xs : List ℕ)
    → sum_of cost (sort_by less xs) ≡ sum_of cost xs
unfolding sort_by
sum_of-sort_by less cost [] = refl
sum_of-sort_by less cost (x ∷ xs) =
    omega (arith, sum_of-insert_by less cost x (sort_by less xs), sum_of-sort_by less cost xs)

sum_below_ext :
    (f g : ℕ → ℕ) (n : ℕ) → ((w : ℕ) → w < n → f w ≡ g w) → sum_below f n ≡ sum_below g n
unfolding sum_below
sum_below_ext f g zero h = refl
sum_below_ext f g (suc n) h =
    omega (arith, h n (omega arith), sum_below_ext f g n (λ w l. h w (omega (arith, l))))

-- One of the terms grows.
sum_below_grow :
    (f g : ℕ → ℕ) (b k n : ℕ)
    → b < n
    → g b ≡ f b + k
    → ((w : ℕ) → w ≢ b → g w ≡ f w)
    → sum_below g n ≡ sum_below f n + k
unfolding sum_below
sum_below_grow f g b k zero l e h = absurd (omega (arith, l))
sum_below_grow f g b k (suc n) l e h = elim (Bool-cases (b == n)) [
  | inl t ↦
      let same = (==_iff b n).0 t in
      let last : g n ≡ f n + k = rw same at e in
      omega (arith, last, sum_below_ext g f n (λ w below. h w (omega (arith, below, same))))
  | inr t ↦
      let ne : n ≢ b = ground (arith, t, ==_iff b n) in
      omega (arith, h n ne, sum_below_grow f g b k n (ground (arith, l, t, ==_iff b n)) e h)
]

pub best_worker_le : (s : Loads) (n : ℕ) → best_worker s n ≤ n
unfolding best_worker
best_worker_le s zero = omega arith
best_worker_le s (suc n) = ground (arith, best_worker_le s n)

module _ (cost count : ℕ → ℕ) (workers : ℕ) (some : 0 < workers) where
  abbrev pub holders : Loads → ℕ → ℕ
  holders s i = sum_below (λ w. occurs i (s.mtask_indices w)) workers

  holders-give :
      (s : Loads) (b j i : ℕ)
      → b < workers
      → holders (give cost count b j s) i ≡ holders s i + bit (j == i)
  holders-give s b j i l =
      sum_below_grow (λ w. occurs i (s.mtask_indices w))
        (λ w. occurs i ((give cost count b j s).mtask_indices w)) b (bit (j == i)) workers l
        (ground (arith, ==_iff b b, occurs-append i (s.mtask_indices b) (j ∷ [])))
        (λ w ne. ground (arith, ne, ==_iff w b))

  holders-deal :
      (is : List ℕ) (s : Loads) (i : ℕ)
      → holders (deal cost count workers is s) i ≡ holders s i + occurs i is
  unfolding deal
  holders-deal [] s i = omega arith
  holders-deal (j ∷ is) s i =
      let b = best_worker s (workers - 1) in
      omega (
        arith,
        holders-deal is (give cost count b j s) i,
        holders-give s b j i (omega (arith, best_worker_le s (workers - 1), some)),
      )

  abbrev pub Counted : Loads → Type 0
  Counted s =
      (w : ℕ)
      → (s.static_costs w ≡ sum_of cost (s.mtask_indices w))
        × (s.task_counts w ≡ sum_of count (s.mtask_indices w))

  Counted-give : (s : Loads) (b j : ℕ) → Counted s → Counted (give cost count b j s)
  Counted-give s b j h w = ground (
    arith,
    h w,
    sum_of-append cost (s.mtask_indices w) (j ∷ []),
    sum_of-append count (s.mtask_indices w) (j ∷ []),
  )

  Counted-deal : (is : List ℕ) (s : Loads) → Counted s → Counted (deal cost count workers is s)
  unfolding deal
  Counted-deal [] s h = h
  Counted-deal (j ∷ is) s h =
      Counted-deal is (give cost count (best_worker s (workers - 1)) j s)
        (Counted-give s (best_worker s (workers - 1)) j h)

  holders_sorted :
      (f : ℕ → List ℕ) (i n : ℕ)
      → sum_below (λ w. occurs i (sort_by ltb (f w))) n ≡ sum_below (λ w. occurs i (f w)) n
  holders_sorted f i n =
      sum_below_ext (λ w. occurs i (sort_by ltb (f w))) (λ w. occurs i (f w)) n
        (λ w l. occurs-sort_by ltb i (f w))

  none_held : (i n : ℕ) → sum_below (λ w. 0) n ≡ 0
  unfolding sum_below
  none_held i zero = refl
  none_held i (suc n) = omega (arith, none_held i n)

  pub holders-deal_all :
      (mtasks i : ℕ) → i < mtasks → holders (deal_all cost count workers mtasks) i ≡ 1
  unfolding deal_all
  holders-deal_all mtasks i l =
      let order = sort_by (comes_first cost count) (up_to mtasks) in
      ground (
        arith,
        l,
        holders_sorted (deal cost count workers order no_loads).mtask_indices i workers,
        holders-deal order no_loads i,
        none_held i workers,
        occurs-sort_by (comes_first cost count) i (up_to mtasks),
        occurs-up_to i mtasks,
      )

  pub Counted-deal_all : (mtasks : ℕ) → Counted (deal_all cost count workers mtasks)
  unfolding deal_all
  Counted-deal_all mtasks w =
      let order = sort_by (comes_first cost count) (up_to mtasks) in
      let dealt = deal cost count workers order no_loads in
      let (costs, counts) = Counted-deal order no_loads (λ v. (refl, refl)) w in
      (
        costs ∙ sym (sum_of-sort_by ltb cost (dealt.mtask_indices w)),
        counts ∙ sym (sum_of-sort_by ltb count (dealt.mtask_indices w)),
      )
