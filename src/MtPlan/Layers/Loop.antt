-- ===== src/MtPlan/Layers/Loop.antt =====
-- One round of the loop of mtAddCoarseLayers in src/cppEmitterMtPlan.cpp.
use mathlib.Core.List.{Memᴰ}
use mathlib.Core.List.Memᴰ
use gsim.Prelude.{
  ℕ, zero, suc, ◌+◌, ◌-◌, ◌≤◌, ◌<◌, Bool, true, false, not, ◌&&◌, ◌||◌, List, [], ◌∷◌, ◌++◌, ltb,
  ◌==◌, ==_iff, if◌then◌else◌, ◌≡◌, ◌≢◌, refl, ap, ◌∙◌, arith, bit, occurs, occurs-append,
  Bool-cases, inl, inr, length, Memᴰ-concat,
}
use gsim.Prelude.Counting.{count_below, count_below_ext, count_below_one}
use gsim.MtPlan.Layers.{Progress, set_at, link, degrees, layer_below, emit, emit_all}
use gsim.MtPlan.Layers.Counts.{decrement-occurs, edges-degrees}

abbrev pub flatten : List (List ℕ) → List ℕ
flatten [] = []
flatten (l ∷ ls) = l ++ flatten ls

-- The number of the first layer with the task.
abbrev pub layer_of : List (List ℕ) → ℕ → ℕ
layer_of [] x = 0
layer_of (l ∷ ls) x = if occurs x l == 0 then suc (layer_of ls x) else 0

pub occurs-flatten_concat :
    (x : ℕ) (ls : List (List ℕ)) (l : List ℕ)
    → occurs x (flatten (ls ++ l ∷ [])) ≡ occurs x (flatten ls) + occurs x l
occurs-flatten_concat x [] l = omega (arith, occurs-append x l [])
occurs-flatten_concat x (m ∷ ls) l = omega (
  arith,
  occurs-append x m (flatten ls),
  occurs-append x m (flatten (ls ++ l ∷ [])),
  occurs-flatten_concat x ls l,
)

pub layer_of_lt :
    (ls : List (List ℕ)) (x : ℕ) → occurs x (flatten ls) ≢ 0 → layer_of ls x < length ls
layer_of_lt [] x h = absurd (h refl)
layer_of_lt (l ∷ ls) x h =
    ground (arith, layer_of_lt ls x, occurs-append x l (flatten ls), ==_iff (occurs x l) 0)

pub layer_of_old :
    (ls : List (List ℕ)) (l : List ℕ) (x : ℕ)
    → occurs x (flatten ls) ≢ 0
    → layer_of (ls ++ l ∷ []) x ≡ layer_of ls x
layer_of_old [] l x h = absurd (h refl)
layer_of_old (m ∷ ls) l x h =
    ground (arith, layer_of_old ls l x, occurs-append x m (flatten ls), ==_iff (occurs x m) 0)

pub layer_of_new :
    (ls : List (List ℕ)) (l : List ℕ) (x : ℕ)
    → occurs x (flatten ls) ≡ 0
    → occurs x l ≢ 0
    → layer_of (ls ++ l ∷ []) x ≡ length ls
layer_of_new [] l x h f = ground (arith, ==_iff (occurs x l) 0)
layer_of_new (m ∷ ls) l x h f =
    ground (arith, layer_of_new ls l x, occurs-append x m (flatten ls), ==_iff (occurs x m) 0)

-- The layer holds what is not emitted and waits for nothing, each once.
pub occurs-layer_below :
    (begin n : ℕ) (p : Progress) (i : ℕ)
    → occurs (begin + i) (layer_below begin p n)
      ≡ bit (ltb i n && (not (p.emitted i) && (p.indegree i == 0)))
unfolding layer_below
occurs-layer_below begin zero p i = ground arith
occurs-layer_below begin (suc n) p i = ground (
  arith,
  occurs-layer_below begin n p i,
  occurs-append (begin + i) (layer_below begin p n) ((begin + n) ∷ []),
  ==_iff i n,
  ==_iff (begin + n) (begin + i),
)

count_below_emit :
    (e g : ℕ → Bool) (i n : ℕ)
    → i < n
    → e i ≡ false
    → count_below (λ f. not (e f) && g f) n
      ≡ bit (g i) + count_below (λ f. not (set_at e i true f) && g f) n
unfolding set_at
count_below_emit e g i n l h = elim (Bool-cases (g i)) [
  | inl t ↦ rw t (
      count_below_one (λ f. not (e f) && g f) (λ f. not (set_at e i true f) && g f) i n l
        (ground (arith, h, t)) (ground (arith, ==_iff i i))
        (λ j ne. ground (arith, ==_iff j i, ne)))
  | inr t ↦ rw t (
      count_below_ext (λ f. not (e f) && g f) (λ f. not (set_at e i true f) && g f) n
        (λ j below. elim (Bool-cases (j == i)) [
          | inl e' ↦ ground (arith, e', ap g ((==_iff j i).0 e') ∙ t)
          | inr e' ↦ ground (arith, e')
        ])
      ∙ (omega arith))
]

module _ (ordering : ℕ → ℕ → Bool) (begin size : ℕ) where
  pub record Inv (p : Progress) : Type 0 where
    pub counted : p.emitted_count ≡ count_below p.emitted size
    pub waiting :
        (t : ℕ)
        → t < size
        → p.indegree t ≡ count_below (λ f. not (p.emitted f) && link ordering begin f t) size

  Inv-emit :
      (i : ℕ) (p : Progress)
      → i < size
      → Inv p
      → Inv (emit begin (degrees ordering begin size).edges i p)
  unfolding emit set_at
  Inv-emit i p l h = elim (Bool-cases (p.emitted i)) [
    | inl t ↦ rw t h
    | inr f ↦ rw f record {
      counted = omega (
        arith,
        h.counted,
        count_below_one (set_at p.emitted i true) p.emitted i size l (ground (arith, ==_iff i i)) f
            (λ j ne. ground (arith, ==_iff j i, ne)),
      );
      waiting = λ t below. omega (
        arith,
        h.waiting t below,
        decrement-occurs ((degrees ordering begin size).edges i) p.indegree t,
        edges-degrees ordering begin size i t l below,
        count_below_emit p.emitted (λ f'. link ordering begin f' t) i size l f,
      );
    }
  ]

  -- After the loop over the tasks of a layer.
  pub record Emitted (ids : List ℕ) (p q : Progress) : Type 0 where
    pub inv : Inv q
    pub which : (j : ℕ) → q.emitted j ≡ (p.emitted j || not (occurs (begin + j) ids == 0))

  abbrev pub Within : List ℕ → Type 0
  Within ids = (x : ℕ) → Memᴰ x ids → (begin ≤ x) × (x < begin + size)

  emitted-emit :
      (i j : ℕ) (p : Progress)
      → (emit begin (degrees ordering begin size).edges i p).emitted j ≡ (p.emitted j || (i == j))
  unfolding emit set_at
  emitted-emit i j p = elim (Bool-cases (i == j)) [
    | inl t ↦
        let same : p.emitted i ≡ p.emitted j = ap p.emitted ((==_iff i j).0 t) in
        ground (arith, t, same, ==_iff j i, ==_iff i j)
    | inr t ↦ ground (arith, t, ==_iff j i, ==_iff i j)
  ]

  pub Emitted-emit_all :
      (ids : List ℕ) (p : Progress)
      → Within ids
      → Inv p
      → Emitted ids p (emit_all begin (degrees ordering begin size).edges ids p)
  unfolding emit_all
  Emitted-emit_all [] p w h = record { inv = h; which = λ j. ground arith }
  Emitted-emit_all (x ∷ ids) p w h =
      let (low, high) = w x (Memᴰ.head refl) in
      let rest =
        Emitted-emit_all ids (emit begin (degrees ordering begin size).edges (x - begin) p)
          (λ y m. w y (Memᴰ.tail m)) (Inv-emit (x - begin) p (omega (arith, low, high)) h) in
      record {
        inv = rest.inv;
        which = λ j. ground (
          arith,
          rest.which j,
          emitted-emit (x - begin) j p,
          ==_iff x (begin + j),
          ==_iff (x - begin) j,
        );
      }

  pub layer_below-Within : (n : ℕ) (p : Progress) → n ≤ size → Within (layer_below begin p n)
  unfolding layer_below
  layer_below-Within zero p l x m = absurd (Memᴰ.not-nil m)
  layer_below-Within (suc n) p l x m = ground (
    arith,
    layer_below-Within n p (omega (arith, l)) x,
    Memᴰ-concat x (begin + n) (layer_below begin p n),
  )
