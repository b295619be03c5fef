-- ===== src/Tree/Range.antt =====
-- src/ENode.cpp: ENode::getIdx, the elements of an array that a left-hand side stands for, from the
-- first to the last. `none` is a failed assertion or a null child, `some none` an index that is not
-- constant. An array has fewer than 2^31 elements, so that an int holds them.
use native.Mathlib.Nat.{mul-le-mul_right}
use mathlib.Core.Path.{subst}
use gsim.Prelude.{
  ℕ, ◌+◌, ◌-◌, ◌*◌, ◌<◌, ◌≤◌, Bool, true, false, List, [], ◌∷◌, Option, none, some, ◌≡◌, refl,
  arith, ap₂, sym, get_or, if◌then◌else◌, ◌>>=◌, length, leb, inl, inr, ◌⊎◌,
}
use gsim.Tree.{Label, ENode, enode, Children, no_more, child, null, label}
use gsim.Tree.Index.{is_index_int, elements}

-- The indices, in the order of the children.
unfoldable pub collect_index : Children → Option (Option (List ℕ))
collect_index no_more = some (some [])
collect_index (null cs) = none
collect_index (child e cs) =
    let rest = collect_index cs in
    if is_index_int (label e).op_type
    then (rest >>= λ o. some (o >>= λ is. some (get_or (label e).values 0 0 ∷ is)))
    else some none

-- The dimensions after those that are indexed.
abbrev pub rest_dims : List ℕ → List ℕ → List ℕ
rest_dims ds [] = ds
rest_dims [] (i ∷ is) = []
rest_dims (d ∷ ds) (i ∷ is) = rest_dims ds is

abbrev pub base_from : ℕ → List ℕ → List ℕ → ℕ
base_from base ds [] = base
base_from base [] (i ∷ is) = base
base_from base (d ∷ ds) (i ∷ is) = base_from (base * d + i) ds is

abbrev pub idx_range : List ℕ → List ℕ → ℕ × ℕ
idx_range ds is =
    let num = elements (rest_dims ds is) in
    let base = base_from 0 ds is in (base * num, (base + 1) * num - 1)

abbrev pub is_array : List ℕ → Bool
is_array [] = false
is_array (_ ∷ _) = true

unfoldable pub get_idx : ENode → List ℕ → Option (Option (ℕ × ℕ))
get_idx (enode l cs) dimension =
    if is_array dimension
    then (collect_index cs >>= λ o. elim o [
      | none ↦ some none
      | some is ↦
          if leb (length is) (length dimension) then some (some (idx_range dimension is)) else none
    ])
    else none

-- The indices are below their dimensions, and the other dimensions are positive.
abbrev pub Within : List ℕ → List ℕ → Type 0
Within ds [] = 1 ≤ elements ds
Within [] (i ∷ is) = ⊥
Within (d ∷ ds) (i ∷ is) = (i < d) × Within ds is

next_base : (base d i : ℕ) → i < d → base * d + i + 1 ≤ (base + 1) * d
next_base base d i h = omega arith

base_from-bound :
    (base : ℕ) (ds is : List ℕ)
    → Within ds is
    → ((base_from base ds is + 1) * elements (rest_dims ds is) ≤ (base + 1) * elements ds)
      × (1 ≤ elements (rest_dims ds is))
base_from-bound base ds [] h = (omega arith, h)
base_from-bound base [] (i ∷ is) h = absurd h
base_from-bound base (d ∷ ds) (i ∷ is) (h, k) =
    let (bound, positive) = base_from-bound (base * d + i) ds is k in
    (omega (arith, bound, mul-le-mul_right (elements ds) (next_base base d i h)), positive)

length-Within : (ds is : List ℕ) → Within ds is → length is ≤ length ds
length-Within ds [] h = omega arith
length-Within [] (i ∷ is) h = absurd h
length-Within (d ∷ ds) (i ∷ is) (_, k) = omega (arith, length-Within ds is k)

idx_range-bound :
    (ds is : List ℕ)
    → Within ds is
    → ((idx_range ds is).0 ≤ (idx_range ds is).1) × ((idx_range ds is).1 < elements ds)
idx_range-bound ds is h =
    let (bound, positive) = base_from-bound 0 ds is h in
    let more : (base_from 0 ds is + 1) * elements (rest_dims ds is)
        ≡ base_from 0 ds is * elements (rest_dims ds is) + elements (rest_dims ds is) =
      omega arith in
    (omega (arith, bound, positive, more), omega (arith, bound, positive, more))

-- For a left-hand side with constant indices below the dimensions of the array, the other
-- dimensions positive, getIdx gives a range that does not end before it begins, and ends below the
-- number of elements.
pub get_idx-bound :
    (l : Label) (cs : Children) (ds is : List ℕ)
    → collect_index cs ≡ some (some is)
    → Within ds is
    → is_array ds ≡ true
    → (get_idx (enode l cs) ds ≡ some (some (idx_range ds is)))
      × ((idx_range ds is).0 ≤ (idx_range ds is).1)
      × ((idx_range ds is).1 < elements ds)
unfolding get_idx
get_idx-bound l cs ds is e h array =
    let bound = idx_range-bound ds is h in
    (rw (array, e, in_time (length-Within ds is h)) refl, bound.0, bound.1)
  where
    in_time : length is ≤ length ds → leb (length is) (length ds) ≡ true
    in_time k = ground arith

base_from-less :
    (a b : ℕ) (ds is js : List ℕ)
    → a < b
    → Within ds is
    → Within ds js
    → length is ≡ length js
    → base_from a ds is < base_from b ds js
base_from-less a b ds [] [] h k m e = h
base_from-less a b ds [] (j ∷ js) h k m e = absurd (omega (arith, e))
base_from-less a b ds (i ∷ is) [] h k m e = absurd (omega (arith, e))
base_from-less a b [] (i ∷ is) (j ∷ js) h k m e = absurd k
base_from-less a b (d ∷ ds) (i ∷ is) (j ∷ js) h (k, ks) (m, ms) e =
    base_from-less (a * d + i) (b * d + j) ds is js (omega (arith, next_base a d i k, up)) ks ms
      (omega (arith, e))
  where
    step : a + 1 ≤ b
    step = omega arith

    up : (a + 1) * d ≤ b * d
    up = mul-le-mul_right d step

less-cases : (i j : ℕ) → (i ≡ j) ⊎ (i < j) ⊎ (j < i)
less-cases i j = ground arith

base_from-cases :
    (a : ℕ) (ds is js : List ℕ)
    → Within ds is
    → Within ds js
    → length is ≡ length js
    → (is ≡ js) ⊎ (base_from a ds is < base_from a ds js) ⊎ (base_from a ds js < base_from a ds is)
base_from-cases a ds [] [] k m e = inl refl
base_from-cases a ds [] (j ∷ js) k m e = absurd (omega (arith, e))
base_from-cases a ds (i ∷ is) [] k m e = absurd (omega (arith, e))
base_from-cases a [] (i ∷ is) (j ∷ js) k m e = absurd k
base_from-cases a (d ∷ ds) (i ∷ is) (j ∷ js) (k, ks) (m, ms) e = elim (less-cases i j) [
  | inl same ↦ elim (base_from-cases (a * d + i) ds is js ks ms (omega (arith, e))) [
    | inl rest ↦ inl (ap₂ (λ x xs. x ∷ xs) same rest)
    | inr other ↦ inr (
        subst
          (λ x.
            (base_from (a * d + i) ds is < base_from (a * d + x) ds js)
            ⊎ (base_from (a * d + x) ds js < base_from (a * d + i) ds is))
          same other)
  ]
  | inr (inl below) ↦ inr (
      inl (
        base_from-less (a * d + i) (a * d + j) ds is js (omega (arith, below)) ks ms
          (omega (arith, e))))
  | inr (inr above) ↦ inr (
      inr (
        base_from-less (a * d + j) (a * d + i) ds js is (omega (arith, above)) ms ks
          (omega (arith, e))))
]

elements-rest :
    (ds is js : List ℕ)
    → length is ≡ length js
    → elements (rest_dims ds is) ≡ elements (rest_dims ds js)
elements-rest ds [] [] e = refl
elements-rest ds [] (j ∷ js) e = absurd (omega (arith, e))
elements-rest ds (i ∷ is) [] e = absurd (omega (arith, e))
elements-rest [] (i ∷ is) (j ∷ js) e = refl
elements-rest (d ∷ ds) (i ∷ is) (j ∷ js) e = elements-rest ds is js (omega (arith, e))

before : (a b num : ℕ) → a < b → 1 ≤ num → (a + 1) * num - 1 < b * num
before a b num h p =
    let step : a + 1 ≤ b = omega arith in
    let up : (a + 1) * num ≤ b * num = mul-le-mul_right num step in
    let more : (a + 1) * num ≡ a * num + num = omega arith in omega (arith, up, more)

-- For two left-hand sides with equally many constant indices, below the dimensions of the array,
-- the other dimensions positive, getIdx gives two ranges of elements, and unless the indices are
-- the same one range ends before the other begins.
pub get_idx-apart :
    (l k : Label) (cs es : Children) (ds is js : List ℕ)
    → collect_index cs ≡ some (some is)
    → collect_index es ≡ some (some js)
    → Within ds is
    → Within ds js
    → length is ≡ length js
    → is_array ds ≡ true
    → (p q : ℕ × ℕ) × (get_idx (enode l cs) ds ≡ some (some p))
      × (get_idx (enode k es) ds ≡ some (some q))
      × ((is ≡ js) ⊎ (p.1 < q.0) ⊎ (q.1 < p.0))
get_idx-apart l k cs es ds is js e f h m same array =
    let positive = (base_from-bound 0 ds is h).1 in
    let num = elements-rest ds is js same in
    let positive_js = (base_from-bound 0 ds js m).1 in
    (
      idx_range ds is,
      idx_range ds js,
      (get_idx-bound l cs ds is e h array).0,
      (get_idx-bound k es ds js f m array).0,
      elim (base_from-cases 0 ds is js h m same) [
        | inl equal ↦ inl equal
        | inr (inl below) ↦ inr (
            inl (
              subst (λ x. (idx_range ds is).1 < base_from 0 ds js * x) num
                (before (base_from 0 ds is) (base_from 0 ds js) (elements (rest_dims ds is)) below
                  positive)))
        | inr (inr above) ↦ inr (
            inr (
              subst (λ x. (idx_range ds js).1 < base_from 0 ds is * x) (sym num)
                (before (base_from 0 ds js) (base_from 0 ds is) (elements (rest_dims ds js)) above
                  positive_js)))
      ],
    )
