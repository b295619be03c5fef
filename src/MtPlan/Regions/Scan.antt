-- ===== src/MtPlan/Regions/Scan.antt =====
-- The runs of words of planMtCoarseRegions of src/cppEmitterMtPlan.cpp in level dispatch.
use gsim.Prelude.{
  ℕ, zero, suc, ◌+◌, ◌-◌, ◌*◌, ◌≤◌, ◌<◌, max, Bool, true, false, ◌||◌, ltb, ◌==◌, ==_iff, ltb→lt,
  if◌then◌else◌, ◌≡◌, refl, arith, Bool-cases, inl, inr,
}
use mathlib.Core.Path.{subst}
use gsim.MtAnalysis.{Design, active_width, active_word_is_whole, can_enter_coarse_dispatch}
use gsim.MtAnalysis.Edges.{ordering_edge}
use gsim.MtPlan.Regions.{
  any_from, all_from, word_end_of, word_can_enter_region, has_reverse_edge,
  has_same_word_reverse_edge, breaks, extend, region_span_cap, can_enter,
}

any_from-miss :
    (p : ℕ → Bool) (lo n i : ℕ) → any_from p lo n ≡ false → lo ≤ i → i < lo + n → p i ≡ false
unfolding any_from
any_from-miss p lo zero i h low high = absurd (omega (arith, low, high))
any_from-miss p lo (suc n) i h low high = elim (Bool-cases (lo == i)) [
  | inl t ↦ subst (λ k. p k ≡ false) ((==_iff lo i).0 t) (ground (arith, h))
  | inr t ↦
      any_from-miss p (suc lo) n i (ground (arith, h)) (ground (arith, low, t, ==_iff lo i))
        (omega (arith, high))
]

all_from-hit :
    (p : ℕ → Bool) (lo n i : ℕ) → all_from p lo n ≡ true → lo ≤ i → i < lo + n → p i ≡ true
unfolding all_from
all_from-hit p lo zero i h low high = absurd (omega (arith, low, high))
all_from-hit p lo (suc n) i h low high = elim (Bool-cases (lo == i)) [
  | inl t ↦ subst (λ k. p k ≡ true) ((==_iff lo i).0 t) (ground (arith, h))
  | inr t ↦
      all_from-hit p (suc lo) n i (ground (arith, h)) (ground (arith, low, t, ==_iff lo i))
        (omega (arith, high))
]

module _ (d : Design) where
  -- Ids that may be dispatched, without an edge back.
  pub record IsForward (begin end : ℕ) : Type 0 where
    pub bounded : end ≤ max begin d.super_id
    pub enters : (i : ℕ) → begin ≤ i → i < end → can_enter_coarse_dispatch d i ≡ true
    pub forward :
        (from to : ℕ) → begin ≤ to → to < from → from < end → ordering_edge d from to ≡ false

  word_enters :
      (w i : ℕ)
      → word_can_enter_region d true w ≡ true
      → w ≤ i
      → i < w + active_width
      → (w + active_width ≤ d.super_id) × (can_enter_coarse_dispatch d i ≡ true)
  unfolding word_can_enter_region
  word_enters w i h low high = enters_of (active_word_is_whole d w) h
    where
      enters_of :
          (whole : Bool)
          → (if whole
              then if word_end_of d true w - w == active_width
                then all_from (can_enter d true) w (word_end_of d true w - w)
                else false
              else false)
            ≡ true
          → (w + active_width ≤ d.super_id) × (can_enter_coarse_dispatch d i ≡ true)
      enters_of false e = cc
      enters_of true e = elim (Bool-cases (word_end_of d true w - w == active_width)) [
        | inr t ↦ absurd (ground (arith, e, t))
        | inl t ↦
            let size = (==_iff (word_end_of d true w - w) active_width).0 t in
            let all : all_from (can_enter d true) w (word_end_of d true w - w) ≡ true = rw t at e in
            (
              omega (arith, size),
              all_from-hit (can_enter d true) w (word_end_of d true w - w) i all low
                  (omega (arith, size, high)),
            )
      ]

  module _ (begin_word : ℕ) where
    abbrev begin : ℕ
    begin = begin_word * active_width

    -- What a word that does not end the loop tells.
    record Goes (w : ℕ) : Type 0 where
      enter : word_can_enter_region d true (w * active_width) ≡ true
      same_word : has_same_word_reverse_edge d true (w * active_width) ≡ false
      reverse : has_reverse_edge d true begin (w * active_width) ≡ false

    Goes-breaks : (w : ℕ) → breaks d true begin_word w ≡ false → Goes w
    unfolding breaks
    Goes-breaks w h =
        go (word_can_enter_region d true (w * active_width))
          (has_same_word_reverse_edge d true (w * active_width))
          (has_reverse_edge d true begin (w * active_width)) refl refl refl h
      where
        true_ne_false : true ≡ false → ⊥
        true_ne_false e = cc

        go :
            (a b c : Bool)
            → word_can_enter_region d true (w * active_width) ≡ a
            → has_same_word_reverse_edge d true (w * active_width) ≡ b
            → has_reverse_edge d true begin (w * active_width) ≡ c
            → (if a then b || (c || ltb region_span_cap (w + 1 - begin_word)) else true) ≡ false
            → Goes w
        go true false false ea eb ec e = record { enter = ea; same_word = eb; reverse = ec }
        go false b c ea eb ec e = absurd (true_ne_false e)
        go true true c ea eb ec e = absurd (true_ne_false e)
        go true false true ea eb ec e = absurd (true_ne_false e)

    IsForward-word :
        (w : ℕ)
        → Goes w
        → IsForward begin (w * active_width)
        → IsForward begin (suc w * active_width)
    unfolding has_same_word_reverse_edge has_reverse_edge
    IsForward-word w g f =
        let word = w * active_width in
        let bound = (word_enters word word g.enter (omega arith) (omega arith)).0 in
        record {
          bounded = omega (arith, bound);
          enters = λ i low high. elim (Bool-cases (ltb i word)) [
            | inl t ↦ f.enters i low (ltb→lt i word t)
            | inr t ↦ (word_enters word i g.enter (ground (arith, t)) (omega (arith, high))).1
          ];
          forward = λ from to low less high. elim (Bool-cases (ltb from word)) [
            | inl t ↦ f.forward from to low less (ltb→lt from word t)
            | inr t ↦
                let after : word ≤ from = ground (arith, t) in
                let inside : from < word + (word_end_of d true word - word) =
                  omega (arith, bound, high) in
                elim (Bool-cases (ltb to word)) [
                  | inl before ↦
                      any_from-miss (λ k. ordering_edge d from k) begin (word - begin) to
                        (any_from-miss
                          (λ k. any_from (λ j. ordering_edge d k j) begin (word - begin)) word
                          (word_end_of d true word - word) from g.reverse after inside)
                        low (omega (arith, low, ltb→lt to word before))
                  | inr same ↦
                      let at : word ≤ to = ground (arith, same) in
                      any_from-miss (λ k. ordering_edge d from k) word (from - word) to
                        (any_from-miss (λ k. any_from (λ j. ordering_edge d k j) word (k - word))
                          word (word_end_of d true word - word) from g.same_word after inside)
                        at (omega (arith, at, less))
                ]
          ];
        }

    pub extend-IsForward :
        (fuel w : ℕ)
        → begin_word ≤ w
        → IsForward begin (w * active_width)
        → (w ≤ extend d true begin_word fuel w)
          × IsForward begin (extend d true begin_word fuel w * active_width)
    unfolding extend
    extend-IsForward zero w l f = (omega arith, f)
    extend-IsForward (suc fuel) w l f = elim (Bool-cases (ltb (w * active_width) d.super_id)) [
      | inr done ↦ rw done (omega arith, f)
      | inl more ↦ elim (Bool-cases (breaks d true begin_word w)) [
        | inl stop ↦ rw (more, stop) (omega arith, f)
        | inr go ↦
            let (fwd, rest) =
              extend-IsForward fuel (suc w) (omega (arith, l))
                (IsForward-word w (Goes-breaks w go) f) in
            rw (more, go) (omega (arith, fwd), rest)
      ]
    ]

    pub IsForward-none : IsForward begin begin
    IsForward-none = record {
      bounded = omega arith;
      enters = λ i low high. absurd (omega (arith, low, high));
      forward = λ from to low less high. absurd (omega (arith, low, less, high));
    }
