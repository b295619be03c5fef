-- ===== src/ActiveMap/Whole.antt =====
-- activeSet2bitMap of src/cppEmitterUtil.cpp as a whole.
use gsim.Prelude.{
  ℕ, ◌+◌, ◌*◌, ◌/◌, ◌%◌, true, false, List, [], ◌∷◌, ◌++◌, Option, none, some, ==_iff, elem, ◌≡◌,
  ◌≢◌, refl, sym, ◌∙◌, arith, Bool-cases, inl, inr, ◌⊎◌, ◌↔◌, Memᴰ-cons, Memᴰ-concat,
}
use mathlib.Core.Path.{subst}
use mathlib.Core.List.{Memᴰ}
use mathlib.Core.List.Memᴰ
use gsim.MtAnalysis.{active_width}
use gsim.ActiveMap.{BitMap, Activation, is_near, activate, activate_all, active_set2bit_map}
use gsim.ActiveMap.Covers.{Covers, Fits, set_flag-Sets}

-- A flag of the word of the current super node.
abbrev pub CoversNear : Option ℕ → List ℕ → ℕ → Type 0
CoversNear none near j = ⊥
CoversNear (some c) near j = (b : ℕ) × Memᴰ b near × (c / active_width * active_width + b ≡ j)

true≢false : true ≢ false
true≢false e = cc

module _ (always_active : List ℕ) (cur : Option ℕ) where
  -- The flag is set, near or far.
  abbrev pub Flagged : Activation → ℕ → Type 0
  Flagged a j = CoversNear cur a.near j ⊎ Covers a.far j

  CoversNear-push :
      (c : Option ℕ) (id : ℕ) (near : List ℕ) (j : ℕ)
      → is_near c id ≡ true
      → CoversNear c (near ++ id % active_width ∷ []) j ↔ (CoversNear c near j ⊎ (j ≡ id))
  unfolding is_near
  CoversNear-push none id near j h = cc
  CoversNear-push (some c) id near j h =
      let same : id / active_width ≡ c / active_width =
        ground (arith, h, ==_iff (id / 8) (c / 8)) in
      let new = λ (b : ℕ). Memᴰ-concat b (id % active_width) near in
      (
        λ (b, m, e). elim ((new b).0 m) [
          | inl old ↦ inl (b, old, e)
          | inr last ↦ inr (omega (arith, e, last, same))
        ],
        λ either. elim either [
          | inl (b, m, e) ↦ (b, (new b).1 (inl m), e)
          | inr e ↦
              (id % active_width, (new (id % active_width)).1 (inr refl), omega (arith, e, same))
        ],
      )

  record Activates (id : ℕ) (a b : Activation) : Type 0 where
    flags : (j : ℕ) → Flagged b j ↔ (Flagged a j ⊎ ((j ≡ id) × (elem id always_active ≡ false)))
    fits : Fits b.far

  activate-Activates :
      (id : ℕ) (a : Activation) → Fits a.far → Activates id a (activate always_active cur id a)
  unfolding activate
  activate-Activates id a fit = elim (Bool-cases (elem id always_active)) [
    | inl t ↦ rw t record {
      flags = λ j.
          (inl, λ either. elim either [ inl h ↦ h | inr (_, e) ↦ absurd (true≢false (sym t ∙ e)) ]);
      fits = fit;
    }
    | inr t ↦ elim (Bool-cases (is_near cur id)) [
      | inl n ↦
          rw (t, n)
            record {
              flags = λ j.
                  let push = CoversNear-push cur id a.near j n in
                  (
                    λ h. elim h [
                      | inr far ↦ inl (inr far)
                      | inl near ↦ elim (push.0 near) [
                        | inl old ↦ inl (inl old)
                        | inr e ↦ inr (e, t)
                      ]
                    ],
                    λ h. elim h [
                      | inl (inr far) ↦ inr far
                      | inl (inl near) ↦ inl (push.1 (inl near))
                      | inr (e, _) ↦ inl (push.1 (inr e))
                    ],
                  );
              fits = fit;
            }
      | inr n ↦
          let sets = set_flag-Sets id a.far fit in
          rw (t, n)
            record {
              flags = λ j. (
                λ h. elim h [
                  | inl near ↦ inl (inl near)
                  | inr far ↦ elim ((sets.covers j).0 far) [
                    | inl old ↦ inl (inr old)
                    | inr e ↦ inr (e, t)
                  ]
                ],
                λ h. elim h [
                  | inl (inl near) ↦ inl near
                  | inl (inr far) ↦ inr ((sets.covers j).1 (inl far))
                  | inr (e, _) ↦ inr ((sets.covers j).1 (inr e))
                ],
              );
              fits = sets.fits;
            }
    ]
  ]

  activate_all_lem :
      (ids : List ℕ) (a : Activation) (j : ℕ)
      → Fits a.far
      → (Flagged (activate_all always_active cur ids a) j
          ↔ (Flagged a j ⊎ (Memᴰ j ids × (elem j always_active ≡ false))))
        × Fits (activate_all always_active cur ids a).far
  unfolding activate_all
  activate_all_lem [] a j fit =
      ((inl, λ h. elim h [ inl old ↦ old | inr (m, _) ↦ absurd (Memᴰ.not-nil m) ]), fit)
  activate_all_lem (id ∷ ids) a j fit =
      let first = activate-Activates id a fit in
      let (rest, fits) = activate_all_lem ids (activate always_active cur id a) j first.fits in
      let one = first.flags j in
      let cons = Memᴰ-cons j id ids in
      (
        (
          λ h. elim (rest.0 h) [
            | inr (m, e) ↦ inr (cons.1 (inr m), e)
            | inl h' ↦ elim (one.0 h') [
              | inl old ↦ inl old
              | inr (same, e) ↦
                  inr (cons.1 (inl same), subst (λ i. elem i always_active ≡ false) (sym same) e)
            ]
          ],
          λ h. elim h [
            | inl old ↦ rest.1 (inl (one.1 (inl old)))
            | inr (m, e) ↦ elim (cons.0 m) [
              | inl same ↦
                  rest.1
                    (inl (one.1 (inr (same, subst (λ i. elem i always_active ≡ false) same e))))
              | inr later ↦ rest.1 (inr (later, e))
            ]
          ],
        ),
        fits,
      )

  -- For masks that end with their group of eight words, the flags that activeSet2bitMap gives,
  -- those in its result and those in the map it leaves, are the flags that the map had and those
  -- of the given ids that are not always active.
  pub Flagged-active_set2bit_map :
      (ids : List ℕ) (m : BitMap) (j : ℕ)
      → Fits m
      → Flagged (active_set2bit_map always_active cur ids m) j
        ↔ (Covers m j ⊎ (Memᴰ j ids × (elem j always_active ≡ false)))
  unfolding active_set2bit_map
  Flagged-active_set2bit_map ids m j fit =
      let start : Activation = record { near = []; unique = some 0; far = m } in
      let all = (activate_all_lem ids start j fit).0 in
      (
        λ h. elim (all.0 h) [
          | inl (inl near) ↦ absurd (none_near cur near)
          | inl (inr far) ↦ inl far
          | inr new ↦ inr new
        ],
        λ h. elim h [ inl far ↦ all.1 (inl (inr far)) | inr new ↦ all.1 (inr new) ],
      )
    where
      none_near : (c : Option ℕ) → CoversNear c [] j → ⊥
      none_near none h = h
      none_near (some c) (b, held, e) = Memᴰ.not-nil held
