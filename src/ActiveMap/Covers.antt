-- ===== src/ActiveMap/Covers.antt =====
-- The flags that the masks of src/cppEmitterUtil.cpp stand for.
use gsim.Prelude.{
  ℕ, zero, suc, ◌+◌, ◌-◌, ◌*◌, ◌/◌, ◌%◌, ◌≤◌, ◌<◌, ◌&&◌, [], ◌∷◌, ◌++◌, Option, none, some, ltb,
  leb, ◌==◌, ==_iff, ◌≡◌, ◌≢◌, refl, arith, Bool-cases, Option-cases, inl, inr, ◌⊎◌, ◌↔◌, Memᴰ-cons,
  Memᴰ-append, Memᴰ-concat,
}
use mathlib.Core.Path.{subst}
use mathlib.Core.List.{Memᴰ}
use mathlib.Core.List.Memᴰ
use gsim.MtAnalysis.{active_width}
use gsim.ActiveMap.{
  Mask, ActiveEntry, BitMap, words_per_mask, shift_left, put_entry, merge_words, has_words,
  erase_words, set_flag,
}

Memᴰ-shift_left :
    (k b : ℕ) (bs : Mask) → Memᴰ b (shift_left k bs) ↔ ((k ≤ b) × (b < 64) × Memᴰ (b - k) bs)
unfolding shift_left
Memᴰ-shift_left k b [] = (λ m. absurd (Memᴰ.not-nil m), λ (_, _, m). absurd (Memᴰ.not-nil m))
Memᴰ-shift_left k b (c ∷ bs) = elim (Bool-cases (ltb (c + k) 64)) [
  | inl t ↦ rw t (
      ground (
        arith,
        t,
        Memᴰ-shift_left k b bs,
        Memᴰ-cons b (c + k) (shift_left k bs),
        Memᴰ-cons (b - k) c bs,
      ))
  | inr t ↦ rw t (ground (arith, t, Memᴰ-shift_left k b bs, Memᴰ-cons (b - k) c bs))
]

abbrev pub mask_at : Option ActiveEntry → Mask
mask_at none = []
mask_at (some e) = e.mask

-- The entry of the word has the bit.
abbrev pub Holds : BitMap → ℕ → ℕ → Type 0
Holds m k b = Memᴰ b (mask_at (m k))

-- The flag of a super node is in one of the entries.
abbrev pub Covers : BitMap → ℕ → Type 0
Covers m j = (k : ℕ) × (b : ℕ) × Holds m k b × (k * active_width + b ≡ j)

-- A mask reaches to the end of its group of words.
abbrev pub Fits : BitMap → Type 0
Fits m = (k b : ℕ) → Holds m k b → k % words_per_mask * active_width + b < 64

Holds-put_entry :
    (m : BitMap) (k : ℕ) (e : ActiveEntry) (i b : ℕ)
    → Holds (put_entry m k (some e)) i b ↔ (((i ≡ k) × Memᴰ b e.mask) ⊎ ((i ≢ k) × Holds m i b))
unfolding put_entry
Holds-put_entry m k e i b = elim (Bool-cases (i == k)) [
  | inl t ↦ rw t (ground (arith, (==_iff i k).0 t))
  | inr t ↦ rw t (ground (arith, t, ==_iff i k))
]

merge_words_step :
    (beg : ℕ) (m : BitMap) (n : ℕ) (acc : Mask) (b : ℕ)
    → Memᴰ b (merge_words beg m (suc n) acc) ↔ (
        Memᴰ b (merge_words beg m n acc)
        ⊎ Memᴰ b (shift_left (n * active_width) (mask_at (m (beg + n)))))
unfolding merge_words shift_left
merge_words_step beg m n acc b = elim (Option-cases (m (beg + n))) [
  | inl e ↦
      rw (e, merge_words)
        (inl, λ either. elim either [ inl h ↦ h | inr h ↦ absurd (Memᴰ.not-nil h) ])
  | inr (entry, e) ↦
      rw (e, merge_words)
        (Memᴰ-append b (merge_words beg m n acc) (shift_left (n * active_width) entry.mask))
]

-- The words that are merged.
abbrev FromWord : ℕ → BitMap → ℕ → ℕ → Type 0
FromWord beg m n b =
    (k : ℕ) × (k < n) × (k * active_width ≤ b) × (b < 64) × Holds m (beg + k) (b - k * active_width)

Memᴰ-merge_words :
    (beg : ℕ) (m : BitMap) (n : ℕ) (acc : Mask) (b : ℕ)
    → Memᴰ b (merge_words beg m n acc) ↔ (Memᴰ b acc ⊎ FromWord beg m n b)
unfolding merge_words
Memᴰ-merge_words beg m zero acc b =
    (inl, λ either. elim either [ inl h ↦ h | inr (k, l, _, _, _) ↦ absurd (omega (arith, l)) ])
Memᴰ-merge_words beg m (suc n) acc b =
    let step = merge_words_step beg m n acc b in
    let before = Memᴰ-merge_words beg m n acc b in
    let shifted = Memᴰ-shift_left (n * active_width) b (mask_at (m (beg + n))) in
    (
      λ h. elim (step.0 h) [
        | inl old ↦ elim (before.0 old) [
          | inl a ↦ inl a
          | inr (k, l, low, high, held) ↦ inr (k, omega (arith, l), low, high, held)
        ]
        | inr new ↦ let (low, high, held) = shifted.0 new in inr (n, omega arith, low, high, held)
      ],
      λ either. elim either [
        | inl a ↦ step.1 (inl (before.1 (inl a)))
        | inr (k, l, low, high, held) ↦ elim (Bool-cases (k == n)) [
          | inl t ↦
              let here =
                subst
                  (λ i.
                    (i * active_width ≤ b) × (b < 64) × Holds m (beg + i) (b - i * active_width))
                  ((==_iff k n).0 t) (low, high, held) in
              step.1 (inr (shifted.1 here))
          | inr t ↦
              step.1 (inl (before.1 (inr (k, ground (arith, l, t, ==_iff k n), low, high, held))))
        ]
      ],
    )

Holds-erase_words :
    (beg : ℕ) (m : BitMap) (k b : ℕ)
    → Holds (erase_words beg m) k b ↔ (((k < beg) ⊎ (beg + words_per_mask ≤ k)) × Holds m k b)
unfolding erase_words
Holds-erase_words beg m k b = elim (Bool-cases (leb beg k && ltb k (beg + words_per_mask))) [
  | inl t ↦ rw t (λ h. absurd (Memᴰ.not-nil h), λ (out, _). absurd (ground (arith, t, out)))
  | inr t ↦ rw t (λ h. (ground (arith, t), h), λ (_, h). h)
]

-- What setting the flag of id does to the flags of the map.
pub record Sets (id : ℕ) (m m' : BitMap) : Type 0 where
  pub covers : (j : ℕ) → Covers m' j ↔ (Covers m j ⊎ (j ≡ id))
  pub fits : Fits m'

module _ (id : ℕ) (m : BitMap) (fit : Fits m) where
  abbrev word : ℕ
  word = id / active_width

  abbrev bit : ℕ
  bit = id % active_width

  abbrev beg : ℕ
  beg = word - word % words_per_mask

  -- The word has or gets an entry of its own.
  Sets-own :
      (u : Option ℕ)
      → Sets id m
          (put_entry m word (some (record { mask = mask_at (m word) ++ bit ∷ []; unique = u })))
  Sets-own u =
      let entry : ActiveEntry = record { mask = mask_at (m word) ++ bit ∷ []; unique = u } in
      let holds = λ (k b : ℕ). Holds-put_entry m word entry k b in
      let new = λ (b : ℕ). Memᴰ-concat b bit (mask_at (m word)) in
      record {
        covers = λ j. (
          λ (k, b, h, e). elim ((holds k b).0 h) [
            | inr (_, old) ↦ inl (k, b, old, e)
            | inl (same, h') ↦ elim ((new b).0 h') [
              | inl old ↦ inl (word, b, old, omega (arith, same, e))
              | inr at ↦ inr (omega (arith, same, e, at))
            ]
          ],
          λ either. elim either [
            | inr e ↦ (
              word,
              bit,
              (holds word bit).1 (inl (refl, (new bit).1 (inr refl))),
              omega (arith, e),
            )
            | inl (k, b, h, e) ↦ elim (Bool-cases (k == word)) [
              | inl t ↦
                  let same = (==_iff k word).0 t in
                  (
                    k,
                    b,
                    (holds k b).1 (inl (same, (new b).1 (inl (subst (λ i. Holds m i b) same h)))),
                    e,
                  )
              | inr t ↦ (k, b, (holds k b).1 (inr (ground (arith, t, ==_iff k word), h)), e)
            ]
          ],
        );
        fits = λ k b h. elim ((holds k b).0 h) [
          | inr (_, old) ↦ fit k b old
          | inl (same, h') ↦ elim ((new b).0 h') [
            | inl old ↦ omega (arith, fit word b old, same)
            | inr at ↦ omega (arith, same, at)
          ]
        ];
      }

  -- The words of the group get one entry.
  abbrev merged : Mask
  merged = merge_words beg m words_per_mask (shift_left ((word - beg) * active_width) (bit ∷ []))

  Sets-merged :
      Sets id m (put_entry (erase_words beg m) beg (some (record { mask = merged; unique = none })))
  Sets-merged =
      let entry : ActiveEntry = record { mask = merged; unique = none } in
      let holds = λ (k b : ℕ). Holds-put_entry (erase_words beg m) beg entry k b in
      let in_mask = λ (b : ℕ).
        Memᴰ-merge_words beg m words_per_mask (shift_left ((word - beg) * active_width) (bit ∷ []))
          b in
      let first = λ (b : ℕ). Memᴰ-shift_left ((word - beg) * active_width) b (bit ∷ []) in
      record {
        covers = λ j. (
          λ (k, b, h, e). elim ((holds k b).0 h) [
            | inr (_, h') ↦ inl (k, b, ((Holds-erase_words beg m k b).0 h').1, e)
            | inl (same, h') ↦ elim ((in_mask b).0 h') [
              | inl own ↦
                  let (low, _, last) = (first b).0 own in
                  let at : b - (word - beg) * active_width ≡ bit = Memᴰ.eq_of_singleton last in
                  inr (omega (arith, low, at, same, e))
              | inr (n, _, low, _, held) ↦
                  inl (beg + n, b - n * active_width, held, omega (arith, low, same, e))
            ]
          ],
          λ either. elim either [
            | inr e ↦
                let own : Memᴰ ((word - beg) * active_width + bit - (word - beg) * active_width)
                    (bit ∷ []) =
                  Memᴰ.head (omega arith) in
                (
                  beg,
                  (word - beg) * active_width + bit,
                  (holds beg ((word - beg) * active_width + bit)).1 (
                      inl (
                        refl,
                        (in_mask ((word - beg) * active_width + bit)).1 (
                            inl (
                              (first ((word - beg) * active_width + bit)).1
                                (omega arith, omega arith, own))),
                      )),
                  omega (arith, e),
                )
            | inl (k, b, h, e) ↦ elim (Bool-cases (leb beg k && ltb k (beg + words_per_mask))) [
              | inl t ↦
                  let n = k - beg in
                  let inside : (beg ≤ k) × (k < beg + words_per_mask) = ground (arith, t) in
                  let at : k ≡ beg + n = omega (arith, inside.0) in
                  let back : b ≡ b + n * active_width - n * active_width = omega arith in
                  let held : Holds m (beg + n) (b + n * active_width - n * active_width) =
                    subst (λ c. Holds m (beg + n) c) back (subst (λ i. Holds m i b) at h) in
                  let bound : b + n * active_width < 64 = omega (arith, fit k b h, inside) in
                  (
                    beg,
                    b + n * active_width,
                    (holds beg (b + n * active_width)).1 (
                        inl (
                          refl,
                          (in_mask (b + n * active_width)).1
                              (inr (n, omega (arith, inside.1), omega arith, bound, held)),
                        )),
                    omega (arith, e, inside.0),
                  )
              | inr t ↦
                  let out : (k < beg) ⊎ (beg + words_per_mask ≤ k) = ground (arith, t) in
                  let ne : k ≢ beg = ground (arith, out) in
                  (k, b, (holds k b).1 (inr (ne, (Holds-erase_words beg m k b).1 (out, h))), e)
            ]
          ],
        );
        fits = λ k b h. elim ((holds k b).0 h) [
          | inr (_, h') ↦ fit k b ((Holds-erase_words beg m k b).0 h').1
          | inl (same, h') ↦ elim ((in_mask b).0 h') [
            | inl own ↦ let (_, high, _) = (first b).0 own in omega (arith, high, same)
            | inr (n, _, _, high, _) ↦ omega (arith, high, same)
          ]
        ];
      }

  pub set_flag-Sets : Sets id m (set_flag id m)
  unfolding set_flag
  set_flag-Sets = elim (Option-cases (m word)) [
    | inr (e, at) ↦ rw (at, set_flag) (rw at at (Sets-own none))
    | inl at ↦ elim (Bool-cases (has_words beg m words_per_mask)) [
      | inl t ↦ rw (at, set_flag, t) Sets-merged
      | inr t ↦ rw (at, set_flag, t) (rw at at (Sets-own (some bit)))
    ]
  ]
