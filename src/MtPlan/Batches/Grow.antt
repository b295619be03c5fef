-- ===== src/MtPlan/Batches/Grow.antt =====
-- The loop of src/cppEmitterMtPlan.cpp that adds tasks to a batch.
use gsim.Prelude.{
  ℕ, zero, suc, ◌+◌, ◌-◌, ◌≤◌, ◌<◌, Bool, true, false, ◌&&◌, List, [], ◌∷◌, ◌++◌, ◌==◌,
  if◌then◌else◌, ◌≡◌, ap, sym, ◌∙◌, arith, Bool-cases, inl, inr, Memᴰ-cons, Memᴰ-concat, ==_iff,
}
use mathlib.Core.Path.{subst}
use mathlib.Core.List.{Memᴰ, append_assoc, append-nil}
use mathlib.Core.List.Memᴰ
use gsim.MtAnalysis.{Design, can_enter_pure_batch}
use gsim.MtAnalysis.Edges.{have_edge, no_edge_to, can_join_pure_batch}
use gsim.MtPlan.Batches.{grow}

-- The ids from b on.
abbrev pub ids : ℕ → ℕ → List ℕ
ids b zero = []
ids b (suc n) = b ∷ ids (suc b) n

module _ (d : Design) where
  no_edge_to-member :
      (batch : List ℕ) (i j : ℕ)
      → no_edge_to d batch j ≡ true
      → Memᴰ i batch
      → have_edge d i j ≡ false
  unfolding no_edge_to
  no_edge_to-member [] i j h m = absurd (Memᴰ.not-nil m)
  no_edge_to-member (e ∷ es) i j h m = elim ((Memᴰ-cons i e es).0 m) [
    | inl same ↦ subst (λ k. have_edge d k j ≡ false) (sym same) (ground (arith, h))
    | inr later ↦ no_edge_to-member es i j (ground (arith, h)) later
  ]

  both : (a b : Bool) → (if a then b else false) ≡ true → (a ≡ true) × (b ≡ true)
  both a b h = ground (arith, h)

  can_join_iff :
      (batch : List ℕ) (j : ℕ)
      → can_join_pure_batch d batch j ≡ true
      → (can_enter_pure_batch d j ≡ true) × (no_edge_to d batch j ≡ true)
  unfolding can_join_pure_batch
  can_join_iff batch j h = both (can_enter_pure_batch d j) (no_edge_to d batch j) h

  -- Tasks that can run in any order: each may enter, and no two have an edge.
  pub record IsRun (b e : ℕ) : Type 0 where
    pub enters : (i : ℕ) → b ≤ i → i < e → can_enter_pure_batch d i ≡ true
    pub apart : (i j : ℕ) → b ≤ i → i < j → j < e → have_edge d i j ≡ false

  IsRun-suc :
      (b e : ℕ)
      → IsRun b e
      → can_enter_pure_batch d e ≡ true
      → ((i : ℕ) → b ≤ i → i < e → have_edge d i e ≡ false)
      → IsRun b (suc e)
  IsRun-suc b e run enter free = record {
    enters = λ i low high. elim (Bool-cases (i == e)) [
      | inl t ↦ subst (λ k. can_enter_pure_batch d k ≡ true) (sym ((==_iff i e).0 t)) enter
      | inr t ↦ run.enters i low (ground (arith, high, t, ==_iff i e))
    ];
    apart = λ i j low less high. elim (Bool-cases (j == e)) [
      | inl t ↦
          let same = (==_iff j e).0 t in
          subst (λ k. have_edge d i k ≡ false) (sym same) (free i low (omega (arith, less, same)))
      | inr t ↦ run.apart i j low less (ground (arith, high, t, ==_iff j e))
    ];
  }

  module _ (inside : ℕ → Bool) (b : ℕ) where
    pub record Grown (end e : ℕ) : Type 0 where
      pub forward : end ≤ e
      pub run : IsRun b e
      pub within : (i : ℕ) → end ≤ i → i < e → inside i ≡ true

    pub grow-Grown :
        (fuel : ℕ) (batch : List ℕ) (end : ℕ)
        → ((i : ℕ) → b ≤ i → i < end → Memᴰ i batch)
        → IsRun b end
        → Grown end (grow d inside fuel batch end)
    unfolding grow
    grow-Grown zero batch end held run = record {
      forward = omega arith;
      run = run;
      within = λ i low high. absurd (omega (arith, low, high));
    }
    grow-Grown (suc fuel) batch end held run =
        elim (Bool-cases (inside end && can_join_pure_batch d batch end)) [
          | inr stop ↦ rw stop record {
            forward = omega arith;
            run = run;
            within = λ i low high. absurd (omega (arith, low, high));
          }
          | inl go ↦
              let in_end : inside end ≡ true = ground (arith, go) in
              let (enter, free) = can_join_iff batch end (ground (arith, go)) in
              let more =
                grow-Grown fuel (batch ++ end ∷ []) (suc end)
                  (λ i low high. ground (arith, held i low, high, Memᴰ-concat i end batch))
                  (IsRun-suc b end run enter
                    (λ i low high. no_edge_to-member batch i end free (held i low high))) in
              rw go record {
                forward = omega (arith, more.forward);
                run = more.run;
                within = λ i low high. elim (Bool-cases (i == end)) [
                  | inl t ↦ subst (λ k. inside k ≡ true) (sym ((==_iff i end).0 t)) in_end
                  | inr t ↦ more.within i (ground (arith, low, t, ==_iff i end)) high
                ];
              }
        ]

  grow_forward :
      (inside : ℕ → Bool) (fuel : ℕ) (batch : List ℕ) (end : ℕ) → end ≤ grow d inside fuel batch end
  unfolding grow
  grow_forward inside zero batch end = omega arith
  grow_forward inside (suc fuel) batch end =
      elim (Bool-cases (inside end && can_join_pure_batch d batch end)) [
        | inl go ↦ rw go (omega (arith, grow_forward inside fuel (batch ++ end ∷ []) (suc end)))
        | inr stop ↦ rw stop (omega arith)
      ]

  ids-next :
      (batch : List ℕ) (end e : ℕ)
      → suc end ≤ e
      → (batch ++ end ∷ []) ++ ids (suc end) (e - suc end) ≡ batch ++ ids end (e - end)
  ids-next batch end e l =
      let next : suc (e - suc end) ≡ e - end = omega (arith, l) in
      append_assoc batch (end ∷ []) (ids (suc end) (e - suc end))
      ∙ ap (λ n. batch ++ ids end n) next

  -- With enough fuel it stops where the next task can not be added.
  pub grow_stops :
      (inside : ℕ → Bool) (limit fuel : ℕ) (batch : List ℕ) (end : ℕ)
      → ((i : ℕ) → limit ≤ i → inside i ≡ false)
      → limit ≤ end + fuel
      → (inside (grow d inside fuel batch end)
          && can_join_pure_batch d
              (batch ++ ids end (grow d inside fuel batch end - end))
              (grow d inside fuel batch end))
        ≡ false
  unfolding grow
  grow_stops inside limit zero batch end out enough = ground (arith, out end, enough)
  grow_stops inside limit (suc fuel) batch end out enough =
      elim (Bool-cases (inside end && can_join_pure_batch d batch end)) [
        | inl go ↦
            let e = grow d inside fuel (batch ++ end ∷ []) (suc end) in
            let l = grow_forward inside fuel (batch ++ end ∷ []) (suc end) in
            rw go (
              subst (λ held. (inside e && can_join_pure_batch d held e) ≡ false)
                (ids-next batch end e l)
                (grow_stops inside limit fuel (batch ++ end ∷ []) (suc end) out
                  (omega (arith, enough))))
        | inr stop ↦ let here : end - end ≡ 0 = omega arith in rw (stop, here, append-nil) stop
      ]
