-- ===== src/MtPlan/Batches/Whole.antt =====
-- planMtPureBatches of src/cppEmitterMtPlan.cpp as a whole.
use gsim.Prelude.{
  ℕ, zero, suc, ◌+◌, ◌-◌, ◌/◌, ◌≤◌, ◌<◌, min, Bool, true, false, ◌&&◌, [], ◌∷◌, ◌++◌, ltb, ◌==◌,
  if◌then◌else◌, ◌≡◌, refl, sym, arith, Bool-cases, inl, inr, Memᴰ-concat, ==_iff, ltb→lt,
}
use mathlib.Core.Path.{subst}
use mathlib.Core.List.{Memᴰ}
use mathlib.Core.List.Memᴰ
use gsim.MtAnalysis.{Design, can_enter_pure_batch, active_width, active_word_is_whole}
use gsim.MtAnalysis.Edges.{have_edge, can_join_pure_batch, no_edge_to}
use gsim.MtPlan.Batches.{
  PureBatchPlan, BatchFormationMode, active_frequency, coarse, other_mode, no_batches, push_batch,
  grow, legacy_inside, legacy_loop, plan_mt_pure_batches_legacy,
  plan_mt_pure_batches_active_frequency, plan_mt_pure_batches,
}
use gsim.MtPlan.Batches.Apart.{Follow, IsBatch, Good}
use gsim.MtPlan.Batches.Legacy.{legacy_loop-Good, legacy-IsBatch}
use gsim.MtPlan.Batches.Grow.{ids, grow_stops}
use gsim.MtPlan.Batches.Words.{words_loop-Good}

module _ (d : Design) where
  Good-none : (hi : ℕ) → Good d no_batches hi
  Good-none hi = record { each = λ r m. absurd (Memᴰ.not-nil m); follow = omega arith }

  plan_mt_pure_batches-Good :
      (threshold : ℕ) (mode : BatchFormationMode)
      → Good d (plan_mt_pure_batches d threshold mode) d.super_id
  unfolding plan_mt_pure_batches plan_mt_pure_batches_active_frequency plan_mt_pure_batches_legacy
  plan_mt_pure_batches-Good threshold active_frequency =
      words_loop-Good d threshold d.super_id 0 no_batches (omega arith)
        (Good-none (min d.super_id 0))
  plan_mt_pure_batches-Good threshold coarse =
      words_loop-Good d threshold d.super_id 0 no_batches (omega arith)
        (Good-none (min d.super_id 0))
  plan_mt_pure_batches-Good threshold other_mode =
      legacy_loop-Good d d.super_id 0 no_batches (Good-none 0) (omega arith)

  -- A batch that planMtPureBatches plans, in any mode, has two tasks or more, in one active word
  -- and below superId; each may enter a pure batch and no two have an edge; and the next task of
  -- the word, if there is one, can not join it.
  pub plan_mt_pure_batches-IsBatch :
      (threshold : ℕ) (mode : BatchFormationMode) (r : ℕ × ℕ)
      → Memᴰ r (plan_mt_pure_batches d threshold mode).batches
      → IsBatch d r
  plan_mt_pure_batches-IsBatch threshold mode = (plan_mt_pure_batches-Good threshold mode).each

  -- The batches follow each other.
  pub plan_mt_pure_batches-Follow :
      (threshold : ℕ) (mode : BatchFormationMode)
      → Follow 0 (plan_mt_pure_batches d threshold mode).batches d.super_id
  plan_mt_pure_batches-Follow threshold mode = (plan_mt_pure_batches-Good threshold mode).follow

  abbrev pub InBatch : PureBatchPlan → ℕ → Type 0
  InBatch plan j = (r : ℕ × ℕ) × Memᴰ r plan.batches × (r.0 ≤ j) × (j < r.1)

  Memᴰ-push_batch :
      (plan : PureBatchPlan) (b : Bool) (begin e : ℕ) (r : ℕ × ℕ)
      → Memᴰ r plan.batches
      → Memᴰ r (push_batch b begin e plan).batches
  unfolding push_batch
  Memᴰ-push_batch plan true begin e r m = (Memᴰ-concat r (begin, e) plan.batches).1 (inl m)
  Memᴰ-push_batch plan false begin e r m = m

  pushed :
      (plan : PureBatchPlan) (begin e : ℕ) → Memᴰ (begin, e) (push_batch true begin e plan).batches
  unfolding push_batch
  pushed plan begin e = (Memᴰ-concat (begin, e) (begin, e) plan.batches).1 (inr refl)

  Memᴰ-legacy_loop :
      (fuel i : ℕ) (plan : PureBatchPlan) (r : ℕ × ℕ)
      → Memᴰ r plan.batches
      → Memᴰ r (legacy_loop d fuel i plan).batches
  unfolding legacy_loop
  Memᴰ-legacy_loop zero i plan r m = m
  Memᴰ-legacy_loop (suc fuel) i plan r m = elim (Bool-cases (ltb i d.super_id)) [
    | inr done ↦ rw done m
    | inl more ↦ elim (Bool-cases (active_word_is_whole d i && can_enter_pure_batch d i)) [
      | inr skip ↦ rw (more, skip) (Memᴰ-legacy_loop fuel (suc i) plan r m)
      | inl take ↦
          let e = grow d (legacy_inside d i) d.super_id (i ∷ []) (suc i) in
          let long = ltb 1 (e - i) in
          rw (more, take)
            (Memᴰ-legacy_loop fuel (if long then suc (e - 1) else suc i) (push_batch long i e plan)
              r (Memᴰ-push_batch plan long i e r m))
    ]
  ]

  -- A task and the next one: both may enter a batch, in one active word without a task that is always active
  -- there and after it, and they have no edge.
  pub record CanPair (j : ℕ) : Type 0 where
    pub bounded : suc j < d.super_id
    pub whole : active_word_is_whole d j ≡ true
    pub first : can_enter_pure_batch d j ≡ true
    pub second : can_enter_pure_batch d (suc j) ≡ true
    pub one_word : suc j / active_width ≡ j / active_width
    pub free : have_edge d j (suc j) ≡ false

  nested :
      (a b : Bool)
      → a ≡ true
      → b ≡ false
      → (if a then (if b then false else true) else false) ≡ true
  nested a b h e = ground (arith, h, e)

  joins_one : (j : ℕ) → CanPair j → can_join_pure_batch d (j ∷ []) (suc j) ≡ true
  unfolding can_join_pure_batch no_edge_to
  joins_one j pair =
      nested (can_enter_pure_batch d (suc j)) (have_edge d j (suc j)) pair.second pair.free

  -- The loop adds the second of them to the batch of the first.
  pair_grows : (j : ℕ) → CanPair j → suc j < grow d (legacy_inside d j) d.super_id (j ∷ []) (suc j)
  pair_grows j pair =
      let inside = legacy_inside d j in
      let e = grow d inside d.super_id (j ∷ []) (suc j) in
      let (fwd, _, _) = legacy-IsBatch d j (omega (arith, pair.bounded)) pair.first in
      elim (Bool-cases (e == suc j)) [
        | inr t ↦ ground (arith, t, ==_iff e (suc j), fwd)
        | inl t ↦
            let same = (==_iff e (suc j)).0 t in
            let none : suc j - suc j ≡ 0 = omega arith in
            let stop =
              grow_stops d inside d.super_id d.super_id (j ∷ []) (suc j)
                (λ k low. ground (arith, low)) (omega arith) in
            let at_next =
              subst
                (λ k.
                  (inside k && can_join_pure_batch d ((j ∷ []) ++ ids (suc j) (k - suc j)) k)
                  ≡ false)
                same stop in
            let at_one =
              subst
                (λ n.
                  (inside (suc j) && can_join_pure_batch d ((j ∷ []) ++ ids (suc j) n) (suc j))
                  ≡ false)
                none at_next in
            absurd (
              ground (
                arith,
                at_one,
                joins_one j pair,
                pair.bounded,
                pair.one_word,
                ==_iff (suc j / 8) (j / 8),
              ))
      ]

  legacy_loop_covers :
      (fuel i : ℕ) (plan : PureBatchPlan) (j : ℕ)
      → d.super_id ≤ i + fuel
      → i ≤ j
      → CanPair j
      → InBatch (legacy_loop d fuel i plan) j
  unfolding legacy_loop
  legacy_loop_covers zero i plan j enough l pair = absurd (omega (arith, enough, l, pair.bounded))
  legacy_loop_covers (suc fuel) i plan j enough l pair =
      let more : ltb i d.super_id ≡ true = ground (arith, l, pair.bounded) in
      elim (Bool-cases (active_word_is_whole d i && can_enter_pure_batch d i)) [
        | inr skip ↦ elim (Bool-cases (i == j)) [
          | inl t ↦
              let same = (==_iff i j).0 t in
              let taken =
                subst (λ k. (active_word_is_whole d k && can_enter_pure_batch d k) ≡ false) same
                  skip in
              absurd (ground (arith, taken, pair.whole, pair.first))
          | inr t ↦
              rw (more, skip)
                (legacy_loop_covers fuel (suc i) plan j (omega (arith, enough))
                  (ground (arith, l, t, ==_iff i j)) pair)
        ]
        | inl take ↦
            let e = grow d (legacy_inside d i) d.super_id (i ∷ []) (suc i) in
            let (fwd, _, _) = legacy-IsBatch d i (ground (arith, more)) (ground (arith, take)) in
            let next : (if ltb 1 (e - i) then suc (e - 1) else suc i) ≡ e = ground (arith, fwd) in
            elim (Bool-cases (ltb j e)) [
              | inr after ↦
                  rw (more, take)
                    (rw next (
                      legacy_loop_covers fuel e (push_batch (ltb 1 (e - i)) i e plan) j
                        (omega (arith, enough, fwd)) (ground (arith, after)) pair))
              | inl before ↦
                  let long : ltb 1 (e - i) ≡ true = elim (Bool-cases (i == j)) [
                    | inl t ↦
                        let pair_i = subst CanPair (sym ((==_iff i j).0 t)) pair in
                        ground (arith, pair_grows i pair_i)
                    | inr t ↦ ground (arith, t, ==_iff i j, before, l)
                  ] in
                  rw (more, take)
                    (rw (next, long)
                      (
                        (i, e),
                        (Memᴰ-legacy_loop fuel e (push_batch true i e plan) (i, e)
                            (pushed plan i e)),
                        l,
                        ltb→lt j e before,
                      ))
            ]
      ]

  -- In the legacy mode, two tasks next to each other in one active word that may enter a batch and
  -- have no edge leave the first of them in a batch, if no task from there to seven on is always
  -- active.
  pub plan_mt_pure_batches_legacy_covers :
      (threshold j : ℕ) → CanPair j → InBatch (plan_mt_pure_batches d threshold other_mode) j
  unfolding plan_mt_pure_batches plan_mt_pure_batches_legacy
  plan_mt_pure_batches_legacy_covers threshold j pair =
      legacy_loop_covers d.super_id 0 no_batches j (omega arith) (omega arith) pair
