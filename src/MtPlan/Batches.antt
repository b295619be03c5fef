-- ===== src/MtPlan/Batches.antt =====
-- src/cppEmitterMtPlan.cpp, planMtPureBatches: runs of tasks that are executed together. A while or for loop
-- over ids runs on fuel, which is superId: each round moves on by one id or more.
pub mod Grow
pub mod Apart
pub mod Legacy
pub mod Words
pub mod Whole
use gsim.Prelude.{
  ℕ, zero, suc, ◌+◌, ◌-◌, ◌/◌, min, max, Bool, true, false, not, ◌&&◌, List, [], ◌∷◌, ◌++◌, ltb,
  leb, ◌==◌, if◌then◌else◌,
}
use gsim.MtAnalysis.{Design, active_width, active_word_is_whole, can_enter_pure_batch, batch_cost}
use gsim.MtAnalysis.Edges.{can_join_pure_batch}

-- MtPureBatchPlan.
pub record PureBatchPlan : Type 0 where
  pub batches : List (ℕ × ℕ)
  pub segment_count : ℕ

-- The values of MtBatchFormationMode that the code tells apart.
pub data BatchFormationMode : Type 0 where
  active_frequency coarse other_mode : BatchFormationMode

abbrev pub no_batches : PureBatchPlan
no_batches = record { batches = []; segment_count = 0 }

unfoldable pub push_batch : Bool → ℕ → ℕ → PureBatchPlan → PureBatchPlan
push_batch b begin end plan = record {
  batches = if b then plan.batches ++ (begin, end) ∷ [] else plan.batches;
  segment_count = plan.segment_count + 1;
}

module _ (d : Design) where
  -- The loop that adds tasks to a batch while they are inside and can join: the end of the batch.
  unfoldable pub grow : (ℕ → Bool) → ℕ → List ℕ → ℕ → ℕ
  grow inside zero batch end = end
  grow inside (suc fuel) batch end =
      let rest = grow inside fuel (batch ++ end ∷ []) (suc end) in
      if inside end && can_join_pure_batch d batch end then rest else end

  abbrev pub legacy_inside : ℕ → ℕ → Bool
  legacy_inside i end = ltb end d.super_id && (end / active_width == i / active_width)

  unfoldable pub legacy_loop : ℕ → ℕ → PureBatchPlan → PureBatchPlan
  legacy_loop zero i plan = plan
  legacy_loop (suc fuel) i plan =
      let end = grow (legacy_inside i) d.super_id (i ∷ []) (suc i) in
      let long = ltb 1 (end - i) in
      let skipped = legacy_loop fuel (suc i) plan in
      let taken =
        legacy_loop fuel (if long then suc (end - 1) else suc i) (push_batch long i end plan) in
      if ltb i d.super_id
      then if active_word_is_whole d i && can_enter_pure_batch d i then taken else skipped
      else plan

  unfoldable pub plan_mt_pure_batches_legacy : PureBatchPlan
  plan_mt_pure_batches_legacy = legacy_loop d.super_id 0 no_batches

  -- The loop that skips what can not enter a batch.
  unfoldable pub skip_to : ℕ → ℕ → ℕ → ℕ
  unfolding can_enter_pure_batch
  skip_to word_end zero i = i
  skip_to word_end (suc fuel) i =
      let rest = skip_to word_end fuel (suc i) in
      if ltb i word_end && not (can_enter_pure_batch d i) then rest else i

  module _ (threshold : ℕ) where
    abbrev pub worth : ℕ → ℕ → Bool
    worth begin end = ltb 1 (end - begin) && leb threshold (batch_cost d begin (end - begin))

    unfoldable pub word_loop : ℕ → ℕ → ℕ → PureBatchPlan → PureBatchPlan
    word_loop word_end zero i plan = plan
    word_loop word_end (suc fuel) i plan =
        let begin = skip_to word_end active_width i in
        let end = grow (λ e. ltb e word_end) active_width [] begin in
        let rest =
          word_loop word_end fuel (max end (begin + 1))
            (push_batch (worth begin end) begin end plan) in
        if ltb i word_end then if leb word_end begin then plan else rest else plan

    unfoldable pub words_loop : ℕ → ℕ → PureBatchPlan → PureBatchPlan
    words_loop zero word_begin plan = plan
    words_loop (suc fuel) word_begin plan =
        let word_end = min d.super_id (word_begin + active_width) in
        let skipped = words_loop fuel (word_begin + active_width) plan in
        let taken =
          words_loop fuel (word_begin + active_width)
            (word_loop word_end active_width word_begin plan) in
        if ltb word_begin d.super_id
        then if active_word_is_whole d word_begin then taken else skipped
        else plan

    unfoldable pub plan_mt_pure_batches_active_frequency : PureBatchPlan
    plan_mt_pure_batches_active_frequency = words_loop d.super_id 0 no_batches

    unfoldable pub plan_mt_pure_batches : BatchFormationMode → PureBatchPlan
    plan_mt_pure_batches active_frequency = plan_mt_pure_batches_active_frequency
    plan_mt_pure_batches coarse = plan_mt_pure_batches_active_frequency
    plan_mt_pure_batches other_mode = plan_mt_pure_batches_legacy
