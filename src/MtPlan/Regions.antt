-- ===== src/MtPlan/Regions.antt =====
-- src/cppEmitterMtPlan.cpp: planMtCoarseRegions, the runs of active words that become regions, and
-- mtBuildCoarseRegion up to mtAddCoarseMTasks. Timers are left out. The flag level is mtIsLevelDispatchMode; the
-- loops over words run on fuel, which is superId.
pub mod Scan
pub mod Forward
pub mod Limits
pub mod Frame
use gsim.Prelude.{
  ℕ, zero, suc, ◌+◌, ◌-◌, ◌*◌, ◌/◌, ◌%◌, min, max, Bool, true, false, not, ◌&&◌, ◌||◌, List, [],
  ◌∷◌, ◌++◌, Option, none, some, ltb, leb, ◌==◌, if◌then◌else◌, is_nil,
}
use gsim.MtAnalysis.{
  Design, active_width, active_word_is_whole, can_enter_pure_batch, can_enter_coarse_dispatch,
  find_task, is_pure, is_always_active, has_worker0_only_reason, batch_cost, member_node_cost,
}
use gsim.MtAnalysis.Edges.{dependency_edge_uncached, active_edge_uncached, ordering_edge}
use gsim.MtPlan.{
  CoarseRegion, Blocker, serial_task, data_dependency, active_visibility_edge,
  codegen_runtime_limit, add_coarse_blocker,
}
use gsim.MtPlan.Layers.{add_coarse_layers}

abbrev pub region_span_cap : ℕ
region_span_cap = 192

-- Some number from lo on, among n, passes.
unfoldable pub any_from : (ℕ → Bool) → ℕ → ℕ → Bool
any_from p lo zero = false
any_from p lo (suc n) = let rest = any_from p (suc lo) n in if p lo then true else rest

unfoldable pub all_from : (ℕ → Bool) → ℕ → ℕ → Bool
all_from p lo zero = true
all_from p lo (suc n) = let rest = all_from p (suc lo) n in if p lo then rest else false

unfoldable pub block_if : Bool → Blocker → CoarseRegion → CoarseRegion
block_if b blocker r = record r {
  blockers = if b then add_coarse_blocker blocker r.blockers else r.blockers;
}

-- The tests behind the loops; the region is eligible if it has no blocker.
unfoldable pub note_limits : ℕ → CoarseRegion → CoarseRegion
note_limits threshold r =
    let r1 =
      block_if (not (r.begin_cpp_id % active_width == 0) || not (r.end_cpp_id % active_width == 0))
        codegen_runtime_limit r in
    let r2 = block_if (ltb r.task_count threshold) codegen_runtime_limit r1 in
    let r3 = block_if (leb r.active_word_span 1) codegen_runtime_limit r2 in
    let r4 =
      block_if (not (r.pure_task_count + r.safe_serial_task_count == r.task_count)) serial_task
        r3 in
    record r4 { runtime_eligible = is_nil r4.blockers }

module _ (d : Design) (level : Bool) where
  abbrev pub word_end_of : ℕ → ℕ
  word_end_of word_begin = min d.super_id (word_begin + active_width)

  abbrev pub can_enter : ℕ → Bool
  can_enter i = if level then can_enter_coarse_dispatch d i else can_enter_pure_batch d i

  unfoldable pub word_can_enter_region : ℕ → Bool
  word_can_enter_region word_begin =
      if active_word_is_whole d word_begin
      then if word_end_of word_begin - word_begin == active_width
        then all_from can_enter word_begin (word_end_of word_begin - word_begin)
        else false
      else false

  -- An edge from the word to an id from `begin` on that is before it.
  unfoldable pub has_reverse_edge : ℕ → ℕ → Bool
  has_reverse_edge begin word_begin =
      any_from (λ from. any_from (λ to. ordering_edge d from to) begin (word_begin - begin))
        word_begin (word_end_of word_begin - word_begin)

  unfoldable pub has_same_word_reverse_edge : ℕ → Bool
  has_same_word_reverse_edge word_begin =
      any_from (λ from. any_from (λ to. ordering_edge d from to) word_begin (from - word_begin))
        word_begin (word_end_of word_begin - word_begin)

  -- Whether the loop over the end word breaks.
  unfoldable pub breaks : ℕ → ℕ → Bool
  breaks begin_word end_word =
      let word_begin = end_word * active_width in
      if word_can_enter_region word_begin
      then if level
        then has_same_word_reverse_edge word_begin
          || (has_reverse_edge (begin_word * active_width) word_begin
              || ltb region_span_cap (end_word + 1 - begin_word))
        else false
      else true

  unfoldable pub extend : ℕ → ℕ → ℕ → ℕ
  extend begin_word zero end_word = end_word
  extend begin_word (suc fuel) end_word =
      let rest = extend begin_word fuel (suc end_word) in
      if ltb (end_word * active_width) d.super_id
      then if breaks begin_word end_word then end_word else rest
      else end_word

  -- The first test of a word, and the second one in level dispatch.
  unfoldable pub starts_region : ℕ → Bool
  starts_region begin_word =
      let begin = begin_word * active_width in
      if word_can_enter_region begin
      then if level then not (has_same_word_reverse_edge begin) else true
      else false

  unfoldable pub is_pure_task : ℕ → Bool
  is_pure_task i = elim (find_task d i) [ none ↦ false | some t ↦ is_pure t.task_kind ]

  unfoldable pub is_safe_serial : ℕ → Bool
  is_safe_serial i = elim (find_task d i) [
    | none ↦ false
    | some t ↦
        level
        && (not (is_pure t.task_kind)
            && (not (is_always_active d i) && not (has_worker0_only_reason t.serial_reasons)))
  ]

  -- The loop over the tasks of a region.
  unfoldable pub note_task : ℕ → CoarseRegion → CoarseRegion
  note_task i r =
      let limited =
        if is_always_active d i
        then add_coarse_blocker codegen_runtime_limit r.blockers
        else r.blockers in
      if is_pure_task i
      then record r { blockers = limited }
      else if is_safe_serial i
      then record r {
        pure_task_count = r.pure_task_count - 1;
        serial_blocker_count = r.serial_blocker_count + 1;
        safe_serial_task_count = r.safe_serial_task_count + 1;
        blockers = limited;
      }
      else record r {
        pure_task_count = r.pure_task_count - 1;
        serial_blocker_count = r.serial_blocker_count + 1;
        blockers = add_coarse_blocker serial_task r.blockers;
      }

  unfoldable pub note_tasks : ℕ → ℕ → CoarseRegion → CoarseRegion
  note_tasks begin zero r = r
  note_tasks begin (suc n) r = note_tasks (suc begin) n (note_task begin r)

  -- The body of the loops over pairs of tasks.
  unfoldable pub note_pair : ℕ → ℕ → CoarseRegion → CoarseRegion
  note_pair from to r =
      let depends = dependency_edge_uncached d from to in
      let activates = active_edge_uncached d from to in
      let back = ltb to from in
      let blockers1 =
        if depends && back then add_coarse_blocker data_dependency r.blockers else r.blockers in
      let blockers2 =
        if activates && back
        then add_coarse_blocker active_visibility_edge blockers1
        else blockers1 in
      if from == to then r else record r {
        dependency_edge_count =
            if depends then r.dependency_edge_count + 1 else r.dependency_edge_count;
        active_visibility_edge_count =
            if activates
            then r.active_visibility_edge_count + 1
            else r.active_visibility_edge_count;
        same_cycle_activation_hazard_count =
            if activates && ltb from to
            then r.same_cycle_activation_hazard_count + 1
            else r.same_cycle_activation_hazard_count;
        blockers = blockers2;
      }

  unfoldable pub note_pairs_of : ℕ → ℕ → ℕ → CoarseRegion → CoarseRegion
  note_pairs_of from to zero r = r
  note_pairs_of from to (suc n) r = note_pairs_of from (suc to) n (note_pair from to r)

  unfoldable pub note_pairs : ℕ → ℕ → ℕ → ℕ → CoarseRegion → CoarseRegion
  note_pairs begin size from zero r = r
  note_pairs begin size from (suc n) r =
      note_pairs begin size (suc from) n (note_pairs_of from begin size r)

  unfoldable pub note_layers : CoarseRegion → CoarseRegion
  note_layers r =
      let layered = add_coarse_layers (ordering_edge d) r in
      let eligible = if is_nil layered.layers then false else layered.runtime_eligible in
      let narrow = ltb layered.estimated_max_parallel_width 2 in
      record layered {
        blockers =
            if narrow
            then add_coarse_blocker codegen_runtime_limit layered.blockers
            else layered.blockers;
        runtime_eligible = if narrow then false else eligible;
      }

  abbrev pub first_region : ℕ → ℕ → CoarseRegion
  first_region begin end = record {
    begin_cpp_id = begin;
    end_cpp_id = end;
    begin_active_word = begin / active_width;
    end_active_word = (end - 1) / active_width + 1;
    task_count = end - begin;
    active_word_span = (end - 1) / active_width + 1 - begin / active_width;
    static_cost = batch_cost d begin (end - begin);
    member_node_cost = member_node_cost d begin (end - begin);
    estimated_useful_work =
        max (batch_cost d begin (end - begin)) (member_node_cost d begin (end - begin));
    pure_task_count = end - begin;
    safe_serial_task_count = 0;
    serial_blocker_count = 0;
    dependency_edge_count = 0;
    active_visibility_edge_count = 0;
    same_cycle_activation_hazard_count = 0;
    estimated_layer_count = 0;
    estimated_max_parallel_width = 0;
    mtask_static_cost_total = 0;
    mtask_member_node_cost_total = 0;
    runtime_eligible = false;
    blockers = [];
    layers = [];
    mtasks = [];
  }

  module _ (threshold : ℕ) where
    unfoldable pub build_coarse_region : ℕ → ℕ → CoarseRegion
    build_coarse_region begin end = note_layers (
        note_limits threshold (
          note_pairs begin (end - begin) begin (end - begin)
            (note_tasks begin (end - begin) (first_region begin end))))

    -- The loop over the begin word.
    unfoldable pub regions_loop : ℕ → ℕ → List CoarseRegion → List CoarseRegion
    regions_loop zero begin_word regions = regions
    regions_loop (suc fuel) begin_word regions =
        let end_word = extend begin_word d.super_id begin_word in
        let begin = begin_word * active_width in
        let end = end_word * active_width in
        let wide = leb active_width (end - begin) in
        let skipped = regions_loop fuel (suc begin_word) regions in
        let taken =
          regions_loop fuel (suc (if wide then max begin_word (end_word - 1) else begin_word))
            (if wide then regions ++ build_coarse_region begin end ∷ [] else regions) in
        if ltb begin d.super_id
        then if starts_region begin_word then taken else skipped
        else regions

    unfoldable pub plan_mt_coarse_regions : List CoarseRegion
    plan_mt_coarse_regions = regions_loop d.super_id 0 []
