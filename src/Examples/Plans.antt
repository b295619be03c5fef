-- ===== src/Examples/Plans.antt =====
-- The theorems on the plan of the multi-threaded emission at concrete inputs.
use gsim.Prelude.{
  ℕ, zero, suc, ◌+◌, ◌<◌, ◌≤◌, Bool, true, false, [], ◌∷◌, none, some, ltb, ◌≡◌, refl,
  if◌then◌else◌, ◌∙◌, arith, occurs, ◌↔◌,
}
use mathlib.Core.List.{Memᴰ, cons≢nil}
use mathlib.Core.Path.{subst, sym}
use gsim.Circuit.{super_valid}
use gsim.MtAnalysis.{
  BoundaryInfo, Design, find_task, can_enter_coarse_dispatch, classify_mt_task, serial_reasons_of,
  reason_if, super_reason, task_with, is_always_active, can_enter_pure_batch, none_always_active,
}
use gsim.MtAnalysis.Edges.{
  Caches, has_cpp_id, any_member_activates, tasks_have_edge, no_edge_to, can_join_pure_batch,
  has_ordering_edge, ordering_edge,
}
use gsim.MtAnalysis.Edges.Caching.{has_ordering_edge_lem, Coherent}
use gsim.MtAnalysis.Edges.{dependency_edge_uncached, active_edge_uncached}
use gsim.MtPlan.{CoarseRegion, CoarseMTask}
use gsim.MtPlan.Layers.{
  set_at, note_edge, note_to, note_from, layer_below, decrement, emit, emit_all, layer_loop,
  add_coarse_layers,
}
use gsim.MtPlan.Layers.Loop.{layer_of}
use gsim.MtPlan.Layers.Whole.{Blocked}
use gsim.MtPlan.Layers.Regions.{Ranking, add_coarse_layers_orders, add_coarse_layers-Blocked_iff}
use gsim.MtPlan.Batches.{
  other_mode, push_batch, grow, legacy_loop, plan_mt_pure_batches_legacy, plan_mt_pure_batches,
}
use gsim.MtPlan.Batches.Apart.{IsBatch}
use gsim.MtPlan.Batches.Whole.{
  CanPair, InBatch, plan_mt_pure_batches-IsBatch, plan_mt_pure_batches_legacy_covers,
}
use gsim.MtPlan.Regions.{
  plan_mt_coarse_regions, build_coarse_region, regions_loop, extend, breaks, starts_region,
  word_can_enter_region, all_from, any_from, has_same_word_reverse_edge, has_reverse_edge,
}
use gsim.MtPlan.Regions.Forward.{IsDispatchable, plan_mt_coarse_regions-IsDispatchable}
use gsim.MtPlan.Workers.{
  static_policy, cap_by, static_cap, static_recommended_workers, static_admits_region,
  recommended_workers, admits_region, build_assignment, mtask_cost,
}
use gsim.MtPlan.Workers.Bounds.{recommended_workers_admitted}
use gsim.MtPlan.Workers.Deal.{sum_below}
use gsim.MtPlan.Workers.Balance.{build_assignment_deals, build_assignment_even}

abbrev mtask_of : ℕ → CoarseMTask
mtask_of cost = record {
  layer_task_cpp_ids = [];
  task_count = 1;
  static_cost = cost;
  member_node_cost = 8;
  ordering_edge_count = 0;
}

-- The tasks 8 to 11, in four mtasks.
abbrev region : CoarseRegion
region = record {
  begin_cpp_id = 8;
  end_cpp_id = 12;
  begin_active_word = 1;
  end_active_word = 2;
  task_count = 4;
  active_word_span = 1;
  pure_task_count = 4;
  safe_serial_task_count = 0;
  serial_blocker_count = 0;
  dependency_edge_count = 0;
  active_visibility_edge_count = 0;
  same_cycle_activation_hazard_count = 0;
  static_cost = 15;
  member_node_cost = 32;
  estimated_useful_work = 32;
  estimated_layer_count = 0;
  estimated_max_parallel_width = 2;
  mtask_static_cost_total = 15;
  mtask_member_node_cost_total = 32;
  runtime_eligible = true;
  blockers = [];
  layers = [];
  mtasks = mtask_of 5 ∷ mtask_of 4 ∷ mtask_of 3 ∷ mtask_of 3 ∷ [];
}

-- An edge from each task to the tasks behind the next one.
abbrev two_on : ℕ → ℕ → Bool
two_on from to = ltb (from + 1) to

two_on-Ranking : Ranking two_on region (λ i. i)
two_on-Ranking from to f t ne e = ground (arith, e)

region_layers : (add_coarse_layers two_on region).layers ≡ (8 ∷ 9 ∷ []) ∷ (10 ∷ 11 ∷ []) ∷ []
unfolding add_coarse_layers layer_loop layer_below emit_all emit decrement note_from note_to
    note_edge set_at
region_layers = refl

add_coarse_layers_orders_example :
    layer_of (add_coarse_layers two_on region).layers 8
    < layer_of (add_coarse_layers two_on region).layers 11
add_coarse_layers_orders_example =
    add_coarse_layers_orders two_on region (omega arith) refl 8 11 (omega arith, omega arith)
      (omega arith, omega arith) (λ e. omega (arith, e)) refl
      (λ e. cons≢nil (sym region_layers ∙ e))

add_coarse_layers-Blocked_iff_example :
    Blocked (add_coarse_layers (λ from to. true) region)
    ↔ ((rank : ℕ → ℕ) → ¬ (Ranking (λ from to. true) region rank))
add_coarse_layers-Blocked_iff_example =
    add_coarse_layers-Blocked_iff (λ from to. true) region (omega arith) refl

abbrev no_flags : BoundaryInfo
no_flags = record {
  has_state_update = false;
  has_memory_write = false;
  has_memory_read = false;
  has_reset = false;
  has_async_reset = false;
  has_activate_all_path = false;
  has_external = false;
  has_special = false;
  has_unknown_node = false;
  has_unknown_op = false;
  has_array_or_dynamic_index = false;
}

-- Three tasks with an edge from the first to the last.
abbrev three : Design
three = record {
  super_id = 3;
  super_at = λ i. record {
    super_kind = super_valid;
    boundary_info = no_flags;
    boundary_cost = 2;
    prev = [];
    next = elim i [ zero ↦ some 2 ∷ [] | suc j ↦ [] ];
    dep_prev = [];
    dep_next = [];
    member = [];
  };
  always_active = [];
}

three_batches : (plan_mt_pure_batches three 0 other_mode).batches ≡ (0, 2) ∷ []
unfolding plan_mt_pure_batches plan_mt_pure_batches_legacy legacy_loop grow push_batch
    can_join_pure_batch no_edge_to tasks_have_edge any_member_activates has_cpp_id
    can_enter_pure_batch find_task is_always_active none_always_active classify_mt_task
    serial_reasons_of reason_if super_reason task_with
three_batches = refl

plan_mt_pure_batches-IsBatch_example : IsBatch three (0, 2)
plan_mt_pure_batches-IsBatch_example =
    plan_mt_pure_batches-IsBatch three 0 other_mode (0, 2)
      (subst (Memᴰ (0, 2)) (sym three_batches) (Memᴰ.head refl))

three-CanPair : CanPair three 0
unfolding can_enter_pure_batch none_always_active tasks_have_edge
three-CanPair = record {
  bounded = omega arith;
  whole = refl;
  first = refl;
  second = refl;
  one_word = refl;
  free = refl;
}

plan_mt_pure_batches_legacy_covers_example :
    InBatch three (plan_mt_pure_batches three 0 other_mode) 0
plan_mt_pure_batches_legacy_covers_example =
    plan_mt_pure_batches_legacy_covers three 0 0 three-CanPair

abbrev empty_caches : Caches
empty_caches = record { dependency = λ k. none; active = λ k. none }

has_ordering_edge_lem_example :
    ((has_ordering_edge three true 0 2 empty_caches).0 ≡ ordering_edge three 0 2)
    × Coherent
        (dependency_edge_uncached three)
        (has_ordering_edge three true 0 2 empty_caches).1.dependency
    × Coherent (active_edge_uncached three) (has_ordering_edge three true 0 2 empty_caches).1.active
has_ordering_edge_lem_example =
    has_ordering_edge_lem three true 0 2 empty_caches (omega arith) (omega arith)
      (λ i j hi hj v e. cc) (λ i j hi hj v e. cc)

two_workers : recommended_workers region static_policy 2 ≡ 2
unfolding recommended_workers static_recommended_workers static_cap cap_by
two_workers = refl

recommended_workers_admitted_example :
    admits_region region static_policy (recommended_workers region static_policy 2) ≡ true
recommended_workers_admitted_example =
    recommended_workers_admitted region static_policy 2 (omega arith) (omega arith)
      (omega (arith, two_workers))

build_assignment_deals_example :
    sum_below
      (λ w. occurs 1 ((build_assignment region 2 static_policy).loads.mtask_indices w))
      (build_assignment region 2 static_policy).effective_workers
    ≡ 1
build_assignment_deals_example = build_assignment_deals region 2 static_policy 1 (omega arith)

mtask_cost_le : (i : ℕ) → mtask_cost region i ≤ 5
mtask_cost_le zero = omega arith
mtask_cost_le (suc zero) = omega arith
mtask_cost_le (suc (suc zero)) = omega arith
mtask_cost_le (suc (suc (suc zero))) = omega arith
mtask_cost_le (suc (suc (suc (suc i)))) = omega arith

assigned_workers : (build_assignment region 2 static_policy).effective_workers ≡ 2
unfolding build_assignment recommended_workers static_recommended_workers static_cap cap_by
    admits_region static_admits_region
assigned_workers = refl

build_assignment_even_example :
    (build_assignment region 2 static_policy).loads.static_costs 1
    ≤ (build_assignment region 2 static_policy).loads.static_costs 0 + 5
build_assignment_even_example =
    build_assignment_even region 2 static_policy 5 mtask_cost_le (omega arith) 1 0
      (omega (arith, assigned_workers)) (omega (arith, assigned_workers))

-- One word of tasks, with an edge from each to the last.
abbrev eight : Design
eight = record {
  super_id = 8;
  super_at = λ i. record {
    super_kind = super_valid;
    boundary_info = no_flags;
    boundary_cost = 2;
    prev = [];
    next = if ltb i 7 then some 7 ∷ [] else [];
    dep_prev = [];
    dep_next = [];
    member = [];
  };
  always_active = [];
}

eight_regions : plan_mt_coarse_regions eight true 2 ≡ build_coarse_region eight true 2 0 8 ∷ []
unfolding plan_mt_coarse_regions regions_loop extend breaks starts_region word_can_enter_region
    all_from any_from has_same_word_reverse_edge has_reverse_edge dependency_edge_uncached
    active_edge_uncached any_member_activates has_cpp_id can_enter_coarse_dispatch find_task
    is_always_active none_always_active classify_mt_task serial_reasons_of reason_if super_reason
    task_with
eight_regions = refl

plan_mt_coarse_regions-IsDispatchable_example :
    IsDispatchable eight (build_coarse_region eight true 2 0 8)
plan_mt_coarse_regions-IsDispatchable_example =
    plan_mt_coarse_regions-IsDispatchable eight 2 (build_coarse_region eight true 2 0 8)
      (subst (Memᴰ (build_coarse_region eight true 2 0 8)) (sym eight_regions) (Memᴰ.head refl))
