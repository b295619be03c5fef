-- ===== src/MtPlan.antt =====
-- src/cppEmitterMtPlan.cpp: the plan of a coarse region, which tasks of it run beside each other. The types
-- are those of src/cppEmitterImpl.h. The ids, counts and costs are not negative and do not overflow.
pub mod Layers
pub mod Batches
pub mod Workers
pub mod Regions
use gsim.Prelude.{
  ℕ, zero, suc, ◌+◌, ◌-◌, ◌*◌, ◌/◌, Bool, true, false, not, ◌&&◌, ◌||◌, List, [], ◌∷◌, ◌++◌, Option,
  none, some, ltb, leb, ◌==◌, if◌then◌else◌, length,
}

-- The strings of MtCoarseRegion::blockers.
pub data Blocker : Type 0 where
  serial_task data_dependency active_visibility_edge codegen_runtime_limit : Blocker

abbrev pub blocker_number : Blocker → ℕ
blocker_number serial_task = 0
blocker_number data_dependency = 1
blocker_number active_visibility_edge = 2
blocker_number codegen_runtime_limit = 3

-- MtCoarseMTask.
pub record CoarseMTask : Type 0 where
  pub layer_task_cpp_ids : List (List ℕ)
  pub task_count : ℕ
  pub static_cost : ℕ
  pub member_node_cost : ℕ
  pub ordering_edge_count : ℕ

-- MtCoarseRegion but the fields that only the report reads.
pub record CoarseRegion : Type 0 where
  pub begin_cpp_id : ℕ
  pub end_cpp_id : ℕ
  pub begin_active_word : ℕ
  pub end_active_word : ℕ
  pub task_count : ℕ
  pub active_word_span : ℕ
  pub static_cost : ℕ
  pub member_node_cost : ℕ
  pub estimated_useful_work : ℕ
  pub pure_task_count : ℕ
  pub safe_serial_task_count : ℕ
  pub serial_blocker_count : ℕ
  pub dependency_edge_count : ℕ
  pub active_visibility_edge_count : ℕ
  pub same_cycle_activation_hazard_count : ℕ
  pub estimated_layer_count : ℕ
  pub estimated_max_parallel_width : ℕ
  pub mtask_static_cost_total : ℕ
  pub mtask_member_node_cost_total : ℕ
  pub runtime_eligible : Bool
  pub blockers : List Blocker
  pub layers : List (List ℕ)
  pub mtasks : List CoarseMTask

unfoldable pub has_blocker : Blocker → List Blocker → Bool
has_blocker b [] = false
has_blocker b (c ∷ cs) =
    let rest = has_blocker b cs in if blocker_number c == blocker_number b then true else rest

unfoldable pub add_coarse_blocker : Blocker → List Blocker → List Blocker
unfolding has_blocker
add_coarse_blocker b blockers = if has_blocker b blockers then blockers else blockers ++ b ∷ []
