-- ===== src/MtAnalysis.antt =====
-- src/cppEmitterMtAnalysis.cpp: the classification of the tasks of the multi-threaded emission (classifyMtTask),
-- the tests that admit a task to a batch or a region, and the costs. A task is the super node of a cppId; the ids
-- below superId are those of cppId2Super. The types are those of src/cppEmitterImpl.h, with a constructor for each
-- string that the code compares; the cppId -1 of a super node that is not emitted is none.
pub mod Edges
pub mod Admission
use gsim.Prelude.{
  ℕ, zero, suc, ◌+◌, ◌-◌, ◌*◌, ◌/◌, max, Bool, true, false, not, ◌&&◌, ◌||◌, List, [], ◌∷◌, ◌++◌,
  Option, none, some, ltb, ◌==◌, elem, if◌then◌else◌, length,
}
use gsim.Circuit.{
  SuperType, super_valid, super_extmod, super_async_reset, super_uint_reset, super_update_reg,
}

abbrev pub active_width : ℕ
active_width = 8

-- The flags of MtBoundaryInfo that classify a task.
pub record BoundaryInfo : Type 0 where
  pub has_state_update : Bool
  pub has_memory_write : Bool
  pub has_memory_read : Bool
  pub has_reset : Bool
  pub has_async_reset : Bool
  pub has_activate_all_path : Bool
  pub has_external : Bool
  pub has_special : Bool
  pub has_unknown_node : Bool
  pub has_unknown_op : Bool
  pub has_array_or_dynamic_index : Bool

pub data SerialReason : Type 0 where
  super_type : SuperType → SerialReason
  state_update memory_write memory_read_unsupported reset async_reset activate_all_path :
      SerialReason
  external special unknown_node unknown_op array_or_dynamic_index : SerialReason

pub data TaskKind : Type 0 where
  pure_compute serial : TaskKind

pub record TaskInfo : Type 0 where
  pub boundary : BoundaryInfo
  pub task_kind : TaskKind
  pub serial_reasons : List SerialReason
  pub candidate_cost : ℕ
  pub has_candidate_cost : Bool

-- What the code reads of a super node: its relations as the cppIds in them, and the nextActiveId of each member.
pub record SuperTask : Type 0 where
  pub super_kind : SuperType
  pub boundary_info : BoundaryInfo
  pub boundary_cost : ℕ
  pub prev : List (Option ℕ)
  pub next : List (Option ℕ)
  pub dep_prev : List (Option ℕ)
  pub dep_next : List (Option ℕ)
  pub member : List (List (Option ℕ))

-- The globals superId, cppId2Super and alwaysActive.
pub record Design : Type 0 where
  pub super_id : ℕ
  pub super_at : ℕ → SuperTask
  pub always_active : List ℕ

-- `push_back` under a condition; the reasons of classifyMtTask are all different.
unfoldable pub reason_if : Bool → SerialReason → List SerialReason → List SerialReason
reason_if b r reasons = if b then reasons ++ r ∷ [] else reasons

unfoldable pub super_reason : SuperType → List SerialReason
super_reason super_valid = []
super_reason t = super_type t ∷ []

unfoldable pub serial_reasons_of : SuperType → BoundaryInfo → List SerialReason
unfolding reason_if super_reason
serial_reasons_of t b =
    let r1 = reason_if b.has_state_update state_update (super_reason t) in
    let r2 = reason_if b.has_memory_write memory_write r1 in
    let r3 = reason_if b.has_memory_read memory_read_unsupported r2 in
    let r4 = reason_if b.has_reset reset r3 in
    let r5 = reason_if b.has_async_reset async_reset r4 in
    let r6 = reason_if b.has_activate_all_path activate_all_path r5 in
    let r7 = reason_if b.has_external external r6 in
    let r8 = reason_if b.has_special special r7 in
    let r9 = reason_if b.has_unknown_node unknown_node r8 in
    let r10 = reason_if b.has_unknown_op unknown_op r9 in
    reason_if b.has_array_or_dynamic_index array_or_dynamic_index r10

-- The last test of classifyMtTask.
unfoldable pub task_with : BoundaryInfo → ℕ → List SerialReason → TaskInfo
task_with b cost [] = record {
  boundary = b;
  task_kind = pure_compute;
  serial_reasons = [];
  candidate_cost = max 1 cost;
  has_candidate_cost = true;
}
task_with b cost (r ∷ rs) = record {
  boundary = b;
  task_kind = serial;
  serial_reasons = r ∷ rs;
  candidate_cost = 0;
  has_candidate_cost = false;
}

unfoldable pub classify_mt_task : SuperType → BoundaryInfo → ℕ → TaskInfo
unfolding serial_reasons_of task_with
classify_mt_task t b cost = task_with b cost (serial_reasons_of t b)

abbrev pub is_pure : TaskKind → Bool
is_pure k = elim k [ pure_compute ↦ true | serial ↦ false ]

unfoldable pub is_worker0_reason : SerialReason → Bool
is_worker0_reason r = elim r [
  | external ↦ true
  | memory_write ↦ true
  | memory_read_unsupported ↦ true
  | special ↦ true
  | super_type t ↦ elim t [ super_extmod ↦ true | _ ↦ false ]
  | _ ↦ false
]

unfoldable pub has_worker0_only_reason : List SerialReason → Bool
unfolding is_worker0_reason
has_worker0_only_reason [] = false
has_worker0_only_reason (r ∷ rs) = is_worker0_reason r || has_worker0_only_reason rs

unfoldable pub is_direct_fallback : SerialReason → Bool
is_direct_fallback r = elim r [
  | state_update ↦ true
  | reset ↦ true
  | async_reset ↦ true
  | activate_all_path ↦ true
  | array_or_dynamic_index ↦ true
  | super_type t ↦ elim t [ super_async_reset ↦ true | _ ↦ false ]
  | _ ↦ false
]

unfoldable pub has_only_direct_fallback_reasons : List SerialReason → Bool
unfolding is_direct_fallback
has_only_direct_fallback_reasons [] = true
has_only_direct_fallback_reasons (r ∷ rs) =
    is_direct_fallback r && has_only_direct_fallback_reasons rs

module _ (d : Design) where
  -- buildMtTaskInfoMap, as what find gives; isSource and isSink are left out.
  unfoldable pub find_task : ℕ → Option TaskInfo
  unfolding classify_mt_task
  find_task i =
      let s = d.super_at i in
      if ltb i d.super_id
      then some (classify_mt_task s.super_kind s.boundary_info s.boundary_cost)
      else none

  unfoldable pub is_always_active : ℕ → Bool
  is_always_active i = elem i d.always_active

  unfoldable pub can_enter_coarse_dispatch : ℕ → Bool
  unfolding find_task is_always_active has_only_direct_fallback_reasons
  can_enter_coarse_dispatch i = elim (find_task i) [
    | none ↦ false
    | some t ↦
        if is_always_active i
        then false
        else if is_pure t.task_kind
        then true
        else has_only_direct_fallback_reasons t.serial_reasons
  ]

  unfoldable pub can_enter_pure_batch : ℕ → Bool
  unfolding find_task is_always_active
  can_enter_pure_batch i = elim (find_task i) [
    | none ↦ false
    | some t ↦ if is_pure t.task_kind then not (is_always_active i) else false
  ]

  unfoldable pub estimated_cost : ℕ → ℕ
  unfolding find_task
  estimated_cost i = elim (find_task i) [
    | none ↦ 1
    | some t ↦ if t.has_candidate_cost && ltb 0 t.candidate_cost then t.candidate_cost else 1
  ]

  -- The loop from begin over n ids.
  unfoldable pub batch_cost : ℕ → ℕ → ℕ
  unfolding estimated_cost
  batch_cost begin zero = 0
  batch_cost begin (suc n) = estimated_cost begin + batch_cost (suc begin) n

  unfoldable pub member_node_cost : ℕ → ℕ → ℕ
  member_node_cost begin zero = 0
  member_node_cost begin (suc n) =
      let rest = member_node_cost (suc begin) n in
      if ltb begin d.super_id then length (d.super_at begin).member + rest else rest

  -- The loop of mtActiveWordIsWhole over the j below n.
  unfoldable pub none_always_active : ℕ → ℕ → Bool
  unfolding is_always_active
  none_always_active begin zero = true
  none_always_active begin (suc n) =
      let rest = none_always_active (suc begin) n in
      if ltb begin d.super_id then (if is_always_active begin then false else rest) else true

  abbrev pub active_word_is_whole : ℕ → Bool
  active_word_is_whole begin = none_always_active begin active_width
