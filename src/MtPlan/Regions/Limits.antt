-- ===== src/MtPlan/Regions/Limits.antt =====
-- The blockers of a region of src/cppEmitterMtPlan.cpp whose tasks may be dispatched and have no edges back.
use gsim.Prelude.{
  ℕ, zero, suc, ◌+◌, ◌%◌, ◌≤◌, ◌<◌, Bool, true, false, not, ◌&&◌, ◌||◌, List, [], ◌∷◌, none, some,
  ltb, leb, ◌==◌, ==_iff, lt→ltb, if◌then◌else◌, ◌≡◌, refl, ap, ◌∙◌, arith, Bool-cases, inl, inr,
}
use gsim.MtAnalysis.{
  Design, find_task, is_pure, task_with, classify_mt_task, is_always_active,
  has_worker0_only_reason, can_enter_coarse_dispatch, SerialReason, BoundaryInfo, TaskInfo,
}
use gsim.MtAnalysis.Admission.{
  reasons, can_enter_coarse_dispatch_iff, can_enter_coarse_dispatch-worker0,
}
use gsim.MtAnalysis.Edges.{dependency_edge_uncached, active_edge_uncached, ordering_edge}
use gsim.MtPlan.{
  CoarseRegion, Blocker, blocker_number, serial_task, data_dependency, active_visibility_edge,
  codegen_runtime_limit, add_coarse_blocker, has_blocker,
}
use gsim.MtPlan.Layers.Whole.{has_blocker-append}
use gsim.MtPlan.Regions.{
  is_pure_task, is_safe_serial, note_task, note_tasks, note_pair, note_pairs_of, note_pairs,
  block_if, note_limits,
}

-- No blocker but codegen_runtime_limit.
abbrev pub Unblocked : List Blocker → Type 0
Unblocked bs = (b : Blocker) → has_blocker b bs ≡ true → b ≡ codegen_runtime_limit

pub Unblocked-none : Unblocked []
unfolding has_blocker
Unblocked-none b found = cc

pub Unblocked-limit :
    (bs : List Blocker) → Unblocked bs → Unblocked (add_coarse_blocker codegen_runtime_limit bs)
unfolding add_coarse_blocker
Unblocked-limit bs h b found = elim (Bool-cases (has_blocker codegen_runtime_limit bs)) [
  | inl t ↦ h b (rw t at found)
  | inr t ↦ by_number b (rw (t, has_blocker-append b codegen_runtime_limit bs) at found)
]
  where
    by_number :
        (c : Blocker)
        → (has_blocker c bs || (blocker_number codegen_runtime_limit == blocker_number c)) ≡ true
        → c ≡ codegen_runtime_limit
    by_number serial_task e = h serial_task (ground (arith, e))
    by_number data_dependency e = h data_dependency (ground (arith, e))
    by_number active_visibility_edge e = h active_visibility_edge (ground (arith, e))
    by_number codegen_runtime_limit e = refl

module _ (d : Design) where
  serial_reasons-task_with :
      (b : BoundaryInfo) (cost : ℕ) (rs : List SerialReason)
      → (task_with b cost rs).serial_reasons ≡ rs
  unfolding task_with
  serial_reasons-task_with b cost [] = refl
  serial_reasons-task_with b cost (r ∷ rs) = refl

  safe_task :
      (found active : Bool) (t : TaskInfo)
      → found ≡ true
      → active ≡ false
      → has_worker0_only_reason t.serial_reasons ≡ false
      → (elim (if found then some t else none) [ none ↦ false | some u ↦ is_pure u.task_kind ])
        ≡ false
      → (elim (if found then some t else none) [
        | none ↦ false
        | some u ↦
            true
            && (not (is_pure u.task_kind)
                && (not active && not (has_worker0_only_reason u.serial_reasons)))
      ])
        ≡ true
  safe_task false active t f a w impure = cc
  safe_task true active t f a w impure = ground (arith, a, w, impure)

  -- A task that may be dispatched is pure or safe.
  safe_of_dispatch :
      (i : ℕ)
      → can_enter_coarse_dispatch d i ≡ true
      → is_pure_task d true i ≡ false
      → is_safe_serial d true i ≡ true
  unfolding is_pure_task is_safe_serial find_task classify_mt_task
  safe_of_dispatch i h impure =
      let (found, active, _) = (can_enter_coarse_dispatch_iff d i).0 h in
      let s = d.super_at i in
      let kept = serial_reasons-task_with s.boundary_info s.boundary_cost (reasons d i) in
      safe_task (ltb i d.super_id) (is_always_active d i)
        (task_with s.boundary_info s.boundary_cost (reasons d i)) (lt→ltb i d.super_id found) active
        (ap has_worker0_only_reason kept ∙ can_enter_coarse_dispatch-worker0 d i h) impure

  -- The tasks are counted as pure or as safe, n of them are still to be looked at.
  pub record Counted (n : ℕ) (r : CoarseRegion) : Type 0 where
    pub sum : r.pure_task_count + r.safe_serial_task_count ≡ r.task_count
    pub left : n ≤ r.pure_task_count
    pub unblocked : Unblocked r.blockers

  Counted-note_task :
      (i n : ℕ) (r : CoarseRegion)
      → can_enter_coarse_dispatch d i ≡ true
      → Counted (suc n) r
      → Counted n (note_task d true i r)
  unfolding note_task
  Counted-note_task i n r enter h =
      let (_, active, _) = (can_enter_coarse_dispatch_iff d i).0 enter in
      elim (Bool-cases (is_pure_task d true i)) [
        | inl t ↦
            rw (t, active)
              record { sum = h.sum; left = omega (arith, h.left); unblocked = h.unblocked }
        | inr t ↦
            rw (t, safe_of_dispatch i enter t, active)
              record {
                sum = omega (arith, h.sum, h.left);
                left = omega (arith, h.left);
                unblocked = h.unblocked;
              }
      ]

  pub Counted-note_tasks :
      (begin n : ℕ) (r : CoarseRegion)
      → ((i : ℕ) → begin ≤ i → i < begin + n → can_enter_coarse_dispatch d i ≡ true)
      → Counted n r
      → Counted 0 (note_tasks d true begin n r)
  unfolding note_tasks
  Counted-note_tasks begin zero r enter h = h
  Counted-note_tasks begin (suc n) r enter h =
      Counted-note_tasks (suc begin) n (note_task d true begin r)
        (λ i low high. enter i (omega (arith, low)) (omega (arith, high)))
        (Counted-note_task begin n r (enter begin (omega arith) (omega arith)) h)

  Counted-note_pair :
      (from to : ℕ) (r : CoarseRegion)
      → (to < from → ordering_edge d from to ≡ false)
      → Counted 0 r
      → Counted 0 (note_pair d true from to r)
  unfolding note_pair
  Counted-note_pair from to r forward h =
      let dep_off : (dependency_edge_uncached d from to && ltb to from) ≡ false =
        ground (arith, forward) in
      let act_off : (active_edge_uncached d from to && ltb to from) ≡ false =
        ground (arith, forward) in
      elim (Bool-cases (from == to)) [
        | inl t ↦ rw t h
        | inr t ↦
            rw (t, act_off, dep_off) record { sum = h.sum; left = h.left; unblocked = h.unblocked }
      ]

  Counted-note_pairs_of :
      (from to n : ℕ) (r : CoarseRegion)
      → ((k : ℕ) → to ≤ k → k < from → k < to + n → ordering_edge d from k ≡ false)
      → Counted 0 r
      → Counted 0 (note_pairs_of d true from to n r)
  unfolding note_pairs_of
  Counted-note_pairs_of from to zero r forward h = h
  Counted-note_pairs_of from to (suc n) r forward h =
      Counted-note_pairs_of from (suc to) n (note_pair d true from to r)
        (λ k low less high. forward k (omega (arith, low)) less (omega (arith, high)))
        (Counted-note_pair from to r (λ less. forward to (omega arith) less (omega arith)) h)

  pub Counted-note_pairs :
      (begin size from n : ℕ) (r : CoarseRegion)
      → ((f k : ℕ) → begin ≤ k → k < f → f < from + n → ordering_edge d f k ≡ false)
      → Counted 0 r
      → Counted 0 (note_pairs d true begin size from n r)
  unfolding note_pairs
  Counted-note_pairs begin size from zero r forward h = h
  Counted-note_pairs begin size from (suc n) r forward h =
      Counted-note_pairs begin size (suc from) n (note_pairs_of d true from begin size r)
        (λ f k low less high. forward f k low less (omega (arith, high)))
        (Counted-note_pairs_of from begin size r
          (λ k low less high. forward from k low less (omega arith)) h)

  Unblocked-block_if :
      (b : Bool) (r : CoarseRegion)
      → Unblocked r.blockers
      → Unblocked (block_if b codegen_runtime_limit r).blockers
  unfolding block_if
  Unblocked-block_if true r h = Unblocked-limit r.blockers h
  Unblocked-block_if false r h = h

  Unblocked-no_block :
      (b : Bool) (c : Blocker) (r : CoarseRegion)
      → b ≡ false
      → Unblocked r.blockers
      → Unblocked (block_if b c r).blockers
  unfolding block_if
  Unblocked-no_block true c r e h = cc
  Unblocked-no_block false c r e h = h

  pub Unblocked-note_limits :
      (threshold : ℕ) (r : CoarseRegion)
      → Counted 0 r
      → Unblocked (note_limits threshold r).blockers
  unfolding note_limits
  Unblocked-note_limits threshold r h =
      let fits : not (r.pure_task_count + r.safe_serial_task_count == r.task_count) ≡ false =
        ground (arith, h.sum, ==_iff (r.pure_task_count + r.safe_serial_task_count) r.task_count) in
      let odd = not (r.begin_cpp_id % 8 == 0) || not (r.end_cpp_id % 8 == 0) in
      let r1 = block_if odd codegen_runtime_limit r in
      let r2 = block_if (ltb r.task_count threshold) codegen_runtime_limit r1 in
      let r3 = block_if (leb r.active_word_span 1) codegen_runtime_limit r2 in
      Unblocked-no_block _ serial_task r3 fits (
        Unblocked-block_if (leb r.active_word_span 1) r2 (
          Unblocked-block_if (ltb r.task_count threshold) r1
            (Unblocked-block_if odd r h.unblocked)))
