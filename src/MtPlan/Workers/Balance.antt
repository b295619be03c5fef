-- ===== src/MtPlan/Workers/Balance.antt =====
-- mtBuildCoarseMTaskAssignment of src/cppEmitterMtPlan.cpp as a whole: no mtask is lost, and the workers
-- are even.
use gsim.Prelude.{
  ℕ, zero, suc, ◌+◌, ◌-◌, ◌≤◌, ◌<◌, min, max, Bool, true, false, List, [], ◌∷◌, ◌==◌, ==_iff,
  if◌then◌else◌, ◌≡◌, refl, ap, arith, occurs, Bool-cases, inl, inr,
}
use gsim.MtPlan.{CoarseRegion}
use gsim.MtPlan.Workers.{
  WorkerPolicy, mtask_count, admits_region, recommended_workers, sort_by, up_to, Loads, no_loads,
  MTaskAssignment, best_worker, is_better, give, deal, deal_all, comes_first, mtask_cost,
  mtask_task_count, build_assignment,
}
use gsim.MtPlan.Workers.Bounds.{recommended_workers_bounds}
use gsim.MtPlan.Workers.Deal.{sum_below, sum_of, holders-deal_all, Counted-deal_all}

-- The worker that is chosen has the least.
best_worker_least :
    (s : Loads) (n w : ℕ) → w ≤ n → s.static_costs (best_worker s n) ≤ s.static_costs w
unfolding best_worker
best_worker_least s zero w l =
    let same : 0 ≡ w = omega (arith, l) in omega (arith, ap s.static_costs same)
best_worker_least s (suc n) w l = elim (Bool-cases (w == suc n)) [
  | inl t ↦ omega (arith, ap s.static_costs ((==_iff w (suc n)).0 t), (less_of_two n).1)
  | inr t ↦
      omega
        (arith, (less_of_two n).0, best_worker_least s n w (ground (arith, l, t, ==_iff w (suc n))))
]
  where
    two :
        (m : ℕ) (b : Bool)
        → is_better s (suc m) (best_worker s m) ≡ b
        → (s.static_costs (if b then suc m else best_worker s m) ≤ s.static_costs (best_worker s m))
          × (s.static_costs (if b then suc m else best_worker s m) ≤ s.static_costs (suc m))
    two m true e =
        ground (arith, e, ==_iff (s.static_costs (suc m)) (s.static_costs (best_worker s m)))
    two m false e = ground (arith, e)

    less_of_two :
        (m : ℕ)
        → (s.static_costs (best_worker s (suc m)) ≤ s.static_costs (best_worker s m))
          × (s.static_costs (best_worker s (suc m)) ≤ s.static_costs (suc m))
    less_of_two m = two m (is_better s (suc m) (best_worker s m)) refl

module _ (cost count : ℕ → ℕ) (workers most : ℕ) (some : 0 < workers)
    (bounded : (i : ℕ) → cost i ≤ most) where
  abbrev Even : Loads → Type 0
  Even s = (v w : ℕ) → v < workers → w < workers → s.static_costs v ≤ s.static_costs w + most

  Even-give :
      (s : Loads) (j : ℕ) → Even s → Even (give cost count (best_worker s (workers - 1)) j s)
  Even-give s j h v w lv lw =
      let b = best_worker s (workers - 1) in
      ground (
        arith,
        h v w lv lw,
        bounded j,
        best_worker_least s (workers - 1) w (omega (arith, lw)),
        ==_iff v b,
        ==_iff w b,
      )

  Even-deal : (is : List ℕ) (s : Loads) → Even s → Even (deal cost count workers is s)
  unfolding deal
  Even-deal [] s h = h
  Even-deal (j ∷ is) s h =
      Even-deal is (give cost count (best_worker s (workers - 1)) j s) (Even-give s j h)

  Even-deal_all : (mtasks : ℕ) → Even (deal_all cost count workers mtasks)
  unfolding deal_all
  Even-deal_all mtasks =
      Even-deal (sort_by (comes_first cost count) (up_to mtasks)) no_loads
        (λ v w lv lw. omega arith)

module _ (r : CoarseRegion) (configured : ℕ) (policy : WorkerPolicy) where
  abbrev workers_of : ℕ
  workers_of =
      min
        (if admits_region r policy (recommended_workers r policy configured)
          then max 1 (recommended_workers r policy configured)
          else 1)
        (mtask_count r)

  record Built (a : MTaskAssignment) : Type 0 where
    workers : a.effective_workers ≡ workers_of
    loads : a.loads ≡ deal_all (mtask_cost r) (mtask_task_count r) workers_of (mtask_count r)

  build_assignment-Built : 0 < mtask_count r → Built (build_assignment r configured policy)
  unfolding build_assignment
  build_assignment-Built some =
      let full : (mtask_count r == 0) ≡ false = ground (arith, some, ==_iff (mtask_count r) 0) in
      rw full record { workers = refl; loads = refl }

  workers_some : 0 < mtask_count r → 0 < workers_of
  workers_some some = ground (arith, some)

  abbrev assigned : Loads
  assigned = (build_assignment r configured policy).loads

  -- Bounds of the workers that get mtasks.
  pub build_assignment_bounds :
      0 < mtask_count r
      → (1 ≤ (build_assignment r configured policy).effective_workers)
        × ((build_assignment r configured policy).effective_workers
            ≤ max 1 (min configured (mtask_count r)))
  build_assignment_bounds some =
      let built = build_assignment-Built some in
      ground (arith, built.workers, some, recommended_workers_bounds r policy configured)

  -- mtBuildCoarseMTaskAssignment gives each mtask of the region to one of the effective workers,
  -- once.
  pub build_assignment_deals :
      (i : ℕ)
      → i < mtask_count r
      → sum_below
          (λ w. occurs i (assigned.mtask_indices w))
          (build_assignment r configured policy).effective_workers
        ≡ 1
  build_assignment_deals i l =
      let some : 0 < mtask_count r = omega (arith, l) in
      let built = build_assignment-Built some in
      rw (built.workers, built.loads)
        (holders-deal_all (mtask_cost r) (mtask_task_count r) workers_of (workers_some some)
          (mtask_count r) i l)

  -- The costs and counts of a worker are those of its mtasks.
  pub build_assignment_sums :
      (w : ℕ)
      → 0 < mtask_count r
      → (assigned.static_costs w ≡ sum_of (mtask_cost r) (assigned.mtask_indices w))
        × (assigned.task_counts w ≡ sum_of (mtask_task_count r) (assigned.mtask_indices w))
  build_assignment_sums w some =
      let built = build_assignment-Built some in
      rw built.loads (
        Counted-deal_all (mtask_cost r) (mtask_task_count r) workers_of (workers_some some)
          (mtask_count r) w)

  -- For a region with mtasks, the static costs that mtBuildCoarseMTaskAssignment gives to two
  -- effective workers differ by no more than a bound of the cost of one mtask.
  pub build_assignment_even :
      (most : ℕ)
      → ((i : ℕ) → mtask_cost r i ≤ most)
      → 0 < mtask_count r
      → (v w : ℕ) → v < (build_assignment r configured policy).effective_workers
      → w < (build_assignment r configured policy).effective_workers
      → assigned.static_costs v ≤ assigned.static_costs w + most
  build_assignment_even most bounded some v w lv lw =
      let built = build_assignment-Built some in
      rw built.loads (
        Even-deal_all (mtask_cost r) (mtask_task_count r) workers_of most (workers_some some)
          bounded (mtask_count r) v w (rw built.workers at lv) (rw built.workers at lw))
