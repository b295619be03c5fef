-- ===== src/MtPlan/Workers.antt =====
-- src/cppEmitterMtPlan.cpp: how many workers a coarse region gets under the two policies, whether it is
-- admitted with them, and mtBuildCoarseMTaskAssignment, which deals its mtasks out to them. std::sort is insertion
-- sort: the comparison is a total order of the indices. The costs of the contiguous assignment, which are
-- reported only, are left out.
pub mod Bounds
pub mod Deal
pub mod Balance
use gsim.Prelude.{
  ℕ, zero, suc, ◌+◌, ◌-◌, ◌*◌, ◌/◌, min, max, Bool, true, false, not, ◌&&◌, ◌||◌, List, [], ◌∷◌,
  ◌++◌, ltb, leb, ◌==◌, if◌then◌else◌, length, get_or,
}
use gsim.MtPlan.{CoarseRegion, CoarseMTask}

-- "profitable", or any other policy.
pub data WorkerPolicy : Type 0 where
  profitable static_policy : WorkerPolicy

-- The cap of one cost: at least one worker, where the divisor is positive.
unfoldable pub cap_by : Bool → ℕ → ℕ → ℕ → ℕ
cap_by b cost divisor cap = if b then min cap (max 1 (cost / divisor)) else cap

module _ (r : CoarseRegion) where
  abbrev pub mtask_count : ℕ
  mtask_count = length r.mtasks

  unfoldable pub static_cap : ℕ → ℕ
  unfolding cap_by
  static_cap configured =
      let cap = min (min configured mtask_count) r.estimated_max_parallel_width in
      cap_by (ltb 0 r.static_cost) r.static_cost 4 (
        cap_by (ltb 0 r.member_node_cost) r.member_node_cost 8
          (cap_by (ltb 0 r.active_word_span) r.member_node_cost (r.active_word_span * 8) cap))

  unfoldable pub static_recommended_workers : ℕ → ℕ
  static_recommended_workers configured =
      if ltb configured 1
      then 1
      else if not r.runtime_eligible
      then 1
      else if leb mtask_count 1
      then 1
      else let cap = max 1 (static_cap configured) in if ltb configured cap then configured else cap

  unfoldable pub static_admits_region : ℕ → Bool
  static_admits_region workers =
      if leb workers 1
      then false
      else if leb mtask_count 1
      then false
      else if ltb r.member_node_cost (workers * 8)
      then false
      else if ltb r.static_cost (workers * 4)
      then false
      else not
          (ltb 0 r.active_word_span && ltb r.member_node_cost (r.active_word_span * workers * 8))

  -- Computed in the same way by the recommendation and by the admission.
  unfoldable pub useful_work : ℕ
  useful_work =
      let total = max r.mtask_static_cost_total r.mtask_member_node_cost_total in
      if leb total 0 then r.estimated_useful_work else total

  -- The test that ends the loop.
  unfoldable pub is_worth : ℕ → Bool
  unfolding useful_work
  is_worth workers =
      leb 8 mtask_count
      && (leb workers r.estimated_max_parallel_width
          && (leb 256 useful_work
              && (leb 64 (useful_work / workers)
                  && leb (r.active_word_span * workers * 2 * 16) useful_work)))

  -- `while (workerCap > 1)`.
  unfoldable pub lower_cap : ℕ → ℕ
  lower_cap zero = zero
  lower_cap (suc cap) =
      let rest = lower_cap cap in
      if ltb 1 (suc cap) then if is_worth (suc cap) then suc cap else rest else suc cap

  unfoldable pub profitable_recommended_workers : ℕ → ℕ
  unfolding lower_cap
  profitable_recommended_workers configured =
      let cap = min (min (min configured mtask_count) r.estimated_max_parallel_width) mtask_count in
      if ltb configured 1
      then 1
      else if not r.runtime_eligible
      then 1
      else if leb mtask_count 1
      then 1
      else if leb cap 1
      then 1
      else if leb useful_work 0
      then 1
      else max 1 (lower_cap cap)

  unfoldable pub profitable_admits_region : ℕ → Bool
  unfolding useful_work
  profitable_admits_region workers =
      if leb workers 1
      then false
      else if not r.runtime_eligible
      then false
      else if leb mtask_count 1
      then false
      else if ltb mtask_count workers
      then false
      else if ltb mtask_count 8
      then false
      else if ltb r.estimated_max_parallel_width workers
      then false
      else if ltb useful_work 256
      then false
      else if ltb (useful_work / workers) 64
      then false
      else leb (r.active_word_span * workers * 2 * 16) useful_work

  unfoldable pub recommended_workers : WorkerPolicy → ℕ → ℕ
  unfolding static_recommended_workers profitable_recommended_workers
  recommended_workers profitable configured = profitable_recommended_workers configured
  recommended_workers static_policy configured = static_recommended_workers configured

  unfoldable pub admits_region : WorkerPolicy → ℕ → Bool
  unfolding static_admits_region profitable_admits_region
  admits_region profitable workers = profitable_admits_region workers
  admits_region static_policy workers = static_admits_region workers

unfoldable pub insert_by : (ℕ → ℕ → Bool) → ℕ → List ℕ → List ℕ
insert_by less x [] = x ∷ []
insert_by less x (y ∷ ys) =
    let rest = insert_by less x ys in if less x y then x ∷ y ∷ ys else y ∷ rest

unfoldable pub sort_by : (ℕ → ℕ → Bool) → List ℕ → List ℕ
unfolding insert_by
sort_by less [] = []
sort_by less (x ∷ xs) = insert_by less x (sort_by less xs)

abbrev pub up_to : ℕ → List ℕ
up_to zero = []
up_to (suc n) = up_to n ++ n ∷ []

-- What the workers have: the mtasks, and the sums of their costs and counts.
pub record Loads : Type 0 where
  pub mtask_indices : ℕ → List ℕ
  pub static_costs : ℕ → ℕ
  pub task_counts : ℕ → ℕ

pub record MTaskAssignment : Type 0 where
  pub effective_workers : ℕ
  pub admitted : Bool
  pub loads : Loads

abbrev pub no_loads : Loads
no_loads = record { mtask_indices = λ w. []; static_costs = λ w. 0; task_counts = λ w. 0 }

abbrev pub is_better : Loads → ℕ → ℕ → Bool
is_better s w best =
    if ltb (s.static_costs w) (s.static_costs best)
    then true
    else (s.static_costs w == s.static_costs best) && ltb (s.task_counts w) (s.task_counts best)

-- The loop over the workers 1 to n.
unfoldable pub best_worker : Loads → ℕ → ℕ
best_worker s zero = 0
best_worker s (suc n) =
    let best = best_worker s n in if is_better s (suc n) best then suc n else best

module _ (cost count : ℕ → ℕ) where
  abbrev pub comes_first : ℕ → ℕ → Bool
  comes_first lhs rhs =
      if not (cost lhs == cost rhs)
      then ltb (cost rhs) (cost lhs)
      else if not (count lhs == count rhs)
      then ltb (count rhs) (count lhs)
      else ltb lhs rhs

  abbrev pub give : ℕ → ℕ → Loads → Loads
  give w i s = record {
    mtask_indices = λ v. if v == w then s.mtask_indices v ++ i ∷ [] else s.mtask_indices v;
    static_costs = λ v. if v == w then s.static_costs v + cost i else s.static_costs v;
    task_counts = λ v. if v == w then s.task_counts v + count i else s.task_counts v;
  }

  unfoldable pub deal : ℕ → List ℕ → Loads → Loads
  unfolding best_worker
  deal workers [] s = s
  deal workers (i ∷ is) s = deal workers is (give (best_worker s (workers - 1)) i s)

  unfoldable pub deal_all : ℕ → ℕ → Loads
  unfolding deal sort_by
  deal_all workers mtasks =
      let dealt = deal workers (sort_by comes_first (up_to mtasks)) no_loads in
      record {
        mtask_indices = λ w. sort_by ltb (dealt.mtask_indices w);
        static_costs = dealt.static_costs;
        task_counts = dealt.task_counts;
      }

abbrev pub no_mtask : CoarseMTask
no_mtask = record {
  layer_task_cpp_ids = [];
  task_count = 0;
  static_cost = 0;
  member_node_cost = 0;
  ordering_edge_count = 0;
}

module _ (r : CoarseRegion) where
  abbrev pub mtask_cost : ℕ → ℕ
  mtask_cost i = (get_or r.mtasks i no_mtask).static_cost

  abbrev pub mtask_task_count : ℕ → ℕ
  mtask_task_count i = (get_or r.mtasks i no_mtask).task_count

  unfoldable pub build_assignment : ℕ → WorkerPolicy → MTaskAssignment
  unfolding recommended_workers admits_region deal_all
  build_assignment configured policy =
      let recommended = recommended_workers r policy configured in
      let admitted = admits_region r policy recommended in
      let wanted = if admitted then max 1 recommended else 1 in
      let workers = min wanted (mtask_count r) in
      if mtask_count r == 0
      then record { effective_workers = 1; admitted = false; loads = no_loads }
      else record {
        effective_workers = workers;
        admitted = admitted;
        loads = deal_all mtask_cost mtask_task_count workers (mtask_count r);
      }
