-- ===== src/MtPlan/Workers/Bounds.antt =====
-- The number of workers of src/cppEmitterMtPlan.cpp, and that a region is admitted with it.
use native.Mathlib.Nat.{div-mul-le_self, mul-le-mul_right}
use gsim.Prelude.{
  ℕ, zero, suc, ◌*◌, ◌/◌, ◌≤◌, ◌<◌, min, max, Bool, true, ltb, ◌≡◌, arith, Bool-cases, inl, inr,
}
use gsim.MtPlan.{CoarseRegion}
use gsim.MtPlan.Workers.{
  WorkerPolicy, profitable, static_policy, cap_by, mtask_count, static_cap,
  static_recommended_workers, static_admits_region, is_worth, lower_cap,
  profitable_recommended_workers, profitable_admits_region, recommended_workers, admits_region,
}

cap_by_le : (b : Bool) (cost divisor cap : ℕ) → cap_by b cost divisor cap ≤ cap
unfolding cap_by
cap_by_le b cost divisor cap = ground arith

-- Two workers or more are paid for.
cap_by_pays :
    (cost divisor cap w : ℕ) → 1 < w → w ≤ cap_by true cost divisor cap → w ≤ cost / divisor
unfolding cap_by
cap_by_pays cost divisor cap w l h = omega (arith, l, h)

module _ (r : CoarseRegion) where
  static_cap_le :
      (configured : ℕ)
      → static_cap r configured
        ≤ min (min configured (mtask_count r)) r.estimated_max_parallel_width
  unfolding static_cap
  static_cap_le configured = omega (
    arith,
    cap_by_le (ltb 0 r.static_cost) r.static_cost 4 _,
    cap_by_le (ltb 0 r.member_node_cost) r.member_node_cost 8 _,
    cap_by_le (ltb 0 r.active_word_span) r.member_node_cost (r.active_word_span * 8) _,
  )

  static_bounds :
      (configured : ℕ)
      → (1 ≤ static_recommended_workers r configured)
        × (static_recommended_workers r configured ≤ max 1 (min configured (mtask_count r)))
  unfolding static_recommended_workers
  static_bounds configured = ground (arith, static_cap_le configured)

  lower_cap_le : (cap : ℕ) → lower_cap r cap ≤ cap
  unfolding lower_cap
  lower_cap_le zero = omega arith
  lower_cap_le (suc cap) = ground (arith, lower_cap_le cap)

  lower_cap_worth : (cap : ℕ) → 1 < lower_cap r cap → is_worth r (lower_cap r cap) ≡ true
  unfolding lower_cap
  lower_cap_worth zero l = absurd (omega (arith, l))
  lower_cap_worth (suc cap) l = elim (Bool-cases (ltb 1 (suc cap))) [
    | inr one ↦ absurd (ground (arith, one, l))
    | inl many ↦ elim (Bool-cases (is_worth r (suc cap))) [
      | inl worth ↦ rw (many, worth) worth
      | inr not_worth ↦ rw (many, not_worth) (lower_cap_worth cap (rw (many, not_worth) at l))
    ]
  ]

  profitable_bounds :
      (configured : ℕ)
      → (1 ≤ profitable_recommended_workers r configured)
        × (profitable_recommended_workers r configured ≤ max 1 (min configured (mtask_count r)))
  unfolding profitable_recommended_workers
  profitable_bounds configured = ground (
    arith,
    lower_cap_le
        (min (min (min configured (mtask_count r)) r.estimated_max_parallel_width) (mtask_count r)),
  )

  -- One worker or more, and no more than there are mtasks or workers configured.
  pub recommended_workers_bounds :
      (policy : WorkerPolicy) (configured : ℕ)
      → (1 ≤ recommended_workers r policy configured)
        × (recommended_workers r policy configured ≤ max 1 (min configured (mtask_count r)))
  unfolding recommended_workers
  recommended_workers_bounds profitable configured = profitable_bounds configured
  recommended_workers_bounds static_policy configured = static_bounds configured

  static_many :
      (configured : ℕ)
      → 1 < static_recommended_workers r configured
      → (static_recommended_workers r configured ≤ static_cap r configured) × (1 < mtask_count r)
  unfolding static_recommended_workers
  static_many configured l = ground (arith, l)

  -- The workers are paid for by the nodes, over the words of the region too, and by the costs.
  static_pays :
      (configured w : ℕ)
      → 0 < r.static_cost
      → 0 < r.member_node_cost
      → 1 < w
      → w ≤ static_cap r configured
      → (w * 4 ≤ r.static_cost)
        × (w * 8 ≤ r.member_node_cost)
        × (0 < r.active_word_span → r.active_word_span * w * 8 ≤ r.member_node_cost)
  unfolding static_cap
  static_pays configured w some_cost some_nodes l h =
      let cap = min (min configured (mtask_count r)) r.estimated_max_parallel_width in
      let by_span =
        cap_by (ltb 0 r.active_word_span) r.member_node_cost (r.active_word_span * 8) cap in
      let by_nodes = cap_by (ltb 0 r.member_node_cost) r.member_node_cost 8 by_span in
      let nodes_on : ltb 0 r.member_node_cost ≡ true = ground (arith, some_nodes) in
      let cost_on : ltb 0 r.static_cost ≡ true = ground (arith, some_cost) in
      let h1 : w ≤ by_nodes =
        omega (arith, h, cap_by_le (ltb 0 r.static_cost) r.static_cost 4 by_nodes) in
      let h2 : w ≤ by_span =
        omega (arith, h1, cap_by_le (ltb 0 r.member_node_cost) r.member_node_cost 8 by_span) in
      let p0 = cap_by_pays r.static_cost 4 by_nodes w l (rw cost_on at h) in
      let p1 = cap_by_pays r.member_node_cost 8 by_span w l (rw nodes_on at h1) in
      (
        omega (arith, p0),
        omega (arith, p1),
        λ some_span.
            let span_on : ltb 0 r.active_word_span ≡ true = ground (arith, some_span) in
            let p2 =
              cap_by_pays r.member_node_cost (r.active_word_span * 8) cap w l (rw span_on at h2) in
            omega (
              arith,
              mul-le-mul_right (r.active_word_span * 8) p2,
              div-mul-le_self r.member_node_cost (r.active_word_span * 8),
            ),
      )

  static_admits :
      (w : ℕ)
      → 1 < w
      → 1 < mtask_count r
      → w * 4 ≤ r.static_cost
      → w * 8 ≤ r.member_node_cost
      → (0 < r.active_word_span → r.active_word_span * w * 8 ≤ r.member_node_cost)
      → static_admits_region r w ≡ true
  unfolding static_admits_region
  static_admits w l many costs nodes span = ground (arith, l, many, costs, nodes, span)

  abbrev profitable_cap : ℕ → ℕ
  profitable_cap configured =
      min (min (min configured (mtask_count r)) r.estimated_max_parallel_width) (mtask_count r)

  profitable_many :
      (configured : ℕ)
      → 1 < profitable_recommended_workers r configured
      → (profitable_recommended_workers r configured ≡ lower_cap r (profitable_cap configured))
        × (r.runtime_eligible ≡ true)
        × (1 < mtask_count r)
  unfolding profitable_recommended_workers
  profitable_many configured l = ground (arith, l)

  profitable_admits_worth :
      (w : ℕ)
      → 1 < w
      → r.runtime_eligible ≡ true
      → 1 < mtask_count r
      → w ≤ mtask_count r
      → is_worth r w ≡ true
      → profitable_admits_region r w ≡ true
  unfolding profitable_admits_region is_worth
  profitable_admits_worth w l eligible many fits worth =
      ground (arith, l, eligible, many, fits, worth)

  profitable_admits :
      (configured : ℕ)
      → 1 < profitable_recommended_workers r configured
      → profitable_admits_region r (profitable_recommended_workers r configured) ≡ true
  profitable_admits configured l =
      let (e, eligible, many) = profitable_many configured l in
      let cap = profitable_cap configured in
      let wide : 1 < lower_cap r cap = rw e at l in
      rw e (
        profitable_admits_worth (lower_cap r cap) wide eligible many
          (omega (arith, lower_cap_le cap)) (lower_cap_worth cap wide))

  -- With positive costs, a region for which either policy recommends two workers or more is
  -- admitted under that policy with that number of workers.
  pub recommended_workers_admitted :
      (policy : WorkerPolicy) (configured : ℕ)
      → 0 < r.static_cost
      → 0 < r.member_node_cost
      → 1 < recommended_workers r policy configured
      → admits_region r policy (recommended_workers r policy configured) ≡ true
  unfolding recommended_workers admits_region
  recommended_workers_admitted profitable configured _ _ l = profitable_admits configured l
  recommended_workers_admitted static_policy configured some_cost some_nodes l =
      let w = static_recommended_workers r configured in
      let (capped, many) = static_many configured l in
      let (costs, nodes, span) = static_pays configured w some_cost some_nodes l capped in
      static_admits w l many costs nodes span
