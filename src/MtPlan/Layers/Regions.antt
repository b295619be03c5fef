-- ===== src/MtPlan/Layers/Regions.antt =====
-- The layers of a region, src/cppEmitterMtPlan.cpp: mtAddCoarseLayers as a whole.
use gsim.Prelude.{
  ℕ, ◌+◌, ◌-◌, ◌≤◌, ◌<◌, Bool, true, false, List, [], ◌==◌, ==_iff, ◌≡◌, ◌≢◌, refl, ap₂, ◌∙◌, sym,
  arith, occurs, inl, inr, ◌⊎◌, ◌↔◌,
}
use mathlib.Core.Path.{subst}
use gsim.Prelude.Counting.{count_below_none}
use gsim.MtPlan.{CoarseRegion}
use gsim.MtPlan.Layers.{Progress, link, degrees, layer_loop, add_coarse_layers}
use gsim.MtPlan.Layers.Counts.{indegree-degrees}
use gsim.MtPlan.Layers.Loop.{flatten, layer_of}
use gsim.MtPlan.Layers.Correct.{Placed, Stuck-Ranked, Ranked}
use gsim.MtPlan.Layers.Whole.{Once, Ordered, layer_loop_outcome, Blocked}

-- The region holds the id.
abbrev pub InRegion : CoarseRegion → ℕ → Type 0
InRegion r i = (r.begin_cpp_id ≤ i) × (i < r.end_cpp_id)

module _ (ordering : ℕ → ℕ → Bool) where
  -- Numbers for the tasks that grow along every ordering edge of the region.
  abbrev pub Ranking : CoarseRegion → (ℕ → ℕ) → Type 0
  Ranking r rank =
      (from to : ℕ)
      → InRegion r from
      → InRegion r to
      → from ≢ to
      → ordering from to ≡ true
      → rank from < rank to

  abbrev Placement : CoarseRegion → List (List ℕ) → Type 0
  Placement r ls = ((i : ℕ) → InRegion r i → occurs i (flatten ls) ≡ 1) × Ranking r (layer_of ls)

  abbrev size_of : CoarseRegion → ℕ
  size_of r = r.end_cpp_id - r.begin_cpp_id

  link-at :
      (begin from to : ℕ)
      → begin ≤ from
      → begin ≤ to
      → from ≢ to
      → link ordering begin (from - begin) (to - begin) ≡ ordering from to
  link-at begin from to lf lt ne =
      let at_from : begin + (from - begin) ≡ from = omega (arith, lf) in
      let at_to : begin + (to - begin) ≡ to = omega (arith, lt) in
      ground (arith, ne, ap₂ ordering at_from at_to, ==_iff (from - begin) (to - begin))

  link_iff :
      (begin f t : ℕ)
      → link ordering begin f t ≡ true
      → (f ≢ t) × (ordering (begin + f) (begin + t) ≡ true)
  link_iff begin f t l = ground (arith, ==_iff f t)

  ids_of_indices :
      (r : CoarseRegion) (ls : List (List ℕ))
      → Once r.begin_cpp_id (size_of r) ls
      → Ordered ordering r.begin_cpp_id (size_of r) ls
      → Placement r ls
  ids_of_indices r ls once ordered =
      let begin = r.begin_cpp_id in
      (
        λ i (low, high).
            let at : begin + (i - begin) ≡ i = omega (arith, low) in
            subst (λ j. occurs j (flatten ls) ≡ 1) at (once (i - begin) (omega (arith, low, high))),
        λ from to (lf, hf) (lt, ht) ne e.
            let at_from : begin + (from - begin) ≡ from = omega (arith, lf) in
            let at_to : begin + (to - begin) ≡ to = omega (arith, lt) in
            let less =
              ordered (from - begin) (to - begin) (omega (arith, lf, hf)) (omega (arith, lt, ht))
                (link-at begin from to lf lt ne ∙ e) in
            rw (at_from, at_to) at less,
      )

  Ranking-Ranked :
      (r : CoarseRegion) (rank : ℕ → ℕ)
      → Ranking r rank
      → Ranked ordering r.begin_cpp_id (size_of r) (λ i. rank (r.begin_cpp_id + i))
  Ranking-Ranked r rank ranked f t lf lt l =
      let (ne, e) = link_iff r.begin_cpp_id f t l in
      ranked (r.begin_cpp_id + f) (r.begin_cpp_id + t) (omega arith, omega (arith, lf))
        (omega arith, omega (arith, lt)) (λ same. ne (omega (arith, same))) e

  abbrev start : CoarseRegion → Progress
  start r = record {
    emitted = λ i. false;
    emitted_count = 0;
    indegree = (degrees ordering r.begin_cpp_id (size_of r)).indegree;
  }

  Placed-start : (r : CoarseRegion) → Placed ordering r.begin_cpp_id (size_of r) (start r) []
  Placed-start r = record {
    inv = record {
      counted = sym (count_below_none (size_of r));
      waiting = λ t l. indegree-degrees ordering r.begin_cpp_id (size_of r) t l;
    };
    once = λ i l. refl;
    earlier = λ f t lf lt done l. cc;
  }

  outcome :
      (r : CoarseRegion)
      → r.begin_cpp_id < r.end_cpp_id
      → r.layers ≡ []
      → Placement r (add_coarse_layers ordering r).layers
        ⊎ (Blocked (add_coarse_layers ordering r) × ((rank : ℕ → ℕ) → ¬ (Ranking r rank)))
  unfolding add_coarse_layers
  outcome r l fresh =
      let some : (size_of r == 0) ≡ false = ground (arith, ==_iff (size_of r) 0, l) in
      let placed =
        subst (Placed ordering r.begin_cpp_id (size_of r) (start r)) (sym fresh) (Placed-start r) in
      rw some
        (elim (layer_loop_outcome ordering (size_of r) (size_of r) (start r) r placed
          (omega arith)) [
            | inl (once, ordered) ↦ inl (
                ids_of_indices r (layer_loop ordering (size_of r) (size_of r) (start r) r).layers
                  once ordered)
            | inr (blocked, (p, stuck)) ↦ inr (
              blocked,
              λ rank ranked.
                  Stuck-Ranked ordering r.begin_cpp_id (size_of r) (λ i. rank (r.begin_cpp_id + i))
                    (Ranking-Ranked r rank ranked) p stuck,
            )
          ])

module _ (ordering : ℕ → ℕ → Bool) (r : CoarseRegion) (some : r.begin_cpp_id < r.end_cpp_id)
    (fresh : r.layers ≡ []) where
  -- In a region with tasks and no layers yet, whose ordering edges follow a numbering of the
  -- tasks, mtAddCoarseLayers puts each task of the region into its layers once.
  pub add_coarse_layers_places :
      (rank : ℕ → ℕ)
      → Ranking ordering r rank
      → (i : ℕ) → InRegion r i
      → occurs i (flatten (add_coarse_layers ordering r).layers) ≡ 1
  add_coarse_layers_places rank ranked i inside = elim (outcome ordering r some fresh) [
    | inl (once, _) ↦ once i inside
    | inr (_, unranked) ↦ absurd (unranked rank ranked)
  ]

  -- In a region with tasks and no layers yet, when mtAddCoarseLayers leaves layers, an ordering
  -- edge from one task of the region to another goes from an earlier layer to a later one.
  pub add_coarse_layers_orders :
      (from to : ℕ)
      → InRegion r from
      → InRegion r to
      → from ≢ to
      → ordering from to ≡ true
      → (add_coarse_layers ordering r).layers ≢ []
      → layer_of (add_coarse_layers ordering r).layers from
        < layer_of (add_coarse_layers ordering r).layers to
  add_coarse_layers_orders from to f t ne e layered = elim (outcome ordering r some fresh) [
    | inl (_, ordered) ↦ ordered from to f t ne e
    | inr (blocked, _) ↦ absurd (layered blocked.no_layers)
  ]

  -- In a region with tasks and no layers yet, mtAddCoarseLayers blocks the region, with no layers,
  -- with both blockers and as not eligible, exactly if no numbering of the tasks grows along every
  -- ordering edge.
  pub add_coarse_layers-Blocked_iff :
      Blocked (add_coarse_layers ordering r) ↔ ((rank : ℕ → ℕ) → ¬ (Ranking ordering r rank))
  add_coarse_layers-Blocked_iff =
      let found = outcome ordering r some fresh in
      (
        λ blocked. elim found [
          | inl (once, _) ↦
              let none : 0 ≡ 1 =
                rw blocked.no_layers at (once r.begin_cpp_id (omega arith, some)) in
              absurd (omega (arith, none))
          | inr (_, unranked) ↦ unranked
        ],
        λ unranked. elim found [
          | inl (_, ordered) ↦
              absurd (unranked (layer_of (add_coarse_layers ordering r).layers) ordered)
          | inr (blocked, _) ↦ blocked
        ],
      )
