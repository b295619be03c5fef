-- ===== src/MtPlan/Regions/Forward.antt =====
-- planMtCoarseRegions of src/cppEmitterMtPlan.cpp in level dispatch: every region that it plans can be run.
use gsim.Prelude.{
  ℕ, zero, suc, ◌+◌, ◌-◌, ◌*◌, ◌≤◌, ◌<◌, max, Bool, true, false, List, [], ◌∷◌, ◌++◌, ltb, leb,
  ◌==◌, ltb→lt, if◌then◌else◌, ◌≡◌, ◌≢◌, refl, sym, ◌∙◌, arith, Bool-cases, inl, inr, ◌⊎◌,
  List-cases, occurs, Memᴰ-concat,
}
use mathlib.Core.Path.{subst}
use mathlib.Core.List.{Memᴰ}
use mathlib.Core.List.Memᴰ
use gsim.MtAnalysis.{Design, active_width, has_worker0_only_reason}
use gsim.MtAnalysis.Admission.{reasons, can_enter_coarse_dispatch-worker0}
use gsim.MtAnalysis.Edges.{ordering_edge}
use gsim.MtPlan.{CoarseRegion, Blocker, add_coarse_blocker, codegen_runtime_limit}
use gsim.MtPlan.Layers.{
  Progress, emit_all, degrees, layer_below, push_layer, block, layer_loop, add_coarse_layers,
}
use gsim.MtPlan.Layers.Loop.{flatten, layer_of}
use gsim.MtPlan.Layers.Regions.{
  InRegion, Ranking, add_coarse_layers_places, add_coarse_layers_orders,
}
use gsim.MtPlan.Regions.{
  extend, starts_region, note_tasks, note_pairs, note_limits, note_layers, first_region,
  build_coarse_region, regions_loop, plan_mt_coarse_regions,
}
use gsim.MtPlan.Regions.Frame.{
  Frame, Frame-trans, Frame-note_limits, Frame-note_tasks, Frame-note_pairs,
}
use gsim.MtPlan.Regions.Scan.{IsForward, extend-IsForward, IsForward-none}
use gsim.MtPlan.Regions.Limits.{
  Unblocked, Unblocked-none, Unblocked-limit, Counted-note_tasks, Counted-note_pairs,
  Unblocked-note_limits,
}

-- The layers leave the ids, and the blockers unless they block the region.
record Leaves (r s : CoarseRegion) : Type 0 where
  begins : s.begin_cpp_id ≡ r.begin_cpp_id
  ends : s.end_cpp_id ≡ r.end_cpp_id
  blocked_or_not : (s.blockers ≡ r.blockers) ⊎ (s.layers ≡ [])

module _ (ordering : ℕ → ℕ → Bool) where
  layer_loop-Leaves :
      (size fuel : ℕ) (p : Progress) (r : CoarseRegion)
      → Leaves r (layer_loop ordering size fuel p r)
  unfolding layer_loop block
  layer_loop-Leaves size zero p r = record { begins = refl; ends = refl; blocked_or_not = inl refl }
  layer_loop-Leaves size (suc fuel) p r = elim (Bool-cases (ltb p.emitted_count size)) [
    | inr t ↦ rw t record { begins = refl; ends = refl; blocked_or_not = inl refl }
    | inl t ↦ elim (List-cases (layer_below r.begin_cpp_id p size)) [
      | inl e ↦ rw (t, e) record { begins = refl; ends = refl; blocked_or_not = inr refl }
      | inr (x, xs, e) ↦
          let rest =
            layer_loop-Leaves size fuel
              (emit_all r.begin_cpp_id (degrees ordering r.begin_cpp_id size).edges (x ∷ xs) p)
              (push_layer (x ∷ xs) r) in
          rw (t, e)
            record { begins = rest.begins; ends = rest.ends; blocked_or_not = rest.blocked_or_not }
    ]
  ]

  add_coarse_layers-Leaves : (r : CoarseRegion) → Leaves r (add_coarse_layers ordering r)
  unfolding add_coarse_layers
  add_coarse_layers-Leaves r = elim (Bool-cases (r.end_cpp_id - r.begin_cpp_id == 0)) [
    | inl t ↦ rw t record { begins = refl; ends = refl; blocked_or_not = inl refl }
    | inr t ↦
        rw t (layer_loop-Leaves (r.end_cpp_id - r.begin_cpp_id) (r.end_cpp_id - r.begin_cpp_id) _ r)
  ]

module _ (d : Design) where
  -- What a planned region promises to the code that runs it: nothing of it is pinned to worker 0, its layers
  -- hold each task once, an ordering edge goes to a later layer, and no blocker is about the tasks.
  pub record IsDispatchable (r : CoarseRegion) : Type 0 where
    pub bounded : r.end_cpp_id ≤ d.super_id
    pub wide : r.begin_cpp_id + active_width ≤ r.end_cpp_id
    pub unpinned : (i : ℕ) → InRegion r i → has_worker0_only_reason (reasons d i) ≡ false
    pub once : (i : ℕ) → InRegion r i → occurs i (flatten r.layers) ≡ 1
    pub layered : Ranking (ordering_edge d) r (layer_of r.layers)
    pub unblocked : Unblocked r.blockers

  -- The region before its layers.
  unfoldable noted : ℕ → ℕ → ℕ → CoarseRegion
  noted threshold begin end = note_limits threshold (
      note_pairs d true begin (end - begin) begin (end - begin)
        (note_tasks d true begin (end - begin) (first_region d true begin end)))

  noted-Frame :
      (threshold begin end : ℕ) → Frame (first_region d true begin end) (noted threshold begin end)
  unfolding noted
  noted-Frame threshold begin end =
      let size = end - begin in
      let r0 = first_region d true begin end in
      let r1 = note_tasks d true begin size r0 in
      let r2 = note_pairs d true begin size begin size r1 in
      Frame-trans r0 r2 (note_limits threshold r2)
        (Frame-trans r0 r1 r2 (Frame-note_tasks d begin size r0)
          (Frame-note_pairs d begin size begin size r1))
        (Frame-note_limits threshold r2)

  noted-Unblocked :
      (threshold begin end : ℕ)
      → begin ≤ end
      → IsForward d begin end
      → Unblocked (noted threshold begin end).blockers
  unfolding noted
  noted-Unblocked threshold begin end l f =
      let size = end - begin in
      let r0 = first_region d true begin end in
      let r1 = note_tasks d true begin size r0 in
      Unblocked-note_limits d threshold (note_pairs d true begin size begin size r1) (
        Counted-note_pairs d begin size begin size r1
          (λ g k low less high. f.forward g k low less (omega (arith, l, high)))
          (Counted-note_tasks d begin size r0
            (λ i low high. f.enters i low (omega (arith, l, high)))
            (record { sum = omega arith; left = omega arith; unblocked = Unblocked-none })))

  narrowed :
      (narrow : Bool) (bs : List Blocker)
      → Unblocked bs
      → Unblocked (if narrow then add_coarse_blocker codegen_runtime_limit bs else bs)
  narrowed true bs h = Unblocked-limit bs h
  narrowed false bs h = h

  true≢false : true ≢ false
  true≢false e = cc

  -- A region with tasks that may be dispatched and no edges back.
  noted-layers :
      (r : CoarseRegion)
      → r.begin_cpp_id + active_width ≤ r.end_cpp_id
      → r.end_cpp_id ≤ d.super_id
      → r.layers ≡ []
      → IsForward d r.begin_cpp_id r.end_cpp_id
      → Unblocked r.blockers
      → IsDispatchable (note_layers d true r)
  unfolding note_layers
  noted-layers r wide bound fresh f free =
      let some : r.begin_cpp_id < r.end_cpp_id = omega (arith, wide) in
      let ranking : Ranking (ordering_edge d) r (λ i. i) = λ from to (_, high) (low, _) ne e.
        elim (Bool-cases (ltb to from)) [
          | inl back ↦
              let off = f.forward from to low (ltb→lt to from back) high in
              let clash : true ≡ false = sym e ∙ off in absurd (true≢false clash)
          | inr t ↦ ground (arith, t, ne)
        ] in
      let placed = add_coarse_layers_places (ordering_edge d) r some fresh (λ i. i) ranking in
      let layers = (add_coarse_layers (ordering_edge d) r).layers in
      let leaves = add_coarse_layers-Leaves (ordering_edge d) r in
      let found : layers ≢ [] = λ none.
        let gone : occurs r.begin_cpp_id (flatten []) ≡ 1 =
          subst (λ ls. occurs r.begin_cpp_id (flatten ls) ≡ 1) none
            (placed r.begin_cpp_id (omega arith, some)) in
        omega (arith, gone) in
      record {
        bounded = omega (arith, leaves.ends, bound);
        wide = omega (arith, leaves.ends, leaves.begins, wide);
        unpinned = λ i (low, high).
            can_enter_coarse_dispatch-worker0 d i
              (f.enters i (omega (arith, low, leaves.begins)) (omega (arith, high, leaves.ends)));
        once = λ i (low, high).
            placed i (omega (arith, low, leaves.begins), omega (arith, high, leaves.ends));
        layered = λ from to (lf, hf) (lt, ht) ne e.
            add_coarse_layers_orders (ordering_edge d) r some fresh from to
              (omega (arith, lf, leaves.begins), omega (arith, hf, leaves.ends))
              (omega (arith, lt, leaves.begins), omega (arith, ht, leaves.ends)) ne e found;
        unblocked = elim leaves.blocked_or_not [
          | inr none ↦ absurd (found none)
          | inl kept ↦
              narrowed (ltb (add_coarse_layers (ordering_edge d) r).estimated_max_parallel_width 2)
                _ (subst Unblocked (sym kept) free)
        ];
      }

  build-IsDispatchable :
      (threshold begin end : ℕ)
      → begin + active_width ≤ end
      → end ≤ d.super_id
      → IsForward d begin end
      → IsDispatchable (build_coarse_region d true threshold begin end)
  unfolding build_coarse_region noted
  build-IsDispatchable threshold begin end wide bound f =
      let frame = noted-Frame threshold begin end in
      noted-layers (noted threshold begin end) (omega (arith, frame.begins, frame.ends, wide))
        (omega (arith, frame.ends, bound)) frame.layered (rw (frame.begins, frame.ends) f)
        (noted-Unblocked threshold begin end (omega (arith, wide)) f)

  abbrev AllDispatchable : List CoarseRegion → Type 0
  AllDispatchable regions = (r : CoarseRegion) → Memᴰ r regions → IsDispatchable r

  regions_loop-IsDispatchable :
      (threshold fuel begin_word : ℕ) (regions : List CoarseRegion)
      → AllDispatchable regions
      → AllDispatchable (regions_loop d true threshold fuel begin_word regions)
  unfolding regions_loop
  regions_loop-IsDispatchable threshold zero w regions h = h
  regions_loop-IsDispatchable threshold (suc fuel) w regions h =
      elim (Bool-cases (ltb (w * active_width) d.super_id)) [
        | inr done ↦ rw done h
        | inl more ↦ elim (Bool-cases (starts_region d true w)) [
          | inr skip ↦
              rw (more, skip) (regions_loop-IsDispatchable threshold fuel (suc w) regions h)
          | inl take ↦
              let e = extend d true w d.super_id w in
              let begin = w * active_width in
              let end = e * active_width in
              let (fwd, f) = extend-IsForward d w d.super_id w (omega arith) (IsForward-none d w) in
              elim (Bool-cases (leb active_width (end - begin))) [
                | inr small ↦
                    rw (more, take, small)
                      (regions_loop-IsDispatchable threshold fuel (suc w) regions h)
                | inl wide ↦
                    let far : begin + active_width ≤ end = ground (arith, wide) in
                    let built =
                      build-IsDispatchable threshold begin end far (omega (arith, f.bounded, far))
                        f in
                    rw (more, take, wide)
                      (regions_loop-IsDispatchable threshold fuel (suc (max w (e - 1)))
                        (regions ++ build_coarse_region d true threshold begin end ∷ [])
                        (λ r m.
                          elim ((Memᴰ-concat r (build_coarse_region d true threshold begin end)
                              regions).0
                            m) [
                              | inl old ↦ h r old
                              | inr new ↦ subst IsDispatchable (sym new) built
                            ]))
              ]
        ]
      ]

  -- In level dispatch, every region that planMtCoarseRegions plans is below superId and a word
  -- wide or more; no task of it has a reason that pins it to worker 0; its layers hold each of its
  -- tasks once; an ordering edge between its tasks goes to a later layer; and it has no blocker
  -- but codegen_runtime_limit.
  pub plan_mt_coarse_regions-IsDispatchable :
      (threshold : ℕ) (r : CoarseRegion)
      → Memᴰ r (plan_mt_coarse_regions d true threshold)
      → IsDispatchable r
  unfolding plan_mt_coarse_regions
  plan_mt_coarse_regions-IsDispatchable threshold =
      regions_loop-IsDispatchable threshold d.super_id 0 [] (λ r m. absurd (Memᴰ.not-nil m))
