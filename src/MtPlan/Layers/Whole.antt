-- ===== src/MtPlan/Layers/Whole.antt =====
-- The loop of mtAddCoarseLayers of src/cppEmitterMtPlan.cpp.
use gsim.Prelude.{
  ℕ, zero, suc, ◌+◌, ◌-◌, ◌≤◌, ◌<◌, Bool, true, false, ◌||◌, List, [], ◌∷◌, ◌++◌, ltb, ltb→lt, ◌==◌,
  ==_iff, ◌≡◌, ◌≢◌, refl, ◌∙◌, sym, arith, occurs, Bool-cases, inl, inr, ◌⊎◌, List-cases,
}
use mathlib.Core.List.{Memᴰ, cons≢nil}
use mathlib.Core.Path.{subst}
use gsim.Prelude.Counting.{count_below_lt, count_below_full}
use gsim.MtPlan.{
  CoarseRegion, Blocker, blocker_number, has_blocker, add_coarse_blocker, data_dependency,
  codegen_runtime_limit,
}
use gsim.MtPlan.Layers.{
  Progress, link, degrees, layer_below, emit_all, push_layer, block, layer_loop,
}
use gsim.MtPlan.Layers.Loop.{
  flatten, layer_of, occurs-layer_below, Inv, Emitted-emit_all, layer_below-Within,
}
use gsim.MtPlan.Layers.Correct.{Placed, Placed-push, Stuck, Stuck-layer_below}

module _ (begin size : ℕ) where
  -- Every task is in one layer, once.
  abbrev pub Once : List (List ℕ) → Type 0
  Once ls = (i : ℕ) → i < size → occurs (begin + i) (flatten ls) ≡ 1

module _ (ordering : ℕ → ℕ → Bool) (begin size : ℕ) where
  abbrev pub Ordered : List (List ℕ) → Type 0
  Ordered ls =
      (f t : ℕ)
      → f < size
      → t < size
      → link ordering begin f t ≡ true
      → layer_of ls (begin + f) < layer_of ls (begin + t)

  Placed-done :
      (p : Progress) (ls : List (List ℕ))
      → Placed ordering begin size p ls
      → size ≤ p.emitted_count
      → Once begin size ls × Ordered ls
  Placed-done p ls h full =
      let all = count_below_full p.emitted size (omega (arith, full, h.inv.counted)) in
      (
        λ i l. ground (arith, h.once i l, all i l),
        λ f t lf lt l. (h.earlier f t lf lt (all t lt) l).1,
      )

  -- A round with a task emits one more.
  emitted_count-lt :
      (p : Progress)
      → Inv ordering begin size p
      → layer_below begin p size ≢ []
      → p.emitted_count
        < (emit_all begin
            (degrees ordering begin size).edges
            (layer_below begin p size)
            p).emitted_count
  emitted_count-lt p h some =
      let layer = layer_below begin p size in
      let within = layer_below-Within ordering begin size size p (omega arith) in
      let after = Emitted-emit_all ordering begin size layer p within h in
      elim (List-cases layer) [
        | inl empty ↦ absurd (some empty)
        | inr (x, xs, e) ↦
            let (low, high) = within x (subst (Memᴰ x) (sym e) (Memᴰ.head refl)) in
            let at : begin + (x - begin) ≡ x = omega (arith, low) in
            let inside : occurs (begin + (x - begin)) layer ≢ 0 =
              rw (at, e) (ground (arith, ==_iff x x)) in
            let found = occurs-layer_below begin size p (x - begin) in
            omega (
              arith,
              h.counted,
              after.inv.counted,
              count_below_lt p.emitted
                  (emit_all begin (degrees ordering begin size).edges layer p).emitted (x - begin)
                  size (omega (arith, low, high)) (ground (arith, found, inside))
                  (ground (arith, after.which (x - begin), inside))
                  (λ j t. ground (arith, after.which j, t)),
            )
      ]

pub record Blocked (r : CoarseRegion) : Type 0 where
  pub no_layers : r.layers ≡ []
  pub not_eligible : r.runtime_eligible ≡ false
  pub data_dependency_noted : has_blocker data_dependency r.blockers ≡ true
  pub limit_noted : has_blocker codegen_runtime_limit r.blockers ≡ true

pub has_blocker-append :
    (b c : Blocker) (bs : List Blocker)
    → has_blocker b (bs ++ c ∷ []) ≡ (has_blocker b bs || (blocker_number c == blocker_number b))
unfolding has_blocker
has_blocker-append b c [] = ground arith
has_blocker-append b c (x ∷ bs) = ground (arith, has_blocker-append b c bs)

has_blocker-add : (b : Blocker) (bs : List Blocker) → has_blocker b (add_coarse_blocker b bs) ≡ true
unfolding add_coarse_blocker
has_blocker-add b bs =
    ground (arith, has_blocker-append b b bs, ==_iff (blocker_number b) (blocker_number b))

has_blocker-kept :
    (b c : Blocker) (bs : List Blocker)
    → has_blocker b bs ≡ true
    → has_blocker b (add_coarse_blocker c bs) ≡ true
unfolding add_coarse_blocker
has_blocker-kept b c bs h = ground (arith, has_blocker-append b c bs)

block-Blocked : (r : CoarseRegion) → Blocked (block r)
unfolding block
block-Blocked r = record {
  no_layers = refl;
  not_eligible = refl;
  data_dependency_noted =
      has_blocker-kept data_dependency codegen_runtime_limit
        (add_coarse_blocker data_dependency r.blockers)
        (has_blocker-add data_dependency r.blockers);
  limit_noted =
      has_blocker-add codegen_runtime_limit (add_coarse_blocker data_dependency r.blockers);
}

module _ (ordering : ℕ → ℕ → Bool) (size : ℕ) where
  abbrev pub Outcome : CoarseRegion → ℕ → Type 0
  Outcome r begin =
      (Once begin size r.layers × Ordered ordering begin size r.layers)
      ⊎ (Blocked r × ((p : Progress) × Stuck ordering begin size p))

  pub layer_loop_outcome :
      (fuel : ℕ) (p : Progress) (r : CoarseRegion)
      → Placed ordering r.begin_cpp_id size p r.layers
      → size ≤ p.emitted_count + fuel
      → Outcome (layer_loop ordering size fuel p r) r.begin_cpp_id
  unfolding layer_loop
  layer_loop_outcome zero p r h enough =
      inl (Placed-done ordering r.begin_cpp_id size p r.layers h (omega (arith, enough)))
  layer_loop_outcome (suc fuel) p r h enough = elim (Bool-cases (ltb p.emitted_count size)) [
    | inr done ↦
        rw done (inl (Placed-done ordering r.begin_cpp_id size p r.layers h (ground (arith, done))))
    | inl more ↦ elim (List-cases (layer_below r.begin_cpp_id p size)) [
      | inl empty ↦
          rw (more, empty)
            (inr (
              block-Blocked r,
              (
                p,
                Stuck-layer_below ordering r.begin_cpp_id size p h.inv
                    (ltb→lt p.emitted_count size more) empty,
              ),
            ))
      | inr (x, xs, e) ↦
          let begin = r.begin_cpp_id in
          let layer = layer_below begin p size in
          let less =
            emitted_count-lt ordering begin size p h.inv (λ none. cons≢nil (sym e ∙ none)) in
          let rest =
            layer_loop_outcome fuel (emit_all begin (degrees ordering begin size).edges layer p)
              (push_layer layer r) (Placed-push ordering begin size p r.layers h)
              (omega (arith, enough, less)) in
          rw (more, e) (rw e at rest)
    ]
  ]
