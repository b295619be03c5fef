-- ===== src/MtPlan/Batches/Legacy.antt =====
-- The batches of planMtPureBatchesLegacy of src/cppEmitterMtPlan.cpp.
use gsim.Prelude.{
  ℕ, zero, suc, ◌-◌, ◌/◌, ◌≤◌, ◌<◌, true, false, ◌&&◌, [], ◌∷◌, ltb, ◌==◌, if◌then◌else◌, ◌≡◌, refl,
  sym, arith, Bool-cases, inl, inr, ==_iff,
}
use mathlib.Core.Path.{subst}
use mathlib.Core.List.{Memᴰ}
use gsim.MtAnalysis.{Design, can_enter_pure_batch, active_word_is_whole}
use gsim.MtAnalysis.Edges.{can_join_pure_batch}
use gsim.MtPlan.Batches.{PureBatchPlan, push_batch, grow, legacy_inside, legacy_loop}
use gsim.MtPlan.Batches.Grow.{ids, grow-Grown, grow_stops}
use gsim.MtPlan.Batches.Apart.{IsBatch, Good, Good-push, Good-le, IsRun-one, InWord, grown-IsBatch}

module _ (d : Design) where
  legacy-InWord : (i : ℕ) → InWord d i (legacy_inside d i)
  legacy-InWord i k l = ground (arith, ==_iff (k / 8) (i / 8))

  pub legacy-IsBatch :
      (i : ℕ)
      → i < d.super_id
      → can_enter_pure_batch d i ≡ true
      → (suc i ≤ grow d (legacy_inside d i) d.super_id (i ∷ []) (suc i))
        × (grow d (legacy_inside d i) d.super_id (i ∷ []) (suc i) ≤ d.super_id)
        × (ltb 1 (grow d (legacy_inside d i) d.super_id (i ∷ []) (suc i) - i) ≡ true
            → IsBatch d (i, grow d (legacy_inside d i) d.super_id (i ∷ []) (suc i)))
  legacy-IsBatch i l h =
      let inside = legacy_inside d i in
      let e = grow d inside d.super_id (i ∷ []) (suc i) in
      let grown =
        grow-Grown d inside i d.super_id (i ∷ []) (suc i)
          (λ k low high. Memᴰ.head (omega (arith, low, high))) (IsRun-one d i h) in
      let stop =
        grow_stops d inside d.super_id d.super_id (i ∷ []) (suc i) (λ k low. ground (arith, low))
          (omega arith) in
      let here : inside i ≡ true = (legacy-InWord i i (omega arith)).1 (l, refl) in
      let size : suc (e - suc i) ≡ e - i = omega (arith, grown.forward) in
      let (bound, batch) =
        grown-IsBatch d inside i e (legacy-InWord i) grown.forward grown.run
          (λ k low high. elim (Bool-cases (k == i)) [
            | inl t ↦ subst (λ j. inside j ≡ true) (sym ((==_iff k i).0 t)) here
            | inr t ↦ grown.within k (ground (arith, low, t, ==_iff k i)) high
          ])
          (subst (λ n. (inside e && can_join_pure_batch d (ids i n) e) ≡ false) size stop) in
      (grown.forward, bound, batch)

  pub legacy_loop-Good :
      (fuel i : ℕ) (plan : PureBatchPlan)
      → Good d plan i
      → i ≤ d.super_id
      → Good d (legacy_loop d fuel i plan) d.super_id
  unfolding legacy_loop
  legacy_loop-Good zero i plan g l = Good-le d plan i d.super_id g l
  legacy_loop-Good (suc fuel) i plan g l = elim (Bool-cases (ltb i d.super_id)) [
    | inr done ↦ rw done (Good-le d plan i d.super_id g l)
    | inl more ↦ elim (Bool-cases (active_word_is_whole d i && can_enter_pure_batch d i)) [
      | inr skip ↦
          rw (more, skip)
            (legacy_loop-Good fuel (suc i) plan (Good-le d plan i (suc i) g (omega arith))
              (ground (arith, more)))
      | inl take ↦
          let e = grow d (legacy_inside d i) d.super_id (i ∷ []) (suc i) in
          let (fwd, bound, batch) =
            legacy-IsBatch i (ground (arith, more)) (ground (arith, take)) in
          let next : (if ltb 1 (e - i) then suc (e - 1) else suc i) ≡ e = ground (arith, fwd) in
          rw (more, take)
            (rw next (
              legacy_loop-Good fuel e (push_batch (ltb 1 (e - i)) i e plan)
                (Good-push d plan (ltb 1 (e - i)) i e e g (omega (arith, fwd)) (omega arith) batch)
                bound))
    ]
  ]
