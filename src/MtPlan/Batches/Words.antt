-- ===== src/MtPlan/Batches/Words.antt =====
-- The batches of planMtPureBatchesActiveFrequency of src/cppEmitterMtPlan.cpp.
use gsim.Prelude.{
  ℕ, zero, suc, ◌+◌, ◌-◌, ◌%◌, ◌≤◌, ◌<◌, min, max, Bool, true, false, not, ◌&&◌, [], ltb, leb, ◌==◌,
  if◌then◌else◌, ◌≡◌, arith, Bool-cases, inl, inr, ==_iff, ltb→lt,
}
use mathlib.Core.Path.{subst}
use gsim.MtAnalysis.{Design, can_enter_pure_batch, active_width, active_word_is_whole}
use gsim.MtAnalysis.Edges.{can_join_pure_batch, no_edge_to}
use gsim.MtPlan.Batches.{PureBatchPlan, push_batch, grow, skip_to, worth, word_loop, words_loop}
use gsim.MtPlan.Batches.Grow.{ids, grow-Grown, grow_stops}
use gsim.MtPlan.Batches.Apart.{IsBatch, Good, Good-push, Good-le, InWord, grown-IsBatch}

module _ (d : Design) where
  if_true : (a : Bool) → a ≡ true → (if a then true else false) ≡ true
  if_true a e = ground (arith, e)

  second : (a b : Bool) → (a && not b) ≡ false → a ≡ true → b ≡ true
  second a b h e = ground (arith, h, e)

  skip_to_lem :
      (word_end fuel i : ℕ)
      → word_end ≤ i + fuel
      → (i ≤ skip_to d word_end fuel i)
        × (skip_to d word_end fuel i < word_end
            → can_enter_pure_batch d (skip_to d word_end fuel i) ≡ true)
  unfolding skip_to
  skip_to_lem word_end zero i l = (omega arith, λ less. absurd (omega (arith, l, less)))
  skip_to_lem word_end (suc fuel) i l =
      elim (Bool-cases (ltb i word_end && not (can_enter_pure_batch d i))) [
        | inl go ↦
            let (fwd, enter) = skip_to_lem word_end fuel (suc i) (omega (arith, l)) in
            rw go (omega (arith, fwd), enter)
        | inr stop ↦ rw stop (
          omega arith,
          λ less. second (ltb i word_end) (can_enter_pure_batch d i) stop (ground (arith, less)),
        )
      ]

  join_empty : (b : ℕ) → can_enter_pure_batch d b ≡ true → can_join_pure_batch d [] b ≡ true
  unfolding can_join_pure_batch no_edge_to
  join_empty b enter = if_true (can_enter_pure_batch d b) enter

  word-InWord :
      (word_begin b : ℕ)
      → word_begin % active_width ≡ 0
      → word_begin ≤ b
      → b < word_begin + active_width
      → InWord d b (λ e. ltb e (min d.super_id (word_begin + active_width)))
  word-InWord word_begin b aligned low high k l = ground arith

  module _ (word_begin : ℕ) (aligned : word_begin % active_width ≡ 0) where
    abbrev word_end : ℕ
    word_end = min d.super_id (word_begin + active_width)

    word-IsBatch :
        (b : ℕ)
        → word_begin ≤ b
        → b < word_end
        → can_enter_pure_batch d b ≡ true
        → (b < grow d (λ e. ltb e word_end) active_width [] b)
          × (grow d (λ e. ltb e word_end) active_width [] b ≤ word_end)
          × (ltb 1 (grow d (λ e. ltb e word_end) active_width [] b - b) ≡ true
              → IsBatch d (b, grow d (λ e. ltb e word_end) active_width [] b))
    word-IsBatch b low high enter =
        let inside : ℕ → Bool = λ e. ltb e word_end in
        let e = grow d inside active_width [] b in
        let grown =
          grow-Grown d inside b active_width [] b (λ k lo hi. absurd (omega (arith, lo, hi)))
            (record {
              enters = λ k lo hi. absurd (omega (arith, lo, hi));
              apart = λ k j lo less hi. absurd (omega (arith, lo, less, hi));
            }) in
        let stop =
          grow_stops d inside word_end active_width [] b (λ k lo. ground (arith, lo))
            (omega (arith, low)) in
        let moved : b < e = elim (Bool-cases (e == b)) [
          | inr t ↦ ground (arith, t, ==_iff e b, grown.forward)
          | inl t ↦
              let same = (==_iff e b).0 t in
              let none : b - b ≡ 0 = omega arith in
              let at_b =
                subst (λ k. (inside k && can_join_pure_batch d (ids b (k - b)) k) ≡ false) same
                  stop in
              let at_none =
                subst (λ n. (inside b && can_join_pure_batch d (ids b n) b) ≡ false) none at_b in
              absurd (ground (arith, at_none, join_empty b enter, high))
        ] in
        let (bound, batch) =
          grown-IsBatch d inside b e (word-InWord word_begin b aligned low (omega (arith, high)))
            moved grown.run grown.within stop in
        (
          moved,
          omega (
            arith,
            ltb→lt (e - 1) word_end
                (grown.within (e - 1) (omega (arith, moved)) (omega (arith, moved))),
            moved,
          ),
          batch,
        )

    word_loop-Good :
        (threshold fuel i : ℕ) (plan : PureBatchPlan)
        → word_begin ≤ i
        → i ≤ word_end
        → Good d plan i
        → Good d (word_loop d threshold word_end fuel i plan) word_end
    unfolding word_loop
    word_loop-Good threshold zero i plan low high g = Good-le d plan i word_end g high
    word_loop-Good threshold (suc fuel) i plan low high g = elim (Bool-cases (ltb i word_end)) [
      | inr done ↦ rw done (Good-le d plan i word_end g high)
      | inl more ↦
          let b = skip_to d word_end active_width i in
          let (fwd, enter) = skip_to_lem word_end active_width i (omega (arith, low)) in
          elim (Bool-cases (leb word_end b)) [
            | inl all ↦ rw (more, all) (Good-le d plan i word_end g high)
            | inr some ↦
                let e = grow d (λ k. ltb k word_end) active_width [] b in
                let below : b < word_end = ground (arith, some) in
                let (moved, bound, batch) =
                  word-IsBatch b (omega (arith, low, fwd)) below (enter below) in
                let next : max e (b + 1) ≡ e = omega (arith, moved) in
                rw (more, some)
                  (rw next (
                    word_loop-Good threshold fuel e (push_batch (worth d threshold b e) b e plan)
                      (omega (arith, low, fwd, moved)) bound
                      (Good-push d plan (worth d threshold b e) b e e (Good-le d plan i b g fwd)
                        (omega (arith, moved)) (omega arith)
                        (λ both. batch (ground (arith, both))))))
          ]
    ]

  pub words_loop-Good :
      (threshold fuel word_begin : ℕ) (plan : PureBatchPlan)
      → word_begin % active_width ≡ 0
      → Good d plan (min d.super_id word_begin)
      → Good d (words_loop d threshold fuel word_begin plan) d.super_id
  unfolding words_loop
  words_loop-Good threshold zero w plan aligned g =
      Good-le d plan (min d.super_id w) d.super_id g (omega arith)
  words_loop-Good threshold (suc fuel) w plan aligned g =
      let step : (w + active_width) % active_width ≡ 0 = omega (arith, aligned) in
      elim (Bool-cases (ltb w d.super_id)) [
        | inr done ↦ rw done (Good-le d plan (min d.super_id w) d.super_id g (omega arith))
        | inl more ↦
            let here : min d.super_id w ≡ w = omega (arith, ltb→lt w d.super_id more) in
            let good = subst (Good d plan) here g in
            elim (Bool-cases (active_word_is_whole d w)) [
              | inr skip ↦
                  rw (more, skip)
                    (words_loop-Good threshold fuel (w + active_width) plan step (
                      Good-le d plan w (min d.super_id (w + active_width)) good
                        (omega (arith, ltb→lt w d.super_id more))))
              | inl take ↦
                  rw (more, take)
                    (words_loop-Good threshold fuel (w + active_width)
                      (word_loop d threshold (min d.super_id (w + active_width)) active_width w
                        plan)
                      step
                      (word_loop-Good w aligned threshold active_width w plan (omega arith)
                        (omega (arith, ltb→lt w d.super_id more)) good))
            ]
      ]
