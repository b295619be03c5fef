-- ===== src/Examples/Loops.antt =====
-- The search for loops at concrete inputs.
use gsim.Prelude.{ℕ, zero, suc, ◌<◌, true, false, List, [], ◌∷◌, ◌≡◌, ◌≢◌, refl, arith, inl, inr}
use mathlib.Core.List.{Memᴰ}
use mathlib.Core.List.Memᴰ
use gsim.LoopDetector.{
  no_loop, loop_found, detect_loop, run, start, step, visit_next, push_sources, show_loop,
}
use gsim.LoopDetector.Steps.{Below}
use gsim.LoopDetector.Runs.{Ends, run-start-Ends, run-start-no_loop}

-- 0 → 1 → 2 → 1.
abbrev ring : ℕ → List ℕ
ring zero = 1 ∷ []
ring (suc zero) = 2 ∷ []
ring (suc (suc _)) = 1 ∷ []

ring-Below : (v : ℕ) → v < 3 → Below 3 (ring v)
ring-Below zero h v m = omega (arith, Memᴰ.eq_of_singleton m)
ring-Below (suc zero) h v m = omega (arith, Memᴰ.eq_of_singleton m)
ring-Below (suc (suc _)) h v m = omega (arith, Memᴰ.eq_of_singleton m)

run-start-Ends_example : Ends ring 3 ring-Below (run 7 false ring (start (0 ∷ [])))
run-start-Ends_example =
    run-start-Ends ring 3 ring-Below false (0 ∷ []) (λ m. Memᴰ.not-nil m, tt)
      (λ v m. omega (arith, Memᴰ.eq_of_singleton m))

detect_loop_test : detect_loop 7 ring (0 ∷ []) ≡ loop_found 1 (2 ∷ 1 ∷ [])
unfolding run push_sources step visit_next show_loop
detect_loop_test = refl

-- 0 → 1 → 2.
abbrev line : ℕ → List ℕ
line zero = 1 ∷ []
line (suc zero) = 2 ∷ []
line (suc (suc _)) = []

line-Below : (v : ℕ) → v < 3 → Below 3 (line v)
line-Below zero h v m = omega (arith, Memᴰ.eq_of_singleton m)
line-Below (suc zero) h v m = omega (arith, Memᴰ.eq_of_singleton m)
line-Below (suc (suc _)) h v m = absurd (Memᴰ.not-nil m)

line-up : (u v : ℕ) → Memᴰ v (line u) → u ≢ v → u < v
line-up zero v m h = omega (arith, Memᴰ.eq_of_singleton m)
line-up (suc zero) v m h = omega (arith, Memᴰ.eq_of_singleton m)
line-up (suc (suc _)) v m h = absurd (Memᴰ.not-nil m)

run-start-no_loop_example : run 7 true line (start (2 ∷ 0 ∷ 1 ∷ [])) ≡ no_loop
run-start-no_loop_example =
    run-start-no_loop line 3 line-Below true (2 ∷ 0 ∷ 1 ∷ []) (λ v. v)
      (
        λ m. elim (Memᴰ.cases_cons m) [ inl e ↦ cc e | inr k ↦ cc (Memᴰ.eq_of_singleton k) ],
        (λ m. cc (Memᴰ.eq_of_singleton m), (λ m. Memᴰ.not-nil m, tt)),
      )
      below line-up
  where
    below : Below 3 (2 ∷ 0 ∷ 1 ∷ [])
    below v m = elim (Memᴰ.cases_cons m) [
      | inl e ↦ omega (arith, e)
      | inr k ↦ elim (Memᴰ.cases_cons k) [
        | inl e ↦ omega (arith, e)
        | inr l ↦ omega (arith, Memᴰ.eq_of_singleton l)
      ]
    ]

-- 0 → 1, 0 → 2, 1 → 2 and 2 → 1: the cycle of 1 and 2 is not found, since 1 is on the stack when 2
-- is expanded, and is not looked at again from there.
abbrev hidden : ℕ → List ℕ
hidden zero = 1 ∷ 2 ∷ []
hidden (suc zero) = 2 ∷ []
hidden (suc (suc _)) = 1 ∷ []

missed_loop_test : detect_loop 7 hidden (0 ∷ []) ≡ no_loop
unfolding run push_sources step visit_next show_loop
missed_loop_test = refl
