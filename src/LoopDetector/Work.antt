-- ===== src/LoopDetector/Work.antt =====
-- The work that is left to the search.
use gsim.Prelude.{
  ℕ, zero, suc, ◌+◌, ◌*◌, ◌≤◌, ◌<◌, Option, none, some, ◌==◌, ==_iff, ◌≡◌, ◌≢◌, refl, sym, ap, ◌∙◌,
  arith, inl, inr, Bool-cases,
}
use gsim.LoopDetector.{VisitState, not_visit, expanded, visited, set_state}
use gsim.LoopDetector.Stack.{set_state_other, set_state_same}

-- What is still to be done at a node: expand it and leave it.
abbrev pub weight : Option VisitState → ℕ
weight o = elim o [ none ↦ 2 | some not_visit ↦ 2 | some expanded ↦ 1 | some visited ↦ 0 ]

unfoldable pub work : (ℕ → Option VisitState) → ℕ → ℕ
work states zero = 0
work states (suc n) = weight (states n) + work states n

weight_le : (o : Option VisitState) → weight o ≤ 2
weight_le none = omega arith
weight_le (some not_visit) = omega arith
weight_le (some expanded) = omega arith
weight_le (some visited) = omega arith

pub work_le : (states : ℕ → Option VisitState) (n : ℕ) → work states n ≤ 2 * n
unfolding work
work_le states zero = omega arith
work_le states (suc n) = omega (arith, work_le states n, weight_le (states n))

work-set_out :
    (states : ℕ → Option VisitState) (v : ℕ) (x : VisitState) (n : ℕ)
    → n ≤ v
    → work (set_state states v x) n ≡ work states n
unfolding work
work-set_out states v x zero h = refl
work-set_out states v x (suc n) h = omega (
  arith,
  ap weight (set_state_other states v x n (λ e. omega (arith, e))),
  work-set_out states v x n (omega arith),
)

pub work-set :
    (states : ℕ → Option VisitState) (v : ℕ) (x : VisitState) (n : ℕ)
    → v < n
    → work (set_state states v x) n + weight (states v) ≡ work states n + weight (some x)
unfolding work
work-set states v x zero h = absurd (omega arith)
work-set states v x (suc n) h = elim (Bool-cases (n == v)) [
  | inl t ↦
      let e = (==_iff n v).0 t in
      omega (
        arith,
        work-set_out states v x n (omega (arith, e)),
        ap weight (ap states e),
        ap weight (ap (set_state states v x) e ∙ set_state_same states v x),
      )
  | inr t ↦
      let e : n ≢ v = λ k. cc (sym t ∙ (==_iff n v).1 k) in
      omega (
        arith,
        work-set states v x n (omega (arith, e)),
        ap weight (set_state_other states v x n e),
      )
]
