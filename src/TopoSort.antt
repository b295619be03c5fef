-- ===== src/TopoSort.antt =====
-- src/topoSort.cpp, the depth-first loop of graph::topoSort: a step takes a super node from the stack,
-- appends it to sortedSuper and counts it at each of its successors; a successor counted as often as it
-- has predecessors goes on the stack. A super node is a number, and depNext and depPrev are parameters.
-- The mark of another epoch is none; count 0 stands for a visited node. An unsigned count does not
-- overflow: it is at most the number of edges.
pub mod Order
use gsim.Prelude.{
  ℕ, ◌+◌, Bool, true, false, List, [], ◌∷◌, Option, none, some, ◌==◌, ◌≡◌, if◌then◌else◌,
}

-- sortedSuper is kept with the last one first.
pub record State : Type 0 where
  pub stack : List ℕ
  pub mark : ℕ → Option ℕ
  pub sorted : List ℕ

abbrev pub count : Option ℕ → ℕ
count none = 0
count (some n) = n

abbrev pub is_visited : Option ℕ → Bool
is_visited none = false
is_visited (some n) = n == 0

abbrev pub set_mark : (ℕ → Option ℕ) → ℕ → ℕ → ℕ → Option ℕ
set_mark mark n c v = if v == n then some c else mark v

module _ (dep_next : ℕ → List ℕ) (dep_prev_size : ℕ → ℕ) where
  -- The loop over the successors.
  unfoldable pub count_next : List ℕ → List ℕ → (ℕ → Option ℕ) → List ℕ × (ℕ → Option ℕ)
  count_next [] stack mark = (stack, mark)
  count_next (n ∷ ns) stack mark =
      count_next ns (if count (mark n) + 1 == dep_prev_size n then n ∷ stack else stack)
        (set_mark mark n (count (mark n) + 1))

  -- One round of the while loop; none at an empty stack or at the failed assertion.
  unfoldable pub step : State → Option State
  unfolding count_next
  step s = elim s.stack [
    | [] ↦ none
    | top ∷ rest ↦
        if is_visited (s.mark top)
        then none
        else let r = count_next (dep_next top) rest (set_mark s.mark top 0) in
          some (record { stack = r.0; mark = r.1; sorted = top ∷ s.sorted })
  ]

  -- The sources without predecessors, on the stack.
  unfoldable pub push_sources : List ℕ → List ℕ → List ℕ
  push_sources [] stack = stack
  push_sources (n ∷ ns) stack = push_sources ns (if dep_prev_size n == 0 then n ∷ stack else stack)

  abbrev pub start : List ℕ → State
  start supersrc = record { stack = push_sources supersrc []; mark = λ v. none; sorted = [] }

  -- The states of the loop.
  pub data Reaches (supersrc : List ℕ) : State → Type 0 where
    begin : Reaches supersrc (start supersrc)
    next : (s t : State) → Reaches supersrc s → step s ≡ some t → Reaches supersrc t
