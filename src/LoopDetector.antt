-- ===== src/LoopDetector.antt =====
-- src/loopDetector.cpp: the depth-first search of graph::detectLoop, over next from the sources, and
-- of graph::detectSortedSuperLoop, over depNext from all super nodes. A super node is a number. The
-- stack has its top first. What the search finds is its outcome; the display of a loop is the list
-- of the super nodes that it prints while it pops the stack.
pub mod Stack
pub mod Work
pub mod Steps
pub mod Runs
use gsim.Prelude.{
  ℕ, zero, suc, ◌+◌, Bool, true, false, List, [], ◌∷◌, Option, none, some, ◌==◌, if◌then◌else◌,
}

pub data VisitState : Type 0 where
  not_visit expanded visited : VisitState

pub record Search : Type 0 where
  pub stack : List ℕ
  pub states : ℕ → Option VisitState

pub data Outcome : Type 0 where
  running : Search → Outcome
  no_loop : Outcome
  loop_found : ℕ → List ℕ → Outcome
  already_visited : ℕ → Outcome
  out_of_fuel : Outcome

abbrev pub set_state : (ℕ → Option VisitState) → ℕ → VisitState → ℕ → Option VisitState
set_state states v x u = if u == v then some x else states u

abbrev pub is_expanded : Option VisitState → Bool
is_expanded o = elim o [ some expanded ↦ true | _ ↦ false ]

-- The loop that pops the stack and prints its expanded nodes until it meets next.
unfoldable pub show_loop : (ℕ → Option VisitState) → ℕ → List ℕ → List ℕ
show_loop states next [] = []
show_loop states next (n ∷ stack) =
    let rest = if n == next then [] else show_loop states next stack in
    if is_expanded (states n) then n ∷ rest else rest

-- What the search does at a successor: nothing, push it, or report a loop.
pub data Action : Type 0 where
  skip push report : Action

abbrev pub action : Bool → Option VisitState → Action
action is_top o =
    if is_top then skip else elim o [ none ↦ push | some expanded ↦ report | some _ ↦ skip ]

-- The loop over the successors of top; a loop ends the program at a failed assertion.
unfoldable pub visit_next : ℕ → List ℕ → Search → Outcome
visit_next top [] s = running s
visit_next top (next ∷ ns) s = elim (action (next == top) (s.states next)) [
  | skip ↦ visit_next top ns s
  | push ↦
      visit_next top ns
        (record { stack = next ∷ s.stack; states = set_state s.states next not_visit })
  | report ↦ loop_found next (show_loop s.states next s.stack)
]

-- states[top], which makes an absent entry NOT_VISIT.
abbrev pub state_of : Option VisitState → VisitState
state_of none = not_visit
state_of (some x) = x

-- One round of the while loop. The two searches differ at a visited top.
unfoldable pub step : Bool → (ℕ → List ℕ) → Search → Outcome
step is_sorted next s = elim s.stack [
  | [] ↦ no_loop
  | top ∷ rest ↦ elim (state_of (s.states top)) [
    | not_visit ↦
        visit_next top (next top)
          (record { stack = top ∷ rest; states = set_state s.states top expanded })
    | expanded ↦ running (record { stack = rest; states = set_state s.states top visited })
    | visited ↦
        if is_sorted
        then running (record { stack = rest; states = set_state s.states top visited })
        else already_visited top
  ]
]

-- The sources, pushed in their order.
unfoldable pub push_sources : List ℕ → Search → Search
push_sources [] s = s
push_sources (n ∷ ns) s =
    push_sources ns (record { stack = n ∷ s.stack; states = set_state s.states n not_visit })

unfoldable pub run : ℕ → Bool → (ℕ → List ℕ) → Search → Outcome
run zero is_sorted next s = out_of_fuel
run (suc fuel) is_sorted next s = elim (step is_sorted next s) [
  | running t ↦ run fuel is_sorted next t
  | o ↦ o
]

abbrev pub start : List ℕ → Search
start sources = push_sources sources (record { stack = []; states = λ v. none })

abbrev pub detect_loop : ℕ → (ℕ → List ℕ) → List ℕ → Outcome
detect_loop fuel next supersrc = run fuel false next (start supersrc)

abbrev pub detect_sorted_super_loop : ℕ → (ℕ → List ℕ) → List ℕ → Outcome
detect_sorted_super_loop fuel dep_next sorted_super = run fuel true dep_next (start sorted_super)
