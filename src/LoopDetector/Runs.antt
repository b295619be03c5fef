-- ===== src/LoopDetector/Runs.antt =====
-- The search ends, and what it reports is a cycle.
use gsim.Prelude.{
  ℕ, zero, suc, ◌*◌, ◌≤◌, ◌<◌, Bool, false, List, [], ◌∷◌, Option, none, ◌==◌, ==_iff, ◌≡◌, ◌≢◌,
  refl, sym, ap, ◌∙◌, arith, inl, inr, Bool-cases,
}
use mathlib.Core.List.{Memᴰ}
use mathlib.Core.List.Memᴰ
use mathlib.Core.Path.{subst}
use gsim.LoopDetector.{
  VisitState, not_visit, Search, Outcome, running, no_loop, loop_found, already_visited,
  out_of_fuel, is_expanded, step, push_sources, start, run,
}
use gsim.LoopDetector.Stack.{first_expanded, set_state_other, From, Walk, stay, onward}
use gsim.LoopDetector.Work.{work, work_le}
use gsim.LoopDetector.Steps.{none-dead, Below, Inv, Inv-push, After, step-After}

-- No node twice.
abbrev pub Distinct : List ℕ → Type 0
Distinct [] = Unit
Distinct (v ∷ vs) = (¬ Memᴰ v vs) × Distinct vs

module _ (next : ℕ → List ℕ) (n : ℕ) (next_below : (v : ℕ) → v < n → Below n (next v)) where
  -- A run of the search ends: it finds no loop, or a walk that an edge closes to a cycle.
  abbrev pub Ends : Outcome → Type 0
  Ends no_loop = Unit
  Ends (loop_found v shown) = (top : ℕ) × Walk next v top shown × Memᴰ v (next top) × (v ≢ top)
  Ends _ = ⊥

  run-Ends :
      (fuel : ℕ) (is_sorted : Bool) (s : Search)
      → Inv next n next_below s
      → work s.states n < fuel
      → Ends (run fuel is_sorted next s)
  unfolding run
  run-Ends zero is_sorted s h b = absurd (omega arith)
  run-Ends (suc fuel) is_sorted s h b =
      by_outcome (step is_sorted next s) (step-After next n next_below is_sorted s.stack s.states h)
        (λ t i w. run-Ends fuel is_sorted t i (omega (arith, w, b)))
    where
      by_outcome :
          (o : Outcome)
          → After next n next_below (work s.states n) o
          → ((t : Search)
              → Inv next n next_below t
              → suc (work t.states n) ≡ work s.states n
              → Ends (run fuel is_sorted next t))
          → Ends (elim o [ running t ↦ run fuel is_sorted next t | o ↦ o ])
      by_outcome (running t) (i, w) go = go t i w
      by_outcome no_loop a go = tt
      by_outcome (loop_found v shown) a go = a
      by_outcome (already_visited v) a go = absurd a
      by_outcome out_of_fuel a go = absurd a

  first_expanded-none :
      (states : ℕ → Option VisitState) (vs : List ℕ)
      → ((v : ℕ) → is_expanded (states v) ≡ false)
      → first_expanded states vs ≡ none
  unfolding first_expanded
  first_expanded-none states [] h = refl
  first_expanded-none states (v ∷ vs) h = rw (h v) (first_expanded-none states vs h)

  push_sources-Inv :
      (ns : List ℕ) (s : Search)
      → Inv next n next_below s
      → ((v : ℕ) → is_expanded (s.states v) ≡ false)
      → ((v : ℕ) → Memᴰ v ns → s.states v ≡ none)
      → Distinct ns
      → Below n ns
      → Inv next n next_below (push_sources ns s)
  unfolding push_sources
  push_sources-Inv [] s h plain absent d b = h
  push_sources-Inv (v ∷ vs) s h plain absent (once, d) b =
      push_sources-Inv vs _
        (Inv-push next n next_below s v h (absent v (Memᴰ.head refl))
          (subst (λ o. From next o v) (sym (first_expanded-none s.states s.stack plain)) tt)
          (b v (Memᴰ.head refl)))
        (λ u. elim (Bool-cases (u == v)) [ inl t ↦ rw t refl | inr t ↦ rw t (plain u) ])
        (λ u m.
          set_state_other s.states v not_visit u (λ e. once (subst (λ k. Memᴰ k vs) e m))
          ∙ absent u (Memᴰ.tail m))
        d (λ u m. b u (Memᴰ.tail m))

  start-Inv :
      (sources : List ℕ)
      → Distinct sources
      → Below n sources
      → Inv next n next_below (start sources)
  start-Inv sources d b =
      push_sources-Inv sources (record { stack = []; states = λ v. none })
        (record {
          good = tt;
          on_stack = λ v l. absurd (none-dead l);
          below = λ v m. absurd (Memᴰ.not-nil m);
        })
        (λ v. refl) (λ v m. refl) d b

  -- For super nodes below n whose successors are below n, and sources without repetition, the
  -- search of detectLoop and of detectSortedSuperLoop ends within 2n + 1 rounds; it never meets a
  -- visited top, and it either finds no loop or prints a walk along edges, from the node it
  -- reports to a node that has an edge back to it.
  pub run-start-Ends :
      (is_sorted : Bool) (sources : List ℕ)
      → Distinct sources
      → Below n sources
      → Ends (run (suc (2 * n)) is_sorted next (start sources))
  run-start-Ends is_sorted sources d b =
      let inv = start-Inv sources d b in
      run-Ends (suc (2 * n)) is_sorted (start sources) inv
        (omega (arith, work_le (start sources).states n))

  Walk-rank :
      (rank : ℕ → ℕ) (u v : ℕ) (vs : List ℕ)
      → ((x y : ℕ) → Memᴰ y (next x) → rank x ≤ rank y)
      → Walk next u v vs
      → rank u ≤ rank v
  Walk-rank rank u v vs up (stay _) = omega arith
  Walk-rank rank u v _ up (onward {v = w} {vs = ws} _ p m) =
      omega (arith, Walk-rank rank u w ws up p, up w v m)

  -- For super nodes below n whose successors are below n, and sources without repetition, if some
  -- rank grows along every edge between different nodes, the search of detectLoop and of
  -- detectSortedSuperLoop ends within 2n + 1 rounds and reports no loop.
  pub run-start-no_loop :
      (is_sorted : Bool) (sources : List ℕ) (rank : ℕ → ℕ)
      → Distinct sources
      → Below n sources
      → ((u v : ℕ) → Memᴰ v (next u) → u ≢ v → rank u < rank v)
      → run (suc (2 * n)) is_sorted next (start sources) ≡ no_loop
  run-start-no_loop is_sorted sources rank d b up =
      by_outcome (run (suc (2 * n)) is_sorted next (start sources))
        (run-start-Ends is_sorted sources d b)
    where
      weakly : (x y : ℕ) → Memᴰ y (next x) → rank x ≤ rank y
      weakly x y m = elim (Bool-cases (x == y)) [
        | inl t ↦ omega (arith, ap rank ((==_iff x y).0 t))
        | inr t ↦ omega (arith, up x y m (λ k. cc (sym t ∙ (==_iff x y).1 k)))
      ]

      by_outcome : (o : Outcome) → Ends o → o ≡ no_loop
      by_outcome no_loop e = refl
      by_outcome (loop_found v shown) (top, walk, edge, apart) = absurd (
          omega (arith, Walk-rank rank v top shown weakly walk, up top v edge (λ k. apart (sym k))))
      by_outcome (running t) e = absurd e
      by_outcome (already_visited v) e = absurd e
      by_outcome out_of_fuel e = absurd e
