-- ===== src/LoopDetector/Steps.antt =====
-- The invariant of the search, and what one step gives.
use gsim.Prelude.{
  ℕ, suc, ◌<◌, Bool, true, false, List, [], ◌∷◌, Option, none, some, ◌==◌, ==_iff, if◌then◌else◌,
  ◌≡◌, ◌≢◌, refl, sym, ap, ◌∙◌, arith, inl, inr, Bool-cases,
}
use mathlib.Core.List.{Memᴰ}
use mathlib.Core.List.Memᴰ
use mathlib.Core.Path.{subst}
use gsim.LoopDetector.{
  VisitState, not_visit, expanded, visited, Search, Outcome, running, no_loop, loop_found,
  already_visited, out_of_fuel, set_state, state_of, skip, push, report, action, visit_next, step,
  show_loop,
}
use gsim.LoopDetector.Stack.{
  first_expanded, Live, set_state_other, set_state_same, first_expanded-set, From, Good, Walk,
  Good-set, show_loop-Walk, Good-Live,
}
use gsim.LoopDetector.Work.{weight, work, work-set}

pub none-dead : ¬ Live none
none-dead (inl e) = cc
none-dead (inr e) = cc

pub visited-dead : ¬ Live (some visited)
visited-dead (inl e) = cc
visited-dead (inr e) = cc

abbrev pub Below : ℕ → List ℕ → Type 0
Below n vs = (v : ℕ) → Memᴰ v vs → v < n

module _ (next : ℕ → List ℕ) (n : ℕ) (next_below : (v : ℕ) → v < n → Below n (next v)) where
  pub record Inv (s : Search) : Type 0 where
    pub good : Good next s.states s.stack
    pub on_stack : (v : ℕ) → Live (s.states v) → Memᴰ v s.stack
    pub below : Below n s.stack

  -- What a step may give, from a state with some work left.
  abbrev pub After : ℕ → Outcome → Type 0
  After m (running t) = Inv t × (suc (work t.states n) ≡ m)
  After m no_loop = Unit
  After m (loop_found v shown) = (top : ℕ) × Walk next v top shown × Memᴰ v (next top) × (v ≢ top)
  After m (already_visited v) = ⊥
  After m out_of_fuel = ⊥

  -- A node that is pushed: it is absent, and a successor of the first expanded node.
  pub Inv-push :
      (s : Search) (v : ℕ)
      → Inv s
      → s.states v ≡ none
      → From next (first_expanded s.states s.stack) v
      → v < n
      → Inv (record { stack = v ∷ s.stack; states = set_state s.states v not_visit })
  Inv-push s v h e from b =
      let away : ¬ Memᴰ v s.stack =
        λ m. none-dead (subst Live e (Good-Live next s.states s.stack v h.good m)) in
      record {
        good = (
          inl (set_state_same s.states v not_visit),
          away,
          subst (λ o. From next o v) (sym (first_expanded-set s.states v not_visit s.stack away))
              from,
          Good-set next s.states v not_visit s.stack away h.good,
        );
        on_stack = λ u l. elim (Bool-cases (u == v)) [
          | inl t ↦ Memᴰ.head ((==_iff u v).0 t)
          | inr t ↦ Memᴰ.tail (
              h.on_stack u (
                subst Live
                  (set_state_other s.states v not_visit u (λ k. cc (sym t ∙ (==_iff u v).1 k))) l))
        ];
        below = λ u m. elim (Memᴰ.cases_cons m) [ inl k ↦ omega (arith, k) | inr k ↦ h.below u k ];
      }

  first_expanded-push :
      (s : Search) (v top : ℕ)
      → Inv s
      → s.states v ≡ none
      → first_expanded s.states s.stack ≡ some top
      → first_expanded (set_state s.states v not_visit) (v ∷ s.stack) ≡ some top
  unfolding first_expanded
  first_expanded-push s v top h e f = rw (set_state_same s.states v not_visit) (
      first_expanded-set s.states v not_visit s.stack
        (λ m. none-dead (subst Live e (Good-Live next s.states s.stack v h.good m)))
      ∙ f)

  visit_next-After :
      (top : ℕ) (ns : List ℕ) (s : Search) (m : ℕ)
      → Inv s
      → first_expanded s.states s.stack ≡ some top
      → ((v : ℕ) → Memᴰ v ns → Memᴰ v (next top))
      → top < n
      → suc (work s.states n) ≡ m
      → After m (visit_next top ns s)
  unfolding visit_next
  visit_next-After top [] s m h f sub b w = (h, w)
  visit_next-After top (v ∷ vs) s m h f sub b w =
      let later : (u : ℕ) → Memᴰ u vs → Memᴰ u (next top) = λ u k. sub u (Memᴰ.tail k) in
      by_test (visit_next-After top vs s m h f later b w)
        (λ e.
          visit_next-After top vs _ m
            (Inv-push s v h e (subst (λ o. From next o v) (sym f) edge) in_range)
            (first_expanded-push s v top h e f) later b
            (omega (arith, work-set s.states v not_visit n in_range, ap weight e, w)))
        (v == top) (s.states v) refl refl
    where
      edge : Memᴰ v (next top)
      edge = sub v (Memᴰ.head refl)

      in_range : v < n
      in_range = next_below top b v edge

      by_test :
          After m (visit_next top vs s)
          → (s.states v ≡ none
              → After m (
                  visit_next top vs
                    (record { stack = v ∷ s.stack; states = set_state s.states v not_visit })))
          → (t : Bool) (o : Option VisitState) → (v == top) ≡ t
          → s.states v ≡ o
          → After m (elim (action t o) [
            | skip ↦ visit_next top vs s
            | push ↦
                visit_next top vs
                  (record { stack = v ∷ s.stack; states = set_state s.states v not_visit })
            | report ↦ loop_found v (show_loop s.states v s.stack)
          ])
      by_test idle go true o p q = idle
      by_test idle go false none p q = go q
      by_test idle go false (some not_visit) p q = idle
      by_test idle go false (some visited) p q = idle
      by_test idle go false (some expanded) p q = (
        top,
        show_loop-Walk next s.states v top s.stack h.good (h.on_stack v (inr q)) q f,
        edge,
        λ k. cc (sym p ∙ (==_iff v top).1 k),
      )

  first_expanded-top :
      (top : ℕ) (rest : List ℕ) (states : ℕ → Option VisitState)
      → first_expanded (set_state states top expanded) (top ∷ rest) ≡ some top
  unfolding first_expanded
  first_expanded-top top rest states = rw (set_state_same states top expanded) refl

  Inv-expand :
      (top : ℕ) (rest : List ℕ) (states : ℕ → Option VisitState)
      → Inv (record { stack = top ∷ rest; states = states })
      → Inv (record { stack = top ∷ rest; states = set_state states top expanded })
  Inv-expand top rest states h =
      let (live, once, from, g) = h.good in
      record {
        good = (
          inr (set_state_same states top expanded),
          once,
          subst (λ o. From next o top) (sym (first_expanded-set states top expanded rest once))
              from,
          Good-set next states top expanded rest once g,
        );
        on_stack = λ u l. elim (Bool-cases (u == top)) [
          | inl t ↦ Memᴰ.head ((==_iff u top).0 t)
          | inr t ↦ h.on_stack u (
              subst Live
                (set_state_other states top expanded u (λ k. cc (sym t ∙ (==_iff u top).1 k))) l)
        ];
        below = h.below;
      }

  Inv-leave :
      (top : ℕ) (rest : List ℕ) (states : ℕ → Option VisitState)
      → Inv (record { stack = top ∷ rest; states = states })
      → Inv (record { stack = rest; states = set_state states top visited })
  Inv-leave top rest states h =
      let (live, once, from, g) = h.good in
      record {
        good = Good-set next states top visited rest once g;
        on_stack = λ u l. elim (Bool-cases (u == top)) [
          | inl t ↦ absurd (
              visited-dead (
                subst Live
                  (ap (set_state states top visited) ((==_iff u top).0 t)
                    ∙ set_state_same states top visited)
                  l))
          | inr t ↦
              let away : u ≢ top = λ k. cc (sym t ∙ (==_iff u top).1 k) in
              elim (Memᴰ.cases_cons
                (h.on_stack u (subst Live (set_state_other states top visited u away) l))) [
                  | inl same ↦ absurd (away same)
                  | inr later ↦ later
                ]
        ];
        below = λ u m. h.below u (Memᴰ.tail m);
      }

  pub step-After :
      (is_sorted : Bool) (stack : List ℕ) (states : ℕ → Option VisitState)
      → Inv (record { stack = stack; states = states })
      → After (work states n) (step is_sorted next (record { stack = stack; states = states }))
  unfolding step
  step-After is_sorted [] states h = tt
  step-After is_sorted (top ∷ rest) states h = by_state h.good.0
    where
      in_range : top < n
      in_range = h.below top (Memᴰ.head refl)

      by_state :
          Live (states top)
          → After (work states n) (elim (state_of (states top)) [
            | not_visit ↦
                visit_next top
                  (next top)
                  (record { stack = top ∷ rest; states = set_state states top expanded })
            | expanded ↦ running (record { stack = rest; states = set_state states top visited })
            | visited ↦
                if is_sorted
                then running (record { stack = rest; states = set_state states top visited })
                else already_visited top
          ])
      by_state (inl e) = rw e (
          visit_next-After top (next top) _ (work states n) (Inv-expand top rest states h)
            (first_expanded-top top rest states) (λ v m. m) in_range
            (omega (arith, work-set states top expanded n in_range, ap weight e)))
      by_state (inr e) = rw e (
        Inv-leave top rest states h,
        omega (arith, work-set states top visited n in_range, ap weight e),
      )
