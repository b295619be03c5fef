-- ===== src/LoopDetector/Stack.antt =====
-- The stack of the search: every entry is a successor of the next expanded entry below it, so that
-- the expanded entries are a walk, and what is shown of it is a part of that walk.
use gsim.Prelude.{
  ℕ, Bool, true, false, List, [], ◌∷◌, Option, none, some, ◌==◌, ==_iff, if◌then◌else◌, ◌≡◌, ◌≢◌,
  refl, sym, ap, ◌∙◌, arith, inl, inr, ◌⊎◌, Bool-cases,
}
use mathlib.Core.List.{Memᴰ}
use mathlib.Core.List.Memᴰ
use mathlib.Core.Path.{subst}
use gsim.LoopDetector.{VisitState, not_visit, expanded, set_state, is_expanded, show_loop}

unfoldable pub first_expanded : (ℕ → Option VisitState) → List ℕ → Option ℕ
first_expanded states [] = none
first_expanded states (v ∷ vs) =
    let rest = first_expanded states vs in if is_expanded (states v) then some v else rest

abbrev pub Live : Option VisitState → Type 0
Live o = (o ≡ some not_visit) ⊎ (o ≡ some expanded)

pub set_state_other :
    (states : ℕ → Option VisitState) (v : ℕ) (x : VisitState) (u : ℕ)
    → u ≢ v
    → set_state states v x u ≡ states u
set_state_other states v x u h = ground (arith, ==_iff u v)

pub set_state_same :
    (states : ℕ → Option VisitState) (v : ℕ) (x : VisitState) → set_state states v x v ≡ some x
set_state_same states v x = rw ((==_iff v v).1 refl) refl

pub first_expanded-set :
    (states : ℕ → Option VisitState) (v : ℕ) (x : VisitState) (vs : List ℕ)
    → ¬ Memᴰ v vs
    → first_expanded (set_state states v x) vs ≡ first_expanded states vs
unfolding first_expanded
first_expanded-set states v x [] h = refl
first_expanded-set states v x (u ∷ us) h =
    rw
      (
        set_state_other states v x u (λ e. h (Memᴰ.head (sym e))),
        first_expanded-set states v x us (λ m. h (Memᴰ.tail m)),
      )
      refl

module _ (next : ℕ → List ℕ) where
  abbrev pub From : Option ℕ → ℕ → Type 0
  From none v = Unit
  From (some u) v = Memᴰ v (next u)

  abbrev pub Good : (ℕ → Option VisitState) → List ℕ → Type 0
  Good states [] = Unit
  Good states (v ∷ vs) =
      Live (states v) × (¬ Memᴰ v vs) × From (first_expanded states vs) v × Good states vs

  -- A walk, with its nodes from the last to the first.
  pub data Walk : ℕ → ℕ → List ℕ → Type 0 where
    stay : (u : ℕ) → Walk u u (u ∷ [])
    onward : {u v : ℕ} {vs : List ℕ} (w : ℕ) → Walk u v vs → Memᴰ w (next v) → Walk u w (w ∷ vs)

  pub Good-set :
      (states : ℕ → Option VisitState) (v : ℕ) (x : VisitState) (vs : List ℕ)
      → ¬ Memᴰ v vs
      → Good states vs
      → Good (set_state states v x) vs
  Good-set states v x [] h g = tt
  Good-set states v x (u ∷ us) h (live, once, from, g) =
      let away : ¬ Memᴰ v us = λ m. h (Memᴰ.tail m) in
      (
        subst Live (sym (set_state_other states v x u (λ e. h (Memᴰ.head (sym e))))) live,
        once,
        subst (λ o. From o u) (sym (first_expanded-set states v x us away)) from,
        Good-set states v x us away g,
      )

  -- An expanded node of the stack: there is a first one.
  first_expanded-some :
      (states : ℕ → Option VisitState) (v : ℕ) (vs : List ℕ)
      → Memᴰ v vs
      → states v ≡ some expanded
      → (u : ℕ) × (first_expanded states vs ≡ some u)
  unfolding first_expanded
  first_expanded-some states v [] m e = absurd (Memᴰ.not-nil m)
  first_expanded-some states v (u ∷ us) m e = elim (Memᴰ.cases_cons m) [
    | inl same ↦ (u, rw (ap is_expanded (sym (ap states same) ∙ e)) refl)
    | inr later ↦
        let (w, found) = first_expanded-some states v us later e in
        elim (Bool-cases (is_expanded (states u))) [
          | inl t ↦ (u, rw t refl)
          | inr t ↦ (w, rw t found)
        ]
  ]

  pub show_loop-Walk :
      (states : ℕ → Option VisitState) (v top : ℕ) (vs : List ℕ)
      → Good states vs
      → Memᴰ v vs
      → states v ≡ some expanded
      → first_expanded states vs ≡ some top
      → Walk v top (show_loop states v vs)
  unfolding first_expanded show_loop
  show_loop-Walk states v top [] g m e f = absurd (Memᴰ.not-nil m)
  show_loop-Walk states v top (u ∷ us) (live, once, from, g) m e f =
      by_test (λ w t r. show_loop-Walk states v w us g (later t) e r) (is_expanded (states u))
        (u == v) refl refl f
    where
      later : (u == v) ≡ false → Memᴰ v us
      later t = elim (Memᴰ.cases_cons m) [
        | inl same ↦ cc (sym t ∙ (==_iff u v).1 (sym same))
        | inr k ↦ k
      ]

      by_test :
          ((w : ℕ)
            → (u == v) ≡ false
            → first_expanded states us ≡ some w
            → Walk v w (show_loop states v us))
          → (b t : Bool) → is_expanded (states u) ≡ b
          → (u == v) ≡ t
          → (if b then some u else first_expanded states us) ≡ some top
          → Walk v top (
              if b
              then u ∷ (if t then [] else show_loop states v us)
              else if t
              then []
              else show_loop states v us)
      by_test ih true true p q r =
          let same : u ≡ v = (==_iff u v).0 q in
          let at_top : u ≡ top = cc r in
          subst (λ k. Walk v k (u ∷ [])) at_top (subst (λ k. Walk k u (u ∷ [])) same (stay u))
      by_test ih true false p q r =
          let (w, found) = first_expanded-some states v us (later q) e in
          let at_top : u ≡ top = cc r in
          subst (λ k. Walk v k (u ∷ show_loop states v us)) at_top
            (onward u (ih w q found) (subst (λ o. From o u) found from))
      by_test ih false true p q r =
          absurd (cc (sym p ∙ ap is_expanded (ap states ((==_iff u v).0 q) ∙ e)))
      by_test ih false false p q r = ih top q r

  -- What is on the stack is live.
  pub Good-Live :
      (states : ℕ → Option VisitState) (vs : List ℕ) (v : ℕ)
      → Good states vs
      → Memᴰ v vs
      → Live (states v)
  Good-Live states [] v g m = absurd (Memᴰ.not-nil m)
  Good-Live states (u ∷ us) v (live, _, _, g) m = elim (Memᴰ.cases_cons m) [
    | inl same ↦ subst (λ k. Live (states k)) (sym same) live
    | inr later ↦ Good-Live states us v g later
  ]
