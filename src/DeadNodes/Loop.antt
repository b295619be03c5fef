-- ===== src/DeadNodes/Loop.antt =====
-- What one round of the loop of removeDeadNodes marks and queues, and that the loop ends.
use gsim.Prelude.{
  ℕ, zero, suc, ◌+◌, ◌≤◌, ◌<◌, List, [], ◌∷◌, some, ◌==◌, ==_iff, if◌then◌else◌, ◌≡◌, ◌≢◌, refl, ap,
  ◌∙◌, arith, Bool-cases, inl, inr, ◌⊎◌, ◌↔◌, length, length-append, List-cases, Memᴰ-cons,
  Memᴰ-concat,
}
use mathlib.Core.Path.{subst}
use mathlib.Core.List.{Memᴰ}
use mathlib.Core.List.Memᴰ
use mathlib.Core.Logic.{⊎_elim}
use gsim.DeadNodes.{Node, Search, stamp, add, add_all, relied, expand, loop, start, reach}

-- The nodes below n without the mark.
unfoldable pub unmarked : ℕ → (ℕ → ℕ) → ℕ → ℕ
unmarked epoch marks zero = 0
unmarked epoch marks (suc n) =
    let rest = unmarked epoch marks n in if marks n == epoch then rest else suc rest

unmarked_le : (epoch : ℕ) (marks : ℕ → ℕ) (n : ℕ) → unmarked epoch marks n ≤ n
unfolding unmarked
unmarked_le epoch marks zero = omega arith
unmarked_le epoch marks (suc n) = ground (arith, unmarked_le epoch marks n)

unmarked-stamp_out :
    (epoch : ℕ) (marks : ℕ → ℕ) (v n : ℕ)
    → n ≤ v
    → unmarked epoch (stamp marks epoch v) n ≡ unmarked epoch marks n
unfolding unmarked
unmarked-stamp_out epoch marks v zero h = refl
unmarked-stamp_out epoch marks v (suc n) h =
    ground (arith, unmarked-stamp_out epoch marks v n, ==_iff n v)

unmarked-stamp :
    (epoch : ℕ) (marks : ℕ → ℕ) (v n : ℕ)
    → v < n
    → marks v ≢ epoch
    → suc (unmarked epoch (stamp marks epoch v) n) ≡ unmarked epoch marks n
unfolding unmarked
unmarked-stamp epoch marks v zero h f = absurd (omega arith)
unmarked-stamp epoch marks v (suc n) h f = elim (Bool-cases (n == v)) [
  | inl t ↦ ground (arith, unmarked-stamp_out epoch marks v n, ==_iff n v, ==_iff (marks n) epoch)
  | inr t ↦ ground (arith, unmarked-stamp epoch marks v n, ==_iff n v, ==_iff (marks n) epoch)
]

module _ (node : ℕ → Node) (epoch : ℕ) where
  abbrev pub Marked : Search → ℕ → Type 0
  Marked s v = s.reach_epoch v ≡ epoch

  Marked-add : (s : Search) (v w : ℕ) → Marked (add node epoch s v) w ↔ (Marked s w ⊎ (w ≡ v))
  unfolding add
  Marked-add s v w = ground (arith, ==_iff (s.reach_epoch v) epoch, ==_iff w v)

  pub Marked-add_all :
      (vs : List ℕ) (s : Search) (w : ℕ)
      → Marked (add_all node epoch vs s) w ↔ (Marked s w ⊎ Memᴰ w vs)
  unfolding add_all
  Marked-add_all [] s w = (inl, ⊎_elim (λ m. m) (λ new. absurd (Memᴰ.not-nil new)))
  Marked-add_all (v ∷ vs) s w =
      ground (arith, Marked-add_all vs (add node epoch s v) w, Marked-add s v w, Memᴰ-cons w v vs)

  Memᴰ-add :
      (s : Search) (v w : ℕ)
      → Memᴰ w (add node epoch s v).pending
        ↔ (Memᴰ w s.pending ⊎ (w ≡ v) × (s.reach_epoch v ≢ epoch))
  unfolding add
  Memᴰ-add s v w = ground (arith, ==_iff (s.reach_epoch v) epoch, Memᴰ-concat w v s.pending)

  -- What is added is queued exactly if it is marked now and was not before.
  pub Memᴰ-add_all :
      (vs : List ℕ) (s : Search) (w : ℕ)
      → Memᴰ w (add_all node epoch vs s).pending
        ↔ (Memᴰ w s.pending ⊎ Memᴰ w vs × (s.reach_epoch w ≢ epoch))
  unfolding add_all
  Memᴰ-add_all [] s w = (inl, ⊎_elim (λ m. m) (λ new. absurd (Memᴰ.not-nil new.0)))
  Memᴰ-add_all (v ∷ vs) s w = ground (
    arith,
    Memᴰ-add_all vs (add node epoch s v) w,
    Memᴰ-add s v w,
    Marked-add s v w,
    Memᴰ-cons w v vs,
    ==_iff w v,
  )

  module _ (n : ℕ) where
    abbrev pub Below : List ℕ → Type 0
    Below vs = (v : ℕ) → Memᴰ v vs → v < n

    -- It stays at an addition and falls by one when a node is taken.
    abbrev pub work : Search → ℕ
    work s = unmarked epoch s.reach_epoch n + length s.pending

    work-add : (s : Search) (v : ℕ) → v < n → work (add node epoch s v) ≡ work s
    unfolding add
    work-add s v h = ground (
      arith,
      ==_iff (s.reach_epoch v) epoch,
      unmarked-stamp epoch s.reach_epoch v n h,
      length-append s.pending (v ∷ []),
    )

    pub work-add_all :
        (vs : List ℕ) (s : Search) → Below vs → work (add_all node epoch vs s) ≡ work s
    unfolding add_all
    work-add_all [] s h = refl
    work-add_all (v ∷ vs) s h =
        work-add_all vs (add node epoch s v) (λ w m. h w (Memᴰ.tail m))
        ∙ work-add s v (h v (Memᴰ.head refl))

    pub work-start :
        (from : List ℕ) (marks : ℕ → ℕ) → Below from → work (start node epoch from marks) ≤ n
    work-start from marks h = omega (
      arith,
      work-add_all from (record { pending = []; reach_epoch = marks }) h,
      unmarked_le epoch marks n,
    )

    Below-add_all :
        (vs : List ℕ) (s : Search)
        → Below vs
        → Below s.pending
        → Below (add_all node epoch vs s).pending
    Below-add_all vs s h p w m = ground (arith, Memᴰ-add_all vs s w, h w, p w)

    module _ (prev_below : (v : ℕ) → v < n → Below (node v).prev)
        (relied_below : (v : ℕ) → v < n → Below (relied node epoch (node v))) where
      Below-expand :
          (s : Search) (top : ℕ) (rest : List ℕ)
          → Below (top ∷ rest)
          → Below (expand node epoch s top rest).pending
      unfolding expand
      Below-expand s top rest h =
          let top_below = h top (Memᴰ.head refl) in
          Below-add_all (relied node epoch (node top)) _ (relied_below top top_below)
            (Below-add_all (node top).prev _ (prev_below top top_below) (λ w m. h w (Memᴰ.tail m)))

      work-expand :
          (s : Search) (top : ℕ) (rest : List ℕ)
          → s.pending ≡ top ∷ rest
          → Below (top ∷ rest)
          → suc (work (expand node epoch s top rest)) ≡ work s
      unfolding expand
      work-expand s top rest e h =
          let top_below = h top (Memᴰ.head refl) in
          let taken : Search = record { pending = rest; reach_epoch = s.reach_epoch } in
          omega (
            arith,
            work-add_all (relied node epoch (node top)) (add_all node epoch (node top).prev taken)
                (relied_below top top_below),
            work-add_all (node top).prev taken (prev_below top top_below),
            ap length e,
          )

      pub loop_ends :
          (fuel : ℕ) (s : Search)
          → Below s.pending
          → work s ≤ fuel
          → (t : Search) × (loop node epoch fuel s ≡ some t)
      unfolding loop
      loop_ends zero s b h = (s, ground arith)
      loop_ends (suc fuel) s b h = elim (List-cases s.pending) [
        | inl empty ↦ (s, simp (empty, loop))
        | inr (top, rest, e) ↦
            let below = subst Below e b in
            let (t, ends) =
              loop_ends fuel (expand node epoch s top rest) (Below-expand s top rest below)
                (omega (arith, work-expand s top rest e below)) in
            (t, ground arith)
      ]

      -- A search that starts from nodes below n ends within n rounds.
      pub reach_returns :
          (from : List ℕ) (marks : ℕ → ℕ)
          → Below from
          → (t : Search) × (reach node epoch n from marks ≡ some t)
      reach_returns from marks h =
          loop_ends n (start node epoch from marks)
            (Below-add_all from (record { pending = []; reach_epoch = marks }) h
              (λ w m. absurd (Memᴰ.not-nil m)))
            (work-start from marks h)
