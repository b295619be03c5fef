-- ===== src/MergeNodes/Search.antt =====
-- What anyPath of src/mergeNodes.cpp finds.
use gsim.Prelude.{
  ℕ, zero, suc, ◌+◌, ◌≤◌, ◌<◌, Bool, true, false, not, List, [], ◌∷◌, Option, some, ◌==◌, ==_iff,
  length, ◌≡◌, ◌≢◌, refl, ap, sym, ◌∙◌, arith, Bool-cases, List-cases, inl, inr, ◌⊎◌, ◌↔◌,
  Memᴰ-cons,
}
use gsim.Prelude.Counting.{count_below, count_below_one, count_below_le}
use mathlib.Core.Path.{subst}
use mathlib.Core.List.{Memᴰ}
use mathlib.Core.List.Memᴰ
use gsim.MergeNodes.{
  PathSearch, visit, push_all, push_new, expand_path, path_loop, path_start, any_path,
}

some_true≢some_false : some true ≢ some false
some_true≢some_false e = cc

abbrev Visited : PathSearch → ℕ → Type 0
Visited s v = s.visited v ≡ true

Visited-push_all :
    (vs : List ℕ) (s : PathSearch) (w : ℕ) → Visited (push_all vs s) w ↔ (Visited s w ⊎ Memᴰ w vs)
unfolding push_all
Visited-push_all [] s w = (inl, λ h. elim h [ inl old ↦ old | inr m ↦ absurd (Memᴰ.not-nil m) ])
Visited-push_all (v ∷ vs) s w = ground (
  arith,
  Visited-push_all vs (record { stack = v ∷ s.stack; visited = visit s.visited v }) w,
  Memᴰ-cons w v vs,
  ==_iff w v,
)

stack-push_all :
    (vs : List ℕ) (s : PathSearch) (w : ℕ)
    → Memᴰ w (push_all vs s).stack ↔ (Memᴰ w s.stack ⊎ Memᴰ w vs)
unfolding push_all
stack-push_all [] s w = (inl, λ h. elim h [ inl old ↦ old | inr m ↦ absurd (Memᴰ.not-nil m) ])
stack-push_all (v ∷ vs) s w = ground (
  arith,
  stack-push_all vs (record { stack = v ∷ s.stack; visited = visit s.visited v }) w,
  Memᴰ-cons w v vs,
  Memᴰ-cons w v s.stack,
)

Visited-push_new :
    (vs : List ℕ) (s : PathSearch) (w : ℕ) → Visited (push_new vs s) w ↔ (Visited s w ⊎ Memᴰ w vs)
unfolding push_new
Visited-push_new [] s w = (inl, λ h. elim h [ inl old ↦ old | inr m ↦ absurd (Memᴰ.not-nil m) ])
Visited-push_new (v ∷ vs) s w = elim (Bool-cases (s.visited v)) [
  | inl t ↦
      let same : w ≡ v → Visited s w = λ e. ap s.visited e ∙ t in
      rw (push_new, t) (ground (arith, Visited-push_new vs s w, Memᴰ-cons w v vs, same))
  | inr t ↦
      rw (push_new, t)
        (ground (
          arith,
          Visited-push_new vs (record { stack = v ∷ s.stack; visited = visit s.visited v }) w,
          Memᴰ-cons w v vs,
          ==_iff w v,
        ))
]

-- What is put on the stack is a predecessor, and what is visited by it is on the stack.
stack-push_new :
    (vs : List ℕ) (s : PathSearch) (w : ℕ)
    → (Memᴰ w (push_new vs s).stack → Memᴰ w s.stack ⊎ Memᴰ w vs)
      × (Memᴰ w s.stack → Memᴰ w (push_new vs s).stack)
      × (Visited (push_new vs s) w → Visited s w ⊎ Memᴰ w (push_new vs s).stack)
unfolding push_new
stack-push_new [] s w = (inl, λ h. h, inl)
stack-push_new (v ∷ vs) s w = elim (Bool-cases (s.visited v)) [
  | inl t ↦ rw (push_new, t) (ground (arith, stack-push_new vs s w, Memᴰ-cons w v vs))
  | inr t ↦
      rw (push_new, t)
        (ground (
          arith,
          stack-push_new vs (record { stack = v ∷ s.stack; visited = visit s.visited v }) w,
          Memᴰ-cons w v vs,
          Memᴰ-cons w v s.stack,
          ==_iff w v,
        ))
]

module _ (dep_prev : ℕ → List ℕ) (src : ℕ) where
  -- The super nodes that src depends on.
  pub data Before : ℕ → Type 0 where
    direct : {v : ℕ} → Memᴰ v (dep_prev src) → Before v
    further : {u v : ℕ} → Before u → Memᴰ v (dep_prev u) → Before v

module _ (dep_prev : ℕ → List ℕ) (src dst : ℕ) (other : dst ≢ src) where
  record Inv (s : PathSearch) : Type 0 where
    queued : (v : ℕ) → Memᴰ v s.stack → Before dep_prev src v
    reached : (v : ℕ) → Memᴰ v (dep_prev src) → Visited s v
    seen : (v : ℕ) → Memᴰ v s.stack → Visited s v
    done :
        (u : ℕ)
        → Visited s u
        → (u ≡ src) ⊎ Memᴰ u s.stack ⊎ (u ≢ dst) × ((v : ℕ) → Memᴰ v (dep_prev u) → Visited s v)

  Inv-start : Inv (path_start dep_prev src)
  Inv-start =
      let s : PathSearch = record { stack = []; visited = visit (λ v. false) src } in
      record {
        queued = λ v m. elim ((stack-push_all (dep_prev src) s v).0 m) [
          | inl e ↦ absurd (Memᴰ.not-nil e)
          | inr d ↦ direct d
        ];
        reached = λ v m. (Visited-push_all (dep_prev src) s v).1 (inr m);
        seen = λ v m. elim ((stack-push_all (dep_prev src) s v).0 m) [
          | inl e ↦ absurd (Memᴰ.not-nil e)
          | inr d ↦ (Visited-push_all (dep_prev src) s v).1 (inr d)
        ];
        done = λ u h. elim ((Visited-push_all (dep_prev src) s u).0 h) [
          | inl old ↦ inl (ground (arith, old, ==_iff u src))
          | inr d ↦ inr (inl ((stack-push_all (dep_prev src) s u).1 (inr d)))
        ];
      }

  Inv-expand_path :
      (s : PathSearch) (top : ℕ) (rest : List ℕ)
      → s.stack ≡ top ∷ rest
      → top ≢ dst
      → Inv s
      → Inv (expand_path dep_prev top rest s)
  Inv-expand_path s top rest e ne h =
      let t : PathSearch = record { stack = rest; visited = s.visited } in
      let vis = λ (w : ℕ). Visited-push_new (dep_prev top) t w in
      let stk = λ (w : ℕ). stack-push_new (dep_prev top) t w in
      let on_stack : (w : ℕ) → Memᴰ w (top ∷ rest) → Memᴰ w s.stack =
        λ w m. subst (Memᴰ w) (sym e) m in
      record {
        queued = λ v m. elim ((stk v).0 m) [
          | inl old ↦ h.queued v (on_stack v (Memᴰ.tail old))
          | inr new ↦ further (h.queued top (on_stack top (Memᴰ.head refl))) new
        ];
        reached = λ v m. (vis v).1 (inl (h.reached v m));
        seen = λ v m. elim ((stk v).0 m) [
          | inl old ↦ (vis v).1 (inl (h.seen v (on_stack v (Memᴰ.tail old))))
          | inr new ↦ (vis v).1 (inr new)
        ];
        done = λ u visited. elim ((stk u).2 visited) [
          | inr m ↦ inr (inl m)
          | inl old ↦ elim (h.done u old) [
            | inl first ↦ inl first
            | inr (inl m) ↦ elim (Memᴰ.cases_cons (subst (Memᴰ u) e m)) [
              | inl same ↦ inr (
                  inr (
                    λ at. ne (sym same ∙ at),
                    λ v d. (vis v).1 (inr (subst (λ k. Memᴰ v (dep_prev k)) same d)),
                  ))
              | inr later ↦ inr (inl ((stk u).1 later))
            ]
            | inr (inr (away, closed)) ↦ inr (inr (away, λ v d. (vis v).1 (inl (closed v d))))
          ]
        ];
      }

  -- When the stack is empty, everything before src is visited, and none of it is dst.
  Visited-Before :
      (s : PathSearch) → s.stack ≡ [] → Inv s → (v : ℕ) → Before dep_prev src v → Visited s v
  Visited-Before s e h v (direct m) = h.reached v m
  Visited-Before s e h v (further {u} b m) = elim (h.done u (Visited-Before s e h u b)) [
    | inl first ↦ h.reached v (subst (λ k. Memᴰ v (dep_prev k)) first m)
    | inr (inl queued) ↦ absurd (Memᴰ.not-nil (subst (Memᴰ u) e queued))
    | inr (inr (_, closed)) ↦ closed v m
  ]

  not-Before : (s : PathSearch) → s.stack ≡ [] → Inv s → ¬ (Before dep_prev src dst)
  not-Before s e h b = elim (h.done dst (Visited-Before s e h dst b)) [
    | inl first ↦ other first
    | inr (inl queued) ↦ Memᴰ.not-nil (subst (Memᴰ dst) e queued)
    | inr (inr (away, _)) ↦ away refl
  ]

  module _ (n : ℕ) (below : (u v : ℕ) → Memᴰ v (dep_prev u) → v < n) where
    abbrev unvisited : PathSearch → ℕ
    unvisited s = count_below (λ v. not (s.visited v)) n

    abbrev work : PathSearch → ℕ
    work s = unvisited s + length s.stack

    work-push_new :
        (vs : List ℕ) (s : PathSearch)
        → ((v : ℕ) → Memᴰ v vs → v < n)
        → work (push_new vs s) ≡ work s
    unfolding push_new
    work-push_new [] s l = refl
    work-push_new (v ∷ vs) s l = elim (Bool-cases (s.visited v)) [
      | inl t ↦ rw (push_new, t) (work-push_new vs s (λ w m. l w (Memᴰ.tail m)))
      | inr t ↦
          let next : PathSearch = record { stack = v ∷ s.stack; visited = visit s.visited v } in
          let one =
            count_below_one (λ w. not (s.visited w)) (λ w. not (visit s.visited v w)) v n
              (l v (Memᴰ.head refl)) (ground (arith, t)) (ground (arith, ==_iff v v))
              (λ j ne. ground (arith, ne, ==_iff j v)) in
          rw (push_new, t) (omega (arith, work-push_new vs next (λ w m. l w (Memᴰ.tail m)), one))
    ]

    abbrev Decides : Option Bool → Type 0
    Decides r =
        ((r ≡ some true) × Before dep_prev src dst)
        ⊎ ((r ≡ some false) × (¬ (Before dep_prev src dst)))

    path_loop-Decides :
        (fuel : ℕ) (s : PathSearch)
        → Inv s
        → work s ≤ fuel
        → Decides (path_loop dep_prev dst fuel s)
    unfolding path_loop
    path_loop-Decides zero s h enough = elim (List-cases s.stack) [
      | inl e ↦ rw (path_loop, e) (inr (refl, not-Before s e h))
      | inr (x, xs, e) ↦ absurd (omega (arith, enough, ap length e))
    ]
    path_loop-Decides (suc fuel) s h enough = elim (List-cases s.stack) [
      | inl e ↦ rw (path_loop, e) (inr (refl, not-Before s e h))
      | inr (top, rest, e) ↦ elim (Bool-cases (top == dst)) [
        | inl t ↦
            let found = h.queued top (subst (Memᴰ top) (sym e) (Memᴰ.head refl)) in
            rw (path_loop, e, t)
              (inl (refl, subst (Before dep_prev src) ((==_iff top dst).0 t) found))
        | inr t ↦
            let taken : PathSearch = record { stack = rest; visited = s.visited } in
            let less = work-push_new (dep_prev top) taken (below top) in
            rw (path_loop, e, t)
              (path_loop-Decides fuel (expand_path dep_prev top rest s)
                (Inv-expand_path s top rest e (λ same. ground (arith, t, same, ==_iff top dst)) h)
                (omega (arith, less, enough, ap length e)))
      ]
    ]

    length-push_all :
        (vs : List ℕ) (s : PathSearch) → length (push_all vs s).stack ≡ length s.stack + length vs
    unfolding push_all
    length-push_all [] s = omega arith
    length-push_all (v ∷ vs) s =
        omega
          (arith, length-push_all vs (record { stack = v ∷ s.stack; visited = visit s.visited v }))

    any_path-Decides : Decides (any_path dep_prev (n + length (dep_prev src)) src dst)
    unfolding any_path
    any_path-Decides =
        let s : PathSearch = record { stack = []; visited = visit (λ v. false) src } in
        path_loop-Decides (n + length (dep_prev src)) (path_start dep_prev src) Inv-start (
          omega (
            arith,
            length-push_all (dep_prev src) s,
            count_below_le (λ v. not ((path_start dep_prev src).visited v)) n,
          ))

    -- For two different super nodes, and predecessors below n, anyPath with n rounds and one for
    -- each predecessor of the first super node answers true exactly if the first one depends on
    -- the second, over depPrev in one step or more.
    pub any_path_iff :
        (any_path dep_prev (n + length (dep_prev src)) src dst ≡ some true)
        ↔ Before dep_prev src dst
    any_path_iff = elim any_path-Decides [
      | inl (e, b) ↦ (λ _. b, λ _. e)
      | inr (e, no_path) ↦ (λ t. absurd (some_true≢some_false (sym t ∙ e)), λ b. absurd (no_path b))
    ]

    any_path_returns : (b : Bool) × (any_path dep_prev (n + length (dep_prev src)) src dst ≡ some b)
    any_path_returns = elim any_path-Decides [ inl (e, _) ↦ (true, e) | inr (e, _) ↦ (false, e) ]
