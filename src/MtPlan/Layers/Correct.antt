-- ===== src/MtPlan/Layers/Correct.antt =====
-- The layers of src/cppEmitterMtPlan.cpp as a whole: each task once, every edge from an earlier layer to a
-- later one, and none exactly where the edges have a cycle.
use gsim.Prelude.{
  ℕ, zero, suc, ◌+◌, ◌<◌, Bool, true, false, not, ◌&&◌, List, [], ◌∷◌, ◌++◌, ltb_iff, ==_iff, ◌≡◌,
  ◌≢◌, ap, ◌∙◌, sym, arith, bit, occurs, Bool-cases, inl, inr,
}
use gsim.Prelude.Counting.{count_below, count_below_pos, count_below_some, count_below_miss}
use gsim.MtPlan.Layers.{Progress, link, degrees, layer_below, emit_all}
use gsim.MtPlan.Layers.Loop.{
  flatten, layer_of, occurs-flatten_concat, layer_of_lt, layer_of_old, layer_of_new,
  occurs-layer_below, Inv, Emitted-emit_all, layer_below-Within,
}

module _ (ordering : ℕ → ℕ → Bool) (begin size : ℕ) where
  -- A predecessor of a task in a layer is in an earlier one.
  abbrev pub Earlier : Progress → List (List ℕ) → ℕ → ℕ → Type 0
  Earlier p ls f t =
      p.emitted t ≡ true
      → link ordering begin f t ≡ true
      → (p.emitted f ≡ true) × (layer_of ls (begin + f) < layer_of ls (begin + t))

  pub record Placed (p : Progress) (ls : List (List ℕ)) : Type 0 where
    pub inv : Inv ordering begin size p
    pub once : (i : ℕ) → i < size → occurs (begin + i) (flatten ls) ≡ bit (p.emitted i)
    pub earlier : (f t : ℕ) → f < size → t < size → Earlier p ls f t

  -- A task that waits for nothing has its predecessors emitted.
  ready-emitted :
      (p : Progress) (f t : ℕ)
      → Inv ordering begin size p
      → f < size
      → t < size
      → p.indegree t ≡ 0
      → link ordering begin f t ≡ true
      → p.emitted f ≡ true
  ready-emitted p f t h lf lt e l = elim (Bool-cases (p.emitted f)) [
    | inl y ↦ y
    | inr n ↦ absurd (
        count_below_some (λ g. not (p.emitted g) && link ordering begin g t) f size lf
          (ground (arith, n, l)) (sym (h.waiting t lt) ∙ e))
  ]

  pub Placed-push :
      (p : Progress) (ls : List (List ℕ))
      → Placed p ls
      → Placed
          (emit_all begin (degrees ordering begin size).edges (layer_below begin p size) p)
          (ls ++ layer_below begin p size ∷ [])
  Placed-push p ls h =
      let layer = layer_below begin p size in
      let after =
        Emitted-emit_all ordering begin size layer p
          (layer_below-Within ordering begin size size p (omega arith)) h.inv in
      record {
        inv = after.inv;
        once = λ i l. ground (
          arith,
          after.which i,
          h.once i l,
          occurs-flatten_concat (begin + i) ls layer,
          occurs-layer_below begin size p i,
          ltb_iff i size,
        );
        earlier = λ f t lf lt done l.
            let still : p.emitted f ≡ true
                → (emit_all begin (degrees ordering begin size).edges layer p).emitted f ≡ true =
              λ e. ground (arith, after.which f, e) in
            let was_f : p.emitted f ≡ true → occurs (begin + f) (flatten ls) ≢ 0 =
              λ e. ground (arith, h.once f lf, e) in
            elim (Bool-cases (p.emitted t)) [
              | inl old ↦
                  let (e, less) = h.earlier f t lf lt old l in
                  (
                    still e,
                    omega (
                      arith,
                      less,
                      layer_of_old ls layer (begin + f) (was_f e),
                      layer_of_old ls layer (begin + t) (ground (arith, h.once t lt, old)),
                    ),
                  )
              | inr new ↦
                  let inside : occurs (begin + t) layer ≢ 0 =
                    ground (arith, after.which t, done, new) in
                  let waits : p.indegree t ≡ 0 =
                    ground
                      (arith, occurs-layer_below begin size p t, inside, ==_iff (p.indegree t) 0) in
                  let e = ready-emitted p f t h.inv lf lt waits l in
                  (
                    still e,
                    omega (
                      arith,
                      layer_of_lt ls (begin + f) (was_f e),
                      layer_of_old ls layer (begin + f) (was_f e),
                      layer_of_new ls layer (begin + t) (ground (arith, h.once t lt, new)) inside,
                    ),
                  )
            ];
      }

  -- Some task is left, and each one left waits for another.
  pub record Stuck (p : Progress) : Type 0 where
    pub inv : Inv ordering begin size p
    left : ℕ
    left_below : left < size
    left_waits : p.emitted left ≡ false
    all_wait : (t : ℕ) → t < size → p.emitted t ≡ false → p.indegree t ≢ 0

  pub Stuck-layer_below :
      (p : Progress)
      → Inv ordering begin size p
      → p.emitted_count < size
      → layer_below begin p size ≡ []
      → Stuck p
  Stuck-layer_below p h few empty =
      let (i, below, waits) = count_below_miss p.emitted size (omega (arith, few, h.counted)) in
      record {
        inv = h;
        left = i;
        left_below = below;
        left_waits = waits;
        all_wait = λ t l f e.
            let none : occurs (begin + t) (layer_below begin p size) ≡ 0 =
              ap (occurs (begin + t)) empty in
            ground (
              arith,
              occurs-layer_below begin size p t,
              none,
              f,
              e,
              ltb_iff t size,
              ==_iff (p.indegree t) 0,
            );
      }

  -- The edges follow a ranking, so there is no cycle.
  abbrev pub Ranked : (ℕ → ℕ) → Type 0
  Ranked rank = (f t : ℕ) → f < size → t < size → link ordering begin f t ≡ true → rank f < rank t

  pub Stuck-Ranked : (rank : ℕ → ℕ) → Ranked rank → (p : Progress) → Stuck p → ⊥
  Stuck-Ranked rank ranked p s =
      descent (suc (rank s.left)) s.left s.left_below s.left_waits (omega arith)
    where
      descent : (n t : ℕ) → t < size → p.emitted t ≡ false → rank t < n → ⊥
      descent zero t l f less = omega (arith, less)
      descent (suc n) t l f less =
          let counted : count_below (λ g. not (p.emitted g) && link ordering begin g t) size ≢ 0 =
            λ e. s.all_wait t l f (s.inv.waiting t l ∙ e) in
          let (g, below, both) =
            count_below_pos (λ g. not (p.emitted g) && link ordering begin g t) size counted in
          let (waits, linked) : (p.emitted g ≡ false) × (link ordering begin g t ≡ true) =
            ground (arith, both) in
          descent n g below waits (omega (arith, ranked g t below l linked, less))
