-- ===== src/MtPlan/Layers/Counts.antt =====
-- The indegrees and the edges that src/cppEmitterMtPlan.cpp collects for the layers, counted.
use gsim.Prelude.{
  ℕ, zero, suc, ◌+◌, ◌-◌, ◌<◌, Bool, ◌&&◌, List, [], ◌∷◌, ltb, ◌==◌, ==_iff, ◌≡◌, arith, bit,
  occurs, occurs-append,
}
use gsim.Prelude.Counting.{count_below, count_below-zero, count_below-suc}
use gsim.MtPlan.Layers.{Degrees, set_at, link, note_edge, note_to, note_from, degrees, decrement}

-- Each occurrence takes one.
pub decrement-occurs : (ts : List ℕ) (f : ℕ → ℕ) (t : ℕ) → decrement ts f t ≡ f t - occurs t ts
unfolding decrement set_at
decrement-occurs [] f t = omega arith
decrement-occurs (x ∷ ts) f t =
    ground (arith, decrement-occurs ts (set_at f x (f x - 1)) t, ==_iff x t, ==_iff t x)

module _ (ordering : ℕ → ℕ → Bool) (begin : ℕ) where
  indegree-note_to :
      (from n : ℕ) (s : Degrees) (t : ℕ)
      → (note_to ordering begin from n s).indegree t
        ≡ s.indegree t + bit (ltb t n && link ordering begin from t)
  unfolding note_to note_edge set_at
  indegree-note_to from zero s t = ground arith
  indegree-note_to from (suc n) s t = ground (arith, indegree-note_to from n s t, ==_iff t n)

  edges-note_edge :
      (from to : ℕ) (s : Degrees) (f t : ℕ)
      → occurs t ((note_edge ordering begin from to s).edges f)
        ≡ occurs t (s.edges f) + bit ((f == from) && ((t == to) && link ordering begin from to))
  unfolding note_edge set_at
  edges-note_edge from to s f t =
      ground
        (arith, occurs-append t (s.edges from) (to ∷ []), ==_iff f from, ==_iff t to, ==_iff to t)

  edges-note_to :
      (from n : ℕ) (s : Degrees) (f t : ℕ)
      → occurs t ((note_to ordering begin from n s).edges f)
        ≡ occurs t (s.edges f) + bit ((f == from) && (ltb t n && link ordering begin from t))
  unfolding note_to
  edges-note_to from zero s f t = ground arith
  edges-note_to from (suc n) s f t = ground (
    arith,
    edges-note_to from n s f t,
    edges-note_edge from n (note_to ordering begin from n s) f t,
    ==_iff t n,
  )

  indegree-note_from :
      (size n : ℕ) (s : Degrees) (t : ℕ)
      → t < size
      → (note_from ordering begin size n s).indegree t
        ≡ s.indegree t + count_below (λ f. link ordering begin f t) n
  unfolding note_from
  indegree-note_from size zero s t h =
      ground (arith, count_below-zero (λ f. link ordering begin f t))
  indegree-note_from size (suc n) s t h = ground (
    arith,
    indegree-note_from size n s t h,
    indegree-note_to n size (note_from ordering begin size n s) t,
    count_below-suc (λ f. link ordering begin f t) n,
  )

  edges-note_from :
      (size n : ℕ) (s : Degrees) (f t : ℕ)
      → t < size
      → occurs t ((note_from ordering begin size n s).edges f)
        ≡ occurs t (s.edges f) + bit (ltb f n && link ordering begin f t)
  unfolding note_from
  edges-note_from size zero s f t h = ground arith
  edges-note_from size (suc n) s f t h = ground (
    arith,
    edges-note_from size n s f t h,
    edges-note_to n size (note_from ordering begin size n s) f t,
    ==_iff f n,
  )

  -- The indegree of an index counts its predecessors.
  pub indegree-degrees :
      (size t : ℕ)
      → t < size
      → (degrees ordering begin size).indegree t ≡ count_below (λ f. link ordering begin f t) size
  indegree-degrees size t h =
      omega
        (arith, indegree-note_from size size (record { indegree = λ i. 0; edges = λ i. [] }) t h)

  -- An index has each of its successors once.
  pub edges-degrees :
      (size f t : ℕ)
      → f < size
      → t < size
      → occurs t ((degrees ordering begin size).edges f) ≡ bit (link ordering begin f t)
  edges-degrees size f t hf h =
      ground
        (arith, edges-note_from size size (record { indegree = λ i. 0; edges = λ i. [] }) f t h)
