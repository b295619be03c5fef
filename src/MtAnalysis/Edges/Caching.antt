-- ===== src/MtAnalysis/Edges/Caching.antt =====
-- The caches of src/cppEmitterMtAnalysis.cpp give what they were computed from.
use gsim.Prelude.{
  ℕ, ◌^◌, ◌<◌, Bool, true, false, ◌||◌, Option, none, some, ◌==◌, ==_iff, ◌≡◌, refl, arith, inl,
  inr, Bool-cases,
}
use gsim.MtAnalysis.{Design}
use gsim.MtAnalysis.Edges.{
  edge_cache_key, Cache, Caches, emplace, through_cache, either, has_ordering_edge, ordering_edge,
  dependency_edge_uncached, active_edge_uncached,
}

-- Ids below 2 ^ 32 have a key of their own.
pub edge_cache_key_inj :
    (a b x y : ℕ)
    → a < 2 ^ 32
    → b < 2 ^ 32
    → x < 2 ^ 32
    → y < 2 ^ 32
    → edge_cache_key a b ≡ edge_cache_key x y
    → (a ≡ x) × (b ≡ y)
unfolding edge_cache_key
edge_cache_key_inj a b x y ha hb hx hy e = (omega (arith, e), omega (arith, e))

module _ (uncached : ℕ → ℕ → Bool) where
  -- Every entry is what the function gives for the two ids of its key.
  abbrev pub Coherent : Cache → Type 0
  Coherent c =
      (i j : ℕ)
      → i < 2 ^ 32
      → j < 2 ^ 32
      → (v : Bool) → c (edge_cache_key i j) ≡ some v
      → v ≡ uncached i j

  Coherent-emplace :
      (from to : ℕ) (c : Cache)
      → from < 2 ^ 32
      → to < 2 ^ 32
      → Coherent c
      → Coherent (emplace c (edge_cache_key from to) (uncached from to))
  unfolding emplace
  Coherent-emplace from to c hf ht h i j hi hj v found =
      elim (Bool-cases (edge_cache_key i j == edge_cache_key from to)) [
        | inl same ↦
            let (e1, e2) = edge_cache_key_inj i j from to hi hj hf ht ((==_iff _ _).0 same) in
            let e : some (uncached from to) ≡ some v = rw same at found in cc
        | inr other ↦ h i j hi hj v (rw other at found)
      ]

  pub through_cache_lem :
      (enabled : Bool) (from to : ℕ) (c : Cache)
      → from < 2 ^ 32
      → to < 2 ^ 32
      → Coherent c
      → ((through_cache uncached enabled from to c).0 ≡ uncached from to)
        × Coherent (through_cache uncached enabled from to c).1
  unfolding through_cache
  through_cache_lem false from to c hf ht h = (refl, h)
  through_cache_lem true from to c hf ht h = go (c (edge_cache_key from to)) refl
    where
      go :
          (o : Option Bool)
          → c (edge_cache_key from to) ≡ o
          → ((through_cache uncached true from to c).0 ≡ uncached from to)
            × Coherent (through_cache uncached true from to c).1
      go none e = rw e (refl, Coherent-emplace from to c hf ht h)
      go (some v) e = rw e (h from to hf ht v e, h)

either_lem :
    (p q : ℕ → ℕ → Bool) (a b : Bool) (first second : Bool × Cache) (c : Cache)
    → (first.0 ≡ a) × Coherent p first.1
    → (second.0 ≡ b) × Coherent q second.1
    → Coherent q c
    → ((either first second c).0 ≡ (a || b))
      × Coherent p (either first second c).1.dependency
      × Coherent q (either first second c).1.active
unfolding either
either_lem p q true b (true, c1) (y, c2) c (e, h1) (e2, h2) h = (refl, h1, h)
either_lem p q false b (false, c1) (y, c2) c (e, h1) (e2, h2) h = (e2, h1, h2)
either_lem p q true b (false, c1) (y, c2) c (e, h1) (e2, h2) h = cc
either_lem p q false b (true, c1) (y, c2) c (e, h1) (e2, h2) h = cc

-- For ids below 2 ^ 32, and caches whose entries are what the two uncached functions give,
-- mtTaskHasOrderingEdgeTo answers what it answers without caches, with the caches on or off, and
-- leaves caches of that kind.
pub has_ordering_edge_lem :
    (d : Design) (enabled : Bool) (from to : ℕ) (c : Caches)
    → from < 2 ^ 32
    → to < 2 ^ 32
    → Coherent (dependency_edge_uncached d) c.dependency
    → Coherent (active_edge_uncached d) c.active
    → ((has_ordering_edge d enabled from to c).0 ≡ ordering_edge d from to)
      × Coherent (dependency_edge_uncached d) (has_ordering_edge d enabled from to c).1.dependency
      × Coherent (active_edge_uncached d) (has_ordering_edge d enabled from to c).1.active
unfolding has_ordering_edge
has_ordering_edge_lem d enabled from to c hf ht hd ha =
    either_lem (dependency_edge_uncached d) (active_edge_uncached d)
      (dependency_edge_uncached d from to) (active_edge_uncached d from to) _ _ c.active
      (through_cache_lem (dependency_edge_uncached d) enabled from to c.dependency hf ht hd)
      (through_cache_lem (active_edge_uncached d) enabled from to c.active hf ht ha) ha
