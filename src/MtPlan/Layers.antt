-- ===== src/MtPlan/Layers.antt =====
-- src/cppEmitterMtPlan.cpp, mtAddCoarseLayers: the tasks of a region in layers, each of the tasks whose
-- predecessors are all in earlier layers. The test of an ordering edge is a parameter; an index counts from
-- beginCppId. The while loop runs on fuel, one for each task that is not emitted.
pub mod Counts
pub mod Loop
pub mod Correct
pub mod Whole
pub mod Regions
use gsim.Prelude.{
  ℕ, zero, suc, ◌+◌, ◌-◌, max, Bool, true, false, not, ◌&&◌, List, [], ◌∷◌, ◌++◌, Option, none,
  some, ltb, ◌==◌, if◌then◌else◌, length,
}
use gsim.MtPlan.{CoarseRegion, Blocker, data_dependency, codegen_runtime_limit, add_coarse_blocker}

-- The vectors of indegrees and of edges.
pub record Degrees : Type 0 where
  pub indegree : ℕ → ℕ
  pub edges : ℕ → List ℕ

pub record Progress : Type 0 where
  pub emitted : ℕ → Bool
  pub emitted_count : ℕ
  pub indegree : ℕ → ℕ

unfoldable pub set_at {ℓ} : {A : Type ℓ} → (ℕ → A) → ℕ → A → ℕ → A
set_at f i a j = if j == i then a else f j

module _ (ordering : ℕ → ℕ → Bool) (begin : ℕ) where
  -- Whether the loops see an edge between the indices.
  abbrev pub link : ℕ → ℕ → Bool
  link i j = if i == j then false else ordering (begin + i) (begin + j)

  unfoldable pub note_edge : ℕ → ℕ → Degrees → Degrees
  unfolding set_at
  note_edge from to s =
      if link from to
      then record {
        edges = set_at s.edges from (s.edges from ++ to ∷ []);
        indegree = set_at s.indegree to (s.indegree to + 1);
      }
      else s

  -- The inner loop up to n, and the outer one.
  unfoldable pub note_to : ℕ → ℕ → Degrees → Degrees
  unfolding note_edge
  note_to from zero s = s
  note_to from (suc n) s = note_edge from n (note_to from n s)

  unfoldable pub note_from : ℕ → ℕ → Degrees → Degrees
  unfolding note_to
  note_from size zero s = s
  note_from size (suc n) s = note_to n size (note_from size n s)

  abbrev pub degrees : ℕ → Degrees
  degrees size = note_from size size (record { indegree = λ i. 0; edges = λ i. [] })

unfoldable pub decrement : List ℕ → (ℕ → ℕ) → ℕ → ℕ
unfolding set_at
decrement [] f = f
decrement (t ∷ ts) f = decrement ts (set_at f t (f t - 1))

module _ (begin : ℕ) (edges : ℕ → List ℕ) where
  unfoldable pub emit : ℕ → Progress → Progress
  unfolding decrement
  emit i p = if p.emitted i then p else record {
    emitted = set_at p.emitted i true;
    emitted_count = p.emitted_count + 1;
    indegree = decrement (edges i) p.indegree;
  }

  unfoldable pub emit_all : List ℕ → Progress → Progress
  unfolding emit
  emit_all [] p = p
  emit_all (cpp_id ∷ ids) p = emit_all ids (emit (cpp_id - begin) p)

-- The tasks of the layer among the indices below n.
unfoldable pub layer_below : ℕ → Progress → ℕ → List ℕ
layer_below begin p zero = []
layer_below begin p (suc n) =
    let before = layer_below begin p n in
    if not (p.emitted n) && (p.indegree n == 0) then before ++ (begin + n) ∷ [] else before

unfoldable pub block : CoarseRegion → CoarseRegion
unfolding add_coarse_blocker
block r = record r {
  blockers =
      add_coarse_blocker codegen_runtime_limit (add_coarse_blocker data_dependency r.blockers);
  layers = [];
  runtime_eligible = false;
  estimated_layer_count = 0;
  estimated_max_parallel_width = 0;
}

abbrev pub push_layer : List ℕ → CoarseRegion → CoarseRegion
push_layer layer r = record r {
  estimated_max_parallel_width = max r.estimated_max_parallel_width (length layer);
  layers = r.layers ++ layer ∷ [];
}

module _ (ordering : ℕ → ℕ → Bool) where
  module _ (size : ℕ) where
    unfoldable pub layer_loop : ℕ → Progress → CoarseRegion → CoarseRegion
    unfolding layer_below emit_all block
    layer_loop zero p r = record r { estimated_layer_count = length r.layers }
    layer_loop (suc fuel) p r =
        let begin = r.begin_cpp_id in
        let layer = layer_below begin p size in
        if ltb p.emitted_count size
        then elim layer [
          | [] ↦ block r
          | t ∷ ts ↦
              layer_loop fuel (emit_all begin (degrees ordering begin size).edges (t ∷ ts) p)
                (push_layer (t ∷ ts) r)
        ]
        else record r { estimated_layer_count = length r.layers }

  unfoldable pub add_coarse_layers : CoarseRegion → CoarseRegion
  unfolding layer_loop note_from
  add_coarse_layers r =
      let size = r.end_cpp_id - r.begin_cpp_id in
      if size == 0
      then r
      else layer_loop size size
          (record {
            emitted = λ i. false;
            emitted_count = 0;
            indegree = (degrees ordering r.begin_cpp_id size).indegree;
          })
          r
