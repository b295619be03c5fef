-- ===== src/MtAnalysis/Edges.antt =====
-- src/cppEmitterMtAnalysis.cpp: the edges between tasks and the two caches of them. A cache is a
-- std::map of the keys; an id is an int, whose conversion to uint32_t is % 2 ^ 32.
pub mod Caching
use gsim.Prelude.{
  ℕ, zero, suc, ◌+◌, ◌*◌, ◌/◌, ◌%◌, ◌^◌, Bool, true, false, not, ◌&&◌, ◌||◌, List, [], ◌∷◌, ◌++◌,
  Option, none, some, ltb, ◌==◌, if◌then◌else◌,
}
use gsim.MtAnalysis.{SuperTask, Design, can_enter_pure_batch}

-- Also the test that a nextActiveId holds the id.
unfoldable pub has_cpp_id : List (Option ℕ) → ℕ → Bool
has_cpp_id [] i = false
has_cpp_id (none ∷ ss) i = has_cpp_id ss i
has_cpp_id (some j ∷ ss) i = let rest = has_cpp_id ss i in if j == i then true else rest

unfoldable pub any_member_activates : List (List (Option ℕ)) → ℕ → Bool
unfolding has_cpp_id
any_member_activates [] i = false
any_member_activates (ids ∷ ms) i =
    let rest = any_member_activates ms i in if has_cpp_id ids i then true else rest

-- i and j are the cppIds of the two super nodes.
unfoldable pub tasks_have_edge : SuperTask → ℕ → SuperTask → ℕ → Bool
unfolding any_member_activates
tasks_have_edge lhs i rhs j =
    if has_cpp_id lhs.prev j
      || (has_cpp_id lhs.next j
          || (has_cpp_id lhs.dep_prev j
              || (has_cpp_id lhs.dep_next j
                  || (has_cpp_id rhs.prev i
                      || (has_cpp_id rhs.next i
                          || (has_cpp_id rhs.dep_prev i || has_cpp_id rhs.dep_next i))))))
    then true
    else any_member_activates lhs.member j || any_member_activates rhs.member i

module _ (d : Design) where
  unfoldable pub active_edge_uncached : ℕ → ℕ → Bool
  unfolding any_member_activates
  active_edge_uncached from to =
      if ltb from d.super_id then any_member_activates (d.super_at from).member to else false

  unfoldable pub dependency_edge_uncached : ℕ → ℕ → Bool
  unfolding has_cpp_id
  dependency_edge_uncached from to =
      let f = d.super_at from in
      let t = d.super_at to in
      if ltb from d.super_id && ltb to d.super_id
      then has_cpp_id f.next to
        || (has_cpp_id f.dep_next to || (has_cpp_id t.prev from || has_cpp_id t.dep_prev from))
      else false

  abbrev pub have_edge : ℕ → ℕ → Bool
  have_edge i j = tasks_have_edge (d.super_at i) i (d.super_at j) j

  -- `batch` holds ids that are below superId.
  unfoldable pub no_edge_to : List ℕ → ℕ → Bool
  unfolding tasks_have_edge
  no_edge_to [] i = true
  no_edge_to (e ∷ es) i = let rest = no_edge_to es i in if have_edge e i then false else rest

  unfoldable pub can_join_pure_batch : List ℕ → ℕ → Bool
  unfolding no_edge_to can_enter_pure_batch
  can_join_pure_batch batch i = if can_enter_pure_batch d i then no_edge_to batch i else false

unfoldable pub edge_cache_key : ℕ → ℕ → ℕ
edge_cache_key from to = from % 2 ^ 32 * 2 ^ 32 % 2 ^ 64 + to % 2 ^ 32

abbrev pub Cache : Type 0
Cache = ℕ → Option Bool

-- The caches of the dependency edges and of the active edges.
pub record Caches : Type 0 where
  pub dependency : Cache
  pub active : Cache

unfoldable pub emplace : Cache → ℕ → Bool → Cache
emplace c key value k = if k == key then some value else c k

unfoldable pub through_cache : (ℕ → ℕ → Bool) → Bool → ℕ → ℕ → Cache → Bool × Cache
unfolding edge_cache_key emplace
through_cache uncached enabled from to c =
    let key = edge_cache_key from to in
    let value = uncached from to in
    let hit : Bool × Cache = elim (c key) [
      | some v ↦ (v, c)
      | none ↦ (value, emplace c key value)
    ] in
    if enabled then hit else (value, c)

-- The second operand of `||` is not called where the first holds: its cache stays as it was.
unfoldable pub either : Bool × Cache → Bool × Cache → Cache → Bool × Caches
either (true, c1) second c = (true, record { dependency = c1; active = c })
either (false, c1) (b, c2) c = (b, record { dependency = c1; active = c2 })

unfoldable pub has_ordering_edge : Design → Bool → ℕ → ℕ → Caches → Bool × Caches
unfolding either through_cache dependency_edge_uncached active_edge_uncached
has_ordering_edge d enabled from to c =
    either (through_cache (dependency_edge_uncached d) enabled from to c.dependency)
      (through_cache (active_edge_uncached d) enabled from to c.active) c.active

-- The same without the caches.
abbrev pub ordering_edge : Design → ℕ → ℕ → Bool
ordering_edge d from to = dependency_edge_uncached d from to || active_edge_uncached d from to
