-- ===== src/MergeNodes.antt =====
-- src/mergeNodes.cpp, anyPath: whether a super node depends on another one, by a search back over depPrev
-- that keeps the visited ones. A super node is a number, and depPrev is a parameter. The while loop runs on
-- fuel: each super node is put on the stack once, and those before the first one more.
pub mod Search
use gsim.Prelude.{
  ℕ, zero, suc, ◌+◌, Bool, true, false, List, [], ◌∷◌, Option, none, some, ◌==◌, if◌then◌else◌,
  length,
}

pub record PathSearch : Type 0 where
  pub stack : List ℕ
  pub visited : ℕ → Bool

abbrev pub visit : (ℕ → Bool) → ℕ → ℕ → Bool
visit visited v u = if u == v then true else visited u

-- The loop over the predecessors of the first super node, which does not ask whether they are visited.
unfoldable pub push_all : List ℕ → PathSearch → PathSearch
push_all [] s = s
push_all (v ∷ vs) s = push_all vs (record { stack = v ∷ s.stack; visited = visit s.visited v })

unfoldable pub push_new : List ℕ → PathSearch → PathSearch
push_new [] s = s
push_new (v ∷ vs) s =
    push_new vs
      (if s.visited v then s else record { stack = v ∷ s.stack; visited = visit s.visited v })

module _ (dep_prev : ℕ → List ℕ) where
  abbrev pub expand_path : ℕ → List ℕ → PathSearch → PathSearch
  expand_path top rest s = push_new (dep_prev top) (record { stack = rest; visited = s.visited })

  -- none when the fuel runs out.
  unfoldable pub path_loop : ℕ → ℕ → PathSearch → Option Bool
  unfolding push_new
  path_loop dst zero s = elim s.stack [ [] ↦ some false | top ∷ rest ↦ none ]
  path_loop dst (suc fuel) s = elim s.stack [
    | [] ↦ some false
    | top ∷ rest ↦
        let r = path_loop dst fuel (expand_path top rest s) in if top == dst then some true else r
  ]

  abbrev pub path_start : ℕ → PathSearch
  path_start src = push_all (dep_prev src) (record { stack = []; visited = visit (λ v. false) src })

  unfoldable pub any_path : ℕ → ℕ → ℕ → Option Bool
  unfolding path_loop push_all
  any_path fuel src dst = path_loop dst fuel (path_start src)
