-- ===== src/ExprOpt/Branches.antt =====
-- The children of an enode and their values, for src/exprOpt.cpp.
use gsim.Prelude.{ℕ, zero, suc, List, ◌∷◌, Option, none, some, ◌≡◌, ap, ap₂}
use mathlib.Core.Path.{subst}
use gsim.Tree.{Label, ENode, Children, no_more, child, null}
use gsim.ExprOpt.{child_at}
use gsim.ExprOpt.Equal.{NoMemory, NoMemories, eval, eval_children}

pub NoMemory-child_at :
    (cs : Children) (i : ℕ) (e : ENode) → NoMemories cs → child_at cs i ≡ some (some e) → NoMemory e
NoMemory-child_at no_more i e m p = cc p
NoMemory-child_at (child f cs) zero e (m, ms) p = let same : f ≡ e = cc p in subst NoMemory same m
NoMemory-child_at (null cs) zero e m p = cc p
NoMemory-child_at (child f cs) (suc i) e (m, ms) p = NoMemory-child_at cs i e ms p
NoMemory-child_at (null cs) (suc i) e m p = NoMemory-child_at cs i e m p

module _ {V : Type 0} (rv : ℕ → Option ℕ) (mean : Label → List (Option V) → V) where
  pub first_child :
      (cs : Children) (e : ENode)
      → child_at cs 0 ≡ some (some e)
      → (vs : List (Option V)) × (eval_children rv mean cs ≡ some (eval rv mean e) ∷ vs)
  first_child no_more e p = cc p
  first_child (child f cs) e p =
      let same : f ≡ e = cc p in
      (eval_children rv mean cs, ap (λ x. some (eval rv mean x) ∷ eval_children rv mean cs) same)
  first_child (null cs) e p = cc p

  pub two_children :
      (cs : Children) (e f : ENode)
      → child_at cs 0 ≡ some (some e)
      → child_at cs 1 ≡ some (some f)
      → (vs : List (Option V)) × (eval_children rv mean cs
          ≡ some (eval rv mean e) ∷ some (eval rv mean f) ∷ vs)
  two_children no_more e f p q = cc p
  two_children (null cs) e f p q = cc p
  two_children (child x cs) e f p q =
      let same : x ≡ e = cc p in
      let (vs, later) = first_child cs f q in
      (vs, ap₂ (λ a as_list. some (eval rv mean a) ∷ as_list) same later)

  pub next_children :
      (cs : Children) (e f : ENode)
      → child_at cs 1 ≡ some (some e)
      → child_at cs 2 ≡ some (some f)
      → (c : Option V) × (vs : List (Option V)) × (eval_children rv mean cs
          ≡ c ∷ some (eval rv mean e) ∷ some (eval rv mean f) ∷ vs)
  next_children no_more e f p q = cc p
  next_children (child x cs) e f p q =
      let (vs, same) = two_children cs e f p q in
      (some (eval rv mean x), vs, ap (λ k. some (eval rv mean x) ∷ k) same)
  next_children (null cs) e f p q =
      let (vs, same) = two_children cs e f p q in (none, vs, ap (λ k. none ∷ k) same)
