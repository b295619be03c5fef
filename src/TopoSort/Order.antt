-- ===== src/TopoSort/Order.antt =====
-- The order of sortedSuper.
use gsim.Prelude.{
  ℕ, suc, ◌+◌, ◌≤◌, Bool, true, false, List, [], ◌∷◌, Option, none, some, ◌==◌, ==_iff,
  if◌then◌else◌, ◌≡◌, refl, ap, arith, Bool-cases, inl, inr,
}
use mathlib.Core.Path.{subst}
use gsim.TopoSort.{
  State, count, is_visited, set_mark, count_next, step, push_sources, Reaches, begin, next,
}

-- How often a list has v.
unfoldable pub occurrences : ℕ → List ℕ → ℕ
occurrences v [] = 0
occurrences v (n ∷ ns) = let rest = occurrences v ns in if v == n then suc rest else rest

-- One more edge into n.
abbrev bump : (ℕ → ℕ) → ℕ → ℕ → ℕ
bump e n v = if v == n then suc (e v) else e v

bump-count :
    (mark : ℕ → Option ℕ) (e : ℕ → ℕ) (n v : ℕ)
    → ((u : ℕ) → count (mark u) ≤ e u)
    → count (set_mark mark n (count (mark n) + 1) v) ≤ bump e n v
bump-count mark e n v h = elim (Bool-cases (v == n)) [
  | inl t ↦ rw t (omega (arith, h n, ap e ((==_iff v n).0 t)))
  | inr t ↦ rw t (h v)
]

bump_le : (e : ℕ → ℕ) (n v : ℕ) → e v ≤ bump e n v
bump_le e n v = elim (Bool-cases (v == n)) [
  | inl t ↦ rw t (omega arith)
  | inr t ↦ rw t (omega arith)
]

bump_self : (e : ℕ → ℕ) (n : ℕ) → bump e n n ≡ suc (e n)
bump_self e n = rw ((==_iff n n).1 refl) refl

occurrences-bump :
    (ns : List ℕ) (e : ℕ → ℕ) (n v : ℕ)
    → occurrences v ns + bump e n v ≡ occurrences v (n ∷ ns) + e v
unfolding occurrences
occurrences-bump ns e n v = elim (Bool-cases (v == n)) [
  | inl t ↦ rw t (omega arith)
  | inr t ↦ rw t refl
]

module _ (dep_next : ℕ → List ℕ) (dep_prev_size : ℕ → ℕ) where
  -- The edges from a list of nodes to v.
  unfoldable pub edges : ℕ → List ℕ → ℕ
  edges v [] = 0
  edges v (u ∷ us) = occurrences v (dep_next u) + edges v us

  -- Every node comes after as many edges into it as it has predecessors; the last node is first.
  pub data Ordered : List ℕ → Type 0 where
    empty : Ordered []
    after : (v : ℕ) (us : List ℕ) → dep_prev_size v ≤ edges v us → Ordered us → Ordered (v ∷ us)

  -- Every node of a list has been counted often enough.
  data Ready (e : ℕ → ℕ) : List ℕ → Type 0 where
    none_left : Ready e []
    one_more : (v : ℕ) (vs : List ℕ) → dep_prev_size v ≤ e v → Ready e vs → Ready e (v ∷ vs)

  Ready-mono : (e f : ℕ → ℕ) (vs : List ℕ) → ((v : ℕ) → e v ≤ f v) → Ready e vs → Ready f vs
  Ready-mono e f _ h none_left = none_left
  Ready-mono e f _ h (one_more v vs p r) =
      one_more v vs (omega (arith, h v, p)) (Ready-mono e f vs h r)

  -- The counts after a list of successors, when the edges so far are e.
  count_next-Ready :
      (ns stack : List ℕ) (mark : ℕ → Option ℕ) (e : ℕ → ℕ)
      → ((v : ℕ) → count (mark v) ≤ e v)
      → Ready e stack
      → ((v : ℕ)
          → count ((count_next dep_next dep_prev_size ns stack mark).1 v) ≤ occurrences v ns + e v)
        × Ready (λ v. occurrences v ns + e v) (count_next dep_next dep_prev_size ns stack mark).0
  unfolding count_next
  count_next-Ready [] stack mark e h r =
      (λ v. omega (arith, h v), Ready-mono e _ stack (λ v. omega arith) r)
  count_next-Ready (n ∷ ns) stack mark e h r =
      let ih =
        count_next-Ready ns (if count (mark n) + 1 == dep_prev_size n then n ∷ stack else stack)
          (set_mark mark n (count (mark n) + 1)) (bump e n) (λ v. bump-count mark e n v h)
          (pushed (count (mark n) + 1 == dep_prev_size n) refl) in
      (
        λ v. omega (arith, ih.0 v, occurrences-bump ns e n v),
        Ready-mono _ _ _ (λ v. omega (arith, occurrences-bump ns e n v)) ih.1,
      )
    where
      pushed :
          (t : Bool)
          → (count (mark n) + 1 == dep_prev_size n) ≡ t
          → Ready (bump e n) (if t then n ∷ stack else stack)
      pushed true q =
          one_more n stack
            (omega (arith, (==_iff (count (mark n) + 1) (dep_prev_size n)).0 q, h n, bump_self e n))
            (Ready-mono e (bump e n) stack (bump_le e n) r)
      pushed false q = Ready-mono e (bump e n) stack (bump_le e n) r

  push_sources-Ready :
      (e : ℕ → ℕ) (ns stack : List ℕ)
      → Ready e stack
      → Ready e (push_sources dep_next dep_prev_size ns stack)
  unfolding push_sources
  push_sources-Ready e [] stack r = r
  push_sources-Ready e (n ∷ ns) stack r =
      push_sources-Ready e ns _ (pushed (dep_prev_size n == 0) refl)
    where
      pushed : (t : Bool) → (dep_prev_size n == 0) ≡ t → Ready e (if t then n ∷ stack else stack)
      pushed true q = one_more n stack (omega (arith, (==_iff (dep_prev_size n) 0).0 q)) r
      pushed false q = r

  -- The invariant of the loop.
  record Sound (s : State) : Type 0 where
    counts : (v : ℕ) → count (s.mark v) ≤ edges v s.sorted
    ready : Ready (λ v. edges v s.sorted) s.stack
    ordered : Ordered s.sorted

  -- A state, where a step gives one.
  SoundIf : Option State → Type 0
  SoundIf none = ⊥
  SoundIf (some s) = Sound s

  visit-Sound :
      (stack : List ℕ) (mark : ℕ → Option ℕ) (sorted : List ℕ) (t : State)
      → ((v : ℕ) → count (mark v) ≤ edges v sorted)
      → Ready (λ v. edges v sorted) stack
      → Ordered sorted
      → step dep_next dep_prev_size (record { stack = stack; mark = mark; sorted = sorted })
        ≡ some t
      → Sound t
  unfolding step SoundIf edges
  visit-Sound [] mark sorted t c r o e = cc
  visit-Sound (_ ∷ _) mark sorted t c (one_more top rest p r) o e = visit (is_visited (mark top)) e
    where
      new : List ℕ × (ℕ → Option ℕ)
      new = count_next dep_next dep_prev_size (dep_next top) rest (set_mark mark top 0)

      cleared : (v : ℕ) → count (set_mark mark top 0 v) ≤ edges v sorted
      cleared v = elim (Bool-cases (v == top)) [ inl q ↦ rw q (omega arith) | inr q ↦ rw q (c v) ]

      visit :
          (b : Bool)
          → (if b
              then none
              else some (record { stack = new.0; mark = new.1; sorted = top ∷ sorted }))
            ≡ some t
          → Sound t
      visit true q = cc
      visit false q =
          let k =
            count_next-Ready (dep_next top) rest (set_mark mark top 0) (λ v. edges v sorted) cleared
              r in
          subst SoundIf q (record { counts = k.0; ready = k.1; ordered = after top sorted p o })

  step-Sound : (s t : State) → Sound s → step dep_next dep_prev_size s ≡ some t → Sound t
  step-Sound s t h e = visit-Sound s.stack s.mark s.sorted t h.counts h.ready h.ordered e

  -- In every state that the loop of topoSort reaches from its sources, each super node of
  -- sortedSuper comes after super nodes from which at least as many edges lead to it as it has
  -- predecessors.
  pub Reaches-Ordered :
      (supersrc : List ℕ) (s : State) → Reaches dep_next dep_prev_size supersrc s → Ordered s.sorted
  Reaches-Ordered supersrc s r = (sound s r).ordered
    where
      sound : (s : State) → Reaches dep_next dep_prev_size supersrc s → Sound s
      sound _ begin = record {
        counts = λ v. omega arith;
        ready = push_sources-Ready _ supersrc [] none_left;
        ordered = empty;
      }
      sound _ (next s t r e) = step-Sound s t (sound s r) e
