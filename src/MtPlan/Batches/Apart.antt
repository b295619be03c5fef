-- ===== src/MtPlan/Batches/Apart.antt =====
-- The batches of planMtPureBatches of src/cppEmitterMtPlan.cpp.
use gsim.Prelude.{
  ℕ, suc, ◌-◌, ◌/◌, ◌≤◌, ◌<◌, Bool, true, false, ◌&&◌, List, [], ◌∷◌, ◌++◌, ltb, ◌≡◌, refl, sym,
  arith, inl, inr, ◌↔◌, Memᴰ-concat,
}
use mathlib.Core.Path.{subst}
use mathlib.Core.List.{Memᴰ}
use gsim.MtAnalysis.{Design, can_enter_pure_batch, active_width}
use gsim.MtAnalysis.Edges.{can_join_pure_batch}
use gsim.MtPlan.Batches.{PureBatchPlan, push_batch}
use gsim.MtPlan.Batches.Grow.{ids, IsRun}

-- The ranges follow each other from lo to hi.
abbrev pub Follow : ℕ → List (ℕ × ℕ) → ℕ → Type 0
Follow lo [] hi = lo ≤ hi
Follow lo (r ∷ rs) hi = (lo ≤ r.0) × Follow r.1 rs hi

Follow-push :
    (lo : ℕ) (rs : List (ℕ × ℕ)) (b e hi : ℕ)
    → Follow lo rs b
    → e ≤ hi
    → Follow lo (rs ++ (b, e) ∷ []) hi
Follow-push lo [] b e hi f l = (f, l)
Follow-push lo (r ∷ rs) b e hi f l = (f.0, Follow-push r.1 rs b e hi f.1 l)

pub Follow-le : (lo : ℕ) (rs : List (ℕ × ℕ)) (b hi : ℕ) → Follow lo rs b → b ≤ hi → Follow lo rs hi
Follow-le lo [] b hi f l = omega (arith, f, l)
Follow-le lo (r ∷ rs) b hi f l = (f.0, Follow-le r.1 rs b hi f.1 l)

module _ (d : Design) where
  -- Two tasks or more of one active word, which can run in any order, and no further one that could.
  pub record IsBatch (r : ℕ × ℕ) : Type 0 where
    pub long : suc r.0 < r.1
    pub bounded : r.1 ≤ d.super_id
    pub one_word : (r.1 - 1) / active_width ≡ r.0 / active_width
    pub run : IsRun d r.0 r.1
    pub stops :
        (r.1 / active_width ≡ r.0 / active_width)
        → r.1 < d.super_id
        → can_join_pure_batch d (ids r.0 (r.1 - r.0)) r.1 ≡ false

  pub record Good (plan : PureBatchPlan) (hi : ℕ) : Type 0 where
    pub each : (r : ℕ × ℕ) → Memᴰ r plan.batches → IsBatch r
    pub follow : Follow 0 plan.batches hi

  pub Good-push :
      (plan : PureBatchPlan) (b : Bool) (begin e hi : ℕ)
      → Good plan begin
      → begin ≤ e
      → e ≤ hi
      → (b ≡ true → IsBatch (begin, e))
      → Good (push_batch b begin e plan) hi
  unfolding push_batch
  Good-push plan true begin e hi g l h batch = record {
    each = λ r m. elim ((Memᴰ-concat r (begin, e) plan.batches).0 m) [
      | inl old ↦ g.each r old
      | inr new ↦ subst IsBatch (sym new) (batch refl)
    ];
    follow = Follow-push 0 plan.batches begin e hi g.follow h;
  }
  Good-push plan false begin e hi g l h batch = record {
    each = g.each;
    follow = Follow-le 0 plan.batches begin hi g.follow (omega (arith, l, h));
  }

  pub Good-le : (plan : PureBatchPlan) (lo hi : ℕ) → Good plan lo → lo ≤ hi → Good plan hi
  Good-le plan lo hi g l = record {
    each = g.each;
    follow = Follow-le 0 plan.batches lo hi g.follow l;
  }

  -- A run that starts with one task.
  pub IsRun-one : (i : ℕ) → can_enter_pure_batch d i ≡ true → IsRun d i (suc i)
  IsRun-one i h = record {
    enters =
        λ j low high. subst (λ k. can_enter_pure_batch d k ≡ true) (omega (arith, low, high)) h;
    apart = λ j k low less high. absurd (omega (arith, low, less, high));
  }

  -- The test of the loop holds in the rest of the active word.
  abbrev pub InWord : ℕ → (ℕ → Bool) → Type 0
  InWord b inside =
      (k : ℕ)
      → b ≤ k
      → (inside k ≡ true) ↔ ((k < d.super_id) × (k / active_width ≡ b / active_width))

  pub grown-IsBatch :
      (inside : ℕ → Bool) (b e : ℕ)
      → InWord b inside
      → b < e
      → IsRun d b e
      → ((k : ℕ) → b ≤ k → k < e → inside k ≡ true)
      → (inside e && can_join_pure_batch d (ids b (e - b)) e) ≡ false
      → (e ≤ d.super_id) × (ltb 1 (e - b) ≡ true → IsBatch (b, e))
  grown-IsBatch inside b e word l run within stop =
      let last =
        (word (e - 1) (omega (arith, l))).0
          (within (e - 1) (omega (arith, l)) (omega (arith, l))) in
      (
        omega (arith, last.0),
        λ long. record {
          long = ground (arith, long);
          bounded = omega (arith, last.0);
          one_word = last.1;
          run = run;
          stops = λ same below. ground (arith, stop, (word e (omega (arith, l))).1 (below, same));
        },
      )
