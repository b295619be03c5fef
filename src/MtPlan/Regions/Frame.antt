-- ===== src/MtPlan/Regions/Frame.antt =====
-- What the loops of mtBuildCoarseRegion of src/cppEmitterMtPlan.cpp leave: the ids and the layers.
use gsim.Prelude.{ℕ, zero, suc, true, ◌==◌, ◌≡◌, refl, ◌∙◌, Bool-cases, inl, inr}
use gsim.MtAnalysis.{Design}
use gsim.MtPlan.{CoarseRegion}
use gsim.MtPlan.Regions.{
  is_pure_task, is_safe_serial, note_task, note_tasks, note_pair, note_pairs_of, note_pairs,
  block_if, note_limits,
}

pub record Frame (r s : CoarseRegion) : Type 0 where
  pub begins : s.begin_cpp_id ≡ r.begin_cpp_id
  pub ends : s.end_cpp_id ≡ r.end_cpp_id
  pub layered : s.layers ≡ r.layers

abbrev same : (r : CoarseRegion) → Frame r r
same r = record { begins = refl; ends = refl; layered = refl }

pub Frame-trans : (r s t : CoarseRegion) → Frame r s → Frame s t → Frame r t
Frame-trans r s t f g = record {
  begins = g.begins ∙ f.begins;
  ends = g.ends ∙ f.ends;
  layered = g.layered ∙ f.layered;
}

pub Frame-note_limits : (threshold : ℕ) (r : CoarseRegion) → Frame r (note_limits threshold r)
unfolding note_limits block_if
Frame-note_limits threshold r = record { begins = refl; ends = refl; layered = refl }

module _ (d : Design) where
  Frame-note_task : (i : ℕ) (r : CoarseRegion) → Frame r (note_task d true i r)
  unfolding note_task
  Frame-note_task i r = elim (Bool-cases (is_pure_task d true i)) [
    | inl t ↦ rw t record { begins = refl; ends = refl; layered = refl }
    | inr t ↦ elim (Bool-cases (is_safe_serial d true i)) [
      | inl u ↦ rw (t, u) record { begins = refl; ends = refl; layered = refl }
      | inr u ↦ rw (t, u) record { begins = refl; ends = refl; layered = refl }
    ]
  ]

  pub Frame-note_tasks : (begin n : ℕ) (r : CoarseRegion) → Frame r (note_tasks d true begin n r)
  unfolding note_tasks
  Frame-note_tasks begin zero r = same r
  Frame-note_tasks begin (suc n) r =
      Frame-trans r (note_task d true begin r) _ (Frame-note_task begin r)
        (Frame-note_tasks (suc begin) n (note_task d true begin r))

  Frame-note_pair : (from to : ℕ) (r : CoarseRegion) → Frame r (note_pair d true from to r)
  unfolding note_pair
  Frame-note_pair from to r = elim (Bool-cases (from == to)) [
    | inl t ↦ rw t record { begins = refl; ends = refl; layered = refl }
    | inr t ↦ rw t record { begins = refl; ends = refl; layered = refl }
  ]

  Frame-note_pairs_of :
      (from to n : ℕ) (r : CoarseRegion) → Frame r (note_pairs_of d true from to n r)
  unfolding note_pairs_of
  Frame-note_pairs_of from to zero r = same r
  Frame-note_pairs_of from to (suc n) r =
      Frame-trans r (note_pair d true from to r) _ (Frame-note_pair from to r)
        (Frame-note_pairs_of from (suc to) n (note_pair d true from to r))

  pub Frame-note_pairs :
      (begin size from n : ℕ) (r : CoarseRegion) → Frame r (note_pairs d true begin size from n r)
  unfolding note_pairs
  Frame-note_pairs begin size from zero r = same r
  Frame-note_pairs begin size from (suc n) r =
      Frame-trans r (note_pairs_of d true from begin size r) _
        (Frame-note_pairs_of from begin size r)
        (Frame-note_pairs begin size (suc from) n (note_pairs_of d true from begin size r))
