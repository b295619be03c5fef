-- ===== src/MtAnalysis/Admission.antt =====
-- Which tasks src/cppEmitterMtAnalysis.cpp admits to run beside others.
use gsim.Prelude.{
  ℕ, ◌<◌, Bool, true, false, not, List, [], ◌∷◌, none, some, ltb, if◌then◌else◌, ◌≡◌, refl, ◌↔◌,
  arith, ltb_iff,
}
use gsim.Circuit.{super_valid, super_extmod, super_async_reset, super_uint_reset, super_update_reg}
use gsim.MtAnalysis.{
  Design, SerialReason, super_type, state_update, memory_write, memory_read_unsupported, reset,
  async_reset, activate_all_path, external, special, unknown_node, unknown_op,
  array_or_dynamic_index, is_worker0_reason, is_direct_fallback, has_worker0_only_reason,
  has_only_direct_fallback_reasons, classify_mt_task, serial_reasons_of, can_enter_coarse_dispatch,
  can_enter_pure_batch, is_always_active, find_task, BoundaryInfo, task_with, is_pure,
}
use mathlib.Core.List.{cons≢nil}

is_worker0_reason-direct :
    (r : SerialReason) → is_direct_fallback r ≡ true → is_worker0_reason r ≡ false
unfolding is_direct_fallback is_worker0_reason
is_worker0_reason-direct (super_type super_async_reset) h = refl
is_worker0_reason-direct (super_type super_extmod) h = cc
is_worker0_reason-direct (super_type super_valid) h = cc
is_worker0_reason-direct (super_type super_uint_reset) h = cc
is_worker0_reason-direct (super_type super_update_reg) h = cc
is_worker0_reason-direct memory_write h = cc
is_worker0_reason-direct memory_read_unsupported h = cc
is_worker0_reason-direct external h = cc
is_worker0_reason-direct special h = cc
is_worker0_reason-direct state_update h = refl
is_worker0_reason-direct reset h = refl
is_worker0_reason-direct async_reset h = refl
is_worker0_reason-direct activate_all_path h = refl
is_worker0_reason-direct unknown_node h = cc
is_worker0_reason-direct unknown_op h = cc
is_worker0_reason-direct array_or_dynamic_index h = refl

has_worker0_only_reason-direct :
    (rs : List SerialReason)
    → has_only_direct_fallback_reasons rs ≡ true
    → has_worker0_only_reason rs ≡ false
unfolding has_worker0_only_reason has_only_direct_fallback_reasons
has_worker0_only_reason-direct [] h = refl
has_worker0_only_reason-direct (r ∷ rs) h =
    ground (arith, is_worker0_reason-direct r, has_worker0_only_reason-direct rs)

abbrev pub reasons : Design → ℕ → List SerialReason
reasons d i = let s = d.super_at i in serial_reasons_of s.super_kind s.boundary_info

task_with-direct :
    (b : BoundaryInfo) (cost : ℕ) (rs : List SerialReason)
    → (if is_pure (task_with b cost rs).task_kind
        then true
        else has_only_direct_fallback_reasons (task_with b cost rs).serial_reasons)
      ≡ has_only_direct_fallback_reasons rs
unfolding task_with has_only_direct_fallback_reasons
task_with-direct b cost [] = refl
task_with-direct b cost (r ∷ rs) = refl

task_with_pure :
    (b : BoundaryInfo) (cost : ℕ) (rs : List SerialReason)
    → (is_pure (task_with b cost rs).task_kind ≡ true) ↔ (rs ≡ [])
unfolding task_with
task_with_pure b cost [] = (λ e. refl, λ e. refl)
task_with_pure b cost (r ∷ rs) = (λ e. cc, λ e. absurd (cons≢nil e))

module _ (d : Design) (i : ℕ) where
  -- A task may be dispatched: it is emitted, not always active, and its reasons are all of the direct ones.
  pub can_enter_coarse_dispatch_iff : (can_enter_coarse_dispatch d i ≡ true) ↔ (
      (i < d.super_id)
      × (is_always_active d i ≡ false)
      × (has_only_direct_fallback_reasons (reasons d i) ≡ true))
  unfolding can_enter_coarse_dispatch find_task classify_mt_task
  can_enter_coarse_dispatch_iff = ground (
    arith,
    task_with-direct (d.super_at i).boundary_info (d.super_at i).boundary_cost (reasons d i),
  )

  -- No task of a coarse region has a reason that pins it to worker 0.
  pub can_enter_coarse_dispatch-worker0 :
      can_enter_coarse_dispatch d i ≡ true → has_worker0_only_reason (reasons d i) ≡ false
  can_enter_coarse_dispatch-worker0 h =
      has_worker0_only_reason-direct (reasons d i) (can_enter_coarse_dispatch_iff.0 h).2

  pub can_enter_pure_batch_iff :
      (can_enter_pure_batch d i ≡ true)
      ↔ ((i < d.super_id) × (is_always_active d i ≡ false) × (reasons d i ≡ []))
  unfolding can_enter_pure_batch find_task classify_mt_task task_with
  can_enter_pure_batch_iff =
      by_kind (ltb i d.super_id) (is_always_active d i) (reasons d i) (ltb_iff i d.super_id)
    where
      by_kind :
          (found active : Bool) (rs : List SerialReason)
          → ((found ≡ true) ↔ (i < d.super_id))
          → (elim (if found
                then some (task_with (d.super_at i).boundary_info (d.super_at i).boundary_cost rs)
                else none) [
                  | none ↦ false
                  | some t ↦ if is_pure t.task_kind then not active else false
                ]
              ≡ true)
            ↔ ((i < d.super_id) × (active ≡ false) × (rs ≡ []))
      by_kind false active rs f = (λ e. cc, λ (below, _, _). f.1 below)
      by_kind true active [] f = ground (arith, f)
      by_kind true active (r ∷ rs) f = (λ e. cc, λ (_, _, e). absurd (cons≢nil e))
