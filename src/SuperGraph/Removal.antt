-- ===== src/SuperGraph/Removal.antt =====
-- What removing the nodes with a status leaves.
use gsim.Prelude.{ℕ, false, ◌&&◌, List, [], ◌∷◌, ◌≡◌, refl, arith, ◌⊎◌, ◌↔◌, Memᴰ-cons}
use mathlib.Core.List.{Memᴰ}
use mathlib.Core.List.Memᴰ
use gsim.Circuit.{NodeStatus}
use gsim.SuperGraph.{
  SuperNode, has_status, remove_members, remove_from_supers, is_removable, is_empty,
  remove_empty_super, remove_nodes_no_connect,
}

-- The node is a member of one of the super nodes.
abbrev pub Member : ℕ → List SuperNode → Type 0
Member v [] = ⊥
Member v (super ∷ supers) = Memᴰ v super.member ⊎ Member v supers

-- No super node that removeEmptySuper would remove is left.
abbrev pub NoneEmpty : List SuperNode → Type 0
NoneEmpty [] = Unit
NoneEmpty (super ∷ supers) =
    ((is_removable super.super_type && is_empty super.member) ≡ false) × NoneEmpty supers

pub Memᴰ-remove_members :
    (st : NodeStatus) (status : ℕ → NodeStatus) (vs : List ℕ) (v : ℕ)
    → Memᴰ v (remove_members st status vs) ↔ (Memᴰ v vs × (has_status (status v) st ≡ false))
unfolding remove_members
Memᴰ-remove_members st status [] v =
    (λ m. absurd (Memᴰ.not-nil m), λ (m, _). absurd (Memᴰ.not-nil m))
Memᴰ-remove_members st status (u ∷ us) v = ground (
  arith,
  Memᴰ-remove_members st status us v,
  Memᴰ-cons v u us,
  Memᴰ-cons v u (remove_members st status us),
)

Member-remove_from_supers :
    (st : NodeStatus) (status : ℕ → NodeStatus) (supers : List SuperNode) (v : ℕ)
    → Member v (remove_from_supers st status supers)
      ↔ (Member v supers × (has_status (status v) st ≡ false))
unfolding remove_from_supers
Member-remove_from_supers st status [] v = (λ e. absurd e, λ (e, _). absurd e)
Member-remove_from_supers st status (super ∷ supers) v = ground (
  arith,
  Member-remove_from_supers st status supers v,
  Memᴰ-remove_members st status super.member v,
)

is_empty-none : (vs : List ℕ) (v : ℕ) → Memᴰ v vs → is_empty vs ≡ false
is_empty-none [] v m = absurd (Memᴰ.not-nil m)
is_empty-none (_ ∷ _) v m = refl

pub Member-remove_empty_super :
    (supers : List SuperNode) (v : ℕ) → Member v (remove_empty_super supers) ↔ Member v supers
unfolding remove_empty_super
Member-remove_empty_super [] v = (λ e. e, λ e. e)
Member-remove_empty_super (super ∷ supers) v =
    ground (arith, Member-remove_empty_super supers v, is_empty-none super.member v)

pub NoneEmpty-remove_empty_super : (supers : List SuperNode) → NoneEmpty (remove_empty_super supers)
unfolding remove_empty_super
NoneEmpty-remove_empty_super [] = tt
NoneEmpty-remove_empty_super (super ∷ supers) = ground (arith, NoneEmpty-remove_empty_super supers)

-- After removeNodesNoConnect a node is a member exactly if it was one and does not have the status.
pub Member-remove_nodes_no_connect :
    (st : NodeStatus) (status : ℕ → NodeStatus) (supers : List SuperNode) (v : ℕ)
    → Member v (remove_nodes_no_connect st status supers)
      ↔ (Member v supers × (has_status (status v) st ≡ false))
Member-remove_nodes_no_connect st status supers v = ground (
  arith,
  Member-remove_empty_super (remove_from_supers st status supers) v,
  Member-remove_from_supers st status supers v,
)
