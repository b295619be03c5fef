-- ===== src/SuperGraph/Order.antt =====
-- src/graph.cpp, orderAllNodes, and src/mergeRegister.cpp, isNext. The fields that are written are
-- maps: order and orderInSuper of a node, and order of a super node, by its number.
pub mod Loops
pub mod Next
use gsim.Prelude.{
  ℕ, zero, suc, ◌+◌, ◌<◌, ◌≤◌, Bool, true, false, ◌&&◌, ◌||◌, List, [], ◌∷◌, ◌==◌, ==_iff, ltb,
  if◌then◌else◌, ◌≡◌, ◌≢◌, refl, sym, ap, ◌∙◌, arith, inl, inr, ◌⊎◌, ◌↔◌, length, Memᴰ-cons,
  Bool-cases,
}
use mathlib.Core.Path.{subst}
use mathlib.Core.List.{Memᴰ}
use mathlib.Core.List.Memᴰ
use mathlib.Core.Logic.{⊎_elim}
use gsim.Connect.{Super, super_ids}

pub record Orders : Type 0 where
  pub order : ℕ → ℕ
  pub order_in_super : ℕ → ℕ
  pub super_order : ℕ → ℕ

abbrev pub put : (ℕ → ℕ) → ℕ → ℕ → ℕ → ℕ
put f v x u = if u == v then x else f u

-- The inner loop, from the index j and with the next order.
unfoldable pub order_members : List ℕ → ℕ → ℕ → Orders → Orders
order_members [] j next r = r
order_members (v ∷ vs) j next r =
    order_members vs (suc j) (suc next)
      (record r { order = put r.order v next; order_in_super = put r.order_in_super v j })

unfoldable pub order_supers : List Super → ℕ → ℕ → Orders → Orders
order_supers [] i next r = r
order_supers (super ∷ supers) i next r =
    order_supers supers (suc i) (next + length super.member)
      (order_members super.member 0 next (record r { super_order = put r.super_order super.id i }))

abbrev pub order_all_nodes : List Super → Orders → Orders
order_all_nodes sorted_super r = order_supers sorted_super 0 1 r

-- isNext(node, checkNode).
abbrev pub is_next : (ℕ → ℕ) → Orders → ℕ → ℕ → Bool
is_next super_of r node check_node =
    ltb (r.super_order (super_of node)) (r.super_order (super_of check_node))
    || (super_of check_node == super_of node
        && ltb (r.order_in_super node) (r.order_in_super check_node))

-- No node twice, in one list.
abbrev pub Once : List ℕ → Type 0
Once [] = Unit
Once (v ∷ vs) = (¬ Memᴰ v vs) × Once vs

abbrev pub InSupers : ℕ → List Super → Type 0
InSupers v [] = ⊥
InSupers v (super ∷ supers) = Memᴰ v super.member ⊎ InSupers v supers

-- Every node is a member of its own super node only, once, and no super node stands twice.
abbrev pub Owned : (ℕ → ℕ) → List Super → Type 0
Owned super_of [] = Unit
Owned super_of (super ∷ supers) =
    ((v : ℕ) → Memᴰ v super.member → super_of v ≡ super.id)
    × (¬ Memᴰ super.id (super_ids supers))
    × Once super.member
    × Owned super_of supers
