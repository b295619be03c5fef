-- ===== src/SuperGraph/Order/Loops.antt =====
-- What the loops of orderAllNodes leave in the fields of each node.
use gsim.Prelude.{
  ℕ, suc, ◌+◌, ◌<◌, ◌≤◌, List, [], ◌∷◌, ==_iff, ◌≡◌, ◌≢◌, refl, sym, ap, ◌∙◌, arith, inl, inr,
  length,
}
use mathlib.Core.Path.{subst}
use mathlib.Core.List.{Memᴰ}
use mathlib.Core.List.Memᴰ
use gsim.Connect.{Super, super_ids}
use gsim.SuperGraph.Order.{Orders, put, order_members, order_supers, Once, InSupers, Owned}

put_other : (f : ℕ → ℕ) (v x u : ℕ) → u ≢ v → put f v x u ≡ f u
put_other f v x u h = ground (arith, ==_iff u v)

put_same : (f : ℕ → ℕ) (v x : ℕ) → put f v x v ≡ x
put_same f v x = rw ((==_iff v v).1 refl) refl

-- The fields of a node are the same in both.
pub record Same (r s : Orders) (v : ℕ) : Type 0 where
  order : r.order v ≡ s.order v
  in_super : r.order_in_super v ≡ s.order_in_super v

pub order_members-Same :
    (vs : List ℕ) (j next : ℕ) (r : Orders) (v : ℕ)
    → ¬ Memᴰ v vs
    → Same (order_members vs j next r) r v
unfolding order_members
order_members-Same [] j next r v h = record { order = refl; in_super = refl }
order_members-Same (u ∷ us) j next r v h =
    let away : v ≢ u = λ e. h (Memᴰ.head e) in
    let ih = order_members-Same us (suc j) (suc next) _ v (λ m. h (Memᴰ.tail m)) in
    record {
      order = ih.order ∙ put_other r.order u next v away;
      in_super = ih.in_super ∙ put_other r.order_in_super u j v away;
    }

super_order-order_members :
    (vs : List ℕ) (j next : ℕ) (r : Orders)
    → (order_members vs j next r).super_order ≡ r.super_order
unfolding order_members
super_order-order_members [] j next r = refl
super_order-order_members (u ∷ us) j next r = super_order-order_members us (suc j) (suc next) _

-- Of a member: the order and the index in the super node go together.
record Placed (j next size : ℕ) (r : Orders) (v : ℕ) : Type 0 where
  shift : r.order v + j ≡ r.order_in_super v + next
  first : j ≤ r.order_in_super v
  last : r.order v < next + size

order_members-Placed :
    (vs : List ℕ) (j next : ℕ) (r : Orders) (v : ℕ)
    → Once vs
    → Memᴰ v vs
    → Placed j next (length vs) (order_members vs j next r) v
unfolding order_members
order_members-Placed [] j next r v h m = absurd (Memᴰ.not-nil m)
order_members-Placed (u ∷ us) j next r v (once, h) m = elim (Memᴰ.cases_cons m) [
  | inl same ↦ subst (Placed j next (suc (length us)) done) (sym same) here
  | inr later ↦
      let ih = order_members-Placed us (suc j) (suc next) started v h later in
      record {
        shift = omega (arith, ih.shift);
        first = omega (arith, ih.first);
        last = omega (arith, ih.last);
      }
]
  where
    started : Orders
    started = record r { order = put r.order u next; order_in_super = put r.order_in_super u j }

    done : Orders
    done = order_members us (suc j) (suc next) started

    here : Placed j next (suc (length us)) done u
    here =
        let kept = order_members-Same us (suc j) (suc next) started u once in
        let at_next = kept.order ∙ put_same r.order u next in
        let at_j = kept.in_super ∙ put_same r.order_in_super u j in
        record {
          shift = omega (arith, at_next, at_j);
          first = omega (arith, at_j);
          last = omega (arith, at_next);
        }

order_supers-Same :
    (supers : List Super) (i next : ℕ) (r : Orders) (v : ℕ)
    → ¬ InSupers v supers
    → Same (order_supers supers i next r) r v
unfolding order_supers
order_supers-Same [] i next r v h = record { order = refl; in_super = refl }
order_supers-Same (super ∷ supers) i next r v h =
    let started : Orders = record r { super_order = put r.super_order super.id i } in
    let one = order_members-Same super.member 0 next started v (λ m. h (inl m)) in
    let ih =
      order_supers-Same supers (suc i) (next + length super.member)
        (order_members super.member 0 next started) v (λ m. h (inr m)) in
    record { order = ih.order ∙ one.order; in_super = ih.in_super ∙ one.in_super }

super_order-order_supers :
    (supers : List Super) (i next : ℕ) (r : Orders) (id : ℕ)
    → ¬ Memᴰ id (super_ids supers)
    → (order_supers supers i next r).super_order id ≡ r.super_order id
unfolding order_supers super_ids
super_order-order_supers [] i next r id h = refl
super_order-order_supers (super ∷ supers) i next r id h =
    super_order-order_supers supers (suc i) (next + length super.member) _ id (λ m. h (Memᴰ.tail m))
    ∙ ap (λ f. f id)
        (super_order-order_members super.member 0 next
          (record r { super_order = put r.super_order super.id i }))
    ∙ put_other r.super_order super.id i id (λ e. h (Memᴰ.head e))

module _ (super_of : ℕ → ℕ) where
  pub Memᴰ-super_of :
      (supers : List Super) (v : ℕ)
      → Owned super_of supers
      → InSupers v supers
      → Memᴰ (super_of v) (super_ids supers)
  unfolding super_ids
  Memᴰ-super_of [] v o m = absurd m
  Memᴰ-super_of (super ∷ supers) v (own, _, _, o) (inl m) = Memᴰ.head (own v m)
  Memᴰ-super_of (super ∷ supers) v (own, _, _, o) (inr m) = Memᴰ.tail (Memᴰ-super_of supers v o m)

  -- What the loop gives a member of the super node at the index i, and one of a later super node.
  pub record Here (i next size : ℕ) (r : Orders) (v : ℕ) : Type 0 where
    pub at_super : r.super_order (super_of v) ≡ i
    pub shift : r.order v ≡ r.order_in_super v + next
    pub last : r.order v < next + size

  pub record There (i next : ℕ) (r : Orders) (v : ℕ) : Type 0 where
    pub at_super : i ≤ r.super_order (super_of v)
    pub first : next ≤ r.order v

  pub order_supers-Here :
      (super : Super) (supers : List Super) (i next : ℕ) (r : Orders) (v : ℕ)
      → Owned super_of (super ∷ supers)
      → Memᴰ v super.member
      → Here i next (length super.member) (order_supers (super ∷ supers) i next r) v
  unfolding order_supers
  order_supers-Here super supers i next r v (own, once_super, once, o) m =
      let started : Orders = record r { super_order = put r.super_order super.id i } in
      let members : Orders = order_members super.member 0 next started in
      let away : ¬ InSupers v supers = λ k.
        once_super
          (subst (λ x. Memᴰ x (super_ids supers)) (own v m) (Memᴰ-super_of supers v o k)) in
      let kept = order_supers-Same supers (suc i) (next + length super.member) members v away in
      let placed = order_members-Placed super.member 0 next started v once m in
      record {
        at_super =
            ap (order_supers supers (suc i) (next + length super.member) members).super_order
              (own v m)
            ∙ super_order-order_supers supers (suc i) (next + length super.member) members super.id
                once_super
            ∙ ap (λ f. f super.id) (super_order-order_members super.member 0 next started)
            ∙ put_same r.super_order super.id i;
        shift = omega (arith, kept.order, kept.in_super, placed.shift);
        last = omega (arith, kept.order, placed.last);
      }

  pub order_supers-There :
      (supers : List Super) (i next : ℕ) (r : Orders) (v : ℕ)
      → Owned super_of supers
      → InSupers v supers
      → There i next (order_supers supers i next r) v
  unfolding order_supers
  order_supers-There [] i next r v o m = absurd m
  order_supers-There (super ∷ supers) i next r v o (inl m) =
      let here = order_supers-Here super supers i next r v o m in
      record { at_super = omega (arith, here.at_super); first = omega (arith, here.shift) }
  order_supers-There (super ∷ supers) i next r v (own, once_super, once, o) (inr m) =
      let ih =
        order_supers-There supers (suc i) (next + length super.member)
          (order_members super.member 0 next
            (record r { super_order = put r.super_order super.id i }))
          v o m in
      record { at_super = omega (arith, ih.at_super); first = omega (arith, ih.first) }
