-- ===== src/SuperGraph/Order/Next.antt =====
-- isNext agrees with the order of the nodes.
use gsim.Prelude.{
  ℕ, suc, ◌+◌, ◌<◌, ◌≤◌, Bool, true, ◌&&◌, ◌||◌, List, [], ◌∷◌, ◌==◌, ==_iff, ltb, ◌≡◌, sym, ◌∙◌,
  arith, inl, inr, ◌↔◌, length,
}
use mathlib.Core.Path.{subst}
use mathlib.Core.List.{Memᴰ}
use gsim.Connect.{Super, super_ids}
use gsim.SuperGraph.Order.{
  Orders, put, order_members, order_supers, order_all_nodes, is_next, InSupers, Owned,
}
use gsim.SuperGraph.Order.Loops.{There, Memᴰ-super_of, order_supers-Here, order_supers-There}

-- The test of isNext on two super nodes' orders a and b, the super nodes s and t, and the indices c
-- and d, beside the orders x and y of the nodes.
abbrev next_test : ℕ → ℕ → ℕ → ℕ → ℕ → ℕ → Bool
next_test a b s t c d = ltb a b || (t == s && ltb c d)

next_inside :
    (a b s t c d : ℕ) {x y : ℕ}
    → a ≡ b
    → t ≡ s
    → ((c < d) ↔ (x < y))
    → (next_test a b s t c d ≡ true) ↔ (x < y)
next_inside a b s t c d e f h = ground (arith, h, ==_iff t s)

inside : {x y c d : ℕ} (n : ℕ) → x ≡ c + n → y ≡ d + n → (c < d) ↔ (x < y)
inside n p q = (λ h. omega (arith, p, q, h), λ h. omega (arith, p, q, h))

next_less : (a b s t c d : ℕ) {x y : ℕ} → a < b → x < y → (next_test a b s t c d ≡ true) ↔ (x < y)
next_less a b s t c d h k = ground (arith, ==_iff t s)

next_more :
    (a b s t c d : ℕ) {x y : ℕ}
    → b < a
    → (t ≡ s → ⊥)
    → y ≤ x
    → (next_test a b s t c d ≡ true) ↔ (x < y)
next_more a b s t c d h f k = ground (arith, f, ==_iff t s)

module _ (super_of : ℕ → ℕ) where
  -- Of a member of a later super node.
  order_supers-after :
      (super : Super) (supers : List Super) (i next : ℕ) (r : Orders) (v : ℕ)
      → Owned super_of supers
      → InSupers v supers
      → There super_of
          (suc i)
          (next + length super.member)
          (order_supers (super ∷ supers) i next r)
          v
  unfolding order_supers
  order_supers-after super supers i next r v o m =
      order_supers-There super_of supers (suc i) (next + length super.member)
        (order_members super.member 0 next
          (record r { super_order = put r.super_order super.id i }))
        v o m

  order_supers_iff :
      (supers : List Super) (i next : ℕ) (r : Orders) (u v : ℕ)
      → Owned super_of supers
      → InSupers u supers
      → InSupers v supers
      → (is_next super_of (order_supers supers i next r) u v ≡ true)
        ↔ ((order_supers supers i next r).order u < (order_supers supers i next r).order v)
  unfolding order_supers
  order_supers_iff [] i next r u v o m k = absurd m
  order_supers_iff (super ∷ supers) i next r u v (own, once_super, once, o) (inl m) (inl k) =
      let a = order_supers-Here super_of super supers i next r u (own, once_super, once, o) m in
      let b = order_supers-Here super_of super supers i next r v (own, once_super, once, o) k in
      let t : Orders = order_supers (super ∷ supers) i next r in
      next_inside (t.super_order (super_of u)) (t.super_order (super_of v)) (super_of u)
        (super_of v) (t.order_in_super u) (t.order_in_super v) (a.at_super ∙ sym b.at_super)
        (own v k ∙ sym (own u m)) (inside next a.shift b.shift)
  order_supers_iff (super ∷ supers) i next r u v (own, once_super, once, o) (inl m) (inr k) =
      let a = order_supers-Here super_of super supers i next r u (own, once_super, once, o) m in
      let b = order_supers-after super supers i next r v o k in
      let t : Orders = order_supers (super ∷ supers) i next r in
      next_less (t.super_order (super_of u)) (t.super_order (super_of v)) (super_of u) (super_of v)
        (t.order_in_super u) (t.order_in_super v) (omega (arith, a.at_super, b.at_super))
        (omega (arith, a.last, b.first))
  order_supers_iff (super ∷ supers) i next r u v (own, once_super, once, o) (inr m) (inl k) =
      let a = order_supers-after super supers i next r u o m in
      let b = order_supers-Here super_of super supers i next r v (own, once_super, once, o) k in
      let t : Orders = order_supers (super ∷ supers) i next r in
      next_more (t.super_order (super_of u)) (t.super_order (super_of v)) (super_of u) (super_of v)
        (t.order_in_super u) (t.order_in_super v) (omega (arith, a.at_super, b.at_super))
        (λ e. once_super (
          subst (λ x. Memᴰ x (super_ids supers)) (sym e ∙ own v k)
            (Memᴰ-super_of super_of supers u o m)))
        (omega (arith, a.first, b.last))
  order_supers_iff (super ∷ supers) i next r u v (own, once_super, once, o) (inr m) (inr k) =
      order_supers_iff supers (suc i) (next + length super.member)
        (order_members super.member 0 next
          (record r { super_order = put r.super_order super.id i }))
        u v o m k

  -- When every node is a member of its own super node only, once, and no super node stands twice
  -- in sortedSuper, then after orderAllNodes isNext(u, v) holds for two members if and only if the
  -- order of u is less than that of v.
  pub is_next-order_all_nodes :
      (sorted_super : List Super) (r : Orders) (u v : ℕ)
      → Owned super_of sorted_super
      → InSupers u sorted_super
      → InSupers v sorted_super
      → (is_next super_of (order_all_nodes sorted_super r) u v ≡ true)
        ↔ ((order_all_nodes sorted_super r).order u < (order_all_nodes sorted_super r).order v)
  is_next-order_all_nodes sorted_super r u v o m k = order_supers_iff sorted_super 0 1 r u v o m k
