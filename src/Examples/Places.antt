-- ===== src/Examples/Places.antt =====
-- The order of the nodes, and the places of an array, at concrete inputs.
use gsim.Prelude.{
  false, ℕ, zero, suc, ◌<◌, true, List, [], ◌∷◌, none, some, ◌≡◌, refl, arith, inl, inr, ◌⊎◌, ◌↔◌,
}
use mathlib.Core.List.{Memᴰ}
use mathlib.Core.List.Memᴰ
use gsim.Circuit.{op_index_int}
use gsim.Tree.{ENode, enode, Children, no_more, child}
use gsim.Tree.Index.{get_array_index, array_index}
use gsim.Tree.Single.{has_var_idx, get_idx-get_array_index}
use gsim.Tree.Range.{collect_index, get_idx, get_idx-apart}
use gsim.Connect.{Super, super_ids}
use gsim.SuperGraph.Order.{Orders, is_next, order_all_nodes, Owned}
use gsim.SuperGraph.Order.Next.{is_next-order_all_nodes}
use gsim.Examples.Graph.{reference_to}

-- Super node 4 has the nodes 1 and 2, super node 9 the node 0.
abbrev owner : ℕ → ℕ
owner zero = 9
owner (suc _) = 4

abbrev supers : List Super
supers = record { id = 4; member = 1 ∷ 2 ∷ [] } ∷ record { id = 9; member = 0 ∷ [] } ∷ []

abbrev no_orders : Orders
no_orders = record { order = λ v. 0; order_in_super = λ v. 0; super_order = λ v. 0 }

supers-Owned : Owned owner supers
unfolding super_ids
supers-Owned = (
  λ v m. own v m,
  λ m. cc (Memᴰ.eq_of_singleton m),
  (λ m. cc (Memᴰ.eq_of_singleton m), (λ m. Memᴰ.not-nil m, tt)),
  (λ v m. last v m, λ m. Memᴰ.not-nil m, (λ m. Memᴰ.not-nil m, tt), tt),
)
  where
    own : (v : ℕ) → Memᴰ v (1 ∷ 2 ∷ []) → owner v ≡ 4
    own zero m = elim (Memᴰ.cases_cons m) [ inl e ↦ cc e | inr k ↦ cc (Memᴰ.eq_of_singleton k) ]
    own (suc v) m = refl

    last : (v : ℕ) → Memᴰ v (0 ∷ []) → owner v ≡ 9
    last zero m = refl
    last (suc v) m = absurd (omega (arith, Memᴰ.eq_of_singleton m))

is_next-order_all_nodes_example :
    (is_next owner (order_all_nodes supers no_orders) 2 0 ≡ true)
    ↔ ((order_all_nodes supers no_orders).order 2 < (order_all_nodes supers no_orders).order 0)
is_next-order_all_nodes_example =
    is_next-order_all_nodes owner supers no_orders 2 0 supers-Owned
      (inl (Memᴰ.tail (Memᴰ.head refl))) (inr (inl (Memᴰ.head refl)))

abbrev index_of : ℕ → ENode
index_of i =
    enode (record (reference_to 0) { op_type = op_index_int; values = i ∷ []; node_ptr = none })
      no_more

-- a[i] of an array a[3][4].
abbrev indices : ℕ → Children
indices i = child (index_of i) no_more

collected : (i : ℕ) → collect_index (indices i) ≡ some (some (i ∷ []))
unfolding collect_index
collected i = refl

get_idx-apart_example :
    (p q : ℕ × ℕ) × (get_idx (enode (reference_to 0) (indices 0)) (3 ∷ 4 ∷ []) ≡ some (some p))
    × (get_idx (enode (reference_to 0) (indices 2)) (3 ∷ 4 ∷ []) ≡ some (some q))
    × ((◌≡◌ {A = List ℕ} (0 ∷ []) (2 ∷ [])) ⊎ (p.1 < q.0) ⊎ (q.1 < p.0))
get_idx-apart_example =
    get_idx-apart (reference_to 0) (reference_to 0) (indices 0) (indices 2) (3 ∷ 4 ∷ []) (0 ∷ [])
      (2 ∷ []) (collected 0) (collected 2) (omega arith, omega arith) (omega arith, omega arith)
      refl refl

get_idx-get_array_index_example :
    (get_idx (enode (reference_to 0) (child (index_of 2) (indices 3))) (3 ∷ 4 ∷ [])
      ≡ some (some (11, 11)))
    × (has_var_idx (enode (reference_to 0) (child (index_of 2) (indices 3))) (3 ∷ 4 ∷ [])
        ≡ some false)
unfolding get_array_index array_index
get_idx-get_array_index_example =
    get_idx-get_array_index (reference_to 0) (child (index_of 2) (indices 3)) (3 ∷ 4 ∷ []) 11 refl
      refl
