-- ===== src/Tree/Single.antt =====
-- src/ENode.cpp: ENode::hasVarIdx, and how getIdx and getArrayIndex agree on a single element.
use gsim.Prelude.{
  ℕ, suc, ◌+◌, ◌-◌, ◌*◌, Bool, true, false, List, [], ◌∷◌, Option, none, some, ◌≡◌, refl, arith, ap,
  ap₂, ◌∙◌, get_or, if◌then◌else◌, ◌>>=◌, length, leb, not, ◌==◌, ==_iff,
}
use gsim.Tree.{Label, ENode, enode, Children, no_more, child, null, label}
use gsim.Tree.Index.{is_index_int, elements, array_index, get_array_index}
use gsim.Tree.Range.{collect_index, rest_dims, base_from, idx_range, is_array, get_idx}

-- A range that is not constant, or of more than one element.
unfoldable pub has_var_idx : ENode → List ℕ → Option Bool
has_var_idx e dimension = get_idx e dimension >>= λ range. elim range [
  | none ↦ some true
  | some p ↦ some (not (p.0 == p.1))
]

rest_dims-nil : (ds is : List ℕ) → length is ≡ length ds → rest_dims ds is ≡ []
rest_dims-nil [] [] e = refl
rest_dims-nil [] (i ∷ is) e = refl
rest_dims-nil (d ∷ ds) [] e = absurd (omega (arith, e))
rest_dims-nil (d ∷ ds) (i ∷ is) e = rest_dims-nil ds is (omega (arith, e))

array_index-collect :
    (cs : Children) (ds : List ℕ) (idx r : ℕ)
    → array_index cs ds idx ≡ some r
    → (is : List ℕ) × (collect_index cs ≡ some (some is))
      × (length is ≡ length ds)
      × (base_from idx ds is ≡ r)
unfolding array_index collect_index
array_index-collect no_more [] idx r e = let same : idx ≡ r = cc e in ([], refl, refl, same)
array_index-collect no_more (d ∷ ds) idx r e = cc e
array_index-collect (null cs) ds idx r e = cc e
array_index-collect (child x cs) [] idx r e = cc e
array_index-collect (child x cs) (d ∷ ds) idx r e =
    by_test (is_index_int (label x).op_type) e
      (λ q. array_index-collect cs ds (idx * d + get_or (label x).values 0 0) r q)
  where
    by_test :
        (t : Bool)
        → (if t then array_index cs ds (idx * d + get_or (label x).values 0 0) else none) ≡ some r
        → (array_index cs ds (idx * d + get_or (label x).values 0 0) ≡ some r
            → (is : List ℕ) × (collect_index cs ≡ some (some is))
              × (length is ≡ length ds)
              × (base_from (idx * d + get_or (label x).values 0 0) ds is ≡ r))
        → (is : List ℕ) × ((if t
              then (collect_index cs >>= λ o.
                  some (o >>= λ is. some (get_or (label x).values 0 0 ∷ is)))
              else some none)
            ≡ some (some is))
          × (length is ≡ suc (length ds))
          × (base_from idx (d ∷ ds) is ≡ r)
    by_test false q go = cc q
    by_test true q go =
        let (is, found, long, same) = go q in
        (get_or (label x).values 0 0 ∷ is, rw found refl, ap suc long, same)

single_range :
    (ds is : List ℕ) (r : ℕ)
    → length is ≡ length ds
    → base_from 0 ds is ≡ r
    → idx_range ds is ≡ (r, r)
single_range ds is r e b =
    let one : elements (rest_dims ds is) ≡ 1 = ap elements (rest_dims-nil ds is e) in
    ap₂ (λ base num. (base * num, (base + 1) * num - 1)) b one
    ∙ ap₂ (λ x y. (x, y)) (omega arith) (omega arith)

-- Where getArrayIndex gives the place r of a reference to an array, getIdx gives the range from r
-- to r, and hasVarIdx says that the index is not variable.
pub get_idx-get_array_index :
    (l : Label) (cs : Children) (ds : List ℕ) (r : ℕ)
    → is_array ds ≡ true
    → get_array_index (enode l cs) ds ≡ some r
    → (get_idx (enode l cs) ds ≡ some (some (r, r))) × (has_var_idx (enode l cs) ds ≡ some false)
unfolding get_idx get_array_index has_var_idx
get_idx-get_array_index l cs ds r array e =
    let (is, found, long, same) = array_index-collect cs ds 0 r (inside l.node_ptr e) in
    let at : get_idx (enode l cs) ds ≡ some (some (r, r)) =
      rw (array, found, in_time is long)
        (ap (λ p. some (some p)) (single_range ds is r long same)) in
    (at, rw at (ap (λ t. some (not t)) ((==_iff r r).1 refl)))
  where
    inside :
        (p : Option ℕ)
        → (elim p [ none ↦ none | some n ↦ array_index cs ds 0 ]) ≡ some r
        → array_index cs ds 0 ≡ some r
    inside none q = cc q
    inside (some n) q = q

    in_time : (is : List ℕ) → length is ≡ length ds → leb (length is) (length ds) ≡ true
    in_time is k = ground (arith, k)
