-- ===== src/Tree/Index.antt =====
-- src/ENode.cpp: ENode::getArrayIndex, the place of a reference with constant indices in an array.
-- `none` is a failed assertion or TODO(): an index that is not constant, or too few or too many of them. The reference is one to the array's
-- node, and the place is a number of any size.
use native.Mathlib.Nat.{mul-le-mul_right}
use gsim.Prelude.{
  ℕ, ◌+◌, ◌*◌, ◌<◌, ◌≤◌, Bool, true, false, List, [], ◌∷◌, Option, none, some, ◌≡◌, refl, arith,
  get_or, if◌then◌else◌,
}
use gsim.Circuit.{OpType, op_index_int}
use gsim.Tree.{Label, ENode, enode, Children, no_more, child, null, label}

abbrev pub is_index_int : OpType → Bool
is_index_int op = elim op [ op_index_int ↦ true | _ ↦ false ]

-- The loop over the children, with the dimensions that are left.
unfoldable pub array_index : Children → List ℕ → ℕ → Option ℕ
array_index no_more [] idx = some idx
array_index no_more (d ∷ ds) idx = none
array_index (child e cs) [] idx = none
array_index (child e cs) (d ∷ ds) idx =
    let rest = array_index cs ds (idx * d + get_or (label e).values 0 0) in
    if is_index_int (label e).op_type then rest else none
array_index (null cs) ds idx = none

unfoldable pub get_array_index : ENode → List ℕ → Option ℕ
unfolding array_index
get_array_index (enode l cs) dimension = elim l.node_ptr [
  | none ↦ none
  | some n ↦ array_index cs dimension 0
]

-- The elements of an array.
abbrev pub elements : List ℕ → ℕ
elements [] = 1
elements (d ∷ ds) = d * elements ds

-- The indices are below their dimensions.
pub data Inside : Children → List ℕ → Type 0 where
  done : Inside no_more []
  index :
      (e : ENode) (cs : Children) (d : ℕ) (ds : List ℕ)
      → (label e).op_type ≡ op_index_int
      → get_or (label e).values 0 0 < d
      → Inside cs ds
      → Inside (child e cs) (d ∷ ds)

next_index : (i d k : ℕ) → k < d → i * d + k + 1 ≤ (i + 1) * d
next_index i d k h = omega arith

array_index-Inside :
    (cs : Children) (ds : List ℕ) (idx : ℕ)
    → Inside cs ds
    → (r : ℕ) × (array_index cs ds idx ≡ some r) × (r < (idx + 1) * elements ds)
unfolding array_index
array_index-Inside _ _ idx done = (idx, refl, omega arith)
array_index-Inside _ _ idx (index e cs d ds o h i) =
    let ih = array_index-Inside cs ds (idx * d + get_or (label e).values 0 0) i in
    (
      ih.0,
      rw o ih.1,
      omega (
        arith,
        ih.2,
        mul-le-mul_right (elements ds) (next_index idx d (get_or (label e).values 0 0) h),
      ),
    )

-- For a reference to a node whose children are constant indices, one below each dimension of the
-- array, getArrayIndex succeeds, and its result is below the number of elements.
pub get_array_index-Inside :
    (l : Label) (cs : Children) (dimension : List ℕ) (n : ℕ)
    → l.node_ptr ≡ some n
    → Inside cs dimension
    → (r : ℕ) × (get_array_index (enode l cs) dimension ≡ some r) × (r < elements dimension)
unfolding get_array_index
get_array_index-Inside l cs dimension n p i =
    let h = array_index-Inside cs dimension 0 i in (h.0, rw p h.1, omega (arith, h.2))
