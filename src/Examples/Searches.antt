-- ===== src/Examples/Searches.antt =====
-- The theorems on activation flags and on the search before a merge and the split of a comparison at concrete inputs.
use gsim.Prelude.{
  ℕ, zero, suc, ◌+◌, ◌<◌, false, true, List, [], ◌∷◌, none, some, elem, ◌≡◌, ◌⊎◌, ◌↔◌, arith,
  length, inl, inr, refl,
}
use mathlib.Core.List.{Memᴰ}
use mathlib.Core.List.Memᴰ
use gsim.ActiveMap.{BitMap, active_set2bit_map}
use gsim.ActiveMap.Covers.{Covers, Fits}
use gsim.ActiveMap.Whole.{Flagged, Flagged-active_set2bit_map}
use gsim.MergeNodes.{any_path}
use gsim.PatternDetect.{cat, split_test}
use gsim.PatternDetect.Split.{split_test-cat_iff}
use gsim.MergeNodes.Search.{Before, any_path_iff}

abbrev no_masks : BitMap
no_masks k = none

no_masks-Fits : Fits no_masks
no_masks-Fits k b h = absurd (Memᴰ.not-nil h)

-- The current super node is 1; 3 is in its word, 5 is always active, and 20 and 40 are in one group of words.
Flagged-active_set2bit_map_example :
    Flagged
      (5 ∷ [])
      (some 1)
      (active_set2bit_map (5 ∷ []) (some 1) (3 ∷ 5 ∷ 20 ∷ 40 ∷ []) no_masks)
      40
    ↔ (Covers no_masks 40 ⊎ (Memᴰ {A = ℕ} 40 (3 ∷ 5 ∷ 20 ∷ 40 ∷ []) × (elem 40 (5 ∷ []) ≡ false)))
Flagged-active_set2bit_map_example =
    Flagged-active_set2bit_map (5 ∷ []) (some 1) (3 ∷ 5 ∷ 20 ∷ 40 ∷ []) no_masks 40 no_masks-Fits

-- A chain: each super node is before the next one.
abbrev chain : ℕ → List ℕ
chain zero = []
chain (suc zero) = 0 ∷ []
chain (suc (suc zero)) = 1 ∷ 0 ∷ []
chain (suc (suc (suc v))) = []

chain-below : (u v : ℕ) → Memᴰ v (chain u) → v < 3
chain-below zero v m = absurd (Memᴰ.not-nil m)
chain-below (suc zero) v m = omega (arith, Memᴰ.eq_of_singleton m)
chain-below (suc (suc zero)) v m = elim (Memᴰ.cases_cons m) [
  | inl e ↦ omega (arith, e)
  | inr rest ↦ omega (arith, Memᴰ.eq_of_singleton rest)
]
chain-below (suc (suc (suc u))) v m = absurd (Memᴰ.not-nil m)

any_path_iff_example : (any_path chain (3 + length (chain 2)) 2 0 ≡ some true) ↔ Before chain 2 0
any_path_iff_example = any_path_iff chain 2 0 (λ e. omega (arith, e)) 3 chain-below

-- Signals of 3 and 4 bits with the values 1 and 9, so that the comparison with 25 holds and the new ones do not.
abbrev left_value : ℕ
left_value = 1

split_test-cat_iff_example : (split_test cat 3 4 25 left_value 9 ≡ true) ↔ (left_value ≡ 0)
split_test-cat_iff_example =
    split_test-cat_iff 3 4 25 left_value 9 (omega arith) (omega arith) (omega arith) refl
