-- ===== src/ActiveMap.antt =====
-- src/cppEmitterUtil.cpp, activeSet2bitMap: the flags to set for a set of super nodes, packed into masks of up to 64 bits
-- of eight words. A mask is the list of its bits; a shift drops the bits from 64 on; the unique index -1 is none. The
-- comment in an entry is left out.
pub mod Covers
pub mod Whole
use gsim.Prelude.{
  ℕ, zero, suc, ◌+◌, ◌-◌, ◌*◌, ◌/◌, ◌%◌, Bool, true, false, not, ◌&&◌, List, [], ◌∷◌, ◌++◌, Option,
  none, some, ltb, leb, ◌==◌, elem, if◌then◌else◌,
}
use gsim.MtAnalysis.{active_width}

abbrev pub Mask : Type 0
Mask = List ℕ

-- ActiveType without the comment.
pub record ActiveEntry : Type 0 where
  pub mask : Mask
  pub unique : Option ℕ

abbrev pub BitMap : Type 0
BitMap = ℕ → Option ActiveEntry

abbrev pub words_per_mask : ℕ
words_per_mask = 64 / active_width

unfoldable pub shift_left : ℕ → Mask → Mask
shift_left k [] = []
shift_left k (b ∷ bs) =
    let rest = shift_left k bs in if ltb (b + k) 64 then (b + k) ∷ rest else rest

unfoldable pub put_entry : BitMap → ℕ → Option ActiveEntry → BitMap
put_entry m k e i = if i == k then e else m i

-- The loop over the words from beg on: the mask that they add up to, whether there is one, and the map without them.
unfoldable pub merge_words : ℕ → BitMap → ℕ → Mask → Mask
merge_words beg m zero acc = acc
merge_words beg m (suc n) acc = elim (m (beg + n)) [
  | none ↦ merge_words beg m n acc
  | some e ↦ merge_words beg m n acc ++ shift_left (n * active_width) e.mask
]

unfoldable pub has_words : ℕ → BitMap → ℕ → Bool
has_words beg m zero = false
has_words beg m (suc n) = elim (m (beg + n)) [ none ↦ has_words beg m n | some e ↦ true ]

unfoldable pub erase_words : ℕ → BitMap → BitMap
erase_words beg m i = if leb beg i && ltb i (beg + words_per_mask) then none else m i

unfoldable pub set_flag : ℕ → BitMap → BitMap
unfolding put_entry merge_words has_words erase_words shift_left
set_flag id m =
    let word = id / active_width in
    let bit = id % active_width in
    let beg = word - word % words_per_mask in
    let merged =
      merge_words beg m words_per_mask (shift_left ((word - beg) * active_width) (bit ∷ [])) in
    elim (m word) [
      | some e ↦ put_entry m word (some (record { mask = e.mask ++ bit ∷ []; unique = none }))
      | none ↦
          if has_words beg m words_per_mask
          then put_entry (erase_words beg m) beg (some (record { mask = merged; unique = none }))
          else put_entry m word (some (record { mask = bit ∷ []; unique = some bit }))
    ]

-- ret, uniqueIdx and bitMapInfo.
pub record Activation : Type 0 where
  pub near : Mask
  pub unique : Option ℕ
  pub far : BitMap

-- Whether the flag is one of the word that is being run, behind the current super node.
unfoldable pub is_near : Option ℕ → ℕ → Bool
is_near none id = false
is_near (some cur) id = ltb cur id && (id / active_width == cur / active_width)

abbrev pub is_zero : Mask → Bool
is_zero [] = true
is_zero (b ∷ bs) = false

module _ (always_active : List ℕ) (cur : Option ℕ) where
  unfoldable pub activate : ℕ → Activation → Activation
  unfolding set_flag is_near
  activate id a =
      let bit = id % active_width in
      if elem id always_active
      then a
      else if is_near cur id
      then record {
        near = a.near ++ bit ∷ [];
        unique = if is_zero a.near then some bit else none;
        far = a.far;
      }
      else record { near = a.near; unique = a.unique; far = set_flag id a.far }

  unfoldable pub activate_all : List ℕ → Activation → Activation
  unfolding activate
  activate_all [] a = a
  activate_all (id ∷ ids) a = activate_all ids (activate id a)

  unfoldable pub active_set2bit_map : List ℕ → BitMap → Activation
  unfolding activate_all
  active_set2bit_map ids m = activate_all ids (record { near = []; unique = some 0; far = m })
