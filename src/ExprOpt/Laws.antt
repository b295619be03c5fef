-- ===== src/ExprOpt/Laws.antt =====
-- What the theorem on treeOpt of src/exprOpt.cpp assumes of a tree and of the meaning of the operators.
use gsim.Prelude.{ℕ, Bool, List, ◌∷◌, Option, none, some, ◌≡◌, ◌∙◌}
use gsim.Prelude.Int.{ℤ}
use gsim.Firrtl.Range.{InRange}
use gsim.Tree.{Label, ENode, enode, Children, no_more, child, null, label}
use gsim.ExprOpt.{child_at, Kind, choice, reset_cast, sign_cast, plain, kind}
use gsim.ExprOpt.Equal.{Similar, eval}

-- A run-time value, with its width and sign.
pub record Value : Type 0 where
  pub width : ℕ
  pub sign : Bool
  pub number : ℤ

-- A value of an enode: it has the width and the sign of the enode, and is in their range.
pub record Shaped (l : Label) (v : Value) : Type 0 where
  pub width : v.width ≡ l.width
  pub sign : v.sign ≡ l.sign
  pub range : InRange v.width v.sign v.number

-- Each enode gives values of its own width and sign, from the fields that checkENodeEq compares and the
-- memory. A choice between equal values that fit the enode, and a cast of a value that fits it already,
-- give that value.
pub record Laws (real_value : ℕ → Option ℕ) (mean : Label → List (Option Value) → Value)
    : Type 0 where
  pub similar :
      (l k : Label) (vs : List (Option Value)) → Similar real_value l k → mean l vs ≡ mean k vs
  pub shaped : (l : Label) (vs : List (Option Value)) → Shaped l (mean l vs)
  pub chosen :
      (l : Label) (c : Option Value) (v : Value) (vs : List (Option Value))
      → kind l.op_type ≡ choice
      → Shaped l v
      → mean l (c ∷ some v ∷ some v ∷ vs) ≡ v
  pub as_reset :
      (l : Label) (v : Value) (vs : List (Option Value))
      → kind l.op_type ≡ reset_cast
      → Shaped l v
      → mean l (some v ∷ vs) ≡ v
  pub as_sign :
      (l : Label) (v : Value) (vs : List (Option Value))
      → kind l.op_type ≡ sign_cast
      → Shaped l v
      → mean l (some v ∷ vs) ≡ v

-- The child, if it is there, has the width and the sign of the enode.
abbrev pub FitsAt : Label → Option (Option ENode) → Type 0
FitsAt l (some (some e)) = ((label e).width ≡ l.width) × ((label e).sign ≡ l.sign)
FitsAt l (some none) = Unit
FitsAt l none = Unit

-- The child that takes the place of an enode of this kind.
abbrev pub FitsKind : Kind → Label → Children → Type 0
FitsKind choice l cs = FitsAt l (child_at cs 1)
FitsKind reset_cast l cs = FitsAt l (child_at cs 0)
FitsKind sign_cast l cs = Unit
FitsKind plain l cs = Unit

-- The first branch of each mux and when, and the operand of each asAsyncReset, have its width and sign.
abbrev mutual
  pub Fitting : ENode → Type 0
  Fitting (enode l cs) = FitsKind (kind l.op_type) l cs × AllFitting cs

  pub AllFitting : Children → Type 0
  AllFitting no_more = Unit
  AllFitting (child e cs) = Fitting e × AllFitting cs
  AllFitting (null cs) = AllFitting cs

module _ (rv : ℕ → Option ℕ) (mean : Label → List (Option Value) → Value)
    (laws : Laws rv mean) where
  -- The value of a child that fits an enode fits it.
  pub eval-Shaped :
      (l : Label) (e : ENode)
      → (label e).width ≡ l.width
      → (label e).sign ≡ l.sign
      → Shaped l (eval rv mean e)
  eval-Shaped l (enode k cs) w s =
      let h = laws.shaped k _ in record { width = h.width ∙ w; sign = h.sign ∙ s; range = h.range }
