-- ===== src/ConstFold/Sound/Runs.antt =====
-- Which expressions are in the scope of the theorems, with their run-time values.
use gsim.Prelude.{
  ℕ, ◌≤◌, Bool, true, false, ◌≡◌, refl, ap, ap₂, ◌∙◌, sym, ◌||◌, if◌then◌else◌, some, none, List,
  ◌∷◌, ◌==◌, get_or,
}
use gsim.Prelude.Int.{ℤ, pos, ◌-ℤ◌}
use gsim.Prelude.Residue.{wrap}
use gsim.Circuit.{OpType, op_mux, op_int, is_group, is_int}
use gsim.Firrtl.{prim1, prim2, same}
use gsim.Firrtl.Range.{InRange, wrap-InRange}
use gsim.Gmp.{digits_value}
use gsim.ValInfo.{ValInfo}
use gsim.ValInfo.Wrap.{Fits}
use gsim.Util.{fir_str_base}
use gsim.ConstFold.Tree.{sign_after}
use gsim.Tree.{Label, ENode, enode, no_more, child, label}
use gsim.ConstFold.Sound.{Holds}
use gsim.ConstFold.Sound.Expr.{Binary, Unary, Binary-plain, Unary-plain}

-- The run-time value of an expression, for the expressions in the scope of the theorem: each enode's
-- value is FIRRTL's, read at the enode's width and sign; the branches of a mux have its width and sign.
pub data Runs (node_info : ℕ → ValInfo) (node_value : ℕ → ℤ) : ENode → ℤ → Type 0 where
  reads :
      (l : Label) (n : ℕ)
      → l.node_ptr ≡ some n
      → is_int l.op_type ≡ false
      → Holds l.width l.sign (node_info n) (node_value n)
      → Runs node_info node_value (enode l no_more) (node_value n)
  literal :
      (l : Label) (base c n : ℕ) (cs : List ℕ)
      → Fits l.width
      → l.node_ptr ≡ none
      → l.op_type ≡ op_int
      → fir_str_base l.str_val ≡ (base, c ∷ cs)
      → (c == b'-') ≡ false
      → 2 ≤ base
      → base ≤ 36
      → digits_value base 0 (c ∷ cs) ≡ some n
      → Runs node_info node_value (enode l no_more) (wrap l.width l.sign (pos n))
  minus :
      (l : Label) (base c n : ℕ) (cs : List ℕ)
      → Fits l.width
      → l.node_ptr ≡ none
      → l.op_type ≡ op_int
      → fir_str_base l.str_val ≡ (base, b'-' ∷ c ∷ cs)
      → 2 ≤ base
      → base ≤ 36
      → digits_value base 0 (c ∷ cs) ≡ some n
      → Runs node_info node_value (enode l no_more) (wrap l.width true (pos 0 -ℤ pos n))
  unary :
      (l : Label) (e : ENode) (v : ℤ)
      → Fits l.width
      → l.node_ptr ≡ none
      → Unary l.width (label e).width (sign_after (label e)) v l.op_type l.sign l.values
      → Runs node_info node_value e v
      → Runs node_info node_value (enode l (child e no_more)) (
          wrap l.width l.sign
            (prim1 l.op_type (get_or l.values 0 0) (get_or l.values 1 0) (label e).width v))
  binary :
      (l : Label) (a b : ENode) (va vb : ℤ)
      → Fits l.width
      → l.node_ptr ≡ none
      → Binary (sign_after (label a)) va (sign_after (label b)) vb l.op_type l.sign
      → Runs node_info node_value a va
      → Runs node_info node_value b vb
      → Runs node_info node_value
          (enode l (child a (child b no_more)))
          (wrap l.width l.sign (prim2 l.op_type (label a).width va (label b).width vb))
  mux :
      (l : Label) (c a b : ENode) (vc va vb : ℤ)
      → l.node_ptr ≡ none
      → l.op_type ≡ op_mux
      → (label a).width ≡ l.width
      → (label b).width ≡ l.width
      → sign_after (label a) ≡ l.sign
      → sign_after (label b) ≡ l.sign
      → Runs node_info node_value c vc
      → Runs node_info node_value a va
      → Runs node_info node_value b vb
      → Runs node_info node_value
          (enode l (child c (child a (child b no_more))))
          (if same vc (pos 0) then vb else va)

pub sign_plain : (l : Label) → is_int l.op_type ≡ false → sign_after l ≡ l.sign
sign_plain l h = rw h refl

pub sign_literal :
    (l : Label) (base c : ℕ) (cs : List ℕ) (t : Bool)
    → l.op_type ≡ op_int
    → fir_str_base l.str_val ≡ (base, c ∷ cs)
    → (c == b'-') ≡ t
    → sign_after l ≡ l.sign || t
sign_literal l base c cs t o p q = rw (o, p, q) refl

pub or_true : (b : Bool) → (b || true) ≡ true
or_true true = refl
or_true false = refl

pub or_false : (b : Bool) → (b || false) ≡ b
or_false true = refl
or_false false = refl

in_place : (w : ℕ) (s t : Bool) (y : ℤ) → t ≡ s → InRange w t (wrap w s y)
in_place w s t y e = ap (λ u. wrap w u (wrap w s y)) e ∙ wrap-InRange w s y

pub op_mux_plain : (op : OpType) → op ≡ op_mux → (is_group op ≡ false) × (is_int op ≡ false)
op_mux_plain op e = rw e (refl, refl)

pub op_int_plain : (op : OpType) → op ≡ op_int → is_group op ≡ false
op_int_plain op e = rw e refl

-- Every value is in the range of its enode.
pub Runs-InRange :
    (node_info : ℕ → ValInfo) (node_value : ℕ → ℤ) (e : ENode) (v : ℤ)
    → Runs node_info node_value e v
    → InRange (label e).width (sign_after (label e)) v
Runs-InRange ni nv _ _ (reads l n p q h) =
    ap (λ u. wrap l.width u (nv n)) (sign_plain l q) ∙ h.range
Runs-InRange ni nv _ _ (literal l base c n cs f p o q r x y d) =
    in_place l.width l.sign (sign_after l) (pos n)
      (sign_literal l base c cs false o q r ∙ or_false l.sign)
Runs-InRange ni nv _ _ (minus l base c n cs f p o q x y d) =
    in_place l.width true (sign_after l) (pos 0 -ℤ pos n)
      (sign_literal l base b'-' (c ∷ cs) true o q refl ∙ or_true l.sign)
Runs-InRange ni nv _ _ (unary l e v f p u r) =
    in_place l.width l.sign (sign_after l) _ (sign_plain l (Unary-plain u).1)
Runs-InRange ni nv _ _ (binary l a b va vb f p u ra rb) =
    in_place l.width l.sign (sign_after l) _ (sign_plain l (Binary-plain u).1)
Runs-InRange ni nv _ _ (mux l c a b vc va vb p o wa wb sa sb rc ra rb) =
    branch (same vc (pos 0)) (moved a va wa sa (Runs-InRange ni nv a va ra))
      (moved b vb wb sb (Runs-InRange ni nv b vb rb))
  where
    moved :
        (e : ENode) (v : ℤ)
        → (label e).width ≡ l.width
        → sign_after (label e) ≡ l.sign
        → InRange (label e).width (sign_after (label e)) v
        → InRange l.width (sign_after l) v
    moved e v ew es h =
        ap₂ (λ p q. wrap p q v) (sym ew) (sign_plain l (op_mux_plain l.op_type o).1 ∙ sym es) ∙ h

    branch :
        (t : Bool)
        → InRange l.width (sign_after l) va
        → InRange l.width (sign_after l) vb
        → InRange l.width (sign_after l) (if t then vb else va)
    branch true x y = y
    branch false x y = x
