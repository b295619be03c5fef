-- ===== src/ExprOpt/FirrtlMeaning.antt =====
-- FIRRTL's meaning of the enodes that treeOpt of src/exprOpt.cpp works on, in the form that ExprOpt.Laws asks for. What a node
-- holds, at the values of the indices of a reference to it, and what a branch that is null gives are parameters.
use gsim.Prelude.{
  ℕ, Bool, true, false, List, [], ◌∷◌, Option, none, some, ◌==◌, ==_iff, if◌then◌else◌, get_or, ◌≡◌,
  refl, sym, ap, ap₂, ◌∙◌, Bool-cases, inl, inr,
}
use gsim.Prelude.Int.{ℤ, pos, ◌-ℤ◌}
use gsim.Prelude.Residue.{wrap}
use gsim.Circuit.{OpType, op_int}
use gsim.Circuit.Numbers.{same_op, same_op_sound}
use gsim.Firrtl.{prim1, prim2, same}
use gsim.Firrtl.Range.{wrap-InRange}
use gsim.Gmp.{digits_value}
use gsim.Util.{fir_str_base}
use gsim.Tree.{Label}
use gsim.ExprOpt.{same_node, same_real, Kind, choice, reset_cast, sign_cast, plain, kind}
use gsim.ExprOpt.Laws.{Value, Shaped, Laws}

abbrev or_zero : Option ℕ → ℤ
or_zero none = pos 0
or_zero (some n) = pos n

abbrev signed_text : ℕ → List ℕ → ℤ
signed_text base [] = pos 0
signed_text base (c ∷ cs) =
    if c == b'-'
    then pos 0 -ℤ or_zero (digits_value base 0 cs)
    else or_zero (digits_value base 0 (c ∷ cs))

-- The number of a literal.
abbrev text_value : OpType → List ℕ → ℤ
text_value op str =
    let (base, text) = fir_str_base str in
    if same_op op op_int then signed_text base text else pos 0

text_value_cong :
    (o p : OpType) (s t : List ℕ) → o ≡ p → (o ≡ op_int → s ≡ t) → text_value o s ≡ text_value p t
text_value_cong o p s t e f = ap (λ q. text_value q s) e ∙ elim (Bool-cases (same_op p op_int)) [
  | inl is_int ↦ ap (text_value p) (f (e ∙ same_op_sound p op_int is_int))
  | inr other ↦ rw other refl
]

abbrev shape : ℕ → Bool → ℤ → Value
shape w s z = record { width = w; sign = s; number = wrap w s z }

shape-Shaped :
    (l : Label) (v : Value) (z : ℤ) → Shaped l v → z ≡ v.number → shape l.width l.sign z ≡ v
shape-Shaped l v z h e =
    ap (shape l.width l.sign) e
    ∙ ap₂ (λ w s. shape w s v.number) (sym h.width) (sym h.sign)
    ∙ ap (λ n. record v { number = n }) h.range

module _ (node_value : ℕ → List (Option Value) → ℤ) (unassigned : ℤ) where
  abbrev held : Option ℕ → Option (List (Option Value) → ℤ)
  held none = none
  held (some n) = some (node_value n)

  abbrev number_of : Option Value → ℤ
  number_of none = unassigned
  number_of (some v) = v.number

  abbrev first : List (Option Value) → ℤ
  first [] = unassigned
  first (a ∷ vs) = number_of a

  abbrev pick : List (Option Value) → ℤ
  pick (c ∷ a ∷ b ∷ vs) = if same (number_of c) (pos 0) then number_of b else number_of a
  pick _ = unassigned

  abbrev apply : OpType → List ℕ → Option (List (Option Value) → ℤ) → ℤ → List (Option Value) → ℤ
  apply op ns (some read) text vs = read vs
  apply op ns none text [] = text
  apply op ns none text (some a ∷ []) = prim1 op (get_or ns 0 0) (get_or ns 1 0) a.width a.number
  apply op ns none text (some a ∷ some b ∷ []) = prim2 op a.width a.number b.width b.number
  apply op ns none text _ = unassigned

  abbrev number :
      Kind → OpType → List ℕ → Option (List (Option Value) → ℤ) → ℤ → List (Option Value) → ℤ
  number choice op ns read text vs = pick vs
  number reset_cast op ns read text vs = first vs
  number sign_cast op ns read text vs = first vs
  number plain op ns read text vs = apply op ns read text vs

  abbrev pub meaning : Label → List (Option Value) → Value
  meaning l vs = shape l.width l.sign (
      number (kind l.op_type) l.op_type l.values (held l.node_ptr) (text_value l.op_type l.str_val)
        vs)

  pick_same :
      (c : Option Value) (v : Value) (vs : List (Option Value))
      → pick (c ∷ some v ∷ some v ∷ vs) ≡ v.number
  pick_same c v vs = by_test (same (number_of c) (pos 0))
    where
      by_test : (t : Bool) → (if t then v.number else v.number) ≡ v.number
      by_test true = refl
      by_test false = refl

  module _ (rv : ℕ → Option ℕ)
      (agree : (a b v : ℕ) → rv a ≡ some v → rv b ≡ some v → node_value a ≡ node_value b) where
    held_cong : (a b : Option ℕ) → same_node rv a b ≡ true → held a ≡ held b
    held_cong none none e = refl
    held_cong none (some b) e = cc e
    held_cong (some a) none e = cc e
    held_cong (some a) (some b) e = elim (Bool-cases (a == b)) [
      | inl one_node ↦ ap (λ n. held (some n)) ((==_iff a b).0 one_node)
      | inr apart ↦ ap some (by_real (rv a) (rv b) refl refl (rw apart at e))
    ]
      where
        by_real :
            (x y : Option ℕ)
            → rv a ≡ x
            → rv b ≡ y
            → same_real rv x y ≡ true
            → node_value a ≡ node_value b
        by_real none y p q t = cc t
        by_real (some x) none p q t = cc t
        by_real (some x) (some y) p q t = agree a b x p (q ∙ ap some (sym ((==_iff x y).0 t)))

    -- Nodes with one realValue hold one value.
    pub meaning-Laws : Laws rv meaning
    meaning-Laws = record {
      similar = λ l k vs h.
          rw
            (
              held_cong l.node_ptr k.node_ptr h.node,
              text_value_cong l.op_type k.op_type l.str_val k.str_val h.op h.text,
              h.op,
              h.width,
              h.sign,
              h.values,
            )
            refl;
      shaped = λ l vs. record { width = refl; sign = refl; range = wrap-InRange l.width l.sign _ };
      chosen = λ l c v vs e h. shape-Shaped l v _ h (rw e (pick_same c v vs));
      as_reset = λ l v vs e h. shape-Shaped l v _ h (rw e refl);
      as_sign = λ l v vs e h. shape-Shaped l v _ h (rw e refl);
    }
