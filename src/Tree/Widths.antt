-- ===== src/Tree/Widths.antt =====
-- src/ExpTree.cpp, ExpTree::matchWidth: below whens and resets every branch gets the width, by a new
-- width of its enode or by an OP_PAD, OP_SEXT or OP_BITS above it. The stack and the list allNodes
-- hold places of the tree, which are changed independently; the model goes down the tree. A width is
-- positive: at width 0 the source gives OP_BITS the index -1, which the field values does not hold.
use gsim.Prelude.{
  ℕ, ◌-◌, ◌≤◌, Bool, true, false, List, [], ◌∷◌, none, if◌then◌else◌, ltb, ◌≡◌, refl, sym, ap, ap₂,
  ◌∙◌, arith,
}
use gsim.Circuit.{OpType, op_when, op_reset, op_int, op_invalid, op_sext, op_pad, op_bits}
use gsim.Tree.{Label, ENode, enode, Children, no_more, child, null}

abbrev pub is_branching : OpType → Bool
is_branching op = elim op [ op_when ↦ true | op_reset ↦ true | _ ↦ false ]

abbrev pub is_int_or_invalid : OpType → Bool
is_int_or_invalid op = elim op [ op_int ↦ true | op_invalid ↦ true | _ ↦ false ]

abbrev pub is_invalid : OpType → Bool
is_invalid op = elim op [ op_invalid ↦ true | _ ↦ false ]

abbrev pub set_width : ℕ → Label → Label
set_width w l = record l { width = w }

-- A new enode above another.
abbrev pub above : OpType → ℕ → Bool → List ℕ → ENode → ENode
above op w sign values e =
    enode
      (record {
        op_type = op;
        width = w;
        sign = sign;
        values = values;
        str_val = [];
        node_ptr = none;
        memory_node = none;
        is_clock = false;
      })
      (child e no_more)

-- The body of the last loop, for one enode.
unfoldable pub fit : ℕ → Label → Children → ENode
fit w l cs =
    if ltb l.width w
    then (if is_int_or_invalid l.op_type
        then enode (set_width w l) cs
        else if l.sign
        then above op_sext w true (w ∷ []) (enode l cs)
        else above op_pad w false (w ∷ []) (enode l cs))
    else if ltb w l.width
    then (if is_invalid l.op_type
        then enode (set_width w l) cs
        else above op_bits w l.sign ((w - 1) ∷ 0 ∷ []) (enode l cs))
    else enode l cs

unfoldable mutual
  pub match_width : ℕ → ENode → ENode
  match_width w (enode l cs) =
      let branches = match_branches w cs in
      if is_branching l.op_type then enode (set_width w l) branches else fit w l cs

  -- The first child is the condition.
  pub match_branches : ℕ → Children → Children
  match_branches w no_more = no_more
  match_branches w (child e cs) = child e (match_all w cs)
  match_branches w (null cs) = null (match_all w cs)

  pub match_all : ℕ → Children → Children
  match_all w no_more = no_more
  match_all w (child e cs) = child (match_width w e) (match_all w cs)
  match_all w (null cs) = null (match_all w cs)

-- Every branch has the width.
abbrev mutual
  pub Matched : ℕ → ENode → Type 0
  Matched w (enode l cs) = (l.width ≡ w) × (is_branching l.op_type ≡ true → MatchedBranches w cs)

  pub MatchedBranches : ℕ → Children → Type 0
  MatchedBranches w no_more = Unit
  MatchedBranches w (child e cs) = MatchedAll w cs
  MatchedBranches w (null cs) = MatchedAll w cs

  pub MatchedAll : ℕ → Children → Type 0
  MatchedAll w no_more = Unit
  MatchedAll w (child e cs) = Matched w e × MatchedAll w cs
  MatchedAll w (null cs) = MatchedAll w cs

fit-Matched :
    (w : ℕ) (l : Label) (cs : Children) → is_branching l.op_type ≡ false → Matched w (fit w l cs)
unfolding fit
fit-Matched w l cs plain = by_width (ltb l.width w) (ltb w l.width) refl refl
  where
    set : Matched w (enode (set_width w l) cs)
    set = (refl, λ t. cc (sym plain ∙ t))

    short :
        (b s : Bool)
        → Matched w (
            if b
            then enode (set_width w l) cs
            else if s
            then above op_sext w true (w ∷ []) (enode l cs)
            else above op_pad w false (w ∷ []) (enode l cs))
    short true s = set
    short false true = (refl, λ t. cc)
    short false false = (refl, λ t. cc)

    long :
        (b : Bool)
        → Matched w (
            if b
            then enode (set_width w l) cs
            else above op_bits w l.sign ((w - 1) ∷ 0 ∷ []) (enode l cs))
    long true = set
    long false = (refl, λ t. cc)

    by_width :
        (a b : Bool)
        → ltb l.width w ≡ a
        → ltb w l.width ≡ b
        → Matched w (
            if a
            then (if is_int_or_invalid l.op_type
                then enode (set_width w l) cs
                else if l.sign
                then above op_sext w true (w ∷ []) (enode l cs)
                else above op_pad w false (w ∷ []) (enode l cs))
            else if b
            then (if is_invalid l.op_type
                then enode (set_width w l) cs
                else above op_bits w l.sign ((w - 1) ∷ 0 ∷ []) (enode l cs))
            else enode l cs)
    by_width true b p q = short (is_int_or_invalid l.op_type) l.sign
    by_width false true p q = long (is_invalid l.op_type)
    by_width false false p q = (ground arith, λ t. cc (sym plain ∙ t))

mutual
  unfolding match_width

  width_Matched : (w : ℕ) (e : ENode) → Matched w (match_width w e)
  width_Matched w (enode l cs) = by_test (is_branching l.op_type) refl (branches_Matched w cs)
    where
      by_test :
          (t : Bool)
          → is_branching l.op_type ≡ t
          → MatchedBranches w (match_branches w cs)
          → Matched w (if t then enode (set_width w l) (match_branches w cs) else fit w l cs)
      by_test true p h = (refl, λ _. h)
      by_test false p h = fit-Matched w l cs p

  branches_Matched : (w : ℕ) (cs : Children) → MatchedBranches w (match_branches w cs)
  branches_Matched w no_more = tt
  branches_Matched w (child e cs) = all_Matched w cs
  branches_Matched w (null cs) = all_Matched w cs

  all_Matched : (w : ℕ) (cs : Children) → MatchedAll w (match_all w cs)
  all_Matched w no_more = tt
  all_Matched w (child e cs) = (width_Matched w e, all_Matched w cs)
  all_Matched w (null cs) = all_Matched w cs

set_width_same :
    (w : ℕ) (l : Label) (cs : Children) → l.width ≡ w → enode (set_width w l) cs ≡ enode l cs
set_width_same w l cs e = ap (λ x. enode (set_width x l) cs) (sym e)

fit_same : (w : ℕ) (l : Label) (cs : Children) → l.width ≡ w → fit w l cs ≡ enode l cs
unfolding fit
fit_same w l cs e =
    rw (not_less l.width w (omega (arith, e)), not_less w l.width (omega (arith, e))) refl
  where
    not_less : (a b : ℕ) → b ≤ a → ltb a b ≡ false
    not_less a b h = ground arith

mutual
  unfolding match_width

  width_same : (w : ℕ) (e : ENode) → Matched w e → match_width w e ≡ e
  width_same w (enode l cs) (p, h) =
      by_test (is_branching l.op_type) refl (λ k. branches_same w cs k)
    where
      by_test :
          (t : Bool)
          → is_branching l.op_type ≡ t
          → (MatchedBranches w cs → match_branches w cs ≡ cs)
          → (if t then enode (set_width w l) (match_branches w cs) else fit w l cs) ≡ enode l cs
      by_test true q go = ap (λ ds. enode (set_width w l) ds) (go (h q)) ∙ set_width_same w l cs p
      by_test false q go = fit_same w l cs p

  branches_same : (w : ℕ) (cs : Children) → MatchedBranches w cs → match_branches w cs ≡ cs
  branches_same w no_more h = refl
  branches_same w (child e cs) h = ap (λ ds. child e ds) (all_same w cs h)
  branches_same w (null cs) h = ap (λ ds. null ds) (all_same w cs h)

  all_same : (w : ℕ) (cs : Children) → MatchedAll w cs → match_all w cs ≡ cs
  all_same w no_more h = refl
  all_same w (child e cs) (p, h) = ap₂ (λ x ds. child x ds) (width_same w e p) (all_same w cs h)
  all_same w (null cs) h = ap (λ ds. null ds) (all_same w cs h)

-- After matchWidth the root, and below whens and resets every branch, has the given width.
pub match_width-Matched : (w : ℕ) (e : ENode) → Matched w (match_width w e)
match_width-Matched w e = width_Matched w e

-- A second matchWidth with the same width leaves the tree of the first unchanged.
pub match_width-match_width :
    (w : ℕ) (e : ENode) → match_width w (match_width w e) ≡ match_width w e
match_width-match_width w e = width_same w (match_width w e) (width_Matched w e)
