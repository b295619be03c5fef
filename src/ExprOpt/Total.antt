-- ===== src/ExprOpt/Total.antt =====
-- treeOpt follows no null pointer in a tree whose enodes have the children that it reads.
use gsim.Prelude.{
  ℕ, zero, suc, ◌≤◌, Bool, true, false, ◌&&◌, ◌||◌, not, List, Option, some, ◌==◌, ==_iff,
  if◌then◌else◌, ◌>>=◌, ◌≡◌, refl, arith,
}
use gsim.Circuit.{op_int}
use gsim.Circuit.Numbers.{same_op}
use gsim.Tree.{Label, ENode, enode, Children, no_more, child, null, label}
use gsim.ExprOpt.{
  child_at, branch_eq, Slot, slot_at, rebuild, descend, Kind, choice, reset_cast, sign_cast, plain,
  kind, same_shape, opt_enode, tree_opt, opt_each, sub_tree_eq, children_eq, check_enode_eq,
  child_num, same_bool, same_list, same_node,
}
use gsim.ExprOpt.Equal.{and_left, and_right}

-- How many children treeOpt reads of an enode of the kind.
abbrev pub read_num : Kind → ℕ
read_num choice = 3
read_num reset_cast = 1
read_num sign_cast = 1
read_num plain = 0

-- No child is null, and those that treeOpt reads are there.
abbrev mutual
  pub Full : ENode → Type 0
  Full (enode l cs) = (read_num (kind l.op_type) ≤ child_num cs) × FullAll cs

  pub FullAll : Children → Type 0
  FullAll no_more = Unit
  FullAll (child e cs) = Full e × FullAll cs
  FullAll (null cs) = ⊥

Full-child_at :
    (cs : Children) (i : ℕ)
    → suc i ≤ child_num cs
    → FullAll cs
    → (e : ENode) × (child_at cs i ≡ some (some e)) × Full e
Full-child_at no_more i h f = absurd (omega arith)
Full-child_at (child e cs) zero h (f, fs) = (e, refl, f)
Full-child_at (child e cs) (suc i) h (f, fs) = Full-child_at cs i (omega arith) fs
Full-child_at (null cs) i h f = absurd f

module _ (rv : ℕ → Option ℕ) where
  child_num_same :
      (l k : Label) (cs ds : Children)
      → check_enode_eq rv (enode l cs) (enode k ds) ≡ true
      → child_num cs ≡ child_num ds
  unfolding check_enode_eq
  child_num_same l k cs ds e =
      let t0 = same_op l.op_type k.op_type in
      let t1 = l.width == k.width in
      let t2 = same_bool l.sign k.sign in
      let t3 = child_num cs == child_num ds in
      let t4 = not (same_op l.op_type op_int) || same_list l.str_val k.str_val in
      let t5 = same_node rv l.node_ptr k.node_ptr in
      let t6 = same_list l.values k.values in
      (==_iff (child_num cs) (child_num ds)).0 (
        and_right (t0 && t1 && t2) t3 (
          and_left (t0 && t1 && t2 && t3) t4 (
            and_left (t0 && t1 && t2 && t3 && t4) t5
              (and_left (t0 && t1 && t2 && t3 && t4 && t5) t6 e))))

  mutual
    unfolding sub_tree_eq

    sub_tree_returns : (a b : ENode) → Full a → Full b → (t : Bool) × (sub_tree_eq rv a b ≡ some t)
    sub_tree_returns (enode l cs) (enode k ds) (_, f) (_, g) =
        by_test (check_enode_eq rv (enode l cs) (enode k ds)) refl
          (λ same. children_return cs ds f g same)
      where
        by_test :
            (t : Bool)
            → check_enode_eq rv (enode l cs) (enode k ds) ≡ t
            → (child_num cs ≡ child_num ds → (u : Bool) × (children_eq rv cs ds ≡ some u))
            → (u : Bool) × ((if t then children_eq rv cs ds else some false) ≡ some u)
        by_test true p go = go (child_num_same l k cs ds p)
        by_test false p go = (false, refl)

    children_return :
        (cs ds : Children)
        → FullAll cs
        → FullAll ds
        → child_num cs ≡ child_num ds
        → (t : Bool) × (children_eq rv cs ds ≡ some t)
    children_return no_more ds f g same = (true, refl)
    children_return (null cs) ds f g same = absurd f
    children_return (child a cs) no_more f g same = absurd (omega (arith, same))
    children_return (child a cs) (null ds) f g same = absurd g
    children_return (child a cs) (child b ds) (f, fs) (g, gs) same =
        let (t, p) = sub_tree_returns a b f g in
        let (u, q) = children_return cs ds fs gs (omega (arith, same)) in by_test t p u q
      where
        by_test :
            (t : Bool)
            → sub_tree_eq rv a b ≡ some t
            → (u : Bool) → children_eq rv cs ds ≡ some u
            → (v : Bool) × ((sub_tree_eq rv a b >>= λ t.
                  if t then children_eq rv cs ds else some false)
                ≡ some v)
        by_test true p u q = (u, rw p q)
        by_test false p u q = (false, rw p refl)

  -- The results for the children of an enode.
  record Ready (cs : Children) (slots : List Slot) : Type 0 where
    at :
        (i : ℕ) (e : ENode)
        → child_at cs i ≡ some (some e)
        → (r : ENode) × (slot_at slots i ≡ some r)
    all : (ds : Children) × (rebuild slots ≡ some ds)

  descend_returns :
      (l : Label) (cs : Children) (slots : List Slot)
      → Ready cs slots
      → (r : ENode) × (descend l slots ≡ some r)
  descend_returns l cs slots h = let (ds, p) = h.all in (enode l ds, rw p refl)

  opt_enode_returns :
      (l : Label) (cs : Children) (slots : List Slot)
      → Full (enode l cs)
      → Ready cs slots
      → (r : ENode) × (opt_enode rv l cs slots ≡ some r)
  unfolding opt_enode
  opt_enode_returns l cs slots (long, f) h = by_kind (kind l.op_type) long
    where
      if_returns :
          (t : Bool) (x y : Option ENode)
          → ((r : ENode) × (x ≡ some r))
          → ((r : ENode) × (y ≡ some r))
          → (r : ENode) × ((if t then x else y) ≡ some r)
      if_returns true x y p q = p
      if_returns false x y p q = q

      by_kind :
          (k : Kind)
          → read_num k ≤ child_num cs
          → (r : ENode) × ((elim k [
            | choice ↦ (do
              a ← child_at cs 1
              b ← child_at cs 2
              t ← branch_eq rv a b
              if t then slot_at slots 1 else descend l slots)
            | reset_cast ↦ slot_at slots 0
            | sign_cast ↦ (do
              a ← child_at cs 0
              e ← a
              if same_shape l (label e) then slot_at slots 0 else some (enode l cs))
            | plain ↦ descend l slots
          ])
              ≡ some r)
      by_kind choice long =
          let (x, p, fx) = Full-child_at cs 1 (omega arith) f in
          let (y, q, fy) = Full-child_at cs 2 (omega arith) f in
          let (t, e) = sub_tree_returns x y fx fy in
          let (r, out) =
            if_returns t (slot_at slots 1) (descend l slots) (h.at 1 x p)
              (descend_returns l cs slots h) in
          (r, rw (p, q, e) out)
      by_kind reset_cast long = let (x, p, _) = Full-child_at cs 0 (omega arith) f in h.at 0 x p
      by_kind sign_cast long =
          let (x, p, _) = Full-child_at cs 0 (omega arith) f in
          let (r, out) =
            if_returns (same_shape l (label x)) (slot_at slots 0) (some (enode l cs)) (h.at 0 x p)
              (enode l cs, refl) in
          (r, rw p out)
      by_kind plain long = descend_returns l cs slots h

  mutual
    unfolding tree_opt rebuild

    tree_returns : (e : ENode) → Full e → (r : ENode) × (tree_opt rv e ≡ some r)
    tree_returns (enode l cs) (long, f) =
        opt_enode_returns l cs (opt_each rv cs) (long, f)
          (record { at = at_returns cs f; all = all_return cs f })

    at_returns :
        (cs : Children)
        → FullAll cs
        → (i : ℕ) (e : ENode) → child_at cs i ≡ some (some e)
        → (r : ENode) × (slot_at (opt_each rv cs) i ≡ some r)
    at_returns no_more f i e p = cc p
    at_returns (child x cs) (f, fs) zero e p = tree_returns x f
    at_returns (child x cs) (f, fs) (suc i) e p = at_returns cs fs i e p
    at_returns (null cs) f i e p = absurd f

    all_return :
        (cs : Children) → FullAll cs → (ds : Children) × (rebuild (opt_each rv cs) ≡ some ds)
    all_return no_more f = (no_more, refl)
    all_return (child x cs) (f, fs) =
        let (y, p) = tree_returns x f in
        let (ds, q) = all_return cs fs in (child y ds, rw (p, q) refl)
    all_return (null cs) f = absurd f

  -- On a tree without null children, in which each mux and when has three children and each cast
  -- one, treeOpt gives a tree and follows no null pointer.
  pub tree_opt_returns : (e : ENode) → Full e → (r : ENode) × (tree_opt rv e ≡ some r)
  tree_opt_returns e f = tree_returns e f
