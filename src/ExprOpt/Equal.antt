-- ===== src/ExprOpt/Equal.antt =====
-- What equal subtrees have in common, for any meaning of the operators that does not read the fields
-- that checkENodeEq leaves out. It leaves out memoryNode, so the trees are ones without memories.
use gsim.Prelude.{
  ℕ, Bool, true, false, not, ◌&&◌, ◌||◌, List, [], ◌∷◌, Option, none, some, ◌==◌, ==_iff,
  if◌then◌else◌, some_of_bind, ◌≡◌, refl, sym, ap, ap₂, ◌∙◌, arith,
}
use mathlib.Core.Path.{subst}
use gsim.Circuit.{OpType, op_int}
use gsim.Circuit.Numbers.{same_op, same_op_sound}
use gsim.Tree.{Label, ENode, enode, Children, no_more, child, null}
use gsim.ExprOpt.{
  same_bool, same_list, child_num, same_node, check_enode_eq, sub_tree_eq, children_eq,
}

pub and_left : (a b : Bool) → (a && b) ≡ true → a ≡ true
and_left true b e = refl
and_left false b e = e

pub and_right : (a b : Bool) → (a && b) ≡ true → b ≡ true
and_right true b e = e
and_right false b e = cc e

pub same_bool_sound : (a b : Bool) → same_bool a b ≡ true → a ≡ b
same_bool_sound true true e = refl
same_bool_sound true false e = sym e
same_bool_sound false true e = e
same_bool_sound false false e = refl

same_list_sound : (ms ns : List ℕ) → same_list ms ns ≡ true → ms ≡ ns
same_list_sound [] [] e = refl
same_list_sound [] (_ ∷ _) e = cc e
same_list_sound (_ ∷ _) [] e = cc e
same_list_sound (m ∷ ms) (n ∷ ns) e =
    ap₂ (λ a b. a ∷ b) ((==_iff m n).0 (and_left (m == n) (same_list ms ns) e))
      (same_list_sound ms ns (and_right (m == n) (same_list ms ns) e))

-- No enode of the tree is for a memory.
abbrev mutual
  pub NoMemory : ENode → Type 0
  NoMemory (enode l cs) = (l.memory_node ≡ none) × NoMemories cs

  pub NoMemories : Children → Type 0
  NoMemories no_more = Unit
  NoMemories (child e cs) = NoMemory e × NoMemories cs
  NoMemories (null cs) = NoMemories cs

module _ (real_value : ℕ → Option ℕ) where
  -- The fields that say what an enode means agree.
  pub record Similar (l k : Label) : Type 0 where
    pub op : l.op_type ≡ k.op_type
    pub width : l.width ≡ k.width
    pub sign : l.sign ≡ k.sign
    pub text : l.op_type ≡ op_int → l.str_val ≡ k.str_val
    pub node : same_node real_value l.node_ptr k.node_ptr ≡ true
    pub values : l.values ≡ k.values
    pub memory : l.memory_node ≡ k.memory_node

  text_sound :
      (op : OpType) (ms ns : List ℕ)
      → (not (same_op op op_int) || same_list ms ns) ≡ true
      → op ≡ op_int
      → ms ≡ ns
  text_sound op ms ns e same =
      same_list_sound ms ns (subst (λ o. (not (same_op o op_int) || same_list ms ns) ≡ true) same e)

  check_enode_eq_sound :
      (l k : Label) (cs ds : Children)
      → l.memory_node ≡ none
      → k.memory_node ≡ none
      → check_enode_eq real_value (enode l cs) (enode k ds) ≡ true
      → Similar l k × (child_num cs ≡ child_num ds)
  unfolding check_enode_eq
  check_enode_eq_sound l k cs ds m n e =
      let t0 = same_op l.op_type k.op_type in
      let t1 = l.width == k.width in
      let t2 = same_bool l.sign k.sign in
      let t3 = child_num cs == child_num ds in
      let t4 = not (same_op l.op_type op_int) || same_list l.str_val k.str_val in
      let t5 = same_node real_value l.node_ptr k.node_ptr in
      let t6 = same_list l.values k.values in
      let p5 = and_left (t0 && t1 && t2 && t3 && t4 && t5) t6 e in
      let p4 = and_left (t0 && t1 && t2 && t3 && t4) t5 p5 in
      let p3 = and_left (t0 && t1 && t2 && t3) t4 p4 in
      let p2 = and_left (t0 && t1 && t2) t3 p3 in
      let p1 = and_left (t0 && t1) t2 p2 in
      (
        record {
          op = same_op_sound l.op_type k.op_type (and_left t0 t1 p1);
          width = (==_iff l.width k.width).0 (and_right t0 t1 p1);
          sign = same_bool_sound l.sign k.sign (and_right (t0 && t1) t2 p2);
          text = text_sound l.op_type l.str_val k.str_val (and_right (t0 && t1 && t2 && t3) t4 p4);
          node = and_right (t0 && t1 && t2 && t3 && t4) t5 p5;
          values =
              same_list_sound l.values k.values (and_right (t0 && t1 && t2 && t3 && t4 && t5) t6 e);
          memory = m ∙ sym n;
        },
        (==_iff (child_num cs) (child_num ds)).0 (and_right (t0 && t1 && t2) t3 p3),
      )

  module _ {V : Type 0} (mean : Label → List (Option V) → V) where
    -- The value of a tree; a null child has none.
    abbrev mutual
      pub eval : ENode → V
      eval (enode l cs) = mean l (eval_children cs)

      pub eval_children : Children → List (Option V)
      eval_children no_more = []
      eval_children (child e cs) = some (eval e) ∷ eval_children cs
      eval_children (null cs) = none ∷ eval_children cs

    module _
        (similar : (l k : Label) (vs : List (Option V)) → Similar l k → mean l vs ≡ mean k vs) where
      mutual
        unfolding sub_tree_eq

        sub_tree_means :
            (a b : ENode)
            → NoMemory a
            → NoMemory b
            → sub_tree_eq real_value a b ≡ some true
            → eval a ≡ eval b
        sub_tree_means (enode l cs) (enode k ds) (m, ms) (n, ns) e =
            by_test (check_enode_eq real_value (enode l cs) (enode k ds)) refl e
              (λ same q. children_mean cs ds ms ns same q)
          where
            by_test :
                (t : Bool)
                → check_enode_eq real_value (enode l cs) (enode k ds) ≡ t
                → (if t then children_eq real_value cs ds else some false) ≡ some true
                → (child_num cs ≡ child_num ds
                    → children_eq real_value cs ds ≡ some true
                    → eval_children cs ≡ eval_children ds)
                → mean l (eval_children cs) ≡ mean k (eval_children ds)
            by_test true p q go =
                let (alike, same) = check_enode_eq_sound l k cs ds m n p in
                similar l k (eval_children cs) alike ∙ ap (mean k) (go same q)
            by_test false p q go = cc q

        children_mean :
            (cs ds : Children)
            → NoMemories cs
            → NoMemories ds
            → child_num cs ≡ child_num ds
            → children_eq real_value cs ds ≡ some true
            → eval_children cs ≡ eval_children ds
        children_mean no_more no_more ms ns same e = refl
        children_mean no_more (child f ds) ms ns same e = absurd (omega (arith, same))
        children_mean no_more (null ds) ms ns same e = absurd (omega (arith, same))
        children_mean (child a cs) no_more ms ns same e = absurd (omega (arith, same))
        children_mean (null cs) no_more ms ns same e = absurd (omega (arith, same))
        children_mean (child a cs) (null ds) ms ns same e = cc e
        children_mean (null cs) (child f ds) ms ns same e = cc e
        children_mean (null cs) (null ds) ms ns same e = cc e
        children_mean (child a cs) (child b ds) (m, ms) (n, ns) same e =
            let (t, p, q) =
              some_of_bind (sub_tree_eq real_value a b)
                (λ t. if t then children_eq real_value cs ds else some false) true e in
            by_test t p q (λ k. sub_tree_means a b m n k)
              (λ k. children_mean cs ds ms ns (omega (arith, same)) k)
          where
            by_test :
                (t : Bool)
                → sub_tree_eq real_value a b ≡ some t
                → (if t then children_eq real_value cs ds else some false) ≡ some true
                → (sub_tree_eq real_value a b ≡ some true → eval a ≡ eval b)
                → (children_eq real_value cs ds ≡ some true → eval_children cs ≡ eval_children ds)
                → eval_children (child a cs) ≡ eval_children (child b ds)
            by_test true p q go later = ap₂ (λ x xs. some x ∷ xs) (go p) (later q)
            by_test false p q go later = cc q

      -- Two trees without memories that subTreeEq finds equal mean the same.
      pub eval-sub_tree_eq :
          (a b : ENode)
          → NoMemory a
          → NoMemory b
          → sub_tree_eq real_value a b ≡ some true
          → eval a ≡ eval b
      eval-sub_tree_eq a b m n e = sub_tree_means a b m n e
