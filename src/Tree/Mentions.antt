-- ===== src/Tree/Mentions.antt =====
-- src/deadNodes.cpp, getENodeRelyNodes and ExpTree::getRelyNodes: the nodes that an expression
-- refers to, collected with a stack. The std::set is a list, whose order and repetitions nothing
-- reads. The loop has the size of the tree as fuel. An ExpTree is its root and the children of its
-- left-hand side, none of which is null.
use gsim.Prelude.{
  ℕ, zero, suc, ◌+◌, ◌≤◌, List, [], ◌∷◌, Option, none, some, ◌≡◌, ◌⊎◌, inr, ◌↔◌, arith, Memᴰ-cons,
}
use mathlib.Core.List.{Memᴰ}
use mathlib.Core.Logic.{⊎_elim}
use gsim.Tree.{ENode, enode, Children, no_more, child, null}

pub record ExpTree : Type 0 where
  pub root : ENode
  pub lvalue_child : List ENode

abbrev push_children : Children → List ENode → List ENode
push_children no_more s = s
push_children (child e cs) s = push_children cs (e ∷ s)
push_children (null cs) s = push_children cs s

abbrev insert_some : Option ℕ → List ℕ → List ℕ
insert_some none all = all
insert_some (some v) all = v ∷ all

abbrev mutual
  pub enode_size : ENode → ℕ
  enode_size (enode l cs) = suc (children_size cs)

  pub children_size : Children → ℕ
  children_size no_more = 0
  children_size (child e cs) = enode_size e + children_size cs
  children_size (null cs) = children_size cs

abbrev pub sizes : List ENode → ℕ
sizes [] = 0
sizes (e ∷ es) = enode_size e + sizes es

unfoldable pub rely_loop : ℕ → List ENode → List ℕ → List ℕ
rely_loop zero s all = all
rely_loop (suc fuel) [] all = all
rely_loop (suc fuel) (enode l cs ∷ s) all =
    rely_loop fuel (push_children cs s) (insert_some l.node_ptr all)

unfoldable pub get_enode_rely_nodes : ENode → List ℕ → List ℕ
get_enode_rely_nodes e all = rely_loop (enode_size e) (e ∷ []) all

unfoldable pub rely_lvalue : List ENode → List ℕ → List ℕ
rely_lvalue [] all = all
rely_lvalue (e ∷ es) all = rely_lvalue es (get_enode_rely_nodes e all)

unfoldable pub get_rely_nodes : ExpTree → List ℕ → List ℕ
get_rely_nodes tree all = rely_lvalue tree.lvalue_child (get_enode_rely_nodes tree.root all)

-- An enode of the tree refers to the node.
abbrev mutual
  pub Mentions : ℕ → ENode → Type 0
  Mentions v (enode l cs) = (l.node_ptr ≡ some v) ⊎ MentionsIn v cs

  pub MentionsIn : ℕ → Children → Type 0
  MentionsIn v no_more = ⊥
  MentionsIn v (child e cs) = Mentions v e ⊎ MentionsIn v cs
  MentionsIn v (null cs) = MentionsIn v cs

abbrev pub MentionsAny : ℕ → List ENode → Type 0
MentionsAny v [] = ⊥
MentionsAny v (e ∷ es) = Mentions v e ⊎ MentionsAny v es

sizes-push_children :
    (cs : Children) (s : List ENode) → sizes (push_children cs s) ≡ children_size cs + sizes s
sizes-push_children no_more s = omega arith
sizes-push_children (child e cs) s = omega (arith, sizes-push_children cs (e ∷ s))
sizes-push_children (null cs) s = sizes-push_children cs s

MentionsAny-push_children :
    (v : ℕ) (cs : Children) (s : List ENode)
    → MentionsAny v (push_children cs s) ↔ (MentionsIn v cs ⊎ MentionsAny v s)
MentionsAny-push_children v no_more s = (inr, ⊎_elim (λ e. absurd e) (λ m. m))
MentionsAny-push_children v (child e cs) s =
    let ih = MentionsAny-push_children v cs (e ∷ s) in ground (arith, ih)
MentionsAny-push_children v (null cs) s = MentionsAny-push_children v cs s

Memᴰ-insert_some :
    (v : ℕ) (o : Option ℕ) (all : List ℕ) → Memᴰ v (insert_some o all) ↔ ((o ≡ some v) ⊎ Memᴰ v all)
Memᴰ-insert_some v none all = (inr, ⊎_elim (λ e. cc) (λ m. m))
Memᴰ-insert_some v (some u) all = ground (arith, Memᴰ-cons v u all)

Memᴰ-rely_loop :
    (fuel : ℕ) (s : List ENode) (all : List ℕ) (v : ℕ)
    → sizes s ≤ fuel
    → Memᴰ v (rely_loop fuel s all) ↔ (MentionsAny v s ⊎ Memᴰ v all)
unfolding rely_loop
Memᴰ-rely_loop zero [] all v h = (inr, ⊎_elim (λ e. absurd e) (λ m. m))
Memᴰ-rely_loop zero (enode l cs ∷ s) all v h = absurd (omega arith)
Memᴰ-rely_loop (suc fuel) [] all v h = (inr, ⊎_elim (λ e. absurd e) (λ m. m))
Memᴰ-rely_loop (suc fuel) (enode l cs ∷ s) all v h =
    let ih =
      Memᴰ-rely_loop fuel (push_children cs s) (insert_some l.node_ptr all) v
        (omega (arith, sizes-push_children cs s)) in
    ground (arith, ih, MentionsAny-push_children v cs s, Memᴰ-insert_some v l.node_ptr all)

Memᴰ-rely_enode :
    (e : ENode) (all : List ℕ) (v : ℕ)
    → Memᴰ v (get_enode_rely_nodes e all) ↔ (Mentions v e ⊎ Memᴰ v all)
unfolding get_enode_rely_nodes
Memᴰ-rely_enode e all v =
    let loop = Memᴰ-rely_loop (enode_size e) (e ∷ []) all v (omega arith) in ground (arith, loop)

Memᴰ-rely_lvalue :
    (es : List ENode) (all : List ℕ) (v : ℕ)
    → Memᴰ v (rely_lvalue es all) ↔ (MentionsAny v es ⊎ Memᴰ v all)
unfolding rely_lvalue
Memᴰ-rely_lvalue [] all v = (inr, ⊎_elim (λ e. absurd e) (λ m. m))
Memᴰ-rely_lvalue (e ∷ es) all v =
    ground (arith, Memᴰ-rely_lvalue es (get_enode_rely_nodes e all) v, Memᴰ-rely_enode e all v)

-- getRelyNodes adds to a set exactly the nodes that enodes of the root or of the children of the
-- left-hand side refer to, in trees with null children too.
pub Memᴰ-get_rely_nodes :
    (tree : ExpTree) (all : List ℕ) (v : ℕ)
    → Memᴰ v (get_rely_nodes tree all)
      ↔ (Mentions v tree.root ⊎ MentionsAny v tree.lvalue_child ⊎ Memᴰ v all)
unfolding get_rely_nodes
Memᴰ-get_rely_nodes tree all v = ground (
  arith,
  Memᴰ-rely_lvalue tree.lvalue_child (get_enode_rely_nodes tree.root all) v,
  Memᴰ-rely_enode tree.root all v,
)
