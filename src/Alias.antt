-- ===== src/Alias.antt =====
-- src/aliasAnalysis.cpp: Node::isAlias, ENode::mergeSubTree and ExpTree::replace with the map of
-- aliases. The map is a function. The stack of replace holds the children as they were: a child that
-- is replaced stays on the stack, but the copies of its children in the new tree are not visited. A
-- null child of a copied reference would be followed: none.
pub mod Free
pub mod Returns
use gsim.Prelude.{
  ℕ, Bool, true, false, not, ◌&&◌, List, [], ◌∷◌, Option, none, some, ◌==◌, if◌then◌else◌, ◌>>=◌,
  length, is_nil,
}
use gsim.Circuit.{NodeType, is_others}
use gsim.Tree.{Label, ENode, enode, Children, no_more, child, null, label}
use gsim.Tree.Copies.{dup}
use gsim.Tree.Mentions.{ExpTree}

-- The fields of a Node that isAlias reads.
pub record Node : Type 0 where
  pub node_type : NodeType
  pub dimension : List ℕ
  pub prev : List ℕ
  pub assign_tree : List ExpTree

abbrev pub has_node : ENode → Bool
has_node e = elim (label e).node_ptr [ none ↦ false | some v ↦ true ]

abbrev pub is_others_node : (ℕ → Node) → ENode → Bool
is_others_node node e = elim (label e).node_ptr [
  | none ↦ false
  | some v ↦ is_others (node v).node_type
]

-- The reference that the node is an alias of. The predecessors are counted without repetition.
unfoldable pub is_alias : (ℕ → Node) → Node → Option ENode
is_alias node n =
    if is_others n.node_type
    then elim n.assign_tree [
      | [] ↦ none
      | tree ∷ trees ↦
          if is_nil n.dimension
          then (if is_nil trees && has_node tree.root && length n.prev == 1
              then some tree.root
              else none)
          else if length n.prev == 1
              && is_nil trees
              && is_nil tree.lvalue_child
              && is_others_node node tree.root
          then some tree.root
          else none
    ]
    else none

-- The children of the copy, and after them copies of the others.
unfoldable pub add_copies : Children → Children → Option Children
add_copies no_more no_more = some no_more
add_copies no_more (child e ds) = add_copies no_more ds >>= λ rest. some (child (dup e) rest)
add_copies no_more (null ds) = none
add_copies (child e cs) ds = add_copies cs ds >>= λ rest. some (child e rest)
add_copies (null cs) ds = add_copies cs ds >>= λ rest. some (null rest)

abbrev pub add_children : ENode → Children → Option ENode
add_children (enode l cs) ds = add_copies cs ds >>= λ rest. some (enode l rest)

abbrev pub merge_sub_tree : Children → ENode → Option ENode
merge_sub_tree this_child new_sub_tree = add_children (dup new_sub_tree) this_child

abbrev pub with_width : ℕ → ENode → ENode
with_width w (enode l cs) = enode (record l { width = w }) cs

module _ (alias_map : ℕ → Option ENode) where
  -- aliasMap.find of the node of an enode; a null pointer is not in the map.
  abbrev pub alias_of : Option ℕ → Option ENode
  alias_of none = none
  alias_of (some v) = alias_map v

  abbrev pub replacement : Label → Children → ENode → Option ENode
  replacement l cs a = merge_sub_tree cs a >>= λ e. some (with_width l.width e)

  unfoldable mutual
    -- A child: its replacement, or the child with its own children replaced.
    pub replace_child : ENode → Option ENode
    replace_child (enode l cs) =
        let below = replace_children cs in
        elim (alias_of l.node_ptr) [
          | none ↦ below >>= λ ds. some (enode l ds)
          | some a ↦ replacement l cs a
        ]

    pub replace_children : Children → Option Children
    replace_children no_more = some no_more
    replace_children (child e cs) = do
      x ← replace_child e
      rest ← replace_children cs
      some (child x rest)
    replace_children (null cs) = replace_children cs >>= λ rest. some (null rest)

  abbrev pub replace_below : ENode → Option ENode
  replace_below (enode l cs) = replace_children cs >>= λ ds. some (enode l ds)

  abbrev pub replace_root : ENode → Option ENode
  replace_root (enode l cs) = elim (alias_of l.node_ptr) [
    | none ↦ some (enode l cs)
    | some a ↦ replacement l cs a
  ]

  -- ExpTree::replace on a root; a left-hand side is only gone through below.
  unfoldable pub replace : ENode → Option ENode
  replace root = replace_root root >>= λ e. replace_below e
