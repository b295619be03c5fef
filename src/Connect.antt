-- ===== src/Connect.antt =====
-- src/Node.cpp, updateConnect, updateDep and constructSuperConnect, and src/graph.cpp, reconnectAll,
-- connectDep and reconnectSuper: the relations of nodes from their expression trees, and those of
-- super nodes from their members. A failed assertion and a null pointer that is followed are none.
pub mod Mirrors
pub mod Whole
pub mod Prev
pub mod Exact
use gsim.Prelude.{
  ℕ, zero, suc, ◌+◌, Bool, true, false, List, [], ◌∷◌, ◌++◌, Option, none, some, ◌==◌,
  if◌then◌else◌, ◌>>=◌,
}
use gsim.Circuit.{
  NodeType, node_reg_src, node_reader, node_writer, ResetType, asyreset, OpType, op_reset,
}
use gsim.Tree.{Label, ENode, enode, Children, no_more, child, null, label}
use gsim.Tree.Mentions.{ExpTree, get_rely_nodes, get_enode_rely_nodes, sizes}
use gsim.Relations.{
  Relations, clear_relation, add_next, add_prev, connect_prev, connect_next, depend,
}

-- The fields of a Node that the functions read; dst is regNext of a source.
pub record Node : Type 0 where
  pub node_type : NodeType
  pub assign_tree : List ExpTree
  pub reset : ResetType
  pub reset_tree : Option ExpTree
  pub dst : Option ℕ
  pub parent : ℕ
  pub member : List ℕ

abbrev pub children_list : Children → List ENode
children_list no_more = []
children_list (child e cs) = e ∷ children_list cs
children_list (null cs) = children_list cs

-- The enodes that updateConnect puts on its queue first.
unfoldable pub tree_queue : List ExpTree → List ENode
tree_queue [] = []
tree_queue (tree ∷ trees) = tree.root ∷ (tree.lvalue_child ++ tree_queue trees)

abbrev pub connect_some : ℕ → Option ℕ → Relations → Relations
connect_some this none r = r
connect_some this (some p) r = connect_prev this p r

-- The loop over the queue, with the enodes below it as fuel.
unfoldable pub connect_loop : ℕ → ℕ → List ENode → Relations → Relations
connect_loop zero this q r = r
connect_loop (suc fuel) this [] r = r
connect_loop (suc fuel) this (enode l cs ∷ q) r =
    connect_loop fuel this (q ++ children_list cs) (connect_some this l.node_ptr r)

abbrev pub is_reader : NodeType → Bool
is_reader t = elim t [ node_reader ↦ true | _ ↦ false ]

abbrev pub is_writer : NodeType → Bool
is_writer t = elim t [ node_writer ↦ true | _ ↦ false ]

abbrev pub is_reg_src : NodeType → Bool
is_reg_src t = elim t [ node_reg_src ↦ true | _ ↦ false ]

module _ (node : ℕ → Node) where
  -- The ports of a memory, seen from a reader and from a writer.
  unfoldable pub connect_writers : ℕ → List ℕ → Relations → Relations
  connect_writers this [] r = r
  connect_writers this (port ∷ ports) r =
      connect_writers this ports
        (if is_writer (node port).node_type then add_prev port this (add_next this port r) else r)

  unfoldable pub connect_readers : ℕ → List ℕ → Relations → Relations
  connect_readers this [] r = r
  connect_readers this (port ∷ ports) r =
      connect_readers this ports
        (if is_reader (node port).node_type then connect_prev this port r else r)

  unfoldable pub update_connect : ℕ → Relations → Relations
  update_connect this r =
      let n = node this in
      let q = tree_queue n.assign_tree in
      let s = connect_loop (sizes q) this q r in
      let ports = (node n.parent).member in
      elim n.node_type [
        | node_reg_src ↦ r
        | node_reader ↦ connect_writers this ports s
        | node_writer ↦ connect_readers this ports s
        | _ ↦ s
      ]

  unfoldable pub all_rely_nodes : List ExpTree → List ℕ → List ℕ
  all_rely_nodes [] all = all
  all_rely_nodes (tree ∷ trees) all = all_rely_nodes trees (get_rely_nodes tree all)

  -- The nodes of the list depend on this.
  unfoldable pub depend_on : ℕ → List ℕ → Relations → Relations
  depend_on this [] r = r
  depend_on this (n ∷ ns) r = depend_on this ns (depend n this r)

  -- Of a node of the asynchronous reset: the successors of this depend on it.
  unfoldable pub next_depend : List ℕ → ℕ → Relations → Relations
  next_depend [] n r = r
  next_depend (src_next ∷ ns) n r = next_depend ns n (depend src_next n r)

  -- The loop over the nodes of an asynchronous reset.
  unfoldable pub reset_depend : ℕ → List ℕ → Relations → Relations
  reset_depend this [] r = r
  reset_depend this (n ∷ ns) r =
      let s = next_depend (r.next this) n (depend n this r) in
      reset_depend this ns (elim (node this).dst [ none ↦ s | some dst ↦ depend dst n s ])

  -- The loop over the nodes of the reset value.
  unfoldable pub value_depend : ℕ → List ℕ → Relations → Relations
  value_depend this [] r = r
  value_depend this (n ∷ ns) r =
      value_depend this ns
        (if is_reg_src (node n).node_type then depend n this r else depend this n r)

  abbrev pub get_child : Children → ℕ → Option ENode
  get_child no_more i = none
  get_child (child e cs) zero = some e
  get_child (null cs) zero = none
  get_child (child e cs) (suc i) = get_child cs i
  get_child (null cs) (suc i) = get_child cs i

  abbrev pub root_child : ENode → ℕ → Option ENode
  root_child (enode l cs) i = get_child cs i

  abbrev pub is_reset : OpType → Bool
  is_reset op = elim op [ op_reset ↦ true | _ ↦ false ]

  -- The nodes of the condition of an asynchronous reset, and of the value of a reset.
  abbrev pub reset_cond : ResetType → Option ExpTree → Option (List ℕ)
  reset_cond asyreset (some tree) = do e ← root_child tree.root 0; some (get_enode_rely_nodes e [])
  reset_cond asyreset none = none
  reset_cond _ tree = some []

  abbrev pub reset_value : Option ExpTree → Option (List ℕ)
  reset_value none = some []
  reset_value (some tree) =
      if is_reset (label tree.root).op_type
      then (do e ← root_child tree.root 1; some (get_enode_rely_nodes e []))
      else none

  unfoldable pub update_dep : ℕ → Relations → Option Relations
  update_dep this r = do
    let n = node this
    let s = depend_on this (all_rely_nodes n.assign_tree []) r
    cond ← reset_cond n.reset n.reset_tree
    value ← reset_value n.reset_tree
    some (value_depend this value (reset_depend this cond s))

  unfoldable pub update_all : List ℕ → Relations → Relations
  update_all [] r = r
  update_all (v ∷ vs) r = update_all vs (update_connect v r)

  unfoldable pub connect_dep : List ℕ → Relations → Option Relations
  connect_dep [] r = some r
  connect_dep (v ∷ vs) r = do
    s ← if is_reg_src (node v).node_type then update_dep v r else some r
    connect_dep vs s

-- A super node: its number and its members.
pub record Super : Type 0 where
  pub id : ℕ
  pub member : List ℕ

unfoldable pub all_members : List Super → List ℕ
all_members [] = []
all_members (super ∷ supers) = super.member ++ all_members supers

unfoldable pub clear_all : List ℕ → Relations → Relations
clear_all [] r = r
clear_all (v ∷ vs) r = clear_all vs (clear_relation v r)

unfoldable pub super_ids : List Super → List ℕ
super_ids [] = []
super_ids (super ∷ supers) = super.id ∷ super_ids supers

-- The super node of each node, none while it has none.
module _ (super_of : ℕ → Option ℕ) where
  -- A loop over related nodes, which joins two different super nodes.
  unfoldable pub join_supers :
      (ℕ → ℕ → Relations → Relations) → ℕ → List ℕ → Relations → Option Relations
  join_supers join this [] r = some r
  join_supers join this (n ∷ ns) r = do
    other ← super_of n
    join_supers join this ns (if other == this then r else join this other r)

  unfoldable pub construct_super_connect : Relations → ℕ → Relations → Option Relations
  construct_super_connect nodes v r = do
    this ← super_of v
    r1 ← join_supers connect_prev this (nodes.prev v) r
    r2 ← join_supers connect_next this (nodes.next v) r1
    r3 ← join_supers depend this (nodes.dep_prev v) r2
    join_supers (λ a b. depend b a) this (nodes.dep_next v) r3

  unfoldable pub connect_supers : Relations → List ℕ → Relations → Option Relations
  connect_supers nodes [] r = some r
  connect_supers nodes (v ∷ vs) r = do
    s ← construct_super_connect nodes v r
    connect_supers nodes vs s

  unfoldable pub reconnect_super : List Super → Relations → Relations → Option Relations
  reconnect_super supers nodes r =
      connect_supers nodes (all_members supers) (clear_all (super_ids supers) r)

  -- graph::reconnectAll: the relations of the nodes and of the super nodes.
  unfoldable pub reconnect_all :
      (ℕ → Node) → List Super → Relations → Relations → Option (Relations × Relations)
  reconnect_all node supers nodes supers_before = do
    let all = all_members supers
    r ← connect_dep node all (update_all node all (clear_all all nodes))
    s ← reconnect_super supers r supers_before
    some (r, s)
