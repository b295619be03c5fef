-- ===== src/DeadNodes.antt =====
-- src/deadNodes.cpp, graph::removeDeadNodes. A node is a number and the pass reads its fields; what
-- it writes, the epoch of the mark and the status, is kept in functions. The vector s from the
-- index si on is the list pending. The reconnectSuper at the end of removeNodes is left out: the last
-- reconnectAll, which Connect models, overwrites what it fills.
pub mod Loop
pub mod Correct
pub mod Pass
pub mod Composed
use gsim.Prelude.{
  ℕ, zero, suc, ◌+◌, Bool, true, false, not, ◌&&◌, ◌||◌, List, [], ◌∷◌, ◌++◌, Option, none, some,
  ◌==◌, if◌then◌else◌, ◌>>=◌,
}
use gsim.Circuit.{
  NodeType, node_reg_src, node_inp, node_out, node_reader, node_writer, node_readwriter,
  node_ext_in, node_ext_out, node_ext, NodeStatus, dead_node,
}
use gsim.SuperGraph.{
  SuperNode, remove_members, is_empty, remove_empty_super, remove_nodes_no_connect,
}
use gsim.Tree.Mentions.{ExpTree, get_rely_nodes}

-- The fields of a Node that the pass reads. A node without a parent has none to be read.
pub record Node : Type 0 where
  pub node_type : NodeType
  pub prev : List ℕ
  pub dst : ℕ
  pub reset_tree : Option ExpTree
  pub parent : ℕ
  pub member : List ℕ

abbrev pub is_ext : NodeType → Bool
is_ext t = elim t [ node_ext ↦ true | node_ext_in ↦ true | node_ext_out ↦ true | _ ↦ false ]

abbrev pub is_write_port : NodeType → Bool
is_write_port t = elim t [ node_writer ↦ true | node_readwriter ↦ true | _ ↦ false ]

abbrev pub is_inp_or_out : NodeType → Bool
is_inp_or_out t = elim t [ node_inp ↦ true | node_out ↦ true | _ ↦ false ]

pub record Search : Type 0 where
  pub pending : List ℕ
  pub reach_epoch : ℕ → ℕ

abbrev pub stamp : (ℕ → ℕ) → ℕ → ℕ → ℕ → ℕ
stamp marks epoch v u = if u == v then epoch else marks u

module _ (node : ℕ → Node) (epoch : ℕ) where
  unfoldable pub add : Search → ℕ → Search
  add s v =
      if s.reach_epoch v == epoch
      then s
      else record { pending = s.pending ++ v ∷ []; reach_epoch = stamp s.reach_epoch epoch v }

  unfoldable pub add_all : List ℕ → Search → Search
  add_all [] s = s
  add_all (v ∷ vs) s = add_all vs (add s v)

  unfoldable pub write_ports : List ℕ → List ℕ
  write_ports [] = []
  write_ports (p ∷ ps) =
      let rest = write_ports ps in if is_write_port (node p).node_type then p ∷ rest else rest

  unfoldable pub reset_nodes : Option ExpTree → List ℕ
  reset_nodes none = []
  reset_nodes (some tree) = get_rely_nodes tree []

  -- What the body of the loop adds besides the predecessors.
  unfoldable pub relied : Node → List ℕ
  relied top = elim top.node_type [
    | node_reg_src ↦ top.dst ∷ reset_nodes top.reset_tree
    | node_reader ↦ write_ports (node top.parent).member
    | node_ext_out ↦ (node top.parent).member
    | _ ↦ []
  ]

  unfoldable pub expand : Search → ℕ → List ℕ → Search
  expand s top rest =
      add_all (relied (node top))
        (add_all (node top).prev (record { pending = rest; reach_epoch = s.reach_epoch }))

  -- The loop; none when the fuel runs out.
  unfoldable pub loop : ℕ → Search → Option Search
  loop zero s = elim s.pending [ [] ↦ some s | _ ∷ _ ↦ none ]
  loop (suc fuel) s = elim s.pending [ [] ↦ some s | top ∷ rest ↦ loop fuel (expand s top rest) ]

  unfoldable pub ext_members : List ℕ → List ℕ
  ext_members [] = []
  ext_members (v ∷ vs) =
      let rest = ext_members vs in if is_ext (node v).node_type then v ∷ rest else rest

  unfoldable pub ext_nodes : List SuperNode → List ℕ
  ext_nodes [] = []
  ext_nodes (super ∷ supers) = ext_members super.member ++ ext_nodes supers

  -- The nodes that the loop starts from.
  abbrev pub roots : List ℕ → List ℕ → List SuperNode → List ℕ
  roots output special_nodes sorted_super = output ++ special_nodes ++ ext_nodes sorted_super

  abbrev pub start : List ℕ → (ℕ → ℕ) → Search
  start from marks = add_all from (record { pending = []; reach_epoch = marks })

  -- The marks that the pass leaves.
  abbrev pub reach : ℕ → List ℕ → (ℕ → ℕ) → Option Search
  reach fuel from marks = loop fuel (start from marks)

  unfoldable pub mark_members : (ℕ → ℕ) → List ℕ → (ℕ → NodeStatus) → ℕ → NodeStatus
  mark_members marks [] status = status
  mark_members marks (v ∷ vs) status = mark_members marks vs (λ u.
      if u == v && not (is_inp_or_out (node v).node_type || marks v == epoch)
      then dead_node
      else status u)

  unfoldable pub mark_dead : (ℕ → ℕ) → List SuperNode → (ℕ → NodeStatus) → ℕ → NodeStatus
  mark_dead marks [] status = status
  mark_dead marks (super ∷ supers) status =
      mark_dead marks supers (mark_members marks super.member status)

-- The fields of a graph that the pass reads and writes. A memory is a number, and member has its ports:
-- before the pass, those of the field of its node.
pub record Graph : Type 0 where
  pub output : List ℕ
  pub special_nodes : List ℕ
  pub sorted_super : List SuperNode
  pub regsrc : List ℕ
  pub memory : List ℕ
  pub member : ℕ → List ℕ
  pub status : ℕ → NodeStatus

pub record Memories : Type 0 where
  pub kept : List ℕ
  pub ports : ℕ → List ℕ
  pub memory_status : ℕ → NodeStatus

-- The loop that drops the dead ports of each memory, and the memories without ports.
unfoldable pub clean_memory : List ℕ → (ℕ → List ℕ) → (ℕ → NodeStatus) → Memories
clean_memory [] member status = record { kept = []; ports = member; memory_status = status }
clean_memory (m ∷ ms) member status =
    let ports = remove_members dead_node status (member m) in
    let rest =
      clean_memory ms (λ v. if v == m then ports else member v)
        (λ v. if v == m && is_empty ports then dead_node else status v) in
    if is_empty ports then rest else record rest { kept = m ∷ rest.kept }

-- The part after the marks: the graph without the nodes that are dead now.
unfoldable pub sweep : Graph → (ℕ → NodeStatus) → Graph
sweep g status =
    let memories = clean_memory g.memory g.member status in
    record {
      output = g.output;
      special_nodes = g.special_nodes;
      sorted_super = remove_empty_super (remove_nodes_no_connect dead_node status g.sorted_super);
      regsrc = remove_members dead_node status g.regsrc;
      memory = memories.kept;
      member = memories.ports;
      status = memories.memory_status;
    }

-- graph::removeDeadNodes without the reconnectSuper of removeNodes and the last reconnectAll; none when the fuel runs out.
unfoldable pub remove_dead_nodes : (ℕ → Node) → ℕ → ℕ → (ℕ → ℕ) → Graph → Option Graph
remove_dead_nodes node epoch fuel marks g = do
  t ← reach node epoch fuel (roots node epoch g.output g.special_nodes g.sorted_super) marks
  some (sweep g (mark_dead node epoch t.reach_epoch g.sorted_super g.status))
