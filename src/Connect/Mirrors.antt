-- ===== src/Connect/Mirrors.antt =====
-- After reconnectAll each relation and its converse agree.
use gsim.Prelude.{
  ℕ, zero, suc, Bool, true, false, List, [], ◌∷◌, ◌++◌, Option, none, some, if◌then◌else◌,
}
use gsim.Circuit.{NodeType, node_reg_src, node_reader, node_writer}
use gsim.Tree.{ENode, enode}
use gsim.Tree.Mentions.{sizes}
use gsim.Relations.{Relations, depend}
use gsim.Relations.Laws.{Mirror, Mirror-connect_prev, Mirror-connect_next, Mirror-depend}
use gsim.Connect.{
  Node, connect_some, connect_loop, children_list, tree_queue, connect_writers, connect_readers,
  update_connect, depend_on, next_depend, reset_depend, value_depend, update_all,
}

Mirror-connect_some :
    (this : ℕ) (p : Option ℕ) (r : Relations) → Mirror r → Mirror (connect_some this p r)
Mirror-connect_some this none r h = h
Mirror-connect_some this (some p) r h = Mirror-connect_prev this p r h

Mirror-connect_loop :
    (fuel this : ℕ) (q : List ENode) (r : Relations)
    → Mirror r
    → Mirror (connect_loop fuel this q r)
unfolding connect_loop
Mirror-connect_loop zero this q r h = h
Mirror-connect_loop (suc fuel) this [] r h = h
Mirror-connect_loop (suc fuel) this (enode l cs ∷ q) r h =
    Mirror-connect_loop fuel this (q ++ children_list cs) _
      (Mirror-connect_some this l.node_ptr r h)

Mirror-if : (b : Bool) (r s : Relations) → Mirror r → Mirror s → Mirror (if b then r else s)
Mirror-if true r s h k = h
Mirror-if false r s h k = k

module _ (node : ℕ → Node) where
  pub Mirror-connect_writers :
      (this : ℕ) (ports : List ℕ) (r : Relations)
      → Mirror r
      → Mirror (connect_writers node this ports r)
  unfolding connect_writers
  Mirror-connect_writers this [] r h = h
  Mirror-connect_writers this (port ∷ ports) r h =
      Mirror-connect_writers this ports _ (Mirror-if _ _ r (Mirror-connect_next this port r h) h)

  pub Mirror-connect_readers :
      (this : ℕ) (ports : List ℕ) (r : Relations)
      → Mirror r
      → Mirror (connect_readers node this ports r)
  unfolding connect_readers
  Mirror-connect_readers this [] r h = h
  Mirror-connect_readers this (port ∷ ports) r h =
      Mirror-connect_readers this ports _ (Mirror-if _ _ r (Mirror-connect_prev this port r h) h)

  pub Mirror-update_connect :
      (this : ℕ) (r : Relations) → Mirror r → Mirror (update_connect node this r)
  unfolding update_connect
  Mirror-update_connect this r h = by_type (node this).node_type
    where
      q : List ENode
      q = tree_queue (node this).assign_tree

      s : Relations
      s = connect_loop (sizes q) this q r

      ports : List ℕ
      ports = (node (node this).parent).member

      kept : Mirror s
      kept = Mirror-connect_loop (sizes q) this q r h

      by_type :
          (t : NodeType)
          → Mirror (elim t [
            | node_reg_src ↦ r
            | node_reader ↦ connect_writers node this ports s
            | node_writer ↦ connect_readers node this ports s
            | _ ↦ s
          ])
      by_type node_reg_src = h
      by_type node_reader = Mirror-connect_writers this ports s kept
      by_type node_writer = Mirror-connect_readers this ports s kept
      by_type _ = kept

  pub Mirror-update_all : (vs : List ℕ) (r : Relations) → Mirror r → Mirror (update_all node vs r)
  unfolding update_all
  Mirror-update_all [] r h = h
  Mirror-update_all (v ∷ vs) r h = Mirror-update_all vs _ (Mirror-update_connect v r h)

  pub Mirror-depend_on :
      (this : ℕ) (ns : List ℕ) (r : Relations) → Mirror r → Mirror (depend_on node this ns r)
  unfolding depend_on
  Mirror-depend_on this [] r h = h
  Mirror-depend_on this (n ∷ ns) r h = Mirror-depend_on this ns _ (Mirror-depend n this r h)

  pub Mirror-next_depend :
      (ns : List ℕ) (n : ℕ) (r : Relations) → Mirror r → Mirror (next_depend node ns n r)
  unfolding next_depend
  Mirror-next_depend [] n r h = h
  Mirror-next_depend (m ∷ ns) n r h = Mirror-next_depend ns n _ (Mirror-depend m n r h)

  pub Mirror-dst :
      (o : Option ℕ) (n : ℕ) (r : Relations)
      → Mirror r
      → Mirror (elim o [ none ↦ r | some dst ↦ depend dst n r ])
  Mirror-dst none n r h = h
  Mirror-dst (some dst) n r h = Mirror-depend dst n r h

  pub Mirror-reset_depend :
      (this : ℕ) (ns : List ℕ) (r : Relations) → Mirror r → Mirror (reset_depend node this ns r)
  unfolding reset_depend
  Mirror-reset_depend this [] r h = h
  Mirror-reset_depend this (n ∷ ns) r h = Mirror-reset_depend this ns _ (
      Mirror-dst (node this).dst n _
        (Mirror-next_depend (r.next this) n _ (Mirror-depend n this r h)))

  pub Mirror-value_depend :
      (this : ℕ) (ns : List ℕ) (r : Relations) → Mirror r → Mirror (value_depend node this ns r)
  unfolding value_depend
  Mirror-value_depend this [] r h = h
  Mirror-value_depend this (n ∷ ns) r h =
      Mirror-value_depend this ns _
        (Mirror-if _ _ _ (Mirror-depend n this r h) (Mirror-depend this n r h))
