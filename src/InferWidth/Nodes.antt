-- ===== src/InferWidth/Nodes.antt =====
-- src/inferWidth.cpp: ENode::clearWidth, and Node::inferWidth on the roots of a node's trees, which
-- ENode::inferWidth has given their widths.
use gsim.Prelude.{
  ℕ, ◌≤◌, max, Bool, true, false, ◌||◌, List, [], ◌∷◌, Option, none, some, ◌≡◌, refl, arith,
  if◌then◌else◌,
}
use gsim.Circuit.{NodeType, node_invalid, node_reg_src, is_int}
use gsim.Tree.{Label, ENode, enode, Children, no_more, child, null}

-- The fields of a node that the pass reads and writes; a width that is not set, -1, is none.
pub record NodeShape : Type 0 where
  pub node_type : NodeType
  pub width : Option ℕ
  pub sign : Bool
  pub is_clock : Bool
  pub reset_root : Option Label
  pub assign_roots : List Label

abbrev is_invalid_node : NodeType → Bool
is_invalid_node t = elim t [ node_invalid ↦ true | _ ↦ false ]

abbrev is_reg_src : NodeType → Bool
is_reg_src t = elim t [ node_reg_src ↦ true | _ ↦ false ]

-- newWidth, newSign and newClock.
abbrev from_reset : Bool → Option Label → Bool → ℕ × Bool
from_reset true (some r) s = (max 0 r.width, r.sign)
from_reset true none s = (0, s)
from_reset false r s = (0, s)

abbrev from_assigns : List Label → ℕ → Bool → Bool → ℕ × Bool × Bool
from_assigns [] w s c = (w, s, c)
from_assigns (r ∷ rs) w s c = from_assigns rs (max w r.width) r.sign (c || r.is_clock)

unfoldable pub node_infer_width : NodeShape → NodeShape
node_infer_width n = if is_invalid_node n.node_type then n else elim n.width [
  | some w ↦ n
  | none ↦
      let r = from_reset (is_reg_src n.node_type) n.reset_root n.sign in
      let a = from_assigns n.assign_roots r.0 r.1 n.is_clock in
      record n { width = some a.0; sign = a.1; is_clock = a.2 }
]

-- A width of -1 is read as 0, as in inferWidth.
unfoldable mutual
  pub clear_width : ENode → ENode
  clear_width (enode l cs) =
      enode (if is_int l.op_type then l else record l { width = 0 }) (clear_children cs)

  pub clear_children : Children → Children
  clear_children no_more = no_more
  clear_children (child e cs) = child (clear_width e) (clear_children cs)
  clear_children (null cs) = null (clear_children cs)

-- No tree of a list is wider.
pub data AllWithin (w : ℕ) : List Label → Type 0 where
  no_tree : AllWithin w []
  a_tree : (r : Label) (rs : List Label) → r.width ≤ w → AllWithin w rs → AllWithin w (r ∷ rs)

from_assigns-AllWithin :
    (rs : List Label) (w : ℕ) (s c : Bool)
    → (w ≤ (from_assigns rs w s c).0) × AllWithin (from_assigns rs w s c).0 rs
from_assigns-AllWithin [] w s c = (omega arith, no_tree)
from_assigns-AllWithin (r ∷ rs) w s c =
    let ih = from_assigns-AllWithin rs (max w r.width) r.sign (c || r.is_clock) in
    (omega (arith, ih.0), a_tree r rs (omega (arith, ih.0)) ih.1)

-- The reset tree of a register's source, as a list.
abbrev reset_trees : NodeShape → List Label
reset_trees n = elim n.reset_root [
  | none ↦ []
  | some r ↦ if is_reg_src n.node_type then r ∷ [] else []
]

-- For a valid node whose width is not set, Node::inferWidth sets a width that no root of its
-- assignments exceeds, nor the root of its reset if it is the source of a register.
pub node_infer_width-AllWithin :
    (n : NodeShape)
    → n.width ≡ none
    → is_invalid_node n.node_type ≡ false
    → (w : ℕ) × ((node_infer_width n).width ≡ some w)
      × AllWithin w n.assign_roots
      × AllWithin w (reset_trees n)
unfolding node_infer_width
node_infer_width-AllWithin n e v =
    let r = from_reset (is_reg_src n.node_type) n.reset_root n.sign in
    let a = from_assigns-AllWithin n.assign_roots r.0 r.1 n.is_clock in
    (
      (from_assigns n.assign_roots r.0 r.1 n.is_clock).0,
      rw (v, e) refl,
      a.1,
      resets (is_reg_src n.node_type) n.reset_root n.sign _ a.0,
    )
  where
    resets :
        (t : Bool) (o : Option Label) (s : Bool) (w : ℕ)
        → (from_reset t o s).0 ≤ w
        → AllWithin w (elim o [ none ↦ [] | some r ↦ if t then r ∷ [] else [] ])
    resets true (some r) s w h = a_tree r [] (omega (arith, h)) no_tree
    resets false (some r) s w h = no_tree
    resets t none s w h = no_tree
