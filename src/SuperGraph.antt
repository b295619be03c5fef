-- ===== src/SuperGraph.antt =====
-- src/graph.cpp: the super nodes in their sorted order, the removal of nodes with a status and of
-- super nodes that become empty, the number of nodes and their order. A node is a number; a super
-- node is its type and its members. Printing is left out.
pub mod Removal
pub mod Order
use gsim.Prelude.{ℕ, suc, ◌+◌, Bool, true, false, ◌&&◌, List, [], ◌∷◌, ◌==◌, length, if◌then◌else◌}
use gsim.Circuit.{NodeStatus, status_number, SuperType, super_valid, super_update_reg}

pub record SuperNode : Type 0 where
  pub super_type : SuperType
  pub member : List ℕ

abbrev pub has_status : NodeStatus → NodeStatus → Bool
has_status a b = status_number a == status_number b

-- The members without those of the status.
unfoldable pub remove_members : NodeStatus → (ℕ → NodeStatus) → List ℕ → List ℕ
remove_members st status [] = []
remove_members st status (v ∷ vs) =
    let rest = remove_members st status vs in if has_status (status v) st then rest else v ∷ rest

unfoldable pub remove_from_supers : NodeStatus → (ℕ → NodeStatus) → List SuperNode → List SuperNode
remove_from_supers st status [] = []
remove_from_supers st status (super ∷ supers) =
    record { super_type = super.super_type; member = remove_members st status super.member }
    ∷ remove_from_supers st status supers

abbrev pub is_removable : SuperType → Bool
is_removable t = elim t [ super_valid ↦ true | super_update_reg ↦ true | _ ↦ false ]

abbrev pub is_empty : List ℕ → Bool
is_empty [] = true
is_empty (_ ∷ _) = false

unfoldable pub remove_empty_super : List SuperNode → List SuperNode
remove_empty_super [] = []
remove_empty_super (super ∷ supers) =
    let rest = remove_empty_super supers in
    if is_removable super.super_type && is_empty super.member then rest else super ∷ rest

abbrev pub remove_nodes_no_connect : NodeStatus → (ℕ → NodeStatus) → List SuperNode → List SuperNode
remove_nodes_no_connect st status supers = remove_empty_super (remove_from_supers st status supers)

unfoldable pub count_nodes : List SuperNode → ℕ
count_nodes [] = 0
count_nodes (super ∷ supers) = length super.member + count_nodes supers
