-- ===== src/Relations.antt =====
-- src/Node.cpp and src/superNode.cpp: the four relations that every node and every super node keeps,
-- as std::set fields. The fields of all nodes together are a map from the number of a node to a
-- list; the order and the repetitions of a list are not read. The two classes have the same
-- functions; connectPrev and connectNext are those of a super node (include/Node.h).
pub mod Laws
use gsim.Prelude.{ℕ, Bool, true, false, List, [], ◌∷◌, ◌++◌, ◌==◌, if◌then◌else◌}

pub record Relations : Type 0 where
  pub prev : ℕ → List ℕ
  pub next : ℕ → List ℕ
  pub dep_prev : ℕ → List ℕ
  pub dep_next : ℕ → List ℕ

-- The set of v with x, with a list, and without x.
abbrev pub insert_at : (ℕ → List ℕ) → ℕ → ℕ → ℕ → List ℕ
insert_at r v x u = if u == v then x ∷ r u else r u

abbrev pub insert_all_at : (ℕ → List ℕ) → ℕ → List ℕ → ℕ → List ℕ
insert_all_at r v xs u = if u == v then xs ++ r u else r u

unfoldable pub without : ℕ → List ℕ → List ℕ
without x [] = []
without x (y ∷ ys) = let rest = without x ys in if y == x then rest else y ∷ rest

abbrev pub erase_at : (ℕ → List ℕ) → ℕ → ℕ → ℕ → List ℕ
erase_at r v x u = if u == v then without x (r u) else r u

abbrev pub clear_at : (ℕ → List ℕ) → ℕ → ℕ → List ℕ
clear_at r v u = if u == v then [] else r u

abbrev pub clear_relation : ℕ → Relations → Relations
clear_relation v r = record {
  prev = clear_at r.prev v;
  next = clear_at r.next v;
  dep_prev = clear_at r.dep_prev v;
  dep_next = clear_at r.dep_next v;
}

abbrev pub add_prev : ℕ → ℕ → Relations → Relations
add_prev v x r = record r { prev = insert_at r.prev v x; dep_prev = insert_at r.dep_prev v x }

abbrev pub add_prev_all : ℕ → List ℕ → Relations → Relations
add_prev_all v xs r = record r {
  prev = insert_all_at r.prev v xs;
  dep_prev = insert_all_at r.dep_prev v xs;
}

abbrev pub erase_prev : ℕ → ℕ → Relations → Relations
erase_prev v x r = record r { prev = erase_at r.prev v x; dep_prev = erase_at r.dep_prev v x }

abbrev pub add_next : ℕ → ℕ → Relations → Relations
add_next v x r = record r { next = insert_at r.next v x; dep_next = insert_at r.dep_next v x }

abbrev pub add_next_all : ℕ → List ℕ → Relations → Relations
add_next_all v xs r = record r {
  next = insert_all_at r.next v xs;
  dep_next = insert_all_at r.dep_next v xs;
}

abbrev pub erase_next : ℕ → ℕ → Relations → Relations
erase_next v x r = record r { next = erase_at r.next v x; dep_next = erase_at r.dep_next v x }

abbrev pub clear_prev : ℕ → Relations → Relations
clear_prev v r = record r { prev = clear_at r.prev v; dep_prev = clear_at r.dep_prev v }

abbrev pub add_dep_prev : ℕ → ℕ → Relations → Relations
add_dep_prev v x r = record r { dep_prev = insert_at r.dep_prev v x }

abbrev pub add_dep_next : ℕ → ℕ → Relations → Relations
add_dep_next v x r = record r { dep_next = insert_at r.dep_next v x }

abbrev pub erase_dep_prev : ℕ → ℕ → Relations → Relations
erase_dep_prev v x r = record r { dep_prev = erase_at r.dep_prev v x }

abbrev pub erase_dep_next : ℕ → ℕ → Relations → Relations
erase_dep_next v x r = record r { dep_next = erase_at r.dep_next v x }

abbrev pub connect_prev : ℕ → ℕ → Relations → Relations
connect_prev v x r = add_next x v (add_prev v x r)

abbrev pub connect_next : ℕ → ℕ → Relations → Relations
connect_next v x r = add_prev x v (add_next v x r)

-- The pair of insertions that gives v a dependency on x.
abbrev pub depend : ℕ → ℕ → Relations → Relations
depend v x r = add_dep_next x v (add_dep_prev v x r)
