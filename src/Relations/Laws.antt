-- ===== src/Relations/Laws.antt =====
-- What the operations on the relations keep: each relation and its converse stay converse, and the
-- dependencies contain the connections.
use gsim.Prelude.{ℕ, List, [], ◌∷◌, ==_iff, ◌≡◌, ◌≢◌, arith, ◌⊎◌, ◌↔◌, Memᴰ-cons}
use mathlib.Core.List.{Memᴰ}
use mathlib.Core.List.Memᴰ
use gsim.Relations.{
  Relations, insert_at, without, erase_at, connect_prev, connect_next, depend, erase_prev,
  erase_next,
}

pub Memᴰ-insert_at :
    (r : ℕ → List ℕ) (v x u a : ℕ) → Memᴰ a (insert_at r v x u) ↔ ((u ≡ v) × (a ≡ x) ⊎ Memᴰ a (r u))
Memᴰ-insert_at r v x u a = ground (arith, ==_iff u v, Memᴰ-cons a x (r u))

Memᴰ-without : (x : ℕ) (ys : List ℕ) (a : ℕ) → Memᴰ a (without x ys) ↔ (Memᴰ a ys × (a ≢ x))
unfolding without
Memᴰ-without x [] a = (λ m. absurd (Memᴰ.not-nil m), λ (m, _). absurd (Memᴰ.not-nil m))
Memᴰ-without x (y ∷ ys) a =
    ground (arith, Memᴰ-without x ys a, ==_iff y x, Memᴰ-cons a y ys, Memᴰ-cons a y (without x ys))

pub Memᴰ-erase_at :
    (r : ℕ → List ℕ) (v x u a : ℕ)
    → Memᴰ a (erase_at r v x u) ↔ (Memᴰ a (r u) × ((u ≡ v) × (a ≡ x) → ⊥))
Memᴰ-erase_at r v x u a = ground (arith, ==_iff u v, ==_iff a x, Memᴰ-without x (r u) a)

-- Of two relations, one is the converse of the other.
abbrev pub Converse : (ℕ → List ℕ) → (ℕ → List ℕ) → Type 0
Converse r s = (u v : ℕ) → Memᴰ u (r v) ↔ Memᴰ v (s u)

pub record Mirror (r : Relations) : Type 0 where
  pub next_prev : Converse r.prev r.next
  pub next_dep : Converse r.dep_prev r.dep_next
  pub prev_sub : (u v : ℕ) → Memᴰ u (r.prev v) → Memᴰ u (r.dep_prev v)

Converse-insert :
    (r s : ℕ → List ℕ) (v x : ℕ) → Converse r s → Converse (insert_at r v x) (insert_at s x v)
Converse-insert r s v x h a b =
    ground (arith, h a b, Memᴰ-insert_at r v x b a, Memᴰ-insert_at s x v a b)

Converse-erase :
    (r s : ℕ → List ℕ) (v x : ℕ) → Converse r s → Converse (erase_at r v x) (erase_at s x v)
Converse-erase r s v x h a b =
    ground (arith, h a b, Memᴰ-erase_at r v x b a, Memᴰ-erase_at s x v a b)

pub Mirror-connect_prev : (v x : ℕ) (r : Relations) → Mirror r → Mirror (connect_prev v x r)
Mirror-connect_prev v x r h = record {
  next_prev = Converse-insert r.prev r.next v x h.next_prev;
  next_dep = Converse-insert r.dep_prev r.dep_next v x h.next_dep;
  prev_sub = λ a b m.
      ground
        (arith, h.prev_sub a b, Memᴰ-insert_at r.prev v x b a, Memᴰ-insert_at r.dep_prev v x b a);
}

pub Mirror-connect_next : (v x : ℕ) (r : Relations) → Mirror r → Mirror (connect_next v x r)
Mirror-connect_next v x r h = Mirror-connect_prev x v r h

pub Mirror-depend : (v x : ℕ) (r : Relations) → Mirror r → Mirror (depend v x r)
Mirror-depend v x r h = record {
  next_prev = h.next_prev;
  next_dep = Converse-insert r.dep_prev r.dep_next v x h.next_dep;
  prev_sub = λ a b m. ground (arith, h.prev_sub a b, Memᴰ-insert_at r.dep_prev v x b a);
}

-- Where next and depNext are the converses of prev and depPrev, and prev is a part of depPrev,
-- erasing a node from the predecessors of another, and the other from its successors, keeps that.
pub Mirror-erase : (v x : ℕ) (r : Relations) → Mirror r → Mirror (erase_next x v (erase_prev v x r))
Mirror-erase v x r h = record {
  next_prev = Converse-erase r.prev r.next v x h.next_prev;
  next_dep = Converse-erase r.dep_prev r.dep_next v x h.next_dep;
  prev_sub = λ a b m.
      ground
        (arith, h.prev_sub a b, Memᴰ-erase_at r.prev v x b a, Memᴰ-erase_at r.dep_prev v x b a);
}
