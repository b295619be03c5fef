-- ===== src/Connect/Whole.antt =====
-- reconnectAll, as a whole, leaves relations that agree with their converses.
use gsim.Prelude.{
  ℕ, Bool, true, false, List, [], ◌∷◌, Option, none, some, ◌==◌, ==_iff, if◌then◌else◌, ◌>>=◌, ◌≡◌,
  refl, sym, ◌∙◌, inl, inr, ◌⊎◌, Bool-cases,
}
use mathlib.Core.List.{Memᴰ}
use mathlib.Core.List.Memᴰ
use mathlib.Core.Path.{subst}
use gsim.Relations.{Relations, clear_at, clear_relation, connect_prev, connect_next, depend}
use gsim.Relations.Laws.{Mirror, Mirror-connect_prev, Mirror-connect_next, Mirror-depend}
use gsim.Connect.{
  Node, Super, is_reg_src, all_rely_nodes, reset_cond, reset_value, update_dep, update_all,
  connect_dep, all_members, clear_all, super_ids, join_supers, construct_super_connect,
  connect_supers, reconnect_super, reconnect_all,
}
use gsim.Connect.Mirrors.{
  Mirror-update_all, Mirror-depend_on, Mirror-reset_depend, Mirror-value_depend,
}

-- The relations agree with their converses, where there is a result.
abbrev pub MirrorIf : Option Relations → Type 0
MirrorIf none = Unit
MirrorIf (some r) = Mirror r

MirrorIf-bind :
    (o : Option Relations) (f : Relations → Option Relations)
    → MirrorIf o
    → ((r : Relations) → Mirror r → MirrorIf (f r))
    → MirrorIf (o >>= f)
MirrorIf-bind none f h k = tt
MirrorIf-bind (some r) f h k = k r h

MirrorIf-after {ℓ} :
    {A : Type ℓ} (o : Option A) (f : A → Option Relations)
    → ((a : A) → MirrorIf (f a))
    → MirrorIf (o >>= f)
MirrorIf-after none f k = tt
MirrorIf-after (some a) f k = k a

module _ (node : ℕ → Node) where
  MirrorIf-update_dep : (this : ℕ) (r : Relations) → Mirror r → MirrorIf (update_dep node this r)
  unfolding update_dep
  MirrorIf-update_dep this r h =
      MirrorIf-after (reset_cond node (node this).reset (node this).reset_tree) _ (λ cond.
        MirrorIf-after (reset_value node (node this).reset_tree) _ (λ value.
          Mirror-value_depend node this value _ (
            Mirror-reset_depend node this cond _
              (Mirror-depend_on node this (all_rely_nodes node (node this).assign_tree []) r h))))

  MirrorIf-connect_dep : (vs : List ℕ) (r : Relations) → Mirror r → MirrorIf (connect_dep node vs r)
  unfolding connect_dep
  MirrorIf-connect_dep [] r h = h
  MirrorIf-connect_dep (v ∷ vs) r h =
      MirrorIf-bind (if is_reg_src (node v).node_type then update_dep node v r else some r) _
        (by_test (is_reg_src (node v).node_type)) (λ s k. MirrorIf-connect_dep vs s k)
    where
      by_test : (b : Bool) → MirrorIf (if b then update_dep node v r else some r)
      by_test true = MirrorIf-update_dep v r h
      by_test false = h

module _ (super_of : ℕ → Option ℕ) where
  MirrorIf-join_supers :
      (join : ℕ → ℕ → Relations → Relations) (this : ℕ) (ns : List ℕ) (r : Relations)
      → ((a b : ℕ) (s : Relations) → Mirror s → Mirror (join a b s))
      → Mirror r
      → MirrorIf (join_supers super_of join this ns r)
  unfolding join_supers
  MirrorIf-join_supers join this [] r keep h = h
  MirrorIf-join_supers join this (n ∷ ns) r keep h =
      MirrorIf-after (super_of n) _
        (λ other. MirrorIf-join_supers join this ns _ keep (by_test other (other == this)))
    where
      by_test : (other : ℕ) (b : Bool) → Mirror (if b then r else join this other r)
      by_test other true = h
      by_test other false = keep this other r h

  MirrorIf-construct_super_connect :
      (nodes : Relations) (v : ℕ) (r : Relations)
      → Mirror r
      → MirrorIf (construct_super_connect super_of nodes v r)
  unfolding construct_super_connect
  MirrorIf-construct_super_connect nodes v r h = MirrorIf-after (super_of v) _ (λ this.
      MirrorIf-bind (join_supers super_of connect_prev this (nodes.prev v) r) _
        (MirrorIf-join_supers connect_prev this (nodes.prev v) r Mirror-connect_prev h)
        (λ r1 h1.
          MirrorIf-bind (join_supers super_of connect_next this (nodes.next v) r1) _
            (MirrorIf-join_supers connect_next this (nodes.next v) r1 Mirror-connect_next h1)
            (λ r2 h2.
              MirrorIf-bind (join_supers super_of depend this (nodes.dep_prev v) r2) _
                (MirrorIf-join_supers depend this (nodes.dep_prev v) r2 Mirror-depend h2)
                (λ r3 h3.
                  MirrorIf-join_supers (λ a b. depend b a) this (nodes.dep_next v) r3
                    (λ a b. Mirror-depend b a) h3))))

  MirrorIf-connect_supers :
      (nodes : Relations) (vs : List ℕ) (r : Relations)
      → Mirror r
      → MirrorIf (connect_supers super_of nodes vs r)
  unfolding connect_supers
  MirrorIf-connect_supers nodes [] r h = h
  MirrorIf-connect_supers nodes (v ∷ vs) r h =
      MirrorIf-bind (construct_super_connect super_of nodes v r) _
        (MirrorIf-construct_super_connect nodes v r h) (λ s k. MirrorIf-connect_supers nodes vs s k)

-- No relation of the node is left.
pub record Alone (r : Relations) (v : ℕ) : Type 0 where
  pub no_prev : r.prev v ≡ []
  pub no_next : r.next v ≡ []
  pub no_dep_prev : r.dep_prev v ≡ []
  pub no_dep_next : r.dep_next v ≡ []

Alone-Mirror : (r : Relations) → ((v : ℕ) → Alone r v) → Mirror r
Alone-Mirror r h =
    let nothing : (s : ℕ → List ℕ) (u v : ℕ) → s v ≡ [] → ¬ Memᴰ u (s v) =
      λ s u v e m. Memᴰ.not-nil (subst (Memᴰ u) e m) in
    record {
      next_prev = λ u v. (
        λ m. absurd (nothing r.prev u v (h v).no_prev m),
        λ m. absurd (nothing r.next v u (h u).no_next m),
      );
      next_dep = λ u v. (
        λ m. absurd (nothing r.dep_prev u v (h v).no_dep_prev m),
        λ m. absurd (nothing r.dep_next v u (h u).no_dep_next m),
      );
      prev_sub = λ u v m. absurd (nothing r.prev u v (h v).no_prev m);
    }

clear_at-nil : (r : ℕ → List ℕ) (v u : ℕ) → (u ≡ v) ⊎ (r u ≡ []) → clear_at r v u ≡ []
clear_at-nil r v u h = elim (Bool-cases (u == v)) [
  | inl t ↦ rw t refl
  | inr t ↦ rw t (elim h [ inl e ↦ cc (sym t ∙ (==_iff u v).1 e) | inr e ↦ e ])
]

Alone-clear_relation :
    (v u : ℕ) (r : Relations) → (u ≡ v) ⊎ Alone r u → Alone (clear_relation v r) u
Alone-clear_relation v u r (inl e) = record {
  no_prev = clear_at-nil r.prev v u (inl e);
  no_next = clear_at-nil r.next v u (inl e);
  no_dep_prev = clear_at-nil r.dep_prev v u (inl e);
  no_dep_next = clear_at-nil r.dep_next v u (inl e);
}
Alone-clear_relation v u r (inr h) = record {
  no_prev = clear_at-nil r.prev v u (inr h.no_prev);
  no_next = clear_at-nil r.next v u (inr h.no_next);
  no_dep_prev = clear_at-nil r.dep_prev v u (inr h.no_dep_prev);
  no_dep_next = clear_at-nil r.dep_next v u (inr h.no_dep_next);
}

pub Alone-clear_all :
    (vs : List ℕ) (r : Relations) (u : ℕ) → Memᴰ u vs ⊎ Alone r u → Alone (clear_all vs r) u
unfolding clear_all
Alone-clear_all [] r u (inl m) = absurd (Memᴰ.not-nil m)
Alone-clear_all [] r u (inr h) = h
Alone-clear_all (v ∷ vs) r u (inl m) = elim (Memᴰ.cases_cons m) [
  | inl e ↦ Alone-clear_all vs _ u (inr (Alone-clear_relation v u r (inl e)))
  | inr k ↦ Alone-clear_all vs _ u (inl k)
]
Alone-clear_all (v ∷ vs) r u (inr h) =
    Alone-clear_all vs _ u (inr (Alone-clear_relation v u r (inr h)))

-- Both parts of a result agree with their converses.
abbrev pub MirrorsIf : Option (Relations × Relations) → Type 0
MirrorsIf none = Unit
MirrorsIf (some (r, s)) = Mirror r × Mirror s

MirrorsIf-pair :
    (r : Relations) (o : Option Relations)
    → Mirror r
    → MirrorIf o
    → MirrorsIf (o >>= λ s. some (r, s))
MirrorsIf-pair r none h k = tt
MirrorsIf-pair r (some s) h k = (h, k)

MirrorsIf-bind :
    (o : Option Relations) (f : Relations → Option (Relations × Relations))
    → MirrorIf o
    → ((r : Relations) → Mirror r → MirrorsIf (f r))
    → MirrorsIf (o >>= f)
MirrorsIf-bind none f h k = tt
MirrorsIf-bind (some r) f h k = k r h

-- When only members of super nodes, and only the listed super nodes, have relations before, and
-- reconnectAll ends with no failed assertion, then for the nodes and for the super nodes next is
-- the converse of prev, depNext is the converse of depPrev, and prev is a part of depPrev.
pub Mirror-reconnect_all :
    (node : ℕ → Node) (super_of : ℕ → Option ℕ) (supers : List Super) (nodes before r s : Relations)
    → ((v : ℕ) → Memᴰ v (all_members supers) ⊎ Alone nodes v)
    → ((v : ℕ) → Memᴰ v (super_ids supers) ⊎ Alone before v)
    → reconnect_all super_of node supers nodes before ≡ some (r, s)
    → Mirror r × Mirror s
unfolding reconnect_all reconnect_super
Mirror-reconnect_all node super_of supers nodes before r s h k e =
    let all = all_members supers in
    let cleared = Alone-Mirror (clear_all all nodes) (λ v. Alone-clear_all all nodes v (h v)) in
    let blank =
      Alone-Mirror (clear_all (super_ids supers) before)
        (λ v. Alone-clear_all (super_ids supers) before v (k v)) in
    subst MirrorsIf e (
      MirrorsIf-bind (connect_dep node all (update_all node all (clear_all all nodes))) _
        (MirrorIf-connect_dep node all _ (Mirror-update_all node all _ cleared))
        (λ r1 h1.
          MirrorsIf-pair r1 (connect_supers super_of r1 all (clear_all (super_ids supers) before))
            h1 (MirrorIf-connect_supers super_of r1 all _ blank)))
