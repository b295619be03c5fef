-- ===== src/Examples/Aliases.antt =====
-- The replacement of aliases at concrete inputs.
use gsim.Prelude.{ℕ, zero, suc, Option, none, some, ◌≡◌, refl}
use mathlib.Core.Path.{subst}
use gsim.Tree.{Label, ENode, enode, no_more, child}
use gsim.Tree.Copies.{dup}
use gsim.Alias.{replace, replace_child, add_copies}
use gsim.Alias.Free.{Free}
use gsim.Alias.Returns.{replace_returns}
use gsim.Examples.Graph.{reference_to}

abbrev leaf : ℕ → ENode
leaf v = enode (reference_to v) no_more

-- Node 1 is an alias of 5, and node 2 of 6.
abbrev aliases : ℕ → Option ENode
aliases zero = none
aliases (suc zero) = some (leaf 5)
aliases (suc (suc zero)) = some (leaf 6)
aliases (suc (suc (suc _))) = none

aliases-Free : (v : ℕ) (a : ENode) → aliases v ≡ some a → Free aliases a
aliases-Free zero a e = cc e
aliases-Free (suc zero) a e = let same : leaf 5 ≡ a = cc e in subst (Free aliases) same (refl, tt)
aliases-Free (suc (suc zero)) a e =
    let same : leaf 6 ≡ a = cc e in subst (Free aliases) same (refl, tt)
aliases-Free (suc (suc (suc _))) a e = cc e

-- The sum of the nodes 1 and 3.
abbrev operation : Label
operation = record (reference_to 0) { node_ptr = none }

abbrev sum : ENode
sum = enode operation (child (leaf 1) (child (leaf 3) no_more))

replace_returns_example : (r : ENode) × (replace aliases sum ≡ some r) × Free aliases r
replace_returns_example =
    replace_returns aliases sum aliases-Free
      (λ a e. cc e, ((λ a e. refl, tt), ((λ a e. refl, tt), tt)))

replace_test :
    replace aliases sum ≡ some (enode operation (child (leaf 5) (child (leaf 3) no_more)))
unfolding replace replace_child add_copies dup
replace_test = refl

-- Below another enode the index of an aliased array keeps the node 2, which is an alias too.
stale_index_test :
    replace aliases
      (enode operation (child (enode (reference_to 1) (child (leaf 2) no_more)) no_more))
    ≡ some (enode operation (child (enode (reference_to 5) (child (leaf 2) no_more)) no_more))
unfolding replace replace_child add_copies dup
stale_index_test = refl
