-- ===== src/ConstFold/Sound/Expr.antt =====
-- Folding a whole expression: which enodes are in the scope of the theorems, with their run-time
-- values, and the entry that computeConstant gives them.
use gsim.Prelude.{ℕ, ◌^◌, ◌≤◌, ◌<◌, Bool, true, false, ◌≡◌, refl, Option, List, ◌∷◌, get_or}
use gsim.Prelude.Int.{ℤ, neg_part, pos_part}
use gsim.Prelude.Residue.{wrap}
use gsim.Circuit.{
  op_bits_noshift, op_asclock, op_asasyncreset, op_cvt, op_sext, OpType, op_add, op_sub, op_mul,
  op_div, op_rem, op_lt, op_leq, op_gt, op_geq, op_eq, op_neq, op_dshl, op_dshr, op_and, op_or,
  op_xor, op_cat, op_asuint, op_assint, op_neg, op_not, op_andr, op_orr, op_xorr, op_shl, op_shr,
  op_head, op_tail, op_bits, is_group, is_int,
}
use gsim.Firrtl.{prim1, prim2}
use gsim.Gmp.{Gmp}
use gsim.ValInfo.{ValInfo}
use gsim.ValInfo.Wrap.{Fits}
use gsim.ConstFold.{Operand}
use gsim.ConstFold.Tree.{fold1, fold2}
use gsim.ConstFold.Sound.{OperandHolds}
use gsim.ConstFold.Sound.Arith.{
  cons_add-Holds, cons_sub-Holds, cons_mul-Holds, cons_d_iv-Holds, cons_rem-Holds, cons_leq-Holds,
  cons_gt-Holds, cons_geq-Holds, cons_neq-Holds,
}
use gsim.ConstFold.Sound.Shortcut.{cons_lt-Holds, cons_eq-Holds}
use gsim.ConstFold.Sound.Logic.{
  Folds, cons_and-Folds, cons_or-Folds, cons_xor-Folds, cons_cat-Folds, cons_dshl-Folds,
  cons_dshr-Holds,
}
use gsim.ConstFold.Sound.Unary.{
  cons_as_clock-Folds, cons_as_async_reset-Folds, cons_cvt-Holds, cons_sext-Folds,
  cons_as_u_int-Folds, cons_as_s_int-Folds, cons_neg-Folds, cons_not-Folds, cons_orr-Folds,
  cons_andr-Folds, cons_xorr-Folds, cons_shl-Folds, cons_shr-Holds, cons_head-Folds,
  cons_tail-Folds,
}
use gsim.ConstFold.Sound.Parts.{cons_bits_no_shift-Holds, cons_bits-Holds}

-- A binary operator on operands of given widths, signs and values, with a result of width w and sign
-- s, for which the code folds as FIRRTL asks. Arithmetic and comparisons need nothing.
pub data Binary (sa : Bool) (va : ℤ) (sb : Bool) (vb : ℤ) : OpType → Bool → Type 0 where
  add : {s : Bool} → Binary sa va sb vb op_add s
  sub : {s : Bool} → Binary sa va sb vb op_sub s
  mul : {s : Bool} → Binary sa va sb vb op_mul s
  div : {s : Bool} → Binary sa va sb vb op_div s
  rem : {s : Bool} → Binary sa va sb vb op_rem s
  lt : {s : Bool} → Binary sa va sb vb op_lt s
  leq : {s : Bool} → Binary sa va sb vb op_leq s
  gt : {s : Bool} → Binary sa va sb vb op_gt s
  geq : {s : Bool} → Binary sa va sb vb op_geq s
  eq : {s : Bool} → Binary sa va sb vb op_eq s
  neq : {s : Bool} → Binary sa va sb vb op_neq s
  and : Binary sa va sb vb op_and false
  or : Binary sa va sb vb op_or false
  xor : Binary sa va sb vb op_xor false
  cat : sa ≡ false → sb ≡ false → Binary sa va sb vb op_cat false
  dshl : pos_part vb < 2 ^ 64 → sb ≡ false → Binary sa va sb vb op_dshl false
  dshr : {s : Bool} → pos_part vb < 2 ^ 31 → sa ≡ s → sb ≡ false → Binary sa va sb vb op_dshr s

-- An operator with one operand, and the integer arguments of its enode. Those without arguments in
-- FIRRTL read none.
pub data Unary (w wa : ℕ) (sa : Bool) (v : ℤ) : OpType → Bool → List ℕ → Type 0 where
  asuint : {ns : List ℕ} → Unary w wa sa v op_asuint false ns
  assint : {ns : List ℕ} → wa ≡ w → Unary w wa sa v op_assint true ns
  neg : {ns : List ℕ} → Unary w wa sa v op_neg true ns
  not : {ns : List ℕ} → wa ≡ w → Unary w wa sa v op_not false ns
  orr : {ns : List ℕ} → Unary w wa sa v op_orr false ns
  andr : {ns : List ℕ} → sa ≡ false → Unary w wa sa v op_andr false ns
  xorr : {ns : List ℕ} → sa ≡ false → Unary w wa sa v op_xorr false ns
  shl : (n : ℕ) {ns : List ℕ} → Unary w wa sa v op_shl false (n ∷ ns)
  shr : {s : Bool} (n : ℕ) {ns : List ℕ} → neg_part v ≡ 0 → Unary w wa sa v op_shr s (n ∷ ns)
  head : (n : ℕ) {ns : List ℕ} → sa ≡ false → Unary w wa sa v op_head false (n ∷ ns)
  tail : (n : ℕ) {ns : List ℕ} → n ≡ w → n ≤ wa → Unary w wa sa v op_tail false (n ∷ ns)
  asclock : {ns : List ℕ} → Unary w wa sa v op_asclock false ns
  asasyncreset : {ns : List ℕ} → Unary w wa sa v op_asasyncreset false ns
  cvt : {s : Bool} {ns : List ℕ} → Unary w wa sa v op_cvt s ns
  sext : {ns : List ℕ} → Fits wa → sa ≡ true → Unary w wa sa v op_sext true ns
  bits_noshift :
      {s : Bool} (n m : ℕ) {ns : List ℕ}
      → m ≤ n
      → n < 2 ^ 63
      → Unary w wa sa v op_bits_noshift s (n ∷ m ∷ ns)
  bits :
      {s : Bool} (n m : ℕ) {ns : List ℕ}
      → m ≤ n
      → n < 2 ^ 63
      → Unary w wa sa v op_bits s (n ∷ m ∷ ns)

-- None of them is a literal or a group.
pub Binary-plain :
    {sa sb s : Bool} {va vb : ℤ} {op : OpType}
    → Binary sa va sb vb op s
    → (is_group op ≡ false) × (is_int op ≡ false)
Binary-plain add = (refl, refl)
Binary-plain sub = (refl, refl)
Binary-plain mul = (refl, refl)
Binary-plain div = (refl, refl)
Binary-plain rem = (refl, refl)
Binary-plain lt = (refl, refl)
Binary-plain leq = (refl, refl)
Binary-plain gt = (refl, refl)
Binary-plain geq = (refl, refl)
Binary-plain eq = (refl, refl)
Binary-plain neq = (refl, refl)
Binary-plain and = (refl, refl)
Binary-plain or = (refl, refl)
Binary-plain xor = (refl, refl)
Binary-plain (cat p q) = (refl, refl)
Binary-plain (dshl p q) = (refl, refl)
Binary-plain (dshr p q r) = (refl, refl)

pub Unary-plain :
    {w wa : ℕ} {sa s : Bool} {v : ℤ} {op : OpType} {ns : List ℕ}
    → Unary w wa sa v op s ns
    → (is_group op ≡ false) × (is_int op ≡ false)
Unary-plain asuint = (refl, refl)
Unary-plain (assint p) = (refl, refl)
Unary-plain neg = (refl, refl)
Unary-plain (not p) = (refl, refl)
Unary-plain orr = (refl, refl)
Unary-plain (andr p) = (refl, refl)
Unary-plain (xorr p) = (refl, refl)
Unary-plain (shl n) = (refl, refl)
Unary-plain (shr n p) = (refl, refl)
Unary-plain (head n p) = (refl, refl)
Unary-plain (tail n p q) = (refl, refl)
Unary-plain asclock = (refl, refl)
Unary-plain asasyncreset = (refl, refl)
Unary-plain cvt = (refl, refl)
Unary-plain (sext p q) = (refl, refl)
Unary-plain (bits_noshift n m p q) = (refl, refl)
Unary-plain (bits n m p q) = (refl, refl)

module _ (g : Gmp) where
  -- For an operator with two operands that Binary admits, an enode of width w below 2^64, and
  -- operands whose entries hold of values va and vb, the fold does not fail, and its entry holds
  -- of FIRRTL's result on va and vb, wrapped to w bits and the enode's sign.
  pub fold2-Folds :
      (op : OpType) (w : ℕ) (s : Bool) (a b : Operand) (va vb : ℤ)
      → Fits w
      → Binary a.sign va b.sign vb op s
      → OperandHolds a va
      → OperandHolds b vb
      → Folds (fold2 g w s op a b) w s (wrap w s (prim2 op a.width va b.width vb))
  unfolding fold2
  fold2-Folds _ w s a b va vb f add ha hb = (_, refl, cons_add-Holds g w s f a b ha hb)
  fold2-Folds _ w s a b va vb f sub ha hb = (_, refl, cons_sub-Holds g w s f a b ha hb)
  fold2-Folds _ w s a b va vb f mul ha hb = (_, refl, cons_mul-Holds g w s f a b ha hb)
  fold2-Folds _ w s a b va vb f div ha hb = (_, refl, cons_d_iv-Holds g w s f a b ha hb)
  fold2-Folds _ w s a b va vb f rem ha hb = (_, refl, cons_rem-Holds g w s f a b ha hb)
  fold2-Folds _ w s a b va vb f lt ha hb = (_, refl, cons_lt-Holds g w s f a b ha hb)
  fold2-Folds _ w s a b va vb f leq ha hb = (_, refl, cons_leq-Holds g w s f a b ha hb)
  fold2-Folds _ w s a b va vb f gt ha hb = (_, refl, cons_gt-Holds g w s f a b ha hb)
  fold2-Folds _ w s a b va vb f geq ha hb = (_, refl, cons_geq-Holds g w s f a b ha hb)
  fold2-Folds _ w s a b va vb f eq ha hb = (_, refl, cons_eq-Holds g w s f a b ha hb)
  fold2-Folds _ w s a b va vb f neq ha hb = (_, refl, cons_neq-Holds g w s f a b ha hb)
  fold2-Folds _ w _ a b va vb f and ha hb = cons_and-Folds g w f a b ha hb
  fold2-Folds _ w _ a b va vb f or ha hb = cons_or-Folds g w f a b ha hb
  fold2-Folds _ w _ a b va vb f xor ha hb = cons_xor-Folds g w f a b ha hb
  fold2-Folds _ w _ a b va vb f (cat p q) ha hb = cons_cat-Folds g w f a b ha hb p q
  fold2-Folds _ w _ a b va vb f (dshl p q) ha hb = cons_dshl-Folds g w f a b ha hb p q
  fold2-Folds _ w s a b va vb f (dshr p q r) ha hb =
      (_, refl, cons_dshr-Holds g w f a b ha hb s p q r)

  -- For an operator with one operand that Unary admits with the values of its enode, of which it
  -- needs the integer arguments that the operator has, an enode of width w below 2^64, and an
  -- operand whose entry holds of v, the fold does not fail, and its entry holds of FIRRTL's result
  -- on v, wrapped to w bits and the enode's sign.
  pub fold1-Folds :
      (op : OpType) (w : ℕ) (ns : List ℕ) (s : Bool) (mem : Option ValInfo) (a : Operand) (v : ℤ)
      → Fits w
      → Unary w a.width a.sign v op s ns
      → OperandHolds a v
      → Folds
          (fold1 g w s op ns mem a)
          w
          s
          (wrap w s (prim1 op (get_or ns 0 0) (get_or ns 1 0) a.width v))
  unfolding fold1 prim1
  fold1-Folds _ w _ _ mem a v f asuint ha = cons_as_u_int-Folds g w f a ha
  fold1-Folds _ w _ _ mem a v f (assint p) ha = cons_as_s_int-Folds g w f a ha p
  fold1-Folds _ w _ _ mem a v f neg ha = cons_neg-Folds g w f a ha
  fold1-Folds _ w _ _ mem a v f (not p) ha = cons_not-Folds g w f a ha p
  fold1-Folds _ w _ _ mem a v f orr ha = cons_orr-Folds g w f a ha
  fold1-Folds _ w _ _ mem a v f (andr p) ha = cons_andr-Folds g w f a ha p
  fold1-Folds _ w _ _ mem a v f (xorr p) ha = cons_xorr-Folds g w f a ha p
  fold1-Folds _ w _ _ mem a v f (shl n) ha = cons_shl-Folds g w f a ha n
  fold1-Folds _ w _ s mem a v f (shr n p) ha = (_, refl, cons_shr-Holds g w f a ha s n p)
  fold1-Folds _ w _ _ mem a v f (head n p) ha = cons_head-Folds g w f a ha n p
  fold1-Folds _ w _ _ mem a v f (tail n p q) ha = cons_tail-Folds g w f a ha n p q
  fold1-Folds _ w _ _ mem a v f asclock ha = cons_as_clock-Folds g w f a ha
  fold1-Folds _ w _ _ mem a v f asasyncreset ha = cons_as_async_reset-Folds g w f a ha
  fold1-Folds _ w _ s mem a v f cvt ha = (_, refl, cons_cvt-Holds g w f a ha s)
  fold1-Folds _ w _ _ mem a v f (sext p q) ha = cons_sext-Folds g w f a ha p q
  fold1-Folds _ w _ s mem a v f (bits_noshift n m p q) ha =
      (_, refl, cons_bits_no_shift-Holds g w s f a ha n m p q)
  fold1-Folds _ w _ s mem a v f (bits n m p q) ha = (_, refl, cons_bits-Holds g w s f a ha n m p q)
