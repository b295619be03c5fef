-- ===== src/ConstFold/Sound/Shortcut.antt =====
-- Folding the comparisons that are decided with one constant operand.
use gsim.Prelude.{
  ℕ, ◌-◌, ◌^◌, ◌≤◌, ◌<◌, Bool, true, not, ◌≡◌, ap, ◌∙◌, sym, arith, inl, inr, Bool-cases, ◌&&◌,
  ◌||◌,
}
use gsim.Prelude.Int.{ℤ, pos, negsuc, pos_part, neg_part}
use gsim.Prelude.Residue.{modp, wrap, two_pow_pos}
use gsim.Circuit.{op_lt, op_eq}
use gsim.Firrtl.{prim2, same, less, truth}
use gsim.Firrtl.Range.{range_upper, range_unsigned}
use gsim.Gmp.{Gmp}
use gsim.Gmp.Masks.{mask_lem}
use gsim.OpFuncs.{is_zero, us_lt, us_eq}
use gsim.ValInfo.Wrap.{Fits}
use gsim.ConstFold.{Operand, known, cons_zero, mpz_out_of_bound, cons_lt, cons_eq}
use gsim.ConstFold.Sound.{Holds, OperandHolds}
use gsim.ConstFold.Sound.Arith.{split-Holds, zero_tested-Holds, computed2-Holds, lt_value, eq_value}

-- No unsigned value is below 0.
less_zero : (a b : ℤ) → neg_part a ≡ 0 → b ≡ pos 0 → truth (less a b) ≡ pos 0
less_zero a b h e = rw e (ground arith)

-- A value below 2^w differs from one that is not.
differ_beyond : (a b : ℤ) (m : ℕ) → pos_part b < m → m ≤ pos_part a → truth (same a b) ≡ pos 0
differ_beyond (pos n) (pos k) m p q = ground arith
differ_beyond (pos n) (negsuc k) m p q = ground arith
differ_beyond (negsuc n) b m p q = absurd (omega arith)

same_comm : (a b : ℤ) → truth (same a b) ≡ truth (same b a)
same_comm a b = ground arith

module _ (g : Gmp) where
  out_of_bound : (v : ℤ) (w : ℕ) → mpz_out_of_bound g v w ≡ true → 2 ^ w ≤ pos_part v
  unfolding mpz_out_of_bound
  out_of_bound v w h = ground (arith, g.cmp_law v (pos (2 ^ w - 1)), mask_lem g w, two_pow_pos w)

  pub sgn_is_zero : (v : ℤ) → is_zero (g.mpz_sgn v) ≡ true → v ≡ pos 0
  sgn_is_zero v h = ground (arith, g.sgn_law v)

module _ (g : Gmp) (w : ℕ) (s : Bool) (fits : Fits w) (a b : Operand) {va vb : ℤ}
    (ha : OperandHolds a va) (hb : OperandHolds b vb) where
  lt_zero :
      (not a.sign && (known b && cons_zero g b)) ≡ true → prim2 op_lt a.width va b.width vb ≡ pos 0
  unfolding prim2
  lt_zero h =
      less_zero va vb (range_unsigned a.width a.sign va (ground arith) ha.range)
        (sym (hb.denotes (ground arith)) ∙ sgn_is_zero g b.info.cons_val (ground arith))

  eq_beyond :
      (known a && mpz_out_of_bound g a.info.cons_val b.width
          || known b && mpz_out_of_bound g b.info.cons_val a.width)
        ≡ true
      → prim2 op_eq a.width va b.width vb ≡ pos 0
  unfolding prim2
  eq_beyond h = elim (Bool-cases (known a && mpz_out_of_bound g a.info.cons_val b.width)) [
    | inl left ↦
        differ_beyond va vb (2 ^ b.width) (range_upper b.width b.sign vb hb.range)
          (beyond va a.info.cons_val b.width (ha.denotes (ground arith)) (ground arith))
    | inr right ↦
        same_comm va vb
        ∙ differ_beyond vb va (2 ^ a.width) (range_upper a.width a.sign va ha.range)
            (beyond vb b.info.cons_val a.width (hb.denotes (ground arith)) (ground arith))
  ]
    where
      beyond : (v c : ℤ) (m : ℕ) → c ≡ v → mpz_out_of_bound g c m ≡ true → 2 ^ m ≤ pos_part v
      beyond v c m e t = rw (← e) (out_of_bound g c m t)

  -- For an enode of width below 2^64 and operands whose entries hold of va and vb, the entry of a
  -- comparison, decided by two constants or by a zero on the right of an unsigned operand, holds
  -- of va < vb.
  pub cons_lt-Holds : Holds w s (cons_lt g w s a b) (wrap w s (prim2 op_lt a.width va b.width vb))
  unfolding cons_lt
  cons_lt-Holds =
      split-Holds w s (known a && known b) _ _ _
        (computed2-Holds g w s fits a b ha hb (λ p q. us_lt g p a.info.width q b.info.width) _
          (ap (λ z. modp z (2 ^ w)) (lt_value g w s fits a b ha hb)))
        (λ _. zero_tested-Holds g w s fits _ _ lt_zero)

  -- For an enode of width below 2^64 and operands whose entries hold of va and vb, the entry of an
  -- equality, decided by two constants or by one that is out of the other's bounds, holds of the
  -- equality of va and vb.
  pub cons_eq-Holds : Holds w s (cons_eq g w s a b) (wrap w s (prim2 op_eq a.width va b.width vb))
  unfolding cons_eq
  cons_eq-Holds =
      split-Holds w s (known a && known b) _ _ _
        (computed2-Holds g w s fits a b ha hb (λ p q. us_eq g p a.info.width q b.info.width) _
          (ap (λ z. modp z (2 ^ w)) (eq_value g w s fits a b ha hb)))
        (λ _. zero_tested-Holds g w s fits _ _ eq_beyond)
