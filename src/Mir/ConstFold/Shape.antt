-- ===== src/Mir/ConstFold/Shape.antt =====
-- Folding is idempotent.
use rlyeh_language.Common.{ℕ, ◌≡◌, refl, Bool, some, arith, Option-cases, inl, inr}
use rlyeh_language.Mir.{HirBinaryOp, HirUnaryOp, MirValue}
use rlyeh_language.Mir.ConstFold.{
  fold_int, fold_bool, fold_char, fold_binary, fold_unary, fold_value, unwrap_or,
}

fold_int-folded :
    (op : HirBinaryOp) (a b : ℕ) (v : MirValue) → fold_int op a b ≡ some v → fold_value v ≡ v
unfolding fold_int fold_value
fold_int-folded HirBinaryOp.and a b v e = cc
fold_int-folded HirBinaryOp.or a b v e = cc
fold_int-folded _ a b v e = ground arith

fold_bool-folded :
    (op : HirBinaryOp) (a b : Bool) (v : MirValue) → fold_bool op a b ≡ some v → fold_value v ≡ v
unfolding fold_bool fold_value
fold_bool-folded HirBinaryOp.and a b v e = ground arith
fold_bool-folded _ a b v e = ground arith

fold_char-folded :
    (op : HirBinaryOp) (a b : ℕ) (v : MirValue) → fold_char op a b ≡ some v → fold_value v ≡ v
unfolding fold_char fold_value
fold_char-folded HirBinaryOp.eq a b v e = ground arith
fold_char-folded _ a b v e = ground arith

fold_binary-folded :
    (op : HirBinaryOp) (l r v : MirValue) → fold_binary op l r ≡ some v → fold_value v ≡ v
unfolding fold_binary
fold_binary-folded op (MirValue.int a) (MirValue.int b) v e = fold_int-folded op a b v e
fold_binary-folded op (MirValue.bool a) (MirValue.bool b) v e = fold_bool-folded op a b v e
fold_binary-folded op (MirValue.char a) (MirValue.char b) v e = fold_char-folded op a b v e
fold_binary-folded op _ _ v e = cc

fold_value-unwrap_or :
    (op : HirBinaryOp) (l r : MirValue)
    → fold_value l ≡ l
    → fold_value r ≡ r
    → fold_value (unwrap_or (fold_binary op l r) (MirValue.binary op l r))
      ≡ unwrap_or (fold_binary op l r) (MirValue.binary op l r)
unfolding fold_value
fold_value-unwrap_or op l r p q = elim (Option-cases (fold_binary op l r)) [
  | inl e ↦ rw e (rw (p, q, e) refl)
  | inr (v, e) ↦ rw e (fold_binary-folded op l r v e)
]

fold_value-fold_unary :
    (op : HirUnaryOp) (o : MirValue)
    → fold_value o ≡ o
    → fold_value (fold_unary op o) ≡ fold_unary op o
unfolding fold_value fold_unary
fold_value-fold_unary HirUnaryOp.not (MirValue.bool b) p = refl
fold_value-fold_unary HirUnaryOp.neg (MirValue.int i) p = refl
fold_value-fold_unary op _ p = rw p

-- A second pass over an operand tree finds nothing left to fold.
pub fold_value_idem : (v : MirValue) → fold_value (fold_value v) ≡ fold_value v
unfolding fold_value
fold_value_idem (MirValue.binary op l r) =
    fold_value-unwrap_or op (fold_value l) (fold_value r) (fold_value_idem l) (fold_value_idem r)
fold_value_idem (MirValue.unary op o) = fold_value-fold_unary op (fold_value o) (fold_value_idem o)
fold_value_idem _ = refl
