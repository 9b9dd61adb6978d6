-- ===== src/Mir/ConstFold/Meaning.antt =====
-- Folding against an evaluator of operand trees at the 128 bits of MIR's integers, those at which
-- the pass computes; Overflow has what the compiled program does. A trap is `none`; what the pass
-- leaves alone (floats, texts, addresses, mixed operands) is evaluated by the parameters `rest` and
-- `rest_unary`.
pub mod Literals
use Prim.Native.Nat.{bit_and, bit_or, bit_xor}
use Prim.Native.String.{String}
use rlyeh_language.Common.{
  ◌>>=◌, ℕ, zero, suc, ◌≡◌, refl, sym, ap, ◌∙◌, Bool, true, false, not, ◌&&◌, ◌||◌, Option, none,
  some, List, [], ◌∷◌, map, ◌==◌, if◌then◌else◌, arith, Option-cases, inl, inr,
}
use rlyeh_language.Mir.{HirBinaryOp, HirUnaryOp, Local, MirValue}
use rlyeh_language.Mir.Int128.{
  wrapping_neg, wrapping_add, wrapping_sub, wrapping_mul, wrapping_div, wrapping_rem, less,
  wrapping_shl, wrapping_shr,
}
use rlyeh_language.Mir.ConstFold.{
  fold_int, fold_bool, fold_char, fold_binary, fold_unary, fold_value, unwrap_or, bool_eq,
}

-- Run-time values.
pub data Value : Type 0 where
  int float char address : ℕ → Value
  string function : String → Value
  bool : Bool → Value
  unit : Value

abbrev pub Rest : Type 0
Rest = HirBinaryOp → Value → Value → Option Value

abbrev pub RestUnary : Type 0
RestUnary = HirUnaryOp → Value → Option Value

module _ (env : Local → Value) (rest : Rest) (rest_unary : RestUnary) where
  unfoldable pub apply_int : HirBinaryOp → ℕ → ℕ → Option Value
  apply_int HirBinaryOp.add a b = some (Value.int (wrapping_add a b))
  apply_int HirBinaryOp.sub a b = some (Value.int (wrapping_sub a b))
  apply_int HirBinaryOp.mul a b = some (Value.int (wrapping_mul a b))
  apply_int HirBinaryOp.div a b = if b == 0 then none else some (Value.int (wrapping_div a b))
  apply_int HirBinaryOp.rem a b = if b == 0 then none else some (Value.int (wrapping_rem a b))
  apply_int HirBinaryOp.eq a b = some (Value.bool (a == b))
  apply_int HirBinaryOp.ne a b = some (Value.bool (not (a == b)))
  apply_int HirBinaryOp.lt a b = some (Value.bool (less a b))
  apply_int HirBinaryOp.le a b = some (Value.bool (not (less b a)))
  apply_int HirBinaryOp.gt a b = some (Value.bool (less b a))
  apply_int HirBinaryOp.ge a b = some (Value.bool (not (less a b)))
  apply_int HirBinaryOp.bit_and a b = some (Value.int (bit_and a b))
  apply_int HirBinaryOp.bit_or a b = some (Value.int (bit_or a b))
  apply_int HirBinaryOp.bit_xor a b = some (Value.int (bit_xor a b))
  apply_int HirBinaryOp.shl a b = some (Value.int (wrapping_shl a b))
  apply_int HirBinaryOp.shr a b = some (Value.int (wrapping_shr a b))
  apply_int op a b = rest op (Value.int a) (Value.int b)

  unfoldable pub apply_bool : HirBinaryOp → Bool → Bool → Option Value
  apply_bool HirBinaryOp.and a b = some (Value.bool (a && b))
  apply_bool HirBinaryOp.or a b = some (Value.bool (a || b))
  apply_bool HirBinaryOp.eq a b = some (Value.bool (bool_eq a b))
  apply_bool HirBinaryOp.ne a b = some (Value.bool (not (bool_eq a b)))
  apply_bool op a b = rest op (Value.bool a) (Value.bool b)

  unfoldable pub apply_char : HirBinaryOp → ℕ → ℕ → Option Value
  apply_char HirBinaryOp.eq a b = some (Value.bool (a == b))
  apply_char HirBinaryOp.ne a b = some (Value.bool (not (a == b)))
  apply_char op a b = rest op (Value.char a) (Value.char b)

  unfoldable pub apply : HirBinaryOp → Value → Value → Option Value
  apply op (Value.int a) (Value.int b) = apply_int op a b
  apply op (Value.bool a) (Value.bool b) = apply_bool op a b
  apply op (Value.char a) (Value.char b) = apply_char op a b
  apply op a b = rest op a b

  unfoldable pub apply_unary : HirUnaryOp → Value → Option Value
  apply_unary HirUnaryOp.not (Value.bool b) = some (Value.bool (not b))
  apply_unary HirUnaryOp.neg (Value.int i) = some (Value.int (wrapping_neg i))
  apply_unary op a = rest_unary op a

  unfoldable pub eval : MirValue → Option Value
  eval (MirValue.int n) = some (Value.int n)
  eval (MirValue.float n) = some (Value.float n)
  eval (MirValue.char n) = some (Value.char n)
  eval (MirValue.string s) = some (Value.string s)
  eval (MirValue.bool b) = some (Value.bool b)
  eval MirValue.unit = some Value.unit
  eval (MirValue.place x) = some (env x)
  eval (MirValue.fn_ref f) = some (Value.function f)
  eval (MirValue.binary op l r) = do a ← eval l; b ← eval r; apply op a b
  eval (MirValue.unary op o) = do a ← eval o; apply_unary op a

  eval-fold_int :
      (op : HirBinaryOp) (a b : ℕ) (v : MirValue)
      → fold_int op a b ≡ some v
      → eval v ≡ apply_int op a b
  unfolding fold_int apply_int eval
  eval-fold_int HirBinaryOp.and a b v e = cc
  eval-fold_int HirBinaryOp.or a b v e = cc
  eval-fold_int _ a b v e = ground arith

  eval-fold_bool :
      (op : HirBinaryOp) (a b : Bool) (v : MirValue)
      → fold_bool op a b ≡ some v
      → eval v ≡ apply_bool op a b
  unfolding fold_bool apply_bool eval
  eval-fold_bool HirBinaryOp.and a b v e = ground arith
  eval-fold_bool _ a b v e = ground arith

  eval-fold_char :
      (op : HirBinaryOp) (a b : ℕ) (v : MirValue)
      → fold_char op a b ≡ some v
      → eval v ≡ apply_char op a b
  unfolding fold_char apply_char eval
  eval-fold_char HirBinaryOp.eq a b v e = ground arith
  eval-fold_char _ a b v e = ground arith

  eval-fold_binary :
      (op : HirBinaryOp) (l r v : MirValue)
      → fold_binary op l r ≡ some v
      → eval v ≡ eval (MirValue.binary op l r)
  unfolding fold_binary eval apply
  eval-fold_binary op (MirValue.int a) (MirValue.int b) v e = eval-fold_int op a b v e
  eval-fold_binary op (MirValue.bool a) (MirValue.bool b) v e = eval-fold_bool op a b v e
  eval-fold_binary op (MirValue.char a) (MirValue.char b) v e = eval-fold_char op a b v e
  eval-fold_binary op _ _ v e = cc

  eval-unwrap_or :
      (op : HirBinaryOp) (l r : MirValue)
      → eval (unwrap_or (fold_binary op l r) (MirValue.binary op l r))
        ≡ eval (MirValue.binary op l r)
  eval-unwrap_or op l r = elim (Option-cases (fold_binary op l r)) [
    | inl e ↦ rw e refl
    | inr (v, e) ↦ rw e (eval-fold_binary op l r v e)
  ]

  eval-fold_unary :
      (op : HirUnaryOp) (o : MirValue) → eval (fold_unary op o) ≡ eval (MirValue.unary op o)
  unfolding fold_unary eval apply_unary
  eval-fold_unary HirUnaryOp.not (MirValue.bool b) = refl
  eval-fold_unary HirUnaryOp.neg (MirValue.int i) = refl
  eval-fold_unary _ _ = refl

  eval-binary :
      (op : HirBinaryOp) (l l' r r' : MirValue)
      → eval l ≡ eval l'
      → eval r ≡ eval r'
      → eval (MirValue.binary op l r) ≡ eval (MirValue.binary op l' r')
  unfolding eval
  eval-binary op l l' r r' p q = rw (p, q)

  eval-unary :
      (op : HirUnaryOp) (o o' : MirValue)
      → eval o ≡ eval o'
      → eval (MirValue.unary op o) ≡ eval (MirValue.unary op o')
  unfolding eval
  eval-unary op o o' p = rw p

  -- Folding an operand tree keeps its value at 128 bits, and its trap where it has one.
  pub eval-fold_value : (v : MirValue) → eval (fold_value v) ≡ eval v
  unfolding fold_value
  eval-fold_value (MirValue.binary op l r) =
      eval-unwrap_or op (fold_value l) (fold_value r)
      ∙ eval-binary op _ l _ r (eval-fold_value l) (eval-fold_value r)
  eval-fold_value (MirValue.unary op o) =
      eval-fold_unary op (fold_value o) ∙ eval-unary op _ o (eval-fold_value o)
  eval-fold_value _ = refl
