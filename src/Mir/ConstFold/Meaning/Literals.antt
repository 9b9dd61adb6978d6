-- ===== src/Mir/ConstFold/Meaning/Literals.antt =====
-- Folding leaves no operator over literals that has a value.
use rlyeh_language.Common.{◌>>=◌, ℕ, ◌≡◌, refl, Bool, Option, none, some, arith}
use rlyeh_language.Mir.{HirBinaryOp, HirUnaryOp, Local, MirValue}
use rlyeh_language.Mir.ConstFold.{
  fold_int, fold_bool, fold_char, fold_binary, fold_unary, fold_value,
}
use rlyeh_language.Mir.ConstFold.Meaning.{
  Value, Rest, RestUnary, apply_int, apply_bool, apply_char, apply, apply_unary, eval,
}

-- Only integers, Booleans and characters, and operators over these.
abbrev pub IsClosed : MirValue → Type 0
IsClosed (MirValue.int n) = Unit
IsClosed (MirValue.char n) = Unit
IsClosed (MirValue.bool b) = Unit
IsClosed (MirValue.binary op l r) = IsClosed l × IsClosed r
IsClosed (MirValue.unary op o) = IsClosed o
IsClosed _ = ⊥

abbrev pub literal : Value → MirValue
literal (Value.int n) = MirValue.int n
literal (Value.float n) = MirValue.float n
literal (Value.char n) = MirValue.char n
literal (Value.address n) = MirValue.int n
literal (Value.string s) = MirValue.string s
literal (Value.function f) = MirValue.fn_ref f
literal (Value.bool b) = MirValue.bool b
literal Value.unit = MirValue.unit

abbrev pub no_rest : Rest
no_rest op a b = none

abbrev pub no_rest_unary : RestUnary
no_rest_unary op a = none

module _ (env : Local → Value) where
  fold_int-apply :
      (op : HirBinaryOp) (a b : ℕ) (x : Value)
      → apply_int env no_rest no_rest_unary op a b ≡ some x
      → fold_int op a b ≡ some (literal x)
  unfolding apply_int fold_int
  fold_int-apply HirBinaryOp.and a b x e = cc
  fold_int-apply HirBinaryOp.or a b x e = cc
  fold_int-apply _ a b x e = ground arith

  fold_bool-apply :
      (op : HirBinaryOp) (a b : Bool) (x : Value)
      → apply_bool env no_rest no_rest_unary op a b ≡ some x
      → fold_bool op a b ≡ some (literal x)
  unfolding apply_bool fold_bool
  fold_bool-apply HirBinaryOp.and a b x e = ground arith
  fold_bool-apply _ a b x e = ground arith

  fold_char-apply :
      (op : HirBinaryOp) (a b : ℕ) (x : Value)
      → apply_char env no_rest no_rest_unary op a b ≡ some x
      → fold_char op a b ≡ some (literal x)
  unfolding apply_char fold_char
  fold_char-apply HirBinaryOp.eq a b x e = ground arith
  fold_char-apply _ a b x e = ground arith

  fold_binary-apply :
      (op : HirBinaryOp) (a b x : Value)
      → apply env no_rest no_rest_unary op a b ≡ some x
      → fold_binary op (literal a) (literal b) ≡ some (literal x)
  unfolding apply fold_binary
  fold_binary-apply op (Value.int a) (Value.int b) x e = fold_int-apply op a b x e
  fold_binary-apply op (Value.bool a) (Value.bool b) x e = fold_bool-apply op a b x e
  fold_binary-apply op (Value.char a) (Value.char b) x e = fold_char-apply op a b x e
  fold_binary-apply op _ _ x e = cc

  fold_unary-apply :
      (op : HirUnaryOp) (a x : Value)
      → apply_unary env no_rest no_rest_unary op a ≡ some x
      → fold_unary op (literal a) ≡ literal x
  unfolding apply_unary fold_unary
  fold_unary-apply HirUnaryOp.not (Value.bool b) x e = ground arith
  fold_unary-apply HirUnaryOp.neg (Value.int i) x e = ground arith
  fold_unary-apply op _ x e = cc

  bind-eq-some {ℓ κ} :
      {A : Type ℓ} {B : Type κ} (m : Option A) (f : A → Option B) {b : B}
      → (m >>= f) ≡ some b
      → (a : A) × (m ≡ some a) × (f a ≡ some b)
  bind-eq-some (some a) f h = (a, refl, h)
  bind-eq-some none f h = cc

  -- A tree of integer, Boolean and character literals that has a value folds to that value.
  pub fold_value-literal :
      (v : MirValue) (x : Value)
      → IsClosed v
      → eval env no_rest no_rest_unary v ≡ some x
      → fold_value v ≡ literal x
  unfolding fold_value eval
  fold_value-literal (MirValue.int n) x c e = ground arith
  fold_value-literal (MirValue.char n) x c e = ground arith
  fold_value-literal (MirValue.bool b) x c e = ground arith
  fold_value-literal (MirValue.binary op l r) x c e =
      let (a, p, e') = bind-eq-some (eval env no_rest no_rest_unary l) _ e in
      let (b, q, e'') = bind-eq-some (eval env no_rest no_rest_unary r) _ e' in
      rw
        (fold_value-literal l a c.0 p, fold_value-literal r b c.1 q, fold_binary-apply op a b x e'')
  fold_value-literal (MirValue.unary op o) x c e =
      let (a, p, e') = bind-eq-some (eval env no_rest no_rest_unary o) _ e in
      rw (fold_value-literal o a c p) (fold_unary-apply op a x e')
  fold_value-literal _ x c e = absurd c
