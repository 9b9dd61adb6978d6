-- ===== src/Mir/ConstFold.antt =====
-- crates/rlyeh-mir/src/passes/const_fold.rs.
pub mod Meaning
pub mod Overflow
pub mod Shape
pub mod Branches
use Prim.Native.Nat.{bit_and, bit_or, bit_xor}
use Prim.Native.String.{String}
use text.Mathlib.Text.{◌==◌ as str_eq}
use rlyeh_language.Common.{
  ℕ, zero, suc, Bool, true, false, not, ◌&&◌, ◌||◌, Option, none, some, List, [], ◌∷◌, map, ◌==◌,
  if◌then◌else◌,
}
use rlyeh_language.Mir.{
  HirBinaryOp, HirUnaryOp, Local, MirValue, MirStmt, MirTerminator, BasicBlock, MirFunction,
  MirProgram,
}
use rlyeh_language.Mir.Int128.{
  wrapping_neg, wrapping_add, wrapping_sub, wrapping_mul, wrapping_div, wrapping_rem, less,
  wrapping_shl, wrapping_shr,
}

-- The arm of `fold_binary` for two integers.
unfoldable pub fold_int : HirBinaryOp → ℕ → ℕ → Option MirValue
fold_int HirBinaryOp.add a b = some (MirValue.int (wrapping_add a b))
fold_int HirBinaryOp.sub a b = some (MirValue.int (wrapping_sub a b))
fold_int HirBinaryOp.mul a b = some (MirValue.int (wrapping_mul a b))
fold_int HirBinaryOp.div a b = if not (b == 0) then some (MirValue.int (wrapping_div a b)) else none
fold_int HirBinaryOp.rem a b = if not (b == 0) then some (MirValue.int (wrapping_rem a b)) else none
fold_int HirBinaryOp.eq a b = some (MirValue.bool (a == b))
fold_int HirBinaryOp.ne a b = some (MirValue.bool (not (a == b)))
fold_int HirBinaryOp.lt a b = some (MirValue.bool (less a b))
fold_int HirBinaryOp.le a b = some (MirValue.bool (not (less b a)))
fold_int HirBinaryOp.gt a b = some (MirValue.bool (less b a))
fold_int HirBinaryOp.ge a b = some (MirValue.bool (not (less a b)))
fold_int HirBinaryOp.bit_and a b = some (MirValue.int (bit_and a b))
fold_int HirBinaryOp.bit_or a b = some (MirValue.int (bit_or a b))
fold_int HirBinaryOp.bit_xor a b = some (MirValue.int (bit_xor a b))
fold_int HirBinaryOp.shl a b = some (MirValue.int (wrapping_shl a b))
fold_int HirBinaryOp.shr a b = some (MirValue.int (wrapping_shr a b))
fold_int HirBinaryOp.and a b = none
fold_int HirBinaryOp.or a b = none

abbrev pub bool_eq : Bool → Bool → Bool
bool_eq true b = b
bool_eq false b = not b

unfoldable pub fold_bool : HirBinaryOp → Bool → Bool → Option MirValue
fold_bool HirBinaryOp.and a b = some (MirValue.bool (a && b))
fold_bool HirBinaryOp.or a b = some (MirValue.bool (a || b))
fold_bool HirBinaryOp.eq a b = some (MirValue.bool (bool_eq a b))
fold_bool HirBinaryOp.ne a b = some (MirValue.bool (not (bool_eq a b)))
fold_bool _ a b = none

unfoldable pub fold_char : HirBinaryOp → ℕ → ℕ → Option MirValue
fold_char HirBinaryOp.eq a b = some (MirValue.bool (a == b))
fold_char HirBinaryOp.ne a b = some (MirValue.bool (not (a == b)))
fold_char _ a b = none

unfoldable pub fold_binary : HirBinaryOp → MirValue → MirValue → Option MirValue
unfolding fold_int fold_bool fold_char
fold_binary op (MirValue.int a) (MirValue.int b) = fold_int op a b
fold_binary op (MirValue.bool a) (MirValue.bool b) = fold_bool op a b
fold_binary op (MirValue.char a) (MirValue.char b) = fold_char op a b
fold_binary op _ _ = none

-- The `match` on the folded operand of a unary operator.
unfoldable pub fold_unary : HirUnaryOp → MirValue → MirValue
fold_unary HirUnaryOp.not (MirValue.bool b) = MirValue.bool (not b)
fold_unary HirUnaryOp.neg (MirValue.int i) = MirValue.int (wrapping_neg i)
fold_unary op o = MirValue.unary op o

abbrev unwrap_or {ℓ} : {A : Type ℓ} → Option A → A → A
unwrap_or none d = d
unwrap_or (some a) d = a

-- fold_value
pub fold_value : MirValue → MirValue
fold_value (MirValue.binary op lhs rhs) =
    let l = fold_value lhs in
    let r = fold_value rhs in unwrap_or (fold_binary op l r) (MirValue.binary op l r)
fold_value (MirValue.unary op operand) = fold_unary op (fold_value operand)
fold_value other = other

-- fold_assigns
pub fold_assign : MirStmt → MirStmt
fold_assign (MirStmt.assign target value) = MirStmt.assign target (fold_value value)
fold_assign s = s

unfoldable pub fold_block : BasicBlock → BasicBlock
fold_block b = record b { stmts = map fold_assign b.stmts }

unfoldable pub fold_assigns : MirFunction → MirFunction
fold_assigns f = record f { blocks = map fold_block f.blocks }

-- The constants of a block: the last Boolean that was assigned to each target.
abbrev pub Consts : Type 0
Consts = List (Local × Bool)

unfoldable pub get : Local → Consts → Option Bool
get x [] = none
get x ((y, b) ∷ rest) = if str_eq y x then some b else get x rest

pub note_const : MirStmt → Consts → Consts
note_const (MirStmt.assign target (MirValue.bool b)) consts = (target, b) ∷ consts
note_const _ consts = consts

pub collect_consts : List MirStmt → Consts → Consts
collect_consts [] consts = consts
collect_consts (s ∷ rest) consts = collect_consts rest (note_const s consts)

unfoldable pub chosen : Option Bool → Local → ℕ → ℕ → MirTerminator
chosen none cond then_block otherwise = MirTerminator.cond_jump cond then_block otherwise
chosen (some b) cond then_block otherwise = MirTerminator.jump (if b then then_block else otherwise)

unfoldable pub fold_terminator : Consts → Option MirTerminator → Option MirTerminator
fold_terminator consts (some (MirTerminator.cond_jump cond then_block otherwise)) =
    some (chosen (get cond consts) cond then_block otherwise)
fold_terminator consts t = t

-- One round of the loop of fold_cond_terms.
unfoldable pub fold_cond_term : BasicBlock → BasicBlock
unfolding fold_terminator
fold_cond_term b = record b {
  terminator = fold_terminator (collect_consts b.stmts []) b.terminator;
}

unfoldable pub fold_cond_terms : MirFunction → MirFunction
fold_cond_terms f = record f { blocks = map fold_cond_term f.blocks }

-- constant_fold
unfoldable pub constant_fold : MirProgram → MirProgram
constant_fold p = record { functions = map (λ f. fold_cond_terms (fold_assigns f)) p.functions }
