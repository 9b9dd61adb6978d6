-- ===== src/Mir/Lower/Values.antt =====
-- crates/rlyeh-mir/src/lower.rs: lower_value, lower_expr, addr_of, lower_block and lower_stmt, and
-- the right-hand sides that lower_value builds.
use rlyeh_language.Common.{Bool, true, false, Option, none, some, if◌then◌else◌}
use rlyeh_language.Hir.{HirAssignOp}
use rlyeh_language.Mir.{Local, MirStmt, MirValue, FieldScalar, HirBinaryOp, HirUnaryOp}
use rlyeh_language.Mir.Lower.{Lowering, pure, ◌>>=◌, ◌>>◌, cur_closed, emit, fresh_temp}
use rlyeh_language.Mir.Lower.Control.{place_result}

unfoldable pub assigned_value : HirAssignOp → Local → Local → MirValue
assigned_value HirAssignOp.assign target v = MirValue.place v
assigned_value HirAssignOp.add_assign target v =
    MirValue.binary HirBinaryOp.add (MirValue.place target) (MirValue.place v)
assigned_value HirAssignOp.sub_assign target v =
    MirValue.binary HirBinaryOp.sub (MirValue.place target) (MirValue.place v)
assigned_value HirAssignOp.mul_assign target v =
    MirValue.binary HirBinaryOp.mul (MirValue.place target) (MirValue.place v)
assigned_value HirAssignOp.div_assign target v =
    MirValue.binary HirBinaryOp.div (MirValue.place target) (MirValue.place v)

-- A comparison joined to those before it.
unfoldable pub joined : HirBinaryOp → Option MirValue → MirValue → MirValue
joined op none cmp = cmp
joined op (some prev) cmp = MirValue.binary op prev cmp

-- The whole test: of no comparison at all, and under `not in`.
unfoldable pub whole_test : Bool → Bool → Option MirValue → MirValue
whole_test negated unjoined none =
    if negated
    then MirValue.unary HirUnaryOp.not (MirValue.bool unjoined)
    else MirValue.bool unjoined
whole_test negated unjoined (some v) = if negated then MirValue.unary HirUnaryOp.not v else v

unfoldable pub lower_test : Local → Bool → Option MirValue → Option MirValue
lower_test v inclusive none = none
lower_test v inclusive (some bound) = some (
    MirValue.binary (if inclusive then HirBinaryOp.ge else HirBinaryOp.gt) (MirValue.place v) bound)

unfoldable pub upper_test : Local → Bool → Option MirValue → Option MirValue → Option MirValue
upper_test v inclusive acc none = acc
upper_test v inclusive acc (some bound) = some (
    joined HirBinaryOp.and acc (
      MirValue.binary (if inclusive then HirBinaryOp.le else HirBinaryOp.lt) (MirValue.place v)
        bound))

-- An instruction that writes a new temporary, the value of the expression.
unfoldable pub emit_place : (Local → MirStmt) → Lowering (Option Local)
emit_place instruction = fresh_temp >>= λ tmp. emit (instruction tmp) >> pure (some tmp)

unfoldable pub emit_temp : (Local → MirStmt) → Lowering (Option MirValue)
emit_temp instruction = place_result (emit_place instruction)

unfoldable pub emit_unit : MirStmt → Lowering (Option MirValue)
emit_unit instruction = emit instruction >> pure (some MirValue.unit)

unfoldable pub emit_on : Local → MirStmt → Lowering (Option MirValue)
emit_on p instruction = emit instruction >> pure (some (MirValue.place p))

-- `let`: a binding whose value diverges is not written.
unfoldable pub assign_let : Local → Option MirValue → Lowering Unit
assign_let name none = pure tt
assign_let name (some v) = emit (MirStmt.assign name v)

-- The code after a closed block is skipped.
unfoldable pub unless_closed : Lowering (Option Local) → Lowering (Option Local)
unless_closed m = cur_closed >>= λ closed. if closed then pure none else m

unfoldable pub is_str_scalar : FieldScalar → Bool
is_str_scalar FieldScalar.str = true
is_str_scalar ty = false

unfoldable pub is_ptr_scalar : FieldScalar → Bool
is_ptr_scalar FieldScalar.ptr = true
is_ptr_scalar ty = false
