-- ===== src/Mir/Lower/Expr.antt =====
-- crates/rlyeh-mir/src/lower.rs: lower_value, lower_expr, addr_of, lower_block and lower_stmt.
use rlyeh_language.Common.{true, false, Option, none, some, List, [], ◌∷◌, if◌then◌else◌}
use rlyeh_language.Hir.{
  HirExpr, HirExprKind, HirExprs, HirOption, HirBlock, HirElse, HirStmts, HirStmt, HirStmtKind,
}
use rlyeh_language.Mir.{Local, MirStmt, MirValue, FieldScalar, HirBinaryOp}
use rlyeh_language.Mir.Lower.{Lowering, pure, ◌>>=◌, ◌>>◌, ◌>>?◌}
use rlyeh_language.Mir.Lower.Control.{
  to_place, unit_value, place_result, lower_if, lower_while, lower_loop, lower_return, lower_break,
  lower_continue, lower_region,
}
use rlyeh_language.Mir.Lower.Values.{
  assigned_value, joined, whole_test, lower_test, upper_test, emit_place, emit_temp, emit_unit,
  emit_on, assign_let, unless_closed, is_str_scalar, is_ptr_scalar,
}

-- lower_ref and addr_of take the lowering of the whole expression beside the expression.
unfoldable mutual
  pub lower_value : HirExpr → Lowering (Option MirValue)
  lower_value (HirExpr.expr k sp) = lower_kind k

  pub lower_kind : HirExprKind → Lowering (Option MirValue)
  lower_kind (HirExprKind.int_literal v) = pure (some (MirValue.int v))
  lower_kind (HirExprKind.float_literal v) = pure (some (MirValue.float v))
  lower_kind (HirExprKind.string_literal s) = pure (some (MirValue.string s))
  lower_kind (HirExprKind.char_literal c) = pure (some (MirValue.char c))
  lower_kind (HirExprKind.bool_literal b) = pure (some (MirValue.bool b))
  lower_kind (HirExprKind.variable v) = pure (some (MirValue.place v))
  lower_kind (HirExprKind.set_variable target op value) = to_place (lower_value value) >>? λ v.
      emit_unit (MirStmt.assign target (assigned_value op target v))
  lower_kind (HirExprKind.binary op l r) =
      lower_value l >>? λ lv. lower_value r >>? λ rv. pure (some (MirValue.binary op lv rv))
  lower_kind (HirExprKind.unary op e) = lower_value e >>? λ v. pure (some (MirValue.unary op v))
  lower_kind (HirExprKind.ref e is_mut pointee) = lower_ref e (to_place (lower_value e)) pointee
  lower_kind (HirExprKind.deref e ty) =
      to_place (lower_value e) >>? λ b. emit_temp (λ tmp. MirStmt.deref_read tmp b ty)
  lower_kind (HirExprKind.deref_set base value ty) = to_place (lower_value base) >>? λ b.
      to_place (lower_value value) >>? λ v. emit_unit (MirStmt.deref_write b v ty)
  lower_kind (HirExprKind.ptr_add base offset elem) = to_place (lower_value base) >>? λ b.
      to_place (lower_value offset) >>? λ o.
      emit_temp (λ tmp. MirStmt.ptr_add tmp b o elem (is_str_scalar elem))
  lower_kind (HirExprKind.cast e to) =
      to_place (lower_value e) >>? λ v. emit_temp (λ tmp. MirStmt.cast tmp v to)
  lower_kind (HirExprKind.set_lookup value members negated) = to_place (lower_value value) >>? λ v.
      lower_members v none members >>? λ acc. pure (some (whole_test negated false acc))
  lower_kind (HirExprKind.range_check value lower upper lower_inclusive upper_inclusive negated) =
      to_place (lower_value value) >>? λ v. lower_bound lower >>? λ l. lower_bound upper >>? λ u.
      pure (
        some (
          whole_test negated true
            (upper_test v upper_inclusive (lower_test v lower_inclusive l) u)))
  lower_kind (HirExprKind.if_else cond then_block else_block) =
      lower_if (to_place (lower_value cond)) (lower_block then_block) (lower_else else_block)
  lower_kind (HirExprKind.block_expr b) = place_result (lower_block b)
  lower_kind (HirExprKind.unsafe_block b) = place_result (lower_block b)
  lower_kind (HirExprKind.call callee args) =
      lower_args args >>? λ arg_places. emit_temp (λ tmp. MirStmt.call (some tmp) callee arg_places)
  lower_kind (HirExprKind.fn_ptr name) = pure (some (MirValue.fn_ref name))
  lower_kind (HirExprKind.call_indirect callee args param_names ret_name) =
      to_place (lower_value callee) >>? λ callee_place. lower_args args >>? λ arg_places.
      emit_temp
        (λ tmp. MirStmt.call_indirect (some tmp) callee_place arg_places param_names ret_name)
  lower_kind (HirExprKind.while_loop cond body) =
      lower_while (to_place (lower_value cond)) (lower_block body)
  lower_kind (HirExprKind.loop body) = lower_loop (lower_block body)
  lower_kind (HirExprKind.return_expr e) = lower_return (lower_operand e)
  lower_kind (HirExprKind.break_expr e) = lower_break (lower_operand e)
  lower_kind HirExprKind.continue_expr = lower_continue
  lower_kind (HirExprKind.region name options body) = lower_region name options (lower_block body)
  lower_kind (HirExprKind.in_region e region_name size) =
      to_place (lower_value e) >>? λ val. emit_on val (MirStmt.alloc_in_region val region_name size)
  lower_kind (HirExprKind.transfer e region_name) =
      to_place (lower_value e) >>? λ val. emit_on val (MirStmt.transfer val region_name)
  lower_kind HirExprKind.unit = pure (some MirValue.unit)
  lower_kind (HirExprKind.alloc slots by_value is_strfat) =
      emit_temp (λ tmp. MirStmt.alloc tmp slots by_value is_strfat)
  lower_kind (HirExprKind.field_get base index ty) =
      to_place (lower_value base) >>? λ b. emit_temp (λ tmp. MirStmt.field_get tmp b index ty)
  lower_kind (HirExprKind.field_set base index value ty) = to_place (lower_value base) >>? λ b.
      to_place (lower_value value) >>? λ v. emit_unit (MirStmt.field_set b index v ty)
  lower_kind (HirExprKind.index_get base index elem is_str len) =
      to_place (lower_value base) >>? λ b. to_place (lower_value index) >>? λ i.
      lower_len len >>? λ ln. emit_temp (λ tmp. MirStmt.index_get tmp b i elem is_str ln)
  lower_kind (HirExprKind.index_set base index value elem is_str len) =
      to_place (lower_value base) >>? λ b. to_place (lower_value index) >>? λ i.
      to_place (lower_value value) >>? λ v.
      lower_len len >>? λ ln. emit_unit (MirStmt.index_set b i v elem is_str ln)

  pub lower_ref : HirExpr → Lowering (Option Local) → FieldScalar → Lowering (Option MirValue)
  lower_ref (HirExpr.expr (HirExprKind.deref inner ty) sp) whole pointee =
      place_result (to_place (lower_value inner))
  lower_ref (HirExpr.expr (HirExprKind.field_get base index ty) sp) whole pointee =
      to_place (lower_value base) >>? λ b. emit_temp (λ tmp. MirStmt.addr_of_field tmp b index ty)
  lower_ref (HirExpr.expr (HirExprKind.index_get base index elem is_str len) sp) whole pointee =
      addr_of base (to_place (lower_value base)) >>? λ b.
      to_place (lower_value index) >>? λ i. emit_temp (λ tmp. MirStmt.ptr_add tmp b i elem is_str)
  lower_ref e whole pointee = whole >>? λ o. emit_temp (λ tmp. MirStmt.addr_of tmp o pointee)

  pub addr_of : HirExpr → Lowering (Option Local) → Lowering (Option Local)
  addr_of (HirExpr.expr (HirExprKind.deref inner ty) sp) whole = to_place (lower_value inner)
  addr_of (HirExpr.expr (HirExprKind.variable v) sp) whole =
      emit_place (λ tmp. MirStmt.addr_of tmp v FieldScalar.ptr)
  addr_of (HirExpr.expr (HirExprKind.field_get base index ty) sp) whole =
      if is_ptr_scalar ty
      then whole
      else (to_place (lower_value base) >>? λ b.
          emit_place (λ tmp. MirStmt.addr_of_field tmp b index ty))
  addr_of e whole = whole >>? λ o. emit_place (λ tmp. MirStmt.addr_of tmp o FieldScalar.ptr)

  pub lower_args : HirExprs → Lowering (Option (List Local))
  lower_args HirExprs.no_more = pure (some [])
  lower_args (HirExprs.more e es) =
      to_place (lower_value e) >>? λ p. lower_args es >>? λ ps. pure (some (p ∷ ps))

  pub lower_members : Local → Option MirValue → HirExprs → Lowering (Option (Option MirValue))
  lower_members v acc HirExprs.no_more = pure (some acc)
  lower_members v acc (HirExprs.more m ms) = lower_value m >>? λ mv.
      lower_members v
        (some (joined HirBinaryOp.or acc (MirValue.binary HirBinaryOp.eq (MirValue.place v) mv))) ms

  pub lower_operand : HirOption → Lowering (Option Local)
  lower_operand HirOption.absent = pure none
  lower_operand (HirOption.present e) = to_place (lower_value e)

  pub lower_bound : HirOption → Lowering (Option (Option MirValue))
  lower_bound HirOption.absent = pure (some none)
  lower_bound (HirOption.present e) = lower_value e >>? λ v. pure (some (some v))

  pub lower_len : HirOption → Lowering (Option (Option Local))
  lower_len HirOption.absent = pure (some none)
  lower_len (HirOption.present e) = to_place (lower_value e) >>? λ p. pure (some (some p))

  pub lower_block : HirBlock → Lowering (Option Local)
  lower_block (HirBlock.block ss final sp) = lower_stmts ss (lower_final final)

  pub lower_else : HirElse → Option (Lowering (Option Local))
  lower_else HirElse.no_else = none
  lower_else (HirElse.else_branch b) = some (lower_block b)

  pub lower_stmts : HirStmts → Lowering (Option Local) → Lowering (Option Local)
  lower_stmts HirStmts.done final = unless_closed final
  lower_stmts (HirStmts.then_stmt s ss) final = unless_closed (lower_stmt s >> lower_stmts ss final)

  pub lower_final : HirOption → Lowering (Option Local)
  lower_final HirOption.absent = unit_value
  lower_final (HirOption.present e) = to_place (lower_value e)

  pub lower_stmt : HirStmt → Lowering Unit
  lower_stmt (HirStmt.stmt (HirStmtKind.let_stmt name init mutable) sp) =
      lower_value init >>= assign_let name
  lower_stmt (HirStmt.stmt (HirStmtKind.expr_stmt e) sp) = lower_value e >> pure tt
  lower_stmt (HirStmt.stmt (HirStmtKind.semi e) sp) = lower_value e >> pure tt
