-- ===== src/Mir/Lower/Sound.antt =====
-- The lowering of scoped code does not panic and keeps the invariant.
use rlyeh_language.Common.{ℕ, zero, suc, Option, none, some}
use rlyeh_language.Hir.{
  HirExpr, HirExprKind, HirExprs, HirOption, HirBlock, HirElse, HirStmts, HirStmt, HirStmtKind,
}
use rlyeh_language.Mir.{Local, MirStmt, MirValue, FieldScalar}
use rlyeh_language.Mir.Lower.{Lowering}
use rlyeh_language.Mir.Lower.Control.{lower_break, lower_continue}
use rlyeh_language.Mir.Lower.Values.{
  emit_place, emit_temp, emit_unit, emit_on, assign_let, unless_closed,
}
use rlyeh_language.Mir.Lower.Expr.{
  lower_value, lower_kind, lower_ref, addr_of, lower_args, lower_members, lower_operand,
  lower_bound, lower_len, lower_block, lower_else, lower_stmts, lower_final, lower_stmt,
}
use rlyeh_language.Mir.Lower.Rules.{Lowers}
use rlyeh_language.Mir.Lower.Keeps.{
  lower_rules, unit_value-Lowers, to_place-Lowers, place_result-Lowers,
}
use rlyeh_language.Mir.Lower.Flow.{
  ElseLowers, lower_if-Lowers, lower_while-Lowers, lower_loop-Lowers, lower_return-Lowers,
  lower_break-Lowers, lower_continue-Lowers, lower_region-Lowers,
}
use rlyeh_language.Mir.Lower.Scopes.{
  InLoop, IsScoped, IsScopedKind, AreScoped, IsScopedOption, IsScopedBlock, IsScopedElse,
  IsScopedStmts, IsScopedStmt,
}

emit_place-Lowers : {n d : ℕ} (i : Local → MirStmt) → Lowers n d d (emit_place i)
unfolding emit_place
emit_place-Lowers i = search lower_rules

emit_temp-Lowers : {n d : ℕ} (i : Local → MirStmt) → Lowers n d d (emit_temp i)
unfolding emit_temp
emit_temp-Lowers i = place_result-Lowers _ (emit_place-Lowers i)

emit_unit-Lowers : {n d : ℕ} (i : MirStmt) → Lowers n d d (emit_unit i)
unfolding emit_unit
emit_unit-Lowers i = search lower_rules

emit_on-Lowers : {n d : ℕ} (p : Local) (i : MirStmt) → Lowers n d d (emit_on p i)
unfolding emit_on
emit_on-Lowers p i = search lower_rules

assign_let-Lowers :
    {n d : ℕ} (name : Local) (o : Option MirValue) → Lowers n d d (assign_let name o)
unfolding assign_let
assign_let-Lowers name none = search lower_rules
assign_let-Lowers name (some v) = search lower_rules

unless_closed-Lowers :
    {n d : ℕ} (m : Lowering (Option Local))
    → ((k : ℕ) → Lowers k d d m)
    → Lowers n d d (unless_closed m)
unfolding unless_closed
unless_closed-Lowers m h = search lower_rules

lower_break-InLoop :
    {n : ℕ} (d : ℕ) (value : Lowering (Option Local))
    → InLoop d
    → Lowers n d d value
    → Lowers n d d (lower_break value)
lower_break-InLoop zero value h works = absurd h
lower_break-InLoop (suc d) value h works = lower_break-Lowers value works

lower_continue-InLoop : {n : ℕ} (d : ℕ) → InLoop d → Lowers n d d lower_continue
lower_continue-InLoop zero h = absurd h
lower_continue-InLoop (suc d) h = lower_continue-Lowers

ruleset value_rules = (
  lower_rules, to_place-Lowers, place_result-Lowers, unit_value-Lowers, emit_place-Lowers,
  emit_temp-Lowers, emit_unit-Lowers, emit_on-Lowers, assign_let-Lowers, unless_closed-Lowers,
  lower_if-Lowers, lower_while-Lowers, lower_loop-Lowers, lower_return-Lowers, lower_break-InLoop,
  lower_continue-InLoop, lower_region-Lowers,
)

mutual
  unfolding lower_value lower_kind lower_ref addr_of lower_args lower_members lower_operand
      lower_bound lower_len lower_block lower_else lower_stmts lower_final lower_stmt IsScoped
      IsScopedKind AreScoped IsScopedOption IsScopedBlock IsScopedElse IsScopedStmts IsScopedStmt

  lower_value-Lowers : {d : ℕ} (e : HirExpr) → IsScoped d e → (n : ℕ) → Lowers n d d (lower_value e)
  lower_value-Lowers (HirExpr.expr k sp) h n = lower_kind-Lowers k h n

  lower_kind-Lowers :
      {d : ℕ} (k : HirExprKind) → IsScopedKind d k → (n : ℕ) → Lowers n d d (lower_kind k)
  lower_kind-Lowers (HirExprKind.set_variable target op value) h n =
      search (value_rules, lower_value-Lowers value h)
  lower_kind-Lowers (HirExprKind.binary op l r) h n =
      search (value_rules, lower_value-Lowers l h.0, lower_value-Lowers r h.1)
  lower_kind-Lowers (HirExprKind.unary op e) h n = search (value_rules, lower_value-Lowers e h)
  lower_kind-Lowers (HirExprKind.ref e is_mut pointee) h n =
      lower_ref-Lowers e h _ (λ k. to_place-Lowers _ (lower_value-Lowers e h k)) pointee n
  lower_kind-Lowers (HirExprKind.deref e ty) h n = search (value_rules, lower_value-Lowers e h)
  lower_kind-Lowers (HirExprKind.deref_set base value ty) h n =
      search (value_rules, lower_value-Lowers base h.0, lower_value-Lowers value h.1)
  lower_kind-Lowers (HirExprKind.ptr_add base offset elem) h n =
      search (value_rules, lower_value-Lowers base h.0, lower_value-Lowers offset h.1)
  lower_kind-Lowers (HirExprKind.cast e to) h n = search (value_rules, lower_value-Lowers e h)
  lower_kind-Lowers (HirExprKind.set_lookup value members negated) h n =
      search (value_rules, lower_value-Lowers value h.0, lower_members-Lowers members h.1)
  lower_kind-Lowers (HirExprKind.range_check value lower upper li ui negated) h n = search (
    value_rules,
    lower_value-Lowers value h.0,
    lower_bound-Lowers lower h.1,
    lower_bound-Lowers upper h.2,
  )
  lower_kind-Lowers (HirExprKind.if_else cond then_block else_block) h n =
      lower_if-Lowers _ _ _ (λ k. to_place-Lowers _ (lower_value-Lowers cond h.0 k))
        (lower_block-Lowers then_block h.1) (lower_else-Lowers _ else_block h.2)
  lower_kind-Lowers (HirExprKind.block_expr b) h n = search (value_rules, lower_block-Lowers b h)
  lower_kind-Lowers (HirExprKind.unsafe_block b) h n = search (value_rules, lower_block-Lowers b h)
  lower_kind-Lowers (HirExprKind.call callee args) h n =
      search (value_rules, lower_args-Lowers args h)
  lower_kind-Lowers (HirExprKind.call_indirect callee args param_names ret_name) h n =
      search (value_rules, lower_value-Lowers callee h.0, lower_args-Lowers args h.1)
  lower_kind-Lowers (HirExprKind.while_loop cond body) h n =
      search (value_rules, lower_value-Lowers cond h.0, lower_block-Lowers body h.1)
  lower_kind-Lowers (HirExprKind.loop body) h n = search (value_rules, lower_block-Lowers body h)
  lower_kind-Lowers (HirExprKind.return_expr e) h n = search (value_rules, lower_operand-Lowers e h)
  lower_kind-Lowers {d = d} (HirExprKind.break_expr e) h n =
      lower_break-InLoop d _ h.0 (lower_operand-Lowers e h.1 n)
  lower_kind-Lowers {d = d} HirExprKind.continue_expr h n = lower_continue-InLoop d h
  lower_kind-Lowers (HirExprKind.region name options body) h n =
      search (value_rules, lower_block-Lowers body h)
  lower_kind-Lowers (HirExprKind.in_region e region_name size) h n =
      search (value_rules, lower_value-Lowers e h)
  lower_kind-Lowers (HirExprKind.transfer e region_name) h n =
      search (value_rules, lower_value-Lowers e h)
  lower_kind-Lowers (HirExprKind.field_get base index ty) h n =
      search (value_rules, lower_value-Lowers base h)
  lower_kind-Lowers (HirExprKind.field_set base index value ty) h n =
      search (value_rules, lower_value-Lowers base h.0, lower_value-Lowers value h.1)
  lower_kind-Lowers (HirExprKind.index_get base index elem is_str len) h n = search (
    value_rules,
    lower_value-Lowers base h.0,
    lower_value-Lowers index h.1,
    lower_len-Lowers len h.2,
  )
  lower_kind-Lowers (HirExprKind.index_set base index value elem is_str len) h n = search (
    value_rules,
    lower_value-Lowers base h.0,
    lower_value-Lowers index h.1,
    lower_value-Lowers value h.2,
    lower_len-Lowers len h.3,
  )
  lower_kind-Lowers k h n = search value_rules

  lower_ref-Lowers :
      {d : ℕ} (e : HirExpr)
      → IsScoped d e
      → (whole : Lowering (Option Local)) → ((k : ℕ) → Lowers k d d whole)
      → (pointee : FieldScalar) (n : ℕ) → Lowers n d d (lower_ref e whole pointee)
  lower_ref-Lowers (HirExpr.expr (HirExprKind.deref inner ty) sp) h whole hw pointee n =
      search (value_rules, lower_value-Lowers inner h)
  lower_ref-Lowers (HirExpr.expr (HirExprKind.field_get base index ty) sp) h whole hw pointee n =
      search (value_rules, lower_value-Lowers base h)
  lower_ref-Lowers (HirExpr.expr (HirExprKind.index_get base index elem is_str len) sp) h whole hw
        pointee n =
      search (
        value_rules,
        addr_of-Lowers base h.0 _ (λ k. to_place-Lowers _ (lower_value-Lowers base h.0 k)),
        lower_value-Lowers index h.1,
      )
  lower_ref-Lowers e h whole hw pointee n = search value_rules

  addr_of-Lowers :
      {d : ℕ} (e : HirExpr)
      → IsScoped d e
      → (whole : Lowering (Option Local)) → ((k : ℕ) → Lowers k d d whole)
      → (n : ℕ) → Lowers n d d (addr_of e whole)
  addr_of-Lowers (HirExpr.expr (HirExprKind.deref inner ty) sp) h whole hw n =
      search (value_rules, lower_value-Lowers inner h)
  addr_of-Lowers (HirExpr.expr (HirExprKind.field_get base index ty) sp) h whole hw n =
      search (value_rules, lower_value-Lowers base h)
  addr_of-Lowers e h whole hw n = search value_rules

  lower_args-Lowers :
      {d : ℕ} (es : HirExprs) → AreScoped d es → (n : ℕ) → Lowers n d d (lower_args es)
  lower_args-Lowers HirExprs.no_more h n = search value_rules
  lower_args-Lowers (HirExprs.more e es) h n =
      search (value_rules, lower_value-Lowers e h.0, lower_args-Lowers es h.1)

  lower_members-Lowers :
      {d : ℕ} (es : HirExprs)
      → AreScoped d es
      → (v : Local) (acc : Option MirValue) (n : ℕ) → Lowers n d d (lower_members v acc es)
  lower_members-Lowers HirExprs.no_more h v acc n = search value_rules
  lower_members-Lowers (HirExprs.more e es) h v acc n =
      search (value_rules, lower_value-Lowers e h.0, lower_members-Lowers es h.1)

  lower_operand-Lowers :
      {d : ℕ} (o : HirOption) → IsScopedOption d o → (n : ℕ) → Lowers n d d (lower_operand o)
  lower_operand-Lowers HirOption.absent h n = search value_rules
  lower_operand-Lowers (HirOption.present e) h n = search (value_rules, lower_value-Lowers e h)

  lower_bound-Lowers :
      {d : ℕ} (o : HirOption) → IsScopedOption d o → (n : ℕ) → Lowers n d d (lower_bound o)
  lower_bound-Lowers HirOption.absent h n = search value_rules
  lower_bound-Lowers (HirOption.present e) h n = search (value_rules, lower_value-Lowers e h)

  lower_len-Lowers :
      {d : ℕ} (o : HirOption) → IsScopedOption d o → (n : ℕ) → Lowers n d d (lower_len o)
  lower_len-Lowers HirOption.absent h n = search value_rules
  lower_len-Lowers (HirOption.present e) h n = search (value_rules, lower_value-Lowers e h)

  pub lower_block-Lowers :
      {d : ℕ} (b : HirBlock) → IsScopedBlock d b → (n : ℕ) → Lowers n d d (lower_block b)
  lower_block-Lowers (HirBlock.block ss final sp) h n =
      lower_stmts-Lowers ss h.0 _ (lower_final-Lowers final h.1) n

  lower_else-Lowers : (d : ℕ) (b : HirElse) → IsScopedElse d b → ElseLowers d (lower_else b)
  lower_else-Lowers d HirElse.no_else h = tt
  lower_else-Lowers d (HirElse.else_branch b) h = lower_block-Lowers b h

  lower_stmts-Lowers :
      {d : ℕ} (ss : HirStmts)
      → IsScopedStmts d ss
      → (final : Lowering (Option Local)) → ((k : ℕ) → Lowers k d d final)
      → (n : ℕ) → Lowers n d d (lower_stmts ss final)
  lower_stmts-Lowers HirStmts.done h final hf n = search value_rules
  lower_stmts-Lowers (HirStmts.then_stmt s ss) h final hf n =
      search (value_rules, lower_stmt-Lowers s h.0, lower_stmts-Lowers ss h.1 final hf)

  lower_final-Lowers :
      {d : ℕ} (o : HirOption) → IsScopedOption d o → (n : ℕ) → Lowers n d d (lower_final o)
  lower_final-Lowers HirOption.absent h n = search value_rules
  lower_final-Lowers (HirOption.present e) h n = search (value_rules, lower_value-Lowers e h)

  lower_stmt-Lowers :
      {d : ℕ} (s : HirStmt) → IsScopedStmt d s → (n : ℕ) → Lowers n d d (lower_stmt s)
  lower_stmt-Lowers (HirStmt.stmt (HirStmtKind.let_stmt name init mutable) sp) h n =
      search (value_rules, lower_value-Lowers init h)
  lower_stmt-Lowers (HirStmt.stmt (HirStmtKind.expr_stmt e) sp) h n =
      search (value_rules, lower_value-Lowers e h)
  lower_stmt-Lowers (HirStmt.stmt (HirStmtKind.semi e) sp) h n =
      search (value_rules, lower_value-Lowers e h)
