-- ===== src/Mir/Lower/Scopes.antt =====
-- Code whose `break` and `continue` stand inside loops, as type checking leaves it; in `IsScoped d`
-- the code has `d` loops around it.
use rlyeh_language.Common.{ℕ, zero, suc, Option, none, some, All}
use rlyeh_language.Hir.{
  HirExpr, HirExprKind, HirExprs, HirOption, HirBlock, HirElse, HirStmts, HirStmt, HirStmtKind,
  HirItemKind, HirProgram,
}

abbrev pub InLoop : ℕ → Type 0
InLoop zero = ⊥
InLoop (suc d) = Unit

unfoldable mutual
  pub IsScoped : ℕ → HirExpr → Type 0
  IsScoped d (HirExpr.expr k sp) = IsScopedKind d k

  pub IsScopedKind : ℕ → HirExprKind → Type 0
  IsScopedKind d (HirExprKind.int_literal v) = Unit
  IsScopedKind d (HirExprKind.float_literal v) = Unit
  IsScopedKind d (HirExprKind.string_literal v) = Unit
  IsScopedKind d (HirExprKind.char_literal v) = Unit
  IsScopedKind d (HirExprKind.bool_literal v) = Unit
  IsScopedKind d (HirExprKind.variable v) = Unit
  IsScopedKind d (HirExprKind.set_variable target op value) = IsScoped d value
  IsScopedKind d (HirExprKind.binary op l r) = IsScoped d l × IsScoped d r
  IsScopedKind d (HirExprKind.unary op e) = IsScoped d e
  IsScopedKind d (HirExprKind.ref e is_mut pointee) = IsScoped d e
  IsScopedKind d (HirExprKind.deref e ty) = IsScoped d e
  IsScopedKind d (HirExprKind.deref_set base value ty) = IsScoped d base × IsScoped d value
  IsScopedKind d (HirExprKind.ptr_add base offset elem) = IsScoped d base × IsScoped d offset
  IsScopedKind d (HirExprKind.cast e to) = IsScoped d e
  IsScopedKind d (HirExprKind.set_lookup value members negated) =
      IsScoped d value × AreScoped d members
  IsScopedKind d (HirExprKind.range_check value lower upper li ui negated) =
      IsScoped d value × IsScopedOption d lower × IsScopedOption d upper
  IsScopedKind d (HirExprKind.if_else cond then_block else_block) =
      IsScoped d cond × IsScopedBlock d then_block × IsScopedElse d else_block
  IsScopedKind d (HirExprKind.block_expr b) = IsScopedBlock d b
  IsScopedKind d (HirExprKind.unsafe_block b) = IsScopedBlock d b
  IsScopedKind d (HirExprKind.call callee args) = AreScoped d args
  IsScopedKind d (HirExprKind.fn_ptr name) = Unit
  IsScopedKind d (HirExprKind.call_indirect callee args param_names ret_name) =
      IsScoped d callee × AreScoped d args
  IsScopedKind d (HirExprKind.while_loop cond body) = IsScoped d cond × IsScopedBlock (suc d) body
  IsScopedKind d (HirExprKind.loop body) = IsScopedBlock (suc d) body
  IsScopedKind d (HirExprKind.return_expr e) = IsScopedOption d e
  IsScopedKind d (HirExprKind.break_expr e) = InLoop d × IsScopedOption d e
  IsScopedKind d HirExprKind.continue_expr = InLoop d
  IsScopedKind d (HirExprKind.region name options body) = IsScopedBlock d body
  IsScopedKind d (HirExprKind.in_region e region_name size) = IsScoped d e
  IsScopedKind d (HirExprKind.transfer e region_name) = IsScoped d e
  IsScopedKind d HirExprKind.unit = Unit
  IsScopedKind d (HirExprKind.alloc slots by_value is_strfat) = Unit
  IsScopedKind d (HirExprKind.field_get base index ty) = IsScoped d base
  IsScopedKind d (HirExprKind.field_set base index value ty) = IsScoped d base × IsScoped d value
  IsScopedKind d (HirExprKind.index_get base index elem is_str len) =
      IsScoped d base × IsScoped d index × IsScopedOption d len
  IsScopedKind d (HirExprKind.index_set base index value elem is_str len) =
      IsScoped d base × IsScoped d index × IsScoped d value × IsScopedOption d len

  pub AreScoped : ℕ → HirExprs → Type 0
  AreScoped d HirExprs.no_more = Unit
  AreScoped d (HirExprs.more e es) = IsScoped d e × AreScoped d es

  pub IsScopedOption : ℕ → HirOption → Type 0
  IsScopedOption d HirOption.absent = Unit
  IsScopedOption d (HirOption.present e) = IsScoped d e

  pub IsScopedBlock : ℕ → HirBlock → Type 0
  IsScopedBlock d (HirBlock.block ss final sp) = IsScopedStmts d ss × IsScopedOption d final

  pub IsScopedElse : ℕ → HirElse → Type 0
  IsScopedElse d HirElse.no_else = Unit
  IsScopedElse d (HirElse.else_branch b) = IsScopedBlock d b

  pub IsScopedStmts : ℕ → HirStmts → Type 0
  IsScopedStmts d HirStmts.done = Unit
  IsScopedStmts d (HirStmts.then_stmt s ss) = IsScopedStmt d s × IsScopedStmts d ss

  pub IsScopedStmt : ℕ → HirStmt → Type 0
  IsScopedStmt d (HirStmt.stmt (HirStmtKind.let_stmt name init mutable) sp) = IsScoped d init
  IsScopedStmt d (HirStmt.stmt (HirStmtKind.expr_stmt e) sp) = IsScoped d e
  IsScopedStmt d (HirStmt.stmt (HirStmtKind.semi e) sp) = IsScoped d e

abbrev pub IsScopedBody : Option HirBlock → Type 0
IsScopedBody none = Unit
IsScopedBody (some body) = IsScopedBlock 0 body

abbrev pub IsScopedItem : HirItemKind → Type 0
IsScopedItem (HirItemKind.fn f) = IsScopedBody f.body
IsScopedItem (HirItemKind.constant c) = Unit

abbrev pub IsScopedProgram : HirProgram → Type 0
IsScopedProgram p = All (λ item. IsScopedItem item.kind) p.items
