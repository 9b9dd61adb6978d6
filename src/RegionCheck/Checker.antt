-- ===== src/RegionCheck/Checker.antt =====
-- crates/rlyeh-regionck/src/checker.rs: the walk over the program.
use Prim.Native.String.{String}
use rlyeh_language.Common.{Option, none, some, List, [], ◌∷◌, if◌then◌else◌}
use rlyeh_language.Hir.{
  Span, HirExpr, HirExprKind, HirExprs, HirOption, HirBlock, HirElse, HirStmts, HirStmt,
  HirStmtKind, HirItemKind, HirItem, HirProgram,
}
use rlyeh_language.RegionCheck.{
  RegionError, RegionChecker, insert, leave_region, region_in_scope, push_error, not_found,
  check_transfer, region_name,
}

unfoldable pub at_span : Span → RegionChecker → RegionChecker
at_span sp s = record s { cur_span = sp }

-- `x` is placed in the region, if that is visible.
unfoldable pub place_in : String → String → RegionChecker → RegionChecker
place_in x region s =
    if region_in_scope s region then record s { allocated = insert x region s.allocated } else s

unfoldable pub note_let : String → HirExpr → RegionChecker → RegionChecker
note_let name (HirExpr.expr (HirExprKind.in_region e region size) sp) s = place_in name region s
note_let name init s = s

unfoldable pub note_in_region : HirExpr → String → RegionChecker → RegionChecker
note_in_region (HirExpr.expr (HirExprKind.variable v) sp) region s =
    if region_in_scope s region
    then record s { allocated = insert v region s.allocated }
    else push_error (not_found region s.cur_span) s
note_in_region e region s =
    if region_in_scope s region then s else push_error (not_found region s.cur_span) s

unfoldable pub note_transfer : HirExpr → String → RegionChecker → RegionChecker
note_transfer (HirExpr.expr (HirExprKind.variable v) sp) region s = check_transfer v region s
note_transfer e region s =
    push_error
      (RegionError.partial_transfer
        "cannot statically determine the owning region of the transferred value" s.cur_span.line
        s.cur_span.col [])
      s

unfoldable pub enter_region : String → Span → RegionChecker → RegionChecker
enter_region key sp s = record s {
  region_spans = insert key sp s.region_spans;
  active_regions = key ∷ s.active_regions;
}

abbrev pub tail : List String → List String
tail [] = []
tail (x ∷ xs) = xs

unfoldable pub exit_region : String → RegionChecker → RegionChecker
exit_region key s = record s {
  active_regions = tail s.active_regions;
  allocated = leave_region key s.allocated;
}

unfoldable pub name_region : Option String → RegionChecker → String × RegionChecker
name_region name s =
    let (key, counter) = region_name name s.anon_counter in
    (key, record s { anon_counter = counter })

unfoldable mutual
  pub check_expr : HirExpr → RegionChecker → RegionChecker
  check_expr (HirExpr.expr k sp) s = check_kind k sp (at_span sp s)

  pub check_kind : HirExprKind → Span → RegionChecker → RegionChecker
  check_kind (HirExprKind.region name options body) sp s =
      let (key, s') = name_region name s in
      exit_region key (check_block body (enter_region key sp s'))
  check_kind (HirExprKind.in_region e region size) sp s = note_in_region e region (check_expr e s)
  check_kind (HirExprKind.transfer e region) sp s = note_transfer e region (check_expr e s)
  check_kind (HirExprKind.set_variable target op value) sp s = check_expr value s
  check_kind (HirExprKind.binary op l r) sp s = check_expr r (check_expr l s)
  check_kind (HirExprKind.unary op e) sp s = check_expr e s
  check_kind (HirExprKind.set_lookup value members negated) sp s = check_expr value s
  check_kind (HirExprKind.range_check value lower upper li ui negated) sp s =
      check_option upper (check_option lower (check_expr value s))
  check_kind (HirExprKind.if_else cond then_block else_block) sp s =
      check_else else_block (check_block then_block (check_expr cond s))
  check_kind (HirExprKind.block_expr b) sp s = check_block b s
  check_kind (HirExprKind.unsafe_block b) sp s = check_block b s
  check_kind (HirExprKind.while_loop cond body) sp s = check_block body (check_expr cond s)
  check_kind (HirExprKind.loop body) sp s = check_block body s
  check_kind (HirExprKind.call callee args) sp s = check_exprs args s
  check_kind (HirExprKind.fn_ptr name) sp s = s
  check_kind (HirExprKind.call_indirect callee args param_names ret_name) sp s =
      check_exprs args (check_expr callee s)
  check_kind (HirExprKind.return_expr e) sp s = check_option e s
  check_kind (HirExprKind.break_expr e) sp s = check_option e s
  check_kind (HirExprKind.field_get base index ty) sp s = check_expr base s
  check_kind (HirExprKind.field_set base index value ty) sp s = check_expr value (check_expr base s)
  check_kind (HirExprKind.index_get base index elem is_str len) sp s =
      check_expr index (check_expr base s)
  check_kind (HirExprKind.index_set base index value elem is_str len) sp s =
      check_expr value (check_expr index (check_expr base s))
  check_kind (HirExprKind.ref e is_mut pointee) sp s = check_expr e s
  check_kind (HirExprKind.ptr_add base offset elem) sp s = check_expr offset (check_expr base s)
  check_kind (HirExprKind.cast e to) sp s = check_expr e s
  check_kind (HirExprKind.deref e ty) sp s = check_expr e s
  check_kind (HirExprKind.deref_set base value ty) sp s = check_expr value (check_expr base s)
  check_kind k sp s = s

  pub check_exprs : HirExprs → RegionChecker → RegionChecker
  check_exprs HirExprs.no_more s = s
  check_exprs (HirExprs.more e es) s = check_exprs es (check_expr e s)

  pub check_option : HirOption → RegionChecker → RegionChecker
  check_option HirOption.absent s = s
  check_option (HirOption.present e) s = check_expr e s

  pub check_else : HirElse → RegionChecker → RegionChecker
  check_else HirElse.no_else s = s
  check_else (HirElse.else_branch b) s = check_block b s

  pub check_block : HirBlock → RegionChecker → RegionChecker
  check_block (HirBlock.block ss final sp) s = check_option final (check_stmts ss (at_span sp s))

  pub check_stmts : HirStmts → RegionChecker → RegionChecker
  check_stmts HirStmts.done s = s
  check_stmts (HirStmts.then_stmt x xs) s = check_stmts xs (check_stmt x s)

  pub check_stmt : HirStmt → RegionChecker → RegionChecker
  check_stmt (HirStmt.stmt (HirStmtKind.let_stmt name init mutable) sp) s =
      note_let name init (check_expr init (at_span sp s))
  check_stmt (HirStmt.stmt (HirStmtKind.expr_stmt e) sp) s = check_expr e (at_span sp s)
  check_stmt (HirStmt.stmt (HirStmtKind.semi e) sp) s = check_expr e (at_span sp s)

unfoldable pub check_body : Option HirBlock → Span → RegionChecker → RegionChecker
check_body none sp s = s
check_body (some body) sp s = check_block body (at_span sp s)

unfoldable pub check_item : HirItemKind → Span → RegionChecker → RegionChecker
check_item (HirItemKind.fn f) sp s = check_body f.body sp s
check_item (HirItemKind.constant c) sp s = s

unfoldable pub check_items : List HirItem → RegionChecker → RegionChecker
check_items [] s = s
check_items (item ∷ items) s = check_items items (check_item item.kind item.span s)

-- `Result<(), Vec<RegionError>>`.
pub data CheckResult : Type 0 where
  passed : CheckResult
  refused : List RegionError → CheckResult

-- The result, and the checker, whose errors are taken.
unfoldable pub check_program : HirProgram → RegionChecker → CheckResult × RegionChecker
check_program p s =
    let s' = check_items p.items s in
    elim s'.errors [ [] ↦ (passed, s') | e ∷ es ↦ (refused (e ∷ es), record s' { errors = [] }) ]
