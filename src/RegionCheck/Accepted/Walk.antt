-- ===== src/RegionCheck/Accepted/Walk.antt =====
-- The walk over a program follows the transfers that it writes.
use rlyeh_language.Common.{false, ◌≡◌, refl, ap, subst, List, [], ◌∷◌, ◌++◌}
use rlyeh_language.Hir.{
  Span, HirExpr, HirExprKind, HirExprs, HirOption, HirBlock, HirElse, HirStmts, HirStmt,
  HirStmtKind,
}
use rlyeh_language.RegionCheck.{RegionChecker}
use rlyeh_language.RegionCheck.Transfers.{
  Site, transfers, transfers_kind, transfers_args, transfers_option, transfers_else,
  transfers_block, transfers_stmts, transfers_stmt,
}
use rlyeh_language.RegionCheck.Checker.{
  check_expr, check_kind, check_exprs, check_option, check_else, check_block, check_stmts,
  check_stmt, at_span,
}
use rlyeh_language.RegionCheck.Follows.{Follows, Follows-none, Follows-span, Follows-append}
use rlyeh_language.RegionCheck.Accepted.{
  note_transfer-Follows, note_let-Follows, note_in_region-Follows, Follows-region,
}

append_empty : (ts : List Site) → (ts ++ []) ≡ ts
append_empty [] = refl
append_empty (t ∷ ts) = ap (λ us. t ∷ us) (append_empty ts)

-- Two steps of the walk, of which the second one makes no transfer.
Follows-quiet :
    (ts : List Site) (s s' s'' : RegionChecker)
    → Follows ts s s'
    → Follows [] s' s''
    → Follows ts s s''
Follows-quiet ts s s' s'' f g =
    subst (λ us. Follows us s s'') (append_empty ts) (Follows-append ts [] s s' s'' f g)

-- Two steps of the walk.
pub walk :
    {ts us : List Site} {s s' s'' : RegionChecker}
    → Follows ts s s'
    → Follows us s' s''
    → Follows (ts ++ us) s s''
walk f g = Follows-append _ _ _ _ _ f g

mutual
  unfolding check_expr check_kind check_exprs check_option check_else check_block check_stmts
      check_stmt transfers transfers_kind transfers_args transfers_option transfers_else
      transfers_block transfers_stmts transfers_stmt

  check_expr-Follows :
      (e : HirExpr) (s : RegionChecker) → Follows (transfers false e) s (check_expr e s)
  check_expr-Follows (HirExpr.expr k sp) s =
      Follows-span _ sp s _ (check_kind-Follows k sp (at_span sp s))

  check_kind-Follows :
      (k : HirExprKind) (sp : Span) (s : RegionChecker)
      → Follows (transfers_kind false k) s (check_kind k sp s)
  check_kind-Follows (HirExprKind.region name options body) sp s =
      Follows-region _ name sp s _ (check_block-Follows body _)
  check_kind-Follows (HirExprKind.in_region e region size) sp s =
      Follows-quiet _ _ _ _ (check_expr-Follows e s)
        (note_in_region-Follows e region (check_expr e s))
  check_kind-Follows (HirExprKind.transfer e region) sp s =
      walk (check_expr-Follows e s) (note_transfer-Follows e region (check_expr e s))
  check_kind-Follows (HirExprKind.set_variable target op value) sp s = check_expr-Follows value s
  check_kind-Follows (HirExprKind.binary op l r) sp s =
      walk (check_expr-Follows l s) (check_expr-Follows r _)
  check_kind-Follows (HirExprKind.unary op e) sp s = check_expr-Follows e s
  check_kind-Follows (HirExprKind.set_lookup value members negated) sp s =
      check_expr-Follows value s
  check_kind-Follows (HirExprKind.range_check value lower upper li ui negated) sp s =
      walk (check_expr-Follows value s)
        (walk (check_option-Follows lower _) (check_option-Follows upper _))
  check_kind-Follows (HirExprKind.if_else cond then_block else_block) sp s =
      walk (check_expr-Follows cond s)
        (walk (check_block-Follows then_block _) (check_else-Follows else_block _))
  check_kind-Follows (HirExprKind.block_expr b) sp s = check_block-Follows b s
  check_kind-Follows (HirExprKind.unsafe_block b) sp s = check_block-Follows b s
  check_kind-Follows (HirExprKind.while_loop cond body) sp s =
      walk (check_expr-Follows cond s) (check_block-Follows body _)
  check_kind-Follows (HirExprKind.loop body) sp s = check_block-Follows body s
  check_kind-Follows (HirExprKind.call callee args) sp s = check_exprs-Follows args s
  check_kind-Follows (HirExprKind.call_indirect callee args param_names ret_name) sp s =
      walk (check_expr-Follows callee s) (check_exprs-Follows args _)
  check_kind-Follows (HirExprKind.return_expr e) sp s = check_option-Follows e s
  check_kind-Follows (HirExprKind.break_expr e) sp s = check_option-Follows e s
  check_kind-Follows (HirExprKind.field_get base index ty) sp s = check_expr-Follows base s
  check_kind-Follows (HirExprKind.field_set base index value ty) sp s =
      walk (check_expr-Follows base s) (check_expr-Follows value _)
  check_kind-Follows (HirExprKind.index_get base index elem is_str len) sp s =
      walk (check_expr-Follows base s) (check_expr-Follows index _)
  check_kind-Follows (HirExprKind.index_set base index value elem is_str len) sp s =
      walk (check_expr-Follows base s)
        (walk (check_expr-Follows index _) (check_expr-Follows value _))
  check_kind-Follows (HirExprKind.ref e is_mut pointee) sp s = check_expr-Follows e s
  check_kind-Follows (HirExprKind.ptr_add base offset elem) sp s =
      walk (check_expr-Follows base s) (check_expr-Follows offset _)
  check_kind-Follows (HirExprKind.cast e to) sp s = check_expr-Follows e s
  check_kind-Follows (HirExprKind.deref e ty) sp s = check_expr-Follows e s
  check_kind-Follows (HirExprKind.deref_set base value ty) sp s =
      walk (check_expr-Follows base s) (check_expr-Follows value _)
  check_kind-Follows k sp s = Follows-none s

  check_exprs-Follows :
      (es : HirExprs) (s : RegionChecker) → Follows (transfers_args false es) s (check_exprs es s)
  check_exprs-Follows HirExprs.no_more s = Follows-none s
  check_exprs-Follows (HirExprs.more e es) s =
      walk (check_expr-Follows e s) (check_exprs-Follows es _)

  check_option-Follows :
      (o : HirOption) (s : RegionChecker) → Follows (transfers_option false o) s (check_option o s)
  check_option-Follows HirOption.absent s = Follows-none s
  check_option-Follows (HirOption.present e) s = check_expr-Follows e s

  check_else-Follows :
      (b : HirElse) (s : RegionChecker) → Follows (transfers_else false b) s (check_else b s)
  check_else-Follows HirElse.no_else s = Follows-none s
  check_else-Follows (HirElse.else_branch b) s = check_block-Follows b s

  pub check_block-Follows :
      (b : HirBlock) (s : RegionChecker) → Follows (transfers_block false b) s (check_block b s)
  check_block-Follows (HirBlock.block ss final sp) s =
      Follows-span _ sp s _
        (walk (check_stmts-Follows ss (at_span sp s)) (check_option-Follows final _))

  check_stmts-Follows :
      (ss : HirStmts) (s : RegionChecker) → Follows (transfers_stmts false ss) s (check_stmts ss s)
  check_stmts-Follows HirStmts.done s = Follows-none s
  check_stmts-Follows (HirStmts.then_stmt x xs) s =
      walk (check_stmt-Follows x s) (check_stmts-Follows xs _)

  check_stmt-Follows :
      (x : HirStmt) (s : RegionChecker) → Follows (transfers_stmt false x) s (check_stmt x s)
  check_stmt-Follows (HirStmt.stmt (HirStmtKind.let_stmt name init mutable) sp) s =
      Follows-span _ sp s _ (
        Follows-quiet _ _ _ _ (check_expr-Follows init (at_span sp s))
          (note_let-Follows name init _))
  check_stmt-Follows (HirStmt.stmt (HirStmtKind.expr_stmt e) sp) s =
      Follows-span _ sp s _ (check_expr-Follows e (at_span sp s))
  check_stmt-Follows (HirStmt.stmt (HirStmtKind.semi e) sp) s =
      Follows-span _ sp s _ (check_expr-Follows e (at_span sp s))
