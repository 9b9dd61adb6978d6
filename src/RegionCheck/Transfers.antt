-- ===== src/RegionCheck/Transfers.antt =====
-- The transfers that a program writes, in the order of the text; `none` is one whose operand is not
-- a variable. The checker visits neither the members of a set nor the length of an index nor the
-- value of a constant: `everywhere` says whether transfers in these places are listed too.
use Prim.Native.String.{String}
use rlyeh_language.Common.{Bool, true, false, Option, none, some, List, [], ◌∷◌, ◌++◌}
use rlyeh_language.Hir.{
  HirExpr, HirExprKind, HirExprs, HirOption, HirBlock, HirElse, HirStmts, HirStmt, HirStmtKind,
  HirItemKind, HirItem,
}

abbrev pub Site : Type 0
Site = Option String

abbrev pub site : HirExpr → Site
site (HirExpr.expr (HirExprKind.variable v) sp) = some v
site e = none

-- The sites of what the checker visits, then those of what it leaves out.
abbrev pub also : Bool → List Site → List Site → List Site
also false visited left_out = visited
also true visited left_out = visited ++ left_out

module _ (everywhere : Bool) where
  unfoldable mutual
    pub transfers : HirExpr → List Site
    transfers (HirExpr.expr k sp) = transfers_kind k

    pub transfers_kind : HirExprKind → List Site
    transfers_kind (HirExprKind.transfer e region) = transfers e ++ (site e ∷ [])
    transfers_kind (HirExprKind.region name options body) = transfers_block body
    transfers_kind (HirExprKind.in_region e region size) = transfers e
    transfers_kind (HirExprKind.set_variable target op value) = transfers value
    transfers_kind (HirExprKind.binary op l r) = transfers l ++ transfers r
    transfers_kind (HirExprKind.unary op e) = transfers e
    transfers_kind (HirExprKind.set_lookup value members negated) =
        also everywhere (transfers value) (transfers_args members)
    transfers_kind (HirExprKind.range_check value lower upper li ui negated) =
        transfers value ++ (transfers_option lower ++ transfers_option upper)
    transfers_kind (HirExprKind.if_else cond then_block else_block) =
        transfers cond ++ (transfers_block then_block ++ transfers_else else_block)
    transfers_kind (HirExprKind.block_expr b) = transfers_block b
    transfers_kind (HirExprKind.unsafe_block b) = transfers_block b
    transfers_kind (HirExprKind.while_loop cond body) = transfers cond ++ transfers_block body
    transfers_kind (HirExprKind.loop body) = transfers_block body
    transfers_kind (HirExprKind.call callee args) = transfers_args args
    transfers_kind (HirExprKind.call_indirect callee args param_names ret_name) =
        transfers callee ++ transfers_args args
    transfers_kind (HirExprKind.return_expr e) = transfers_option e
    transfers_kind (HirExprKind.break_expr e) = transfers_option e
    transfers_kind (HirExprKind.field_get base index ty) = transfers base
    transfers_kind (HirExprKind.field_set base index value ty) = transfers base ++ transfers value
    transfers_kind (HirExprKind.index_get base index elem is_str len) =
        also everywhere (transfers base ++ transfers index) (transfers_option len)
    transfers_kind (HirExprKind.index_set base index value elem is_str len) =
        also everywhere (transfers base ++ (transfers index ++ transfers value))
          (transfers_option len)
    transfers_kind (HirExprKind.ref e is_mut pointee) = transfers e
    transfers_kind (HirExprKind.ptr_add base offset elem) = transfers base ++ transfers offset
    transfers_kind (HirExprKind.cast e to) = transfers e
    transfers_kind (HirExprKind.deref e ty) = transfers e
    transfers_kind (HirExprKind.deref_set base value ty) = transfers base ++ transfers value
    transfers_kind k = []

    pub transfers_args : HirExprs → List Site
    transfers_args HirExprs.no_more = []
    transfers_args (HirExprs.more e es) = transfers e ++ transfers_args es

    pub transfers_option : HirOption → List Site
    transfers_option HirOption.absent = []
    transfers_option (HirOption.present e) = transfers e

    pub transfers_else : HirElse → List Site
    transfers_else HirElse.no_else = []
    transfers_else (HirElse.else_branch b) = transfers_block b

    pub transfers_block : HirBlock → List Site
    transfers_block (HirBlock.block ss final sp) = transfers_stmts ss ++ transfers_option final

    pub transfers_stmts : HirStmts → List Site
    transfers_stmts HirStmts.done = []
    transfers_stmts (HirStmts.then_stmt x xs) = transfers_stmt x ++ transfers_stmts xs

    pub transfers_stmt : HirStmt → List Site
    transfers_stmt (HirStmt.stmt (HirStmtKind.let_stmt name init mutable) sp) = transfers init
    transfers_stmt (HirStmt.stmt (HirStmtKind.expr_stmt e) sp) = transfers e
    transfers_stmt (HirStmt.stmt (HirStmtKind.semi e) sp) = transfers e

  abbrev pub transfers_body : Option HirBlock → List Site
  transfers_body none = []
  transfers_body (some b) = transfers_block b

  abbrev pub transfers_item : HirItemKind → List Site
  transfers_item (HirItemKind.fn f) = transfers_body f.body
  transfers_item (HirItemKind.constant c) = also everywhere [] (transfers c.value)

  abbrev pub transfers_items : List HirItem → List Site
  transfers_items [] = []
  transfers_items (item ∷ items) = transfers_item item.kind ++ transfers_items items
