-- ===== src/Hir.antt =====
-- crates/rlyeh-hir/src/lib.rs, and `Span` of crates/rlyeh-lexer/src/token.rs: the program after
-- type checking, on which the lowering and the region checker work. A box is its content. A type
-- of the block may not stand in a list or an option there, so the block has its own of both.
use Prim.Native.String.{String}
use rlyeh_language.Common.{ℕ, Bool, Option, List}
use rlyeh_language.Mir.{HirBinaryOp, HirUnaryOp, FieldScalar, HirRegionOptions}

pub record Span : Type 0 where
  pub start : ℕ
  pub end : ℕ
  pub line : ℕ
  pub col : ℕ

pub data HirAssignOp : Type 0 where
  assign add_assign sub_assign mul_assign div_assign : HirAssignOp

mutual
  pub data HirExpr : Type 0 where
    expr : (kind : HirExprKind) → (span : Span) → HirExpr

  -- The fields stand in the source's order.
  pub data HirExprKind : Type 0 where
    int_literal float_literal : ℕ → HirExprKind
    string_literal : String → HirExprKind
    char_literal : ℕ → HirExprKind
    bool_literal : Bool → HirExprKind
    variable : String → HirExprKind
    set_variable : (target : String) (op : HirAssignOp) (value : HirExpr) → HirExprKind
    binary : HirBinaryOp → HirExpr → HirExpr → HirExprKind
    unary : HirUnaryOp → HirExpr → HirExprKind
    ref : (operand : HirExpr) (is_mut : Bool) (pointee : FieldScalar) → HirExprKind
    deref : (operand : HirExpr) (ty : FieldScalar) → HirExprKind
    deref_set : (base value : HirExpr) (ty : FieldScalar) → HirExprKind
    ptr_add : (base offset : HirExpr) (elem : FieldScalar) → HirExprKind
    cast : (operand : HirExpr) (to : String) → HirExprKind
    set_lookup : (value : HirExpr) (members : HirExprs) (negated : Bool) → HirExprKind
    range_check :
        (value : HirExpr) (lower upper : HirOption) (lower_inclusive upper_inclusive negated : Bool)
        → HirExprKind
    if_else : (cond : HirExpr) (then_block : HirBlock) (else_block : HirElse) → HirExprKind
    block_expr unsafe_block : HirBlock → HirExprKind
    call : (callee : String) (args : HirExprs) → HirExprKind
    fn_ptr : String → HirExprKind
    call_indirect :
        (callee : HirExpr) (args : HirExprs) (param_names : List String) (ret_name : String)
        → HirExprKind
    while_loop : (cond : HirExpr) (body : HirBlock) → HirExprKind
    loop : (body : HirBlock) → HirExprKind
    return_expr break_expr : HirOption → HirExprKind
    continue_expr : HirExprKind
    region : (name : Option String) (options : HirRegionOptions) (body : HirBlock) → HirExprKind
    in_region : (operand : HirExpr) (region_name : String) (size : ℕ) → HirExprKind
    transfer : (operand : HirExpr) (region_name : String) → HirExprKind
    unit : HirExprKind
    alloc : (slots : ℕ) (by_value is_strfat : Bool) → HirExprKind
    field_get : (base : HirExpr) (index : ℕ) (ty : FieldScalar) → HirExprKind
    field_set : (base : HirExpr) (index : ℕ) (value : HirExpr) (ty : FieldScalar) → HirExprKind
    index_get :
        (base index : HirExpr) (elem : FieldScalar) (is_str : Bool) (len : HirOption) → HirExprKind
    index_set :
        (base index value : HirExpr) (elem : FieldScalar) (is_str : Bool) (len : HirOption)
        → HirExprKind

  pub data HirExprs : Type 0 where
    no_more : HirExprs
    more : HirExpr → HirExprs → HirExprs

  pub data HirOption : Type 0 where
    absent : HirOption
    present : HirExpr → HirOption

  pub data HirBlock : Type 0 where
    block : (stmts : HirStmts) (final_expr : HirOption) (span : Span) → HirBlock

  pub data HirElse : Type 0 where
    no_else : HirElse
    else_branch : HirBlock → HirElse

  pub data HirStmts : Type 0 where
    done : HirStmts
    then_stmt : HirStmt → HirStmts → HirStmts

  pub data HirStmt : Type 0 where
    stmt : (kind : HirStmtKind) (span : Span) → HirStmt

  pub data HirStmtKind : Type 0 where
    let_stmt : (name : String) (init : HirExpr) (mutable : Bool) → HirStmtKind
    expr_stmt semi : HirExpr → HirStmtKind

pub record HirParam : Type 0 where
  pub name : String
  pub span : Span
  pub is_ref : Bool

pub record HirFnDecl : Type 0 where
  pub params : List HirParam
  pub body : Option HirBlock
  pub is_extern : Bool
  pub extern_sig : Option (List String × String)

pub record HirConstDecl : Type 0 where
  pub value : HirExpr

pub data HirItemKind : Type 0 where
  fn : HirFnDecl → HirItemKind
  constant : HirConstDecl → HirItemKind

pub record HirItem : Type 0 where
  pub name : String
  pub kind : HirItemKind
  pub span : Span

pub record HirProgram : Type 0 where
  pub items : List HirItem
