-- ===== src/Mir.antt =====
-- crates/rlyeh-mir/src/lib.rs and the enums that it takes from crates/rlyeh-hir/src/lib.rs: the
-- control-flow graph on which the optimiser works. An `i128` is its two's complement pattern, an
-- `f64` its 64-bit pattern, a `char` its code point; none of the passes computes with an `f64`.
pub mod Int128
pub mod ConstFold
pub mod Dce
pub mod Inline
pub mod Passes
pub mod Lower
mod Examples
use Prim.Native.String.{String}
use rlyeh_language.Common.{ℕ, Bool, Option, List}

-- HirBinaryOp; `rem` is `%`.
pub data HirBinaryOp : Type 0 where
  add sub mul div rem eq ne lt le gt ge and or bit_and bit_or bit_xor shl shr : HirBinaryOp

pub data HirUnaryOp : Type 0 where
  neg not : HirUnaryOp

pub data ReprConv : Type 0 where
  plain zext sext fpext : ReprConv

pub data FieldScalar : Type 0 where
  int float bool char str str_fat slice_fat ptr : FieldScalar
  repr_c_field : ℕ → String → ReprConv → FieldScalar
  repr_c_sub_ptr : ℕ → ℕ → FieldScalar

pub data HirRegionStrategy : Type 0 where
  bump : HirRegionStrategy

pub record HirRegionOptions : Type 0 where
  pub size : Option ℕ
  pub allow_growth : Bool
  pub growth_factor : Option ℕ
  pub adaptive : Bool
  pub exact : Bool
  pub strategy : Option HirRegionStrategy

abbrev pub Local : Type 0
Local = String

pub data MirValue : Type 0 where
  int float char : ℕ → MirValue
  string : String → MirValue
  bool : Bool → MirValue
  unit : MirValue
  place : Local → MirValue
  fn_ref : String → MirValue
  binary : HirBinaryOp → MirValue → MirValue → MirValue
  unary : HirUnaryOp → MirValue → MirValue

-- The fields stand in the source's order.
pub data MirStmt : Type 0 where
  assign : (target : Local) (value : MirValue) → MirStmt
  call : (target : Option Local) (callee : String) (args : List Local) → MirStmt
  call_indirect :
      (target : Option Local) (callee : Local) (args : List Local) (param_names : List String)
      (ret_name : String)
      → MirStmt
  region_enter : (name : Option String) (options : HirRegionOptions) → MirStmt
  region_exit : (name : Option String) → MirStmt
  alloc_in_region : (target : Local) (region : String) (size : ℕ) → MirStmt
  transfer : (place : Local) (region : String) → MirStmt
  alloc : (target : Local) (slots : ℕ) (by_value is_strfat : Bool) → MirStmt
  field_get : (target base : Local) (index : ℕ) (ty : FieldScalar) → MirStmt
  field_set : (base : Local) (index : ℕ) (value : Local) (ty : FieldScalar) → MirStmt
  index_get :
      (target base index : Local) (ty : FieldScalar) (is_str : Bool) (len : Option Local) → MirStmt
  index_set :
      (base index value : Local) (ty : FieldScalar) (is_str : Bool) (len : Option Local) → MirStmt
  addr_of : (target operand : Local) (pointee : FieldScalar) → MirStmt
  deref_read : (target base : Local) (ty : FieldScalar) → MirStmt
  deref_write : (base value : Local) (ty : FieldScalar) → MirStmt
  addr_of_field : (target base : Local) (index : ℕ) (ty : FieldScalar) → MirStmt
  ptr_add : (target base offset : Local) (elem : FieldScalar) (is_str : Bool) → MirStmt
  cast : (target value : Local) (to : String) → MirStmt

pub data MirTerminator : Type 0 where
  ret : Option Local → MirTerminator
  jump : ℕ → MirTerminator
  cond_jump : (cond : Local) (then_block otherwise : ℕ) → MirTerminator

pub record BasicBlock : Type 0 where
  pub stmts : List MirStmt
  pub terminator : Option MirTerminator

pub record MirFunction : Type 0 where
  pub name : String
  pub params : List Local
  pub blocks : List BasicBlock
  pub is_extern : Bool
  pub extern_sig : Option (List String × String)

pub record MirProgram : Type 0 where
  pub functions : List MirFunction
