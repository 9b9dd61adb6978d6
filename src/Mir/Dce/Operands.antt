-- ===== src/Mir/Dce/Operands.antt =====
-- The locals that a statement reads, by the meaning of the statements that crates/rlyeh-mir/src/lib.rs
-- gives, against what remove_dead_assignments counts as used.
use rlyeh_language.Common.{◌≡◌, refl, subst, true, Option, none, some, List, [], ◌∷◌, ◌++◌, All}
use rlyeh_language.Mir.{FieldScalar, Local, MirValue, MirStmt, BasicBlock, MirFunction}
use rlyeh_language.Mir.Dce.{collect_used, stmt_used, contains, blocks_used, of_option}

abbrev pub Within : List Local → List Local → Type 0
Within xs ys = (x : Local) → contains x xs ≡ true → contains x ys ≡ true

-- The locals of a right-hand side.
abbrev pub locals_of : MirValue → List Local
locals_of (MirValue.place p) = p ∷ []
locals_of (MirValue.binary op l r) = locals_of l ++ locals_of r
locals_of (MirValue.unary op o) = locals_of o
locals_of _ = []

abbrev pub length_operand : Option Local → List Local
length_operand none = []
length_operand (some l) = l ∷ []

abbrev pub operands : MirStmt → List Local
operands (MirStmt.assign target value) = locals_of value
operands (MirStmt.call target callee args) = args
operands (MirStmt.call_indirect target callee args param_names ret_name) = callee ∷ args
operands (MirStmt.region_enter name options) = []
operands (MirStmt.region_exit name) = []
operands (MirStmt.alloc_in_region target region size) = target ∷ []
operands (MirStmt.transfer place region) = place ∷ []
operands (MirStmt.alloc target slots by_value is_strfat) = []
operands (MirStmt.field_get target base index ty) = base ∷ []
operands (MirStmt.field_set base index value ty) = base ∷ value ∷ []
operands (MirStmt.index_get target base index ty is_str len) = base ∷ index ∷ length_operand len
operands (MirStmt.index_set base index value ty is_str len) =
    base ∷ index ∷ value ∷ length_operand len
operands (MirStmt.addr_of target operand pointee) = operand ∷ []
operands (MirStmt.deref_read target base ty) = base ∷ []
operands (MirStmt.deref_write base value ty) = base ∷ value ∷ []
operands (MirStmt.addr_of_field target base index ty) = base ∷ []
operands (MirStmt.ptr_add target base offset elem is_str) = base ∷ offset ∷ []
operands (MirStmt.cast target value to) = value ∷ []

-- What is transferred or moved into a region: the pass does not count it, though the statement reads
-- it.
abbrev pub moved : MirStmt → List Local
moved (MirStmt.alloc_in_region target region size) = target ∷ []
moved (MirStmt.transfer place region) = place ∷ []
moved _ = []

-- The statement neither takes the address of a scalar's slot nor reads or writes by such an address.
abbrev pub IsDirect : MirStmt → Type 0
IsDirect (MirStmt.addr_of target operand FieldScalar.ptr) = Unit
IsDirect (MirStmt.addr_of target operand pointee) = ⊥
IsDirect (MirStmt.deref_read target base FieldScalar.ptr) = Unit
IsDirect (MirStmt.deref_read target base ty) = ⊥
IsDirect (MirStmt.deref_write base value ty) = ⊥
IsDirect _ = Unit

abbrev pub IsCountedIn : List Local → BasicBlock → Type 0
IsCountedIn used b = All (λ s. Within (moved s) used × IsDirect s) b.stmts

-- What the function transfers or moves into a region, it also uses in another way, and every
-- statement is direct: the locals that `operands` lists are all that is read.
abbrev pub IsCounted : MirFunction → Type 0
IsCounted f = All (IsCountedIn (blocks_used f.blocks)) f.blocks

pub locals_of-collect_used : (v : MirValue) → collect_used v ≡ locals_of v
unfolding collect_used
locals_of-collect_used (MirValue.binary op l r) =
    rw (locals_of-collect_used l, locals_of-collect_used r)
locals_of-collect_used (MirValue.unary op o) = locals_of-collect_used o
locals_of-collect_used _ = refl

length_operand-of_option : (o : Option Local) → of_option o ≡ length_operand o
length_operand-of_option none = refl
length_operand-of_option (some l) = refl

pub Within-operands :
    (s : MirStmt) (used : List Local)
    → Within (stmt_used s) used
    → Within (moved s) used
    → Within (operands s) used
unfolding stmt_used
Within-operands (MirStmt.assign target value) used w m =
    subst (λ l. Within l used) (locals_of-collect_used value) w
Within-operands (MirStmt.alloc_in_region target region size) used w m = m
Within-operands (MirStmt.transfer place region) used w m = m
Within-operands (MirStmt.index_get target base index ty is_str len) used w m =
    subst (λ l. Within (base ∷ index ∷ l) used) (length_operand-of_option len) w
Within-operands (MirStmt.index_set base index value ty is_str len) used w m =
    subst (λ l. Within (base ∷ index ∷ value ∷ l) used) (length_operand-of_option len) w
Within-operands _ used w m = w
