-- ===== src/Mir/Inline.antt =====
-- crates/rlyeh-mir/src/passes/inline.rs. A panic is `none`.
pub mod Names
pub mod Renaming
pub mod Binding
pub mod Inlined
pub mod RenamedNames
pub mod Sound
pub mod Temporaries
use Prim.Native.String
use Prim.Native.String.{String}
use text.Mathlib.Text.{◌==◌ as str_eq}
use rlyeh_language.Common.{
  ◌>>=◌, ℕ, zero, suc, ◌+◌, Bool, true, false, not, ◌&&◌, ◌||◌, Option, none, some, List, [], ◌∷◌,
  ◌++◌, map, if◌then◌else◌, length, ◌==◌,
}
use rlyeh_language.Common.Decimal.{decimal}
use rlyeh_language.Mir.{
  Local, MirValue, MirStmt, MirTerminator, BasicBlock, MirFunction, MirProgram,
}
use rlyeh_language.Mir.Dce.{contains}

-- The substitution, and the counter of fresh names.
abbrev pub Subst : Type 0
Subst = List (Local × Local)

abbrev pub Renamer : Type 0
Renamer = Subst × ℕ

unfoldable pub find : Local → Subst → Option Local
find x [] = none
find x ((y, m) ∷ rest) = if str_eq y x then some m else find x rest

-- The name that fresh_inline_temp makes at a counter.
pub inline_temp : ℕ → Local
inline_temp counter = String.◌++◌ "_i" (decimal counter)

fresh_inline_temp : ℕ → Local × ℕ
unfolding inline_temp
fresh_inline_temp counter = (inline_temp counter, counter + 1)

map_absent : Local → Subst → Local × ℕ → Local × Renamer
map_absent name subst (fresh, counter) = (fresh, ((name, fresh) ∷ subst, counter))

pub map_local : Local → Renamer → Local × Renamer
unfolding map_absent fresh_inline_temp
map_local name (subst, counter) = elim (find name subst) [
  | some mapped ↦ (mapped, (subst, counter))
  | none ↦ map_absent name subst (fresh_inline_temp counter)
]

-- The calls of map_local thread the substitution through.
infixl 1 ◌>>>=◌
abbrev pub ◌>>>=◌ {ℓ κ} :
    {A : Type ℓ} {B : Type κ}
    → (Renamer → A × Renamer)
    → (A → Renamer → B × Renamer)
    → Renamer
    → B × Renamer
◌>>>=◌ m f st = let (a, st') = m st in f a st'

abbrev pub pure {ℓ} : {A : Type ℓ} → A → Renamer → A × Renamer
pure a st = (a, st)

pub map_value : MirValue → Renamer → MirValue × Renamer
unfolding map_local
map_value (MirValue.place p) = map_local p >>>= λ p'. pure (MirValue.place p')
map_value (MirValue.binary op lhs rhs) =
    map_value lhs >>>= λ l. map_value rhs >>>= λ r. pure (MirValue.binary op l r)
map_value (MirValue.unary op operand) = map_value operand >>>= λ o. pure (MirValue.unary op o)
map_value other = pure other

pub map_option : Option Local → Renamer → Option Local × Renamer
unfolding map_local
map_option none = pure none
map_option (some l) = map_local l >>>= λ l'. pure (some l')

pub map_locals : List Local → Renamer → List Local × Renamer
unfolding map_local
map_locals [] = pure []
map_locals (x ∷ xs) = map_local x >>>= λ x'. map_locals xs >>>= λ xs'. pure (x' ∷ xs')

pub inline_stmt : MirStmt → Renamer → Option MirStmt × Renamer
unfolding map_local map_value map_option map_locals
inline_stmt (MirStmt.assign target value) =
    map_local target >>>= λ t. map_value value >>>= λ v. pure (some (MirStmt.assign t v))
inline_stmt (MirStmt.call target callee args) =
    map_option target >>>= λ t. map_locals args >>>= λ xs. pure (some (MirStmt.call t callee xs))
inline_stmt (MirStmt.alloc target slots by_value is_strfat) =
    map_local target >>>= λ t. pure (some (MirStmt.alloc t slots by_value is_strfat))
inline_stmt (MirStmt.field_get target base index ty) =
    map_local target >>>= λ t. map_local base >>>= λ b. pure (some (MirStmt.field_get t b index ty))
inline_stmt (MirStmt.field_set base index value ty) =
    map_local base >>>= λ b. map_local value >>>= λ v. pure (some (MirStmt.field_set b index v ty))
inline_stmt (MirStmt.index_get target base index ty is_str len) = map_local target >>>= λ t.
    map_local base >>>= λ b. map_local index >>>= λ i.
    map_option len >>>= λ l. pure (some (MirStmt.index_get t b i ty is_str l))
inline_stmt (MirStmt.index_set base index value ty is_str len) = map_local base >>>= λ b.
    map_local index >>>= λ i. map_local value >>>= λ v.
    map_option len >>>= λ l. pure (some (MirStmt.index_set b i v ty is_str l))
inline_stmt (MirStmt.addr_of target operand pointee) =
    map_local target >>>= λ t. map_local operand >>>= λ o. pure (some (MirStmt.addr_of t o pointee))
inline_stmt (MirStmt.deref_read target base ty) =
    map_local target >>>= λ t. map_local base >>>= λ b. pure (some (MirStmt.deref_read t b ty))
inline_stmt (MirStmt.deref_write base value ty) =
    map_local base >>>= λ b. map_local value >>>= λ v. pure (some (MirStmt.deref_write b v ty))
inline_stmt (MirStmt.addr_of_field target base index ty) = map_local target >>>= λ t.
    map_local base >>>= λ b. pure (some (MirStmt.addr_of_field t b index ty))
inline_stmt (MirStmt.ptr_add target base offset elem is_str) = map_local target >>>= λ t.
    map_local base >>>= λ b.
    map_local offset >>>= λ o. pure (some (MirStmt.ptr_add t b o elem is_str))
inline_stmt (MirStmt.cast target value to) =
    map_local target >>>= λ t. map_local value >>>= λ v. pure (some (MirStmt.cast t v to))
inline_stmt (MirStmt.call_indirect target callee args param_names ret_name) =
    map_option target >>>= λ t. map_local callee >>>= λ c.
    map_locals args >>>= λ xs. pure (some (MirStmt.call_indirect t c xs param_names ret_name))
inline_stmt _ = pure none

-- The body of a callee: what inline_stmt leaves out is not pushed.
abbrev push_some : Option MirStmt → List MirStmt → List MirStmt
push_some none l = l
push_some (some s) l = s ∷ l

pub inline_body : List MirStmt → Renamer → List MirStmt × Renamer
unfolding inline_stmt
inline_body [] = pure []
inline_body (s ∷ rest) = inline_stmt s >>>= λ o. inline_body rest >>>= λ l. pure (push_some o l)

-- params.iter().zip(args.iter()), each pair inserted; a later pair overrides.
pub bind_params : List Local → List Local → Subst → Subst
bind_params (p ∷ ps) (a ∷ args) subst = bind_params ps args ((p, a) ∷ subst)
bind_params _ _ subst = subst

pub bind_call_result : Option Local → Local → List MirStmt
bind_call_result none ret_place = []
bind_call_result (some t) ret_place = MirStmt.assign t (MirValue.place ret_place) ∷ []

-- The binding of the returned value at the call's target.
pub inline_return : Option Local → Option MirTerminator → Renamer → List MirStmt × Renamer
unfolding map_local bind_call_result
inline_return target (some (MirTerminator.ret (some p))) =
    map_local p >>>= λ mapped. pure (bind_call_result target mapped)
inline_return none _ = pure []
inline_return (some t) _ = pure (MirStmt.assign t MirValue.unit ∷ [])

-- What stands for a call, and the next counter.
pub expand_call : BasicBlock → List Local → Option Local → List Local → ℕ → List MirStmt × ℕ
unfolding inline_body bind_params inline_return
expand_call body params target args counter =
    let (stmts, st) = inline_body body.stmts (bind_params params args [], counter) in
    let (ret, st') = inline_return target body.terminator st in (stmts ++ ret, st'.1)

pub has_region_op : MirStmt → Bool
has_region_op (MirStmt.region_enter name options) = true
has_region_op (MirStmt.region_exit name) = true
has_region_op (MirStmt.alloc_in_region target region size) = true
has_region_op (MirStmt.transfer place region) = true
has_region_op _ = false

unfoldable pub no_region_op : List MirStmt → Bool
unfolding has_region_op
no_region_op [] = true
no_region_op (s ∷ rest) = not (has_region_op s) && no_region_op rest

unfoldable pub returns : Option MirTerminator → Bool
returns (some (MirTerminator.ret x)) = true
returns _ = false

unfoldable pub single_block : List BasicBlock → Bool
unfolding returns no_region_op
single_block (b ∷ []) = returns b.terminator && no_region_op b.stmts
single_block _ = false

unfoldable pub is_inlineable : MirFunction → Bool
unfolding single_block
is_inlineable f = single_block f.blocks

-- The names of the functions that can be inlined, and the functions of such a name.
unfoldable pub inlineable_names : List MirFunction → List Local
unfolding is_inlineable
inlineable_names [] = []
inlineable_names (f ∷ fs) =
    let rest = inlineable_names fs in if is_inlineable f then f.name ∷ rest else rest

unfoldable pub bodies : List Local → List MirFunction → List MirFunction
bodies names [] = []
bodies names (f ∷ fs) =
    let rest = bodies names fs in if contains f.name names then f ∷ rest else rest

unfoldable pub find_body : Local → List MirFunction → Option MirFunction
find_body name [] = none
find_body name (f ∷ fs) = if str_eq f.name name then some f else find_body name fs

-- `blocks[0]` of the callee.
unfoldable pub expand_function :
    MirFunction → Option Local → List Local → ℕ → Option (List MirStmt × ℕ)
unfolding expand_call
expand_function callee target args counter = elim callee.blocks [
  | [] ↦ none
  | b ∷ rest ↦ some (expand_call b callee.params target args counter)
]

-- One statement of the caller `fname`.
unfoldable pub inline_at :
    List Local → List MirFunction → Local → MirStmt → ℕ → Option (List MirStmt × ℕ)
unfolding expand_function find_body
inline_at names functions fname (MirStmt.call target callee args) counter =
    if contains callee names && not (str_eq callee fname)
    then (find_body callee functions >>= λ f. expand_function f target args counter)
    else some (MirStmt.call target callee args ∷ [], counter)
inline_at names functions fname s counter = some (s ∷ [], counter)

unfoldable pub inline_stmts :
    List Local → List MirFunction → Local → List MirStmt → ℕ → Option (List MirStmt × ℕ)
unfolding inline_at
inline_stmts names functions fname [] counter = some ([], counter)
inline_stmts names functions fname (s ∷ rest) counter =
    inline_at names functions fname s counter >>= λ here.
    inline_stmts names functions fname rest here.1 >>= λ there. some (here.0 ++ there.0, there.1)

unfoldable pub inline_blocks :
    List Local → List MirFunction → Local → List BasicBlock → ℕ → Option (List BasicBlock × ℕ)
unfolding inline_stmts
inline_blocks names functions fname [] counter = some ([], counter)
inline_blocks names functions fname (b ∷ bs) counter =
    inline_stmts names functions fname b.stmts counter >>= λ here.
    inline_blocks names functions fname bs here.1 >>= λ there.
    some (record b { stmts = here.0 } ∷ there.0, there.1)

unfoldable pub inline_functions :
    List Local → List MirFunction → List MirFunction → ℕ → Option (List MirFunction × ℕ)
unfolding inline_blocks
inline_functions names functions [] counter = some ([], counter)
inline_functions names functions (f ∷ fs) counter =
    inline_blocks names functions f.name f.blocks counter >>= λ here.
    inline_functions names functions fs here.1 >>= λ there.
    some (record f { blocks = here.0 } ∷ there.0, there.1)

-- An empty set of names changes nothing, as the early return does.
unfoldable pub inline_small_functions : MirProgram → Option MirProgram
unfolding inlineable_names bodies inline_functions
inline_small_functions p =
    let names = inlineable_names p.functions in
    inline_functions names (bodies names p.functions) p.functions 0 >>= λ out.
    some (record { functions = out.0 })
