-- ===== src/Mir/Dce.antt =====
-- crates/rlyeh-mir/src/passes/dce.rs. A panic is `none`.
pub mod Traversal
pub mod Simulation
pub mod Operands
pub mod Moved
pub mod DeadAssignments
use Prim.Native.String.{String}
use text.Mathlib.Text.{◌==◌ as str_eq, starts_with}
use rlyeh_language.Common.{
  ◌>>=◌, ℕ, zero, suc, ◌-◌, ◌^◌, Bool, true, false, not, ◌&&◌, ◌||◌, Option, none, some, List, [],
  ◌∷◌, ◌++◌, map, if◌then◌else◌, length, get_elem?, get_or, set, replicate, ◌==◌,
}
use rlyeh_language.Mir.{
  Local, MirValue, MirStmt, MirTerminator, BasicBlock, MirFunction, MirProgram,
}

abbrev pub successors_of : Option MirTerminator → List ℕ
successors_of (some (MirTerminator.jump t)) = t ∷ []
successors_of (some (MirTerminator.cond_jump cond then_block otherwise)) =
    then_block ∷ otherwise ∷ []
successors_of (some (MirTerminator.ret x)) = []
successors_of none = []

abbrev pub successors : BasicBlock → List ℕ
successors block = successors_of block.terminator

-- `if !reachable[succ] { reachable[succ] = true; stack.push(succ); }`; the head of the list is the
-- top of the stack.
visit_one : ℕ → List Bool × List ℕ → Option (List Bool × List ℕ)
visit_one succ (reachable, stack) = elim (get_elem? reachable succ) [
  | none ↦ none
  | some old ↦ some (if old then (reachable, stack) else (set reachable succ true, succ ∷ stack))
]

visit : List ℕ → List Bool × List ℕ → Option (List Bool × List ℕ)
visit [] found = some found
visit (succ ∷ rest) found = visit_one succ found >>= visit rest

-- while let Some(id) = stack.pop(): every round takes one block off, and no block is pushed twice.
pub traverse : ℕ → List BasicBlock → List Bool → List ℕ → Option (List Bool)
traverse fuel blocks reachable [] = some reachable
traverse zero blocks reachable (id ∷ stack) = none
traverse (suc fuel) blocks reachable (id ∷ stack) = elim (get_elem? blocks id) [
  | none ↦ none
  | some block ↦
      visit (successors block) (reachable, stack) >>= λ found. traverse fuel blocks found.0 found.1
]

abbrev pub usize_max : ℕ
usize_max = 2 ^ 64 - 1

-- The new number of each block, and the blocks that stay.
unfoldable pub renumber : List Bool → ℕ → List ℕ
renumber [] next = []
renumber (true ∷ reachable) next = next ∷ renumber reachable (suc next)
renumber (false ∷ reachable) next = usize_max ∷ renumber reachable next

unfoldable pub keep_blocks : List Bool → List BasicBlock → List BasicBlock
keep_blocks (true ∷ reachable) (block ∷ blocks) = block ∷ keep_blocks reachable blocks
keep_blocks (false ∷ reachable) (block ∷ blocks) = keep_blocks reachable blocks
keep_blocks _ _ = []

unfoldable pub remap_terminator : List ℕ → Option MirTerminator → Option MirTerminator
remap_terminator m (some (MirTerminator.jump t)) = some (MirTerminator.jump (get_or m t usize_max))
remap_terminator m (some (MirTerminator.cond_jump cond then_block otherwise)) =
    some
      (MirTerminator.cond_jump cond (get_or m then_block usize_max) (get_or m otherwise usize_max))
remap_terminator m t = t

unfoldable pub remap_block : List ℕ → BasicBlock → BasicBlock
remap_block m block = record block { terminator = remap_terminator m block.terminator }

unfoldable pub keep_reachable : List BasicBlock → List Bool → List BasicBlock
keep_reachable blocks reachable =
    map (remap_block (renumber reachable 0)) (keep_blocks reachable blocks)

-- A function without blocks panics at `reachable[0]`.
unfoldable pub remove_unreachable_blocks : MirFunction → Option MirFunction
remove_unreachable_blocks f =
    if length f.blocks == 0
    then none
    else (traverse (length f.blocks) f.blocks (set (replicate (length f.blocks) false) 0 true)
          (0 ∷ [])
        >>= λ reachable. some (record f { blocks = keep_reachable f.blocks reachable }))

-- collect_used: the locals that a right-hand side reads. A HashSet is the list of its insertions.
unfoldable pub collect_used : MirValue → List Local
collect_used (MirValue.place p) = p ∷ []
collect_used (MirValue.binary op lhs rhs) = collect_used lhs ++ collect_used rhs
collect_used (MirValue.unary op operand) = collect_used operand
collect_used _ = []

abbrev pub of_option : Option Local → List Local
of_option none = []
of_option (some l) = l ∷ []

-- What a terminator and a statement insert into `used`.
pub terminator_used : Option MirTerminator → List Local
terminator_used (some (MirTerminator.ret (some p))) = p ∷ []
terminator_used (some (MirTerminator.cond_jump cond then_block otherwise)) = cond ∷ []
terminator_used _ = []

unfoldable pub stmt_used : MirStmt → List Local
unfolding collect_used
stmt_used (MirStmt.assign target value) = collect_used value
stmt_used (MirStmt.call target callee args) = args
stmt_used (MirStmt.call_indirect target callee args param_names ret_name) = callee ∷ args
stmt_used (MirStmt.field_get target base index ty) = base ∷ []
stmt_used (MirStmt.field_set base index value ty) = base ∷ value ∷ []
stmt_used (MirStmt.index_get target base index ty is_str len) = base ∷ index ∷ of_option len
stmt_used (MirStmt.index_set base index value ty is_str len) = base ∷ index ∷ value ∷ of_option len
stmt_used (MirStmt.addr_of target operand pointee) = operand ∷ []
stmt_used (MirStmt.deref_read target base ty) = base ∷ []
stmt_used (MirStmt.deref_write base value ty) = base ∷ value ∷ []
stmt_used (MirStmt.addr_of_field target base index ty) = base ∷ []
stmt_used (MirStmt.ptr_add target base offset elem is_str) = base ∷ offset ∷ []
stmt_used (MirStmt.cast target value to) = value ∷ []
stmt_used _ = []

-- The first pass of remove_dead_assignments, over the whole function.
pub stmts_used : List MirStmt → List Local
unfolding stmt_used
stmts_used [] = []
stmts_used (s ∷ rest) = stmt_used s ++ stmts_used rest

pub blocks_used : List BasicBlock → List Local
unfolding terminator_used stmts_used
blocks_used [] = []
blocks_used (b ∷ rest) = terminator_used b.terminator ++ (stmts_used b.stmts ++ blocks_used rest)

unfoldable pub contains : Local → List Local → Bool
contains x [] = false
contains x (y ∷ ys) = str_eq y x || contains x ys

unfoldable pub is_temp : Local → Bool
is_temp name = starts_with name "_t"

unfoldable pub is_dead : List Local → MirStmt → Bool
unfolding is_temp contains
is_dead used (MirStmt.assign target value) = is_temp target && not (contains target used)
is_dead used _ = false

unfoldable pub drop_dead : List Local → List MirStmt → List MirStmt
unfolding is_dead
drop_dead used [] = []
drop_dead used (s ∷ rest) = if is_dead used s then drop_dead used rest else s ∷ drop_dead used rest

unfoldable pub clean_block : List Local → BasicBlock → BasicBlock
clean_block used block = record block { stmts = drop_dead used block.stmts }

unfoldable pub remove_dead_assignments : MirFunction → MirFunction
unfolding clean_block blocks_used
remove_dead_assignments f = record f { blocks = map (clean_block (blocks_used f.blocks)) f.blocks }

unfoldable pub eliminate : MirFunction → Option MirFunction
unfolding remove_unreachable_blocks remove_dead_assignments
eliminate f =
    if f.is_extern
    then some f
    else (remove_unreachable_blocks f >>= λ g. some (remove_dead_assignments g))

unfoldable pub eliminate_all : List MirFunction → Option (List MirFunction)
unfolding eliminate
eliminate_all [] = some []
eliminate_all (f ∷ fs) = eliminate f >>= λ g. eliminate_all fs >>= λ gs. some (g ∷ gs)

unfoldable pub dead_code_elimination : MirProgram → Option MirProgram
unfolding eliminate_all
dead_code_elimination p = eliminate_all p.functions >>= λ fs. some (record { functions = fs })
