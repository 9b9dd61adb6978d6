-- ===== src/Mir/Lower.antt =====
-- crates/rlyeh-mir/src/lower.rs, MirLowerer: the state and its basic operations. `none` is a panic:
-- an index outside the blocks, an `expect` that fails, or a `debug_assert!` that fails in a build
-- with debug assertions. A counter does not overflow.
pub mod Control
pub mod Values
pub mod Expr
pub mod Program
pub mod Rules
pub mod Keeps
pub mod Flow
pub mod Scopes
pub mod Sound
pub mod Total
pub mod Membership
pub mod Closed
use Prim.Native.String
use Prim.Native.String.{String}
use rlyeh_language.Common.{
  ℕ, suc, Bool, true, false, Option, none, some, List, [], ◌∷◌, ◌++◌, length, get_elem?, set, ◌&&◌,
  if◌then◌else◌,
}
use rlyeh_language.Common.Decimal.{decimal}
use rlyeh_language.Mir.{Local, MirStmt, MirTerminator, BasicBlock}

pub record LoopCtx : Type 0 where
  pub break_target : ℕ
  pub had_break : Bool
  pub continue_target : ℕ
  pub break_value : Option Local
  pub break_has_value : Bool

-- The innermost loop stands first.
pub record MirLowerer : Type 0 where
  pub blocks : List BasicBlock
  pub cur : ℕ
  pub temp_counter : ℕ
  pub loop_stack : List LoopCtx
  pub anon_region_seq : ℕ
  -- How the compiler was built.
  pub debug_assertions : Bool

abbrev pub Lowering : Type 0 → Type 0
Lowering A = MirLowerer → Option (A × MirLowerer)

module _ {A : Type 0} where
  unfoldable pub pure : A → Lowering A
  pure a s = some (a, s)

  -- `expect`.
  unfoldable pub expect : Option A → Lowering A
  expect none s = none
  expect (some a) s = some (a, s)

module _ {A B : Type 0} where
  abbrev pub next : Option (A × MirLowerer) → (A → Lowering B) → Option (B × MirLowerer)
  next none f = none
  next (some (a, s)) f = f a s

  infixl 10 ◌>>=◌
  unfoldable pub ◌>>=◌ : Lowering A → (A → Lowering B) → Lowering B
  (m >>= f) s = next (m s) f

  infixr 9 ◌>>◌
  abbrev pub ◌>>◌ : Lowering A → Lowering B → Lowering B
  m >> n = m >>= λ _. n

module _ {A B : Type 0} where
  abbrev pub on_some : (A → Lowering (Option B)) → Option A → Lowering (Option B)
  on_some f none = pure none
  on_some f (some a) = f a

  -- The source's `?`.
  infixl 10 ◌>>?◌
  unfoldable pub ◌>>?◌ : Lowering (Option A) → (A → Lowering (Option B)) → Lowering (Option B)
  m >>? f = m >>= on_some f

unfoldable pub current : Lowering ℕ
current s = some (s.cur, s)

unfoldable pub switch_to : ℕ → Lowering Unit
switch_to id s = some (tt, record s { cur = id })

unfoldable pub with_block : (BasicBlock → BasicBlock) → Lowering Unit
with_block f s = elim (get_elem? s.blocks s.cur) [
  | none ↦ none
  | some b ↦ some (tt, record s { blocks = set s.blocks s.cur (f b) })
]

abbrev pub is_some : {A : Type 0} → Option A → Bool
is_some none = false
is_some (some a) = true

unfoldable pub cur_closed : Lowering Bool
cur_closed s = elim (get_elem? s.blocks s.cur) [
  | none ↦ none
  | some b ↦ some (is_some b.terminator, s)
]

-- The `debug_assert!` of emit and of terminate: the current block has no terminator.
unfoldable pub debug_assert_open : Lowering Unit
debug_assert_open s = elim (get_elem? s.blocks s.cur) [
  | none ↦ none
  | some b ↦ if s.debug_assertions && is_some b.terminator then none else some (tt, s)
]

unfoldable pub emit : MirStmt → Lowering Unit
emit stmt = debug_assert_open >> with_block (λ b. record b { stmts = b.stmts ++ (stmt ∷ []) })

unfoldable pub terminate : MirTerminator → Lowering Unit
terminate term = debug_assert_open >> with_block (λ b. record b { terminator = some term })

unfoldable pub new_block : Lowering ℕ
new_block s =
    let id = length s.blocks in
    let empty : BasicBlock = record { stmts = []; terminator = none } in
    some (id, record s { blocks = s.blocks ++ (empty ∷ []); cur = id })

unfoldable pub fresh_temp : Lowering Local
fresh_temp s =
    some (String.◌++◌ "_t" (decimal s.temp_counter), record s { temp_counter = suc s.temp_counter })

unfoldable pub push_loop : LoopCtx → Lowering Unit
push_loop c s = some (tt, record s { loop_stack = c ∷ s.loop_stack })

unfoldable pub pop_loop : Lowering (Option LoopCtx)
pop_loop s = elim s.loop_stack [
  | [] ↦ some (none, s)
  | c ∷ rest ↦ some (some c, record s { loop_stack = rest })
]

-- The key of a region without a name.
unfoldable pub region_key : Option String → Lowering String
region_key (some n) s = some (n, s)
region_key none s = some (
  String.◌++◌ "__anon_region_" (decimal s.anon_region_seq),
  record s { anon_region_seq = suc s.anon_region_seq },
)
