-- ===== src/Mir/Examples.antt =====
-- The theorems on the passes at small programs, with a small machine for their parameters.
mod Inlining
mod Pipeline
mod Lowering
use text.Mathlib.Text.{◌==◌ as str_eq}
use rlyeh_language.Common.{
  ℕ, ◌+◌, ◌%◌, ◌^◌, ltb, ◌≡◌, refl, inl, inr, true, false, none, some, List, [], ◌∷◌, length,
  if◌then◌else◌, arith,
}
use rlyeh_language.Mir.{
  HirBinaryOp, HirUnaryOp, Local, MirValue, MirStmt, MirTerminator, BasicBlock, MirFunction,
}
use text.Mathlib.TextEquality.{eq_iff}
use rlyeh_language.Mir.Int128.{less, wrapping_mul}
use rlyeh_language.Mir.ConstFold.{fold_value, fold_cond_term}
use rlyeh_language.Mir.ConstFold.Meaning.{
  Value, eval, apply, apply_int, apply_unary, eval-fold_value,
}
use rlyeh_language.Mir.ConstFold.Overflow.{fold_value-overflow}
use rlyeh_language.Mir.Dce.Moved.{returning}
use rlyeh_language.Mir.ConstFold.Meaning.Literals.{no_rest, no_rest_unary, fold_value-literal}
use rlyeh_language.Mir.ConstFold.Branches.{
  Env, next_of, run, StoresLiterals, CopiesPlaces, Next, next-fold_cond_term, fold_cond_term_stale,
}
use rlyeh_language.Mir.Dce.{remove_unreachable_blocks, remove_dead_assignments, contains}
use rlyeh_language.Mir.Dce.Operands.{Within, IsCounted, locals_of}
use rlyeh_language.Mir.Dce.Simulation as Simulation
use rlyeh_language.Mir.Dce.DeadAssignments as Dead

abbrev num : ℕ → MirValue
num n = MirValue.int n

-- !(2 * 3 < 7)
abbrev closed_tree : MirValue
closed_tree =
    MirValue.unary HirUnaryOp.not
      (MirValue.binary HirBinaryOp.lt (MirValue.binary HirBinaryOp.mul (num 2) (num 3)) (num 7))

abbrev nothing : Env
nothing x = Value.unit

-- 2 ^ 62 twice, against 1.
fold_value-overflow_example :
    (fold_value (
        MirValue.binary HirBinaryOp.lt
          (num 1)
          (MirValue.binary HirBinaryOp.add (num (2 ^ 62)) (num (2 ^ 62))))
      ≡ MirValue.bool true)
    × (ltb ((1 + 2 ^ 63) % 2 ^ 64) (((2 ^ 62 + 2 ^ 62) % 2 ^ 64 + 2 ^ 63) % 2 ^ 64) ≡ false)
fold_value-overflow_example =
    fold_value-overflow (λ a b. (a + b) % 2 ^ 64)
      (λ a b. ltb ((a + 2 ^ 63) % 2 ^ 64) ((b + 2 ^ 63) % 2 ^ 64)) (2 ^ 62) (2 ^ 62) 1 (λ a b. refl)
      (λ a b. refl) (omega arith) (omega arith) (omega arith) (omega arith)

-- `5 in 'r;`.
abbrev put_away : MirFunction
put_away = record {
  name = "main";
  params = [];
  blocks = returning (MirStmt.assign "_t0" (num 5) ∷ MirStmt.alloc_in_region "_t0" "r" 8 ∷ []) ∷ [];
  is_extern = false;
  extern_sig = none;
}

-- A machine that stores literals and copies places.
abbrev put : Local → Value → Env → Env
put x v env y = if str_eq x y then v else env y

abbrev copying : MirStmt → Env → Env
copying (MirStmt.assign x (MirValue.bool b)) env = put x (Value.bool b) env
copying (MirStmt.assign x (MirValue.place y)) env = put x (env y) env
copying _ env = env

stores : StoresLiterals copying
stores x y b env = refl

copies : CopiesPlaces copying
copies x y z env = refl

abbrev tame_stmts : List MirStmt
tame_stmts = MirStmt.assign "c" (MirValue.bool true) ∷ MirStmt.assign "y" (MirValue.place "c") ∷ []

abbrev tame_block : BasicBlock
tame_block = record { stmts = tame_stmts; terminator = some (MirTerminator.cond_jump "c" 1 2) }

next-fold_cond_term_example :
    next_of
      (fold_cond_term tame_block).terminator
      (run copying (fold_cond_term tame_block).stmts nothing)
    ≡ next_of tame_block.terminator (run copying tame_block.stmts nothing)
next-fold_cond_term_example =
    next-fold_cond_term copying "c" 1 2 tame_stmts nothing stores
      (inl ("c", true, refl), (inr (λ env. refl), tt))

abbrev stale_block : BasicBlock
stale_block = record {
  stmts =
      MirStmt.assign "x" (MirValue.bool true)
      ∷ MirStmt.assign "_t0" (MirValue.bool false)
      ∷ MirStmt.assign "x" (MirValue.place "_t0")
      ∷ [];
  terminator = some (MirTerminator.cond_jump "x" 1 2);
}

fold_cond_term_stale_example :
    (next_of
        (fold_cond_term stale_block).terminator
        (run copying (fold_cond_term stale_block).stmts nothing)
      ≡ Next.goes 1)
    × (next_of stale_block.terminator (run copying stale_block.stmts nothing) ≡ Next.goes 2)
fold_cond_term_stale_example =
    fold_cond_term_stale copying "x" "_t0" true false 1 2 nothing stores copies (λ e. cc)

-- Block 1 is unreachable; block 2 is renumbered.
abbrev blocks : List BasicBlock
blocks =
    record {
      stmts = MirStmt.assign "_t0" (num 5) ∷ MirStmt.assign "_t1" (num 6) ∷ [];
      terminator = some (MirTerminator.jump 2);
    }
    ∷ record { stmts = []; terminator = some (MirTerminator.jump 0) }
    ∷ record {
      stmts = MirStmt.call none "print" ("_t1" ∷ []) ∷ [];
      terminator = some (MirTerminator.ret (some "_t1"));
    }
    ∷ []

abbrev main_function : MirFunction
main_function = record {
  name = "main";
  params = [];
  blocks = blocks;
  is_extern = false;
  extern_sig = none;
}

abbrev count_stmts : List MirStmt → ℕ → ℕ
count_stmts l n = n + length l

remove_unreachable_blocks_sound_example :
    (f : MirFunction) × (remove_unreachable_blocks main_function ≡ some f)
    × ((fuel s : ℕ)
        → Simulation.run ℕ count_stmts (λ x s. true) fuel f.blocks 0 s
          ≡ Simulation.run ℕ count_stmts (λ x s. true) fuel blocks 0 s)
remove_unreachable_blocks_sound_example =
    Simulation.remove_unreachable_blocks_sound ℕ count_stmts (λ x s. true) main_function
      (omega arith) ((omega arith, tt), ((omega arith, tt), (tt, tt)))

-- A machine whose values are numbers; a call is noted in the rest of the state.
abbrev value : MirValue → (Local → ℕ) → ℕ
value (MirValue.int n) env = n
value (MirValue.place y) env = env y
value (MirValue.binary op l r) env = value l env + value r env
value (MirValue.unary op o) env = value o env
value _ env = 0

abbrev sum_of : List Local → (Local → ℕ) → ℕ
sum_of [] env = 0
sum_of (x ∷ xs) env = env x + sum_of xs env

abbrev machine : MirStmt → (Local → ℕ) × ℕ → (Local → ℕ) × ℕ
machine (MirStmt.assign x v) (env, w) = (λ y. if str_eq x y then value v env else env y, w)
machine (MirStmt.call target callee args) (env, w) = (env, w + sum_of args env)
machine s a = a

value-locals_of :
    (v : MirValue) (used : List Local) (e f : Local → ℕ)
    → Within (locals_of v) used
    → ((x : Local) → contains x used ≡ true → e x ≡ f x)
    → value v e ≡ value v f
unfolding contains
value-locals_of (MirValue.place y) used e f w g = g y (w y (ground (arith, eq_iff y y)))
value-locals_of (MirValue.binary op l r) used e f w g = omega (
  arith,
  value-locals_of l used e f (Dead.Within-append_left (locals_of l) (locals_of r) used w) g,
  value-locals_of r used e f (Dead.Within-append_right (locals_of l) (locals_of r) used w) g,
)
value-locals_of (MirValue.unary op o) used e f w g = value-locals_of o used e f w g
value-locals_of _ used e f w g = refl

sum_of-contains :
    (xs used : List Local) (e f : Local → ℕ)
    → Within xs used
    → ((x : Local) → contains x used ≡ true → e x ≡ f x)
    → sum_of xs e ≡ sum_of xs f
unfolding contains
sum_of-contains [] used e f w g = refl
sum_of-contains (x ∷ xs) used e f w g = omega (
  arith,
  g x (w x (ground (arith, eq_iff x x))),
  sum_of-contains xs used e f (λ y m. w y (ground (arith, m))) g,
)

machine-ReadsOperands : Dead.ReadsOperands ℕ ℕ machine (λ v. true)
machine-ReadsOperands (MirStmt.assign x v) used a b d w (g, h) =
    (λ y m. ground (arith, value-locals_of v used a.0 b.0 w g, g y m), h)
machine-ReadsOperands (MirStmt.call target callee args) used a b d w (g, h) =
    (g, omega (arith, sum_of-contains args used a.0 b.0 w g, h))
machine-ReadsOperands _ used a b d w g = g

machine-AssignsTarget : Dead.AssignsTarget ℕ ℕ machine (λ v. true)
machine-AssignsTarget x v a = (λ y n. ground arith, refl)

Within-nil : (used : List Local) → Within [] used
unfolding contains
Within-nil used x m = cc

main_function-IsCounted : IsCounted main_function
main_function-IsCounted =
    (((Within-nil _, tt), ((Within-nil _, tt), tt)), (tt, (((Within-nil _, tt), tt), tt)))

run-remove_dead_assignments_example :
    Dead.run ℕ ℕ machine (λ v. true) 5 (remove_dead_assignments main_function).blocks 0 (λ x. 0, 0)
    ≡ Dead.run ℕ ℕ machine (λ v. true) 5 blocks 0 (λ x. 0, 0)
run-remove_dead_assignments_example =
    Dead.run-remove_dead_assignments ℕ ℕ machine (λ v. true) main_function machine-ReadsOperands
      machine-AssignsTarget main_function-IsCounted 5 0 (λ x. 0, 0)
