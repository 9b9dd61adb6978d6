-- ===== src/Mir/ConstFold/Branches.antt =====
-- fold_cond_terms: when the choice that it makes is the one that the block would make, and when
-- it is not.
use text.Mathlib.Text.{◌==◌ as str_eq}
use text.Mathlib.TextEquality.{eq_iff}
use rlyeh_language.Common.{
  ℕ, ◌≡◌, ◌≢◌, refl, ◌∙◌, ◌⊎◌, inl, inr, Bool, Option, none, some, List, [], ◌∷◌, if◌then◌else◌,
  arith, All,
}
use rlyeh_language.Mir.{Local, MirValue, MirStmt, MirTerminator, BasicBlock}
use rlyeh_language.Mir.ConstFold.{
  Consts, get, note_const, collect_consts, chosen, fold_terminator, fold_cond_term,
}
use rlyeh_language.Mir.ConstFold.Meaning.{Value}

abbrev pub Env : Type 0
Env = Local → Value

-- Where control goes.
pub data Next : Type 0 where
  returns : Option Local → Next
  goes : ℕ → Next
  stuck : Next

-- The branch on a value that is no Boolean goes nowhere.
abbrev pub branch : Value → ℕ → ℕ → Next
branch (Value.bool b) t e = Next.goes (if b then t else e)
branch _ t e = Next.stuck

abbrev pub next_of : Option MirTerminator → Env → Next
next_of none env = Next.stuck
next_of (some (MirTerminator.ret x)) env = Next.returns x
next_of (some (MirTerminator.jump t)) env = Next.goes t
next_of (some (MirTerminator.cond_jump c t e)) env = branch (env c) t e

-- `exec` runs a statement; a Boolean literal is stored as it stands.
module _ (exec : MirStmt → Env → Env) where
  abbrev pub StoresLiterals : Type 0
  StoresLiterals =
      (x y : Local) (b : Bool) (env : Env)
      → exec (MirStmt.assign x (MirValue.bool b)) env y
        ≡ (if str_eq x y then Value.bool b else env y)

  abbrev pub run : List MirStmt → Env → Env
  run [] env = env
  run (s ∷ rest) env = run rest (exec s env)

  abbrev pub CopiesPlaces : Type 0
  CopiesPlaces =
      (x y z : Local) (env : Env)
      → exec (MirStmt.assign x (MirValue.place y)) env z ≡ (if str_eq x z then env y else env z)

  -- A statement that stores a Boolean literal, or that leaves `c` alone.
  abbrev pub IsTame : Local → MirStmt → Type 0
  IsTame c s =
      ((x : Local) × (b : Bool) × (s ≡ MirStmt.assign x (MirValue.bool b)))
      ⊎ ((env : Env) → exec s env c ≡ env c)

  -- What the collected constants say of `c` is so.
  abbrev Knows : Local → Consts → Env → Type 0
  Knows c consts env = (b : Bool) → get c consts ≡ some b → env c ≡ Value.bool b

  Knows-literal :
      (c x : Local) (b : Bool) (consts : Consts) (env : Env)
      → StoresLiterals
      → Knows c consts env
      → Knows c ((x, b) ∷ consts) (exec (MirStmt.assign x (MirValue.bool b)) env)
  unfolding get
  Knows-literal c x b consts env st k d e = ground (arith, st x c b env, k d)

  Knows-note_const :
      (c : Local) (s : MirStmt) (consts : Consts) (env : Env)
      → StoresLiterals
      → IsTame c s
      → Knows c consts env
      → Knows c (note_const s consts) (exec s env)
  unfolding note_const
  Knows-note_const c (MirStmt.assign x (MirValue.bool b)) consts env st tame k =
      Knows-literal c x b consts env st k
  Knows-note_const c _ consts env st (inl (x, b, e)) k = cc
  Knows-note_const c _ consts env st (inr same) k = λ d e. same env ∙ k d e

  Knows-collect_consts :
      (c : Local) (l : List MirStmt) (consts : Consts) (env : Env)
      → StoresLiterals
      → All (IsTame c) l
      → Knows c consts env
      → Knows c (collect_consts l consts) (run l env)
  unfolding collect_consts
  Knows-collect_consts c [] consts env st tame k = k
  Knows-collect_consts c (s ∷ l) consts env st tame k =
      Knows-collect_consts c l (note_const s consts) (exec s env) st tame.1
        (Knows-note_const c s consts env st tame.0 k)

  next-chosen :
      (c : Local) (t e : ℕ) (o : Option Bool) (env : Env)
      → ((b : Bool) → o ≡ some b → env c ≡ Value.bool b)
      → next_of (some (chosen o c t e)) env ≡ branch (env c) t e
  unfolding chosen
  next-chosen c t e none env k = refl
  next-chosen c t e (some b) env k = rw (k b refl)

  -- Where literals are stored as they stand, and the statements of a block leave the condition
  -- alone or store Boolean literals, the folded block goes where the block went.
  pub next-fold_cond_term :
      (c : Local) (t e : ℕ) (l : List MirStmt) (env : Env)
      → StoresLiterals
      → All (IsTame c) l
      → let b : BasicBlock = record {
        stmts = l;
        terminator = some (MirTerminator.cond_jump c t e);
      } in
        next_of (fold_cond_term b).terminator (run (fold_cond_term b).stmts env)
        ≡ next_of b.terminator (run b.stmts env)
  unfolding fold_cond_term fold_terminator get
  next-fold_cond_term c t e l env st tame =
      next-chosen c t e (get c (collect_consts l [])) (run l env)
        (Knows-collect_consts c l [] env st tame (λ b q. cc))

  -- Where literals are stored and places are copied as they stand, and `x` is not `tmp`: after
  -- `x = a; tmp = b; x = tmp`, a branch on `x` is folded to the branch of `a`, while the block
  -- takes that of `b`.
  pub fold_cond_term_stale :
      (x tmp : Local) (a b : Bool) (t e : ℕ) (env : Env)
      → StoresLiterals
      → CopiesPlaces
      → x ≢ tmp
      → let blk : BasicBlock = record {
        stmts =
            MirStmt.assign x (MirValue.bool a)
            ∷ MirStmt.assign tmp (MirValue.bool b)
            ∷ MirStmt.assign x (MirValue.place tmp)
            ∷ [];
        terminator = some (MirTerminator.cond_jump x t e);
      } in
        (next_of (fold_cond_term blk).terminator (run (fold_cond_term blk).stmts env)
          ≡ Next.goes (if a then t else e))
        × (next_of blk.terminator (run blk.stmts env) ≡ Next.goes (if b then t else e))
  unfolding fold_cond_term collect_consts note_const get fold_terminator chosen
  fold_cond_term_stale x tmp a b t e env st cp n =
      let env1 = exec (MirStmt.assign x (MirValue.bool a)) env in
      let env2 = exec (MirStmt.assign tmp (MirValue.bool b)) env1 in
      (
        ground (arith, eq_iff tmp x, eq_iff x x),
        ground (arith, eq_iff x x, eq_iff tmp tmp, cp x tmp x env2, st tmp tmp b env1),
      )
