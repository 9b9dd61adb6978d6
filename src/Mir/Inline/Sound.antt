-- ===== src/Mir/Inline/Sound.antt =====
-- What stands for an inlined call does what the callee does, on the caller's locals.
use text.Mathlib.Text.{◌==◌ as str_eq}
use rlyeh_language.Common.{◌≡◌, true, false, List, [], ◌∷◌, if◌then◌else◌}
use rlyeh_language.Mir.{Local, MirValue, MirStmt}
use rlyeh_language.Mir.Dce.{contains}
use rlyeh_language.Mir.Dce.Operands.{Within, IsDirect}
use rlyeh_language.Mir.Inline.Names.{rename_stmt, names_of, targets_of}
use rlyeh_language.Mir.Inline.Inlined.{InjectiveOn}

-- The values of locals are `V`, everything else that a statement may read or change is `W`.
module _ (V W : Type 0) (exec : MirStmt → (Local → V) × W → (Local → V) × W) where
  abbrev pub State : Type 0
  State = (Local → V) × W

  abbrev pub exec_all : List MirStmt → State → State
  exec_all [] a = a
  exec_all (s ∷ rest) a = exec_all rest (exec s a)

  -- `b` holds the callee's state `a` under other names.
  abbrev pub Corresponds : (Local → Local) → List Local → State → State → Type 0
  Corresponds f l a b = ((x : Local) → contains x l ≡ true → a.0 x ≡ b.0 (f x)) × (a.1 ≡ b.1)

  -- The names of locals mean nothing to a direct statement.
  abbrev pub IgnoresNames : Type 0
  IgnoresNames =
      (s : MirStmt) (f : Local → Local) (l : List Local) (a b : State)
      → IsDirect s
      → Within (names_of s) l
      → InjectiveOn f l
      → Corresponds f l a b
      → Corresponds f l (exec s a) (exec (rename_stmt f s) b)

  -- A direct statement changes no local but its target.
  abbrev pub ChangesTarget : Type 0
  ChangesTarget =
      (s : MirStmt) (y : Local) (a : State)
      → IsDirect s
      → contains y (targets_of s) ≡ false
      → (exec s a).0 y ≡ a.0 y

  abbrev pub CopiesPlaces : Type 0
  CopiesPlaces =
      (t p y : Local) (a : State)
      → ((exec (MirStmt.assign t (MirValue.place p)) a).0 y ≡ (if str_eq t y then a.0 p else a.0 y))
        × ((exec (MirStmt.assign t (MirValue.place p)) a).1 ≡ a.1)
