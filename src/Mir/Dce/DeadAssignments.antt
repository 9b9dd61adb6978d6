-- ===== src/Mir/Dce/DeadAssignments.antt =====
-- remove_dead_assignments keeps what a function returns and what it does to the rest of the world.
use text.Mathlib.Text.{◌==◌ as str_eq}
use text.Mathlib.TextEquality.{eq_iff}
use rlyeh_language.Common.{
  ℕ, zero, suc, ◌≡◌, refl, sym, ap, ◌∙◌, inl, inr, Bool, true, false, ◌||◌, Option, none, some,
  List, [], ◌∷◌, ◌++◌, map, if◌then◌else◌, arith, subst, get_elem?, get_elem?-map, All, Bool-cases,
  Option-cases,
}
use rlyeh_language.Mir.{Local, MirValue, MirStmt, MirTerminator, BasicBlock, MirFunction}
use rlyeh_language.Mir.Dce.Operands.{
  Within, operands, moved, IsDirect, IsCountedIn, IsCounted, Within-operands,
}
use rlyeh_language.Mir.Dce.{
  stmt_used, stmts_used, terminator_used, blocks_used, contains, is_dead, drop_dead, clean_block,
  remove_dead_assignments,
}

pub contains-append :
    (x : Local) (xs ys : List Local) → contains x (xs ++ ys) ≡ contains x xs || contains x ys
unfolding contains
contains-append x [] ys = refl
contains-append x (z ∷ xs) ys = ground (arith, contains-append x xs ys)

pub Within-append_left : (xs ys used : List Local) → Within (xs ++ ys) used → Within xs used
Within-append_left xs ys used w x m = w x (ground (arith, contains-append x xs ys))

pub Within-append_right : (xs ys used : List Local) → Within (xs ++ ys) used → Within ys used
Within-append_right xs ys used w x m = w x (ground (arith, contains-append x xs ys))

contains_differ :
    (x y : Local) (used : List Local)
    → contains x used ≡ false
    → contains y used ≡ true
    → str_eq x y ≡ false
contains_differ x y used n m = elim (Bool-cases (str_eq x y)) [
  | inr f ↦ f
  | inl t ↦
      let same : x ≡ y = (eq_iff x y).0 t in
      let both : contains x used ≡ contains y used = ap (λ z. contains z used) same in
      let clash : true ≡ false = sym m ∙ sym both ∙ n in cc
]

Within-block :
    (blocks : List BasicBlock) (i : ℕ) (k : BasicBlock) (used : List Local)
    → get_elem? blocks i ≡ some k
    → Within (blocks_used blocks) used
    → Within (terminator_used k.terminator) used × Within (stmts_used k.stmts) used
unfolding blocks_used
Within-block [] i k used e w = cc
Within-block (b ∷ rest) zero k used e w =
    let same : b ≡ k = ground arith in
    let inner : Within (stmts_used b.stmts ++ blocks_used rest) used =
      Within-append_right (terminator_used b.terminator) (stmts_used b.stmts ++ blocks_used rest)
        used w in
    subst (λ z. Within (terminator_used z.terminator) used × Within (stmts_used z.stmts) used) same
      (
        Within-append_left (terminator_used b.terminator) (stmts_used b.stmts ++ blocks_used rest)
            used w,
        Within-append_left (stmts_used b.stmts) (blocks_used rest) used inner,
      )
Within-block (b ∷ rest) (suc i) k used e w =
    let inner : Within (stmts_used b.stmts ++ blocks_used rest) used =
      Within-append_right (terminator_used b.terminator) (stmts_used b.stmts ++ blocks_used rest)
        used w in
    Within-block rest i k used e
      (Within-append_right (stmts_used b.stmts) (blocks_used rest) used inner)

All-get_elem? :
    (P : BasicBlock → Type 0) (bs : List BasicBlock) (i : ℕ) (k : BasicBlock)
    → All P bs
    → get_elem? bs i ≡ some k
    → P k
All-get_elem? P [] i k a e = cc
All-get_elem? P (x ∷ bs) zero k a e = subst P {x = x} {y = k} (ground arith) a.0
All-get_elem? P (x ∷ bs) (suc i) k a e = All-get_elem? P bs i k a.1 e

get_elem?-map-none :
    (f : BasicBlock → BasicBlock) (bs : List BasicBlock) (i : ℕ)
    → get_elem? bs i ≡ none
    → get_elem? (map f bs) i ≡ none
get_elem?-map-none f [] i e = refl
get_elem?-map-none f (x ∷ bs) zero e = cc
get_elem?-map-none f (x ∷ bs) (suc i) e = get_elem?-map-none f bs i e

-- The values of locals are `V`, everything else that a statement may read or change is `W`.
module _ (V W : Type 0) (exec : MirStmt → (Local → V) × W → (Local → V) × W)
    (truth : V → Bool) where
  abbrev pub State : Type 0
  State = (Local → V) × W

  -- The same but for locals outside `used`.
  abbrev pub Agree : List Local → State → State → Type 0
  Agree used a b = ((x : Local) → contains x used ≡ true → a.0 x ≡ b.0 x) × (a.1 ≡ b.1)

  -- A direct statement reads its operands only.
  abbrev pub ReadsOperands : Type 0
  ReadsOperands =
      (s : MirStmt) (used : List Local) (a b : State)
      → IsDirect s
      → Within (operands s) used
      → Agree used a b
      → Agree used (exec s a) (exec s b)

  -- An assignment changes its target only.
  abbrev pub AssignsTarget : Type 0
  AssignsTarget =
      (x : Local) (v : MirValue) (a : State)
      → ((y : Local) → str_eq x y ≡ false → (exec (MirStmt.assign x v) a).0 y ≡ a.0 y)
        × ((exec (MirStmt.assign x v) a).1 ≡ a.1)

  pub data End : Type 0 where
    returned : Option V → W → End
    invalid unfinished : End

  abbrev pub exec_all : List MirStmt → State → State
  exec_all [] a = a
  exec_all (s ∷ rest) a = exec_all rest (exec s a)

  abbrev value_of : Option Local → State → Option V
  value_of none a = none
  value_of (some x) a = some (a.0 x)

  abbrev pub follow : (ℕ → State → End) → Option MirTerminator → State → End
  follow go none a = End.invalid
  follow go (some (MirTerminator.ret x)) a = End.returned (value_of x a) a.1
  follow go (some (MirTerminator.jump t)) a = go t a
  follow go (some (MirTerminator.cond_jump c t e)) a = if truth (a.0 c) then go t a else go e a

  abbrev pub enter : (ℕ → State → End) → Option BasicBlock → State → End
  enter go none a = End.invalid
  enter go (some b) a = follow go b.terminator (exec_all b.stmts a)

  pub run : ℕ → List BasicBlock → ℕ → State → End
  run zero blocks i a = End.unfinished
  run (suc fuel) blocks i a = enter (run fuel blocks) (get_elem? blocks i) a

  module _ (reads : ReadsOperands) (assigns : AssignsTarget) (used : List Local) where
    Agree-dead :
        (s : MirStmt) (a b : State)
        → is_dead used s ≡ true
        → Agree used a b
        → Agree used a (exec s b)
    unfolding is_dead
    Agree-dead (MirStmt.assign x v) a b d (same, rest) = (
      λ y m. same y m ∙ sym ((assigns x v b).0 y (contains_differ x y used (ground arith) m)),
      rest ∙ sym (assigns x v b).1,
    )
    Agree-dead _ a b d g = cc

    Agree-drop_dead :
        (l : List MirStmt) (a b : State)
        → Within (stmts_used l) used
        → All (λ s. Within (moved s) used × IsDirect s) l
        → Agree used a b
        → Agree used (exec_all (drop_dead used l) a) (exec_all l b)
    unfolding drop_dead stmts_used
    Agree-drop_dead [] a b w m g = g
    Agree-drop_dead (s ∷ l) a b w m g =
        let rest = Within-append_right (stmt_used s) (stmts_used l) used w in
        let here = Within-append_left (stmt_used s) (stmts_used l) used w in
        elim (Bool-cases (is_dead used s)) [
          | inl d ↦ rw d (Agree-drop_dead l a (exec s b) rest m.1 (Agree-dead s a b d g))
          | inr d ↦ rw d (
              Agree-drop_dead l (exec s a) (exec s b) rest m.1
                (reads s used a b m.0.1 (Within-operands s used here m.0.0) g))
        ]

    follow-Agree :
        (new old : ℕ → State → End) (t : Option MirTerminator) (a b : State)
        → Within (terminator_used t) used
        → Agree used a b
        → ((i : ℕ) (a b : State) → Agree used a b → new i a ≡ old i b)
        → follow new t a ≡ follow old t b
    unfolding terminator_used contains
    follow-Agree new old none a b w g h = refl
    follow-Agree new old (some (MirTerminator.ret none)) a b w g h = rw g.1
    follow-Agree new old (some (MirTerminator.ret (some x))) a b w g h =
        rw (g.0 x (w x (ground (arith, eq_iff x x))), g.1)
    follow-Agree new old (some (MirTerminator.jump t)) a b w g h = h t a b g
    follow-Agree new old (some (MirTerminator.cond_jump c t e)) a b w g h =
        rw (g.0 c (w c (ground (arith, eq_iff c c))), h t a b g, h e a b g)

    enter-clean_block :
        (new old : ℕ → State → End) (k : BasicBlock) (a b : State)
        → Within (terminator_used k.terminator) used × Within (stmts_used k.stmts) used
        → IsCountedIn used k
        → Agree used a b
        → ((i : ℕ) (a b : State) → Agree used a b → new i a ≡ old i b)
        → enter new (some (clean_block used k)) a ≡ enter old (some k) b
    unfolding clean_block
    enter-clean_block new old k a b (wt, ws) m g h =
        follow-Agree new old k.terminator (exec_all (drop_dead used k.stmts) a) (exec_all k.stmts b)
          wt (Agree-drop_dead k.stmts a b ws m g) h

    run-clean :
        (blocks : List BasicBlock)
        → Within (blocks_used blocks) used
        → All (IsCountedIn used) blocks
        → (fuel i : ℕ) (a b : State) → Agree used a b
        → run fuel (map (clean_block used) blocks) i a ≡ run fuel blocks i b
    unfolding run
    run-clean blocks w m zero i a b g = refl
    run-clean blocks w m (suc fuel) i a b g = elim (Option-cases (get_elem? blocks i)) [
      | inl n ↦ rw (get_elem?-map-none (clean_block used) blocks i n, n) refl
      | inr (k, e) ↦
          rw (get_elem?-map (clean_block used) blocks i k e, e)
            (enter-clean_block (run fuel (map (clean_block used) blocks)) (run fuel blocks) k a b
              (Within-block blocks i k used e w) (All-get_elem? (IsCountedIn used) blocks i k m e) g
              (run-clean blocks w m fuel))
    ]

  -- For a function without statements on the addresses of scalars, in which what is transferred or
  -- moved into a region is also used in another way, and under a meaning of statements by which each
  -- reads its operands only and an assignment changes its target only: without its dead assignments
  -- the function ends, from every block and with every fuel, as it does with them, with the same
  -- returned value and the same rest of the state.
  pub run-remove_dead_assignments :
      (f : MirFunction)
      → ReadsOperands
      → AssignsTarget
      → IsCounted f
      → (fuel i : ℕ) (a : State)
      → run fuel (remove_dead_assignments f).blocks i a ≡ run fuel f.blocks i a
  unfolding remove_dead_assignments
  run-remove_dead_assignments f reads assigns moves fuel i a =
      run-clean reads assigns (blocks_used f.blocks) f.blocks (λ x m. m) moves fuel i a a
        (λ x m. refl, refl)
