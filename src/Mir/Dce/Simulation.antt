-- ===== src/Mir/Dce/Simulation.antt =====
-- remove_unreachable_blocks keeps every run of a function, whatever its statements do.
use rlyeh_language.Common.{
  ℕ, zero, suc, ◌+◌, ◌<◌, ◌≡◌, refl, sym, ap, subst, ◌∙◌, inl, inr, Bool, true, false, Option, none,
  some, List, [], ◌∷◌, get_elem?-map, if◌then◌else◌, arith, length, get_elem?, get_or, get_elem?-lt,
  get_elem?-some,
}
use rlyeh_language.Mir.{Local, MirStmt, MirTerminator, BasicBlock, MirFunction}
use rlyeh_language.Mir.Dce.{
  successors, successors_of, renumber, keep_blocks, remap_terminator, remap_block, keep_reachable,
  usize_max, remove_unreachable_blocks,
}
use rlyeh_language.Mir.Dce.Traversal.{IsMarked, In, InRange, entry-IsMarked, traverse-entry_marked}

-- How many blocks before `i` stay.
pub rank : List Bool → ℕ → ℕ
rank [] i = 0
rank (b ∷ r) zero = 0
rank (true ∷ r) (suc i) = suc (rank r i)
rank (false ∷ r) (suc i) = rank r i

rank-zero : (r : List Bool) → rank r 0 ≡ 0
unfolding rank
rank-zero [] = refl
rank-zero (true ∷ r) = refl
rank-zero (false ∷ r) = refl

get_or-renumber :
    (r : List Bool) (next i : ℕ)
    → IsMarked r i
    → get_or (renumber r next) i usize_max ≡ next + rank r i
unfolding renumber rank
get_or-renumber [] next i m = cc
get_or-renumber (true ∷ r) next zero m = omega arith
get_or-renumber (false ∷ r) next zero m = cc
get_or-renumber (true ∷ r) next (suc i) m = omega (arith, get_or-renumber r (suc next) i m)
get_or-renumber (false ∷ r) next (suc i) m = get_or-renumber r next i m

pub new_number :
    (r : List Bool) (i : ℕ) → IsMarked r i → get_or (renumber r 0) i usize_max ≡ rank r i
new_number r i m = omega (arith, get_or-renumber r 0 i m)

pub get_elem?-keep_blocks :
    (r : List Bool) (bs : List BasicBlock) (i : ℕ)
    → length r ≡ length bs
    → IsMarked r i
    → get_elem? (keep_blocks r bs) (rank r i) ≡ get_elem? bs i
unfolding keep_blocks rank
get_elem?-keep_blocks [] bs i h m = cc
get_elem?-keep_blocks (b ∷ r) [] i h m = absurd (omega arith)
get_elem?-keep_blocks (true ∷ r) (x ∷ bs) zero h m = refl
get_elem?-keep_blocks (false ∷ r) (x ∷ bs) zero h m = cc
get_elem?-keep_blocks (true ∷ r) (x ∷ bs) (suc i) h m = get_elem?-keep_blocks r bs i (omega arith) m
get_elem?-keep_blocks (false ∷ r) (x ∷ bs) (suc i) h m =
    get_elem?-keep_blocks r bs i (omega arith) m

-- How a run ends; `unfinished` when the fuel runs out first.
pub data Outcome (S : Type 0) : Type 0 where
  returned : Option Local → S → Outcome S
  invalid : Outcome S
  unfinished : Outcome S

-- `exec` runs the statements of a block, `test` reads a condition.
module _ (S : Type 0) (exec : List MirStmt → S → S) (test : Local → S → Bool) where
  -- `go` runs from a block on.
  abbrev pub follow : (ℕ → S → Outcome S) → Option MirTerminator → S → Outcome S
  follow go none s = Outcome.invalid
  follow go (some (MirTerminator.ret x)) s = Outcome.returned x s
  follow go (some (MirTerminator.jump t)) s = go t s
  follow go (some (MirTerminator.cond_jump c t e)) s = if test c s then go t s else go e s

  abbrev pub enter : (ℕ → S → Outcome S) → Option BasicBlock → S → Outcome S
  enter go none s = Outcome.invalid
  enter go (some b) s = follow go b.terminator (exec b.stmts s)

  pub run : ℕ → List BasicBlock → ℕ → S → Outcome S
  run zero blocks i s = Outcome.unfinished
  run (suc fuel) blocks i s = enter (run fuel blocks) (get_elem? blocks i) s

  -- Two runners that agree on the marked blocks, under the new numbers.
  abbrev Agrees : List Bool → (ℕ → S → Outcome S) → (ℕ → S → Outcome S) → Type 0
  Agrees r new old = (t : ℕ) (s : S) → IsMarked r t → new (rank r t) s ≡ old t s

  follow-remap_terminator :
      (r : List Bool) (new old : ℕ → S → Outcome S) (t : Option MirTerminator) (s : S)
      → ((i : ℕ) → In i (successors_of t) → IsMarked r i)
      → Agrees r new old
      → follow new (remap_terminator (renumber r 0) t) s ≡ follow old t s
  unfolding remap_terminator
  follow-remap_terminator r new old none s m g = refl
  follow-remap_terminator r new old (some (MirTerminator.ret x)) s m g = refl
  follow-remap_terminator r new old (some (MirTerminator.jump t)) s m g =
      rw (new_number r t (m t (inl refl))) (g t s (m t (inl refl)))
  follow-remap_terminator r new old (some (MirTerminator.cond_jump c t e)) s m g = rw (
    new_number r t (m t (inl refl)),
    new_number r e (m e (inr (inl refl))),
    g t s (m t (inl refl)),
    g e s (m e (inr (inl refl))),
  )

  module _ (blocks : List BasicBlock) (r : List Bool) (size : length r ≡ length blocks) where
    abbrev Closed : Type 0
    Closed =
        (i t : ℕ) (b : BasicBlock)
        → IsMarked r i
        → get_elem? blocks i ≡ some b
        → In t (successors b)
        → IsMarked r t

    get_elem?-keep_reachable :
        (i : ℕ) (b : BasicBlock)
        → IsMarked r i
        → get_elem? blocks i ≡ some b
        → get_elem? (keep_reachable blocks r) (rank r i) ≡ some (remap_block (renumber r 0) b)
    unfolding keep_reachable
    get_elem?-keep_reachable i b m e =
        get_elem?-map (remap_block (renumber r 0)) (keep_blocks r blocks) (rank r i) b
          (get_elem?-keep_blocks r blocks i size m ∙ e)

    run-keep_reachable :
        (fuel : ℕ) → Closed → Agrees r (run fuel (keep_reachable blocks r)) (run fuel blocks)
    unfolding run remap_block
    run-keep_reachable zero closed t s m = refl
    run-keep_reachable (suc fuel) closed t s m =
        let (b, e) = get_elem?-some blocks t (subst (λ n. t < n) size (get_elem?-lt r t true m)) in
        rw (get_elem?-keep_reachable t b m e, e)
          (follow-remap_terminator r (run fuel (keep_reachable blocks r)) (run fuel blocks)
            b.terminator (exec b.stmts s) (λ i k. closed t i b m e k)
            (run-keep_reachable fuel closed))

  -- A function whose jumps stay inside it loses no panic and keeps every run: with the same fuel the
  -- new function, from its entry, ends as the old one does.
  pub remove_unreachable_blocks_sound :
      (f : MirFunction)
      → 0 < length f.blocks
      → InRange (length f.blocks) f.blocks
      → (f' : MirFunction) × (remove_unreachable_blocks f ≡ some f')
        × ((fuel : ℕ) (s : S) → run fuel f'.blocks 0 s ≡ run fuel f.blocks 0 s)
  unfolding remove_unreachable_blocks
  remove_unreachable_blocks_sound f nonempty inside =
      let (r, e, size, keeps, closed) = traverse-entry_marked f.blocks inside nonempty in
      let marked : IsMarked r 0 = keeps 0 (entry-IsMarked f.blocks inside nonempty) in
      (
        record f { blocks = keep_reachable f.blocks r },
        rw e (ground arith),
        λ fuel s.
            ap (λ n. run fuel (keep_reachable f.blocks r) n s) (sym (rank-zero r))
            ∙ run-keep_reachable f.blocks r size fuel closed 0 s marked,
      )
