-- ===== src/Mir/Passes/Total.antt =====
-- The pipeline never panics on a program whose functions are well formed.
use rlyeh_language.Common.{
  ◌<◌, ◌≡◌, refl, sym, ap, subst, ◌∙◌, inl, inr, some, List, [], ◌∷◌, map, arith, length,
  length-map, All, Bool-cases,
}
use rlyeh_language.Mir.{MirFunction, MirProgram}
use rlyeh_language.Mir.ConstFold.{
  fold_assigns, fold_block, fold_cond_terms, fold_cond_term, constant_fold,
}
use rlyeh_language.Mir.Dce.{
  keep_reachable, clean_block, blocks_used, remove_unreachable_blocks, remove_dead_assignments,
  eliminate, eliminate_all, dead_code_elimination,
}
use rlyeh_language.Mir.Dce.Traversal.{InRange, entry-IsMarked, traverse-entry_marked}
use rlyeh_language.Mir.Inline.{inline_small_functions}
use rlyeh_language.Mir.Inline.Binding.{Distinct}
use rlyeh_language.Mir.Passes.{optimize}
use rlyeh_language.Mir.Passes.Ranges.{InRange-map, fold_cond_term-InRange, keep_reachable-InRange}
use rlyeh_language.Mir.Passes.Bodies.{IsWellFormed, names, inline_functions_total}

fold-IsWellFormed :
    (f : MirFunction) → IsWellFormed f → IsWellFormed (fold_cond_terms (fold_assigns f))
unfolding fold_cond_terms fold_assigns fold_block
fold-IsWellFormed f (inl e) = inl e
fold-IsWellFormed f (inr (nonempty, inside)) =
    let n = length f.blocks in
    let size : length (map fold_cond_term (map fold_block f.blocks)) ≡ n =
      length-map fold_cond_term (map fold_block f.blocks) ∙ length-map fold_block f.blocks in
    inr (
      omega (arith, size),
      subst (λ n. InRange n (map fold_cond_term (map fold_block f.blocks))) (sym size)
          (InRange-map n fold_cond_term (fold_cond_term-InRange n) (map fold_block f.blocks)
            (InRange-map n fold_block (λ b h. h) f.blocks inside)),
    )

constant_fold-IsWellFormed :
    (fs : List MirFunction)
    → All IsWellFormed fs
    → All IsWellFormed (map (λ f. fold_cond_terms (fold_assigns f)) fs)
      × (names (map (λ f. fold_cond_terms (fold_assigns f)) fs) ≡ names fs)
unfolding fold_cond_terms fold_assigns
constant_fold-IsWellFormed [] h = (tt, refl)
constant_fold-IsWellFormed (f ∷ fs) (h, hs) =
    let (rest, same) = constant_fold-IsWellFormed fs hs in
    ((fold-IsWellFormed f h, rest), ap (λ l. f.name ∷ l) same)

remove_dead_assignments-IsWellFormed :
    (f : MirFunction) → IsWellFormed f → IsWellFormed (remove_dead_assignments f)
unfolding remove_dead_assignments clean_block
remove_dead_assignments-IsWellFormed f (inl e) = inl e
remove_dead_assignments-IsWellFormed f (inr (nonempty, inside)) =
    let c = clean_block (blocks_used f.blocks) in
    let size : length (map c f.blocks) ≡ length f.blocks = length-map c f.blocks in
    inr (
      omega (arith, size),
      subst (λ n. InRange n (map c f.blocks)) (sym size)
          (InRange-map (length f.blocks) c (λ b h. h) f.blocks inside),
    )

remove_unreachable_blocks_total :
    (f : MirFunction)
    → 0 < length f.blocks
    → InRange (length f.blocks) f.blocks
    → (g : MirFunction) × (remove_unreachable_blocks f ≡ some g)
      × IsWellFormed g
      × (g.name ≡ f.name)
unfolding remove_unreachable_blocks
remove_unreachable_blocks_total f nonempty inside =
    let (r, e, size, keeps, closed) = traverse-entry_marked f.blocks inside nonempty in
    (
      record f { blocks = keep_reachable f.blocks r },
      rw e (ground arith),
      inr (
          keep_reachable-InRange f.blocks r size (keeps 0 (entry-IsMarked f.blocks inside nonempty))
            closed),
      refl,
    )

eliminate_total :
    (f : MirFunction)
    → IsWellFormed f
    → (g : MirFunction) × (eliminate f ≡ some g) × IsWellFormed g × (g.name ≡ f.name)
unfolding eliminate
eliminate_total f h = elim (Bool-cases f.is_extern) [
  | inl e ↦ (f, ground arith, h, refl)
  | inr e ↦ elim h [
    | inl x ↦ absurd (ground arith)
    | inr (nonempty, inside) ↦
        let (g, q, w, same) = remove_unreachable_blocks_total f nonempty inside in
        (remove_dead_assignments g, ground arith, remove_dead_assignments-IsWellFormed g w, same)
  ]
]

eliminate_all_total :
    (fs : List MirFunction)
    → All IsWellFormed fs
    → (gs : List MirFunction) × (eliminate_all fs ≡ some gs)
      × All IsWellFormed gs
      × (names gs ≡ names fs)
unfolding eliminate_all
eliminate_all_total [] h = ([], refl, tt, refl)
eliminate_all_total (f ∷ fs) (h, hs) =
    let (g, q, w, same) = eliminate_total f h in
    let (gs, r, ws, rest) = eliminate_all_total fs hs in
    (g ∷ gs, rw (q, r) refl, (w, ws), ground (arith, same, rest))

-- On a program whose functions have distinct names, and are external or have an entry and jump only
-- to their own blocks, no pass panics, and the result is such a program with the same names in order.
pub optimize_total :
    (p : MirProgram)
    → All IsWellFormed p.functions
    → Distinct (names p.functions)
    → (q : MirProgram) × (optimize p ≡ some q)
      × All IsWellFormed q.functions
      × (names q.functions ≡ names p.functions)
unfolding optimize constant_fold dead_code_elimination inline_small_functions
optimize_total p h d =
    let (folded, n1) = constant_fold-IsWellFormed p.functions h in
    let (gs, e2, w2, n2) =
      eliminate_all_total (map (λ f. fold_cond_terms (fold_assigns f)) p.functions) folded in
    let (hs, e3, w3, n3) = inline_functions_total gs (subst Distinct (sym (n2 ∙ n1)) d) gs 0 w2 in
    let (ks, e4, w4, n4) = eliminate_all_total hs.0 w3 in
    (record { functions = ks }, rw (e2, e3, e4) refl, w4, n4 ∙ n3 ∙ n2 ∙ n1)
