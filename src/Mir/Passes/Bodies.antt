-- ===== src/Mir/Passes/Bodies.antt =====
-- The inliner finds a body for each name that it expands, and so never panics.
use text.Mathlib.Text.{◌==◌ as str_eq}
use text.Mathlib.TextEquality.{eq_iff}
use rlyeh_language.Common.{
  All, ℕ, suc, ◌<◌, ◌≡◌, refl, sym, ap, subst, ◌∙◌, ◌⊎◌, inl, inr, true, false, not, ◌&&◌, Option,
  some, List, [], ◌∷◌, ◌++◌, map, arith, length, Bool-cases,
}
use rlyeh_language.Mir.{Local, MirStmt, BasicBlock, MirFunction}
use rlyeh_language.Mir.Dce.{contains}
use rlyeh_language.Mir.Dce.Traversal.{InRange}
use rlyeh_language.Mir.Inline.{
  is_inlineable, single_block, inlineable_names, bodies, find_body, expand_call, expand_function,
  inline_at, inline_stmts, inline_blocks, inline_functions,
}
use rlyeh_language.Mir.Inline.Binding.{Distinct}

-- Jumps inside the function, which has an entry; an external one has no body.
abbrev pub IsWellFormed : MirFunction → Type 0
IsWellFormed f = (f.is_extern ≡ true) ⊎ ((0 < length f.blocks) × InRange (length f.blocks) f.blocks)

abbrev pub names : List MirFunction → List Local
names fs = map (λ f. f.name) fs

inlineable_names-names :
    (x : Local) (fs : List MirFunction)
    → contains x (inlineable_names fs) ≡ true
    → contains x (names fs) ≡ true
unfolding inlineable_names contains
inlineable_names-names x [] h = cc
inlineable_names-names x (f ∷ fs) h = ground (arith, inlineable_names-names x fs)

-- With distinct names, the function of an inlineable name is inlineable.
find_body_inlineable :
    (known : List Local) (callee : Local) (fs : List MirFunction)
    → Distinct (names fs)
    → ((x : Local) → contains x (inlineable_names fs) ≡ true → contains x known ≡ true)
    → contains callee (inlineable_names fs) ≡ true
    → (f : MirFunction) × (find_body callee (bodies known fs) ≡ some f) × (is_inlineable f ≡ true)
unfolding inlineable_names contains bodies find_body
find_body_inlineable known callee [] d k h = absurd cc
find_body_inlineable known callee (f ∷ fs) d k h = elim (Bool-cases (str_eq f.name callee)) [
  | inl e ↦ elim (Bool-cases (is_inlineable f)) [
    | inl i ↦
        let here : contains f.name known ≡ true = k f.name (ground (arith, eq_iff f.name f.name)) in
        (f, ground arith, i)
    | inr i ↦
        let there : contains callee (names fs) ≡ true =
          inlineable_names-names callee fs (ground arith) in
        let same : f.name ≡ callee = (eq_iff f.name callee).0 e in
        let clash : contains callee (names fs) ≡ false =
          ap (λ x. contains x (names fs)) (sym same) ∙ d.0 in
        absurd (ground arith)
  ]
  | inr e ↦
      let (g, q, i) =
        find_body_inlineable known callee fs d.1 (λ x m. k x (ground arith)) (ground arith) in
      (g, ground arith, i)
]

module _ (functions : List MirFunction) (distinct : Distinct (names functions)) where
  abbrev known : List Local
  known = inlineable_names functions

  abbrev found : List MirFunction
  found = bodies known functions

  single_block-cons :
      (l : List BasicBlock) → single_block l ≡ true → (b : BasicBlock) × (l ≡ b ∷ [])
  unfolding single_block
  single_block-cons [] h = absurd (ground arith)
  single_block-cons (b ∷ []) h = (b, refl)
  single_block-cons (b ∷ c ∷ l) h = absurd (ground arith)

  expand_function_total :
      (f : MirFunction) (target : Option Local) (args : List Local) (counter : ℕ)
      → is_inlineable f ≡ true
      → (out : List MirStmt × ℕ) × (expand_function f target args counter ≡ some out)
  unfolding is_inlineable expand_function
  expand_function_total f target args counter h =
      let (b, e) = single_block-cons f.blocks h in
      (expand_call b f.params target args counter, rw (expand_function, e) refl)

  inline_at_total :
      (fname : Local) (s : MirStmt) (counter : ℕ)
      → (out : List MirStmt × ℕ) × (inline_at known found fname s counter ≡ some out)
  unfolding inline_at
  inline_at_total fname (MirStmt.call target callee args) counter =
      elim (Bool-cases (contains callee known && not (str_eq callee fname))) [
        | inr n ↦ ((MirStmt.call target callee args ∷ [], counter), ground arith)
        | inl y ↦
            let (f, q, i) =
              find_body_inlineable known callee functions distinct (λ x m. m) (ground arith) in
            let (out, r) = expand_function_total f target args counter i in (out, ground arith)
      ]
  inline_at_total fname s counter = ((s ∷ [], counter), refl)

  inline_stmts_total :
      (fname : Local) (l : List MirStmt) (counter : ℕ)
      → (out : List MirStmt × ℕ) × (inline_stmts known found fname l counter ≡ some out)
  unfolding inline_stmts
  inline_stmts_total fname [] counter = (([], counter), refl)
  inline_stmts_total fname (s ∷ l) counter =
      let (here, p) = inline_at_total fname s counter in
      let (there, q) = inline_stmts_total fname l here.1 in
      ((here.0 ++ there.0, there.1), rw (p, q) refl)

  inline_blocks_total :
      (fname : Local) (bs : List BasicBlock) (counter : ℕ)
      → (out : List BasicBlock × ℕ) × (inline_blocks known found fname bs counter ≡ some out)
        × (length out.0 ≡ length bs)
        × ((n : ℕ) → InRange n bs → InRange n out.0)
  unfolding inline_blocks
  inline_blocks_total fname [] counter = (([], counter), refl, refl, λ n h. tt)
  inline_blocks_total fname (b ∷ bs) counter =
      let (here, p) = inline_stmts_total fname b.stmts counter in
      let (there, q, size, inside) = inline_blocks_total fname bs here.1 in
      (
        (record b { stmts = here.0 } ∷ there.0, there.1),
        rw (p, q) refl,
        ap suc size,
        λ n h. (h.0, inside n h.1),
      )

  pub inline_functions_total :
      (fs : List MirFunction) (counter : ℕ)
      → All IsWellFormed fs
      → (out : List MirFunction × ℕ) × (inline_functions known found fs counter ≡ some out)
        × All IsWellFormed out.0
        × (names out.0 ≡ names fs)
  unfolding inline_functions
  inline_functions_total [] counter h = (([], counter), refl, tt, refl)
  inline_functions_total (f ∷ fs) counter (h, hs) =
      let (here, p, size, inside) = inline_blocks_total f.name f.blocks counter in
      let (there, q, rest, same) = inline_functions_total fs here.1 hs in
      let kept : IsWellFormed (record f { blocks = here.0 }) = elim h [
        | inl e ↦ inl e
        | inr (nonempty, range) ↦ inr (
          omega (arith, size),
          subst (λ n. InRange n here.0) (sym size) (inside (length f.blocks) range),
        )
      ] in
      (
        (record f { blocks = here.0 } ∷ there.0, there.1),
        rw (p, q) refl,
        (kept, rest),
        ap (λ l. f.name ∷ l) same,
      )
