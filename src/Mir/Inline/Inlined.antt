-- ===== src/Mir/Inline/Inlined.antt =====
-- The statements that stand for an inlined call are those of the callee under new names.
use rlyeh_language.Common.{ℕ, ◌≡◌, refl, true, Option, some, List, [], ◌∷◌, ◌++◌, map, arith}
use rlyeh_language.Mir.{Local, MirStmt, MirTerminator, BasicBlock}
use rlyeh_language.Mir.Dce.{contains}
use rlyeh_language.Mir.Inline.{
  Renamer, ◌>>>=◌, pure, push_some, inline_body, inline_return, bind_params, bind_call_result,
  expand_call, no_region_op,
}
use rlyeh_language.Mir.Inline.Names.{rename_stmt, names_of_all}
use rlyeh_language.Mir.Inline.Renaming.{
  Renames, Renames-pure, Renames-map, Renames-two, Renames-map_local, Renames-inline_stmt,
}

Renames-inline_body :
    (l : List MirStmt)
    → no_region_op l ≡ true
    → Renames (inline_body l) (λ f. map (rename_stmt f) l) (names_of_all l)
unfolding inline_body no_region_op names_of_all
Renames-inline_body [] h = Renames-pure []
Renames-inline_body (s ∷ l) h =
    Renames-two push_some (Renames-inline_stmt s (ground arith))
      (Renames-inline_body l (ground arith))

Renames-inline_return :
    (target : Option Local) (p : Local)
    → Renames
        (inline_return target (some (MirTerminator.ret (some p))))
        (λ f. bind_call_result target (f p))
        (p ∷ [])
unfolding inline_return
Renames-inline_return target p = Renames-map (bind_call_result target) (Renames-map_local p)

-- The names of a callee: those of its statements and the returned one.
abbrev pub callee_names : List MirStmt → Local → List Local
callee_names l p = names_of_all l ++ p ∷ []

-- Both parts of an expanded call, as one routine.
abbrev pub expanded : List MirStmt → Option Local → Local → Renamer → List MirStmt × Renamer
expanded l target p = inline_body l >>>= λ a.
    inline_return target (some (MirTerminator.ret (some p))) >>>= λ b. pure (a ++ b)

pub Renames-expanded :
    (l : List MirStmt) (target : Option Local) (p : Local)
    → no_region_op l ≡ true
    → Renames
        (expanded l target p)
        (λ f. map (rename_stmt f) l ++ bind_call_result target (f p))
        (callee_names l p)
Renames-expanded l target p h =
    Renames-two (λ a b. a ++ b) (Renames-inline_body l h) (Renames-inline_return target p)

abbrev pub InjectiveOn : (Local → Local) → List Local → Type 0
InjectiveOn f l = (x y : Local) → contains x l ≡ true → contains y l ≡ true → f x ≡ f y → x ≡ y

pub expand_call-expanded :
    (body : BasicBlock) (params args : List Local) (target : Option Local) (p : Local) (counter : ℕ)
    → body.terminator ≡ some (MirTerminator.ret (some p))
    → (expand_call body params target args counter).0
      ≡ (expanded body.stmts target p (bind_params params args [], counter)).0
unfolding expand_call
expand_call-expanded body params args target p counter e = rw (e, expand_call) refl
