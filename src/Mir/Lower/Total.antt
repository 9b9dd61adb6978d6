-- ===== src/Mir/Lower/Total.antt =====
-- Lowering a program never panics, and the optimiser does not panic on what it returns.
use Prim.Native.String.{String}
use rlyeh_language.Common.{
  ℕ, ◌≡◌, refl, sym, ap, subst, ◌∙◌, inl, inr, false, Option, none, some, List, [], ◌∷◌, ◌++◌,
  arith, All, All-append, Bool-cases, if◌then◌else◌,
}
use rlyeh_language.Hir.{HirParam, HirBlock, HirFnDecl, HirItemKind, HirItem, HirProgram}
use rlyeh_language.Mir.{Local, BasicBlock, MirFunction, MirProgram}
use rlyeh_language.Mir.Passes.{optimize}
use rlyeh_language.Mir.Passes.Bodies.{IsWellFormed, names}
use rlyeh_language.Mir.Passes.Total.{optimize_total}
use rlyeh_language.Mir.Inline.Binding.{Distinct}
use rlyeh_language.Mir.Lower.{MirLowerer, Lowering, pure, ◌>>=◌, cur_closed}
use rlyeh_language.Mir.Lower.Rules.{Inv, Lowers, cur_closed-Lowers, terminate-Lowers}
use rlyeh_language.Mir.Lower.Keeps.{Lowers-bind, Lowers-if, Lowers-pure}
use rlyeh_language.Mir.Lower.Scopes.{IsScopedBlock, IsScopedBody, IsScopedItem, IsScopedProgram}
use rlyeh_language.Mir.Lower.Sound.{lower_block-Lowers}
use rlyeh_language.Mir.Lower.Program.{
  new, start_function, take_blocks, close_function, param_names, lower_function, lower_body,
  lower_item, lower_items, lower_program,
}
use rlyeh_language.Mir.Lower.Expr.{lower_block}

close_function-Lowers : {n d : ℕ} (val : Option Local) → Lowers n d d (close_function val)
unfolding close_function
close_function-Lowers val =
    Lowers-bind cur_closed _ cur_closed-Lowers
      λ k closed le. Lowers-if closed _ _ (Lowers-pure tt) (terminate-Lowers _ tt)

-- The state in which a function starts.
started : MirLowerer → MirLowerer
started s =
    let empty : BasicBlock = record { stmts = []; terminator = none } in
    record s { blocks = empty ∷ []; cur = 0; temp_counter = 0; loop_stack = [] }

started-Inv : (s : MirLowerer) → s.debug_assertions ≡ false → Inv 1 0 (started s)
unfolding started
started-Inv s release = record {
  size = omega arith;
  here = omega arith;
  inside = (tt, tt);
  loops = tt;
  depth = refl;
  no_asserts = release;
}

names-append : (fs gs : List MirFunction) → names (fs ++ gs) ≡ names fs ++ names gs
names-append [] gs = refl
names-append (f ∷ fs) gs = ap (λ l. f.name ∷ l) (names-append fs gs)

lower_function_total :
    (name : String) (params : List HirParam) (body : HirBlock)
    → IsScopedBlock 0 body
    → (s : MirLowerer) → s.debug_assertions ≡ false
    → (out : MirFunction × MirLowerer) × (lower_function name params body s ≡ some out)
      × IsWellFormed out.0
      × (out.0.name ≡ name)
      × (out.1.debug_assertions ≡ false)
unfolding lower_function start_function take_blocks ◌>>=◌ pure started
lower_function_total name params body h s release =
    let whole : Lowers 1 0 0 (lower_block body >>= close_function) =
      Lowers-bind (lower_block body) close_function (lower_block-Lowers body h 1)
        λ k val le. close_function-Lowers val in
    let ((u, s'), e, v, r) = whole.run (started s) (started-Inv s release) in
    (
      (
        record {
          name = name;
          params = param_names params;
          blocks = s'.blocks;
          is_extern = false;
          extern_sig = none;
        },
        record s' { blocks = [] },
      ),
      rw e refl,
      inr (omega (arith, v.size), v.inside),
      refl,
      v.no_asserts,
    )

-- The names of the functions that a program declares, without its abstract methods.
abbrev pub fn_names : String → HirFnDecl → Option HirBlock → List Local
fn_names name f (some body) = name ∷ []
fn_names name f none = if f.is_extern then name ∷ [] else []

abbrev pub item_names : String → HirItemKind → List Local
item_names name (HirItemKind.fn f) = fn_names name f f.body
item_names name (HirItemKind.constant c) = []

abbrev pub declared_names : List HirItem → List Local
declared_names [] = []
declared_names (item ∷ items) = item_names item.name item.kind ++ declared_names items

-- What a part of the program is lowered to.
abbrev Lowered : List Local → Lowering (List MirFunction) → Type 0
Lowered declared m =
    (s : MirLowerer)
    → s.debug_assertions ≡ false
    → (out : List MirFunction × MirLowerer) × (m s ≡ some out)
      × All IsWellFormed out.0
      × (names out.0 ≡ declared)
      × (out.1.debug_assertions ≡ false)

Lowered-empty : Lowered [] (pure [])
unfolding pure
Lowered-empty s release = (([], s), refl, tt, refl, release)

lower_body_total :
    (name : String) (f : HirFnDecl) (o : Option HirBlock)
    → IsScopedBody o
    → Lowered (fn_names name f o) (lower_body name f o)
unfolding lower_body ◌>>=◌ pure
lower_body_total name f (some body) h s release =
    let ((g, s'), e, w, same, release') = lower_function_total name f.params body h s release in
    ((g ∷ [], s'), rw e refl, (w, tt), ap (λ x. x ∷ []) same, release')
lower_body_total name f none h s release = elim (Bool-cases f.is_extern) [
  | inl e ↦ ((_, s), refl, rw e (inl refl, tt), rw e refl, release)
  | inr e ↦ ((_, s), refl, rw e tt, rw e refl, release)
]

lower_item_total :
    (name : String) (k : HirItemKind)
    → IsScopedItem k
    → Lowered (item_names name k) (lower_item name k)
unfolding lower_item
lower_item_total name (HirItemKind.fn f) h = lower_body_total name f f.body h
lower_item_total name (HirItemKind.constant c) h = Lowered-empty

lower_items_total :
    (items : List HirItem)
    → All (λ item. IsScopedItem item.kind) items
    → Lowered (declared_names items) (lower_items items)
unfolding lower_items ◌>>=◌ pure
lower_items_total [] h s release = Lowered-empty s release
lower_items_total (item ∷ items) h s release =
    let ((fs, s1), e, w, same, release1) = lower_item_total item.name item.kind h.0 s release in
    let ((gs, s2), e', w', same', release2) = lower_items_total items h.1 s1 release1 in
    (
      (fs ++ gs, s2),
      rw (e, e') refl,
      All-append IsWellFormed fs gs w w',
      names-append fs gs
          ∙ ap (λ l. l ++ names gs) same
          ∙ ap (λ l. item_names item.name item.kind ++ l) same',
      release2,
    )

-- In a build without debug assertions, and on a program whose `break` and `continue` stand inside
-- loops, lowering does not panic, and it returns one function for each declared one, in order: external, or with an entry and jumps to
-- its own blocks only.
pub lower_program_total :
    (p : HirProgram)
    → IsScopedProgram p
    → (q : MirProgram) × (lower_program false p ≡ some q)
      × All IsWellFormed q.functions
      × (names q.functions ≡ declared_names p.items)
unfolding lower_program
lower_program_total p h =
    let ((fs, s), e, w, same, _) = lower_items_total p.items h (new false) refl in
    (record { functions = fs }, rw (lower_program, e) refl, w, same)

-- In a build without debug assertions, and on a program whose `break` and `continue` stand inside
-- loops and whose functions have distinct names, neither lowering nor the optimiser panics, and the optimised program has the declared
-- functions in order, each external or with an entry and jumps to its own blocks only.
pub lower_optimize_total :
    (p : HirProgram)
    → IsScopedProgram p
    → Distinct (declared_names p.items)
    → (q r : MirProgram) × (lower_program false p ≡ some q)
      × (optimize q ≡ some r)
      × All IsWellFormed r.functions
      × (names r.functions ≡ declared_names p.items)
lower_optimize_total p h d =
    let (q, e, w, same) = lower_program_total p h in
    let (r, e', w', same') = optimize_total q w (subst Distinct (sym same) d) in
    (q, r, e, e', w', same' ∙ same)
