-- ===== src/Mir/Lower/Program.antt =====
-- crates/rlyeh-mir/src/lower.rs: lower_function and lower_program. The counters of temporaries and
-- the loops start anew in each function, that of the nameless regions does not.
use Prim.Native.String.{String}
use rlyeh_language.Common.{
  Bool, true, false, Option, none, some, List, [], ◌∷◌, ◌++◌, map, if◌then◌else◌,
}
use rlyeh_language.Hir.{HirParam, HirBlock, HirFnDecl, HirItemKind, HirItem, HirProgram}
use rlyeh_language.Mir.{Local, MirTerminator, BasicBlock, MirFunction, MirProgram}
use rlyeh_language.Mir.Lower.{MirLowerer, Lowering, pure, ◌>>=◌, ◌>>◌, cur_closed, terminate}
use rlyeh_language.Mir.Lower.Expr.{lower_block}

-- MirLowerer::new, in a build with or without debug assertions.
abbrev pub new : Bool → MirLowerer
new debug_assertions = record {
  blocks = [];
  cur = 0;
  temp_counter = 0;
  loop_stack = [];
  anon_region_seq = 0;
  debug_assertions = debug_assertions;
}

unfoldable pub start_function : Lowering Unit
start_function s =
    let empty : BasicBlock = record { stmts = []; terminator = none } in
    some (tt, record s { blocks = empty ∷ []; cur = 0; temp_counter = 0; loop_stack = [] })

unfoldable pub take_blocks : Lowering (List BasicBlock)
take_blocks s = some (s.blocks, record s { blocks = [] })

unfoldable pub close_function : Option Local → Lowering Unit
close_function val =
    cur_closed >>= λ closed. if closed then pure tt else terminate (MirTerminator.ret val)

abbrev pub param_names : List HirParam → List Local
param_names params = map (λ p. p.name) params

unfoldable pub lower_function : String → List HirParam → HirBlock → Lowering MirFunction
lower_function name params body =
    start_function
    >> (lower_block body >>= close_function)
    >> take_blocks >>= λ blocks. pure (record {
      name = name;
      params = param_names params;
      blocks = blocks;
      is_extern = false;
      extern_sig = none;
    })

-- The functions of one declaration: one, or none for an abstract method.
unfoldable pub lower_body : String → HirFnDecl → Option HirBlock → Lowering (List MirFunction)
lower_body name f (some body) = lower_function name f.params body >>= λ g. pure (g ∷ [])
lower_body name f none = pure (
    if f.is_extern
    then (record {
      name = name;
      params = param_names f.params;
      blocks = [];
      is_extern = true;
      extern_sig = f.extern_sig;
    }
        ∷ [])
    else [])

unfoldable pub lower_item : String → HirItemKind → Lowering (List MirFunction)
lower_item name (HirItemKind.fn f) = lower_body name f f.body
lower_item name (HirItemKind.constant c) = pure []

unfoldable pub lower_items : List HirItem → Lowering (List MirFunction)
lower_items [] = pure []
lower_items (item ∷ items) =
    lower_item item.name item.kind >>= λ fs. lower_items items >>= λ gs. pure (fs ++ gs)

unfoldable pub lower_program : Bool → HirProgram → Option MirProgram
lower_program debug_assertions p = elim (lower_items p.items (new debug_assertions)) [
  | none ↦ none
  | some (fs, s) ↦ some (record { functions = fs })
]
