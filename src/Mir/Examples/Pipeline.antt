-- ===== src/Mir/Examples/Pipeline.antt =====
-- The pipeline on a program of two functions, of which the second one is expanded in the first.
use rlyeh_language.Common.{◌≡◌, refl, inr, true, false, none, some, [], ◌∷◌, All, arith}
use rlyeh_language.Mir.{MirValue, MirStmt, MirTerminator, MirProgram}
use rlyeh_language.Mir.Dce.{contains}
use rlyeh_language.Mir.Passes.{optimize}
use rlyeh_language.Mir.Passes.Bodies.{IsWellFormed, names}
use rlyeh_language.Mir.Passes.Total.{optimize_total}
use rlyeh_language.Mir.Inline.Binding.{Distinct}

abbrev program : MirProgram
program = record {
  functions =
      (record {
        name = "main";
        params = [];
        blocks =
            (record {
              stmts = MirStmt.assign "c" (MirValue.bool true) ∷ [];
              terminator = some (MirTerminator.cond_jump "c" 2 1);
            })
            ∷ (record { stmts = []; terminator = none })
            ∷ (record {
              stmts = MirStmt.call (some "y") "one" [] ∷ [];
              terminator = some (MirTerminator.ret (some "y"));
            })
            ∷ [];
        is_extern = false;
        extern_sig = none;
      })
      ∷ (record {
        name = "one";
        params = [];
        blocks =
            (record {
              stmts = MirStmt.assign "x" (MirValue.int 1) ∷ [];
              terminator = some (MirTerminator.ret (some "x"));
            })
            ∷ [];
        is_extern = false;
        extern_sig = none;
      })
      ∷ [];
}

program-IsWellFormed : All IsWellFormed program.functions
program-IsWellFormed = (
  inr (omega arith, ((omega arith, (omega arith, tt)), (tt, (tt, tt)))),
  (inr (omega arith, (tt, tt)), tt),
)

program-Distinct : Distinct (names program.functions)
unfolding contains
program-Distinct = (refl, (refl, tt))

optimize_total_example :
    (q : MirProgram) × (optimize program ≡ some q)
    × All IsWellFormed q.functions
    × (names q.functions ≡ names program.functions)
optimize_total_example = optimize_total program program-IsWellFormed program-Distinct
