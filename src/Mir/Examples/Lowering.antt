-- ===== src/Mir/Examples/Lowering.antt =====
-- The lowering of a function with a loop that a `break` leaves with a value.
use rlyeh_language.Common.{◌≡◌, refl, ◌&&◌, true, false, none, some, [], ◌∷◌, All}
use rlyeh_language.Hir.{
  Span, HirExpr, HirExprKind, HirOption, HirBlock, HirElse, HirStmts, HirStmt, HirStmtKind,
  HirItemKind, HirProgram,
}
use rlyeh_language.Mir.{Local, MirValue, MirProgram}
use rlyeh_language.Mir.Passes.Bodies.{IsWellFormed, names}
use rlyeh_language.Mir.Lower.{
  MirLowerer, ◌>>=◌, ◌>>?◌, cur_closed, current, new_block, switch_to, terminate, debug_assert_open,
  with_block, fresh_temp, push_loop, pop_loop, expect, pure, emit,
}
use rlyeh_language.Mir.Lower.Values.{unless_closed}
use rlyeh_language.Mir.Lower.Control.{
  to_place, lower_return, lower_loop, jump_if_open, loop_exit, place_result, place_of, unit_value,
}
use rlyeh_language.Common.Decimal.{decimal, digits, text_of}
use rlyeh_language.Mir.Lower.Program.{
  new, lower_program, lower_items, lower_item, lower_body, lower_function, start_function,
  close_function, take_blocks,
}
use rlyeh_language.Mir.Lower.Expr.{lower_kind, lower_block}
use rlyeh_language.Mir.ConstFold.Meaning.{Value, Rest, RestUnary, eval}
use rlyeh_language.Mir.Lower.Membership.{
  literals, bound, elem, above, below, unless, eval-set_lookup, eval-range_check,
}
use rlyeh_language.Mir.Lower.Scopes.{IsScopedProgram, IsScoped}
use rlyeh_language.Mir.Lower.Total.{declared_names, lower_program_total}

abbrev no_span : Span
no_span = record { start = 0; end = 0; line = 0; col = 0 }

abbrev at : HirExprKind → HirExpr
at k = HirExpr.expr k no_span

-- `loop { if c { break 5 } }`.
abbrev counting : HirBlock
counting =
    HirBlock.block HirStmts.done
      (HirOption.present (
        at (
          HirExprKind.loop (
            HirBlock.block
              (HirStmts.then_stmt
                (HirStmt.stmt
                  (HirStmtKind.expr_stmt (
                    at (
                      HirExprKind.if_else (at (HirExprKind.variable "c"))
                        (HirBlock.block HirStmts.done
                          (HirOption.present (
                            at (
                              HirExprKind.break_expr
                                (HirOption.present (at (HirExprKind.int_literal 5))))))
                          no_span)
                        HirElse.no_else)))
                  no_span)
                HirStmts.done)
              HirOption.absent no_span))))
      no_span

abbrev program : HirProgram
program = record {
  items =
      (record {
        name = "main";
        kind = HirItemKind.fn (record {
          params = (record { name = "c"; span = no_span; is_ref = false }) ∷ [];
          body = some counting;
          is_extern = false;
          extern_sig = none;
        });
        span = no_span;
      })
      ∷ [];
}

program-IsScoped : IsScopedProgram program
unfolding IsScoped
program-IsScoped = ((tt, (((tt, (tt, (tt, tt)), tt), tt), tt)), tt)

lower_program_total_example :
    (q : MirProgram) × (lower_program false program ≡ some q)
    × All IsWellFormed q.functions
    × (names q.functions ≡ declared_names program.items)
lower_program_total_example = lower_program_total program program-IsScoped

-- `fn main() { return loop {} }`, which a build with debug assertions does not lower.
abbrev return_loop : HirProgram
return_loop = record {
  items =
      (record {
        name = "main";
        kind = HirItemKind.fn (record {
          params = [];
          body = some (
              HirBlock.block HirStmts.done
                (HirOption.present (
                  at (
                    HirExprKind.return_expr (
                      HirOption.present (
                        at (
                          HirExprKind.loop
                            (HirBlock.block HirStmts.done HirOption.absent no_span)))))))
                no_span);
          is_extern = false;
          extern_sig = none;
        });
        span = no_span;
      })
      ∷ [];
}

debug_build : lower_program true return_loop ≡ none
unfolding lower_program lower_items lower_item lower_body lower_function start_function
    close_function take_blocks ◌>>=◌ ◌>>?◌ cur_closed current new_block switch_to terminate
    debug_assert_open with_block fresh_temp push_loop pop_loop expect pure emit unless_closed
    to_place lower_return lower_loop jump_if_open loop_exit place_result place_of unit_value
    lower_block decimal digits text_of
debug_build = refl

abbrev holding : Local → Value
holding x = Value.int 5

abbrev nothing : Rest
nothing op a b = none

abbrev nothing_unary : RestUnary
nothing_unary op a = none

abbrev lowerer : MirLowerer
lowerer = new false

-- `x not in {3, 5}`, where `x` is 5.
eval-set_lookup_example :
    (v : MirValue) × (lower_kind
        (HirExprKind.set_lookup
          (at (HirExprKind.variable "x"))
          (literals no_span (3 ∷ 5 ∷ []))
          true)
        lowerer
      ≡ some (some v, lowerer))
    × (eval holding nothing nothing_unary v ≡ some (Value.bool (unless true (elem 5 (3 ∷ 5 ∷ [])))))
eval-set_lookup_example =
    eval-set_lookup holding nothing nothing_unary no_span "x" 5 refl (3 ∷ 5 ∷ []) true lowerer

-- `x in 3..=5`, where `x` is 5.
eval-range_check_example :
    (v : MirValue) × (lower_kind
        (HirExprKind.range_check
          (at (HirExprKind.variable "x"))
          (bound no_span (some 3))
          (bound no_span (some 5))
          true
          true
          false)
        lowerer
      ≡ some (some v, lowerer))
    × (eval holding nothing nothing_unary v
        ≡ some (Value.bool (unless false (above true 5 (some 3) && below true 5 (some 5)))))
eval-range_check_example =
    eval-range_check holding nothing nothing_unary no_span "x" 5 refl (some 3) (some 5) true true
      false lowerer
