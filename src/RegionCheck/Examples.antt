-- ===== src/RegionCheck/Examples.antt =====
-- The region checker on small programs.
use rlyeh_language.Common.{◌≡◌, refl, ◌⊎◌, true, false, none, some, List, [], ◌∷◌, map}
use Prim.Native.String.{String}
use rlyeh_language.Mir.{HirRegionOptions}
use rlyeh_language.Mir.Inline.Binding.{Distinct}
use rlyeh_language.Hir.{
  Span, HirExpr, HirExprKind, HirExprs, HirOption, HirBlock, HirStmts, HirStmt, HirStmtKind,
  HirItemKind, HirItem, HirProgram,
}
use rlyeh_language.Mir.Dce.{contains}
use rlyeh_language.RegionCheck.{
  RegionError, RegionChecker, new, get, without, insert, or_insert, leave_region, region_in_scope,
  push_error, not_found, related_to, is_innermost, transfer_allocated, transfer_from,
  check_transfer, region_name,
}
use rlyeh_language.RegionCheck.Transfers.{transfers_items, transfers_block}
use rlyeh_language.RegionCheck.Checker.{
  passed, refused, check_items, check_program, check_item, check_body, check_block, check_stmts,
  check_stmt, check_option, check_expr, check_kind, exit_region, note_transfer, note_let,
  note_in_region, place_in, enter_region, name_region, at_span,
}
use rlyeh_language.RegionCheck.Follows.{latest_first}
use rlyeh_language.RegionCheck.Accepted.Programs.{
  VisitsTransfers, passed-transfers, check_items-closed, check_transfer-IsAllowed, IsAllowed,
}

abbrev no_span : Span
no_span = record { start = 0; end = 0; line = 1; col = 1 }

abbrev at : HirExprKind → HirExpr
at k = HirExpr.expr k no_span

abbrev options : HirRegionOptions
options = record {
  size = none;
  allow_growth = true;
  growth_factor = none;
  adaptive = false;
  exact = false;
  strategy = none;
}

abbrev only : HirExpr → HirBlock
only e = HirBlock.block HirStmts.done (HirOption.present e) no_span

abbrev transfer_x : HirExpr
transfer_x = at (HirExprKind.transfer (at (HirExprKind.variable "x")) "r")

-- `region 'r { let x = 1 in 'r; body }`.
abbrev in_r : HirExpr → HirBlock
in_r body = only (
    at (
      HirExprKind.region (some "r") options (
        HirBlock.block
          (HirStmts.then_stmt
            (HirStmt.stmt
              (HirStmtKind.let_stmt "x"
                (at (HirExprKind.in_region (at (HirExprKind.int_literal 1)) "r" 8)) false)
              no_span)
            HirStmts.done)
          (HirOption.present body) no_span)))

abbrev function : String → HirBlock → HirItem
function name body = record {
  name = name;
  kind =
      HirItemKind.fn
        (record { params = []; body = some body; is_extern = false; extern_sig = none });
  span = no_span;
}

abbrev one_transfer : HirProgram
one_transfer = record { items = function "main" (in_r transfer_x) ∷ [] }

-- A transfer in a loop, which happens again in each round.
abbrev transfer_in_loop : HirProgram
transfer_in_loop = record {
  items = function "main" (in_r (at (HirExprKind.loop (only transfer_x)))) ∷ [];
}

-- Two functions, each with an `x` of its own.
abbrev two_functions : HirProgram
two_functions = record {
  items = function "main" (in_r transfer_x) ∷ function "other" (in_r transfer_x) ∷ [];
}

-- `1 in { transfer 2 out of 'r }`, as the member of a set.
abbrev transfer_in_set : HirProgram
transfer_in_set = record {
  items =
      function "main" (
        only (
          at (
            HirExprKind.set_lookup (at (HirExprKind.int_literal 1))
              (HirExprs.more (at (HirExprKind.transfer (at (HirExprKind.int_literal 2)) "r"))
                HirExprs.no_more)
              false)))
      ∷ [];
}

-- The first program, the one with the loop and the one with the set pass, the one with two
-- functions does not.
verdicts :
    ((check_program one_transfer new).0 ≡ passed)
    × ((check_program transfer_in_loop new).0 ≡ passed)
    × ((check_program transfer_in_set new).0 ≡ passed)
    × ((check_program two_functions new).0
        ≡ refused (RegionError.double_transfer "x" 1 1 ((no_span, "首次 transfer 位于此") ∷ []) ∷ []))
unfolding check_program check_items check_item check_body check_block check_stmts check_stmt
    check_option check_expr check_kind exit_region leave_region note_transfer note_let place_in
    enter_region name_region region_name at_span insert without or_insert get check_transfer
    transfer_from transfer_allocated is_innermost region_in_scope contains push_error related_to
    not_found note_in_region
verdicts = (refl, refl, refl, refl)

one_transfer-VisitsTransfers : VisitsTransfers one_transfer
unfolding transfers_block
one_transfer-VisitsTransfers = refl

passed-transfers_example :
    (vars : List String) × (latest_first (transfers_items true one_transfer.items) []
      ≡ map some vars)
    × Distinct vars
passed-transfers_example = passed-transfers one_transfer one_transfer-VisitsTransfers verdicts.0

check_items-closed_example :
    ((check_items one_transfer.items new).active_regions ≡ [])
    × ((check_items one_transfer.items new).allocated ≡ [])
check_items-closed_example = check_items-closed one_transfer.items

-- `x` in the innermost region, not yet transferred.
abbrev ready : RegionChecker
ready = record new { active_regions = "r" ∷ []; allocated = ("x", "r") ∷ [] }

check_transfer-IsAllowed_example :
    (IsAllowed ready "x" "r"
      × (check_transfer "x" "r" ready ≡ record ready {
        transferred = "x" ∷ ready.transferred;
        transfer_spans = or_insert "x" ready.cur_span ready.transfer_spans;
      }))
    ⊎ ((IsAllowed ready "x" "r" → ⊥)
        × ((e : RegionError) × (check_transfer "x" "r" ready ≡ push_error e ready)))
check_transfer-IsAllowed_example = check_transfer-IsAllowed ready "x" "r"
