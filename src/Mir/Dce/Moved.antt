-- ===== src/Mir/Dce/Moved.antt =====
-- The case in which remove_dead_assignments deletes an assignment that is read.
use Prim.Native.String.{String}
use rlyeh_language.Common.{none, some, List}
use rlyeh_language.Mir.{MirStmt, MirTerminator, BasicBlock}

-- A block that returns nothing.
abbrev pub returning : List MirStmt → BasicBlock
returning stmts = record { stmts = stmts; terminator = some (MirTerminator.ret none) }
