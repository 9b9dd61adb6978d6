-- ===== src/Mir/Examples/Inlining.antt =====
-- The theorem on inlined calls at `fn f(a, b) { s = a + b; r = s + s; return r }`.
use text.Mathlib.Text.{◌==◌ as str_eq}
use rlyeh_language.Common.{some, [], ◌∷◌}
use rlyeh_language.Mir.{HirBinaryOp, Local, MirValue, MirStmt, MirTerminator, BasicBlock}
use rlyeh_language.Mir.Inline.Sound

abbrev plus : Local → Local → MirValue
plus x y = MirValue.binary HirBinaryOp.add (MirValue.place x) (MirValue.place y)

abbrev callee : BasicBlock
callee = record {
  stmts = MirStmt.assign "s" (plus "a" "b") ∷ MirStmt.assign "r" (plus "s" "s") ∷ [];
  terminator = some (MirTerminator.ret (some "r"));
}
