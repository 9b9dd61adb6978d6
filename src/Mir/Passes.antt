-- ===== src/Mir/Passes.antt =====
-- crates/rlyeh-mir/src/passes/mod.rs: the pipeline of the passes. A panic is `none`.
pub mod Ranges
pub mod Bodies
pub mod Total
use rlyeh_language.Common.{Option, ◌>>=◌}
use rlyeh_language.Mir.{MirProgram}
use rlyeh_language.Mir.ConstFold.{constant_fold}
use rlyeh_language.Mir.Dce.{dead_code_elimination}
use rlyeh_language.Mir.Inline.{inline_small_functions}

unfoldable pub optimize : MirProgram → Option MirProgram
optimize p = dead_code_elimination (constant_fold p) >>= λ q.
    inline_small_functions q >>= λ r. dead_code_elimination r
