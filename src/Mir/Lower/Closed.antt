-- ===== src/Mir/Lower/Closed.antt =====
-- `return e` where the lowering of `e` leaves the current block with a terminator.
use rlyeh_language.Common.{
  ◌≡◌, refl, Option, none, some, set, get_elem?, if◌then◌else◌, Bool-cases, inl, inr,
}
use rlyeh_language.Mir.{Local, MirTerminator, BasicBlock}
use rlyeh_language.Mir.Lower.{
  MirLowerer, Lowering, ◌>>=◌, pure, debug_assert_open, with_block, terminate,
}
use rlyeh_language.Mir.Lower.Control.{lower_return}

-- Where the operand of a `return` leaves a current block that has a terminator, as that of
-- `return loop {}` does: a build with debug assertions panics, and one without replaces this
-- terminator by the return.
pub lower_return-closed :
    (value : Lowering (Option Local)) (s s' : MirLowerer) (val : Option Local) (b : BasicBlock)
    (t : MirTerminator)
    → value s ≡ some (val, s')
    → get_elem? s'.blocks s'.cur ≡ some b
    → b.terminator ≡ some t
    → lower_return value s ≡ (
        if s'.debug_assertions
        then none
        else some (
          none,
          record s' {
            blocks = set s'.blocks s'.cur (record b { terminator = some (MirTerminator.ret val) });
          },
        ))
unfolding lower_return terminate debug_assert_open with_block ◌>>=◌ pure
lower_return-closed value s s' val b t runs at closed = elim (Bool-cases s'.debug_assertions) [
  | inl d ↦ rw (runs, debug_assert_open, at, closed, d) refl
  | inr d ↦ rw (runs, debug_assert_open, at, closed, d, with_block, at) refl
]
