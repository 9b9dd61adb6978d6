-- ===== src/Mir/Lower/Control.antt =====
-- crates/rlyeh-mir/src/lower.rs: the functions for conditionals, loops and jumps. A function takes
-- the lowering of a part of the expression in the place of the part.
use Prim.Native.String.{String}
use rlyeh_language.Common.{ℕ, Bool, true, false, ◌||◌, Option, none, some, if◌then◌else◌}
use rlyeh_language.Mir.{Local, MirStmt, MirTerminator, MirValue, HirRegionOptions}
use rlyeh_language.Mir.Lower.{
  LoopCtx, Lowering, pure, expect, ◌>>=◌, ◌>>◌, ◌>>?◌, current, switch_to, is_some, cur_closed,
  emit, terminate, new_block, fresh_temp, push_loop, pop_loop, region_key,
}

-- The value of an expression in a local.
unfoldable pub place_of : MirValue → Lowering (Option Local)
place_of (MirValue.place p) = pure (some p)
place_of v = fresh_temp >>= λ tmp. emit (MirStmt.assign tmp v) >> pure (some tmp)

unfoldable pub to_place : Lowering (Option MirValue) → Lowering (Option Local)
to_place value = value >>? place_of

unfoldable pub unit_value : Lowering (Option Local)
unit_value = fresh_temp >>= λ t. emit (MirStmt.assign t MirValue.unit) >> pure (some t)

unfoldable pub place_result : Lowering (Option Local) → Lowering (Option MirValue)
place_result m = m >>? λ p. pure (some (MirValue.place p))

unfoldable pub jump_if_open : ℕ → Lowering Unit
jump_if_open target =
    cur_closed >>= λ closed. if closed then pure tt else terminate (MirTerminator.jump target)

unfoldable pub assign_result : Local → Option Local → Lowering Bool
assign_result result none = pure false
assign_result result (some v) = emit (MirStmt.assign result (MirValue.place v)) >> pure true

-- One branch of a conditional; whether it assigns the result.
unfoldable pub lower_branch : ℕ → ℕ → Local → Lowering (Option Local) → Lowering Bool
lower_branch id merge_id result branch =
    switch_to id
    >> (branch >>= assign_result result >>= λ assigned. jump_if_open merge_id >> pure assigned)

unfoldable pub lower_else_branch : ℕ → ℕ → Local → Option (Lowering (Option Local)) → Lowering Bool
lower_else_branch id merge_id result none = pure false
lower_else_branch id merge_id result (some branch) = lower_branch id merge_id result branch

unfoldable pub else_target : Option (Lowering (Option Local)) → ℕ → Lowering ℕ
else_target none merge_id = pure merge_id
else_target (some branch) merge_id = new_block

unfoldable pub lower_if :
    Lowering (Option Local)
    → Lowering (Option Local)
    → Option (Lowering (Option Local))
    → Lowering (Option MirValue)
lower_if cond then_block else_block = cond >>? λ cond_place. current >>= λ emit_id.
    new_block >>= λ then_id. new_block >>= λ merge_id.
    else_target else_block merge_id >>= λ else_id.
    switch_to emit_id
    >> terminate (MirTerminator.cond_jump cond_place then_id else_id)
    >> (fresh_temp >>= λ result.
        lower_branch then_id merge_id result then_block >>= λ then_assigned.
        lower_else_branch else_id merge_id result else_block >>= λ else_assigned.
        switch_to merge_id
        >> pure (if then_assigned || else_assigned then some (MirValue.place result) else none))

unfoldable pub lower_while :
    Lowering (Option Local) → Lowering (Option Local) → Lowering (Option MirValue)
lower_while cond body = current >>= λ entry_id. new_block >>= λ head_id. new_block >>= λ body_id.
    new_block >>= λ after_id.
    switch_to entry_id
    >> terminate (MirTerminator.jump head_id)
    >> switch_to head_id
    >> (cond >>? λ cond_place.
        terminate (MirTerminator.cond_jump cond_place body_id after_id)
        >> switch_to body_id
        >> push_loop (record {
          break_target = after_id;
          had_break = false;
          continue_target = head_id;
          break_value = none;
          break_has_value = false;
        })
        >> body
        >> pop_loop
        >> jump_if_open head_id
        >> switch_to after_id
        >> place_result unit_value)

-- What follows the body of a `loop`.
unfoldable pub loop_exit : ℕ → Local → LoopCtx → Lowering (Option MirValue)
loop_exit after_id break_slot ctx =
    if ctx.had_break
    then (switch_to after_id
        >> (if ctx.break_has_value
            then pure (some (MirValue.place break_slot))
            else place_result unit_value))
    else pure none

unfoldable pub lower_loop : Lowering (Option Local) → Lowering (Option MirValue)
lower_loop body = current >>= λ entry_id. new_block >>= λ body_id. new_block >>= λ after_id.
    switch_to entry_id
    >> terminate (MirTerminator.jump body_id)
    >> switch_to body_id
    >> (fresh_temp >>= λ break_slot.
        push_loop (record {
          break_target = after_id;
          had_break = false;
          continue_target = body_id;
          break_value = some break_slot;
          break_has_value = false;
        })
        >> body
        >> (pop_loop >>= expect >>= λ ctx.
            jump_if_open body_id >> loop_exit after_id break_slot ctx))

unfoldable pub lower_return : Lowering (Option Local) → Lowering (Option MirValue)
lower_return value = value >>= λ val. terminate (MirTerminator.ret val) >> pure none

-- The innermost loop, marked as left by a `break`.
unfoldable pub mark_break : Option Local → Lowering (ℕ × Option Local)
mark_break val = pop_loop >>= expect >>= λ ctx.
    push_loop
      (record ctx { had_break = true; break_has_value = ctx.break_has_value || is_some val })
    >> pure (ctx.break_target, ctx.break_value)

unfoldable pub store_break : Option Local → Option Local → Lowering Unit
store_break (some slot) (some v) = emit (MirStmt.assign slot (MirValue.place v))
store_break slot val = pure tt

unfoldable pub lower_break : Lowering (Option Local) → Lowering (Option MirValue)
lower_break value = value >>= λ val. mark_break val >>= λ target.
    store_break target.1 val >> terminate (MirTerminator.jump target.0) >> pure none

unfoldable pub lower_continue : Lowering (Option MirValue)
lower_continue = pop_loop >>= expect >>= λ ctx.
    push_loop ctx >> terminate (MirTerminator.jump ctx.continue_target) >> pure none

unfoldable pub lower_region :
    Option String → HirRegionOptions → Lowering (Option Local) → Lowering (Option MirValue)
lower_region name options body = region_key name >>= λ key.
    emit (MirStmt.region_enter (some key) options)
    >> (body >>? λ val. emit (MirStmt.region_exit (some key)) >> pure (some (MirValue.place val)))
