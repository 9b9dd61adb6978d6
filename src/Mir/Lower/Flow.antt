-- ===== src/Mir/Lower/Flow.antt =====
-- The rules for conditionals, loops and jumps: what is lowered from parts that keep the invariant
-- keeps it.
use Prim.Native.String.{String}
use rlyeh_language.Common.{ℕ, suc, ◌<◌, false, Option, none, some, arith}
use rlyeh_language.Mir.{Local, HirRegionOptions}
use rlyeh_language.Mir.Lower.{
  LoopCtx, Lowering, current, switch_to, cur_closed, terminate, new_block, fresh_temp, push_loop,
  pop_loop,
}
use rlyeh_language.Mir.Lower.Rules.{
  Gives, Lowers, Gives-bind, Gives-pure, current-Gives, switch_to-Lowers, terminate-Lowers,
  cur_closed-Lowers, new_block-Gives,
}
use rlyeh_language.Mir.Lower.Keeps.{
  fresh_temp-Lowers, push_loop-Lowers, pop_loop-Gives, this_loop-Gives, Lowers-bind, Lowers-try,
  Lowers-pure, Lowers-if, lower_rules, unit_value-Lowers, place_result-Lowers,
}
use rlyeh_language.Mir.Lower.Control.{
  jump_if_open, assign_result, lower_branch, lower_else_branch, else_target, lower_if, lower_while,
  loop_exit, lower_loop, lower_return, mark_break, store_break, lower_break, lower_continue,
  lower_region,
}

jump_if_open-Lowers : {n d : ℕ} (t : ℕ) → t < n → Lowers n d d (jump_if_open t)
unfolding jump_if_open
jump_if_open-Lowers t h =
    Lowers-bind cur_closed _ cur_closed-Lowers
      λ k c le. Lowers-if c _ _ (Lowers-pure tt) (terminate-Lowers _ (omega arith, tt))

assign_result-Lowers : {n d : ℕ} (r : Local) (o : Option Local) → Lowers n d d (assign_result r o)
unfolding assign_result
assign_result-Lowers r none = search lower_rules
assign_result-Lowers r (some v) = search lower_rules

lower_branch-Lowers :
    {n d : ℕ} (id merge_id : ℕ) (r : Local) (branch : Lowering (Option Local))
    → id < n
    → merge_id < n
    → ((k : ℕ) → Lowers k d d branch)
    → Lowers n d d (lower_branch id merge_id r branch)
unfolding lower_branch
lower_branch-Lowers id merge_id r branch h h' works =
    Lowers-bind (switch_to id) _ (switch_to-Lowers id h) λ k u le.
      Lowers-bind _ _ (search (lower_rules, assign_result-Lowers)) λ k' assigned le'.
        Lowers-bind _ _ (jump_if_open-Lowers merge_id (omega arith))
          λ k'' u' le''. Lowers-pure assigned

-- What a conditional asks of its `else` branch.
abbrev pub ElseLowers : ℕ → Option (Lowering (Option Local)) → Type 0
ElseLowers d none = Unit
ElseLowers d (some branch) = (k : ℕ) → Lowers k d d branch

lower_else_branch-Lowers :
    {n d : ℕ} (id merge_id : ℕ) (r : Local) (o : Option (Lowering (Option Local)))
    → id < n
    → merge_id < n
    → ElseLowers d o
    → Lowers n d d (lower_else_branch id merge_id r o)
unfolding lower_else_branch
lower_else_branch-Lowers id merge_id r none h h' works = Lowers-pure false
lower_else_branch-Lowers id merge_id r (some branch) h h' works =
    lower_branch-Lowers id merge_id r branch h h' works

else_target-Gives :
    {n d : ℕ} (o : Option (Lowering (Option Local))) (merge_id : ℕ)
    → merge_id < n
    → Gives (λ k id. id < k) n d d (else_target o merge_id)
unfolding else_target
else_target-Gives none merge_id h = Gives-pure merge_id λ k le. omega arith
else_target-Gives (some branch) merge_id h = new_block-Gives

pub lower_if-Lowers :
    {n d : ℕ} (cond then_block : Lowering (Option Local))
    (else_block : Option (Lowering (Option Local)))
    → ((k : ℕ) → Lowers k d d cond)
    → ((k : ℕ) → Lowers k d d then_block)
    → ElseLowers d else_block
    → Lowers n d d (lower_if cond then_block else_block)
unfolding lower_if
lower_if-Lowers {n = n} cond then_block else_block hc ht he =
    Lowers-try cond _ (hc n) λ n0 place le0. Gives-bind current _ current-Gives λ n1 emit_id le1 b1.
      Gives-bind new_block _ new_block-Gives λ n2 then_id le2 b2.
        Gives-bind new_block _ new_block-Gives λ n3 merge_id le3 b3.
          Gives-bind (else_target else_block merge_id) _ (else_target-Gives else_block merge_id b3)
            λ n4 else_id le4 b4.
              Lowers-bind (switch_to emit_id) _ (switch_to-Lowers emit_id (omega arith))
                λ n5 u5 le5.
                  Lowers-bind (terminate _) _ (terminate-Lowers _ (omega arith, (omega arith, tt)))
                    λ n6 u6 le6. Lowers-bind fresh_temp _ fresh_temp-Lowers λ n7 result le7.
                      Lowers-bind _ _
                        (lower_branch-Lowers then_id merge_id result then_block (omega arith)
                          (omega arith) ht)
                        λ n8 then_assigned le8.
                          Lowers-bind _ _
                            (lower_else_branch-Lowers else_id merge_id result else_block
                              (omega arith) (omega arith) he)
                            λ n9 else_assigned le9.
                              Lowers-bind (switch_to merge_id) _
                                (switch_to-Lowers merge_id (omega arith))
                                λ n10 u le10. Lowers-pure _

pub lower_while-Lowers :
    {n d : ℕ} (cond body : Lowering (Option Local))
    → ((k : ℕ) → Lowers k d d cond)
    → ((k : ℕ) → Lowers k (suc d) (suc d) body)
    → Lowers n d d (lower_while cond body)
unfolding lower_while
lower_while-Lowers cond body hc hb = Gives-bind current _ current-Gives λ n1 entry_id le1 b1.
    Gives-bind new_block _ new_block-Gives λ n2 head_id le2 b2.
      Gives-bind new_block _ new_block-Gives λ n3 body_id le3 b3.
        Gives-bind new_block _ new_block-Gives λ n4 after_id le4 b4.
          Lowers-bind (switch_to entry_id) _ (switch_to-Lowers entry_id (omega arith)) λ n5 u5 le5.
            Lowers-bind (terminate _) _ (terminate-Lowers _ (omega arith, tt)) λ n6 u6 le6.
              Lowers-bind (switch_to head_id) _ (switch_to-Lowers head_id (omega arith))
                λ n7 u7 le7. Lowers-try cond _ (hc n7) λ n8 place le8.
                  Lowers-bind (terminate _) _ (terminate-Lowers _ (omega arith, (omega arith, tt)))
                    λ n9 u9 le9.
                      Lowers-bind (switch_to body_id) _ (switch_to-Lowers body_id (omega arith))
                        λ n10 u10 le10.
                          Gives-bind (push_loop _) _ (push_loop-Lowers _ (omega arith, omega arith))
                            λ n11 u11 le11 _. Gives-bind body _ (hb n11) λ n12 val le12 _.
                              Gives-bind pop_loop _ pop_loop-Gives λ n13 ctx le13 _.
                                Lowers-bind (jump_if_open head_id) _
                                  (jump_if_open-Lowers head_id (omega arith))
                                  λ n14 u14 le14.
                                    Lowers-bind (switch_to after_id) _
                                      (switch_to-Lowers after_id (omega arith))
                                      λ n15 u15 le15. place_result-Lowers _ unit_value-Lowers

loop_exit-Lowers :
    {n d : ℕ} (after_id : ℕ) (slot : Local) (ctx : LoopCtx)
    → after_id < n
    → Lowers n d d (loop_exit after_id slot ctx)
unfolding loop_exit
loop_exit-Lowers after_id slot ctx h =
    Lowers-if ctx.had_break _ _
      (Lowers-bind (switch_to after_id) _ (switch_to-Lowers after_id h)
        λ k u le. search (lower_rules, place_result-Lowers, unit_value-Lowers))
      (Lowers-pure none)

pub lower_loop-Lowers :
    {n d : ℕ} (body : Lowering (Option Local))
    → ((k : ℕ) → Lowers k (suc d) (suc d) body)
    → Lowers n d d (lower_loop body)
unfolding lower_loop
lower_loop-Lowers body hb = Gives-bind current _ current-Gives λ n1 entry_id le1 b1.
    Gives-bind new_block _ new_block-Gives λ n2 body_id le2 b2.
      Gives-bind new_block _ new_block-Gives λ n3 after_id le3 b3.
        Lowers-bind (switch_to entry_id) _ (switch_to-Lowers entry_id (omega arith)) λ n4 u4 le4.
          Lowers-bind (terminate _) _ (terminate-Lowers _ (omega arith, tt)) λ n5 u5 le5.
            Lowers-bind (switch_to body_id) _ (switch_to-Lowers body_id (omega arith)) λ n6 u6 le6.
              Lowers-bind fresh_temp _ fresh_temp-Lowers λ n7 slot le7.
                Gives-bind (push_loop _) _ (push_loop-Lowers _ (omega arith, omega arith))
                  λ n8 u8 le8 _. Gives-bind body _ (hb n8) λ n9 val le9 _.
                    Gives-bind _ _ this_loop-Gives λ n10 ctx le10 _.
                      Lowers-bind (jump_if_open body_id) _
                        (jump_if_open-Lowers body_id (omega arith))
                        λ n11 u11 le11. loop_exit-Lowers after_id slot ctx (omega arith)

pub lower_return-Lowers :
    {n d : ℕ} (value : Lowering (Option Local))
    → Lowers n d d value
    → Lowers n d d (lower_return value)
unfolding lower_return
lower_return-Lowers value h =
    Lowers-bind value _ h
      λ k val le. Lowers-bind (terminate _) _ (terminate-Lowers _ tt) λ k' u le'. Lowers-pure none

mark_break-Gives :
    {n d : ℕ} (val : Option Local) → Gives (λ k out. out.0 < k) n (suc d) (suc d) (mark_break val)
unfolding mark_break
mark_break-Gives val = Gives-bind _ _ this_loop-Gives λ k ctx le inside.
    Gives-bind (push_loop _) _ (push_loop-Lowers _ (inside.0, inside.1))
      λ k' u le' _. Gives-pure _ λ k'' le''. omega (arith, inside)

store_break-Lowers : {n d : ℕ} (slot val : Option Local) → Lowers n d d (store_break slot val)
unfolding store_break
store_break-Lowers (some slot) (some v) = search lower_rules
store_break-Lowers (some slot) none = search lower_rules
store_break-Lowers none val = search lower_rules

pub lower_break-Lowers :
    {n d : ℕ} (value : Lowering (Option Local))
    → Lowers n (suc d) (suc d) value
    → Lowers n (suc d) (suc d) (lower_break value)
unfolding lower_break
lower_break-Lowers value h = Lowers-bind value _ h λ n1 val le1.
    Gives-bind (mark_break val) _ (mark_break-Gives val) λ n2 target le2 inside.
      Lowers-bind (store_break _ _) _ (store_break-Lowers target.1 val) λ n3 u3 le3.
        Lowers-bind (terminate _) _ (terminate-Lowers _ (omega (arith, inside), tt))
          λ n4 u4 le4. Lowers-pure none

pub lower_continue-Lowers : {n d : ℕ} → Lowers n (suc d) (suc d) lower_continue
unfolding lower_continue
lower_continue-Lowers = Gives-bind _ _ this_loop-Gives λ n1 ctx le1 inside.
    Gives-bind (push_loop ctx) _ (push_loop-Lowers ctx inside) λ n2 u2 le2 _.
      Lowers-bind (terminate _) _ (terminate-Lowers _ (omega (arith, inside), tt))
        λ n3 u3 le3. Lowers-pure none

pub lower_region-Lowers :
    {n d : ℕ} (name : Option String) (options : HirRegionOptions) (body : Lowering (Option Local))
    → ((k : ℕ) → Lowers k d d body)
    → Lowers n d d (lower_region name options body)
unfolding lower_region
lower_region-Lowers name options body h = search lower_rules
