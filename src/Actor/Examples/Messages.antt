-- ===== src/Actor/Examples/Messages.antt =====
-- The theorems on the synchronous runtime at a program with one handler, which adds the message to
-- the state and crashes on kind 0. The first factory makes the state 7, the second one an actor.
use rlyeh_language.Common.{
  ℕ, zero, suc, ◌+◌, ◌≡◌, refl, true, false, none, some, [], ◌∷◌, ◌==◌, if◌then◌else◌, arith,
}
use rlyeh_language.Actor.Sync.{
  crashed, Machine, Message, Program, Code, entry_at, grow_to, alloc_entry, modify, spawn_entry,
  request_stop, status_of, query_status, dispatch, deliver, after_crash, rebuild, exec, supervise,
  send_result, ask_result,
}
use rlyeh_language.Actor.Sync.Later.{Inv, Later}
use rlyeh_language.Actor.Sync.Execution.{exec-Later, query_status_stopped}
use rlyeh_language.Actor.Sync.Supervised.{Spares, CodeSpares, Given}
use rlyeh_language.Actor.Sync.Answers.{dispatch_answers}
use rlyeh_language.Actor.Sync.Deadlock.{dispatch_deadlock}

abbrev made : ℕ → Program ℕ ℕ ℕ
made zero = Program.ret 7
made (suc f) = Program.spawn 0 0 (λ child. Program.ret child)

abbrev code : Code ℕ ℕ ℕ
code = record {
  handle = λ h state m.
      Program.work (λ w. w + m.a) (λ w. Program.ret (if m.kind == 0 then crashed else state + m.a));
  state_new = made;
}

abbrev message : ℕ → Message ℕ ℕ ℕ
message kind = record { kind = kind; a = 3; b = 0; c = 0 }

-- The supervised actor 1, its state 5, with a factory.
abbrev machine : ℕ → ℕ → Machine ℕ ℕ ℕ
machine f w = record {
  table = none ∷ some (record { handler = 0; state = 5; factory = some f; running = true }) ∷ [];
  locked = false;
  next = 2;
  memory = w;
}

machine-Inv : (f w : ℕ) → Inv (machine f w)
unfolding entry_at
machine-Inv f w = record {
  next_pos = omega arith;
  next_lt = omega arith;
  within = omega arith;
  reserved = refl;
}

made-Spares : (f : ℕ) → Spares 1 (made f)
made-Spares zero = tt
made-Spares (suc f) = λ v. tt

code-Spares : CodeSpares 1 code
code-Spares = record { handle = λ h state m w. tt; state_new = made-Spares }

-- It asks actor 1, creates the actor 2 and stops it, and asks actor 1 again, which then crashes.
abbrev program : Program ℕ ℕ ℕ
program = Program.ask 1 (message 1) (λ r.
    Program.spawn_supervised 0 0
      (λ child. Program.stop 2 (Program.send 1 (message 0) (λ z. Program.ret (r + z)))))

abbrev ended : Machine ℕ ℕ ℕ
ended = record {
  table =
      none
      ∷ some (record { handler = 0; state = 7; factory = some 0; running = true })
      ∷ some (record { handler = 0; state = 7; factory = some 0; running = false })
      ∷ [];
  locked = false;
  next = 3;
  memory = 6;
}

run_program : exec ℕ ℕ ℕ code 10 program (machine 0 0) ≡ some (8, ended)
unfolding exec dispatch deliver after_crash rebuild supervise alloc_entry grow_to modify spawn_entry
    request_stop send_result ask_result entry_at
run_program = refl

exec-Later_example : Inv ended × Later (machine 0 0) ended
exec-Later_example = exec-Later code 10 program (machine 0 0) 8 ended (machine-Inv 0 0) run_program

crash_run :
    (f : ℕ)
    → exec ℕ ℕ ℕ code 5 (code.handle 0 5 (message 0)) (machine f 0) ≡ some (crashed, machine f 3)
unfolding exec
crash_run f = refl

-- The crash of the actor 1 is answered with 0.
dispatch_answers_example :
    (t : Machine ℕ ℕ ℕ) × (dispatch ℕ ℕ ℕ code (exec ℕ ℕ ℕ code 5) 1 (message 0) (machine 0 0)
      ≡ some (some 0, t))
    × (t.locked ≡ false)
    × Given 1 0 0 t
unfolding spawn_entry entry_at exec
dispatch_answers_example =
    dispatch_answers code 5 1 0 0 (message 0) (machine 0 0) (machine 0 3) 5 crashed
      (machine-Inv 0 0) (omega arith) refl refl code-Spares (crash_run 0)
      (λ c. ((7, record (machine 0 3) { locked = true }), refl))

-- The second factory makes an actor.
dispatch_deadlock_example :
    dispatch ℕ ℕ ℕ code (exec ℕ ℕ ℕ code 5) 1 (message 0) (machine 1 0) ≡ none
unfolding spawn_entry entry_at
dispatch_deadlock_example =
    dispatch_deadlock code 5 1 0 0 1 (message 0) (machine 1 0) (machine 1 3) 5 0
      (λ child. Program.ret child) (machine-Inv 1 0) (omega arith) refl refl (crash_run 1) (λ e. cc)

stopped_run :
    exec ℕ ℕ ℕ code 5 (Program.send 1 (message 1) (λ v. Program.ret v)) ended
    ≡ some (0, record ended { memory = 9 })
unfolding exec dispatch deliver entry_at send_result
stopped_run = refl

ended-Inv : Inv ended
unfolding entry_at
ended-Inv = record {
  next_pos = omega arith;
  next_lt = omega arith;
  within = omega arith;
  reserved = refl;
}

query_status_stopped_example : query_status ℕ ℕ ℕ 2 (record ended { memory = 9 }) ≡ some 3
unfolding query_status status_of entry_at
query_status_stopped_example =
    query_status_stopped code 5 (Program.send 1 (message 1) (λ v. Program.ret v)) ended 0
      (record ended { memory = 9 }) 2 ended-Inv (omega arith) refl stopped_run
