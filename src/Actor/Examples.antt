-- ===== src/Actor/Examples.antt =====
-- The theorems on supervision at an actor, 1, that may be restarted twice within 10.
mod Messages
use rlyeh_language.Common.{ℕ, ◌≡◌, refl, some, none, List, [], ◌∷◌, ◌++◌, arith}
use rlyeh_language.Actor.Supervisor.{
  ActorId, ActorError, RestartStrategy, SupervisorStrategy, RestartCounter, Supervisor,
  handle_crash, restarted, position,
}
use rlyeh_language.Actor.Restarts.{
  Watches, crash_all, restarts_of, restarts-crash_all, restarts-two_windows, restarted_suffix,
}

abbrev strategy : SupervisorStrategy ℕ
strategy = record {
  strategy = RestartStrategy.restart_for_one;
  max_restarts = 2;
  within = 10;
  children = 5 ∷ 1 ∷ 6 ∷ [];
  factory = 0;
}

abbrev opened : RestartCounter
opened = record { count = 0; window_start = 100 }

abbrev watched : Supervisor ℕ
watched = record { strategies = λ a. some strategy; restart_counts = λ a. some opened }

abbrev crash : ℕ → ℕ × ActorError
crash now = (now, ActorError.panic "")

restarts-crash_all_example :
    ((crash_all ℕ 1 (crash 101 ∷ crash 102 ∷ crash 110 ∷ []) watched).1 ≡ 2)
    × Watches ℕ 1 strategy
        (record { count = 3; window_start = 100 })
        (crash_all ℕ 1 (crash 101 ∷ crash 102 ∷ crash 110 ∷ []) watched).0
restarts-crash_all_example =
    restarts-crash_all ℕ 1 strategy opened (crash 101 ∷ crash 102 ∷ crash 110 ∷ []) watched
      (refl, refl) (omega arith, (omega arith, (omega arith, tt)))

-- Four restarts at 110 and 111.
restarts-two_windows_example :
    (crash_all ℕ 1
      ((crash 110 ∷ crash 110 ∷ []) ++ (111, ActorError.panic "") ∷ crash 111 ∷ [])
      watched).1
    ≡ 4
restarts-two_windows_example =
    restarts-two_windows ℕ 1 strategy opened (crash 110 ∷ crash 110 ∷ []) (crash 111 ∷ []) 111
      (ActorError.panic "") watched (refl, refl) (omega arith, (omega arith, tt)) (omega arith)
      (omega arith, tt) (omega arith)
