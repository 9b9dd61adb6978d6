-- ===== src/Actor/Supervisor.antt =====
-- crates/rlyeh-actor-runtime/src/supervisor.rs and the errors of error.rs. The maps are functions,
-- an actor and an instant are numbers, the factories are of an arbitrary type.
use Prim.Native.String.{String}
use rlyeh_language.Common.{
  ℕ, suc, ◌+◌, ◌-◌, Option, none, some, List, [], ◌∷◌, length, drop, ltb, ◌==◌, if◌then◌else◌,
}

abbrev pub ActorId : Type 0
ActorId = ℕ

pub data RestartStrategy : Type 0 where
  one_for_one all_for_one restart_for_one : RestartStrategy

pub record SupervisorStrategy (F : Type 0) : Type 0 where
  pub strategy : RestartStrategy
  pub max_restarts : ℕ
  pub within : ℕ
  pub children : List ActorId
  pub factory : F

pub record RestartCounter : Type 0 where
  pub count : ℕ
  pub window_start : ℕ

-- error.rs
pub data ActorError : Type 0 where
  mailbox_full actor_stopped wrong_reply_type shutting_down ask_timeout : ActorError
  panic init_failed : (reason : String) → ActorError
  restart_limit_exceeded : (actor_id : ActorId) → ActorError

module _ (F : Type 0) where
  pub data SupervisorDecision : Type 0 where
    restart : List ActorId → SupervisorDecision
    stop : SupervisorDecision
    escalate : ActorError → SupervisorDecision

  pub record Supervisor : Type 0 where
    pub strategies : ActorId → Option (SupervisorStrategy F)
    pub restart_counts : ActorId → Option RestartCounter

  pub new_supervisor : Supervisor
  new_supervisor = record { strategies = λ a. none; restart_counts = λ a. none }

  abbrev pub put {ℓ} : {A : Type ℓ} → ActorId → Option A → (ActorId → Option A) → ActorId → Option A
  put a v m b = if a == b then v else m b

  pub register : ActorId → SupervisorStrategy F → Supervisor → Supervisor
  register child strategy sup = record sup { strategies = put child (some strategy) sup.strategies }

  pub unregister : ActorId → Supervisor → Supervisor
  unregister child sup = record {
    strategies = put child none sup.strategies;
    restart_counts = put child none sup.restart_counts;
  }

  pub clear : Supervisor → Supervisor
  clear sup = new_supervisor

  pub factory_for : ActorId → Supervisor → Option F
  factory_for a sup = elim (sup.strategies a) [ none ↦ none | some s ↦ some s.factory ]

  -- The counter of this crash: a new one if there is none or its window is over, one more in all
  -- cases.
  unfoldable pub current : ℕ → ℕ → Option RestartCounter → RestartCounter
  current now within none = record { count = 0; window_start = now }
  current now within (some c) =
      if ltb within (now - c.window_start) then record { count = 0; window_start = now } else c

  unfoldable pub counted : ℕ → ℕ → Option RestartCounter → RestartCounter
  unfolding current
  counted now within c = record {
    count = (current now within c).count + 1;
    window_start = (current now within c).window_start;
  }

  unfoldable pub position : ActorId → List ActorId → Option ℕ
  position a [] = none
  position a (c ∷ cs) =
      if c == a then some 0 else elim (position a cs) [ none ↦ none | some i ↦ some (suc i) ]

  unfoldable pub from_position : Option ℕ → List ActorId → List ActorId
  from_position none children = drop (length children - 1) children
  from_position (some i) children = drop i children

  unfoldable pub restarted : ActorId → RestartStrategy → List ActorId → List ActorId
  unfolding from_position position
  restarted a RestartStrategy.one_for_one children = a ∷ []
  restarted a RestartStrategy.all_for_one children = children
  restarted a RestartStrategy.restart_for_one children =
      from_position (position a children) children

  unfoldable pub decide : ActorId → SupervisorStrategy F → RestartCounter → SupervisorDecision
  unfolding restarted
  decide a s c =
      if ltb s.max_restarts c.count
      then SupervisorDecision.escalate (ActorError.restart_limit_exceeded a)
      else SupervisorDecision.restart (restarted a s.strategy s.children)

  unfoldable pub note : ActorId → RestartCounter → Supervisor → Supervisor
  note a c sup = record sup { restart_counts = put a (some c) sup.restart_counts }

  unfoldable pub handle_supervised :
      ℕ
      → ActorId
      → SupervisorStrategy F
      → RestartCounter
      → Supervisor
      → Supervisor × SupervisorDecision
  unfolding decide note
  handle_supervised now a s c sup = (note a c sup, decide a s c)

  -- Supervisor::handle_crash at the instant `now`.
  unfoldable pub handle_crash :
      ℕ → ActorId → ActorError → Supervisor → Supervisor × SupervisorDecision
  unfolding handle_supervised counted
  handle_crash now a error sup = elim (sup.strategies a) [
    | none ↦ (sup, SupervisorDecision.escalate error)
    | some s ↦ handle_supervised now a s (counted now s.within (sup.restart_counts a)) sup
  ]
