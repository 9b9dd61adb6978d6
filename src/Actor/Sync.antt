-- ===== src/Actor/Sync.antt =====
-- crates/rlyeh-actor-runtime/src/sync.rs, and what ffi.rs makes of it on WASI: one thread, the
-- messages are handled as they are sent. The compiled program is data: what it does next, up to the
-- calls of the runtime. A panic, a deadlock and a run without fuel are `none`.
pub mod Later
pub mod Runs
pub mod Dispatching
pub mod Execution
pub mod Supervised
pub mod Answers
pub mod Deadlock
use rlyeh_language.Common.{
  ◌>>=◌, ℕ, zero, suc, ◌+◌, ◌-◌, ◌%◌, ◌^◌, Bool, true, false, Option, none, some, List, [], ◌∷◌,
  ◌++◌, length, ltb, leb, ◌==◌, if◌then◌else◌, get_elem?, set, replicate,
}

-- usize on wasm32.
abbrev pub usize_word : ℕ
usize_word = 4294967296

abbrev pub u64_word : ℕ
u64_word = 18446744073709551616

-- -1, by which a handler says that it crashed.
abbrev pub crashed : ℕ
crashed = 18446744073709551615

-- Handlers, factories and the memory of the program.
module _ (H F W : Type 0) where
  pub record Entry : Type 0 where
    pub handler : H
    pub state : ℕ
    pub factory : Option F
    pub running : Bool

  -- TABLE, its mutex, NEXT, and the memory.
  pub record Machine : Type 0 where
    pub table : List (Option Entry)
    pub locked : Bool
    pub next : ℕ
    pub memory : W

  pub initial : W → Machine
  initial w = record { table = []; locked = false; next = 1; memory = w }

  pub record Message : Type 0 where
    pub kind : ℕ
    pub a : ℕ
    pub b : ℕ
    pub c : ℕ

  -- The program, and with `code` its functions.
  pub data Program : Type 0 where
    ret : ℕ → Program
    work : (W → W) → (W → Program) → Program
    spawn : H → ℕ → (ℕ → Program) → Program
    spawn_supervised : H → F → (ℕ → Program) → Program
    send ask : ℕ → Message → (ℕ → Program) → Program
    stop : ℕ → Program → Program
    status : ℕ → (ℕ → Program) → Program
    shutdown : Program → Program

  pub record Code : Type 0 where
    pub handle : H → ℕ → Message → Program
    pub state_new : F → Program

  -- A second lock by the thread that holds the mutex.
  abbrev pub lock {ℓ} : {A : Type ℓ} → (Machine → Option A) → Machine → Option A
  lock k s = if s.locked then none else k s

  unfoldable pub entry_at : ℕ → List (Option Entry) → Option Entry
  entry_at i [] = none
  entry_at zero (o ∷ table) = o
  entry_at (suc i) (o ∷ table) = entry_at i table

  -- A change of the entry at an index, if there is one.
  unfoldable pub modify : ℕ → (Entry → Entry) → List (Option Entry) → List (Option Entry)
  modify i f [] = []
  modify zero f (none ∷ table) = none ∷ table
  modify zero f (some e ∷ table) = some (f e) ∷ table
  modify (suc i) f (o ∷ table) = o ∷ modify i f table

  -- Room for the index; `idx + 1` overflows at the last one.
  unfoldable pub grow_to : ℕ → List (Option Entry) → Option (List (Option Entry))
  grow_to idx table =
      if leb (length table) idx
      then (if (idx + 1) == usize_word
          then none
          else some (table ++ replicate (idx + 1 - length table) none))
      else some table

  unfoldable pub alloc_entry : Entry → Machine → Option (ℕ × Machine)
  unfolding grow_to
  alloc_entry e = lock (λ s.
      let idx = s.next % usize_word in
      grow_to idx s.table >>= λ t.
      some (s.next, record s { table = set t idx (some e); next = (s.next + 1) % u64_word }))

  unfoldable pub spawn_entry : H → ℕ → Option F → Entry
  spawn_entry h state factory = record {
    handler = h;
    state = state;
    factory = factory;
    running = true;
  }

  unfoldable pub request_stop : ℕ → Machine → Option Machine
  unfolding modify
  request_stop actor = lock (λ s. some (record s {
    table = modify (actor % usize_word) (λ e. record e { running = false }) s.table;
  }))

  unfoldable pub status_of : Option Entry → ℕ
  status_of none = 3
  status_of (some e) = if e.running then 0 else 3

  unfoldable pub query_status : ℕ → Machine → Option ℕ
  unfolding entry_at status_of
  query_status actor = lock (λ s. some (status_of (entry_at (actor % usize_word) s.table)))

  unfoldable pub clear_table : Machine → Option Machine
  clear_table = lock (λ s. some (record s { table = [] }))

  module _ (code : Code) (run : Program → Machine → Option (ℕ × Machine)) where
    -- The factory runs while the mutex is held.
    unfoldable pub rebuild : ℕ → F → Machine → Option (Option ℕ × Machine)
    unfolding modify
    rebuild idx f s = run (code.state_new f) (record s { locked = true }) >>= λ out. some (
      some 0,
      record out.1 {
        locked = false;
        table = modify idx (λ e. record e { state = out.0 }) out.1.table;
      },
    )

    unfoldable pub after_crash : ℕ → Option F → Machine → Option (Option ℕ × Machine)
    unfolding entry_at modify rebuild
    after_crash idx factory = lock (λ s. elim (entry_at idx s.table) [
      | none ↦ some (none, s)
      | some e ↦ elim factory [
        | some f ↦ rebuild idx f s
        | none ↦
            some (none, record s { table = modify idx (λ x. record x { running = false }) s.table })
      ]
    ])

    -- The reply to a message, or none from an actor that is not there, is stopped, or crashed
    -- without a factory.
    unfoldable pub deliver : ℕ → Message → Entry → Machine → Option (Option ℕ × Machine)
    unfolding after_crash
    deliver idx m e s =
        if e.running
        then (run (code.handle e.handler e.state m) s >>= λ out.
            if out.0 == crashed then after_crash idx e.factory out.1 else some (some out.0, out.1))
        else some (none, s)

    unfoldable pub dispatch : ℕ → Message → Machine → Option (Option ℕ × Machine)
    unfolding entry_at deliver
    dispatch actor m = lock (λ s. elim (entry_at (actor % usize_word) s.table) [
      | none ↦ some (none, s)
      | some e ↦ deliver (actor % usize_word) m e s
    ])

    unfoldable pub supervise : H → F → Machine → Option (ℕ × Machine)
    unfolding alloc_entry spawn_entry
    supervise h f s =
        run (code.state_new f) s >>= λ out. alloc_entry (spawn_entry h out.0 (some f)) out.1

  -- rlyeh_actor_send and rlyeh_actor_ask.
  unfoldable pub send_result : Option ℕ → ℕ
  send_result none = 1
  send_result (some v) = 0

  unfoldable pub ask_result : Option ℕ → ℕ
  ask_result none = 0
  ask_result (some v) = v

  -- The calls of a program, with one unit of fuel for each.
  unfoldable pub exec : Code → ℕ → Program → Machine → Option (ℕ × Machine)
  unfolding alloc_entry spawn_entry supervise dispatch send_result ask_result request_stop
      query_status clear_table
  exec code zero p s = none
  exec code (suc n) (Program.ret v) s = some (v, s)
  exec code (suc n) (Program.work f k) s =
      exec code n (k s.memory) (record s { memory = f s.memory })
  exec code (suc n) (Program.spawn h state k) s =
      alloc_entry (spawn_entry h state none) s >>= λ out. exec code n (k out.0) out.1
  exec code (suc n) (Program.spawn_supervised h f k) s =
      supervise code (exec code n) h f s >>= λ out. exec code n (k out.0) out.1
  exec code (suc n) (Program.send actor m k) s =
      dispatch code (exec code n) actor m s >>= λ out. exec code n (k (send_result out.0)) out.1
  exec code (suc n) (Program.ask actor m k) s =
      dispatch code (exec code n) actor m s >>= λ out. exec code n (k (ask_result out.0)) out.1
  exec code (suc n) (Program.stop actor p) s = request_stop actor s >>= λ t. exec code n p t
  exec code (suc n) (Program.status actor k) s = query_status actor s >>= λ v. exec code n (k v) s
  exec code (suc n) (Program.shutdown p) s = clear_table s >>= λ t. exec code n p t
