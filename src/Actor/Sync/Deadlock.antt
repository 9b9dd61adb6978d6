-- ===== src/Actor/Sync/Deadlock.antt =====
-- A factory that calls the runtime, run for a crashed actor.
use rlyeh_language.Common.{
  ℕ, zero, suc, ◌%◌, ◌<◌, ◌≡◌, ◌≢◌, refl, sym, ap, ◌∙◌, true, Option, none, some, arith,
}
use rlyeh_language.Actor.Sync.{
  usize_word, crashed, Machine, Message, Program, Code, entry_at, alloc_entry, spawn_entry, rebuild,
  after_crash, deliver, dispatch, exec,
}
use rlyeh_language.Actor.Sync.Later.{Inv}

module _ {H F W : Type 0} where
  exec_spawn_locked :
      (code : Code H F W) (n first : ℕ) (child : H) (k : ℕ → Program H F W) (s : Machine H F W)
      → exec H F W code n (Program.spawn child first k) (record s { locked = true }) ≡ none
  unfolding exec alloc_entry
  exec_spawn_locked code zero first child k s = refl
  exec_spawn_locked code (suc n) first child k s = refl

  rebuild_deadlock :
      (code : Code H F W) (n idx : ℕ) (f : F) (child : H) (first : ℕ) (k : ℕ → Program H F W)
      (s : Machine H F W)
      → code.state_new f ≡ Program.spawn child first k
      → rebuild H F W code (exec H F W code n) idx f s ≡ none
  unfolding rebuild
  rebuild_deadlock code n idx f child first k s e =
      let q : exec H F W code n (code.state_new f) (record s { locked = true }) ≡ none =
        ap (λ p. exec H F W code n p (record s { locked = true })) e
        ∙ exec_spawn_locked code n first child k s in
      ground arith

  after_crash_deadlock :
      (code : Code H F W) (run : Program H F W → Machine H F W → Option (ℕ × Machine H F W))
      (idx : ℕ) (f : F) (s : Machine H F W)
      → rebuild H F W code run idx f s ≡ none
      → entry_at H F W idx s.table ≢ none
      → after_crash H F W code run idx (some f) s ≡ none
  unfolding after_crash
  after_crash_deadlock code run idx f s q there = ground arith

  -- The message of a running supervised actor, of a handle that had been given in a well-formed
  -- table, is not answered, with any fuel with which its handler returns, if that returns the crash
  -- signal and leaves the actor's entry, and the first act of its factory is to create an actor: the
  -- factory waits for the mutex that its caller holds.
  pub dispatch_deadlock :
      (code : Code H F W) (n a : ℕ) (h child : H) (f : F) (m : Message H F W) (s u : Machine H F W)
      (state first : ℕ) (k : ℕ → Program H F W)
      → Inv s
      → a < s.next
      → entry_at H F W a s.table ≡ some (spawn_entry H F W h state (some f))
      → code.state_new f ≡ Program.spawn child first k
      → exec H F W code n (code.handle h state m) s ≡ some (crashed, u)
      → entry_at H F W a u.table ≢ none
      → dispatch H F W code (exec H F W code n) a m s ≡ none
  unfolding dispatch deliver spawn_entry
  dispatch_deadlock code n a h child f m s u state first k v l e factory returns stays =
      let idx : a % usize_word ≡ a = omega (arith, v.next_lt) in
      let at : entry_at H F W (a % usize_word) s.table ≡ some (spawn_entry H F W h state (some f)) =
        ap (λ i. entry_at H F W i s.table) idx ∙ e in
      let there : entry_at H F W (a % usize_word) u.table ≢ none =
        λ q. stays (ap (λ i. entry_at H F W i u.table) (sym idx) ∙ q) in
      let hangs = rebuild_deadlock code n (a % usize_word) f child first k u factory in
      ground (
        arith,
        at,
        there,
        hangs,
        after_crash_deadlock code (exec H F W code n) (a % usize_word) f u hangs there,
      )
