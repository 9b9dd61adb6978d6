-- ===== src/Actor/Sync/Answers.antt =====
-- A supervised actor that nobody stops stays supervised, and answers each message.
use rlyeh_language.Common.{
  ℕ, zero, suc, ◌%◌, ◌<◌, ◌≡◌, ◌≢◌, refl, ap, subst, ◌∙◌, inl, inr, true, false, Option, none, some,
  ◌==◌, if◌then◌else◌, arith, Bool-cases, Option-cases, >>=-some,
}
use rlyeh_language.Actor.Sync.{
  usize_word, crashed, Entry, Machine, Message, Program, Code, entry_at, modify, alloc_entry,
  spawn_entry, request_stop, query_status, rebuild, after_crash, deliver, dispatch, supervise, exec,
  send_result, ask_result,
}
use rlyeh_language.Actor.Sync.Later.{Inv, modify-Good, entry_at-modify_ne}
use rlyeh_language.Actor.Sync.Runs.{alloc_entry-Good, alloc_entry-Good}
use rlyeh_language.Actor.Sync.Dispatching.{dispatch-Good}
use rlyeh_language.Actor.Sync.Execution.{exec-Later, memory-Good}
use rlyeh_language.Actor.Sync.Supervised.{Spares, CodeSpares, Given, Saves, dispatch-Given}

module _ {H F W : Type 0} where
  supervise-Given :
      (code : Code H F W) (run : Program H F W → Machine H F W → Option (ℕ × Machine H F W)) (a : ℕ)
      (h : H) (f : F)
      → CodeSpares a code
      → Saves a h f run
      → (h' : H) (g : F) (s t : Machine H F W) (o : ℕ) → Given a h f s
      → supervise H F W code run h' g s ≡ some (o, t)
      → Given a h f t
  unfolding supervise
  supervise-Given code run a h f spares saves h' g s t o v q =
      elim (Option-cases (run (code.state_new g) s)) [
        | inl n ↦ ground arith
        | inr ((z, u), n) ↦
            let (iu, lu, (state, e)) = saves (code.state_new g) s z u (spares.state_new g) v n in
            let (good, is, next, here, old) =
              alloc_entry-Good (spawn_entry H F W h' z (some g)) u t o iu (ground arith) in
            (good.0, omega arith, (state, old a lu ∙ e))
      ]

  request_stop-Given :
      (a : ℕ) (h : H) (f : F) (b : ℕ) (s t : Machine H F W)
      → b % usize_word ≢ a
      → Given a h f s
      → request_stop H F W b s ≡ some t
      → Given a h f t
  unfolding request_stop
  request_stop-Given a h f b s t other (v, l, (state, e)) q =
      let g : Entry H F W → Entry H F W = λ e. record e { running = false } in
      let p : record s { table = modify H F W (b % usize_word) g s.table } ≡ t = ground arith in
      let mg = modify-Good s (b % usize_word) g (λ e. (refl, refl, λ r. cc)) v in
      subst (Given a h f) p
        (mg.0, l, (state, entry_at-modify_ne (b % usize_word) a g s.table other ∙ e))

  -- If a program, the handlers and the factories neither stop an actor nor shut the runtime down, a
  -- supervised actor that runs, of a handle that had been given in a well-formed table, does so after
  -- the run, with the same handler and factory.
  pub exec-Given :
      (code : Code H F W) (a : ℕ) (h : H) (f : F) (n : ℕ) (p : Program H F W) (s : Machine H F W)
      (v : ℕ) (t : Machine H F W)
      → CodeSpares a code
      → Spares a p
      → Given a h f s
      → exec H F W code n p s ≡ some (v, t)
      → Given a h f t
  unfolding exec
  exec-Given code a h f zero p s v t spares sp i e = ground arith
  exec-Given code a h f (suc n) (Program.ret w) s v t spares sp i e =
      let p : s ≡ t = ground arith in subst (Given a h f) p i
  exec-Given code a h f (suc n) (Program.work g k) s v t spares sp i e =
      exec-Given code a h f n (k s.memory) (record s { memory = g s.memory }) v t spares
        (sp s.memory) ((memory-Good s (g s.memory) i.0).0, i.1, i.2) e
  exec-Given code a h f (suc n) (Program.spawn h' state k) s v t spares sp i e =
      let (out, q, r) =
        >>=-some (alloc_entry H F W (spawn_entry H F W h' state none) s)
          (λ out. exec H F W code n (k out.0) out.1) (v, t) e in
      let (good, is, next, here, old) =
        alloc_entry-Good (spawn_entry H F W h' state none) s out.1 out.0 i.0 q in
      let (b, l, (state, at)) = i in
      exec-Given code a h f n (k out.0) out.1 v t spares (sp out.0)
        (good.0, omega arith, (state, old a l ∙ at)) r
  exec-Given code a h f (suc n) (Program.spawn_supervised h' g k) s v t spares sp i e =
      let (out, q, r) =
        >>=-some (supervise H F W code (exec H F W code n) h' g s)
          (λ out. exec H F W code n (k out.0) out.1) (v, t) e in
      let saves : Saves a h f (exec H F W code n) =
        λ p s v t sp i e. exec-Given code a h f n p s v t spares sp i e in
      let g = supervise-Given code (exec H F W code n) a h f spares saves h' g s out.1 out.0 i q in
      exec-Given code a h f n (k out.0) out.1 v t spares (sp out.0) g r
  exec-Given code a h f (suc n) (Program.send b m k) s v t spares sp i e =
      let (out, q, r) =
        >>=-some (dispatch H F W code (exec H F W code n) b m s)
          (λ out. exec H F W code n (k (send_result H F W out.0)) out.1) (v, t) e in
      let saves : Saves a h f (exec H F W code n) =
        λ p s v t sp i e. exec-Given code a h f n p s v t spares sp i e in
      let g = dispatch-Given code (exec H F W code n) a h f spares saves b m s out.1 out.0 i q in
      exec-Given code a h f n (k (send_result H F W out.0)) out.1 v t spares
        (sp (send_result H F W out.0)) g r
  exec-Given code a h f (suc n) (Program.ask b m k) s v t spares sp i e =
      let (out, q, r) =
        >>=-some (dispatch H F W code (exec H F W code n) b m s)
          (λ out. exec H F W code n (k (ask_result H F W out.0)) out.1) (v, t) e in
      let saves : Saves a h f (exec H F W code n) =
        λ p s v t sp i e. exec-Given code a h f n p s v t spares sp i e in
      let g = dispatch-Given code (exec H F W code n) a h f spares saves b m s out.1 out.0 i q in
      exec-Given code a h f n (k (ask_result H F W out.0)) out.1 v t spares
        (sp (ask_result H F W out.0)) g r
  exec-Given code a h f (suc n) (Program.stop b p) s v t spares sp i e =
      let (u, q, r) = >>=-some (request_stop H F W b s) (λ u. exec H F W code n p u) (v, t) e in
      exec-Given code a h f n p u v t spares sp.1 (request_stop-Given a h f b s u sp.0 i q) r
  exec-Given code a h f (suc n) (Program.shutdown p) s v t spares sp i e = absurd sp
  exec-Given code a h f (suc n) (Program.status b k) s v t spares sp i e =
      let (w, q, r) = >>=-some (query_status H F W b s) (λ w. exec H F W code n (k w) s) (v, t) e in
      exec-Given code a h f n (k w) s v t spares (sp w) i r

  after_crash_returns :
      (code : Code H F W) (run : Program H F W → Machine H F W → Option (ℕ × Machine H F W))
      (idx : ℕ) (f : F) (s : Machine H F W) (x : Entry H F W)
      → s.locked ≡ false
      → entry_at H F W idx s.table ≡ some x
      → (w : ℕ × Machine H F W) × (run (code.state_new f) (record s { locked = true }) ≡ some w)
      → (t : Machine H F W) × (after_crash H F W code run idx (some f) s ≡ some (some 0, t))
  unfolding after_crash rebuild
  after_crash_returns code run idx f s x free e (w, q) = (
    record w.1 {
      locked = false;
      table = modify H F W idx (λ e. record e { state = w.0 }) w.1.table;
    },
    ground arith,
  )

  -- A running supervised actor of a handle that had been given, in a well-formed table whose mutex is
  -- free, answers a message if its handler returns and, when that crashes, its factory returns
  -- under the held mutex: with 0 after a crash, and else as the handler does. If no code stops it
  -- or shuts the runtime down, it is then as before, with the mutex free.
  pub dispatch_answers :
      (code : Code H F W) (n a : ℕ) (h : H) (f : F) (m : Message H F W) (s u : Machine H F W)
      (state r : ℕ)
      → Inv s
      → a < s.next
      → s.locked ≡ false
      → entry_at H F W a s.table ≡ some (spawn_entry H F W h state (some f))
      → CodeSpares a code
      → exec H F W code n (code.handle h state m) s ≡ some (r, u)
      → (r ≡ crashed
          → (w : ℕ × Machine H F W) × (exec H F W code n
                (code.state_new f)
                (record u { locked = true })
              ≡ some w))
      → (t : Machine H F W) × (dispatch H F W code (exec H F W code n) a m s
          ≡ some (some (if r == crashed then 0 else r), t))
        × (t.locked ≡ false)
        × Given a h f t
  unfolding dispatch deliver spawn_entry
  dispatch_answers code n a h f m s u state r v l free e spares returns rebuilds =
      let idx : a % usize_word ≡ a = omega (arith, v.next_lt) in
      let at : entry_at H F W (a % usize_word) s.table ≡ some (spawn_entry H F W h state (some f)) =
        ap (λ i. entry_at H F W i s.table) idx ∙ e in
      let after = exec-Later code n (code.handle h state m) s r u v returns in
      let here =
        exec-Given code a h f n (code.handle h state m) s r u spares (spares.handle h state m)
          (v, l, (state, e)) returns in
      let (t, q) : (t : Machine H F W) × (deliver H F W code (exec H F W code n) (a % usize_word) m
              (spawn_entry H F W h state (some f)) s
            ≡ some (some (if r == crashed then 0 else r), t)) =
        elim (Bool-cases (r == crashed)) [
          | inr c ↦ (u, ground arith)
          | inl c ↦
              let (t, q) =
                after_crash_returns code (exec H F W code n) (a % usize_word) f u
                  (spawn_entry H F W h here.2.0 (some f)) (after.1.locked ∙ free)
                  (ap (λ i. entry_at H F W i u.table) idx ∙ here.2.1) (rebuilds (ground arith)) in
              (t, ground arith)
        ] in
      let d : dispatch H F W code (exec H F W code n) a m s
          ≡ some (some (if r == crashed then 0 else r), t) =
        ground (arith, at, free, q) in
      let saves : Saves a h f (exec H F W code n) =
        λ p s v t sp i e. exec-Given code a h f n p s v t spares sp i e in
      (
        t,
        d,
        (dispatch-Good code (exec H F W code n) (exec-Later code n) a m s t _ v d).1.locked ∙ free,
        dispatch-Given code (exec H F W code n) a h f spares saves a m s t _ (v, l, (state, e)) d,
      )
