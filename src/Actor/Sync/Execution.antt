-- ===== src/Actor/Sync/Execution.antt =====
-- Runs of a program, with the handlers and the factories that they call.
use rlyeh_language.Common.{
  ℕ, zero, suc, ◌%◌, ◌<◌, ◌≡◌, refl, subst, false, Option, none, some, arith, >>=-some,
}
use rlyeh_language.Actor.Sync.{
  usize_word, Entry, Machine, Program, Code, entry_at, alloc_entry, spawn_entry, request_stop,
  query_status, clear_table, dispatch, supervise, exec, send_result, ask_result, status_of,
}
use rlyeh_language.Actor.Sync.Later.{Kept, Inv, Later, Good, Kept-refl, Later-refl, Good-trans}
use rlyeh_language.Actor.Sync.Runs.{alloc_entry-Good, request_stop-Good, clear_table-Good}
use rlyeh_language.Actor.Sync.Dispatching.{dispatch-Good, supervise-Good}

module _ {H F W : Type 0} where
  pub memory-Good : (s : Machine H F W) (w : W) → Inv s → Good s (record s { memory = w })
  memory-Good s w v = (
    record { next_pos = v.next_pos; next_lt = v.next_lt; within = v.within; reserved = v.reserved },
    record {
      locked = refl;
      grows = omega arith;
      keeps = λ i l. Kept-refl (entry_at H F W i s.table);
    },
  )

  -- Whatever a program, its handlers and its factories do, if the table is well formed (NEXT is at
  -- least 1 and below the word, the table is no longer than NEXT, index 0 has no entry), then where a
  -- run ends it is well formed, the mutex is as it was, NEXT is no less, and each handle that had been
  -- given has either no entry or an entry, as before, of the same handler and factory, which runs
  -- only if it ran before.
  pub exec-Later :
      (code : Code H F W) (n : ℕ) (p : Program H F W) (s : Machine H F W) (v : ℕ)
      (t : Machine H F W)
      → Inv s
      → exec H F W code n p s ≡ some (v, t)
      → Inv t × Later s t
  unfolding exec
  exec-Later code zero p s v t i e = ground arith
  exec-Later code (suc n) (Program.ret w) s v t i e =
      let p : s ≡ t = ground arith in subst (Good s) p (i, Later-refl s)
  exec-Later code (suc n) (Program.work f k) s v t i e =
      let g = memory-Good s (f s.memory) i in
      Good-trans s (record s { memory = f s.memory }) t g
        (exec-Later code n (k s.memory) (record s { memory = f s.memory }) v t g.0 e)
  exec-Later code (suc n) (Program.spawn h state k) s v t i e =
      let (out, q, r) =
        >>=-some (alloc_entry H F W (spawn_entry H F W h state none) s)
          (λ out. exec H F W code n (k out.0) out.1) (v, t) e in
      let g = (alloc_entry-Good (spawn_entry H F W h state none) s out.1 out.0 i q).0 in
      Good-trans s out.1 t g (exec-Later code n (k out.0) out.1 v t g.0 r)
  exec-Later code (suc n) (Program.spawn_supervised h f k) s v t i e =
      let (out, q, r) =
        >>=-some (supervise H F W code (exec H F W code n) h f s)
          (λ out. exec H F W code n (k out.0) out.1) (v, t) e in
      let g = supervise-Good code (exec H F W code n) (exec-Later code n) h f s out.1 out.0 i q in
      Good-trans s out.1 t g (exec-Later code n (k out.0) out.1 v t g.0 r)
  exec-Later code (suc n) (Program.send actor m k) s v t i e =
      let (out, q, r) =
        >>=-some (dispatch H F W code (exec H F W code n) actor m s)
          (λ out. exec H F W code n (k (send_result H F W out.0)) out.1) (v, t) e in
      let g =
        dispatch-Good code (exec H F W code n) (exec-Later code n) actor m s out.1 out.0 i q in
      Good-trans s out.1 t g (exec-Later code n (k (send_result H F W out.0)) out.1 v t g.0 r)
  exec-Later code (suc n) (Program.ask actor m k) s v t i e =
      let (out, q, r) =
        >>=-some (dispatch H F W code (exec H F W code n) actor m s)
          (λ out. exec H F W code n (k (ask_result H F W out.0)) out.1) (v, t) e in
      let g =
        dispatch-Good code (exec H F W code n) (exec-Later code n) actor m s out.1 out.0 i q in
      Good-trans s out.1 t g (exec-Later code n (k (ask_result H F W out.0)) out.1 v t g.0 r)
  exec-Later code (suc n) (Program.stop actor p) s v t i e =
      let (u, q, r) = >>=-some (request_stop H F W actor s) (λ u. exec H F W code n p u) (v, t) e in
      let g = request_stop-Good actor s u i q in
      Good-trans s u t g (exec-Later code n p u v t g.0 r)
  exec-Later code (suc n) (Program.shutdown p) s v t i e =
      let (u, q, r) = >>=-some (clear_table H F W s) (λ u. exec H F W code n p u) (v, t) e in
      let g = clear_table-Good s u i q in Good-trans s u t g (exec-Later code n p u v t g.0 r)
  exec-Later code (suc n) (Program.status actor k) s v t i e =
      let (w, q, r) =
        >>=-some (query_status H F W actor s) (λ w. exec H F W code n (k w) s) (v, t) e in
      exec-Later code n (k w) s v t i r

  status_of_stopped :
      (o p : Option (Entry H F W)) → Kept o p → status_of H F W o ≡ 3 → status_of H F W p ≡ 3
  unfolding status_of
  status_of_stopped o none h e = refl
  status_of_stopped none (some y) h e = absurd h
  status_of_stopped (some x) (some y) h e = ground arith

  -- Once an actor with a handle that had been given is reported as stopped, in a well-formed table, it
  -- is so after any run of any program.
  pub query_status_stopped :
      (code : Code H F W) (n : ℕ) (p : Program H F W) (s : Machine H F W) (v : ℕ)
      (t : Machine H F W) (actor : ℕ)
      → Inv s
      → actor < s.next
      → query_status H F W actor s ≡ some 3
      → exec H F W code n p s ≡ some (v, t)
      → query_status H F W actor t ≡ some 3
  unfolding query_status
  query_status_stopped code n p s v t actor i l q e =
      let (iu, lu) = exec-Later code n p s v t i e in
      let idx : actor % usize_word ≡ actor = omega (arith, i.next_lt) in
      let free : s.locked ≡ false = ground arith in
      let k = lu.keeps (actor % usize_word) (omega arith) in
      let was : status_of H F W (entry_at H F W (actor % usize_word) s.table) ≡ 3 = ground arith in
      let is =
        status_of_stopped (entry_at H F W (actor % usize_word) s.table)
          (entry_at H F W (actor % usize_word) t.table) k was in
      ground (arith, is, lu.locked, free)
