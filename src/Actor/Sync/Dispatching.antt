-- ===== src/Actor/Sync/Dispatching.antt =====
-- Messages: the run of a handler, and after a crash of the factory, keeps the table well formed.
use rlyeh_language.Common.{
  ℕ, ◌%◌, ◌≡◌, refl, sym, subst, inl, inr, Bool, true, false, Option, some, ◌==◌, arith, Bool-cases,
  Option-cases,
}
use rlyeh_language.Actor.Sync.{
  usize_word, crashed, Entry, Machine, Message, Program, Code, entry_at, modify, spawn_entry,
  rebuild, after_crash, deliver, dispatch, supervise,
}
use rlyeh_language.Actor.Sync.Later.{Inv, Good, Kept-trans, Later-refl, Good-trans, modify-Good}
use rlyeh_language.Actor.Sync.Runs.{alloc_entry-Good}

module _ {H F W : Type 0} where
  abbrev pub Keeps : (Program H F W → Machine H F W → Option (ℕ × Machine H F W)) → Type 0
  Keeps run =
      (p : Program H F W) (s : Machine H F W) (v : ℕ) (t : Machine H F W)
      → Inv s
      → run p s ≡ some (v, t)
      → Good s t

  -- The mutex is of no account for what is well formed.
  pub locked-Inv : (s : Machine H F W) (b : Bool) → Inv s → Inv (record s { locked = b })
  locked-Inv s b v = record {
    next_pos = v.next_pos;
    next_lt = v.next_lt;
    within = v.within;
    reserved = v.reserved;
  }

  module _ (code : Code H F W) (run : Program H F W → Machine H F W → Option (ℕ × Machine H F W))
      (keeps : Keeps run) where
    rebuild-Good :
        (idx : ℕ) (f : F) (s t : Machine H F W) (o : Option ℕ)
        → Inv s
        → s.locked ≡ false
        → rebuild H F W code run idx f s ≡ some (o, t)
        → Good s t
    unfolding rebuild
    rebuild-Good idx f s t o v free e =
        elim (Option-cases (run (code.state_new f) (record s { locked = true }))) [
          | inl q ↦ ground arith
          | inr ((r, u), q) ↦
              let (iu, lu) =
                keeps (code.state_new f) (record s { locked = true }) r u (locked-Inv s true v) q in
              let w : Machine H F W = record u {
                locked = false;
                table = modify H F W idx (λ e. record e { state = r }) u.table;
              } in
              let p : w ≡ t = ground arith in
              let (iw, lw) =
                modify-Good u idx (λ e. record e { state = r }) (λ e. (refl, refl, λ r. r)) iu in
              subst (Good s) p (
                locked-Inv _ false iw,
                record {
                  locked = sym free;
                  grows = lu.grows;
                  keeps = λ i l.
                      Kept-trans (entry_at H F W i s.table) (entry_at H F W i u.table)
                        (entry_at H F W i w.table) (lu.keeps i l)
                        (lw.keeps i (omega (arith, lu.grows)));
                },
              )
        ]

    after_crash-Good :
        (idx : ℕ) (factory : Option F) (s t : Machine H F W) (o : Option ℕ)
        → Inv s
        → after_crash H F W code run idx factory s ≡ some (o, t)
        → Good s t
    unfolding after_crash
    after_crash-Good idx factory s t o v e =
        let free : s.locked ≡ false = ground arith in
        elim (Option-cases (entry_at H F W idx s.table)) [
          | inl q ↦ let p : s ≡ t = ground arith in subst (Good s) p (v, Later-refl s)
          | inr (x, q) ↦ elim (Option-cases factory) [
            | inl n ↦
                let p : record s {
                  table = modify H F W idx (λ x. record x { running = false }) s.table;
                }
                    ≡ t =
                  ground arith in
                subst (Good s) p (modify-Good s idx _ (λ e. (refl, refl, λ r. cc)) v)
            | inr (f, n) ↦ rebuild-Good idx f s t o v free (ground arith)
          ]
        ]

    deliver-Good :
        (idx : ℕ) (m : Message H F W) (x : Entry H F W) (s t : Machine H F W) (o : Option ℕ)
        → Inv s
        → deliver H F W code run idx m x s ≡ some (o, t)
        → Good s t
    unfolding deliver
    deliver-Good idx m x s t o v e = elim (Bool-cases x.running) [
      | inr n ↦ let p : s ≡ t = ground arith in subst (Good s) p (v, Later-refl s)
      | inl r ↦ elim (Option-cases (run (code.handle x.handler x.state m) s)) [
        | inl q ↦ ground arith
        | inr ((z, u), q) ↦
            let g = keeps (code.handle x.handler x.state m) s z u v q in
            elim (Bool-cases (z == crashed)) [
              | inl c ↦ Good-trans s u t g (after_crash-Good idx x.factory u t o g.0 (ground arith))
              | inr c ↦ let p : u ≡ t = ground arith in subst (Good s) p g
            ]
      ]
    ]

    pub dispatch-Good :
        (actor : ℕ) (m : Message H F W) (s t : Machine H F W) (o : Option ℕ)
        → Inv s
        → dispatch H F W code run actor m s ≡ some (o, t)
        → Good s t
    unfolding dispatch
    dispatch-Good actor m s t o v e =
        elim (Option-cases (entry_at H F W (actor % usize_word) s.table)) [
          | inl q ↦ let p : s ≡ t = ground arith in subst (Good s) p (v, Later-refl s)
          | inr (x, q) ↦ deliver-Good (actor % usize_word) m x s t o v (ground arith)
        ]

    pub supervise-Good :
        (h : H) (f : F) (s t : Machine H F W) (o : ℕ)
        → Inv s
        → supervise H F W code run h f s ≡ some (o, t)
        → Good s t
    unfolding supervise
    supervise-Good h f s t o v e = elim (Option-cases (run (code.state_new f) s)) [
      | inl q ↦ ground arith
      | inr ((z, u), q) ↦
          let g = keeps (code.state_new f) s z u v q in
          let a = alloc_entry-Good (spawn_entry H F W h z (some f)) u t o g.0 (ground arith) in
          Good-trans s u t g a.0
    ]
