-- ===== src/Actor/Sync/Supervised.antt =====
-- A message leaves a supervised actor that nobody stops supervised.
use rlyeh_language.Common.{
  ℕ, ◌%◌, ◌<◌, ◌≡◌, ◌≢◌, refl, sym, ap, subst, ◌∙◌, inl, inr, true, false, Option, none, some, List,
  ◌==◌, arith, Bool-cases, Option-cases,
}
use rlyeh_language.Actor.Sync.{
  usize_word, crashed, Entry, Machine, Message, Program, Code, entry_at, modify, spawn_entry,
  rebuild, after_crash, deliver, dispatch,
}
use rlyeh_language.Actor.Sync.Later.{Inv, modify-Good, entry_at-modify_ne, entry_at-modify_self}
use rlyeh_language.Actor.Sync.Dispatching.{locked-Inv}

module _ {H F W : Type 0} where
  -- A program that neither stops the actor nor shuts the runtime down.
  abbrev pub Spares : ℕ → Program H F W → Type 0
  Spares a (Program.ret v) = Unit
  Spares a (Program.work f k) = (w : W) → Spares a (k w)
  Spares a (Program.spawn h state k) = (v : ℕ) → Spares a (k v)
  Spares a (Program.spawn_supervised h f k) = (v : ℕ) → Spares a (k v)
  Spares a (Program.send b m k) = (v : ℕ) → Spares a (k v)
  Spares a (Program.ask b m k) = (v : ℕ) → Spares a (k v)
  Spares a (Program.stop b p) = (b % usize_word ≢ a) × Spares a p
  Spares a (Program.status b k) = (v : ℕ) → Spares a (k v)
  Spares a (Program.shutdown p) = ⊥

  pub record CodeSpares (a : ℕ) (code : Code H F W) : Type 0 where
    pub handle : (h : H) (state : ℕ) (m : Message H F W) → Spares a (code.handle h state m)
    pub state_new : (f : F) → Spares a (code.state_new f)

  -- The actor runs, with this handler and factory and some state.
  abbrev pub Supervised : ℕ → H → F → Machine H F W → Type 0
  Supervised a h f s =
      (state : ℕ) × (entry_at H F W a s.table ≡ some (spawn_entry H F W h state (some f)))

  -- An entry of a handle that had been given.
  abbrev pub Given : ℕ → H → F → Machine H F W → Type 0
  Given a h f s = Inv s × (a < s.next) × Supervised a h f s

  modify-Supervised :
      (a i state r : ℕ) (h : H) (f : F) (table : List (Option (Entry H F W)))
      → entry_at H F W a table ≡ some (spawn_entry H F W h state (some f))
      → (state' : ℕ) × (entry_at H F W a (modify H F W i (λ e. record e { state = r }) table)
          ≡ some (spawn_entry H F W h state' (some f)))
  unfolding spawn_entry
  modify-Supervised a i state r h f table e = elim (Bool-cases (i == a)) [
    | inl q ↦
        let g : Entry H F W → Entry H F W = λ e. record e { state = r } in
        let is : i ≡ a = ground arith in
        (
          r,
          ap (λ j. entry_at H F W a (modify H F W j g table)) is
              ∙ entry_at-modify_self a g table _ e,
        )
    | inr q ↦ (state, entry_at-modify_ne i a _ table (ground arith) ∙ e)
  ]

  abbrev pub Saves :
      ℕ → H → F → (Program H F W → Machine H F W → Option (ℕ × Machine H F W)) → Type 0
  Saves a h f run =
      (p : Program H F W) (s : Machine H F W) (v : ℕ) (t : Machine H F W)
      → Spares a p
      → Given a h f s
      → run p s ≡ some (v, t)
      → Given a h f t

  module _ (code : Code H F W) (run : Program H F W → Machine H F W → Option (ℕ × Machine H F W))
      (a : ℕ) (h : H) (f : F) (spares : CodeSpares a code) (saves : Saves a h f run) where
    rebuild-Given :
        (idx : ℕ) (g : F) (s t : Machine H F W) (o : Option ℕ)
        → Given a h f s
        → rebuild H F W code run idx g s ≡ some (o, t)
        → Given a h f t
    unfolding rebuild
    rebuild-Given idx g s t o (v, l, (state, e)) q =
        elim (Option-cases (run (code.state_new g) (record s { locked = true }))) [
          | inl n ↦ ground arith
          | inr ((r, u), n) ↦
              let (iu, lu, (state', e')) =
                saves (code.state_new g) (record s { locked = true }) r u (spares.state_new g)
                  (locked-Inv s true v, l, (state, e)) n in
              let w : Machine H F W = record u {
                locked = false;
                table = modify H F W idx (λ e. record e { state = r }) u.table;
              } in
              let p : w ≡ t = ground arith in
              let mg =
                modify-Good u idx (λ e. record e { state = r }) (λ e. (refl, refl, λ r. r)) iu in
              subst (Given a h f) p
                (locked-Inv _ false mg.0, lu, modify-Supervised a idx state' r h f u.table e')
        ]

    -- The entry that was found at `a` has the factory.
    after_crash-Given :
        (idx : ℕ) (factory : Option F) (s t : Machine H F W) (o : Option ℕ)
        → (idx ≡ a → factory ≢ none)
        → Given a h f s
        → after_crash H F W code run idx factory s ≡ some (o, t)
        → Given a h f t
    unfolding after_crash
    after_crash-Given idx factory s t o has (v, l, (state, e)) q =
        elim (Option-cases (entry_at H F W idx s.table)) [
          | inl n ↦ let p : s ≡ t = ground arith in subst (Given a h f) p (v, l, (state, e))
          | inr (x, n) ↦ elim (Option-cases factory) [
            | inl z ↦
                let g : Entry H F W → Entry H F W = λ x. record x { running = false } in
                let p : record s { table = modify H F W idx g s.table } ≡ t = ground arith in
                let mg = modify-Good s idx g (λ e. (refl, refl, λ r. cc)) v in
                subst (Given a h f) p
                  (mg.0, l, (state, entry_at-modify_ne idx a g s.table (λ i. has i z) ∙ e))
            | inr (g, z) ↦ rebuild-Given idx g s t o (v, l, (state, e)) (ground arith)
          ]
        ]

    deliver-Given :
        (idx : ℕ) (m : Message H F W) (x : Entry H F W) (s t : Machine H F W) (o : Option ℕ)
        → entry_at H F W idx s.table ≡ some x
        → Given a h f s
        → deliver H F W code run idx m x s ≡ some (o, t)
        → Given a h f t
    unfolding deliver spawn_entry
    deliver-Given idx m x s t o at (v, l, (state, e)) q = elim (Bool-cases x.running) [
      | inr n ↦ let p : s ≡ t = ground arith in subst (Given a h f) p (v, l, (state, e))
      | inl r ↦ elim (Option-cases (run (code.handle x.handler x.state m) s)) [
        | inl n ↦ ground arith
        | inr ((z, u), n) ↦
            let g =
              saves (code.handle x.handler x.state m) s z u (spares.handle x.handler x.state m)
                (v, l, (state, e)) n in
            elim (Bool-cases (z == crashed)) [
              | inl c ↦
                  let has : idx ≡ a → x.factory ≢ none = λ i none_is.
                    let same : some x ≡ some (spawn_entry H F W h state (some f)) =
                      sym at ∙ ap (λ j. entry_at H F W j s.table) i ∙ e in
                    ground arith in
                  after_crash-Given idx x.factory u t o has g (ground arith)
              | inr c ↦ let p : u ≡ t = ground arith in subst (Given a h f) p g
            ]
      ]
    ]

    pub dispatch-Given :
        (actor : ℕ) (m : Message H F W) (s t : Machine H F W) (o : Option ℕ)
        → Given a h f s
        → dispatch H F W code run actor m s ≡ some (o, t)
        → Given a h f t
    unfolding dispatch
    dispatch-Given actor m s t o v q =
        elim (Option-cases (entry_at H F W (actor % usize_word) s.table)) [
          | inl n ↦ let p : s ≡ t = ground arith in subst (Given a h f) p v
          | inr (x, n) ↦ deliver-Given (actor % usize_word) m x s t o n v (ground arith)
        ]
