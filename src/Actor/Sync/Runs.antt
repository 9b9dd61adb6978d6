-- ===== src/Actor/Sync/Runs.antt =====
-- Every call of the runtime, and so every run of a program, keeps the table well formed, gives no
-- handle twice and starts no actor again.
use rlyeh_language.Common.{
  ℕ, ◌+◌, ◌-◌, ◌%◌, ◌≤◌, ◌<◌, ◌≡◌, ◌≢◌, refl, sym, ap, subst, ◌∙◌, inl, inr, false, Option, none,
  some, List, [], ◌++◌, length, set, replicate, arith, Option-cases, length-append,
  length-replicate, length-set,
}
use rlyeh_language.Actor.Sync.{
  usize_word, u64_word, Entry, Machine, entry_at, modify, grow_to, alloc_entry, request_stop,
  clear_table,
}
use rlyeh_language.Actor.Sync.Later.{
  Kept, Inv, Good, Kept-refl, modify-Good, entry_at_fill, entry_at-set_self, entry_at-set_ne,
}

module _ {H F W : Type 0} where
  grow_to-some :
      (idx : ℕ) (table t : List (Option (Entry H F W)))
      → length table ≤ idx
      → grow_to H F W idx table ≡ some t
      → (idx + 1 ≢ usize_word) × (t ≡ table ++ replicate (idx + 1 - length table) none)
  unfolding grow_to
  grow_to-some idx table t h e = ground arith

  length-fill :
      (table : List (Option (Entry H F W))) (idx : ℕ)
      → length table ≤ idx
      → length (table ++ replicate (idx + 1 - length table) none) ≡ idx + 1
  length-fill table idx h = omega (
    arith,
    length-append table (replicate {A = Option (Entry H F W)} (idx + 1 - length table) none),
    length-replicate {A = Option (Entry H F W)} (idx + 1 - length table) none,
  )

  allocated : Entry H F W → Machine H F W → List (Option (Entry H F W)) → Machine H F W
  allocated e s grown = record s {
    table = set grown (s.next % usize_word) (some e);
    next = (s.next + 1) % u64_word;
  }

  alloc_entry-some :
      (e : Entry H F W) (s t : Machine H F W) (h : ℕ)
      → alloc_entry H F W e s ≡ some (h, t)
      → (grown : List (Option (Entry H F W))) × (grow_to H F W (s.next % usize_word) s.table
          ≡ some grown)
        × (h ≡ s.next)
        × (t ≡ allocated e s grown)
  unfolding alloc_entry allocated
  alloc_entry-some e s t h q = elim (Option-cases (grow_to H F W (s.next % usize_word) s.table)) [
    | inl g ↦ ground arith
    | inr (grown, g) ↦ (grown, g, ground arith, ground arith)
  ]

  entry_at_allocated :
      (e : Entry H F W) (table : List (Option (Entry H F W))) (idx n j : ℕ)
      → j < idx
      → entry_at H F W j (set (table ++ replicate n none) idx (some e)) ≡ entry_at H F W j table
  entry_at_allocated e table idx n j h =
      entry_at-set_ne (table ++ replicate n none) idx j (some e) (λ q. omega arith)
      ∙ entry_at_fill table n j

  -- The new entry stands at the handle, which was the next one.
  pub alloc_entry-Good :
      (e : Entry H F W) (s t : Machine H F W) (h : ℕ)
      → Inv s
      → alloc_entry H F W e s ≡ some (h, t)
      → Good s t
        × (h ≡ s.next)
        × (t.next ≡ s.next + 1)
        × (entry_at H F W h t.table ≡ some e)
        × ((j : ℕ) → j < s.next → entry_at H F W j t.table ≡ entry_at H F W j s.table)
  unfolding allocated
  alloc_entry-Good e s t h v q =
      let (grown, g, i, p) = alloc_entry-some e s t h q in
      let idx : s.next % usize_word ≡ s.next = omega (arith, v.next_lt) in
      let (room, f) =
        grow_to-some s.next s.table grown v.within
          (ap (λ n. grow_to H F W n s.table) (sym idx) ∙ g) in
      let size = length-fill s.table s.next v.within in
      let full : length grown ≡ s.next + 1 =
        ap (λ (l : List (Option (Entry H F W))). length l) f ∙ size in
      let here : entry_at H F W s.next (set grown s.next (some e)) ≡ some e =
        entry_at-set_self grown s.next (some e) (omega arith) in
      let table : t.table ≡ set grown s.next (some e) =
        ap (λ (m : Machine H F W). m.table) p ∙ ap (λ n. set grown n (some e)) idx in
      let next : t.next ≡ s.next + 1 =
        ap (λ (m : Machine H F W). m.next) p ∙ omega (arith, v.next_lt) in
      let old : (j : ℕ) → j < s.next → entry_at H F W j t.table ≡ entry_at H F W j s.table = λ j l.
        ap (entry_at H F W j) (table ∙ ap (λ l. set l s.next (some e)) f)
        ∙ entry_at_allocated e s.table s.next (s.next + 1 - length s.table) j l in
      (
        (
          record {
            next_pos = omega arith;
            next_lt = omega (arith, v.next_lt, room);
            within = omega (
              arith,
              ap (λ (l : List (Option (Entry H F W))). length l) table,
              length-set grown s.next (some e),
            );
            reserved = old 0 v.next_pos ∙ v.reserved;
          },
          record {
            locked = ap (λ (m : Machine H F W). m.locked) p;
            grows = omega arith;
            keeps = λ j l.
                subst (Kept (entry_at H F W j s.table)) (sym (old j l))
                  (Kept-refl (entry_at H F W j s.table));
          },
        ),
        i,
        next,
        ap (λ n. entry_at H F W n t.table) i ∙ ap (entry_at H F W s.next) table ∙ here,
        old,
      )

  pub request_stop-Good :
      (actor : ℕ) (s t : Machine H F W) → Inv s → request_stop H F W actor s ≡ some t → Good s t
  unfolding request_stop
  request_stop-Good actor s t v e =
      let p : record s {
        table = modify H F W (actor % usize_word) (λ e. record e { running = false }) s.table;
      }
          ≡ t =
        ground arith in
      subst (Good s) p (modify-Good s (actor % usize_word) _ (λ e. (refl, refl, λ r. cc)) v)

  pub clear_table-Good : (s t : Machine H F W) → Inv s → clear_table H F W s ≡ some t → Good s t
  unfolding clear_table entry_at
  clear_table-Good s t v e =
      let p : record s { table = [] } ≡ t = ground arith in
      subst (Good s) p (
        record {
          next_pos = v.next_pos;
          next_lt = v.next_lt;
          within = omega arith;
          reserved = refl;
        },
        record { locked = refl; grows = omega arith; keeps = λ i l. tt },
      )
