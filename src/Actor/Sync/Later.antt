-- ===== src/Actor/Sync/Later.antt =====
-- What a run of the program leaves of the table: a handle is given once, and an actor that stopped
-- does not run again.
use rlyeh_language.Common.{
  ℕ, zero, suc, ◌≤◌, ◌<◌, ◌≡◌, ◌≢◌, refl, ap, ◌∙◌, true, Option, none, some, List, [], ◌∷◌, ◌++◌,
  length, set, replicate, arith,
}
use rlyeh_language.Actor.Sync.{usize_word, Entry, Machine, entry_at, modify}

module _ {H F W : Type 0} where
  -- What an entry becomes.
  abbrev pub Kept : Option (Entry H F W) → Option (Entry H F W) → Type 0
  Kept o none = Unit
  Kept none (some e) = ⊥
  Kept (some d) (some e) =
      (e.handler ≡ d.handler) × (e.factory ≡ d.factory) × (e.running ≡ true → d.running ≡ true)

  pub record Inv (s : Machine H F W) : Type 0 where
    pub next_pos : 1 ≤ s.next
    pub next_lt : s.next < usize_word
    pub within : length s.table ≤ s.next
    pub reserved : entry_at H F W 0 s.table ≡ none

  pub record Later (s t : Machine H F W) : Type 0 where
    pub locked : t.locked ≡ s.locked
    pub grows : s.next ≤ t.next
    pub keeps : (i : ℕ) → i < s.next → Kept (entry_at H F W i s.table) (entry_at H F W i t.table)

  pub Kept-refl : (o : Option (Entry H F W)) → Kept o o
  Kept-refl none = tt
  Kept-refl (some e) = (refl, refl, λ r. r)

  pub Kept-trans : (o p q : Option (Entry H F W)) → Kept o p → Kept p q → Kept o q
  Kept-trans o p none h k = tt
  Kept-trans o none (some e) h k = absurd k
  Kept-trans none (some d) (some e) h k = absurd h
  Kept-trans (some c) (some d) (some e) h k = (k.0 ∙ h.0, k.1 ∙ h.1, λ r. h.2 (k.2 r))

  pub Later-refl : (s : Machine H F W) → Later s s
  Later-refl s = record {
    locked = refl;
    grows = omega arith;
    keeps = λ i h. Kept-refl (entry_at H F W i s.table);
  }

  pub Later-trans : (s t u : Machine H F W) → Later s t → Later t u → Later s u
  Later-trans s t u h k = record {
    locked = k.locked ∙ h.locked;
    grows = omega (arith, h.grows, k.grows);
    keeps = λ i l.
        Kept-trans (entry_at H F W i s.table) (entry_at H F W i t.table) (entry_at H F W i u.table)
          (h.keeps i l) (k.keeps i (omega (arith, h.grows)));
  }

  pub entry_at_past :
      (table : List (Option (Entry H F W))) (i : ℕ)
      → length table ≤ i
      → entry_at H F W i table ≡ none
  unfolding entry_at
  entry_at_past [] i h = refl
  entry_at_past (o ∷ table) zero h = absurd (omega arith)
  entry_at_past (o ∷ table) (suc i) h = entry_at_past table i (omega arith)

  -- A change that keeps the handler and the factory, and starts nothing.
  abbrev pub Keeping : (Entry H F W → Entry H F W) → Type 0
  Keeping f = (e : Entry H F W) → Kept (some e) (some (f e))

  modify-Kept :
      (i j : ℕ) (f : Entry H F W → Entry H F W) (table : List (Option (Entry H F W)))
      → Keeping f
      → Kept (entry_at H F W j table) (entry_at H F W j (modify H F W i f table))
  unfolding modify entry_at
  modify-Kept i j f [] h = tt
  modify-Kept zero zero f (none ∷ table) h = tt
  modify-Kept zero zero f (some e ∷ table) h = h e
  modify-Kept zero (suc j) f (none ∷ table) h = Kept-refl (entry_at H F W j table)
  modify-Kept zero (suc j) f (some e ∷ table) h = Kept-refl (entry_at H F W j table)
  modify-Kept (suc i) zero f (o ∷ table) h = Kept-refl o
  modify-Kept (suc i) (suc j) f (o ∷ table) h = modify-Kept i j f table h

  pub length-modify :
      (i : ℕ) (f : Entry H F W → Entry H F W) (table : List (Option (Entry H F W)))
      → length (modify H F W i f table) ≡ length table
  unfolding modify
  length-modify i f [] = refl
  length-modify zero f (none ∷ table) = refl
  length-modify zero f (some e ∷ table) = refl
  length-modify (suc i) f (o ∷ table) = ap suc (length-modify i f table)

  modify-reserved :
      (i : ℕ) (f : Entry H F W → Entry H F W) (table : List (Option (Entry H F W)))
      → entry_at H F W 0 table ≡ none
      → entry_at H F W 0 (modify H F W i f table) ≡ none
  unfolding modify entry_at
  modify-reserved i f [] h = h
  modify-reserved zero f (none ∷ table) h = refl
  modify-reserved zero f (some e ∷ table) h = cc
  modify-reserved (suc i) f (o ∷ table) h = h

  -- A new entry at the end of a table that is filled up to its index.
  pub entry_at_fill :
      (table : List (Option (Entry H F W))) (n j : ℕ)
      → entry_at H F W j (table ++ replicate n none) ≡ entry_at H F W j table
  unfolding entry_at
  entry_at_fill [] zero j = refl
  entry_at_fill [] (suc n) zero = refl
  entry_at_fill [] (suc n) (suc j) = entry_at_fill [] n j
  entry_at_fill (o ∷ table) n zero = refl
  entry_at_fill (o ∷ table) n (suc j) = entry_at_fill table n j

  pub entry_at-set_ne :
      (table : List (Option (Entry H F W))) (i j : ℕ) (o : Option (Entry H F W))
      → i ≢ j
      → entry_at H F W j (set table i o) ≡ entry_at H F W j table
  unfolding entry_at
  entry_at-set_ne [] i j o h = refl
  entry_at-set_ne (x ∷ table) zero zero o h = absurd (h refl)
  entry_at-set_ne (x ∷ table) zero (suc j) o h = refl
  entry_at-set_ne (x ∷ table) (suc i) zero o h = refl
  entry_at-set_ne (x ∷ table) (suc i) (suc j) o h = entry_at-set_ne table i j o (λ e. h (ap suc e))

  pub entry_at-set_self :
      (table : List (Option (Entry H F W))) (i : ℕ) (o : Option (Entry H F W))
      → i < length table
      → entry_at H F W i (set table i o) ≡ o
  unfolding entry_at
  entry_at-set_self [] i o h = absurd (omega arith)
  entry_at-set_self (x ∷ table) zero o h = refl
  entry_at-set_self (x ∷ table) (suc i) o h = entry_at-set_self table i o (omega arith)

  -- Both at once: the state is well formed, and later than the first.
  abbrev pub Good : Machine H F W → Machine H F W → Type 0
  Good s t = Inv t × Later s t

  pub Good-trans : (s t u : Machine H F W) → Good s t → Good t u → Good s u
  Good-trans s t u h k = (k.0, Later-trans s t u h.1 k.1)

  pub modify-Good :
      (s : Machine H F W) (i : ℕ) (f : Entry H F W → Entry H F W)
      → Keeping f
      → Inv s
      → Good s (record s { table = modify H F W i f s.table })
  modify-Good s i f h v = (
    record {
      next_pos = v.next_pos;
      next_lt = v.next_lt;
      within = omega (arith, v.within, length-modify i f s.table);
      reserved = modify-reserved i f s.table v.reserved;
    },
    record { locked = refl; grows = omega arith; keeps = λ j l. modify-Kept i j f s.table h },
  )

  pub entry_at-modify_ne :
      (i j : ℕ) (f : Entry H F W → Entry H F W) (table : List (Option (Entry H F W)))
      → i ≢ j
      → entry_at H F W j (modify H F W i f table) ≡ entry_at H F W j table
  unfolding modify entry_at
  entry_at-modify_ne i j f [] h = refl
  entry_at-modify_ne zero zero f (o ∷ table) h = absurd (h refl)
  entry_at-modify_ne zero (suc j) f (none ∷ table) h = refl
  entry_at-modify_ne zero (suc j) f (some e ∷ table) h = refl
  entry_at-modify_ne (suc i) zero f (o ∷ table) h = refl
  entry_at-modify_ne (suc i) (suc j) f (o ∷ table) h =
      entry_at-modify_ne i j f table (λ e. h (ap suc e))

  pub entry_at-modify_self :
      (i : ℕ) (f : Entry H F W → Entry H F W) (table : List (Option (Entry H F W)))
      (e : Entry H F W)
      → entry_at H F W i table ≡ some e
      → entry_at H F W i (modify H F W i f table) ≡ some (f e)
  unfolding modify entry_at
  entry_at-modify_self i f [] e h = cc
  entry_at-modify_self zero f (none ∷ table) e h = cc
  entry_at-modify_self zero f (some x ∷ table) e h = ground arith
  entry_at-modify_self (suc i) f (o ∷ table) e h = entry_at-modify_self i f table e h
