-- ===== src/Region/Destructors.antt =====
-- destructor.rs: the registry of drop functions. The list is the vector, first entry first.
use mathlib.Core.List.{reverse-cons, append-nil, append_assoc}
use rlyeh_language.Common.{
  ℕ, zero, suc, ◌+◌, ◌-◌, ◌≡◌, refl, sym, ap, ◌∙◌, ◌⊎◌, inl, inr, Bool, true, false, Option, none,
  some, List, [], ◌∷◌, ◌++◌, reverse, length, get_elem?, set, ltb, ◌==◌, if◌then◌else◌, arith,
  Option-cases, Bool-cases,
}

pub record Entry : Type 0 where
  pub ptr : ℕ
  pub drop_fn : ℕ

-- DestructorRegistry::register; `needs_drop` is the drop function of a type that has one.
unfoldable pub register : Option ℕ → ℕ → List Entry → List Entry
register none ptr entries = entries
register (some f) ptr entries = entries ++ record { ptr = ptr; drop_fn = f } ∷ []

-- DestructorRegistry::run_all: the count, and the drops in the order in which they are made.
pub run_all : List Entry → ℕ × List Entry
run_all entries = (length entries, reverse entries)

position : ℕ → List Entry → Option ℕ
position p [] = none
position p (e ∷ es) =
    if e.ptr == p then some 0 else elim (position p es) [ none ↦ none | some i ↦ some (suc i) ]

pop : List Entry → Option (List Entry × Entry)
pop [] = none
pop (e ∷ es) = elim (pop es) [ none ↦ some ([], e) | some (front, l) ↦ some (e ∷ front, l) ]

-- Vec::swap_remove: the last entry takes the place of the removed one.
swap_remove : ℕ → List Entry → List Entry
swap_remove i es = elim (pop es) [ none ↦ [] | some (front, l) ↦ set front i l ]

-- DestructorRegistry::remove
pub remove : ℕ → List Entry → List Entry × Bool
unfolding position pop swap_remove
remove p entries = elim (position p entries) [
  | none ↦ (entries, false)
  | some i ↦ (swap_remove i entries, true)
]

-- How often an address is among the entries.
abbrev pub count : ℕ → List Entry → ℕ
count p [] = 0
count p (e ∷ es) = (if e.ptr == p then 1 else 0) + count p es

count-pop :
    (q : ℕ) (es front : List Entry) (l : Entry)
    → pop es ≡ some (front, l)
    → count q es ≡ count q front + (if l.ptr == q then 1 else 0)
unfolding pop
count-pop q [] front l e = cc
count-pop q (x ∷ es) front l e = elim (Option-cases (pop es)) [
  | inl n ↦ ground (arith, pop-none es n)
  | inr ((f, m), s) ↦ ground (arith, count-pop q es f m s)
]
  where
    pop-none : (ys : List Entry) → pop ys ≡ none → ys ≡ []
    pop-none [] h = refl
    pop-none (y ∷ ys) h = elim (Option-cases (pop ys)) [
      | inl n ↦ ground arith
      | inr ((f, m), s) ↦ ground arith
    ]

position-some :
    (p i : ℕ) (es : List Entry)
    → position p es ≡ some i
    → (e : Entry) × (get_elem? es i ≡ some e) × (e.ptr ≡ p)
unfolding position
position-some p i [] h = cc
position-some p i (x ∷ es) h = elim (Bool-cases (x.ptr == p)) [
  | inl hit ↦ (x, ground arith, ground arith)
  | inr miss ↦ elim (Option-cases (position p es)) [
    | inl n ↦ ground arith
    | inr (k, s) ↦
        let (e, g, q) = position-some p k es s in
        let at : suc k ≡ i = ground arith in (e, ap (get_elem? (x ∷ es)) (sym at) ∙ g, q)
  ]
]

position-none : (p : ℕ) (es : List Entry) → position p es ≡ none → count p es ≡ 0
unfolding position
position-none p [] h = refl
position-none p (x ∷ es) h = ground (arith, position-none p es)

count-set :
    (q i : ℕ) (es : List Entry) (e l : Entry)
    → get_elem? es i ≡ some e
    → count q (set es i l) + (if e.ptr == q then 1 else 0)
      ≡ count q es + (if l.ptr == q then 1 else 0)
count-set q i [] e l h = cc
count-set q zero (x ∷ es) e l h = ground arith
count-set q (suc i) (x ∷ es) e l h = omega (arith, count-set q i es e l h)

-- Past the end `set` changes nothing: the last entry was the removed one.
pop-at :
    (i : ℕ) (es front : List Entry) (e l : Entry)
    → pop es ≡ some (front, l)
    → get_elem? es i ≡ some e
    → (get_elem? front i ≡ some e) ⊎ ((set front i l ≡ front) × (e ≡ l))
unfolding pop
pop-at i [] front e l h g = cc
pop-at i (x ∷ es) front e l h g = elim (Option-cases (pop es)) [
  | inl n ↦ alone es i n g h
  | inr ((f, m), s) ↦ longer i g f m s h (λ k c. pop-at k es f e m s c)
]
  where
    alone :
        (ys : List Entry) (k : ℕ)
        → pop ys ≡ none
        → get_elem? (x ∷ ys) k ≡ some e
        → pop (x ∷ ys) ≡ some (front, l)
        → (get_elem? front k ≡ some e) ⊎ ((set front k l ≡ front) × (e ≡ l))
    alone [] zero n c t = inr (ground arith, ground arith)
    alone [] (suc k) n c t = cc
    alone (y ∷ ys) k n c t = elim (Option-cases (pop ys)) [
      | inl u ↦ ground arith
      | inr ((f, m), s) ↦ ground arith
    ]

    longer :
        (k : ℕ)
        → get_elem? (x ∷ es) k ≡ some e
        → (f : List Entry) (m : Entry) → pop es ≡ some (f, m)
        → pop (x ∷ es) ≡ some (front, l)
        → ((j : ℕ)
            → get_elem? es j ≡ some e
            → (get_elem? f j ≡ some e) ⊎ ((set f j m ≡ f) × (e ≡ m)))
        → (get_elem? front k ≡ some e) ⊎ ((set front k l ≡ front) × (e ≡ l))
    longer zero c f m s t rec = inl (ground arith)
    longer (suc j) c f m s t rec = ground (arith, rec j c)

pop-none : (es : List Entry) → pop es ≡ none → es ≡ []
unfolding pop
pop-none [] h = refl
pop-none (y ∷ ys) h = elim (Option-cases (pop ys)) [
  | inl n ↦ ground arith
  | inr ((f, m), s) ↦ ground arith
]

count-swap_remove :
    (q i : ℕ) (es : List Entry) (e : Entry)
    → get_elem? es i ≡ some e
    → count q (swap_remove i es) + (if e.ptr == q then 1 else 0) ≡ count q es
unfolding swap_remove
count-swap_remove q i es e g = elim (Option-cases (pop es)) [
  | inl n ↦ ground (arith, pop-none es n, g)
  | inr ((front, l), s) ↦ elim (pop-at i es front e l s g) [
    | inl a ↦
        rw (s, swap_remove) (omega (arith, count-set q i front e l a, count-pop q es front l s))
    | inr (a, b) ↦
        rw (s, swap_remove, a)
          (omega (arith, count-pop q es front l s, ap (λ (x : Entry). count q (x ∷ [])) b))
  ]
]

-- `remove` takes one entry of the address away, if there is one, and no other.
pub count-remove :
    (p q : ℕ) (es : List Entry)
    → (count q (remove p es).0 ≡ (if p == q then count q es - 1 else count q es))
      × ((remove p es).1 ≡ ltb 0 (count p es))
unfolding remove
count-remove p q es = elim (Option-cases (position p es)) [
  | inl n ↦
      rw (n, remove) (ground (arith, position-none p es n), ground (arith, position-none p es n))
  | inr (i, s) ↦
      let (e, g, h) = position-some p i es s in
      rw (s, remove)
        (
          ground (arith, count-swap_remove q i es e g, h),
          ground (arith, count-swap_remove p i es e g, h),
        )
]

-- Dropping in the reverse of the order of registration, the registry left without any removal.
abbrev pub entries_of : List (Option ℕ × ℕ) → List Entry
entries_of [] = []
entries_of ((none, p) ∷ rest) = entries_of rest
entries_of ((some f, p) ∷ rest) = record { ptr = p; drop_fn = f } ∷ entries_of rest

abbrev pub register_all : List (Option ℕ × ℕ) → List Entry → List Entry
register_all [] es = es
register_all ((needs, p) ∷ rest) es = register_all rest (register needs p es)

register_all-append :
    (ts : List (Option ℕ × ℕ)) (es : List Entry) → register_all ts es ≡ es ++ entries_of ts
unfolding register
register_all-append [] es = sym (append-nil es)
register_all-append ((none, p) ∷ rest) es = register_all-append rest es
register_all-append ((some f, p) ∷ rest) es =
    register_all-append rest (es ++ record { ptr = p; drop_fn = f } ∷ [])
    ∙ append_assoc es (record { ptr = p; drop_fn = f } ∷ []) (entries_of rest)

-- With no transfer the objects that need a drop are dropped last first, each once.
pub run_all-register_all :
    (ts : List (Option ℕ × ℕ))
    → run_all (register_all ts []) ≡ (length (entries_of ts), reverse (entries_of ts))
unfolding run_all
run_all-register_all ts = rw (register_all-append ts [])

position-head : (x : Entry) (es : List Entry) → position x.ptr (x ∷ es) ≡ some 0
unfolding position
position-head x es = ground arith

pop-append : (es : List Entry) (z : Entry) → pop (es ++ z ∷ []) ≡ some (es, z)
unfolding pop
pop-append [] z = refl
pop-append (x ∷ es) z = rw (pop-append es z)

-- A transfer of the oldest object breaks the order: the youngest object is then dropped last.
pub remove_breaks_order :
    (x z : Entry) (ys : List Entry)
    → (run_all (remove x.ptr (x ∷ ys ++ z ∷ [])).0).1 ≡ reverse ys ++ z ∷ []
unfolding remove swap_remove run_all
remove_breaks_order x z ys =
    rw (position-head x (ys ++ z ∷ []), remove, pop-append (x ∷ ys) z) (reverse-cons z ys)

count-append : (q : ℕ) (xs ys : List Entry) → count q (xs ++ ys) ≡ count q xs + count q ys
count-append q [] ys = omega arith
count-append q (x ∷ xs) ys = ground (arith, count-append q xs ys)

count-reverse : (q : ℕ) (xs : List Entry) → count q (reverse xs) ≡ count q xs
count-reverse q [] = refl
count-reverse q (x ∷ xs) =
    ap (count q) (reverse-cons x xs)
    ∙ omega (arith, count-append q (reverse xs) (x ∷ []), count-reverse q xs)

pub count-run_all : (q : ℕ) (es : List Entry) → count q (run_all es).1 ≡ count q es
unfolding run_all
count-run_all q es = count-reverse q es
