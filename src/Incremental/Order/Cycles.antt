-- ===== src/Incremental/Order/Cycles.antt =====
-- The walk that topological_order takes among the modules that remain closes to a cycle.
use text.Mathlib.Text.{◌==◌ as str_eq}
use text.Mathlib.TextEquality.{eq_iff}
use rlyeh_language.Common.{
  ℕ, zero, suc, ◌<◌, ◌≡◌, refl, sym, ap, subst, ◌∙◌, ◌⊎◌, inl, inr, true, false, some, List, [],
  ◌∷◌, ◌++◌, length, arith, Bool-cases,
}
use rlyeh_language.Incremental.DepGraph.{Name, has, Edges, dependencies, insert}
use rlyeh_language.Incremental.Membership.{
  missing, missing-length, missing-insert, has-insert, has-append,
}
use rlyeh_language.Incremental.Order.{
  remaining, next_remaining, find_cycle, split_at, closed_walk, Order, cycle_from,
}

-- Each name of the list depends on the next one.
abbrev pub IsWalk : Edges → List Name → Type 0
IsWalk edges [] = Unit
IsWalk edges (x ∷ []) = Unit
IsWalk edges (x ∷ y ∷ names) = (has y (dependencies x edges) ≡ true) × IsWalk edges (y ∷ names)

-- A walk that ends where it starts.
abbrev pub IsCycle : Edges → List Name → Type 0
IsCycle edges names =
    (x : Name) × (middle : List Name) × (names ≡ x ∷ (middle ++ (x ∷ []))) × IsWalk edges names

IsWalk-snoc :
    (edges : Edges) (walk : List Name) (a b : Name)
    → IsWalk edges (walk ++ (a ∷ []))
    → has b (dependencies a edges) ≡ true
    → IsWalk edges ((walk ++ (a ∷ [])) ++ (b ∷ []))
IsWalk-snoc edges [] a b w h = (h, tt)
IsWalk-snoc edges (x ∷ []) a b w h = (w.0, (h, tt))
IsWalk-snoc edges (x ∷ y ∷ walk) a b w h = (w.0, IsWalk-snoc edges (y ∷ walk) a b w.1 h)

IsWalk-tail :
    (edges : Edges) (x : Name) (names : List Name) → IsWalk edges (x ∷ names) → IsWalk edges names
IsWalk-tail edges x [] w = tt
IsWalk-tail edges x (y ∷ names) w = w.1

split_at-IsCycle :
    (edges : Edges) (name : Name) (walk : List Name)
    → IsWalk edges (walk ++ (name ∷ []))
    → has name walk ≡ true
    → IsCycle edges (split_at name walk ++ (name ∷ []))
unfolding split_at has
split_at-IsCycle edges name [] w h = cc
split_at-IsCycle edges name (x ∷ walk) w h = elim (Bool-cases (str_eq x name)) [
  | inr e ↦ rw e (
      split_at-IsCycle edges name walk (IsWalk-tail edges x (walk ++ (name ∷ [])) w) (ground arith))
  | inl e ↦ rw e (x, walk, ap (λ z. x ∷ (walk ++ (z ∷ []))) (sym ((eq_iff x name).0 e)), w)
]

next_remaining_sound :
    (rest ds : List Name) (to : Name)
    → next_remaining rest ds ≡ some to
    → (has to rest ≡ true) × (has to ds ≡ true)
unfolding next_remaining has
next_remaining_sound rest [] to e = cc
next_remaining_sound rest (d ∷ ds) to e = elim (Bool-cases (has d rest)) [
  | inl h ↦
      let same : d ≡ to = ground arith in
      (subst (λ z. has z rest ≡ true) same h, ground (arith, (eq_iff d to).1 same))
  | inr h ↦ ground (arith, next_remaining_sound rest ds to)
]

next_remaining_complete :
    (rest ds : List Name) (y : Name)
    → has y ds ≡ true
    → has y rest ≡ true
    → (to : Name) × (next_remaining rest ds ≡ some to)
unfolding next_remaining has
next_remaining_complete rest [] y h m = cc
next_remaining_complete rest (d ∷ ds) y h m = elim (Bool-cases (has d rest)) [
  | inl k ↦ (d, rw k refl)
  | inr k ↦ elim (Bool-cases (str_eq d y)) [
    | inl e ↦ absurd (
        let back : has d rest ≡ true = subst (λ z. has z rest ≡ true) (sym ((eq_iff d y).0 e)) m in
        cc)
    | inr e ↦ let (to, q) = next_remaining_complete rest ds y (ground arith) m in (to, rw k q)
  ]
]

-- Every remaining module depends on a remaining one.
abbrev pub IsStuck : Edges → List Name → Type 0
IsStuck edges rest =
    (x : Name)
    → has x rest ≡ true
    → (to : Name) × (next_remaining rest (dependencies x edges) ≡ some to)

find_cycle-IsCycle :
    (fuel : ℕ) (edges : Edges) (rest visited walk stack : List Name) (name : Name)
    → IsStuck edges rest
    → missing rest visited < fuel
    → has name rest ≡ true
    → ((x : Name) → has x visited ≡ has x walk)
    → IsWalk edges (walk ++ (name ∷ []))
    → (names : List Name) × (find_cycle fuel edges rest visited walk (name ∷ stack) ≡ some names)
      × IsCycle edges names
unfolding find_cycle closed_walk has
find_cycle-IsCycle zero edges rest visited walk stack name stuck h here same w =
    absurd (omega arith)
find_cycle-IsCycle (suc fuel) edges rest visited walk stack name stuck h here same w =
    elim (Bool-cases (has name visited)) [
      | inl e ↦
          let met : has name walk ≡ true = sym (same name) ∙ e in
          (
            split_at name walk ++ (name ∷ []),
            rw (find_cycle, e, met) refl,
            split_at-IsCycle edges name walk w met,
          )
      | inr e ↦
          let (to, n) = stuck name here in
          let (there, dep) = next_remaining_sound rest (dependencies name edges) to n in
          let fewer : missing rest (insert name visited) < missing rest visited =
            missing-insert name rest visited here e in
          let (names, q, c) =
            find_cycle-IsCycle fuel edges rest (insert name visited) (walk ++ (name ∷ []))
              (name ∷ stack) to stuck (omega (arith, h, fewer)) there
              (λ x.
                ground (arith, has-insert name x visited, has-append x walk (name ∷ []), same x))
              (IsWalk-snoc edges walk name to w dep) in
          (names, rw (find_cycle, e, n) q, c)
    ]

pub cycle_from-IsCycle :
    (fuel : ℕ) (edges : Edges) (rest : List Name)
    → IsStuck edges rest
    → length rest < fuel
    → 0 < length rest
    → (names : List Name) × (cycle_from fuel edges rest ≡ some (Order.cycle names))
      × IsCycle edges names
unfolding cycle_from has
cycle_from-IsCycle fuel edges [] stuck h nonempty = absurd (omega arith)
cycle_from-IsCycle fuel edges (start ∷ rest) stuck h nonempty =
    let (names, q, c) =
      find_cycle-IsCycle fuel edges (start ∷ rest) [] [] [] start stuck
        (omega (arith, h, missing-length (start ∷ rest) [])) (ground (arith, eq_iff start start))
        (λ x. refl) tt in
    (names, rw q refl, c)

has-remaining :
    (x : Name) (latest nodes : List Name)
    → has x (remaining latest nodes) ≡ true
    → (has x nodes ≡ true) × (has x latest ≡ false)
unfolding remaining has
has-remaining x latest [] h = cc
has-remaining x latest (n ∷ nodes) h = elim (Bool-cases (has n latest)) [
  | inl e ↦ ground (arith, has-remaining x latest nodes)
  | inr e ↦ elim (Bool-cases (str_eq n x)) [
    | inl s ↦ (ground arith, subst (λ z. has z latest ≡ false) ((eq_iff n x).0 s) e)
    | inr s ↦ ground (arith, has-remaining x latest nodes)
  ]
]

remaining-has :
    (x : Name) (latest nodes : List Name)
    → has x nodes ≡ true
    → has x latest ≡ false
    → has x (remaining latest nodes) ≡ true
unfolding remaining has
remaining-has x latest [] h k = cc
remaining-has x latest (n ∷ nodes) h k = elim (Bool-cases (str_eq n x)) [
  | inl s ↦
      let new : has n latest ≡ false =
        subst (λ z. has z latest ≡ false) (sym ((eq_iff n x).0 s)) k in
      ground arith
  | inr s ↦ ground (arith, remaining-has x latest nodes)
]

missing-some :
    (ds latest : List Name)
    → (missing ds latest ≡ 0) ⊎ ((y : Name) × (has y ds ≡ true) × (has y latest ≡ false))
unfolding has
missing-some [] latest = inl refl
missing-some (d ∷ ds) latest = elim (Bool-cases (has d latest)) [
  | inr e ↦ inr (d, ground (arith, eq_iff d d), e)
  | inl e ↦ elim (missing-some ds latest) [
    | inl z ↦ inl (ground arith)
    | inr (y, h, k) ↦ inr (y, ground arith, k)
  ]
]

pub remaining-IsStuck :
    (edges : Edges) (nodes latest : List Name)
    → ((x y : Name) → has y (dependencies x edges) ≡ true → has y nodes ≡ true)
    → ((x : Name)
        → has x nodes ≡ true
        → missing (dependencies x edges) latest ≡ 0
        → has x latest ≡ true)
    → IsStuck edges (remaining latest nodes)
remaining-IsStuck edges nodes latest closed complete x h =
    let (inside, new) = has-remaining x latest nodes h in
    elim (missing-some (dependencies x edges) latest) [
      | inl z ↦ absurd (let old : has x latest ≡ true = complete x inside z in cc)
      | inr (y, dep, k) ↦
          next_remaining_complete (remaining latest nodes) (dependencies x edges) y dep
            (remaining-has y latest nodes (closed x y dep) k)
    ]
