-- ===== src/Incremental/Order/Degrees.antt =====
-- The degrees, the queue, and what placing a name releases.
use text.Mathlib.Text.{◌==◌ as str_eq}
use text.Mathlib.TextEquality.{eq_iff}
use rlyeh_language.Common.{
  ℕ, ◌+◌, ◌≤◌, ◌<◌, ◌≡◌, refl, sym, subst, ◌∙◌, ◌⊎◌, inl, inr, true, false, ◌||◌, some, List, [],
  ◌∷◌, ◌++◌, if◌then◌else◌, arith, Bool-cases,
}
use rlyeh_language.Incremental.DepGraph.{Name, has, Edges, keys, dependencies, dependents, less}
use rlyeh_language.Incremental.Membership.{missing, has-append, has-dependents-keys}
use rlyeh_language.Incremental.Order.{Degrees, degree, set_degree, place, sort}

abbrev pub Single : List Name → Type 0
Single [] = Unit
Single (x ∷ xs) = (has x xs ≡ false) × Single xs

-- A map to sets: each key once, and in its set each name once.
abbrev pub IsGraph : Edges → Type 0
IsGraph [] = Unit
IsGraph ((from, deps) ∷ edges) = (has from (keys edges) ≡ false) × Single deps × IsGraph edges

pub dependencies-Single : (x : Name) (edges : Edges) → IsGraph edges → Single (dependencies x edges)
unfolding dependencies
dependencies-Single x [] g = tt
dependencies-Single x ((from, deps) ∷ edges) g = elim (Bool-cases (str_eq from x)) [
  | inl e ↦ rw e g.1
  | inr e ↦ rw e (dependencies-Single x edges g.2)
]

dependencies-absent :
    (x : Name) (edges : Edges) → has x (keys edges) ≡ false → dependencies x edges ≡ []
unfolding dependencies keys has
dependencies-absent x [] h = refl
dependencies-absent x ((from, deps) ∷ edges) h = ground (arith, dependencies-absent x edges)

dependents-absent :
    (x y : Name) (edges : Edges) → has y (keys edges) ≡ false → has y (dependents x edges) ≡ false
dependents-absent x y edges h = elim (Bool-cases (has y (dependents x edges))) [
  | inr e ↦ e
  | inl e ↦ absurd (ground (arith, has-dependents-keys x y edges))
]

pub has-dependents :
    (x y : Name) (edges : Edges)
    → IsGraph edges
    → has x (dependents y edges) ≡ has y (dependencies x edges)
unfolding dependents dependencies has
has-dependents x y [] g = refl
has-dependents x y ((from, deps) ∷ edges) g = elim (Bool-cases (str_eq from x)) [
  | inl e ↦
      let same : from ≡ x = (eq_iff from x).0 e in
      let gone : has x (dependents y edges) ≡ false =
        dependents-absent y x edges (subst (λ z. has z (keys edges) ≡ false) same g.0) in
      ground (arith, gone)
  | inr e ↦ ground (arith, has-dependents x y edges g.2)
]

pub Single-dependents : (x : Name) (edges : Edges) → IsGraph edges → Single (dependents x edges)
unfolding dependents
Single-dependents x [] g = tt
Single-dependents x ((from, deps) ∷ edges) g = elim (Bool-cases (has x deps)) [
  | inl e ↦ rw e (dependents-absent x from edges g.0, Single-dependents x edges g.2)
  | inr e ↦ rw e (Single-dependents x edges g.2)
]

-- Placing a name takes it off what is missing.
pub missing-placed :
    (name : Name) (ds done : List Name)
    → Single ds
    → has name done ≡ false
    → missing ds done ≡ missing ds (name ∷ done) + (if has name ds then 1 else 0)
unfolding has
missing-placed name [] done d h = refl
missing-placed name (x ∷ ds) done d h = elim (Bool-cases (str_eq x name)) [
  | inl e ↦
      let same : x ≡ name = (eq_iff x name).0 e in
      let new : has x done ≡ false = subst (λ z. has z done ≡ false) (sym same) h in
      let once : has name ds ≡ false = subst (λ z. has z ds ≡ false) same d.0 in
      let back : str_eq name x ≡ true = (eq_iff name x).1 (sym same) in
      ground (arith, missing-placed name ds done d.1 h, new, once, back)
  | inr e ↦ ground (arith, missing-placed name ds done d.1 h, eq_iff name x, eq_iff x name)
]

pub missing_mono : (name : Name) (ds done : List Name) → missing ds (name ∷ done) ≤ missing ds done
unfolding has
missing_mono name [] done = omega arith
missing_mono name (x ∷ ds) done = ground (arith, missing_mono name ds done)

pub missing-has :
    (name : Name) (ds done : List Name)
    → has name ds ≡ true
    → has name done ≡ false
    → 0 < missing ds done
unfolding has
missing-has name [] done h n = cc
missing-has name (x ∷ ds) done h n = elim (Bool-cases (str_eq x name)) [
  | inl e ↦
      let new : has x done ≡ false =
        subst (λ z. has z done ≡ false) (sym ((eq_iff x name).0 e)) n in
      ground (arith, new)
  | inr e ↦ ground (arith, missing-has name ds done)
]

has-place : (x y : Name) (ys : List Name) → has y (place x ys) ≡ (str_eq x y || has y ys)
unfolding place has
has-place x y [] = refl
has-place x y (z ∷ ys) = ground (arith, has-place x y ys)

pub has-sort : (y : Name) (xs : List Name) → has y (sort xs) ≡ has y xs
unfolding sort has
has-sort y [] = refl
has-sort y (x ∷ xs) = ground (arith, has-place x y (sort xs), has-sort y xs)

Single-place : (x : Name) (ys : List Name) → has x ys ≡ false → Single ys → Single (place x ys)
unfolding place has
Single-place x [] h d = (h, tt)
Single-place x (y ∷ ys) h d = elim (Bool-cases (less y x)) [
  | inr e ↦ rw e (h, d)
  | inl e ↦ rw e (
    ground (arith, has-place x y ys, d.0, eq_iff x y, eq_iff y x),
    Single-place x ys (ground arith) d.1,
  )
]

pub Single-sort : (xs : List Name) → Single xs → Single (sort xs)
unfolding sort
Single-sort [] d = tt
Single-sort (x ∷ xs) d = Single-place x (sort xs) (has-sort x xs ∙ d.0) (Single-sort xs d.1)

pub Single-snoc :
    (x : Name) (xs : List Name) → has x xs ≡ false → Single xs → Single (xs ++ (x ∷ []))
unfolding has
Single-snoc x [] h d = (refl, tt)
Single-snoc x (y ∷ xs) h d = (
  ground (arith, has-append y xs (x ∷ []), d.0, eq_iff x y, eq_iff y x),
  Single-snoc x xs (ground arith) d.1,
)

pub degree-set_degree :
    (x y : Name) (d : ℕ) (ds : Degrees) (n : ℕ)
    → degree y (set_degree x d ds) ≡ some n
    → ((x ≡ y) × (n ≡ d)) ⊎ ((str_eq x y ≡ false) × (degree y ds ≡ some n))
unfolding degree set_degree
degree-set_degree x y d [] n e = cc
degree-set_degree x y d ((z, k) ∷ ds) n e =
    ground (arith, degree-set_degree x y d ds n, eq_iff z x, eq_iff z y, eq_iff x y)

pub set_degree-total :
    (x y : Name) (d : ℕ) (ds : Degrees) (n : ℕ)
    → degree y ds ≡ some n
    → (m : ℕ) × (degree y (set_degree x d ds) ≡ some m)
unfolding degree set_degree
set_degree-total x y d [] n e = cc
set_degree-total x y d ((z, k) ∷ ds) n e = elim (Bool-cases (str_eq z x)) [
  | inl a ↦ elim (Bool-cases (str_eq z y)) [
    | inl b ↦ (d, rw (a, b) refl)
    | inr b ↦ (n, rw (a, b) (ground arith))
  ]
  | inr a ↦ elim (Bool-cases (str_eq z y)) [
    | inl b ↦ (k, rw (a, b) refl)
    | inr b ↦ let (m, q) = set_degree-total x y d ds n (ground arith) in (m, rw (a, b) q)
  ]
]
