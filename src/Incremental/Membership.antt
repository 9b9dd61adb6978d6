-- ===== src/Incremental/Membership.antt =====
-- Membership in the sets, and how many names are not yet affected.
use text.Mathlib.Text.{◌==◌ as str_eq}
use text.Mathlib.TextEquality.{eq_iff}
use rlyeh_language.Common.{
  ℕ, ◌+◌, ◌≤◌, ◌<◌, ◌≡◌, refl, ap, ◌∙◌, ◌⊎◌, inl, inr, true, false, ◌||◌, List, [], ◌∷◌, ◌++◌,
  length, if◌then◌else◌, arith, Bool-cases,
}
use rlyeh_language.Incremental.DepGraph.{
  Name, Edges, DependencyGraph, has, insert, dependents, push_all, known, contains, keys,
}

pub has_self : (x : Name) (ys : List Name) → has x (x ∷ ys) ≡ true
unfolding has
has_self x ys = ground (arith, eq_iff x x)

pub has-append : (x : Name) (ys zs : List Name) → has x (ys ++ zs) ≡ (has x ys || has x zs)
unfolding has
has-append x [] zs = refl
has-append x (y ∷ ys) zs = ground (arith, has-append x ys zs)

pub has-push_all : (x : Name) (ys zs : List Name) → has x (push_all ys zs) ≡ (has x ys || has x zs)
unfolding push_all has
has-push_all x [] zs = refl
has-push_all x (y ∷ ys) zs = ground (arith, has-push_all x ys (y ∷ zs))

pub length-push_all : (ys zs : List Name) → length (push_all ys zs) ≡ length ys + length zs
unfolding push_all
length-push_all [] zs = omega arith
length-push_all (y ∷ ys) zs = omega (arith, length-push_all ys (y ∷ zs))

pub length-dependents : (x : Name) (edges : Edges) → length (dependents x edges) ≤ length edges
unfolding dependents
length-dependents x [] = omega arith
length-dependents x ((from, deps) ∷ edges) = ground (arith, length-dependents x edges)

pub has-known :
    (g : DependencyGraph) (x : Name) (xs : List Name)
    → has x (known g xs) ≡ true
    → (has x xs ≡ true) × (contains x g ≡ true)
unfolding known has contains
has-known g x [] e = cc
has-known g x (y ∷ xs) e = ground (arith, has-known g x xs, eq_iff y x)

pub known-has :
    (g : DependencyGraph) (x : Name) (xs : List Name)
    → has x xs ≡ true
    → contains x g ≡ true
    → has x (known g xs) ≡ true
unfolding known has contains
known-has g x [] e k = cc
known-has g x (y ∷ xs) e k = ground (arith, known-has g x xs, eq_iff y x)

-- `x` has an edge to `y`.
abbrev pub Direct : Name → Name → Edges → Type 0
Direct x y [] = ⊥
Direct x y ((from, deps) ∷ edges) = ((from ≡ x) × (has y deps ≡ true)) ⊎ Direct x y edges

pub dependents-Direct :
    (x y : Name) (edges : Edges) → has x (dependents y edges) ≡ true → Direct x y edges
unfolding dependents has
dependents-Direct x y [] e = cc
dependents-Direct x y ((from, deps) ∷ edges) e =
    ground (arith, dependents-Direct x y edges, eq_iff from x)

pub Direct-dependents :
    (x y : Name) (edges : Edges) → Direct x y edges → has x (dependents y edges) ≡ true
unfolding dependents has
Direct-dependents x y [] d = absurd d
Direct-dependents x y ((from, deps) ∷ edges) (inl (e, h)) = ground (arith, eq_iff from x)
Direct-dependents x y ((from, deps) ∷ edges) (inr d) = ground (arith, Direct-dependents x y edges d)

pub has-dependents-keys :
    (x y : Name) (edges : Edges) → has y (dependents x edges) ≡ true → has y (keys edges) ≡ true
unfolding dependents keys has
has-dependents-keys x y [] e = cc
has-dependents-keys x y ((from, deps) ∷ edges) e = ground (arith, has-dependents-keys x y edges)

-- How many of the names are not in the set.
abbrev pub missing : List Name → List Name → ℕ
missing [] set = 0
missing (x ∷ xs) set = (if has x set then 0 else 1) + missing xs set

pub missing-length : (xs set : List Name) → missing xs set ≤ length xs
missing-length [] set = omega arith
missing-length (x ∷ xs) set = ground (arith, missing-length xs set)

pub has-insert : (x y : Name) (ys : List Name) → has y (insert x ys) ≡ (str_eq x y || has y ys)
unfolding insert has
has-insert x y [] = refl
has-insert x y (z ∷ ys) = ground (arith, has-insert x y ys, eq_iff z x)

pub missing-insert_le : (x : Name) (xs set : List Name) → missing xs (insert x set) ≤ missing xs set
missing-insert_le x [] set = omega arith
missing-insert_le x (y ∷ xs) set = ground (arith, missing-insert_le x xs set, has-insert x y set)

pub missing-insert :
    (x : Name) (xs set : List Name)
    → has x xs ≡ true
    → has x set ≡ false
    → missing xs (insert x set) < missing xs set
unfolding has
missing-insert x [] set i n = cc
missing-insert x (y ∷ xs) set i n = elim (Bool-cases (str_eq y x)) [
  | inl e ↦
      let same : y ≡ x = ground (arith, eq_iff y x) in
      let old : has y set ≡ false = ap (λ z. has z set) same ∙ n in
      let new : has y (insert x set) ≡ true = ground (arith, has-insert x y set, eq_iff x y) in
      ground (arith, missing-insert_le x xs set, old, new)
  | inr e ↦ ground (arith, missing-insert x xs set, has-insert x y set)
]
