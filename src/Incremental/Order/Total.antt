-- ===== src/Incremental/Order/Total.antt =====
-- topological_order at its start, and the modules that remain at its end.
use text.Mathlib.Text.{◌==◌ as str_eq}
use text.Mathlib.TextEquality.{eq_iff}
use rlyeh_language.Common.{
  ℕ, ◌≡◌, refl, sym, subst, ◌∙◌, inl, inr, true, false, some, List, [], ◌∷◌, length, ◌==◌, arith,
  Bool-cases,
}
use rlyeh_language.Incremental.DepGraph.{Name, has, Edges, dependencies}
use rlyeh_language.Incremental.Membership.{missing}
use rlyeh_language.Incremental.Order.{indegrees, degree, sources, sort, remaining}
use rlyeh_language.Incremental.Order.Degrees.{Single, has-sort, Single-sort}
use rlyeh_language.Incremental.Order.Kahn.{Kahn}

module _ (edges : Edges) where
  degree-indegrees :
      (x : Name) (n : ℕ) (ns : List Name)
      → degree x (indegrees edges ns) ≡ some n
      → (has x ns ≡ true) × (n ≡ length (dependencies x edges))
  unfolding degree indegrees has
  degree-indegrees x n [] h = cc
  degree-indegrees x n (y ∷ ns) h = elim (Bool-cases (str_eq y x)) [
    | inl e ↦
        let same : y ≡ x = (eq_iff y x).0 e in
        let it : n ≡ length (dependencies y edges) = ground arith in
        (ground arith, subst (λ z. n ≡ length (dependencies z edges)) same it)
    | inr e ↦ ground (arith, degree-indegrees x n ns)
  ]

  has-sources :
      (x : Name) (ns : List Name)
      → has x (sources (indegrees edges ns)) ≡ true
      → (has x ns ≡ true) × (length (dependencies x edges) ≡ 0)
  unfolding sources indegrees has
  has-sources x [] h = cc
  has-sources x (y ∷ ns) h = elim (Bool-cases (str_eq y x)) [
    | inr e ↦ ground (arith, has-sources x ns)
    | inl e ↦ elim (Bool-cases (length (dependencies y edges) == 0)) [
      | inl z ↦
          let none_left : length (dependencies y edges) ≡ 0 = ground arith in
          (
            ground arith,
            subst (λ w. length (dependencies w edges) ≡ 0) ((eq_iff y x).0 e) none_left,
          )
      | inr z ↦ let (_, rest) = has-sources x ns (ground arith) in (ground arith, rest)
    ]
  ]

  indegrees-total :
      (x : Name) (ns : List Name)
      → has x ns ≡ true
      → (n : ℕ) × (degree x (indegrees edges ns) ≡ some n)
  unfolding degree indegrees has
  indegrees-total x [] h = cc
  indegrees-total x (y ∷ ns) h = elim (Bool-cases (str_eq y x)) [
    | inl e ↦ (length (dependencies y edges), rw e refl)
    | inr e ↦ let (n, q) = indegrees-total x ns (ground arith) in (n, rw e q)
  ]

  sources-has :
      (x : Name) (ns : List Name)
      → has x ns ≡ true
      → length (dependencies x edges) ≡ 0
      → has x (sources (indegrees edges ns)) ≡ true
  unfolding sources indegrees has
  sources-has x [] h z = cc
  sources-has x (y ∷ ns) h z = elim (Bool-cases (str_eq y x)) [
    | inr e ↦ ground (arith, sources-has x ns)
    | inl e ↦
        let free : length (dependencies y edges) ≡ 0 =
          subst (λ w. length (dependencies w edges) ≡ 0) (sym ((eq_iff y x).0 e)) z in
        ground arith
  ]

  absent-sources :
      (x : Name) (ns : List Name) → has x ns ≡ false → has x (sources (indegrees edges ns)) ≡ false
  absent-sources x ns h = elim (Bool-cases (has x (sources (indegrees edges ns)))) [
    | inr e ↦ e
    | inl e ↦ absurd (ground (arith, has-sources x ns e))
  ]

  Single-sources : (ns : List Name) → Single ns → Single (sources (indegrees edges ns))
  unfolding sources indegrees
  Single-sources [] s = tt
  Single-sources (y ∷ ns) s = elim (Bool-cases (length (dependencies y edges) == 0)) [
    | inr e ↦ rw e (Single-sources ns s.1)
    | inl e ↦ rw e (absent-sources y ns s.0, Single-sources ns s.1)
  ]

pub missing-empty : (ds : List Name) → missing ds [] ≡ length ds
unfolding has
missing-empty [] = refl
missing-empty (d ∷ ds) = omega (arith, missing-empty ds)

pub start-Kahn :
    (edges : Edges) (nodes : List Name)
    → Single nodes
    → Kahn edges nodes (indegrees edges nodes) (sort (sources (indegrees edges nodes))) []
unfolding has
start-Kahn edges nodes s = record {
  keyed = λ x n h. (degree-indegrees edges x n nodes h).0;
  exact = λ x n h.
      omega (arith, (degree-indegrees edges x n nodes h).1, missing-empty (dependencies x edges));
  ready = λ x h. omega (
    arith,
    missing-empty (dependencies x edges),
    (has-sources edges x nodes (sym (has-sort x (sources (indegrees edges nodes))) ∙ h)).1,
  );
  inside =
      λ x h. (has-sources edges x nodes (sym (has-sort x (sources (indegrees edges nodes))) ∙ h)).0;
  fresh = λ x h. refl;
  single = Single-sort _ (Single-sources edges nodes s);
  placed = λ x h. absurd cc;
  total = λ x h. indegrees-total edges x nodes h;
  complete = λ x h z. inr (
      has-sort x (sources (indegrees edges nodes))
      ∙ sources-has edges x nodes h (omega (arith, missing-empty (dependencies x edges), z)));
}

pub length-remaining : (latest ns : List Name) → length (remaining latest ns) ≡ missing ns latest
unfolding remaining
length-remaining latest [] = refl
length-remaining latest (n ∷ ns) = ground (arith, length-remaining latest ns)
