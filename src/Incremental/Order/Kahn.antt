-- ===== src/Incremental/Order/Kahn.antt =====
-- The loop of Kahn's algorithm: no degree underflows, and each dependency is placed first.
use text.Mathlib.Text.{◌==◌ as str_eq}
use text.Mathlib.TextEquality.{eq_iff}
use rlyeh_language.Common.{
  ℕ, zero, suc, ◌+◌, ◌≡◌, refl, sym, subst, ◌∙◌, ◌⊎◌, inl, inr, true, false, none, some, List, [],
  ◌∷◌, ◌++◌, if◌then◌else◌, ◌==◌, arith, Bool-cases, Option-cases,
}
use rlyeh_language.Incremental.DepGraph.{Name, has, Edges, dependencies}
use rlyeh_language.Incremental.Membership.{missing, has-append}
use rlyeh_language.Incremental.Order.{Degrees, degree, set_degree, requeue, release}
use rlyeh_language.Incremental.Order.Degrees.{
  Single, has-sort, Single-sort, Single-snoc, degree-set_degree, set_degree-total,
}

module _ (edges : Edges) (nodes : List Name) where
  abbrev pub deps : Name → List Name
  deps x = dependencies x edges

  -- Between two names of the queue; `done` is the order, latest first.
  pub record Kahn (ds : Degrees) (queue done : List Name) : Type 0 where
    pub keyed : (x : Name) (n : ℕ) → degree x ds ≡ some n → has x nodes ≡ true
    pub exact : (x : Name) (n : ℕ) → degree x ds ≡ some n → n ≡ missing (deps x) done
    pub ready : (x : Name) → has x queue ≡ true → missing (deps x) done ≡ 0
    pub inside : (x : Name) → has x queue ≡ true → has x nodes ≡ true
    pub fresh : (x : Name) → has x queue ≡ true → has x done ≡ false
    pub single : Single queue
    pub placed : (x : Name) → has x done ≡ true → missing (deps x) done ≡ 0
    pub total : (x : Name) → has x nodes ≡ true → (n : ℕ) × (degree x ds ≡ some n)
    pub complete :
        (x : Name)
        → has x nodes ≡ true
        → missing (deps x) done ≡ 0
        → (has x done ≡ true) ⊎ (has x queue ≡ true)

  -- While the dependents `froms` of the name placed last are to be released.
  pub record Releasing (froms : List Name) (ds : Degrees) (queue done : List Name) : Type 0 where
    pub keyed : (x : Name) (n : ℕ) → degree x ds ≡ some n → has x nodes ≡ true
    pub exact :
        (x : Name) (n : ℕ)
        → degree x ds ≡ some n
        → n ≡ missing (deps x) done + (if has x froms then 1 else 0)
    pub ready : (x : Name) → has x queue ≡ true → missing (deps x) done ≡ 0
    pub inside : (x : Name) → has x queue ≡ true → has x nodes ≡ true
    pub fresh : (x : Name) → has x queue ≡ true → has x done ≡ false
    pub single : Single queue
    pub placed : (x : Name) → has x done ≡ true → missing (deps x) done ≡ 0
    pub total : (x : Name) → has x nodes ≡ true → (n : ℕ) × (degree x ds ≡ some n)
    pub complete :
        (x : Name)
        → has x nodes ≡ true
        → missing (deps x) done ≡ 0
        → (has x done ≡ true) ⊎ ((has x queue ≡ true) ⊎ (has x froms ≡ true))
    pub apart : (x : Name) → has x queue ≡ true → has x froms ≡ false
    pub unplaced : (x : Name) → has x froms ≡ true → has x done ≡ false
    pub once : Single froms

  has-requeue :
      (x from : Name) (d : ℕ) (queue : List Name)
      → has x (requeue from d queue) ≡ true
      → (has x queue ≡ true) ⊎ ((from ≡ x) × (d ≡ 0))
  unfolding requeue has
  has-requeue x from d queue h =
      ground
        (arith, has-sort x (queue ++ (from ∷ [])), has-append x queue (from ∷ []), eq_iff from x)

  requeue-has :
      (x from : Name) (d : ℕ) (queue : List Name)
      → has x queue ≡ true
      → has x (requeue from d queue) ≡ true
  unfolding requeue has
  requeue-has x from d queue h =
      ground (arith, has-sort x (queue ++ (from ∷ [])), has-append x queue (from ∷ []))

  requeue-ready :
      (from : Name) (d : ℕ) (queue : List Name) → d ≡ 0 → has from (requeue from d queue) ≡ true
  unfolding requeue has
  requeue-ready from d queue h = ground (
    arith,
    has-sort from (queue ++ (from ∷ [])),
    has-append from queue (from ∷ []),
    eq_iff from from,
  )

  Single-requeue :
      (from : Name) (d : ℕ) (queue : List Name)
      → has from queue ≡ false
      → Single queue
      → Single (requeue from d queue)
  unfolding requeue
  Single-requeue from d queue h s = elim (Bool-cases (d == 0)) [
    | inl e ↦ rw e (Single-sort (queue ++ (from ∷ [])) (Single-snoc from queue h s))
    | inr e ↦ rw e s
  ]

  released :
      (from : Name) (froms : List Name) (ds : Degrees) (queue done : List Name) (e : ℕ)
      → Releasing (from ∷ froms) ds queue done
      → degree from ds ≡ some (suc e)
      → Releasing froms (set_degree from e ds) (requeue from e queue) done
  unfolding has
  released from froms ds queue done e r q =
      let here : has from (from ∷ froms) ≡ true = ground (arith, eq_iff from from) in
      let now : e ≡ missing (deps from) done = ground (arith, r.exact from (suc e) q, here) in
      record {
        keyed = λ x n h. elim (degree-set_degree from x e ds n h) [
          | inl (same, _) ↦ subst (λ z. has z nodes ≡ true) same (r.keyed from (suc e) q)
          | inr (_, old) ↦ r.keyed x n old
        ];
        exact = λ x n h. elim (degree-set_degree from x e ds n h) [
          | inl (same, now') ↦
              let here' : n ≡ missing (deps from) done + (if has from froms then 1 else 0) =
                ground (arith, now, now', r.once.0) in
              subst (λ y. n ≡ missing (deps y) done + (if has y froms then 1 else 0)) same here'
          | inr (other, old) ↦ ground (arith, r.exact x n old, other)
        ];
        ready = λ x h. elim (has-requeue x from e queue h) [
          | inl old ↦ r.ready x old
          | inr (same, z) ↦ subst (λ y. missing (deps y) done ≡ 0) same (sym now ∙ z)
        ];
        inside = λ x h. elim (has-requeue x from e queue h) [
          | inl old ↦ r.inside x old
          | inr (same, z) ↦ subst (λ y. has y nodes ≡ true) same (r.keyed from (suc e) q)
        ];
        fresh = λ x h. elim (has-requeue x from e queue h) [
          | inl old ↦ r.fresh x old
          | inr (same, z) ↦ subst (λ y. has y done ≡ false) same (r.unplaced from here)
        ];
        single =
            Single-requeue from e queue
              (elim (Bool-cases (has from queue)) [
                | inr absent ↦ absent
                | inl there ↦ absurd (ground (arith, r.apart from there))
              ])
              r.single;
        placed = r.placed;
        total = λ x h. let (n, known) = r.total x h in set_degree-total from x e ds n known;
        complete = λ x h z. elim (r.complete x h z) [
          | inl old ↦ inl old
          | inr (inl old) ↦ inr (inl (requeue-has x from e queue old))
          | inr (inr f) ↦ elim (Bool-cases (str_eq from x)) [
            | inr other ↦ inr (inr (ground arith))
            | inl same ↦
                let it : from ≡ x = (eq_iff from x).0 same in
                let z' : missing (deps from) done ≡ 0 =
                  subst (λ y. missing (deps y) done ≡ 0) (sym it) z in
                inr (
                  inl (
                    subst (λ y. has y (requeue from e queue) ≡ true) it
                      (requeue-ready from e queue (now ∙ z'))))
          ]
        ];
        apart = λ x h. elim (has-requeue x from e queue h) [
          | inl old ↦ ground (arith, r.apart x old)
          | inr (same, z) ↦ subst (λ y. has y froms ≡ false) same r.once.0
        ];
        unplaced = λ x h. r.unplaced x (ground arith);
        once = r.once.1;
      }

  skipped :
      (from : Name) (froms : List Name) (ds : Degrees) (queue done : List Name)
      → Releasing (from ∷ froms) ds queue done
      → degree from ds ≡ none
      → Releasing froms ds queue done
  unfolding has
  skipped from froms ds queue done r q = record {
    keyed = r.keyed;
    exact = λ x n h. elim (Bool-cases (str_eq from x)) [
      | inl e ↦ let same : from ≡ x = (eq_iff from x).0 e in absurd cc
      | inr e ↦ ground (arith, r.exact x n h)
    ];
    ready = r.ready;
    inside = r.inside;
    fresh = r.fresh;
    single = r.single;
    placed = r.placed;
    total = r.total;
    complete = λ x h z. elim (r.complete x h z) [
      | inl old ↦ inl old
      | inr (inl old) ↦ inr (inl old)
      | inr (inr f) ↦ elim (Bool-cases (str_eq from x)) [
        | inr other ↦ inr (inr (ground arith))
        | inl same ↦
            let it : from ≡ x = (eq_iff from x).0 same in let (n, known) = r.total x h in absurd cc
      ]
    ];
    apart = λ x h. ground (arith, r.apart x h);
    unplaced = λ x h. r.unplaced x (ground arith);
    once = r.once.1;
  }

  pub release-Kahn :
      (froms : List Name) (ds : Degrees) (queue done : List Name)
      → Releasing froms ds queue done
      → (out : Degrees × List Name) × (release froms ds queue ≡ some out) × Kahn out.0 out.1 done
  unfolding release has
  release-Kahn [] ds queue done r = (
    (ds, queue),
    refl,
    record {
      keyed = r.keyed;
      exact = λ x n h. omega (arith, r.exact x n h);
      ready = r.ready;
      inside = r.inside;
      fresh = r.fresh;
      single = r.single;
      placed = r.placed;
      total = r.total;
      complete = λ x h z. elim (r.complete x h z) [
        | inl old ↦ inl old
        | inr (inl old) ↦ inr old
        | inr (inr f) ↦ absurd cc
      ];
    },
  )
  release-Kahn (from ∷ froms) ds queue done r = elim (Option-cases (degree from ds)) [
    | inl q ↦
        rw (release, q) (release-Kahn froms ds queue done (skipped from froms ds queue done r q))
    | inr (zero, q) ↦
        let here : str_eq from from ≡ true = (eq_iff from from).1 refl in
        absurd (ground (arith, r.exact from zero q, here))
    | inr (suc e, q) ↦
        rw (release, q)
          (release-Kahn froms (set_degree from e ds) (requeue from e queue) done
            (released from froms ds queue done e r q))
  ]
