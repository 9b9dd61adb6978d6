-- ===== src/Incremental/Order/Sound.antt =====
-- The order that topological_order returns, and that its first loop ends.
use text.Mathlib.Text.{◌==◌ as str_eq}
use text.Mathlib.TextEquality.{eq_iff}
use rlyeh_language.Common.{
  ℕ, zero, suc, ◌+◌, ◌<◌, ◌≡◌, refl, sym, subst, ◌∙◌, inl, inr, true, false, some, List, [], ◌∷◌,
  length, arith, Bool-cases,
}
use rlyeh_language.Incremental.DepGraph.{Name, has, Edges, dependencies, dependents}
use rlyeh_language.Incremental.Membership.{missing}
use rlyeh_language.Incremental.Order.{Degrees, drain}
use rlyeh_language.Incremental.Order.Degrees.{
  Single, IsGraph, dependencies-Single, has-dependents, Single-dependents, missing-placed,
  missing_mono, missing-has,
}
use rlyeh_language.Incremental.Order.Kahn.{Kahn, Releasing, release-Kahn}

pub missing-zero :
    (ds done : List Name) (y : Name) → missing ds done ≡ 0 → has y ds ≡ true → has y done ≡ true
missing-zero ds done y z h = elim (Bool-cases (has y done)) [
  | inl e ↦ e
  | inr e ↦ absurd (omega (arith, missing-has y ds done h e))
]

missing-single :
    (name : Name) (ns done : List Name)
    → has name ns ≡ true
    → has name done ≡ false
    → missing ns (name ∷ done) < missing ns done
unfolding has
missing-single name [] done h n = cc
missing-single name (x ∷ ns) done h n = elim (Bool-cases (str_eq x name)) [
  | inl e ↦
      let same : x ≡ name = (eq_iff x name).0 e in
      let new : has x done ≡ false = subst (λ z. has z done ≡ false) (sym same) n in
      let back : str_eq name x ≡ true = (eq_iff name x).1 (sym same) in
      ground (arith, missing_mono name ns done, new, back)
  | inr e ↦ ground (arith, missing-single name ns done)
]

module _ (edges : Edges) (nodes : List Name) (graph : IsGraph edges) (set : Single nodes) where
  -- Latest first: what a module depends on is placed before it.
  abbrev pub DependenciesFirst : List Name → Type 0
  DependenciesFirst [] = Unit
  DependenciesFirst (x ∷ done) =
      ((y : Name) → has y (dependencies x edges) ≡ true → has y done ≡ true)
      × DependenciesFirst done

  -- Modules of the graph, each once, after what they depend on.
  pub record IsOrder (done : List Name) : Type 0 where
    pub first : DependenciesFirst done
    pub single : Single done
    pub inside : (x : Name) → has x done ≡ true → has x nodes ≡ true
    pub count : missing nodes done + length done ≡ length nodes

  module _ (name : Name) (ds : Degrees) (queue done : List Name)
      (k : Kahn edges nodes ds (name ∷ queue) done) where
    named : has name (name ∷ queue) ≡ true
    unfolding has
    named = ground (arith, eq_iff name name)

    new_name : has name done ≡ false
    new_name = k.fresh name named

    met :
        (x : Name)
        → missing (dependencies x edges) done ≡ 0
        → has name (dependencies x edges) ≡ false
    met x z = elim (Bool-cases (has name (dependencies x edges))) [
      | inr e ↦ e
      | inl e ↦ absurd (omega (arith, missing-has name (dependencies x edges) done e new_name))
    ]

    settled : (x : Name) → has x (name ∷ done) ≡ true → missing (dependencies x edges) done ≡ 0
    unfolding has
    settled x h = elim (Bool-cases (str_eq name x)) [
      | inl e ↦
          subst (λ z. missing (dependencies z edges) done ≡ 0) ((eq_iff name x).0 e)
            (k.ready name named)
      | inr e ↦ k.placed x (ground arith)
    ]

    placing : Releasing edges nodes (dependents name edges) ds queue (name ∷ done)
    unfolding has
    placing = record {
      keyed = k.keyed;
      exact = λ x n h.
          let found : has x (dependents name edges) ≡ has name (dependencies x edges) =
            has-dependents x name edges graph in
          ground (
            arith,
            k.exact x n h,
            found,
            missing-placed name (dependencies x edges) done (dependencies-Single x edges graph)
                new_name,
          );
      ready = λ x h.
          omega (arith, missing_mono name (dependencies x edges) done, k.ready x (ground arith));
      inside = λ x h. k.inside x (ground arith);
      fresh = λ x h. elim (Bool-cases (str_eq name x)) [
        | inr e ↦ ground (arith, k.fresh x (ground arith))
        | inl e ↦
            let again : has name queue ≡ true =
              subst (λ z. has z queue ≡ true) (sym ((eq_iff name x).0 e)) h in
            absurd (ground (arith, k.single.0))
      ];
      single = k.single.1;
      placed = λ x h. omega (arith, missing_mono name (dependencies x edges) done, settled x h);
      total = k.total;
      complete = λ x h z. elim (Bool-cases (has name (dependencies x edges))) [
        | inl dep ↦ inr (inr (has-dependents x name edges graph ∙ dep))
        | inr free ↦
            let before : missing (dependencies x edges) done ≡ 0 = ground (
              arith,
              z,
              missing-placed name (dependencies x edges) done (dependencies-Single x edges graph)
                  new_name,
            ) in
            elim (k.complete x h before) [
              | inl old ↦ inl (ground arith)
              | inr next ↦ elim (Bool-cases (str_eq name x)) [
                | inl same ↦ inl (ground arith)
                | inr other ↦ inr (inl (ground arith))
              ]
            ]
      ];
      apart = λ x h. has-dependents x name edges graph ∙ met x (k.ready x (ground arith));
      unplaced = λ x h. elim (Bool-cases (has x (name ∷ done))) [
        | inr e ↦ e
        | inl e ↦
            let gone : has name (dependencies x edges) ≡ false = met x (settled x e) in
            absurd (ground (arith, has-dependents x name edges graph))
      ];
      once = Single-dependents name edges graph;
    }

  pub drain-IsOrder :
      (fuel : ℕ) (ds : Degrees) (queue done : List Name)
      → missing nodes done < fuel
      → Kahn edges nodes ds queue done
      → IsOrder done
      → (latest : List Name) × (drain fuel edges ds queue done ≡ some latest)
        × IsOrder latest
        × ((x : Name)
            → has x nodes ≡ true
            → missing (dependencies x edges) latest ≡ 0
            → has x latest ≡ true)
  unfolding drain has
  drain-IsOrder zero ds queue done h k o = absurd (omega arith)
  drain-IsOrder (suc fuel) ds [] done h k o =
      (done, refl, o, λ x m z. elim (k.complete x m z) [ inl old ↦ old | inr q ↦ cc ])
  drain-IsOrder (suc fuel) ds (name ∷ queue) done h k o =
      let here : has name (name ∷ queue) ≡ true = ground (arith, eq_iff name name) in
      let ((ds', queue'), e, k') =
        release-Kahn edges nodes (dependents name edges) ds queue (name ∷ done)
          (placing name ds queue done k) in
      let o' : IsOrder (name ∷ done) = record {
        first =
            (λ y m. missing-zero (dependencies name edges) done y (k.ready name here) m, o.first);
        single = (k.fresh name here, o.single);
        inside = λ x m. elim (Bool-cases (str_eq name x)) [
          | inl same ↦ subst (λ z. has z nodes ≡ true) ((eq_iff name x).0 same) (k.inside name here)
          | inr other ↦ o.inside x (ground arith)
        ];
        count = ground (
          arith,
          o.count,
          k.inside name here,
          missing-placed name nodes done set (k.fresh name here),
        );
      } in
      let fewer : missing nodes (name ∷ done) < missing nodes done =
        missing-single name nodes done (k.inside name here) (k.fresh name here) in
      let (latest, q, r, t) =
        drain-IsOrder fuel ds' queue' (name ∷ done) (omega (arith, h, fewer)) k' o' in
      (latest, rw (drain, e) q, r, t)
