-- ===== src/Incremental/Affected.antt =====
-- The affected modules are the changed ones that the graph knows and all that depend on them.
use text.Mathlib.Text.{◌==◌ as str_eq}
use text.Mathlib.TextEquality.{eq_iff}
use rlyeh_language.Common.{
  ℕ, zero, suc, ◌+◌, ◌*◌, some, ◌↔◌, ◌≤◌, ◌<◌, ◌≡◌, refl, ap, subst, ◌∙◌, inl, inr, true, ◌||◌,
  List, [], ◌∷◌, ◌++◌, length, arith, Bool-cases,
}
use rlyeh_language.Incremental.Membership.{
  has-append, has-insert, has-push_all, length-push_all, length-dependents, has-known, known-has,
  Direct, dependents-Direct, Direct-dependents, has-dependents-keys, missing, missing-length,
  missing-insert,
}
use rlyeh_language.Incremental.DepGraph.{
  spread, affected_by, Name, Edges, DependencyGraph, has, insert, dependents, push_all, known,
  contains, keys,
}

-- `x` depends on `c`, directly or not.
pub data Depends (edges : Edges) : Name → Name → Type 0 where
  same : {c : Name} → Depends edges c c
  via : {x y c : Name} → Direct x y edges → Depends edges y c → Depends edges x c

abbrev pub Affected : DependencyGraph → List Name → Name → Type 0
Affected g changed x =
    (c : Name) × (has c changed ≡ true) × (contains c g ≡ true) × Depends g.edges x c

Depends-closed :
    (edges : Edges) (out : List Name)
    → ((x y : Name) → has y out ≡ true → has x (dependents y edges) ≡ true → has x out ≡ true)
    → (x c : Name) → Depends edges x c
    → has c out ≡ true
    → has x out ≡ true
Depends-closed edges out closed x c Depends.same h = h
Depends-closed edges out closed x c (Depends.via {y = y} d more) h =
    closed x y (Depends-closed edges out closed y c more h) (Direct-dependents x y edges d)

spread_total :
    (fuel : ℕ) (edges : Edges) (names affected stack : List Name)
    → ((x : Name) → has x stack ≡ true → has x names ≡ true)
    → ((x : Name) → has x (keys edges) ≡ true → has x names ≡ true)
    → missing names affected * length edges + length stack < fuel
    → (out : List Name) × (spread fuel edges affected stack ≡ some out)
unfolding spread has
spread_total zero edges names affected stack i k f = absurd (omega arith)
spread_total (suc fuel) edges names affected [] i k f = (affected, refl)
spread_total (suc fuel) edges names affected (x ∷ stack) i k f =
    elim (Bool-cases (has x affected)) [
      | inl e ↦
          let (out, q) =
            spread_total fuel edges names affected stack (λ y h. i y (ground arith)) k
              (omega arith) in
          (out, ground arith)
      | inr e ↦
          let here : has x names ≡ true = i x (ground (arith, eq_iff x x)) in
          let fewer : suc (missing names (insert x affected)) * length edges
              ≤ missing names affected * length edges =
            grind (arith, missing-insert x names affected here e) in
          let (out, q) =
            spread_total fuel edges names (insert x affected) (push_all (dependents x edges) stack)
              (λ y h. ground (
                arith,
                has-push_all y (dependents x edges) stack,
                has-dependents-keys x y edges,
                k y,
                i y,
              ))
              k
              (omega (
                arith,
                fewer,
                length-push_all (dependents x edges) stack,
                length-dependents x edges,
              )) in
          (out, ground arith)
    ]

-- What every name of the stack has, and is passed on by an edge, every result has.
spread_sound :
    (P : Name → Type 0) (fuel : ℕ) (edges : Edges) (affected stack out : List Name)
    → ((x y : Name) → P y → has x (dependents y edges) ≡ true → P x)
    → ((x : Name) → has x affected ≡ true → P x)
    → ((x : Name) → has x stack ≡ true → P x)
    → spread fuel edges affected stack ≡ some out
    → (x : Name) → has x out ≡ true
    → P x
unfolding spread has
spread_sound P zero edges affected stack out c a s e x h = absurd (ground arith)
spread_sound P (suc fuel) edges affected [] out c a s e x h = a x (ground arith)
spread_sound P (suc fuel) edges affected (y ∷ stack) out c a s e x h =
    elim (Bool-cases (has y affected)) [
      | inl q ↦
          spread_sound P fuel edges affected stack out c a (λ z k. s z (ground arith))
            (ground arith) x h
      | inr q ↦
          let p : P y = s y (ground (arith, eq_iff y y)) in
          let added : (z : Name) → has z (insert y affected) ≡ true → P z = λ z k.
            elim (Bool-cases (str_eq y z)) [
              | inl i ↦ subst P ((eq_iff y z).0 i) p
              | inr i ↦ a z (ground (arith, has-insert y z affected))
            ] in
          let pushed : (z : Name) → has z (push_all (dependents y edges) stack) ≡ true → P z =
            λ z k. elim (Bool-cases (has z (dependents y edges))) [
              | inl i ↦ c z y p i
              | inr i ↦ s z (ground (arith, has-push_all z (dependents y edges) stack))
            ] in
          spread_sound P fuel edges (insert y affected) (push_all (dependents y edges) stack) out c
            added pushed (ground arith) x h
    ]

spread_complete :
    (fuel : ℕ) (edges : Edges) (affected stack out : List Name)
    → ((x y : Name)
        → has y affected ≡ true
        → has x (dependents y edges) ≡ true
        → (has x affected || has x stack) ≡ true)
    → spread fuel edges affected stack ≡ some out
    → ((x : Name) → (has x affected || has x stack) ≡ true → has x out ≡ true)
      × ((x y : Name) → has y out ≡ true → has x (dependents y edges) ≡ true → has x out ≡ true)
unfolding spread has
spread_complete zero edges affected stack out c e = absurd (ground arith)
spread_complete (suc fuel) edges affected [] out c e =
    (λ x h. ground arith, λ x y h k. ground (arith, c x y))
spread_complete (suc fuel) edges affected (y ∷ stack) out c e = elim (Bool-cases (has y affected)) [
  | inl q ↦
      let rest =
        spread_complete fuel edges affected stack out
          (λ x z h k. ground (arith, c x z h k, eq_iff y x)) (ground arith) in
      (λ x h. ground (arith, rest.0 x, eq_iff y x), rest.1)
  | inr q ↦
      let rest =
        spread_complete fuel edges (insert y affected) (push_all (dependents y edges) stack) out
          (λ x z h k. elim (Bool-cases (str_eq y z)) [
            | inl i ↦
                let now : has x (dependents y edges) ≡ true =
                  ap (λ w. has x (dependents w edges)) ((eq_iff y z).0 i) ∙ k in
                ground (arith, has-push_all x (dependents y edges) stack, has-insert y x affected)
            | inr i ↦ ground (
              arith,
              c x z,
              has-insert y z affected,
              has-push_all x (dependents y edges) stack,
              has-insert y x affected,
            )
          ])
          (ground arith) in
      (
        λ x h.
            ground
              (arith, rest.0 x, has-push_all x (dependents y edges) stack, has-insert y x affected),
        rest.1,
      )
]

-- affected_by ends with the fuel of the model, in a set of exactly the modules that are changed and
-- in the graph, or depend on such a one over any number of edges.
pub affected_by-Affected :
    (g : DependencyGraph) (changed : List Name)
    → (out : List Name) × (affected_by g changed ≡ some out)
      × ((x : Name) → (has x out ≡ true) ↔ Affected g changed x)
unfolding affected_by has
affected_by-Affected g changed =
    let start = known g changed in
    let names = start ++ keys g.edges in
    let (out, ends) =
      spread_total (suc (length start + length names * length g.edges)) g.edges names []
        (push_all start [])
        (λ x h. ground (arith, has-push_all x start [], has-append x start (keys g.edges)))
        (λ x h. ground (arith, has-append x start (keys g.edges)))
        (grind (arith, missing-length names [], length-push_all start [])) in
    let all =
      spread_complete (suc (length start + length names * length g.edges)) g.edges []
        (push_all start []) out (λ x y h k. cc) ends in
    let reached : (x c : Name) → Depends g.edges x c → has c out ≡ true → has x out ≡ true =
      λ x c d h. Depends-closed g.edges out all.1 x c d h in
    (
      out,
      ends,
      λ x. (
        λ h.
            spread_sound (Affected g changed) (suc (length start + length names * length g.edges))
              g.edges [] (push_all start []) out
              (λ z y (c, m, i, d) k. (c, m, i, Depends.via (dependents-Direct z y g.edges k) d))
              (λ z k. absurd (ground arith))
              (λ z k.
                let both = has-known g z changed (ground (arith, has-push_all z start [])) in
                (z, both.0, both.1, Depends.same))
              ends x h,
        λ (c, m, i, d).
            reached x c d
              (all.0 c (ground (arith, known-has g c changed m i, has-push_all c start []))),
      ),
    )
