-- ===== src/Incremental/Order/Compilation.antt =====
-- The result of topological_order: an order in which every module can be compiled, or a cycle.
use text.Mathlib.Text.{◌==◌ as str_eq}
use text.Mathlib.TextEquality.{eq_iff}
use rlyeh_language.Common.{
  All, suc, ◌+◌, ◌≡◌, refl, sym, subst, ◌∙◌, ◌⊎◌, inl, inr, true, false, some, List, [], ◌∷◌,
  length, ◌==◌, arith, Bool-cases,
}
use rlyeh_language.Incremental.DepGraph.{Name, has, Edges, DependencyGraph, dependencies, push_all}
use rlyeh_language.Incremental.Membership.{missing, has-push_all}
use rlyeh_language.Incremental.Order.{indegrees, sources, sort, remaining, Order, topological_order}
use rlyeh_language.Incremental.Order.Degrees.{Single, IsGraph}
use rlyeh_language.Incremental.Order.Sound.{missing-zero, DependenciesFirst, IsOrder, drain-IsOrder}
use rlyeh_language.Incremental.Order.Total.{missing-empty, start-Kahn, length-remaining}
use rlyeh_language.Incremental.Order.Cycles.{IsCycle, cycle_from-IsCycle, remaining-IsStuck}

-- Each name stands after what it depends on; `placed` are those before the list.
abbrev pub InOrder : Edges → List Name → List Name → Type 0
InOrder edges placed [] = Unit
InOrder edges placed (x ∷ names) =
    ((y : Name) → has y (dependencies x edges) ≡ true → has y placed ≡ true)
    × InOrder edges (x ∷ placed) names

-- Each module of the graph stands in the list once, after the modules that it depends on.
pub record IsCompilationOrder (g : DependencyGraph) (names : List Name) : Type 0 where
  pub first : InOrder g.edges [] names
  pub single : Single names
  pub members : (x : Name) → has x names ≡ has x g.nodes

InOrder-push_all :
    (g : DependencyGraph) (graph : IsGraph g.edges) (set : Single g.nodes)
    (latest names : List Name)
    → DependenciesFirst g.edges g.nodes graph set latest
    → InOrder g.edges latest names
    → InOrder g.edges [] (push_all latest names)
unfolding push_all
InOrder-push_all g graph set [] names d o = o
InOrder-push_all g graph set (x ∷ latest) names d o =
    InOrder-push_all g graph set latest (x ∷ names) d.1 (d.0, o)

Single-push_all :
    (xs ys : List Name)
    → Single xs
    → Single ys
    → ((z : Name) → has z xs ≡ true → has z ys ≡ false)
    → Single (push_all xs ys)
unfolding push_all has
Single-push_all [] ys s t apart = t
Single-push_all (x ∷ xs) ys s t apart =
    Single-push_all xs (x ∷ ys) s.1 (apart x (ground (arith, eq_iff x x)), t)
      λ z h. elim (Bool-cases (str_eq x z)) [
        | inl e ↦ absurd (
            let again : has x xs ≡ true = subst (λ w. has w xs ≡ true) (sym ((eq_iff x z).0 e)) h in
            ground (arith, s.0))
        | inr e ↦ ground (arith, apart z (ground arith))
      ]

same_members :
    (x : Name) (nodes latest : List Name)
    → missing nodes latest ≡ 0
    → (has x latest ≡ true → has x nodes ≡ true)
    → has x latest ≡ has x nodes
same_members x nodes latest z inside = elim (Bool-cases (has x latest)) [
  | inl e ↦ e ∙ sym (inside e)
  | inr e ↦ elim (Bool-cases (has x nodes)) [
    | inl h ↦ missing-zero nodes latest x z h ∙ sym h
    | inr h ↦ e ∙ sym h
  ]
]

compiled :
    (g : DependencyGraph) (graph : IsGraph g.edges) (set : Single g.nodes) (latest : List Name)
    → IsOrder g.edges g.nodes graph set latest
    → length latest ≡ length g.nodes
    → IsCompilationOrder g (push_all latest [])
unfolding has
compiled g graph set latest o all = record {
  first = InOrder-push_all g graph set latest [] o.first tt;
  single = Single-push_all latest [] o.single tt (λ z h. refl);
  members = λ x.
      has-push_all x latest []
      ∙ ground arith
      ∙ same_members x g.nodes latest (omega (arith, o.count, all)) (o.inside x);
}

-- What a module depends on is in the set.
abbrev pub Inside : List Name → Edges → Type 0
Inside nodes [] = Unit
Inside nodes ((from, deps) ∷ edges) = All (λ y. has y nodes ≡ true) deps × Inside nodes edges

All-has :
    (nodes ds : List Name) (y : Name)
    → All (λ z. has z nodes ≡ true) ds
    → has y ds ≡ true
    → has y nodes ≡ true
unfolding has
All-has nodes [] y a h = cc
All-has nodes (d ∷ ds) y a h = elim (Bool-cases (str_eq d y)) [
  | inl e ↦ subst (λ z. has z nodes ≡ true) ((eq_iff d y).0 e) a.0
  | inr e ↦ All-has nodes ds y a.1 (ground arith)
]

Inside-has :
    (nodes : List Name) (edges : Edges) (x y : Name)
    → Inside nodes edges
    → has y (dependencies x edges) ≡ true
    → has y nodes ≡ true
unfolding dependencies has
Inside-has nodes [] x y i h = cc
Inside-has nodes ((from, deps) ∷ edges) x y i h = elim (Bool-cases (str_eq from x)) [
  | inl e ↦ All-has nodes deps y i.0 (ground arith)
  | inr e ↦ Inside-has nodes edges x y i.1 (ground arith)
]

-- A graph as the operations build it: a set of modules, and a map from modules to sets of modules.
abbrev pub IsDependencyGraph : DependencyGraph → Type 0
IsDependencyGraph g = Single g.nodes × IsGraph g.edges × Inside g.nodes g.edges

-- On a graph whose modules are a set and whose edges are a map to sets of its modules, the
-- algorithm neither panics nor runs out of fuel. It returns an order with each module of the graph
-- once, after the modules that it depends on, or the error with a cycle of the graph: a list that
-- ends as it starts, and in which each module depends on the next one.
pub topological_order-IsCompilationOrder :
    (g : DependencyGraph)
    → IsDependencyGraph g
    → ((names : List Name) × (topological_order g ≡ some (Order.order names))
        × IsCompilationOrder g names)
      ⊎ ((names : List Name) × (topological_order g ≡ some (Order.cycle names))
          × IsCycle g.edges names)
unfolding topological_order has
topological_order-IsCompilationOrder g (set, graph, inside) =
    let start : IsOrder g.edges g.nodes graph set [] = record {
      first = tt;
      single = tt;
      inside = λ x h. cc;
      count = omega (arith, missing-empty g.nodes);
    } in
    let (latest, q, o, complete) =
      drain-IsOrder g.edges g.nodes graph set (suc (length g.nodes)) (indegrees g.edges g.nodes)
        (sort (sources (indegrees g.edges g.nodes))) [] (omega (arith, missing-empty g.nodes))
        (start-Kahn g.edges g.nodes set) start in
    elim (Bool-cases (length latest == length g.nodes)) [
      | inl e ↦
          inl (push_all latest [], rw (q, e) refl, compiled g graph set latest o (ground arith))
      | inr e ↦
          let size : length (remaining latest g.nodes) ≡ missing g.nodes latest =
            length-remaining latest g.nodes in
          let (names, r, c) =
            cycle_from-IsCycle (2 + length g.nodes) g.edges (remaining latest g.nodes)
              (remaining-IsStuck g.edges g.nodes latest
                (λ x y. Inside-has g.nodes g.edges x y inside) complete)
              (omega (arith, size, o.count)) (ground (arith, size, o.count)) in
          inr (names, rw (q, e) r, c)
    ]
