-- ===== src/Incremental/Examples.antt =====
-- The affected modules of a graph: app depends on net and on util, net on core.
use rlyeh_language.Common.{◌≡◌, ◌⊎◌, ◌↔◌, refl, true, some, List, [], ◌∷◌}
use rlyeh_language.Incremental.DepGraph.{
  Name, DependencyGraph, dependencies, affected_by, has, insert, keys, known, contains, dependents,
  push_all, spread,
}
use rlyeh_language.Incremental.Affected.{Affected, affected_by-Affected}
use rlyeh_language.Incremental.Order.{
  Order, topological_order, indegrees, drain, release, degree, set_degree, sources, sort, place,
  requeue,
}
use rlyeh_language.Incremental.Order.Cycles.{IsCycle}
use rlyeh_language.Incremental.Order.Compilation.{
  IsDependencyGraph, IsCompilationOrder, topological_order-IsCompilationOrder,
}

abbrev graph : DependencyGraph
graph = record {
  nodes = "app" ∷ "core" ∷ "net" ∷ "util" ∷ [];
  edges = ("app", "net" ∷ "util" ∷ []) ∷ ("core", []) ∷ ("net", "core" ∷ []) ∷ ("util", []) ∷ [];
}

affected_by-Affected_example :
    (out : List Name) × (affected_by graph ("core" ∷ []) ≡ some out)
    × ((x : Name) → (has x out ≡ true) ↔ Affected graph ("core" ∷ []) x)
affected_by-Affected_example = affected_by-Affected graph ("core" ∷ [])

affected_by_test : affected_by graph ("core" ∷ "new" ∷ []) ≡ some ("app" ∷ "core" ∷ "net" ∷ [])
unfolding affected_by spread keys known contains has insert dependents push_all
affected_by_test = refl

graph-IsDependencyGraph : IsDependencyGraph graph
unfolding has keys
graph-IsDependencyGraph = (
  (refl, (refl, (refl, (refl, tt)))),
  (refl, (refl, (refl, tt)), (refl, tt, (refl, (refl, tt), (refl, tt, tt)))),
  ((refl, (refl, tt)), (tt, ((refl, tt), (tt, tt)))),
)

topological_order-IsCompilationOrder_example :
    ((names : List Name) × (topological_order graph ≡ some (Order.order names))
      × IsCompilationOrder graph names)
    ⊎ ((names : List Name) × (topological_order graph ≡ some (Order.cycle names))
        × IsCycle graph.edges names)
topological_order-IsCompilationOrder_example =
    topological_order-IsCompilationOrder graph graph-IsDependencyGraph

topological_order_test :
    topological_order graph ≡ some (Order.order ("core" ∷ "net" ∷ "util" ∷ "app" ∷ []))
unfolding topological_order indegrees drain release degree set_degree sources sort place requeue
    dependencies dependents has push_all
topological_order_test = refl
