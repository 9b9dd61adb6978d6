-- ===== src/Incremental/Order.antt =====
-- crates/rlyeh-driver/src/incremental/depgraph.rs: topological_order, Kahn's algorithm. The reverse
-- map is not built: its entry for a name is the list of that name's dependents in the edges. An
-- underflow of a degree, and fuel that runs out, are `none`.
pub mod Degrees
pub mod Kahn
pub mod Sound
pub mod Total
pub mod Cycles
pub mod Compilation
use Prim.Native.String.{String}
use text.Mathlib.Text.{◌==◌ as str_eq}
use rlyeh_language.Common.{
  ◌>>=◌, ℕ, zero, suc, ◌+◌, ◌-◌, Bool, true, false, not, Option, none, some, List, [], ◌∷◌, ◌++◌,
  map, reverse, length, drop, if◌then◌else◌, ◌==◌,
}
use rlyeh_language.Incremental.DepGraph.{
  Name, has, Edges, DependencyGraph, dependencies, dependencies_of, dependents, less, insert,
  push_all,
}

abbrev pub Degrees : Type 0
Degrees = List (Name × ℕ)

unfoldable pub indegrees : Edges → List Name → Degrees
indegrees edges [] = []
indegrees edges (n ∷ ns) = (n, length (dependencies n edges)) ∷ indegrees edges ns

unfoldable pub degree : Name → Degrees → Option ℕ
degree x [] = none
degree x ((y, d) ∷ ds) = if str_eq y x then some d else degree x ds

unfoldable pub set_degree : Name → ℕ → Degrees → Degrees
set_degree x d [] = []
set_degree x d ((y, e) ∷ ds) =
    let rest = set_degree x d ds in if str_eq y x then (y, d) ∷ ds else (y, e) ∷ rest

unfoldable pub sources : Degrees → List Name
sources [] = []
sources ((y, d) ∷ ds) = let rest = sources ds in if d == 0 then y ∷ rest else rest

-- `sort`, which is stable.
unfoldable pub place : Name → List Name → List Name
place x [] = x ∷ []
place x (y ∷ ys) = let rest = place x ys in if less y x then y ∷ rest else x ∷ y ∷ ys

unfoldable pub sort : List Name → List Name
sort [] = []
sort (x ∷ xs) = place x (sort xs)

unfoldable pub requeue : Name → ℕ → List Name → List Name
requeue from d queue = if d == 0 then sort (queue ++ (from ∷ [])) else queue

-- The loop over the dependents of a name that is placed in the order.
unfoldable pub release : List Name → Degrees → List Name → Option (Degrees × List Name)
release [] ds queue = some (ds, queue)
release (from ∷ froms) ds queue = elim (degree from ds) [
  | none ↦ release froms ds queue
  | some d ↦ elim d [
    | zero ↦ none
    | suc e ↦ release froms (set_degree from e ds) (requeue from e queue)
  ]
]

-- The loop over the queue; the order, latest first.
unfoldable pub drain : ℕ → Edges → Degrees → List Name → List Name → Option (List Name)
drain zero edges ds queue order = none
drain (suc fuel) edges ds [] order = some order
drain (suc fuel) edges ds (name ∷ queue) order =
    release (dependents name edges) ds queue >>= λ out. drain fuel edges out.0 out.1 (name ∷ order)

unfoldable pub remaining : List Name → List Name → List Name
remaining order [] = []
remaining order (n ∷ ns) = let rest = remaining order ns in if has n order then rest else n ∷ rest

-- The first dependency that remains.
unfoldable pub next_remaining : List Name → List Name → Option Name
next_remaining rest [] = none
next_remaining rest (to ∷ deps) = if has to rest then some to else next_remaining rest deps

-- `split_off` at the place of a name, at 0 where there is none.
unfoldable pub split_at : Name → List Name → List Name
split_at x [] = []
split_at x (y ∷ ys) = let later = split_at x ys in if str_eq y x then y ∷ ys else later

unfoldable pub closed_walk : Name → List Name → List Name
closed_walk x walk = (if has x walk then split_at x walk else walk) ++ (x ∷ [])

unfoldable pub without_last : List Name → List Name
without_last [] = []
without_last (x ∷ []) = []
without_last (x ∷ y ∷ ys) = x ∷ without_last (y ∷ ys)

-- The loop that finds a cycle among the remaining names, the top of the stack first.
unfoldable pub find_cycle :
    ℕ → Edges → List Name → List Name → List Name → List Name → Option (List Name)
find_cycle zero edges rest visited walk stack = none
find_cycle (suc fuel) edges rest visited walk [] = some walk
find_cycle (suc fuel) edges rest visited walk (name ∷ stack) =
    if has name visited
    then some (closed_walk name walk)
    else elim (next_remaining rest (dependencies name edges)) [
      | some to ↦
          find_cycle fuel edges rest (insert name visited) (walk ++ (name ∷ [])) (to ∷ name ∷ stack)
      | none ↦
          find_cycle fuel edges rest (insert name visited) (without_last (walk ++ (name ∷ [])))
            stack
    ]

pub data Order : Type 0 where
  order : List Name → Order
  cycle : List Name → Order

-- `unwrap` of the first remaining name.
unfoldable pub cycle_from : ℕ → Edges → List Name → Option Order
cycle_from fuel edges [] = none
cycle_from fuel edges (start ∷ rest) =
    find_cycle fuel edges (start ∷ rest) [] [] (start ∷ []) >>= λ names. some (Order.cycle names)

-- One unit for each module, which enters the queue and the visited set once, and those for the end.
unfoldable pub topological_order : DependencyGraph → Option Order
topological_order g =
    let ds = indegrees g.edges g.nodes in
    drain (suc (length g.nodes)) g.edges ds (sort (sources ds)) [] >>= λ latest.
    if length latest == length g.nodes
    then some (Order.order (push_all latest []))
    else cycle_from (2 + length g.nodes) g.edges (remaining latest g.nodes)

unfoldable pub has_cycle : DependencyGraph → Option Bool
has_cycle g = topological_order g >>= λ o. elim o [
  | Order.order names ↦ some false
  | Order.cycle names ↦ some true
]
