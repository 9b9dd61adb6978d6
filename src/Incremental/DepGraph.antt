-- ===== src/Incremental/DepGraph.antt =====
-- crates/rlyeh-driver/src/incremental/depgraph.rs. A BTreeSet is the list of its elements and a
-- BTreeMap that of its pairs, in the order of its keys.
use Prim.Native.String.{String}
use Prim.Native.String
use Prim.Native.Nat.{Ordering}
use text.Mathlib.Text.{◌==◌ as str_eq}
use rlyeh_language.Common.{
  ℕ, zero, suc, ◌+◌, ◌*◌, Bool, true, false, ◌||◌, Option, none, some, List, [], ◌∷◌, ◌++◌, length,
  if◌then◌else◌, ◌==◌,
}

abbrev pub Name : Type 0
Name = String

unfoldable pub has : Name → List Name → Bool
has x [] = false
has x (y ∷ ys) = str_eq y x || has x ys

abbrev pub Edges : Type 0
Edges = List (Name × List Name)

pub record DependencyGraph : Type 0 where
  pub nodes : List Name
  pub edges : Edges

pub new : DependencyGraph
new = record { nodes = []; edges = [] }

unfoldable pub dependencies : Name → Edges → List Name
dependencies x [] = []
dependencies x ((from, deps) ∷ edges) = if str_eq from x then deps else dependencies x edges

-- DependencyGraph::contains, depends_on, dependencies_of, len and is_empty.
unfoldable pub contains : Name → DependencyGraph → Bool
contains x g = has x g.nodes

unfoldable pub depends_on : Name → Name → DependencyGraph → Bool
unfolding dependencies
depends_on from to g = has to (dependencies from g.edges)

unfoldable pub dependencies_of : Name → DependencyGraph → List Name
dependencies_of x g = dependencies x g.edges

unfoldable pub len : DependencyGraph → ℕ
len g = length g.nodes

unfoldable pub is_empty : DependencyGraph → Bool
is_empty g = length g.nodes == 0

-- The modules that depend on one, in the order of the edges.
unfoldable pub dependents : Name → Edges → List Name
unfolding has
dependents x [] = []
dependents x ((from, deps) ∷ edges) =
    let rest = dependents x edges in if has x deps then from ∷ rest else rest

-- Pushed one by one: the last one is on top.
unfoldable pub push_all : List Name → List Name → List Name
push_all [] stack = stack
push_all (x ∷ xs) stack = push_all xs (x ∷ stack)

unfoldable pub known : DependencyGraph → List Name → List Name
unfolding contains
known g [] = []
known g (x ∷ xs) = let rest = known g xs in if contains x g then x ∷ rest else rest

unfoldable pub keys : Edges → List Name
keys [] = []
keys ((from, deps) ∷ edges) = from ∷ keys edges

-- The order of strings.
abbrev pub less : Name → Name → Bool
less a b = elim (String.compare a b) [ Ordering.lt ↦ true | _ ↦ false ]

unfoldable pub insert : Name → List Name → List Name
insert x [] = x ∷ []
insert x (y ∷ ys) =
    let rest = insert x ys in
    if str_eq y x then y ∷ ys else (if less x y then x ∷ y ∷ ys else y ∷ rest)

-- The entry of a key, with an empty set where there is none, changed by `f`.
unfoldable pub entry : Name → (List Name → List Name) → Edges → Edges
entry x f [] = (x, f []) ∷ []
entry x f ((y, deps) ∷ edges) =
    let rest = entry x f edges in
    if str_eq y x
    then (y, f deps) ∷ edges
    else (if less x y then (x, f []) ∷ (y, deps) ∷ edges else (y, deps) ∷ rest)

unfoldable pub add_node : Name → DependencyGraph → DependencyGraph
unfolding insert entry
add_node x g = record { nodes = insert x g.nodes; edges = entry x (λ deps. deps) g.edges }

unfoldable pub add_edge : Name → Name → DependencyGraph → DependencyGraph
unfolding add_node
add_edge from to g =
    let h = add_node to (add_node from g) in record h { edges = entry from (insert to) h.edges }

-- The loop, the top of the stack first.
unfoldable pub spread : ℕ → Edges → List Name → List Name → Option (List Name)
unfolding insert dependents push_all has
spread zero edges affected stack = none
spread (suc fuel) edges affected [] = some affected
spread (suc fuel) edges affected (x ∷ stack) =
    if has x affected
    then spread fuel edges affected stack
    else spread fuel edges (insert x affected) (push_all (dependents x edges) stack)

-- One unit for each module that is pushed: the changed ones, and for each name that is popped for
-- the first time at most one for each edge.
unfoldable pub affected_by : DependencyGraph → List Name → Option (List Name)
unfolding known spread push_all
affected_by g changed =
    let start = known g changed in
    let names = start ++ keys g.edges in
    spread (suc (length start + length names * length g.edges)) g.edges [] (push_all start [])
