-- ===== src/Gc/Survival.antt =====
-- Runs of the collector: the four entry points as steps, between which the program may change the
-- words of memory at will.
use rlyeh_language.Common.{
  ℕ, ◌+◌, ◌<◌, ◌≡◌, sym, ap, subst, ◌⊎◌, inl, inr, Option, none, some, List, [], ◌∷◌, arith,
}
use rlyeh_language.Gc.{
  Header, GcState, Memory, find_header, marked_list, collect, alloc, escape, region_begin, ℤ,
  initial, nothing_swept,
}
use rlyeh_language.Gc.Reachability.{Reach}
use rlyeh_language.Gc.Traversal.{Rooted}
use rlyeh_language.Gc.Marking.{slots_of}
use rlyeh_language.Gc.Sweep.{bases, count, count-sweep}
use rlyeh_language.Gc.Collect.{
  Inv, Live, collect-Inv, collect_keeps, roots-collect, bases-marked_list,
}

-- `malloc` gives an address that is not in use.
pub data Step (st t : GcState) : Type 0 where
  allocates :
      (count : ℤ) (base header : ℕ) (mem mem' : Memory)
      → alloc count base header st mem ≡ some (t, mem')
      → find_header base st.list ≡ none
      → Step st t
  begins : t ≡ region_begin st → Step st t
  escapes : (ptr : ℕ) → t ≡ escape ptr st → Step st t
  collects : (mem : Memory) → t ≡ (collect mem st).0 → Step st t

pub data Steps (st : GcState) : GcState → Type 0 where
  done : Steps st st
  more : {t u : GcState} → Steps st t → Step t u → Steps st u

-- If no address is registered twice and no mark is set, this is so after every step.
pub Step-Inv : {st t : GcState} → Inv st → Step st t → Inv t
unfolding alloc
Step-Inv v (allocates count base header mem mem' e f) = ground (arith, v.distinct, v.fresh)
Step-Inv v (begins e) = unfold region_begin in ground (arith, v.distinct, v.fresh)
Step-Inv v (escapes ptr e) = unfold escape in ground (arith, v.distinct, v.fresh)
Step-Inv {st} v (collects mem e) = subst Inv (sym e) (collect-Inv mem st v)

pub Steps-Inv : {st t : GcState} → Inv st → Steps st t → Inv t
Steps-Inv v done = v
Steps-Inv v (more r s) = Step-Inv (Steps-Inv v r) s

abbrev pub In : ℕ → List ℕ → Type 0
In b [] = ⊥
In b (x ∷ xs) = (x ≡ b) ⊎ In b xs

-- From an outer block, or a root.
abbrev pub Protected : ℕ → Header → GcState → Type 0
Protected b h st = (find_header b st.list ≡ some h) × ((h.epoch < st.epoch) ⊎ In b st.roots)

In-bases : (b : ℕ) (h : Header) (l : List Header) → find_header b l ≡ some h → In b (bases l)
unfolding find_header
In-bases b h [] e = cc
In-bases b h (x ∷ l) e = ground (arith, In-bases b h l)

In-Rooted :
    (mem : Memory) (sizes : ℕ → Option ℕ) (b : ℕ) (rs : List ℕ) → In b rs → Rooted mem sizes rs b
In-Rooted mem sizes b [] i = absurd i
In-Rooted mem sizes b (r ∷ rs) (inl e) = inl (subst (Reach mem sizes r) e Reach.here)
In-Rooted mem sizes b (r ∷ rs) (inr i) = inr (In-Rooted mem sizes b rs i)

collect-Protected :
    (mem : Memory) (st : GcState) (b : ℕ) (h : Header)
    → Inv st
    → Protected b h st
    → Protected b h (collect mem st).0
collect-Protected mem st b h v (e, p) = (
  kept,
  inr (subst (In b) (sym (roots-collect mem st)) (In-bases b h (collect mem st).0.list kept)),
)
  where
    why : (h.epoch < st.epoch) ⊎ In b st.roots → (h.epoch < st.epoch) ⊎ Live mem st b
    why (inl older) = inl older
    why (inr root) = inr (In-Rooted mem (λ a. slots_of a st.list) b st.roots root)

    kept : find_header b (collect mem st).0.list ≡ some h
    kept = (collect_keeps mem st v b h).1 (e, why p)

Step-Protected :
    {st t : GcState} (b : ℕ) (h : Header) → Inv st → Step st t → Protected b h st → Protected b h t
unfolding alloc find_header
Step-Protected b h v (allocates count base header mem mem' e f) p = ground (arith, p)
Step-Protected b h v (begins e) p = unfold region_begin in ground (arith, p)
Step-Protected b h v (escapes ptr e) p = unfold escape in ground (arith, p)
Step-Protected {st} b h v (collects mem e) p =
    subst (Protected b h) (sym e) (collect-Protected mem st b h v p)

-- From a state in which no address is registered twice and no mark is set: an object of an outer
-- block, and an object that is a root, as every survivor of a collection is, stays registered
-- whatever follows.
pub Steps-Protected :
    {st t : GcState} (b : ℕ) (h : Header) → Inv st → Steps st t → Protected b h st → Protected b h t
Steps-Protected b h v done p = p
Steps-Protected b h v (more r s) p =
    Step-Protected b h (Steps-Inv v r) s (Steps-Protected b h v r p)

-- From a state in which no address is registered twice and no mark is set, a collection hands
-- each object that it drops to `free` once, and nothing else.
pub count-collect :
    (mem : Memory) (st : GcState) (b : ℕ)
    → Inv st
    → count b (bases (collect mem st).0.list) + count b (collect mem st).1 ≡ count b (bases st.list)
unfolding collect
count-collect mem st b v = omega (
  arith,
  count-sweep st.epoch b (marked_list mem st) nothing_swept,
  ap (count b) (bases-marked_list mem st v),
)

pub initial-Inv : Inv initial
unfolding initial
initial-Inv = record { distinct = tt; fresh = tt }
