-- ===== src/Gc/Examples.antt =====
-- Tests of the collector, and its theorems at a small heap: 100 is a root and refers to 200, 300
-- is garbage, and 400 is from an outer block.
use rlyeh_language.Common.{
  ℕ, ◌<◌, ◌≡◌, refl, ◌⊎◌, inl, inr, ◌↔◌, false, some, [], ◌∷◌, ◌+◌, ◌==◌, if◌then◌else◌,
}
use rlyeh_language.Gc.{
  Header, GcState, Memory, find_header, collect, region_begin, mark, scan, mark_found, visit_slot,
  mark_roots, marked_list, sweep, sweep_one, set_marked,
}
use rlyeh_language.Gc.Sweep.{bases, count}
use rlyeh_language.Gc.Collect.{Inv, Live, collect_keeps}
use rlyeh_language.Gc.Survival.{Step, Steps, Protected, Steps-Protected, count-collect}

abbrev words : Memory
words a = if a == 100 then 200 else if a == 208 then 100 else 0

abbrev object : ℕ → ℕ → Header
object b e = record { base = b; slots = 2; epoch = e; marked = false }

abbrev heap : GcState
heap = record {
  list = object 100 1 ∷ object 200 1 ∷ object 300 1 ∷ object 400 0 ∷ [];
  roots = 100 ∷ [];
  epoch = 1;
}

heap-Inv : Inv heap
unfolding find_header
heap-Inv = record {
  distinct = (refl, (refl, (refl, (refl, tt))));
  fresh = (refl, (refl, (refl, (refl, tt))));
}

collect_runs :
    (bases (collect words heap).0.list ≡ 400 ∷ 200 ∷ 100 ∷ []) × ((collect words heap).1 ≡ 300 ∷ [])
unfolding collect marked_list mark_roots mark mark_found scan visit_slot find_header set_marked
    sweep sweep_one
collect_runs = (refl, refl)

collect_keeps_example :
    (find_header 200 (collect words heap).0.list ≡ some (object 200 1))
    ↔ ((find_header 200 heap.list ≡ some (object 200 1)) × ((1 < 1) ⊎ Live words heap 200))
collect_keeps_example = collect_keeps words heap heap-Inv 200 (object 200 1)

count-collect_example :
    count 300 (bases (collect words heap).0.list) + count 300 (collect words heap).1 ≡ 1
count-collect_example = count-collect words heap 300 heap-Inv

abbrev reopened : GcState
reopened = region_begin (collect words heap).0

reopened-Steps : Steps heap reopened
reopened-Steps = Steps.more (Steps.more Steps.done (Step.collects words refl)) (Step.begins refl)

Steps-Protected_example : Protected 100 (object 100 1) reopened
unfolding find_header
Steps-Protected_example =
    Steps-Protected 100 (object 100 1) heap-Inv reopened-Steps (refl, inr (inl refl))
