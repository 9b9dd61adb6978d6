-- ===== src/Gc.antt =====
-- crates/rlyeh-gc-runtime/src/lib.rs: the mark-and-sweep collector behind `Gc<T>`.
-- The header list and the root list are lists of records; `Memory` gives the 8-byte word at an
-- address. What `malloc` returns is an argument of `alloc`; `free` is recorded in `freed`.
pub mod Marking
pub mod Reachability
pub mod Traversal
pub mod Sweep
pub mod Collect
pub mod Survival
mod Examples
use rlyeh_language.Common.{
  ℕ, zero, suc, ◌+◌, ◌-◌, ◌*◌, ◌%◌, ◌^◌, max, Bool, true, false, ◌&&◌, ◌||◌, Option, none, some,
  List, [], ◌∷◌, length, ltb, leb, ◌==◌, if◌then◌else◌,
}

-- A signed 64-bit argument: `negsuc n` is -(n + 1).
pub data ℤ : Type 0 where
  pos negsuc : ℕ → ℤ

-- struct GcHeader
pub record Header : Type 0 where
  pub base : ℕ
  pub slots : ℕ
  pub epoch : ℕ
  pub marked : Bool

-- struct GcState
pub record GcState : Type 0 where
  pub list : List Header
  pub roots : List ℕ
  pub epoch : ℕ

-- The word at each byte address.
abbrev pub Memory : Type 0
Memory = ℕ → ℕ

pub initial : GcState
initial = record { list = []; roots = []; epoch = 0 }

pub slot_count : ℤ → ℕ
slot_count (pos n) = max n 1
slot_count (negsuc n) = 1

zero_fill : ℕ → ℕ → Memory → Memory
zero_fill base bytes mem a = if leb base a && ltb a (base + bytes) then 0 else mem a

-- rlyeh_gc_alloc; `base` and `header` are the two results of `malloc`, `none` is a failed assert.
pub alloc : ℤ → ℕ → ℕ → GcState → Memory → Option (GcState × Memory)
unfolding slot_count zero_fill
alloc count base header st mem =
    if base == 0 || header == 0
    then none
    else some
        (record st { list = new ∷ st.list }, zero_fill base (slot_count count * 8 % 2 ^ 64) mem)
  where
    new : Header
    new = record { base = base; slots = slot_count count; epoch = st.epoch; marked = false }

-- rlyeh_gc_region_begin
pub region_begin : GcState → GcState
region_begin st = record st { epoch = st.epoch + 1 }

-- rlyeh_gc_escape
pub escape : ℕ → GcState → GcState
escape ptr st = if ptr == 0 then st else record st { roots = ptr ∷ st.roots }

-- The search of `mark` along the header list.
pub find_header : ℕ → List Header → Option Header
find_header b [] = none
find_header b (h ∷ hs) = if h.base == b then some h else find_header b hs

pub set_marked : ℕ → List Header → List Header
set_marked b [] = []
set_marked b (h ∷ hs) = if h.base == b then record h { marked = true } ∷ hs else h ∷ set_marked b hs

-- One slot of the scan: only the base of a registered object is followed.
visit_slot : (ℕ → List Header → List Header) → ℕ → List Header → List Header
visit_slot visit v l =
    if v == 0 then l else elim (find_header v l) [ none ↦ l | some _ ↦ visit v l ]

-- for i in 0..slots, with `n` slots left from slot `i`.
scan : (ℕ → List Header → List Header) → Memory → ℕ → ℕ → ℕ → List Header → List Header
scan visit mem base zero i l = l
scan visit mem base (suc n) i l =
    scan visit mem base n (i + 1) (visit_slot visit (mem (base + 8 * i)) l)

mark_found :
    (ℕ → List Header → List Header) → Memory → ℕ → Option Header → List Header → List Header
mark_found visit mem base none l = l
mark_found visit mem base (some h) l =
    if h.marked then l else scan visit mem base h.slots 0 (set_marked base l)

-- fn mark: the recursion is on fuel.
pub mark : ℕ → Memory → ℕ → List Header → List Header
mark zero mem base l = l
mark (suc fuel) mem base l = mark_found (mark fuel mem) mem base (find_header base l) l

-- Step 1 of rlyeh_gc_collect.
pub mark_roots : ℕ → Memory → List ℕ → List Header → List Header
mark_roots fuel mem [] l = l
mark_roots fuel mem (r ∷ rs) l = mark_roots fuel mem rs (mark fuel mem r l)

abbrev pub alive : ℕ → Header → Bool
alive epoch h = h.marked || ltb h.epoch epoch

pub record Swept : Type 0 where
  pub keep : List Header
  pub new_roots : List ℕ
  pub freed : List ℕ

-- Step 2: a survivor is unmarked, becomes a root, and is put in front; the others are freed.
sweep_one : ℕ → Header → Swept → Swept
sweep_one epoch h s =
    if alive epoch h
    then record s { keep = record h { marked = false } ∷ s.keep; new_roots = h.base ∷ s.new_roots }
    else record s { freed = h.base ∷ s.freed }

pub sweep : ℕ → List Header → Swept → Swept
sweep epoch [] s = s
sweep epoch (h ∷ hs) s = sweep epoch hs (sweep_one epoch h s)

abbrev pub nothing_swept : Swept
nothing_swept = record { keep = []; new_roots = []; freed = [] }

-- Each nested call has marked one more object, so the number of headers is enough fuel.
pub marked_list : Memory → GcState → List Header
marked_list mem st = mark_roots (length st.list) mem st.roots st.list

-- rlyeh_gc_collect: the new state, and the objects handed to `free`.
pub collect : Memory → GcState → GcState × List ℕ
unfolding marked_list
collect mem st =
    let swept = sweep st.epoch (marked_list mem st) nothing_swept in
    (record { list = swept.keep; roots = swept.new_roots; epoch = st.epoch - 1 }, swept.freed)
