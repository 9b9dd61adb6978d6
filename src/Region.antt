-- ===== src/Region.antt =====
-- crates/rlyeh-region-alloc/src: the region allocator (region.rs, bump.rs, block.rs, strategy.rs,
-- destructor.rs). A `usize` is a number below 2 ^ 64. What the system allocator answers is an
-- argument: the address of the new block, or `none` for a null pointer. A type `T` enters by its
-- size, its alignment and, if it needs a drop, its drop function.
pub mod Strategy
pub mod StaticSizer
pub mod Destructors
pub mod Alignment
pub mod Bumping
pub mod Allocation
pub mod Lifecycle
mod Examples
use Prim.Native.Nat.{bit_and}
use Prim.Native.String.{String}
use rlyeh_language.Common.{
  ℕ, zero, suc, ◌+◌, ◌-◌, ◌*◌, ◌%◌, ◌^◌, max, Bool, true, false, ◌&&◌, ◌||◌, not, Option, none,
  some, List, [], ◌∷◌, ◌++◌, length, ltb, leb, ◌==◌, if◌then◌else◌,
}
use Strategy.{Floats, GrowthStrategy, RegionStats, default_stats, calculate_next_size}
use Destructors.{Entry, register, run_all, remove}
use Alignment.{checked_add, mask_up, checked_next_multiple_of}

-- error.rs
pub data AllocError : Type 0 where
  overflow destroyed frozen : AllocError
  out_of_memory : ℕ → AllocError
  too_large : ℕ → ℕ → AllocError

pub data Result (A : Type 0) : Type 0 where
  ok : A → Result A
  err : AllocError → Result A

abbrev pub usize_mod : ℕ
usize_mod = 2 ^ 64

-- block.rs
abbrev pub base_align : ℕ
base_align = 8

pub record MemoryBlock : Type 0 where
  pub ptr : ℕ
  pub size : ℕ

-- MemoryBlock::new; a layout may not exceed isize::MAX when it is rounded up to the alignment.
pub new_block : ℕ → Option ℕ → Result MemoryBlock
new_block size answer =
    if ltb (2 ^ 63 - base_align) (max size 1) then Result.err AllocError.overflow else elim answer [
      | none ↦ Result.err (AllocError.out_of_memory (max size 1))
      | some p ↦ Result.ok (record { ptr = p; size = max size 1 })
    ]

-- bump.rs; the head of the list is the block that was pushed last, the current one.
abbrev pub BumpAllocator : Type 0
BumpAllocator = List MemoryBlock

abbrev pub total_size : BumpAllocator → ℕ
total_size [] = 0
total_size (b ∷ bs) = b.size + total_size bs

module _ (fl : Floats) where
  -- region.rs, struct Region
  pub record Region : Type 0 where
    pub base : ℕ
    pub cursor : ℕ
    pub limit : ℕ
    pub alloc_count : ℕ
    pub alloc_bytes : ℕ
    pub waste_bytes : ℕ
    pub name : Option String
    pub strategy : GrowthStrategy fl
    pub stats : RegionStats
    pub allocator : BumpAllocator
    pub destructors : List Entry
    pub transferred : List ℕ
    pub destroyed : Bool

  -- `usize::is_power_of_two`: one of the 64 powers.
  power_below : ℕ → ℕ → Bool
  power_below zero a = false
  power_below (suc n) a = a == 2 ^ n || power_below n a

  pub is_power_of_two : ℕ → Bool
  unfolding power_below
  is_power_of_two a = power_below 64 a

  pub aligned_cursor : ℕ → ℕ → Option ℕ
  unfolding is_power_of_two
  aligned_cursor cursor a =
      if is_power_of_two a then mask_up cursor a else checked_next_multiple_of cursor a

  -- A bump step: the pointer and the bytes lost to alignment, and the region with its new cursor.
  pub record Bumped : Type 0 where
    pub region : Region
    pub ptr : ℕ
    pub wasted : ℕ

  bump_to : Region → ℕ → ℕ → Option Bumped
  bump_to r size aligned = elim (checked_add aligned size) [
    | none ↦ none
    | some end ↦
        if ltb r.limit end
        then none
        else some (record {
          region = record r { cursor = end };
          ptr = r.base + aligned;
          wasted = aligned - r.cursor;
        })
  ]

  -- Region::try_bump
  pub try_bump : Region → ℕ → ℕ → Option Bumped
  unfolding bump_to
  try_bump r size align = elim (aligned_cursor r.cursor (max align base_align)) [
    | none ↦ none
    | some aligned ↦ bump_to r size aligned
  ]

  pub add_block : Region → MemoryBlock → Region
  add_block r b = record r {
    allocator = b ∷ r.allocator;
    stats = record r.stats { growth_count = r.stats.growth_count + 1 };
    base = b.ptr;
    limit = b.size;
    cursor = 0;
  }

  -- Region::grow
  pub grow : Region → ℕ → Option ℕ → Result Region
  unfolding add_block
  grow r requested answer =
      elim (new_block (calculate_next_size fl r.strategy (total_size r.allocator) requested)
        answer) [ Result.err e ↦ Result.err e | Result.ok b ↦ Result.ok (add_block r b) ]

  pub allows_growth : GrowthStrategy fl → Bool
  allows_growth GrowthStrategy.exact = false
  allows_growth _ = true

  -- What `allocate` does once it has a place: the value is written, and its drop registered.
  place_value : Bumped → ℕ → Option ℕ → Region
  place_value b size needs_drop =
      let r = b.region in
      record r {
        destructors = register needs_drop b.ptr r.destructors;
        stats = record r.stats {
          allocation_count = r.stats.allocation_count + 1;
          total_allocated = r.stats.total_allocated + size;
          total_wasted = r.stats.total_wasted + b.wasted;
        };
      }

  placed : Region → ℕ → Option ℕ → Option Bumped → Region × Result ℕ
  placed r size needs_drop none = (r, Result.err (AllocError.out_of_memory size))
  placed r size needs_drop (some b) = (place_value b size needs_drop, Result.ok b.ptr)

  grown : Region → ℕ → ℕ → Option ℕ → Result Region → Region × Result ℕ
  grown r size align needs_drop (Result.err e) = (r, Result.err e)
  grown r size align needs_drop (Result.ok r') = placed r' size needs_drop (try_bump r' size align)

  -- Region::allocate
  pub allocate : Region → ℕ → ℕ → Option ℕ → Option ℕ → Region × Result ℕ
  unfolding placed grown place_value
  allocate r size align needs_drop answer =
      if r.destroyed then (r, Result.err AllocError.destroyed) else elim (try_bump r size align) [
        | some b ↦ (place_value b size needs_drop, Result.ok b.ptr)
        | none ↦
            if not (allows_growth r.strategy)
            then (r, Result.err (AllocError.out_of_memory size))
            else grown r size align needs_drop (grow r size answer)
      ]

  count_bytes : Bumped → ℕ → Region
  count_bytes b size =
      let r = b.region in
      record r {
        alloc_count = r.alloc_count + 1;
        alloc_bytes = r.alloc_bytes + size;
        waste_bytes = r.waste_bytes + b.wasted;
      }

  counted : Region → ℕ → Option Bumped → Region × Option ℕ
  counted r size none = (r, none)
  counted r size (some b) = (count_bytes b size, some b.ptr)

  grown_bytes : Region → ℕ → ℕ → Result Region → Region × Option ℕ
  grown_bytes r size align (Result.err e) = (r, none)
  grown_bytes r size align (Result.ok r') = counted r' size (try_bump r' size (max align 1))

  -- Region::allocate_bytes
  pub allocate_bytes : Region → ℕ → ℕ → Option ℕ → Region × Option ℕ
  unfolding counted grown_bytes count_bytes
  allocate_bytes r size align answer =
      if r.destroyed || size == 0 then (r, none) else elim (try_bump r size (max align 1)) [
        | some b ↦ (count_bytes b size, some b.ptr)
        | none ↦
            if not (allows_growth r.strategy)
            then (r, none)
            else grown_bytes r size align (grow r size answer)
      ]

  pub total_allocs : Region → ℕ
  total_allocs r = r.stats.allocation_count + r.alloc_count

  -- Region::capacity, and Region::used, where a subtraction below 0 panics.
  pub capacity : Region → ℕ
  capacity r = total_size r.allocator

  pub used : Region → Option ℕ
  unfolding capacity
  used r = if ltb (capacity r) r.limit then none else some (capacity r - r.limit + r.cursor)

  pub remaining : Region → Option ℕ
  remaining r = if ltb r.limit r.cursor then none else some (r.limit - r.cursor)

  -- Region::mark_transferred
  pub mark_transferred : ℕ → Region → Region
  mark_transferred ptr r = record r {
    destructors = (remove ptr r.destructors).0;
    transferred = r.transferred ++ ptr ∷ [];
  }

  contains : ℕ → List ℕ → Bool
  contains p [] = false
  contains p (x ∷ xs) = x == p || contains p xs

  pub is_transferred : ℕ → Region → Bool
  unfolding contains
  is_transferred ptr r = contains ptr r.transferred

  torn_down : Region → Region
  torn_down r = record r {
    stats = record r.stats {
      destructor_calls = r.stats.destructor_calls + (run_all r.destructors).0;
    };
    destructors = [];
    allocator = [];
    transferred = [];
    destroyed = true;
  }

  -- Region::destroy: the region, and the drops in the order in which they are made.
  pub destroy : Region → Region × List Entry
  unfolding torn_down
  destroy r = if r.destroyed then (r, []) else (torn_down r, (run_all r.destructors).1)

  start_region : MemoryBlock → Region
  start_region b = record {
    base = b.ptr;
    cursor = 0;
    limit = b.size;
    alloc_count = 0;
    alloc_bytes = 0;
    waste_bytes = 0;
    name = none;
    strategy = GrowthStrategy.multiply fl.two_point_zero;
    stats = default_stats;
    allocator = b ∷ [];
    destructors = [];
    transferred = [];
    destroyed = false;
  }

  -- Region::with_initial_size; its `expect` panics on an error.
  pub with_initial_size : ℕ → Option ℕ → Option Region
  unfolding start_region
  with_initial_size size answer = elim (new_block size answer) [
    | Result.err e ↦ none
    | Result.ok b ↦ some (start_region b)
  ]

  pub new_region : Option ℕ → Option Region
  new_region answer = with_initial_size 8 answer
