-- ===== src/Region/Examples.antt =====
-- The theorems on regions at a region with one block of 64 bytes, at the address 1000. The floating
-- point operations are those of numbers in tenths.
mod Sizes
use rlyeh_language.Common.{
  ℕ, ◌+◌, ◌*◌, ◌/◌, ◌%◌, ◌<◌, ◌≡◌, refl, min, true, none, some, [], ◌∷◌, arith,
}
use rlyeh_language.Region.{
  Region, Result, AllocError, start_region, allocate, grow, new_block, try_bump, bump_to,
  aligned_cursor, is_power_of_two, power_below, allows_growth, placed, grown, place_value,
  add_block, mark_transferred, is_transferred, destroy, used,
}
use rlyeh_language.Region.Strategy.{
  Floats, GrowthStrategy, usize_max, calculate_next_size, NextSize, calculate_next_size-NextSize,
}
use rlyeh_language.Region.Destructors.{
  Entry, count, remove, run_all, count-remove, register_all, run_all-register_all,
  remove_breaks_order,
}
use rlyeh_language.Region.Alignment.{
  mask_up, checked_next_multiple_of, checked_add, mask_up-checked_next_multiple_of,
}
use rlyeh_language.Region.Bumping.{Lands}
use rlyeh_language.Region.Allocation.{allocate-Lands, allocate-err, allocate-total}
use rlyeh_language.Region.Lifecycle.{
  count-mark_transferred, destroy_once, used-destroy, allocate_remainder,
}

abbrev tenths : Floats
tenths = record {
  F = ℕ;
  of_usize = λ n. n * 10;
  plus = λ a b. a + b;
  times = λ a b. a * b / 10;
  ceil = λ a. (a + 9) / 10 * 10;
  to_usize = λ a. min (a / 10) usize_max;
  zero_point_zero = 0;
  zero_point_five = 5;
  one_point_two = 12;
  two_point_zero = 20;
}

abbrev fresh : Region tenths
fresh = start_region tenths (record { ptr = 1000; size = 64 })

-- 1.2 times the average of 100 and 200, cut at 170.
calculate_next_size-NextSize_example :
    NextSize tenths
      (GrowthStrategy.adaptive (100 ∷ 200 ∷ []) 170)
      64
      100
      (calculate_next_size tenths (GrowthStrategy.adaptive (100 ∷ 200 ∷ []) 170) 64 100)
calculate_next_size-NextSize_example =
    calculate_next_size-NextSize tenths (GrowthStrategy.adaptive (100 ∷ 200 ∷ []) 170) 64 100
      (omega arith)

abbrev entry : ℕ → Entry
entry p = record { ptr = p; drop_fn = 7 }

remove_breaks_order_example :
    (run_all (remove 1 (entry 1 ∷ entry 2 ∷ entry 3 ∷ [])).0).1 ≡ entry 2 ∷ entry 3 ∷ []
remove_breaks_order_example = remove_breaks_order (entry 1) (entry 3) (entry 2 ∷ [])

allocate-Lands_example :
    Lands tenths fresh (allocate tenths fresh 100 16 none (some 2000)).0 (some 2000) 100 16 2000
unfolding allocate grow new_block try_bump bump_to aligned_cursor is_power_of_two power_below
    allows_growth grown placed place_value add_block calculate_next_size mask_up checked_add
    start_region
allocate-Lands_example =
    allocate-Lands tenths fresh 100 16 2000 none (some 2000) (omega arith) (omega arith) refl

allocate-err_example : (allocate tenths fresh 100 16 none none).0 ≡ fresh
unfolding allocate grow new_block try_bump bump_to aligned_cursor is_power_of_two power_below
    allows_growth grown calculate_next_size mask_up checked_add start_region
allocate-err_example =
    allocate-err tenths fresh 100 16 none none (AllocError.out_of_memory 128) (omega arith) refl

allocate-total_example :
    (ptr : ℕ) × ((allocate tenths fresh 100 16 none (some 2000)).1 ≡ Result.ok ptr)
unfolding allows_growth calculate_next_size start_region
allocate-total_example =
    allocate-total tenths fresh 100 16 2000 none refl refl (omega arith) (omega arith)

allocate_remainder_example : 2000 % 16 ≡ (allocate tenths fresh 100 16 none (some 2000)).0.base % 16
unfolding allocate grow new_block try_bump bump_to aligned_cursor is_power_of_two power_below
    allows_growth grown placed place_value add_block calculate_next_size mask_up checked_add
    start_region
allocate_remainder_example =
    allocate_remainder tenths fresh 100 16 2000 none (some 2000) (omega arith) (omega arith)
      (omega arith) refl

abbrev holding : Region tenths
holding = record fresh { destructors = entry 1 ∷ entry 2 ∷ [] }

count-mark_transferred_example :
    (count 1 (destroy tenths (mark_transferred tenths 1 holding)).1 ≡ 0)
    × (is_transferred tenths 1 (mark_transferred tenths 1 holding) ≡ true)
unfolding start_region
count-mark_transferred_example = count-mark_transferred tenths holding 1 1 refl

used-destroy_example : used tenths (destroy tenths fresh).0 ≡ none
unfolding start_region
used-destroy_example = used-destroy tenths fresh refl (omega arith)
