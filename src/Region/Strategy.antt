-- ===== src/Region/Strategy.antt =====
-- strategy.rs and stats.rs: how large the next block is. The `f64` operations are a parameter.
use Prim.Native.String.{String}
use mathlib.Core.List.{append-nil, append_assoc}
use rlyeh_language.Common.{
  ℕ, ◌+◌, ◌-◌, ◌/◌, ◌≤◌, ◌<◌, ◌^◌, ◌≡◌, refl, sym, subst, ◌⊎◌, inl, inr, max, min, List, [], ◌∷◌,
  ◌++◌, ltb, ◌==◌, if◌then◌else◌, arith, Bool-cases,
}

-- The `f64` operations of the crate. `to_usize` is `as usize`, which saturates.
pub record Floats : Type 1 where
  pub F : Type 0
  pub of_usize : ℕ → F
  pub plus : F → F → F
  pub times : F → F → F
  pub ceil : F → F
  pub to_usize : F → ℕ
  pub zero_point_zero : F
  pub zero_point_five : F
  pub one_point_two : F
  pub two_point_zero : F

-- stats.rs
pub record RegionStats : Type 0 where
  pub allocation_count : ℕ
  pub total_allocated : ℕ
  pub total_wasted : ℕ
  pub growth_count : ℕ
  pub destructor_calls : ℕ
  pub region_name : String
  pub created_at : String
  pub total_deallocated : ℕ
  pub peak_usage : ℕ
  pub fragmentation : ℕ
  pub decision_source : String

-- RegionStats::default
abbrev pub default_stats : RegionStats
default_stats = record {
  allocation_count = 0;
  total_allocated = 0;
  total_wasted = 0;
  growth_count = 0;
  destructor_calls = 0;
  region_name = "";
  created_at = "";
  total_deallocated = 0;
  peak_usage = 0;
  fragmentation = 0;
  decision_source = "";
}

-- RegionStats::avg_allocation_size
pub avg_allocation_size : RegionStats → ℕ
avg_allocation_size s =
    if s.allocation_count == 0 then 0 else s.total_allocated / s.allocation_count

abbrev pub usize_max : ℕ
usize_max = 2 ^ 64 - 1

abbrev pub saturating_add : ℕ → ℕ → ℕ
saturating_add a b = min (a + b) usize_max

module _ (fl : Floats) where
  open fl use {
    F, of_usize, plus, times, ceil, to_usize, zero_point_zero, zero_point_five, one_point_two,
  }

  pub data GrowthStrategy : Type 0 where
    exact : GrowthStrategy
    multiply : (factor : F) → GrowthStrategy
    linear : (chunk : ℕ) → GrowthStrategy
    adaptive : (adaptive_samples : List ℕ) (max_capacity : ℕ) → GrowthStrategy

  -- `1.0 - EWMA_ALPHA` is `EWMA_ALPHA`, since both are 0.5.
  ewma_from : F → List ℕ → F
  ewma_from avg [] = avg
  ewma_from avg (s ∷ rest) =
      ewma_from (plus (times zero_point_five (of_usize s)) (times zero_point_five avg)) rest

  ewma : List ℕ → F
  unfolding ewma_from
  ewma [] = zero_point_zero
  ewma (s ∷ rest) = ewma_from (of_usize s) rest

  unfoldable pub calculate_next_size : GrowthStrategy → ℕ → ℕ → ℕ
  unfolding ewma
  calculate_next_size exact current_capacity requested =
      max requested (saturating_add current_capacity 1)
  calculate_next_size (multiply factor) current_capacity requested = max requested (
      max (to_usize (ceil (times (of_usize current_capacity) factor)))
        (saturating_add current_capacity 1))
  calculate_next_size (linear chunk) current_capacity requested =
      max requested (saturating_add current_capacity chunk)
  calculate_next_size (adaptive samples max_capacity) current_capacity requested =
      let predicted = to_usize (ceil (times (ewma samples) one_point_two)) in
      let next = max (max requested predicted) (saturating_add current_capacity 1) in
      max (if ltb 0 max_capacity then min next max_capacity else next) requested

  -- The next block holds the request under every strategy.
  pub requested-le-calculate_next_size :
      (g : GrowthStrategy) (current requested : ℕ)
      → requested ≤ calculate_next_size g current requested
  unfolding calculate_next_size
  requested-le-calculate_next_size exact c r = ground arith
  requested-le-calculate_next_size (multiply f) c r = ground arith
  requested-le-calculate_next_size (linear k) c r = ground arith
  requested-le-calculate_next_size (adaptive s m) c r = ground arith

  -- The average with weight one half of samples that stand oldest first, seen from the latest one.
  pub data Average : List ℕ → F → Type 0 where
    no_sample : Average [] zero_point_zero
    first : (s : ℕ) → Average (s ∷ []) (of_usize s)
    latest :
        (s' : ℕ) (before : List ℕ) (s : ℕ) (all : List ℕ) (avg : F)
        → all ≡ (s' ∷ before) ++ (s ∷ [])
        → Average (s' ∷ before) avg
        → Average all (plus (times zero_point_five (of_usize s)) (times zero_point_five avg))

  ewma_from-Average :
      (rest : List ℕ) (s : ℕ) (before : List ℕ) (avg : F)
      → Average (s ∷ before) avg
      → Average (s ∷ (before ++ rest)) (ewma_from avg rest)
  unfolding ewma_from
  ewma_from-Average [] s before avg a = subst (λ l. Average (s ∷ l) avg) (sym (append-nil before)) a
  ewma_from-Average (x ∷ rest) s before avg a =
      subst (λ l. Average (s ∷ l) (ewma_from avg (x ∷ rest))) (append_assoc before (x ∷ []) rest)
        (ewma_from-Average rest s (before ++ x ∷ []) _ (latest s before x _ avg refl a))

  ewma-Average : (samples : List ℕ) → Average samples (ewma samples)
  unfolding ewma
  ewma-Average [] = no_sample
  ewma-Average (s ∷ rest) = ewma_from-Average rest s [] (of_usize s) (first s)

  -- `n` is the least number that is at least each of the three.
  abbrev pub Largest : ℕ → ℕ → ℕ → ℕ → Type 0
  Largest a b c n = (a ≤ n) × (b ≤ n) × (c ≤ n) × ((m : ℕ) → a ≤ m → b ≤ m → c ≤ m → n ≤ m)

  -- `next` is what is wanted, cut at a limit that is not 0, but never below the request.
  abbrev pub Capped : ℕ → ℕ → ℕ → ℕ → Type 0
  Capped limit requested wanted next =
      ((limit ≡ 0) ⊎ (wanted ≤ limit)) × (next ≡ wanted)
      ⊎ ((0 < limit) × (limit < wanted) × Largest limit requested 0 next)

  capped :
      (limit requested wanted : ℕ)
      → requested ≤ wanted
      → Capped limit requested wanted
          (max (if ltb 0 limit then min wanted limit else wanted) requested)
  capped limit requested wanted h = elim (Bool-cases (ltb 0 limit)) [
    | inr z ↦ inl (inl (ground arith), ground arith)
    | inl p ↦ elim (Bool-cases (ltb limit wanted)) [
      | inr z ↦ inl (inr (ground arith), ground arith)
      | inl q ↦ inr (
        ground arith,
        ground arith,
        (ground arith, ground arith, omega arith, λ m a b d. ground arith),
      )
    ]
  ]

  abbrev pub NextSize : GrowthStrategy → ℕ → ℕ → ℕ → Type 0
  NextSize exact current requested next = Largest requested (current + 1) 0 next
  NextSize (multiply factor) current requested next =
      Largest requested (current + 1) (to_usize (ceil (times (of_usize current) factor))) next
  NextSize (linear chunk) current requested next =
      Largest requested (min (current + chunk) usize_max) 0 next
  NextSize (adaptive samples max_capacity) current requested next =
      (avg : F) × Average samples avg
      × ((wanted : ℕ) × Largest requested (current + 1) (to_usize (ceil (times avg one_point_two)))
            wanted
          × Capped max_capacity requested wanted next)

  -- Below the address limit the next block is the smallest that holds the request and (exact and
  -- multiplying strategy) is larger than the capacity and (multiplying) holds the capacity times
  -- the factor; (linear) holds the capacity plus the chunk, up to the address limit; or (adaptive)
  -- is larger than the capacity and holds 1.2 times the average of the samples with weight one
  -- half, where a limit other than 0 cuts it, but not below the request.
  pub calculate_next_size-NextSize :
      (g : GrowthStrategy) (current requested : ℕ)
      → current < usize_max
      → NextSize g current requested (calculate_next_size g current requested)
  unfolding calculate_next_size
  calculate_next_size-NextSize exact c r h =
      (omega arith, omega arith, omega arith, λ m a b d. omega arith)
  calculate_next_size-NextSize (multiply f) c r h =
      (omega arith, omega arith, omega arith, λ m a b d. omega arith)
  calculate_next_size-NextSize (linear k) c r h =
      (omega arith, omega arith, omega arith, λ m a b d. omega arith)
  calculate_next_size-NextSize (adaptive s limit) c r h =
      let predicted = to_usize (ceil (times (ewma s) one_point_two)) in
      let wanted = max (max r predicted) (saturating_add c 1) in
      (
        ewma s,
        ewma-Average s,
        (
          wanted,
          (omega arith, omega arith, omega arith, λ m a b d. omega arith),
          capped limit r wanted (omega arith),
        ),
      )
