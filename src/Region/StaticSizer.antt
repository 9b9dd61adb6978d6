-- ===== src/Region/StaticSizer.antt =====
-- crates/rlyeh-region-alloc/src/static_sizer.rs. A sum that overflows wraps, as in a release build.
pub mod Covers
pub mod Attained
use Prim.Native.String.{String}
use text.Mathlib.Text.{◌==◌ as str_eq}
use rlyeh_language.Common.{
  ℕ, zero, suc, ◌+◌, ◌*◌, ◌%◌, ◌^◌, ◌-◌, max, min, Bool, true, false, not, ◌&&◌, Option, none, some,
  List, [], ◌∷◌, ◌++◌, if◌then◌else◌, ltb, leb, ◌==◌,
}

abbrev pub word : ℕ
word = 2 ^ 64

pub data SizeEstimate : Type 0 where
  unknown : SizeEstimate
  exact upper_bound : ℕ → SizeEstimate
  range : (least most : ℕ) → SizeEstimate

pub data ExecFrequency : Type 0 where
  once : ExecFrequency
  loop : (max_iterations : ℕ) → ExecFrequency
  unknown : ExecFrequency

pub record AllocSite : Type 0 where
  pub site_id : String
  pub type_size : ℕ
  pub frequency : ExecFrequency

-- The sites of each arm of a branch.
pub record BranchInfo : Type 0 where
  pub branches : List (List String)

pub record StaticSizer : Type 0 where
  pub sites : List AllocSite
  pub branches : List BranchInfo

pub new : StaticSizer
new = record { sites = []; branches = [] }

unfoldable pub add_site : AllocSite → StaticSizer → StaticSizer
add_site site z = record z { sites = z.sites ++ site ∷ [] }

unfoldable pub add_branch : BranchInfo → StaticSizer → StaticSizer
add_branch branch z = record z { branches = z.branches ++ branch ∷ [] }

unfoldable pub find_site : String → List AllocSite → Option AllocSite
find_site id [] = none
find_site id (s ∷ sites) = if str_eq s.site_id id then some s else find_site id sites

unfoldable pub saturating_mul : ℕ → ℕ → ℕ
saturating_mul a b = if ltb (a * b) word then a * b else word - 1

unfoldable pub max_size : ℕ → ExecFrequency → ℕ
unfolding saturating_mul
max_size size ExecFrequency.once = size
max_size size (ExecFrequency.loop n) = saturating_mul size n
max_size size ExecFrequency.unknown = size

unfoldable pub max_size_for_site : AllocSite → ℕ
unfolding max_size
max_size_for_site s = max_size s.type_size s.frequency

-- The end of estimate_linear.
unfoldable pub linear_result : Bool → Bool → ℕ → SizeEstimate
linear_result bounded true total = SizeEstimate.exact total
linear_result true false total = SizeEstimate.upper_bound total
linear_result false false total = SizeEstimate.unknown

-- Its loop over the sites.
unfoldable pub linear_from : Bool → Bool → ℕ → List AllocSite → SizeEstimate
unfolding linear_result saturating_mul
linear_from bounded is_exact total [] = linear_result bounded is_exact total
linear_from bounded is_exact total (s ∷ sites) = elim s.frequency [
  | ExecFrequency.once ↦ linear_from bounded is_exact ((total + s.type_size) % word) sites
  | ExecFrequency.loop n ↦
      linear_from (if ltb 1 n then true else bounded) (if ltb 1 n then false else is_exact)
        ((total + saturating_mul s.type_size n) % word) sites
  | ExecFrequency.unknown ↦ SizeEstimate.unknown
]

unfoldable pub estimate_linear : StaticSizer → SizeEstimate
unfolding linear_from
estimate_linear z = linear_from false true 0 z.sites

-- One arm of a branch; a site that is not registered counts for nothing.
unfoldable pub add_arm : List AllocSite → ℕ → List String → ℕ
unfolding find_site max_size_for_site
add_arm sites sum [] = sum
add_arm sites sum (id ∷ ids) = elim (find_site id sites) [
  | none ↦ add_arm sites sum ids
  | some s ↦ add_arm sites ((sum + max_size_for_site s) % word) ids
]

unfoldable pub add_arms : List AllocSite → ℕ → List (List String) → List ℕ
unfolding add_arm
add_arms sites sum [] = []
add_arms sites sum (arm ∷ arms) = add_arm sites sum arm ∷ add_arms sites sum arms

unfoldable pub new_sums : List AllocSite → List (List String) → List ℕ → List ℕ
unfolding add_arms
new_sums sites arms [] = []
new_sums sites arms (sum ∷ sums) = add_arms sites sum arms ++ new_sums sites arms sums

unfoldable pub path_sums : List AllocSite → List BranchInfo → List ℕ → List ℕ
unfolding new_sums
path_sums sites [] sums = sums
path_sums sites (b ∷ branches) sums = path_sums sites branches (new_sums sites b.branches sums)

-- The least and the greatest, 0 of none.
unfoldable pub least : List ℕ → ℕ
least [] = 0
least (x ∷ []) = x
least (x ∷ y ∷ ys) = min x (least (y ∷ ys))

unfoldable pub greatest : List ℕ → ℕ
greatest [] = 0
greatest (x ∷ ys) = max x (greatest ys)

unfoldable pub range_of : ℕ → ℕ → SizeEstimate
range_of a b = if a == b then SizeEstimate.exact a else SizeEstimate.range a b

unfoldable pub estimate_with_branches : StaticSizer → SizeEstimate
unfolding path_sums least greatest range_of
estimate_with_branches z =
    let sums = path_sums z.sites z.branches (0 ∷ []) in range_of (least sums) (greatest sums)

unfoldable pub estimate_of : List AllocSite → List BranchInfo → StaticSizer → SizeEstimate
unfolding estimate_with_branches estimate_linear
estimate_of [] [] z = SizeEstimate.unknown
estimate_of sites (b ∷ branches) z = estimate_with_branches z
estimate_of (s ∷ sites) [] z = estimate_linear z

unfoldable pub estimate : StaticSizer → SizeEstimate
unfolding estimate_of
estimate z = estimate_of z.sites z.branches z

unfoldable pub exact_of : SizeEstimate → Option ℕ
exact_of (SizeEstimate.exact n) = some n
exact_of _ = none

unfoldable pub static_size : StaticSizer → Option ℕ
unfolding estimate exact_of
static_size z = exact_of (estimate z)
