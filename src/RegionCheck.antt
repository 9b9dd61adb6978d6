-- ===== src/RegionCheck.antt =====
-- crates/rlyeh-regionck/src/checker.rs and error.rs: the checker of regions, allocation in them and
-- transfers out of them. Its state and its counter are one record; the innermost region stands
-- first. A map is an association list with one entry for each key.
pub mod Checker
pub mod Transfers
pub mod Follows
pub mod Accepted
mod Examples
use Prim.Native.String
use Prim.Native.String.{String}
use text.Mathlib.Text.{◌==◌ as str_eq}
use rlyeh_language.Common.{
  ℕ, suc, Bool, true, false, not, Option, none, some, List, [], ◌∷◌, ◌++◌, if◌then◌else◌,
}
use rlyeh_language.Common.Decimal.{decimal}
use rlyeh_language.Mir.Dce.{contains}
use rlyeh_language.Hir.{Span}

abbrev pub Related : Type 0
Related = List (Span × String)

pub data RegionError : Type 0 where
  region_escape invalid_transfer region_not_found partial_transfer double_transfer
        cannot_transfer_reference outer_region_transfer unsized_transfer :
      (text : String) (line col : ℕ) (related : Related) → RegionError

pub record RegionChecker : Type 0 where
  pub active_regions : List String
  pub allocated : List (String × String)
  pub transferred : List String
  pub transfer_spans : List (String × Span)
  pub region_spans : List (String × Span)
  pub errors : List RegionError
  pub cur_span : Span
  pub anon_counter : ℕ

abbrev pub new : RegionChecker
new = record {
  active_regions = [];
  allocated = [];
  transferred = [];
  transfer_spans = [];
  region_spans = [];
  errors = [];
  cur_span = record { start = 0; end = 0; line = 0; col = 0 };
  anon_counter = 0;
}

module _ {A : Type 0} where
  unfoldable pub get : String → List (String × A) → Option A
  get k [] = none
  get k ((j, a) ∷ m) = if str_eq j k then some a else get k m

  unfoldable pub without : String → List (String × A) → List (String × A)
  without k [] = []
  without k ((j, a) ∷ m) = let rest = without k m in if str_eq j k then rest else (j, a) ∷ rest

  unfoldable pub insert : String → A → List (String × A) → List (String × A)
  insert k a m = (k, a) ∷ without k m

  -- `entry(k).or_insert(a)`.
  unfoldable pub or_insert : String → A → List (String × A) → List (String × A)
  or_insert k a m = elim (get k m) [ some old ↦ m | none ↦ (k, a) ∷ m ]

-- `allocated.retain(|_, r| *r != key)`.
unfoldable pub leave_region : String → List (String × String) → List (String × String)
leave_region key [] = []
leave_region key ((v, r) ∷ m) =
    let rest = leave_region key m in if str_eq r key then rest else (v, r) ∷ rest

unfoldable pub region_in_scope : RegionChecker → String → Bool
region_in_scope s name = contains name s.active_regions

unfoldable pub push_error : RegionError → RegionChecker → RegionChecker
push_error e s = record s { errors = s.errors ++ (e ∷ []) }

unfoldable pub not_found : String → Span → RegionError
not_found name span = RegionError.region_not_found name span.line span.col []

-- `get(k).map(|sp| vec![(sp.clone(), label)]).unwrap_or_default()`.
unfoldable pub related_to : String → String → List (String × Span) → Related
related_to k label spans = elim (get k spans) [ none ↦ [] | some sp ↦ (sp, label) ∷ [] ]

infixr 20 ◌<>◌
abbrev pub ◌<>◌ : String → String → String
a <> b = String.◌++◌ a b

-- `self.active_regions.last() == Some(region)`.
unfoldable pub is_innermost : String → List String → Bool
is_innermost region [] = false
is_innermost region (r ∷ rs) = str_eq r region

unfoldable pub transfer_allocated : String → String → RegionChecker → RegionChecker
transfer_allocated v region s =
    if is_innermost region s.active_regions
    then record s {
      transferred = v ∷ s.transferred;
      transfer_spans = or_insert v s.cur_span s.transfer_spans;
    }
    else push_error
        (RegionError.outer_region_transfer
          ("object `" <> v <> "` belongs to region `'" <> region
            <> "`, but the transfer occurs inside a nested region; move the transfer into `'"
            <> region <> "` directly")
          s.cur_span.line s.cur_span.col
          (related_to region ("区域 `'" <> region <> "` 声明于此") s.region_spans))
        s

unfoldable pub transfer_from : String → String → Option String → RegionChecker → RegionChecker
transfer_from v region (some r) s =
    if str_eq r region
    then transfer_allocated v region s
    else push_error
        (RegionError.invalid_transfer
          ("object `" <> v <> "` is allocated in region `'" <> r <> "`, not `'" <> region <> "`")
          s.cur_span.line s.cur_span.col
          (related_to r ("`" <> v <> "` 分配于区域 `'" <> r <> "`（声明于此）") s.region_spans))
        s
transfer_from v region none s =
    push_error
      (RegionError.invalid_transfer ("object `" <> v <> "` is not allocated in any visible region")
        s.cur_span.line s.cur_span.col [])
      s

unfoldable pub check_transfer : String → String → RegionChecker → RegionChecker
check_transfer v region s =
    if not (region_in_scope s region)
    then push_error (not_found region s.cur_span) s
    else (if contains v s.transferred
        then push_error
            (RegionError.double_transfer v s.cur_span.line s.cur_span.col
              (related_to v "首次 transfer 位于此" s.transfer_spans))
            s
        else transfer_from v region (get v s.allocated) s)

-- The key of a region, and the counter after it.
unfoldable pub region_name : Option String → ℕ → String × ℕ
region_name (some n) counter = (n, counter)
region_name none counter = ("<anon@" <> decimal counter <> ">", suc counter)
