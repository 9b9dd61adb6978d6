-- ===== src/RegionCheck/Accepted.antt =====
-- The steps of the checker that look at a region, one rule each; when a transfer is accepted.
pub mod Walk
pub mod Programs
use Prim.Native.String.{String}
use text.Mathlib.Text.{◌==◌ as str_eq}
use text.Mathlib.TextEquality.{eq_iff}
use rlyeh_language.Common.{
  ◌≡◌, refl, sym, ap, subst, ◌∙◌, ◌↔◌, ◌⊎◌, inl, inr, Bool, true, false, not, ◌||◌, Option, none,
  some, List, [], ◌∷◌, ◌++◌, if◌then◌else◌, arith, All, Bool-cases, Option-cases,
}
use rlyeh_language.Mir.Dce.{contains}
use rlyeh_language.Mir.Inline.Binding.{Distinct}
use rlyeh_language.Hir.{Span, HirExpr, HirExprKind}
use rlyeh_language.RegionCheck.{
  RegionError, RegionChecker, get, or_insert, insert, leave_region, region_in_scope, push_error,
  not_found, related_to, is_innermost, transfer_allocated, transfer_from, check_transfer,
  region_name,
}
use rlyeh_language.RegionCheck.Transfers.{Site, site}
use rlyeh_language.RegionCheck.Checker.{
  note_let, note_in_region, note_transfer, enter_region, tail, exit_region, name_region, place_in,
}
use rlyeh_language.RegionCheck.Follows.{
  Owned, Follows, Follows-none, Follows-error, placed-Follows, place_in-Follows,
}

transfer_allocated-Follows :
    (v region : String) (s : RegionChecker)
    → contains v s.transferred ≡ false
    → Follows (some v ∷ []) s (transfer_allocated v region s)
unfolding transfer_allocated
transfer_allocated-Follows v region s new =
    elim (Bool-cases (is_innermost region s.active_regions)) [
      | inr e ↦ rw e (Follows-error (some v ∷ []) _ s)
      | inl e ↦ rw e (record {
        active = refl;
        owned = λ o. o;
        before = λ h. h;
        exact = λ h. refl;
        distinct = λ d. (new, d);
      })
    ]

transfer_from-Follows :
    (v region : String) (o : Option String) (s : RegionChecker)
    → contains v s.transferred ≡ false
    → Follows (some v ∷ []) s (transfer_from v region o s)
unfolding transfer_from
transfer_from-Follows v region none s new = Follows-error (some v ∷ []) _ s
transfer_from-Follows v region (some r) s new = elim (Bool-cases (str_eq r region)) [
  | inr e ↦ rw e (Follows-error (some v ∷ []) _ s)
  | inl e ↦ rw e (transfer_allocated-Follows v region s new)
]

check_transfer-Follows :
    (v region : String) (s : RegionChecker) → Follows (some v ∷ []) s (check_transfer v region s)
unfolding check_transfer
check_transfer-Follows v region s = elim (Bool-cases (region_in_scope s region)) [
  | inr e ↦ rw e (Follows-error (some v ∷ []) _ s)
  | inl e ↦ elim (Bool-cases (contains v s.transferred)) [
    | inl old ↦ rw (e, old) (Follows-error (some v ∷ []) _ s)
    | inr new ↦ rw (e, new) (transfer_from-Follows v region (get v s.allocated) s new)
  ]
]

pub note_transfer-Follows :
    (e : HirExpr) (region : String) (s : RegionChecker)
    → Follows (site e ∷ []) s (note_transfer e region s)
unfolding note_transfer
note_transfer-Follows (HirExpr.expr (HirExprKind.variable v) sp) region s =
    check_transfer-Follows v region s
note_transfer-Follows (HirExpr.expr _ sp) region s = Follows-error _ _ s

pub note_let-Follows :
    (name : String) (init : HirExpr) (s : RegionChecker) → Follows [] s (note_let name init s)
unfolding note_let
note_let-Follows name (HirExpr.expr (HirExprKind.in_region e region size) sp) s =
    place_in-Follows name region s
note_let-Follows name (HirExpr.expr _ sp) s = Follows-none s

visible-Follows :
    (region : String) (s t : RegionChecker)
    → Follows [] s t
    → Follows [] s
        (if region_in_scope s region then t else push_error (not_found region s.cur_span) s)
visible-Follows region s t f = elim (Bool-cases (region_in_scope s region)) [
  | inl e ↦ rw e f
  | inr e ↦ rw e (Follows-error [] _ s)
]

pub note_in_region-Follows :
    (e : HirExpr) (region : String) (s : RegionChecker) → Follows [] s (note_in_region e region s)
unfolding note_in_region place_in
note_in_region-Follows (HirExpr.expr (HirExprKind.variable v) sp) region s =
    elim (Bool-cases (region_in_scope s region)) [
      | inl e ↦ rw e (placed-Follows v region s e)
      | inr e ↦ rw e (Follows-error [] _ s)
    ]
note_in_region-Follows (HirExpr.expr _ sp) region s = visible-Follows region s s (Follows-none s)

Owned-weaken :
    (key : String) (regions : List String) (m : List (String × String))
    → Owned regions m
    → Owned (key ∷ regions) m
unfolding contains
Owned-weaken key regions [] o = tt
Owned-weaken key regions ((v, r) ∷ m) o = (ground (arith, o.0), Owned-weaken key regions m o.1)

kept_region :
    (key r : String) (regions : List String)
    → str_eq r key ≡ false
    → contains r (key ∷ regions) ≡ true
    → contains r regions ≡ true
unfolding contains
kept_region key r regions e h = elim (Bool-cases (str_eq key r)) [
  | inr n ↦ ground arith
  | inl y ↦
      let back : str_eq r key ≡ true = (eq_iff r key).1 (sym ((eq_iff key r).0 y)) in absurd cc
]

Owned-leave_region :
    (key : String) (regions : List String) (m : List (String × String))
    → Owned (key ∷ regions) m
    → Owned regions (leave_region key m)
unfolding contains leave_region
Owned-leave_region key regions [] o = tt
Owned-leave_region key regions ((v, r) ∷ m) o = elim (Bool-cases (str_eq r key)) [
  | inl e ↦ rw e (Owned-leave_region key regions m o.1)
  | inr e ↦ rw e (kept_region key r regions e o.0, Owned-leave_region key regions m o.1)
]

pub Follows-region :
    (ts : List Site) (name : Option String) (sp : Span) (s s' : RegionChecker)
    → (let (key, t) = name_region name s in Follows ts (enter_region key sp t) s')
    → Follows ts s (exit_region (name_region name s).0 s')
unfolding name_region enter_region exit_region
Follows-region ts name sp s s' f =
    let key = (region_name name s.anon_counter).0 in
    let same : tail s'.active_regions ≡ s.active_regions = ap tail f.active in
    record {
      active = same;
      owned = λ o.
          let inside : Owned (key ∷ s.active_regions) s'.allocated =
            subst (λ a. Owned a s'.allocated) f.active
              (f.owned (Owned-weaken key s.active_regions s.allocated o)) in
          subst (λ a. Owned a (leave_region key s'.allocated)) (sym same)
            (Owned-leave_region key s.active_regions s'.allocated inside);
      before = f.before;
      exact = f.exact;
      distinct = f.distinct;
    }
