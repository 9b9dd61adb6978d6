-- ===== src/RegionCheck/Accepted/Programs.antt =====
-- What the checker promises of a program that passes, and of each transfer.
use Prim.Native.String.{String}
use text.Mathlib.Text.{◌==◌ as str_eq}
use text.Mathlib.TextEquality.{eq_iff}
use rlyeh_language.Common.{
  ap, ◌∙◌, true, false, ◌≡◌, refl, sym, ap, subst, ◌⊎◌, inl, inr, true, false, Option, none, some,
  List, [], ◌∷◌, map, Bool-cases, arith,
}
use rlyeh_language.Mir.Dce.{contains}
use rlyeh_language.Mir.Inline.Binding.{Distinct}
use rlyeh_language.Hir.{Span, HirBlock, HirItemKind, HirItem, HirProgram}
use rlyeh_language.RegionCheck.{
  RegionError, RegionChecker, new, get, or_insert, region_in_scope, push_error, is_innermost,
  transfer_allocated, transfer_from, check_transfer,
}
use rlyeh_language.RegionCheck.Transfers.{transfers_body, transfers_item, transfers_items}
use rlyeh_language.RegionCheck.Checker.{
  check_body, check_item, check_items, passed, check_program, at_span,
}
use rlyeh_language.RegionCheck.Follows.{Owned, Follows, Follows-none, Follows-span, latest_first}
use rlyeh_language.RegionCheck.Accepted.Walk.{walk, check_block-Follows}

check_body-Follows :
    (o : Option HirBlock) (sp : Span) (s : RegionChecker)
    → Follows (transfers_body false o) s (check_body o sp s)
unfolding check_body
check_body-Follows none sp s = Follows-none s
check_body-Follows (some b) sp s = Follows-span _ sp s _ (check_block-Follows b (at_span sp s))

check_item-Follows :
    (k : HirItemKind) (sp : Span) (s : RegionChecker)
    → Follows (transfers_item false k) s (check_item k sp s)
unfolding check_item
check_item-Follows (HirItemKind.fn f) sp s = check_body-Follows f.body sp s
check_item-Follows (HirItemKind.constant c) sp s = Follows-none s

check_items-Follows :
    (items : List HirItem) (s : RegionChecker)
    → Follows (transfers_items false items) s (check_items items s)
unfolding check_items
check_items-Follows [] s = Follows-none s
check_items-Follows (item ∷ items) s =
    walk (check_item-Follows item.kind item.span s) (check_items-Follows items _)

passed-errors :
    (p : HirProgram) (s : RegionChecker)
    → (check_program p s).0 ≡ passed
    → (check_items p.items s).errors ≡ []
unfolding check_program
passed-errors p s h = ground (arith, h)

-- The checker visits each place of the program in which a transfer stands.
abbrev pub VisitsTransfers : HirProgram → Type 0
VisitsTransfers p = transfers_items true p.items ≡ transfers_items false p.items

-- Where a new checker passes a program, in which no transfer stands among the members of a set, in
-- the length of an index or in the value of a constant: every transfer of the program is of a
-- variable, and no variable name is transferred twice in the text, all functions taken together.
pub passed-transfers :
    (p : HirProgram)
    → VisitsTransfers p
    → (check_program p new).0 ≡ passed
    → (vars : List String) × (latest_first (transfers_items true p.items) [] ≡ map some vars)
      × Distinct vars
passed-transfers p visits h =
    let f = check_items-Follows p.items new in
    (
      (check_items p.items new).transferred,
      ap (λ l. latest_first l []) visits ∙ sym (f.exact (passed-errors p new h)),
      f.distinct tt,
    )

Owned-closed : (m : List (String × String)) → Owned [] m → m ≡ []
unfolding contains
Owned-closed [] o = refl
Owned-closed (e ∷ m) o = absurd (ground (arith, o.0))

-- After any functions, passed or refused, no region of a new checker is open and no object is taken
-- to be in one.
pub check_items-closed :
    (items : List HirItem)
    → ((check_items items new).active_regions ≡ []) × ((check_items items new).allocated ≡ [])
check_items-closed items =
    let f = check_items-Follows items new in
    (
      f.active,
      Owned-closed _ (subst (λ a. Owned a (check_items items new).allocated) f.active (f.owned tt)),
    )

-- What a transfer asks: the region is visible and the innermost one, and the variable is in it and
-- was not transferred.
abbrev pub IsAllowed : RegionChecker → String → String → Type 0
IsAllowed s v region =
    (region_in_scope s region ≡ true)
    × (contains v s.transferred ≡ false)
    × (get v s.allocated ≡ some region)
    × (is_innermost region s.active_regions ≡ true)

transfer_from-IsAllowed :
    (s : RegionChecker) (v region : String) (o : Option String)
    → ((o ≡ some region)
        × (is_innermost region s.active_regions ≡ true)
        × (transfer_from v region o s ≡ record s {
          transferred = v ∷ s.transferred;
          transfer_spans = or_insert v s.cur_span s.transfer_spans;
        }))
      ⊎ ((((o ≡ some region) × (is_innermost region s.active_regions ≡ true)) → ⊥)
          × ((e : RegionError) × (transfer_from v region o s ≡ push_error e s)))
unfolding transfer_from transfer_allocated
transfer_from-IsAllowed s v region none = inr (λ h. cc, (_, refl))
transfer_from-IsAllowed s v region (some r) = elim (Bool-cases (str_eq r region)) [
  | inr n ↦ inr (λ h. absurd (ground (arith, h.0, (eq_iff r region).1)), rw n (_, refl))
  | inl y ↦ elim (Bool-cases (is_innermost region s.active_regions)) [
    | inl i ↦ inl (ap some ((eq_iff r region).0 y), i, rw (y, i) refl)
    | inr n ↦ inr (λ h. cc, rw (y, n) (_, refl))
  ]
]

-- A transfer is recorded if the region is visible and the innermost one, and the variable is in it
-- and was not transferred; else the state gets one error and is unchanged otherwise.
pub check_transfer-IsAllowed :
    (s : RegionChecker) (v region : String)
    → (IsAllowed s v region
        × (check_transfer v region s ≡ record s {
          transferred = v ∷ s.transferred;
          transfer_spans = or_insert v s.cur_span s.transfer_spans;
        }))
      ⊎ ((IsAllowed s v region → ⊥)
          × ((e : RegionError) × (check_transfer v region s ≡ push_error e s)))
unfolding check_transfer
check_transfer-IsAllowed s v region = elim (Bool-cases (region_in_scope s region)) [
  | inr n ↦ inr (λ h. cc, rw n (_, refl))
  | inl y ↦ elim (Bool-cases (contains v s.transferred)) [
    | inl old ↦ inr (λ h. cc, rw (y, old) (_, refl))
    | inr fresh ↦ elim (transfer_from-IsAllowed s v region (get v s.allocated)) [
      | inl (at, top, e) ↦ inl ((y, fresh, at, top), rw (y, fresh) e)
      | inr (forbidden, (e, q)) ↦ inr (λ h. forbidden (h.2, h.3), (e, rw (y, fresh) q))
    ]
  ]
]
