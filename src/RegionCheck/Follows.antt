-- ===== src/RegionCheck/Follows.antt =====
-- What a part of the walk does to the checker: the regions around it are as before, every object is
-- in one of them, an error stays, and without one the transfers made are those that the part writes.
use Prim.Native.String.{String}
use text.Mathlib.Text.{◌==◌ as str_eq}
use rlyeh_language.Common.{
  ◌≡◌, refl, sym, ap, ◌∙◌, inl, inr, true, some, List, [], ◌∷◌, ◌++◌, map, All, Bool-cases,
}
use rlyeh_language.Mir.Dce.{contains}
use rlyeh_language.Mir.Inline.Binding.{Distinct}
use rlyeh_language.Hir.{Span}
use rlyeh_language.RegionCheck.{
  RegionError, RegionChecker, without, insert, region_in_scope, push_error,
}
use rlyeh_language.RegionCheck.Transfers.{Site}
use rlyeh_language.RegionCheck.Checker.{at_span, place_in}

-- Sites before those that are there already, the latest first.
abbrev pub latest_first : List Site → List Site → List Site
latest_first [] acc = acc
latest_first (t ∷ ts) acc = latest_first ts (t ∷ acc)

pub latest_first-append :
    (ts us acc : List Site) → latest_first (ts ++ us) acc ≡ latest_first us (latest_first ts acc)
latest_first-append [] us acc = refl
latest_first-append (t ∷ ts) us acc = latest_first-append ts us (t ∷ acc)

abbrev pub made : RegionChecker → List Site
made s = map some s.transferred

-- Each object is in a visible region.
abbrev pub Owned : List String → List (String × String) → Type 0
Owned regions m = All (λ e. contains e.1 regions ≡ true) m

pub record Follows (ts : List Site) (s s' : RegionChecker) : Type 0 where
  pub active : s'.active_regions ≡ s.active_regions
  pub owned : Owned s.active_regions s.allocated → Owned s'.active_regions s'.allocated
  pub before : s'.errors ≡ [] → s.errors ≡ []
  pub exact : s'.errors ≡ [] → made s' ≡ latest_first ts (made s)
  pub distinct : Distinct s.transferred → Distinct s'.transferred

pub Follows-none : (s : RegionChecker) → Follows [] s s
Follows-none s = record {
  active = refl;
  owned = λ o. o;
  before = λ e. e;
  exact = λ e. refl;
  distinct = λ d. d;
}

pub Follows-span :
    (ts : List Site) (sp : Span) (s s' : RegionChecker)
    → Follows ts (at_span sp s) s'
    → Follows ts s s'
unfolding at_span
Follows-span ts sp s s' f = record {
  active = f.active;
  owned = f.owned;
  before = f.before;
  exact = f.exact;
  distinct = f.distinct;
}

pub Follows-append :
    (ts us : List Site) (s s' s'' : RegionChecker)
    → Follows ts s s'
    → Follows us s' s''
    → Follows (ts ++ us) s s''
Follows-append ts us s s' s'' f g = record {
  active = g.active ∙ f.active;
  owned = λ o. g.owned (f.owned o);
  before = λ e. f.before (g.before e);
  exact = λ e.
      g.exact e
      ∙ ap (latest_first us) (f.exact (g.before e))
      ∙ sym (latest_first-append ts us (made s));
  distinct = λ d. g.distinct (f.distinct d);
}

snoc-ne : (es : List RegionError) (e : RegionError) → (es ++ (e ∷ [])) ≡ [] → ⊥
snoc-ne [] e h = cc
snoc-ne (x ∷ es) e h = cc

-- After an error nothing is asked of the transfers.
pub Follows-error :
    (ts : List Site) (e : RegionError) (s : RegionChecker) → Follows ts s (push_error e s)
unfolding push_error
Follows-error ts e s = record {
  active = refl;
  owned = λ o. o;
  before = λ h. absurd (snoc-ne s.errors e h);
  exact = λ h. absurd (snoc-ne s.errors e h);
  distinct = λ d. d;
}

Owned-without :
    (regions : List String) (k : String) (m : List (String × String))
    → Owned regions m
    → Owned regions (without k m)
unfolding without
Owned-without regions k [] o = tt
Owned-without regions k ((j, r) ∷ m) o = elim (Bool-cases (str_eq j k)) [
  | inl e ↦ rw e (Owned-without regions k m o.1)
  | inr e ↦ rw e (o.0, Owned-without regions k m o.1)
]

pub placed-Follows :
    (x region : String) (s : RegionChecker)
    → region_in_scope s region ≡ true
    → Follows [] s (record s { allocated = insert x region s.allocated })
unfolding region_in_scope insert
placed-Follows x region s e = record {
  active = refl;
  owned = λ o. (e, Owned-without s.active_regions x s.allocated o);
  before = λ h. h;
  exact = λ h. refl;
  distinct = λ d. d;
}

pub place_in-Follows : (x region : String) (s : RegionChecker) → Follows [] s (place_in x region s)
unfolding place_in
place_in-Follows x region s = elim (Bool-cases (region_in_scope s region)) [
  | inr e ↦ rw e (Follows-none s)
  | inl e ↦ rw e (placed-Follows x region s e)
]
