-- ===== src/Gc/Collect.antt =====
-- What a collection keeps and frees, and the invariant of the collector's state.
use rlyeh_language.Common.{
  ℕ, zero, suc, ◌+◌, ◌<◌, ◌≡◌, refl, sym, ap, subst, ◌∙◌, ◌⊎◌, inl, inr, ◌↔◌, true, Option, none,
  some, List, [], ◌∷◌, length, arith, Bool-cases, Option-cases,
}
use rlyeh_language.Gc.{
  Header, GcState, Memory, find_header, set_marked, visit_slot, scan, mark_found, mark, mark_roots,
  marked_list, nothing_swept, collect,
}
use rlyeh_language.Gc.Marking.{
  Fresh, is_marked-Fresh, is_marked, slots_of, unmarked-le-length, find_header-some,
}
use rlyeh_language.Gc.Traversal.{Rooted, is_marked-mark_roots}
use rlyeh_language.Gc.Sweep.{
  Distinct, unmark, pick, find-sweep, sweep-Fresh, sweep-Distinct, Disjoint-nil, bases,
  new_roots-sweep,
}

-- Marking changes nothing but the marks.
strip : List Header → List Header
strip [] = []
strip (h ∷ hs) = unmark h ∷ strip hs

abbrev KeepsHeaders : (ℕ → List Header → List Header) → Type 0
KeepsHeaders visit = (c : ℕ) (l : List Header) → strip (visit c l) ≡ strip l

strip-set_marked : (b : ℕ) (l : List Header) → strip (set_marked b l) ≡ strip l
unfolding strip set_marked
strip-set_marked b [] = refl
strip-set_marked b (h ∷ l) = ground (arith, strip-set_marked b l)

strip-visit_slot :
    (visit : ℕ → List Header → List Header) (v : ℕ) (l : List Header)
    → KeepsHeaders visit
    → strip (visit_slot visit v l) ≡ strip l
unfolding visit_slot
strip-visit_slot visit v l k = ground (arith, k v l)

strip-scan :
    (visit : ℕ → List Header → List Header) (mem : Memory) (base n i : ℕ) (l : List Header)
    → KeepsHeaders visit
    → strip (scan visit mem base n i l) ≡ strip l
unfolding scan
strip-scan visit mem base zero i l k = refl
strip-scan visit mem base (suc n) i l k =
    strip-scan visit mem base n (i + 1) _ k ∙ strip-visit_slot visit _ l k

strip-mark_found :
    (visit : ℕ → List Header → List Header) (mem : Memory) (b : ℕ) (o : Option Header)
    (l : List Header)
    → KeepsHeaders visit
    → strip (mark_found visit mem b o l) ≡ strip l
unfolding mark_found
strip-mark_found visit mem b none l k = refl
strip-mark_found visit mem b (some h) l k =
    ground (arith, strip-scan visit mem b h.slots 0 (set_marked b l) k, strip-set_marked b l)

strip-mark : (fuel : ℕ) (mem : Memory) → KeepsHeaders (mark fuel mem)
unfolding mark
strip-mark zero mem c l = refl
strip-mark (suc fuel) mem c l =
    strip-mark_found (mark fuel mem) mem c (find_header c l) l (strip-mark fuel mem)

strip-mark_roots :
    (fuel : ℕ) (mem : Memory) (rs : List ℕ) (l : List Header)
    → strip (mark_roots fuel mem rs l) ≡ strip l
unfolding mark_roots
strip-mark_roots fuel mem [] l = refl
strip-mark_roots fuel mem (r ∷ rs) l =
    strip-mark_roots fuel mem rs (mark fuel mem r l) ∙ strip-mark fuel mem r l

find-strip-none :
    (b : ℕ) (l : List Header) → (find_header b (strip l) ≡ none) ↔ (find_header b l ≡ none)
unfolding strip find_header
find-strip-none b [] = (λ e. e, λ e. e)
find-strip-none b (h ∷ l) =
    let rec = find-strip-none b l in (λ e. ground (arith, rec.0), λ e. ground (arith, rec.1))

find-strip-some :
    (b : ℕ) (l : List Header) (h : Header)
    → find_header b l ≡ some h
    → find_header b (strip l) ≡ some (unmark h)
unfolding strip find_header
find-strip-some b [] h e = cc
find-strip-some b (x ∷ l) h e = ground (arith, find-strip-some b l h)

strip-Fresh : (l : List Header) → Fresh l → strip l ≡ l
unfolding strip
strip-Fresh [] f = refl
strip-Fresh (h ∷ l) f = ground (arith, strip-Fresh l f.1)

Distinct-strip : (l : List Header) → Distinct (strip l) ↔ Distinct l
unfolding strip
Distinct-strip [] = (λ d. d, λ d. d)
Distinct-strip (h ∷ l) =
    let rest = Distinct-strip l in
    let head = find-strip-none h.base l in
    (λ d. (head.0 d.0, rest.0 d.1), λ d. (head.1 d.0, rest.1 d.1))

pub record Inv (st : GcState) : Type 0 where
  pub distinct : Distinct st.list
  pub fresh : Fresh st.list

-- The objects that the roots reach through the words of `mem`.
abbrev pub Live : Memory → GcState → ℕ → Type 0
Live mem st b = Rooted mem (λ a. slots_of a st.list) st.roots b

module _ (mem : Memory) (st : GcState) (v : Inv st) where
  strip-marked_list : strip (marked_list mem st) ≡ st.list
  unfolding marked_list
  strip-marked_list = strip-mark_roots _ mem st.roots st.list ∙ strip-Fresh st.list v.fresh

  marked_list-Distinct : Distinct (marked_list mem st)
  marked_list-Distinct =
      (Distinct-strip (marked_list mem st)).0 (subst Distinct (sym strip-marked_list) v.distinct)

  marked_list-Live :
      (b : ℕ) (h : Header)
      → find_header b st.list ≡ some h
      → (is_marked b (marked_list mem st) ≡ true) ↔ Live mem st b
  unfolding marked_list
  marked_list-Live b h e =
      is_marked-mark_roots mem (λ a. slots_of a st.list) (length st.list) st.roots st.list b h.slots
        (λ c. refl) (unmarked-le-length st.list) (λ c. is_marked-Fresh c st.list v.fresh)
        (find_header-some b st.list h e).0

  find-collect :
      (b : ℕ)
      → find_header b (collect mem st).0.list
        ≡ pick st.epoch (find_header b (marked_list mem st)) none
  unfolding collect find_header
  find-collect b = find-sweep st.epoch b (marked_list mem st) nothing_swept marked_list-Distinct

  find-unmarked :
      (b : ℕ) (k : Header)
      → find_header b (marked_list mem st) ≡ some k
      → find_header b st.list ≡ some (unmark k)
  find-unmarked b k f =
      subst (λ l. find_header b l ≡ some (unmark k)) strip-marked_list
        (find-strip-some b (marked_list mem st) k f)

  find-missing : (b : ℕ) → find_header b (marked_list mem st) ≡ none → find_header b st.list ≡ none
  find-missing b f =
      subst (λ l. find_header b l ≡ none) strip-marked_list
        ((find-strip-none b (marked_list mem st)).1 f)

  -- The header that the marking has left for an object, in the two directions of the claim below.
  kept_from :
      (b : ℕ) (h k : Header)
      → find_header b (marked_list mem st) ≡ some k
      → pick st.epoch (some k) none ≡ some h
      → (find_header b st.list ≡ some h) × ((h.epoch < st.epoch) ⊎ Live mem st b)
  kept_from b h k f p = elim (Bool-cases k.marked) [
    | inl m ↦ (same, inr ((marked_list-Live b h same).0 (marked m)))
    | inr m ↦ (same, inl (ground arith))
  ]
    where
      same : find_header b st.list ≡ some h
      same = find-unmarked b k f ∙ ground arith

      marked : k.marked ≡ true → is_marked b (marked_list mem st) ≡ true
      marked m = (find_header-some b (marked_list mem st) k f).1 ∙ m

  kept_to :
      (b : ℕ) (h k : Header)
      → find_header b (marked_list mem st) ≡ some k
      → find_header b st.list ≡ some h
      → (h.epoch < st.epoch) ⊎ Live mem st b
      → pick st.epoch (some k) none ≡ some h
  kept_to b h k f e (inl older) = ground (arith, find-unmarked b k f)
  kept_to b h k f e (inr live) = ground (
    arith,
    find-unmarked b k f,
    (marked_list-Live b h e).1 live,
    (find_header-some b (marked_list mem st) k f).1,
  )

  -- For a state in which no address is registered twice and no mark is set: an object is
  -- registered after a collection exactly when it was and is from an outer block or reached
  -- from a root; it is then unchanged.
  pub collect_keeps :
      (b : ℕ) (h : Header)
      → (find_header b (collect mem st).0.list ≡ some h)
        ↔ ((find_header b st.list ≡ some h) × ((h.epoch < st.epoch) ⊎ Live mem st b))
  collect_keeps b h = elim (Option-cases (find_header b (marked_list mem st))) [
    | inl f ↦ (λ p. ground (arith, find-collect b), λ q. ground (arith, q.0, find-missing b f))
    | inr (k, f) ↦ (
      λ p. kept_from b h k f (ap (λ o. pick st.epoch o none) (sym f) ∙ sym (find-collect b) ∙ p),
      λ q. find-collect b ∙ ap (λ o. pick st.epoch o none) f ∙ kept_to b h k f q.0 q.1,
    )
  ]

pub collect-Inv : (mem : Memory) (st : GcState) → Inv st → Inv (collect mem st).0
unfolding collect
collect-Inv mem st v = record {
  distinct =
      sweep-Distinct st.epoch (marked_list mem st) nothing_swept (marked_list-Distinct mem st v) tt
        (Disjoint-nil (marked_list mem st));
  fresh = sweep-Fresh st.epoch (marked_list mem st) nothing_swept tt;
}

-- After a collection the roots are the survivors.
pub roots-collect :
    (mem : Memory) (st : GcState) → (collect mem st).0.roots ≡ bases (collect mem st).0.list
unfolding collect
roots-collect mem st = new_roots-sweep st.epoch (marked_list mem st) nothing_swept refl

bases-strip : (l : List Header) → bases (strip l) ≡ bases l
unfolding strip
bases-strip [] = refl
bases-strip (h ∷ l) = ap (◌∷◌ h.base) (bases-strip l)

pub bases-marked_list :
    (mem : Memory) (st : GcState) → Inv st → bases (marked_list mem st) ≡ bases st.list
bases-marked_list mem st v =
    sym (bases-strip (marked_list mem st)) ∙ ap bases (strip-marked_list mem st v)
