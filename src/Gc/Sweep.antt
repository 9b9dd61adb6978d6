-- ===== src/Gc/Sweep.antt =====
-- What the sweep keeps, frees and promotes.
use rlyeh_language.Common.{
  ℕ, ◌+◌, ◌≡◌, refl, ◌∙◌, false, Option, none, some, List, [], ◌∷◌, arith, ◌==◌, if◌then◌else◌,
}
use rlyeh_language.Gc.Marking.{Fresh}
use rlyeh_language.Gc.{Header, Swept, find_header, alive, sweep_one, sweep}

-- No two headers describe one address.
abbrev pub Distinct : List Header → Type 0
Distinct [] = Unit
Distinct (h ∷ hs) = (find_header h.base hs ≡ none) × Distinct hs

abbrev pub unmark : Header → Header
unmark h = record h { marked = false }

abbrev pub pick : ℕ → Option Header → Option Header → Option Header
pick epoch none kept = kept
pick epoch (some h) kept = if alive epoch h then some (unmark h) else kept

find-sweep_one :
    (epoch b : ℕ) (h : Header) (l : List Header) (s : Swept)
    → find_header h.base l ≡ none
    → pick epoch (find_header b l) (find_header b (sweep_one epoch h s).keep)
      ≡ pick epoch (find_header b (h ∷ l)) (find_header b s.keep)
unfolding sweep_one find_header
find-sweep_one epoch b h l s d = ground arith

pub find-sweep :
    (epoch b : ℕ) (l : List Header) (s : Swept)
    → Distinct l
    → find_header b (sweep epoch l s).keep ≡ pick epoch (find_header b l) (find_header b s.keep)
unfolding sweep find_header
find-sweep epoch b [] s d = refl
find-sweep epoch b (h ∷ l) s d =
    find-sweep epoch b l (sweep_one epoch h s) d.1 ∙ find-sweep_one epoch b h l s d.0

abbrev pub bases : List Header → List ℕ
bases [] = []
bases (h ∷ hs) = h.base ∷ bases hs

-- The survivors are the new roots, in the same order.
pub new_roots-sweep :
    (epoch : ℕ) (l : List Header) (s : Swept)
    → s.new_roots ≡ bases s.keep
    → (sweep epoch l s).new_roots ≡ bases (sweep epoch l s).keep
unfolding sweep
new_roots-sweep epoch [] s e = e
new_roots-sweep epoch (h ∷ l) s e =
    new_roots-sweep epoch l (sweep_one epoch h s) (unfold sweep_one in ground arith)

-- Nothing that is kept stays marked.
pub sweep-Fresh :
    (epoch : ℕ) (l : List Header) (s : Swept) → Fresh s.keep → Fresh (sweep epoch l s).keep
unfolding sweep
sweep-Fresh epoch [] s e = e
sweep-Fresh epoch (h ∷ l) s e =
    sweep-Fresh epoch l (sweep_one epoch h s) (unfold sweep_one in ground arith)

-- No address is in both lists.
abbrev Disjoint : List Header → List Header → Type 0
Disjoint [] k = Unit
Disjoint (h ∷ hs) k = (find_header h.base k ≡ none) × Disjoint hs k

find_header-sym :
    (h : Header) (a : Header) (k : List Header)
    → find_header h.base (a ∷ k) ≡ none
    → find_header h.base k ≡ none
unfolding find_header
find_header-sym h a k e = ground arith

Disjoint-cons :
    (h : Header) (l k : List Header)
    → find_header h.base l ≡ none
    → Disjoint l k
    → Disjoint l (unmark h ∷ k)
unfolding find_header
Disjoint-cons h [] k e d = tt
Disjoint-cons h (x ∷ l) k e d = (ground arith, Disjoint-cons h l k (find_header-sym h x l e) d.1)

pub sweep-Distinct :
    (epoch : ℕ) (l : List Header) (s : Swept)
    → Distinct l
    → Distinct s.keep
    → Disjoint l s.keep
    → Distinct (sweep epoch l s).keep
unfolding sweep
sweep-Distinct epoch [] s d k e = k
sweep-Distinct epoch (h ∷ l) s d k e =
    sweep-Distinct epoch l (sweep_one epoch h s) d.1 (unfold sweep_one in ground arith)
      (unfold sweep_one in ground (arith, Disjoint-cons h l s.keep d.0 e.1))

pub Disjoint-nil : (l : List Header) → Disjoint l []
unfolding find_header
Disjoint-nil [] = tt
Disjoint-nil (h ∷ l) = (refl, Disjoint-nil l)

-- How often an address is in a list.
abbrev pub count : ℕ → List ℕ → ℕ
count b [] = 0
count b (x ∷ xs) = (if x == b then 1 else 0) + count b xs

-- Every object is kept or freed, and not twice.
pub count-sweep :
    (epoch b : ℕ) (l : List Header) (s : Swept)
    → count b (bases (sweep epoch l s).keep) + count b (sweep epoch l s).freed
      ≡ count b (bases l) + count b (bases s.keep) + count b s.freed
unfolding sweep
count-sweep epoch b [] s = omega arith
count-sweep epoch b (h ∷ l) s =
    count-sweep epoch b l (sweep_one epoch h s) ∙ (unfold sweep_one in ground arith)
