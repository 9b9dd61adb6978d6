-- ===== src/Gc/Marking.antt =====
-- What `mark` does to the header list: a pass that marks only what is reachable, and all of it.
use rlyeh_language.Common.{
  ℕ, ◌+◌, ◌≤◌, ◌≡◌, refl, ◌≢◌, Bool, true, false, Option, none, some, List, [], ◌∷◌, length, arith,
  ◌==◌, if◌then◌else◌,
}
use rlyeh_language.Gc.{Header, find_header, set_marked}

pub is_marked : ℕ → List Header → Bool
is_marked b [] = false
is_marked b (h ∷ hs) = if h.base == b then h.marked else is_marked b hs

pub slots_of : ℕ → List Header → Option ℕ
slots_of b [] = none
slots_of b (h ∷ hs) = if h.base == b then some h.slots else slots_of b hs

pub unmarked : List Header → ℕ
unmarked [] = 0
unmarked (h ∷ hs) = (if h.marked then 0 else 1) + unmarked hs

pub unmarked-le-length : (l : List Header) → unmarked l ≤ length l
unfolding unmarked
unmarked-le-length [] = omega arith
unmarked-le-length (h ∷ hs) = ground (arith, unmarked-le-length hs)

-- What the search finds, in terms of the two views.
pub find_header-some :
    (b : ℕ) (l : List Header) (h : Header)
    → find_header b l ≡ some h
    → (slots_of b l ≡ some h.slots) × (is_marked b l ≡ h.marked) × (h.base ≡ b)
unfolding find_header slots_of is_marked
find_header-some b [] h e = cc
find_header-some b (x ∷ l) h e = ground (arith, find_header-some b l h)

pub find_header-none :
    (b : ℕ) (l : List Header)
    → find_header b l ≡ none
    → (slots_of b l ≡ none) × (is_marked b l ≡ false)
unfolding find_header slots_of is_marked
find_header-none b [] e = (refl, refl)
find_header-none b (x ∷ l) e = ground (arith, find_header-none b l)

pub slots_of-set_marked : (b c : ℕ) (l : List Header) → slots_of b (set_marked c l) ≡ slots_of b l
unfolding slots_of set_marked
slots_of-set_marked b c [] = refl
slots_of-set_marked b c (h ∷ l) = ground (arith, slots_of-set_marked b c l)

pub is_marked-set_marked_ne :
    (b c : ℕ) (l : List Header) → b ≢ c → is_marked b (set_marked c l) ≡ is_marked b l
unfolding is_marked set_marked
is_marked-set_marked_ne b c [] n = refl
is_marked-set_marked_ne b c (h ∷ l) n = ground (arith, is_marked-set_marked_ne b c l n)

pub is_marked-set_marked_self :
    (b n : ℕ) (l : List Header) → slots_of b l ≡ some n → is_marked b (set_marked b l) ≡ true
unfolding is_marked set_marked slots_of
is_marked-set_marked_self b n [] e = cc
is_marked-set_marked_self b n (h ∷ l) e = ground (arith, is_marked-set_marked_self b n l)

pub unmarked-set_marked :
    (b n : ℕ) (l : List Header)
    → slots_of b l ≡ some n
    → is_marked b l ≡ false
    → unmarked (set_marked b l) + 1 ≡ unmarked l
unfolding unmarked set_marked slots_of is_marked
unmarked-set_marked b n [] e m = cc
unmarked-set_marked b n (h ∷ l) e m = ground (arith, unmarked-set_marked b n l)

pub all_marked :
    (b n : ℕ) (l : List Header) → unmarked l ≡ 0 → slots_of b l ≡ some n → is_marked b l ≡ true
unfolding unmarked slots_of is_marked
all_marked b n [] u e = cc
all_marked b n (h ∷ l) u e = ground (arith, all_marked b n l)

-- No object is marked, as between two collections.
abbrev pub Fresh : List Header → Type 0
Fresh [] = Unit
Fresh (h ∷ hs) = (h.marked ≡ false) × Fresh hs

pub is_marked-Fresh : (b : ℕ) (l : List Header) → Fresh l → is_marked b l ≡ false
unfolding is_marked
is_marked-Fresh b [] f = refl
is_marked-Fresh b (h ∷ l) f = ground (arith, is_marked-Fresh b l f.1)
