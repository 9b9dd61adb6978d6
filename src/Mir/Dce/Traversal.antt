-- ===== src/Mir/Dce/Traversal.antt =====
-- The traversal ends within its fuel, without a panic, at a set of blocks that holds the entry and
-- is closed under successors.
use rlyeh_language.Common.{
  ℕ, zero, suc, ◌+◌, ◌≤◌, ◌<◌, ◌≡◌, refl, sym, ap, subst, ◌∙◌, ◌⊎◌, inl, inr, Bool, true, false,
  Option, some, List, [], ◌∷◌, arith, length, get_elem?, set, replicate, length-set,
  length-replicate, get_elem?-lt, get_elem?-some, get_elem?-set_self, get_elem?-set_ne, All,
  Bool-cases, ◌==◌,
}
use rlyeh_language.Mir.{BasicBlock}
use rlyeh_language.Mir.Dce.{successors, visit_one, visit, traverse}

abbrev pub IsMarked : List Bool → ℕ → Type 0
IsMarked r i = get_elem? r i ≡ some true

pub unmarked : List Bool → ℕ
unmarked [] = 0
unmarked (true ∷ r) = unmarked r
unmarked (false ∷ r) = suc (unmarked r)

unmarked-set :
    (r : List Bool) (i : ℕ) → get_elem? r i ≡ some false → unmarked (set r i true) + 1 ≡ unmarked r
unfolding unmarked
unmarked-set [] i e = cc
unmarked-set (true ∷ r) zero e = cc
unmarked-set (false ∷ r) zero e = omega arith
unmarked-set (true ∷ r) (suc i) e = unmarked-set r i e
unmarked-set (false ∷ r) (suc i) e = omega (arith, unmarked-set r i e)

abbrev pub In : ℕ → List ℕ → Type 0
In i [] = ⊥
In i (x ∷ xs) = (x ≡ i) ⊎ In i xs

-- What marking some successors does.
pub record Grows (ts : List ℕ) (r : List Bool) (st : List ℕ) (r' : List Bool) (st' : List ℕ)
    : Type 0 where
  pub size : length r' ≡ length r
  pub keeps : (i : ℕ) → IsMarked r i → IsMarked r' i
  pub stays : (i : ℕ) → In i st → In i st'
  pub new : (i : ℕ) → IsMarked r' i → IsMarked r i ⊎ In i st'
  pub origin : (i : ℕ) → In i st' → In i st ⊎ IsMarked r' i
  pub all : (i : ℕ) → In i ts → IsMarked r' i
  pub count : unmarked r' + length st' ≡ unmarked r + length st

Grows-refl : (r : List Bool) (st : List ℕ) → Grows [] r st r st
Grows-refl r st = record {
  size = refl;
  keeps = λ i h. h;
  stays = λ i h. h;
  new = λ i h. inl h;
  origin = λ i h. inl h;
  all = λ i h. absurd h;
  count = refl;
}

Grows-old : (t : ℕ) (r : List Bool) (st : List ℕ) → IsMarked r t → Grows (t ∷ []) r st r st
Grows-old t r st m = record {
  size = refl;
  keeps = λ i h. h;
  stays = λ i h. h;
  new = λ i h. inl h;
  origin = λ i h. inl h;
  all = λ i h. ground arith;
  count = refl;
}

Grows-new :
    (t : ℕ) (r : List Bool) (st : List ℕ)
    → get_elem? r t ≡ some false
    → Grows (t ∷ []) r st (set r t true) (t ∷ st)
Grows-new t r st e = record {
  size = length-set r t true;
  keeps = λ i h. elim (Bool-cases (t == i)) [
    | inl same ↦ ground (arith, here)
    | inr other ↦ get_elem?-set_ne r t i true (ground arith) ∙ h
  ];
  stays = λ i h. inr h;
  new = λ i h. elim (Bool-cases (t == i)) [
    | inl same ↦ inr (inl (ground arith))
    | inr other ↦ inl (sym (get_elem?-set_ne r t i true (ground arith)) ∙ h)
  ];
  origin = λ i h. ground (arith, here);
  all = λ i h. ground (arith, here);
  count = omega (arith, unmarked-set r t e);
}
  where
    here : IsMarked (set r t true) t
    here = get_elem?-set_self r t true (get_elem?-lt r t false e)

Grows-trans :
    (t : ℕ) (ts : List ℕ) (r s u : List Bool) (a b c : List ℕ)
    → Grows (t ∷ []) r a s b
    → Grows ts s b u c
    → Grows (t ∷ ts) r a u c
Grows-trans t ts r s u a b c p q = record {
  size = q.size ∙ p.size;
  keeps = λ i h. q.keeps i (p.keeps i h);
  stays = λ i h. q.stays i (p.stays i h);
  new = λ i h. either i (q.new i h);
  origin = λ i h. source i (q.origin i h);
  all = λ i h. each i h;
  count = q.count ∙ p.count;
}
  where
    either : (i : ℕ) → IsMarked s i ⊎ In i c → IsMarked r i ⊎ In i c
    either i (inr m) = inr m
    either i (inl m) = elim (p.new i m) [ inl o ↦ inl o | inr k ↦ inr (q.stays i k) ]

    source : (i : ℕ) → In i b ⊎ IsMarked u i → In i a ⊎ IsMarked u i
    source i (inr m) = inr m
    source i (inl k) = elim (p.origin i k) [ inl o ↦ inl o | inr m ↦ inr (q.keeps i m) ]

    each : (i : ℕ) → (t ≡ i) ⊎ In i ts → IsMarked u i
    each i (inl e) = q.keeps i (p.all i (inl e))
    each i (inr k) = q.all i k

abbrev Visited : List ℕ → List Bool → List ℕ → Option (List Bool × List ℕ) → Type 0
Visited ts r st o = (r' : List Bool) × (st' : List ℕ) × (o ≡ some (r', st')) × Grows ts r st r' st'

visit_one-Visited :
    (t : ℕ) (r : List Bool) (st : List ℕ)
    → t < length r
    → Visited (t ∷ []) r st (visit_one t (r, st))
unfolding visit_one
visit_one-Visited t r st h = found (get_elem?-some r t h)
  where
    found : (b : Bool) × (get_elem? r t ≡ some b) → Visited (t ∷ []) r st (visit_one t (r, st))
    found (true, e) = (r, st, rw (e, visit_one) refl, Grows-old t r st e)
    found (false, e) = (set r t true, t ∷ st, rw (e, visit_one) refl, Grows-new t r st e)

visit-Visited :
    (ts : List ℕ) (r : List Bool) (st : List ℕ)
    → All (λ t. t < length r) ts
    → Visited ts r st (visit ts (r, st))
unfolding visit
visit-Visited [] r st h = (r, st, refl, Grows-refl r st)
visit-Visited (t ∷ ts) r st h =
    let (s, b, e, p) = visit_one-Visited t r st h.0 in
    let (u, c, f, q) = visit-Visited ts s b (subst (λ n. All (λ t. t < n) ts) (sym p.size) h.1) in
    (u, c, rw e f, Grows-trans t ts r s u st b c p q)

-- Every jump is to a block of the function.
abbrev pub InRange : ℕ → List BasicBlock → Type 0
InRange n [] = Unit
InRange n (b ∷ bs) = All (λ t. t < n) (successors b) × InRange n bs

pub InRange-block :
    (n : ℕ) (bs : List BasicBlock) (i : ℕ) (b : BasicBlock)
    → InRange n bs
    → get_elem? bs i ≡ some b
    → All (λ t. t < n) (successors b)
InRange-block n [] i b h e = cc
InRange-block n (x ∷ bs) zero b h e =
    subst (λ o. All (λ t. t < n) (successors o)) {x = x} {y = b} (ground arith) h.0
InRange-block n (x ∷ bs) (suc i) b h e = InRange-block n bs i b h.1 e

module _ (blocks : List BasicBlock) (inside : InRange (length blocks) blocks) where
  -- The marked blocks that are off the stack have their successors marked.
  record Inv (r : List Bool) (st : List ℕ) : Type 0 where
    size : length r ≡ length blocks
    waiting : (i : ℕ) → In i st → IsMarked r i
    closed :
        (i t : ℕ) (b : BasicBlock)
        → IsMarked r i
        → get_elem? blocks i ≡ some b
        → In t (successors b)
        → In i st ⊎ IsMarked r t

  abbrev pub Traversed : List Bool → Option (List Bool) → Type 0
  Traversed r o =
      (out : List Bool) × (o ≡ some out)
      × (length out ≡ length blocks)
      × ((i : ℕ) → IsMarked r i → IsMarked out i)
      × ((i t : ℕ) (b : BasicBlock)
          → IsMarked out i
          → get_elem? blocks i ≡ some b
          → In t (successors b)
          → IsMarked out t)

  Inv-visit :
      (id : ℕ) (block : BasicBlock) (r r' : List Bool) (st st' : List ℕ)
      → Inv r (id ∷ st)
      → get_elem? blocks id ≡ some block
      → Grows (successors block) r st r' st'
      → Inv r' st'
  Inv-visit id block r r' st st' v e g = record {
    size = g.size ∙ v.size;
    waiting = λ i h. elim (g.origin i h) [ inl k ↦ g.keeps i (v.waiting i (inr k)) | inr m ↦ m ];
    closed = λ i t b m f k. elim (g.new i m) [
      | inr w ↦ inl w
      | inl o ↦ elim (v.closed i t b o f k) [
        | inr m' ↦ inr (g.keeps t m')
        | inl (inr w) ↦ inl (g.stays i w)
        | inl (inl same) ↦ inr (
            g.all t (
              subst (λ x. In t (successors x)) {x = b} {y = block}
                (ground (arith, e, f, ap (get_elem? blocks) same)) k))
      ]
    ];
  }

  traverse_step :
      (fuel id : ℕ) (block : BasicBlock) (r r' out : List Bool) (st st' : List ℕ)
      → get_elem? blocks id ≡ some block
      → visit (successors block) (r, st) ≡ some (r', st')
      → traverse fuel blocks r' st' ≡ some out
      → traverse (suc fuel) blocks r (id ∷ st) ≡ some out
  unfolding traverse
  traverse_step fuel id block r r' out st st' e f o = rw (e, traverse, f) o

  traverse-Traversed :
      (fuel : ℕ) (r : List Bool) (st : List ℕ)
      → Inv r st
      → unmarked r + length st ≤ fuel
      → Traversed r (traverse fuel blocks r st)
  unfolding traverse
  traverse-Traversed zero r [] v h =
      (r, refl, v.size, λ i m. m, λ i t b m e k. ground (arith, v.closed i t b m e k))
  traverse-Traversed (suc fuel) r [] v h =
      (r, refl, v.size, λ i m. m, λ i t b m e k. ground (arith, v.closed i t b m e k))
  traverse-Traversed zero r (id ∷ st) v h = absurd (omega arith)
  traverse-Traversed (suc fuel) r (id ∷ st) v h =
      let (block, e) =
        get_elem?-some blocks id
          (subst (λ n. id < n) v.size (get_elem?-lt r id true (v.waiting id (inl refl)))) in
      let (r', st', f, g) = visit-Visited (successors block) r st (
        subst (λ n. All (λ t. t < n) (successors block)) (sym v.size)
          (InRange-block (length blocks) blocks id block inside e)) in
      let (out, o, size, keeps, closed) =
        traverse-Traversed fuel r' st' (Inv-visit id block r r' st st' v e g)
          (omega (arith, g.count)) in
      (
        out,
        traverse_step fuel id block r r' out st st' e f o,
        size,
        λ i m. keeps i (g.keeps i m),
        closed,
      )

  abbrev pub entry_marked : List Bool
  entry_marked = set (replicate (length blocks) false) 0 true

  replicate-false : (n i : ℕ) → ¬ IsMarked (replicate n false) i
  replicate-false zero i m = cc
  replicate-false (suc n) zero m = cc
  replicate-false (suc n) (suc i) m = replicate-false n i m

  unmarked-replicate : (n : ℕ) → unmarked (replicate n false) ≡ n
  unfolding unmarked
  unmarked-replicate zero = refl
  unmarked-replicate (suc n) = ap suc (unmarked-replicate n)

  entry_only : (n i : ℕ) → IsMarked (set (replicate n false) 0 true) i → 0 ≡ i
  entry_only zero i m = cc
  entry_only (suc n) zero m = refl
  entry_only (suc n) (suc i) m = absurd (replicate-false n i m)

  entry_count : (n : ℕ) → 0 < n → unmarked (set (replicate n false) 0 true) + 1 ≤ n
  unfolding unmarked
  entry_count zero h = absurd (omega arith)
  entry_count (suc n) h = omega (arith, unmarked-replicate n)

  pub entry-IsMarked : 0 < length blocks → IsMarked entry_marked 0
  entry-IsMarked h =
      get_elem?-set_self (replicate (length blocks) false) 0 true
        (omega (arith, length-replicate (length blocks) false))

  -- The traversal from the entry, with as much fuel as there are blocks.
  pub traverse-entry_marked :
      0 < length blocks
      → Traversed entry_marked (traverse (length blocks) blocks entry_marked (0 ∷ []))
  traverse-entry_marked h =
      traverse-Traversed (length blocks) entry_marked (0 ∷ [])
        (record {
          size =
              length-set (replicate (length blocks) false) 0 true
              ∙ length-replicate (length blocks) false;
          waiting = λ i k. elim k [
            | inl e ↦ subst (IsMarked entry_marked) e (entry-IsMarked h)
            | inr n ↦ absurd n
          ];
          closed = λ i t b m e k. inl (inl (entry_only (length blocks) i m));
        })
        (entry_count (length blocks) h)
