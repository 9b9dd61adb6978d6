-- ===== src/Mir/Lower/Rules.antt =====
-- What the operations of MirLowerer keep, one rule each: every jump and every loop is inside the
-- blocks, so that none of them panics.
use rlyeh_language.Common.{
  ℕ, zero, suc, ◌≤◌, ◌<◌, ◌≡◌, refl, sym, subst, false, none, some, List, [], ◌∷◌, ◌++◌, arith,
  length, set, length-append, length-set, get_elem?-some, All,
}
use rlyeh_language.Mir.{MirStmt, MirTerminator, BasicBlock}
use rlyeh_language.Mir.Dce.{successors, successors_of}
use rlyeh_language.Mir.Dce.Traversal.{InRange, InRange-block}
use rlyeh_language.Mir.Lower.{
  LoopCtx, MirLowerer, Lowering, pure, ◌>>=◌, ◌>>◌, debug_assert_open, current, switch_to,
  with_block, is_some, cur_closed, emit, terminate, new_block,
}

abbrev pub AllBelow : ℕ → List ℕ → Type 0
AllBelow n ts = All (λ t. t < n) ts

abbrev pub TargetsBelow : ℕ → LoopCtx → Type 0
TargetsBelow n c = (c.break_target < n) × (c.continue_target < n)

AllBelow-mono : (m n : ℕ) (ts : List ℕ) → m ≤ n → AllBelow m ts → AllBelow n ts
AllBelow-mono m n [] le h = tt
AllBelow-mono m n (t ∷ ts) le h = (omega (arith, h.0), AllBelow-mono m n ts le h.1)

InRange-mono : (m n : ℕ) (bs : List BasicBlock) → m ≤ n → InRange m bs → InRange n bs
InRange-mono m n [] le h = tt
InRange-mono m n (b ∷ bs) le h =
    (AllBelow-mono m n (successors b) le h.0, InRange-mono m n bs le h.1)

InRange-append :
    (n : ℕ) (bs cs : List BasicBlock) → InRange n bs → InRange n cs → InRange n (bs ++ cs)
InRange-append n [] cs h k = k
InRange-append n (b ∷ bs) cs h k = (h.0, InRange-append n bs cs h.1 k)

InRange-set :
    (n : ℕ) (bs : List BasicBlock) (i : ℕ) (b : BasicBlock)
    → InRange n bs
    → AllBelow n (successors b)
    → InRange n (set bs i b)
InRange-set n [] i b h k = tt
InRange-set n (x ∷ bs) zero b h k = (k, h.1)
InRange-set n (x ∷ bs) (suc i) b h k = (h.0, InRange-set n bs i b h.1 k)

TargetsBelow-mono :
    (m n : ℕ) (cs : List LoopCtx) → m ≤ n → All (TargetsBelow m) cs → All (TargetsBelow n) cs
TargetsBelow-mono m n [] le h = tt
TargetsBelow-mono m n (c ∷ cs) le h =
    ((omega (arith, h.0), omega (arith, h.0)), TargetsBelow-mono m n cs le h.1)

-- At least `n` blocks, and `d` loops around the code, in a build without debug assertions.
pub record Inv (n d : ℕ) (s : MirLowerer) : Type 0 where
  pub size : n ≤ length s.blocks
  pub here : s.cur < length s.blocks
  pub inside : InRange (length s.blocks) s.blocks
  pub loops : All (TargetsBelow (length s.blocks)) s.loop_stack
  pub depth : length s.loop_stack ≡ d
  pub no_asserts : s.debug_assertions ≡ false

-- `m` does not panic where `n` blocks and `d` loops are, keeps the invariant and leaves `d'` loops;
-- `P` holds of its result and of the number of blocks.
pub record Gives {A : Type 0} (P : ℕ → A → Type 0) (n d d' : ℕ) (m : Lowering A) : Type 0 where
  pub run :
      (s : MirLowerer)
      → Inv n d s
      → (out : A × MirLowerer) × (m s ≡ some out) × Inv n d' out.1 × P (length out.1.blocks) out.0

abbrev pub Any : {A : Type 0} → ℕ → A → Type 0
Any n a = Unit

abbrev pub Lowers : {A : Type 0} → ℕ → ℕ → ℕ → Lowering A → Type 0
Lowers n d d' m = Gives Any n d d' m

Inv_mono : (n k d : ℕ) (s : MirLowerer) → n ≤ k → Inv k d s → Inv n d s
Inv_mono n k d s le v = record {
  size = omega (arith, v.size);
  here = v.here;
  inside = v.inside;
  loops = v.loops;
  depth = v.depth;
  no_asserts = v.no_asserts;
}

module _ {A B : Type 0} {P : ℕ → A → Type 0} {Q : ℕ → B → Type 0} where
  pub Gives-bind :
      {n d e e' : ℕ} (m : Lowering A) (f : A → Lowering B)
      → Gives P n d e m
      → ((k : ℕ) (a : A) → n ≤ k → P k a → Gives Q k e e' (f a))
      → Gives Q n d e' (m >>= f)
  unfolding ◌>>=◌
  Gives-bind {n = n} {e' = e'} m f hm hf = record {
    run = λ s v.
        let ((a, s1), p, v1, r) = hm.run s v in
        let here : Inv (length s1.blocks) _ s1 = record {
          size = omega arith;
          here = v1.here;
          inside = v1.inside;
          loops = v1.loops;
          depth = v1.depth;
          no_asserts = v1.no_asserts;
        } in
        let (out, q, v2, t) = (hf (length s1.blocks) a v1.size r).run s1 here in
        (out, rw p q, Inv_mono n (length s1.blocks) e' out.1 v1.size v2, t);
  }

module _ {A : Type 0} {P : ℕ → A → Type 0} where
  pub Gives-pure : {n d : ℕ} (a : A) → ((k : ℕ) → n ≤ k → P k a) → Gives P n d d (pure a)
  unfolding pure
  Gives-pure a h = record { run = λ s v. ((a, s), refl, v, h (length s.blocks) v.size) }

  pub Lowers-Gives : {n d d' : ℕ} (m : Lowering A) → Gives P n d d' m → Lowers n d d' m
  Lowers-Gives m h = record { run = λ s v. let (out, e, w, r) = h.run s v in (out, e, w, tt) }

pub current-Gives : {n d : ℕ} → Gives (λ k id. id < k) n d d current
unfolding current
current-Gives = record { run = λ s v. ((s.cur, s), refl, v, v.here) }

pub switch_to-Lowers : {n d : ℕ} (id : ℕ) → id < n → Lowers n d d (switch_to id)
unfolding switch_to
switch_to-Lowers id h = record {
  run = λ s v. (
    (tt, record s { cur = id }),
    refl,
    record {
      size = v.size;
      here = omega (arith, v.size);
      inside = v.inside;
      loops = v.loops;
      depth = v.depth;
      no_asserts = v.no_asserts;
    },
    tt,
  );
}

-- A change of the current block that leaves its jumps inside.
with_block-Lowers :
    {n d : ℕ} (f : BasicBlock → BasicBlock)
    → ((k : ℕ) (b : BasicBlock) → n ≤ k → AllBelow k (successors b) → AllBelow k (successors (f b)))
    → Lowers n d d (with_block f)
unfolding with_block
with_block-Lowers {n = n} f keeps = record {
  run = λ s v.
      let (b, e) = get_elem?-some s.blocks s.cur v.here in
      let k = length s.blocks in
      let same : k ≡ length (set s.blocks s.cur (f b)) = sym (length-set s.blocks s.cur (f b)) in
      let changed : InRange k (set s.blocks s.cur (f b)) =
        InRange-set k s.blocks s.cur (f b) v.inside
          (keeps k b v.size (InRange-block k s.blocks s.cur b v.inside e)) in
      (
        (tt, record s { blocks = set s.blocks s.cur (f b) }),
        rw (with_block, e) refl,
        record {
          size = omega (arith, same, v.size);
          here = omega (arith, same, v.here);
          inside = subst (λ i. InRange i (set s.blocks s.cur (f b))) same changed;
          loops = subst (λ i. All (TargetsBelow i) s.loop_stack) same v.loops;
          depth = v.depth;
          no_asserts = v.no_asserts;
        },
        tt,
      );
}

debug_assert_open-Lowers : {n d : ℕ} → Lowers n d d debug_assert_open
unfolding debug_assert_open
debug_assert_open-Lowers = record {
  run = λ s v.
      let (b, e) = get_elem?-some s.blocks s.cur v.here in
      ((tt, s), rw (debug_assert_open, e, v.no_asserts) refl, v, tt);
}

-- A change of the current block, after the assertion that it is open.
asserted-Lowers :
    {n d : ℕ} (f : BasicBlock → BasicBlock)
    → ((k : ℕ) (b : BasicBlock) → n ≤ k → AllBelow k (successors b) → AllBelow k (successors (f b)))
    → Lowers n d d (debug_assert_open >> with_block f)
asserted-Lowers f keeps =
    Gives-bind debug_assert_open _ debug_assert_open-Lowers
      λ k u le _. with_block-Lowers f λ k' b le' h. keeps k' b (omega arith) h

pub emit-Lowers : {n d : ℕ} (stmt : MirStmt) → Lowers n d d (emit stmt)
unfolding emit
emit-Lowers stmt = asserted-Lowers _ λ k b le h. h

pub terminate-Lowers :
    {n d : ℕ} (term : MirTerminator)
    → AllBelow n (successors_of (some term))
    → Lowers n d d (terminate term)
unfolding terminate
terminate-Lowers {n = n} term h =
    asserted-Lowers _ λ k b le _. AllBelow-mono n k (successors_of (some term)) le h

pub cur_closed-Lowers : {n d : ℕ} → Lowers n d d cur_closed
unfolding cur_closed
cur_closed-Lowers = record {
  run = λ s v.
      let (b, e) = get_elem?-some s.blocks s.cur v.here in
      ((is_some b.terminator, s), rw (cur_closed, e) refl, v, tt);
}

pub new_block-Gives : {n d : ℕ} → Gives (λ k id. id < k) n d d new_block
unfolding new_block
new_block-Gives = record {
  run = λ s v.
      let k = length s.blocks in
      let empty : BasicBlock = record { stmts = []; terminator = none } in
      let size : suc k ≡ length (s.blocks ++ (empty ∷ [])) =
        omega (arith, length-append s.blocks (empty ∷ [])) in
      (
        (k, record s { blocks = s.blocks ++ (empty ∷ []); cur = k }),
        refl,
        record {
          size = omega (arith, size, v.size);
          here = omega (arith, size);
          inside =
              subst (λ i. InRange i (s.blocks ++ (empty ∷ []))) size
                (InRange-append (suc k) s.blocks (empty ∷ [])
                  (InRange-mono k (suc k) s.blocks (omega arith) v.inside) (tt, tt));
          loops =
              subst (λ i. All (TargetsBelow i) s.loop_stack) size
                (TargetsBelow-mono k (suc k) s.loop_stack (omega arith) v.loops);
          depth = v.depth;
          no_asserts = v.no_asserts;
        },
        omega (arith, size),
      );
}
