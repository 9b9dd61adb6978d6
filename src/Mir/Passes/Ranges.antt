-- ===== src/Mir/Passes/Ranges.antt =====
-- The passes keep every jump inside its function.
use rlyeh_language.Common.{
  ℕ, suc, ◌<◌, ◌≡◌, refl, subst, ◌∙◌, inl, inr, Bool, true, false, Option, none, some, List, [],
  ◌∷◌, map, arith, length, length-map, get_elem?, get_or, get_elem?-lt, get_elem?-some, All,
}
use rlyeh_language.Mir.{MirTerminator, BasicBlock}
use rlyeh_language.Mir.ConstFold.{fold_cond_term, fold_terminator, chosen}
use rlyeh_language.Mir.Dce.{
  successors, successors_of, renumber, keep_blocks, remap_terminator, remap_block, keep_reachable,
  usize_max,
}
use rlyeh_language.Mir.Dce.Traversal.{IsMarked, In, InRange}
use rlyeh_language.Mir.Dce.Simulation.{rank, new_number, get_elem?-keep_blocks}

-- A list of blocks with the terminators of another one has its ranges.
pub InRange-map :
    (n : ℕ) (f : BasicBlock → BasicBlock)
    → ((b : BasicBlock) → All (λ t. t < n) (successors b) → All (λ t. t < n) (successors (f b)))
    → (bs : List BasicBlock) → InRange n bs
    → InRange n (map f bs)
InRange-map n f keeps [] h = tt
InRange-map n f keeps (b ∷ bs) h = (keeps b h.0, InRange-map n f keeps bs h.1)

pub fold_cond_term-InRange :
    (n : ℕ) (b : BasicBlock)
    → All (λ t. t < n) (successors b)
    → All (λ t. t < n) (successors (fold_cond_term b))
unfolding fold_cond_term fold_terminator chosen
fold_cond_term-InRange n b h = ground (arith, h)

rank-lt :
    (r : List Bool) (bs : List BasicBlock) (t : ℕ)
    → length r ≡ length bs
    → IsMarked r t
    → rank r t < length (keep_blocks r bs)
rank-lt r bs t size m =
    let (b, e) = get_elem?-some bs t (subst (λ n. t < n) size (get_elem?-lt r t true m)) in
    get_elem?-lt (keep_blocks r bs) (rank r t) b (get_elem?-keep_blocks r bs t size m ∙ e)

remap_terminator-InRange :
    (m : List ℕ) (n : ℕ) (o : Option MirTerminator)
    → ((t : ℕ) → In t (successors_of o) → get_or m t usize_max < n)
    → All (λ t. t < n) (successors_of (remap_terminator m o))
unfolding remap_terminator
remap_terminator-InRange m n none h = tt
remap_terminator-InRange m n (some (MirTerminator.ret x)) h = tt
remap_terminator-InRange m n (some (MirTerminator.jump t)) h = (h t (inl refl), tt)
remap_terminator-InRange m n (some (MirTerminator.cond_jump c t e)) h =
    (h t (inl refl), (h e (inr (inl refl)), tt))

keep_blocks-InRange :
    (m : List ℕ) (n : ℕ) (r : List Bool) (bs : List BasicBlock)
    → ((i t : ℕ) (b : BasicBlock)
        → IsMarked r i
        → get_elem? bs i ≡ some b
        → In t (successors b)
        → get_or m t usize_max < n)
    → InRange n (map (remap_block m) (keep_blocks r bs))
unfolding keep_blocks remap_block
keep_blocks-InRange m n [] bs h = tt
keep_blocks-InRange m n (true ∷ r) [] h = tt
keep_blocks-InRange m n (false ∷ r) [] h = tt
keep_blocks-InRange m n (true ∷ r) (x ∷ bs) h = (
  remap_terminator-InRange m n x.terminator (λ t. h 0 t x refl refl),
  keep_blocks-InRange m n r bs (λ i t b. h (suc i) t b),
)
keep_blocks-InRange m n (false ∷ r) (x ∷ bs) h =
    keep_blocks-InRange m n r bs (λ i t b. h (suc i) t b)

length-keep_reachable :
    (blocks : List BasicBlock) (r : List Bool)
    → length (keep_reachable blocks r) ≡ length (keep_blocks r blocks)
unfolding keep_reachable
length-keep_reachable blocks r = length-map (remap_block (renumber r 0)) (keep_blocks r blocks)

-- What remains has an entry, and its jumps are to what remains.
pub keep_reachable-InRange :
    (blocks : List BasicBlock) (r : List Bool)
    → length r ≡ length blocks
    → IsMarked r 0
    → ((i t : ℕ) (b : BasicBlock)
        → IsMarked r i
        → get_elem? blocks i ≡ some b
        → In t (successors b)
        → IsMarked r t)
    → (0 < length (keep_reachable blocks r))
      × InRange (length (keep_reachable blocks r)) (keep_reachable blocks r)
unfolding keep_reachable
keep_reachable-InRange blocks r size entry closed = (
  omega (
    arith,
    rank-lt r blocks 0 size entry,
    length-map (remap_block (renumber r 0)) (keep_blocks r blocks),
  ),
  keep_blocks-InRange (renumber r 0)
      (length (map (remap_block (renumber r 0)) (keep_blocks r blocks))) r blocks
      (λ i t b m e k. omega (
        arith,
        new_number r t (closed i t b m e k),
        rank-lt r blocks t size (closed i t b m e k),
        length-map (remap_block (renumber r 0)) (keep_blocks r blocks),
      )),
)
