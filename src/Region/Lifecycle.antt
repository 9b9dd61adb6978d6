-- ===== src/Region/Lifecycle.antt =====
-- Transfer and destruction, and where an object's address lies.
use rlyeh_language.Common.{
  ℕ, ◌+◌, ◌-◌, ◌*◌, ◌%◌, ◌^◌, ◌≤◌, ◌<◌, ◌≡◌, refl, ap, ◌∙◌, max, Bool-cases, inl, inr, true, false,
  Option, none, List, [], ◌∷◌, ◌++◌, ◌==◌, if◌then◌else◌, arith,
}
use native.Mathlib.Nat.{add-mul-mod_self_left}
use rlyeh_language.Region.{
  Region, Result, AllocError, base_align, mark_transferred, is_transferred, contains, torn_down,
  destroy, allocate, used, capacity,
}
use rlyeh_language.Region.Strategy.{Floats}
use rlyeh_language.Region.Destructors.{remove, count, count-remove, count-run_all}
use rlyeh_language.Region.Allocation.{allocate-Lands}

module _ (fl : Floats) where
  contains-last : (p : ℕ) (xs : List ℕ) → contains fl p (xs ++ p ∷ []) ≡ true
  unfolding contains
  contains-last p [] = ground arith
  contains-last p (x ∷ xs) = ground (arith, contains-last p xs)

  -- An object that was transferred out of a live region is not dropped with the region, and every
  -- other object is dropped as often as it is registered; an address of which several objects are
  -- registered loses one of them.
  pub count-mark_transferred :
      (r : Region fl) (p q : ℕ)
      → r.destroyed ≡ false
      → (count q (destroy fl (mark_transferred fl p r)).1
          ≡ (if p == q then count q r.destructors - 1 else count q r.destructors))
        × (is_transferred fl p (mark_transferred fl p r) ≡ true)
  unfolding destroy mark_transferred is_transferred
  count-mark_transferred r p q live = (
    rw live (count-run_all q (remove p r.destructors).0 ∙ (count-remove p q r.destructors).0),
    contains-last p r.transferred,
  )

  destroyed-destroy : (r : Region fl) → (destroy fl r).0.destroyed ≡ true
  unfolding destroy torn_down
  destroyed-destroy r = elim (Bool-cases r.destroyed) [ inl e ↦ rw e refl | inr e ↦ rw e refl ]

  refuses :
      (r : Region fl) (size align : ℕ) (needs_drop answer : Option ℕ)
      → r.destroyed ≡ true
      → (destroy fl r ≡ (r, []))
        × (allocate fl r size align needs_drop answer ≡ (r, Result.err AllocError.destroyed))
  unfolding destroy allocate
  refuses r size align needs_drop answer e = (ground arith, ground arith)

  -- After a destruction a second one drops nothing and changes nothing, and every allocation fails.
  pub destroy_once :
      (r : Region fl) (size align : ℕ) (needs_drop answer : Option ℕ)
      → let gone = (destroy fl r).0 in
        (destroy fl gone ≡ (gone, []))
        × (allocate fl gone size align needs_drop answer ≡ (gone, Result.err AllocError.destroyed))
  destroy_once r size align needs_drop answer =
      refuses (destroy fl r).0 size align needs_drop answer (destroyed-destroy r)

  -- `used` of a region that was live and had a current block that is not empty subtracts below
  -- 0 once the region is destroyed.
  pub used-destroy :
      (r : Region fl) → r.destroyed ≡ false → 0 < r.limit → used fl (destroy fl r).0 ≡ none
  unfolding used destroy torn_down capacity
  used-destroy r live some_room = rw live (ground arith)

  -- For an alignment from 8 to 2 ^ 63 and a cursor of at most 2 ^ 63, the address that a
  -- successful allocation gives leaves the remainder that the address of its block leaves: the
  -- object is as aligned as the block is.
  pub allocate_remainder :
      (r : Region fl) (size align ptr : ℕ) (needs_drop answer : Option ℕ)
      → base_align ≤ align
      → align ≤ 2 ^ 63
      → r.cursor ≤ 2 ^ 63
      → (allocate fl r size align needs_drop answer).1 ≡ Result.ok ptr
      → ptr % align ≡ (allocate fl r size align needs_drop answer).0.base % align
  allocate_remainder r size align ptr needs_drop answer big small low e =
      let (_, _, _, (q, at), _) =
        allocate-Lands fl r size align ptr needs_drop answer small low e in
      let below = (allocate fl r size align needs_drop answer).0.base in
      let widest : max align base_align ≡ align = omega arith in
      ap (λ x. x % align) (at ∙ ap (λ a. below + a * q) widest)
      ∙ add-mul-mod_self_left below align q
