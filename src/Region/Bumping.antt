-- ===== src/Region/Bumping.antt =====
-- Where a bump step of Region::try_bump lands, and what Region::grow gives it.
use rlyeh_language.Common.{
  ℕ, zero, suc, ◌+◌, ◌*◌, ◌^◌, ◌≤◌, ◌<◌, ◌≡◌, refl, sym, ap, subst, ◌∙◌, ◌⊎◌, inl, inr, max, true,
  Option, none, some, ◌∷◌, ltb, ◌==◌, arith, Bool-cases, Option-cases,
}
use rlyeh_language.Region.{
  AllocError, Result, MemoryBlock, new_block, total_size, Region, Bumped, base_align, usize_mod,
  is_power_of_two, power_below, aligned_cursor, bump_to, try_bump, grow, add_block,
}
use rlyeh_language.Region.Strategy.{Floats, calculate_next_size, requested-le-calculate_next_size}
use rlyeh_language.Region.Alignment.{
  checked_add, mask_up, checked_next_multiple_of, mask_up-checked_next_multiple_of, Aligned,
  checked_add-some, checked_next_multiple_of-Aligned, checked_add-some,
  checked_next_multiple_of-zero,
}

pub Result-cases :
    {A : Type 0} (x : Result A)
    → ((a : A) × (x ≡ Result.ok a)) ⊎ ((e : AllocError) × (x ≡ Result.err e))
Result-cases (Result.ok a) = inl (a, refl)
Result-cases (Result.err e) = inr (e, refl)

module _ (fl : Floats) where
  power_below-pow : (n a : ℕ) → power_below fl n a ≡ true → (k : ℕ) × (k < n) × (a ≡ 2 ^ k)
  unfolding power_below
  power_below-pow zero a h = cc
  power_below-pow (suc n) a h = elim (Bool-cases (a == 2 ^ n)) [
    | inl e ↦ (n, omega arith, ground arith)
    | inr e ↦ let (k, l, q) = power_below-pow n a (ground arith) in (k, omega arith, q)
  ]

  aligned_cursor-Aligned :
      (c a m : ℕ) → 0 < a → c + a ≤ usize_mod → aligned_cursor fl c a ≡ some m → Aligned c a m
  unfolding aligned_cursor is_power_of_two
  aligned_cursor-Aligned c a m h l e = elim (Bool-cases (power_below fl 64 a)) [
    | inl p ↦
        let (k, lt, q) = power_below-pow 64 a p in
        let same : mask_up c a ≡ checked_next_multiple_of c a =
          subst (λ x. mask_up c x ≡ checked_next_multiple_of c x) (sym q)
            (mask_up-checked_next_multiple_of k c lt (omega arith)) in
        checked_next_multiple_of-Aligned c a m h (sym same ∙ ground arith)
    | inr p ↦ checked_next_multiple_of-Aligned c a m h (ground arith)
  ]

  aligned_cursor-zero : (a : ℕ) → 0 < a → a ≤ 2 ^ 63 → aligned_cursor fl 0 a ≡ some 0
  unfolding aligned_cursor is_power_of_two
  aligned_cursor-zero a h l = elim (Bool-cases (power_below fl 64 a)) [
    | inl p ↦
        let (k, lt, q) = power_below-pow 64 a p in
        let same : mask_up 0 a ≡ checked_next_multiple_of 0 a =
          subst (λ x. mask_up 0 x ≡ checked_next_multiple_of 0 x) (sym q)
            (mask_up-checked_next_multiple_of k 0 lt (omega arith)) in
        rw p (same ∙ checked_next_multiple_of-zero a h)
    | inr p ↦ rw p (checked_next_multiple_of-zero a h)
  ]

  aligned : (align : ℕ) → 0 < max align base_align
  aligned align = omega arith

  -- The blocks of the region are as before, and the object starts no lower than the cursor was.
  abbrev pub InBlock : Region fl → Region fl → ℕ → Type 0
  InBlock r r' ptr =
      (r'.allocator ≡ r.allocator)
      × (r'.base ≡ r.base)
      × (r'.limit ≡ r.limit)
      × (r.base + r.cursor ≤ ptr)

  -- A block that the system just gave is now the current one, before those of `r`, and the object
  -- is the first in it.
  abbrev pub InNewBlock : Region fl → Region fl → Option ℕ → ℕ → Type 0
  InNewBlock r r' answer ptr =
      (b : MemoryBlock) × (answer ≡ some b.ptr)
      × (r'.allocator ≡ b ∷ r.allocator)
      × (r'.base ≡ b.ptr)
      × (r'.limit ≡ b.size)
      × (ptr ≡ b.ptr)

  -- The object lies in the current block of `r'`, at a multiple of the alignment, and ends at its
  -- cursor; the block is still that of `r`, or new.
  abbrev pub Lands : Region fl → Region fl → Option ℕ → ℕ → ℕ → ℕ → Type 0
  Lands r r' answer size align ptr =
      (r'.base ≤ ptr)
      × (ptr + size ≡ r'.base + r'.cursor)
      × (r'.cursor ≤ r'.limit)
      × ((q : ℕ) × (ptr ≡ r'.base + max align base_align * q))
      × (InBlock r r' ptr ⊎ InNewBlock r r' answer ptr)

  try_bump-some :
      (r : Region fl) (size align : ℕ) (b : Bumped fl)
      → try_bump fl r size align ≡ some b
      → (m : ℕ) × (aligned_cursor fl r.cursor (max align base_align) ≡ some m)
        × (b.ptr ≡ r.base + m)
        × (b.region ≡ record r { cursor = m + size })
        × (m + size ≤ r.limit)
  unfolding try_bump bump_to
  try_bump-some r size align b e =
      elim (Option-cases (aligned_cursor fl r.cursor (max align base_align))) [
        | inl n ↦ ground arith
        | inr (m, h) ↦ elim (Option-cases (checked_add m size)) [
          | inl n ↦ ground arith
          | inr (end, k) ↦
              let sum : end ≡ m + size = checked_add-some m size end k in
              elim (Bool-cases (ltb r.limit end)) [
                | inl t ↦ ground arith
                | inr f ↦ (m, h, ground arith, ground arith, ground arith)
              ]
        ]
      ]

  pub try_bump-Lands :
      (r : Region fl) (size align : ℕ) (answer : Option ℕ) (b : Bumped fl)
      → r.cursor + max align base_align ≤ usize_mod
      → try_bump fl r size align ≡ some b
      → Lands r b.region answer size align b.ptr
  try_bump-Lands r size align answer b small e =
      let (m, h, at, to, fits) = try_bump-some r size align b e in
      let (above, near, (q, mult)) =
        aligned_cursor-Aligned r.cursor (max align base_align) m (aligned align) small h in
      let base_same : b.region.base ≡ r.base = ap (λ (x : Region fl). x.base) to in
      let limit_same : b.region.limit ≡ r.limit = ap (λ (x : Region fl). x.limit) to in
      let cursor_end : b.region.cursor ≡ m + size = ap (λ (x : Region fl). x.cursor) to in
      (
        omega arith,
        omega arith,
        omega arith,
        (q, omega arith),
        inl (ap (λ (x : Region fl). x.allocator) to, base_same, limit_same, omega arith),
      )

  -- A block that is just grown has room for the request.
  try_bump-fresh :
      (r : Region fl) (size align : ℕ)
      → r.cursor ≡ 0
      → align ≤ 2 ^ 63
      → size < usize_mod
      → size ≤ r.limit
      → try_bump fl r size align
        ≡ some (record { region = record r { cursor = size }; ptr = r.base; wasted = 0 })
  unfolding try_bump bump_to checked_add
  try_bump-fresh r size align z small word fits =
      let at : aligned_cursor fl r.cursor (max align base_align) ≡ some 0 =
        subst (λ c. aligned_cursor fl c (max align base_align) ≡ some 0) (sym z)
          (aligned_cursor-zero (max align base_align) (aligned align) (omega arith)) in
      rw (at, try_bump, bump_to) (ground arith)

  pub new_block-ok :
      (size : ℕ) (answer : Option ℕ) (b : MemoryBlock)
      → new_block size answer ≡ Result.ok b
      → (answer ≡ some b.ptr) × (b.size ≡ max size 1) × (max size 1 < 2 ^ 63)
  unfolding new_block
  new_block-ok size none b e = ground arith
  new_block-ok size (some p) b e = ground arith

  pub grow-ok :
      (r r' : Region fl) (requested : ℕ) (answer : Option ℕ)
      → grow fl r requested answer ≡ Result.ok r'
      → (b : MemoryBlock) × (new_block
            (calculate_next_size fl r.strategy (total_size r.allocator) requested)
            answer
          ≡ Result.ok b)
        × (r' ≡ add_block fl r b)
  unfolding grow
  grow-ok r r' requested answer e =
      elim (Result-cases
        (new_block (calculate_next_size fl r.strategy (total_size r.allocator) requested) answer)) [
          | inl (b, h) ↦ (b, h, ground arith)
          | inr (x, h) ↦ ground arith
        ]

  -- After a growth the second bump step succeeds, at the start of the new block.
  pub try_bump-grow :
      (r r' : Region fl) (size align : ℕ) (answer : Option ℕ)
      → align ≤ 2 ^ 63
      → grow fl r size answer ≡ Result.ok r'
      → (size ≤ r'.limit)
        × (try_bump fl r' size align
            ≡ some (record { region = record r' { cursor = size }; ptr = r'.base; wasted = 0 }))
  unfolding add_block
  try_bump-grow r r' size align answer small e =
      let (b, h, to) = grow-ok r r' size answer e in
      let (_, room, word) =
        new_block-ok (calculate_next_size fl r.strategy (total_size r.allocator) size) answer b h in
      let limit_is : r'.limit ≡ b.size = ap (λ (x : Region fl). x.limit) to in
      let cursor_is : r'.cursor ≡ 0 = ap (λ (x : Region fl). x.cursor) to in
      let enough : size ≤ r'.limit =
        omega
          (arith, requested-le-calculate_next_size fl r.strategy (total_size r.allocator) size) in
      (
        enough,
        try_bump-fresh r' size align cursor_is small
            (omega
              (arith, requested-le-calculate_next_size fl r.strategy (total_size r.allocator) size))
            enough,
      )
