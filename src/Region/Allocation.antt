-- ===== src/Region/Allocation.antt =====
-- Where allocations land, and when they fail.
use rlyeh_language.Common.{
  ℕ, ◌-◌, ◌^◌, ◌≤◌, ◌≡◌, refl, sym, ap, subst, ◌∙◌, ◌⊎◌, inl, inr, max, true, false, Option, some,
  ◌∷◌, arith, Bool-cases, Option-cases,
}
use rlyeh_language.Region.{
  AllocError, Result, new_block, total_size, Region, Bumped, base_align, try_bump, grow, add_block,
  allows_growth, allocate, place_value, placed, grown,
}
use rlyeh_language.Region.Strategy.{Floats, calculate_next_size}
use rlyeh_language.Region.Bumping.{
  Result-cases, Lands, try_bump-Lands, new_block-ok, grow-ok, try_bump-grow,
}

ok-inj : {A : Type 0} {a b : A} → Result.ok a ≡ Result.ok b → a ≡ b
ok-inj e = cc

module _ (fl : Floats) where
  -- `r'` is `r` after a growth, and `b` the first object of the new block.
  abbrev FirstOf : Region fl → Region fl → ℕ → Option ℕ → Bumped fl → Type 0
  FirstOf r r' size answer b =
      (grow fl r size answer ≡ Result.ok r')
      × (size ≤ r'.limit)
      × (b ≡ record { region = record r' { cursor = size }; ptr = r'.base; wasted = 0 })

  -- An error and the old region, or a bump step in the current block or in a new one.
  abbrev Outcomes : Region fl → ℕ → ℕ → Option ℕ → Option ℕ → Region fl × Result ℕ → Type 0
  Outcomes r size align needs_drop answer out =
      ((x : AllocError) × (out ≡ (r, Result.err x)))
      ⊎ ((b : Bumped fl) × (out ≡ (place_value fl b size needs_drop, Result.ok b.ptr))
          × ((try_bump fl r size align ≡ some b) ⊎ ((r' : Region fl) × FirstOf r r' size answer b)))

  grown-Outcomes :
      (r : Region fl) (size align : ℕ) (needs_drop answer : Option ℕ)
      → align ≤ 2 ^ 63
      → Outcomes r size align needs_drop answer
          (grown fl r size align needs_drop (grow fl r size answer))
  unfolding grown placed
  grown-Outcomes r size align needs_drop answer small =
      elim (Result-cases (grow fl r size answer)) [
        | inr (x, g) ↦ rw g (inl (x, refl))
        | inl (r', g) ↦
            let (room, h) = try_bump-grow fl r r' size align answer small g in
            rw (g, grown, h) (inr (_, refl, inr (r', (refl, room, refl))))
      ]

  allocate-Outcomes :
      (r : Region fl) (size align : ℕ) (needs_drop answer : Option ℕ)
      → align ≤ 2 ^ 63
      → Outcomes r size align needs_drop answer (allocate fl r size align needs_drop answer)
  unfolding allocate
  allocate-Outcomes r size align needs_drop answer small = elim (Bool-cases r.destroyed) [
    | inl gone ↦ inl (AllocError.destroyed, ground arith)
    | inr alive ↦ elim (Option-cases (try_bump fl r size align)) [
      | inr (b, h) ↦ inr (b, ground arith, inl h)
      | inl n ↦ elim (Bool-cases (allows_growth fl r.strategy)) [
        | inr fixed ↦ inl (AllocError.out_of_memory size, ground arith)
        | inl grows ↦
            let g : allocate fl r size align needs_drop answer
                ≡ grown fl r size align needs_drop (grow fl r size answer) =
              ground arith in
            subst (Outcomes r size align needs_drop answer) (sym g)
              (grown-Outcomes r size align needs_drop answer small)
      ]
    ]
  ]

  Lands-FirstOf :
      (r r' : Region fl) (size align : ℕ) (answer : Option ℕ) (b : Bumped fl)
      → FirstOf r r' size answer b
      → Lands fl r b.region answer size align b.ptr
  unfolding add_block
  Lands-FirstOf r r' size align answer b (grew, room, e) =
      let (blk, h, to) = grow-ok fl r r' size answer grew in
      let (given, _, _) =
        new_block-ok fl (calculate_next_size fl r.strategy (total_size r.allocator) size) answer blk
          h in
      let blocks : r'.allocator ≡ blk ∷ r.allocator = ap (λ (x : Region fl). x.allocator) to in
      let start : r'.base ≡ blk.ptr = ap (λ (x : Region fl). x.base) to in
      let width : r'.limit ≡ blk.size = ap (λ (x : Region fl). x.limit) to in
      let blocks_is : b.region.allocator ≡ r'.allocator =
        ap (λ (x : Bumped fl). x.region.allocator) e in
      let base_is : b.region.base ≡ r'.base = ap (λ (x : Bumped fl). x.region.base) e in
      let ptr_is : b.ptr ≡ r'.base = ap (λ (x : Bumped fl). x.ptr) e in
      let limit_is : b.region.limit ≡ r'.limit = ap (λ (x : Bumped fl). x.region.limit) e in
      let cursor_is : b.region.cursor ≡ size = ap (λ (x : Bumped fl). x.region.cursor) e in
      (
        omega arith,
        omega arith,
        omega arith,
        (0, omega arith),
        inr (blk, given, blocks_is ∙ blocks, base_is ∙ start, limit_is ∙ width, ptr_is ∙ start),
      )

  -- With a cursor and an alignment of at most 2 ^ 63, a successful allocation gives an object
  -- that ends at the cursor of the current block, inside it, at a multiple of the alignment (of at
  -- least 8) from its start. Either the blocks, the base and the limit are as before and the object
  -- starts at or above the old cursor, or the current block is one that the system just gave, put
  -- before the old blocks, and the object starts it.
  pub allocate-Lands :
      (r : Region fl) (size align ptr : ℕ) (needs_drop answer : Option ℕ)
      → align ≤ 2 ^ 63
      → r.cursor ≤ 2 ^ 63
      → (allocate fl r size align needs_drop answer).1 ≡ Result.ok ptr
      → Lands fl r (allocate fl r size align needs_drop answer).0 answer size align ptr
  unfolding place_value
  allocate-Lands r size align ptr needs_drop answer small low e =
      elim (allocate-Outcomes r size align needs_drop answer small) [
        | inl (x, h) ↦
            let off : Result.ok ptr ≡ Result.err x =
              sym e ∙ ap (λ (o : Region fl × Result ℕ). o.1) h in
            cc
        | inr (b, h, how) ↦
            let at : b.ptr ≡ ptr = ok-inj (sym (ap (λ (o : Region fl × Result ℕ). o.1) h) ∙ e) in
            subst (λ x. Lands fl r x answer size align ptr)
              (sym (ap (λ (o : Region fl × Result ℕ). o.0) h))
              (subst (λ x. Lands fl r b.region answer size align x) at
                (elim how [
                  | inl t ↦ try_bump-Lands fl r size align answer b (omega arith) t
                  | inr (r', f) ↦ Lands-FirstOf r r' size align answer b f
                ]))
      ]

  -- With an alignment of at most 2 ^ 63, an allocation that fails leaves the region as it was.
  pub allocate-err :
      (r : Region fl) (size align : ℕ) (needs_drop answer : Option ℕ) (x : AllocError)
      → align ≤ 2 ^ 63
      → (allocate fl r size align needs_drop answer).1 ≡ Result.err x
      → (allocate fl r size align needs_drop answer).0 ≡ r
  allocate-err r size align needs_drop answer x small e =
      elim (allocate-Outcomes r size align needs_drop answer small) [
        | inl (y, h) ↦ ap (λ (o : Region fl × Result ℕ). o.0) h
        | inr (b, h, how) ↦
            let off : Result.err x ≡ Result.ok b.ptr =
              sym e ∙ ap (λ (o : Region fl × Result ℕ). o.1) h in
            cc
      ]

  -- A live region that may grow never refuses an alignment of at most 2 ^ 63 when the system
  -- gives memory and the next block stays within `isize`.
  pub allocate-total :
      (r : Region fl) (size align p : ℕ) (needs_drop : Option ℕ)
      → r.destroyed ≡ false
      → allows_growth fl r.strategy ≡ true
      → align ≤ 2 ^ 63
      → max (calculate_next_size fl r.strategy (total_size r.allocator) size) 1
        ≤ 2 ^ 63 - base_align
      → (ptr : ℕ) × ((allocate fl r size align needs_drop (some p)).1 ≡ Result.ok ptr)
  unfolding allocate grown placed grow new_block
  allocate-total r size align p needs_drop alive grows small room =
      elim (Option-cases (try_bump fl r size align)) [
        | inr (b, h) ↦ (b.ptr, ground arith)
        | inl n ↦ elim (Result-cases (grow fl r size (some p))) [
          | inr (x, g) ↦ absurd (ground arith)
          | inl (r', g) ↦
              (r'.base, ground (arith, try_bump-grow fl r r' size align (some p) small g))
        ]
      ]
