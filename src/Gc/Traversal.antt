-- ===== src/Gc/Traversal.antt =====
-- `mark` keeps the promises of a pass: it marks what its start reaches, no more, and with enough
-- fuel all of it.
use rlyeh_language.Common.{
  ℕ, zero, suc, ◌+◌, ◌*◌, ◌≤◌, ◌<◌, ◌≡◌, refl, sym, ap, subst, ◌∙◌, ◌≢◌, ◌⊎◌, inl, inr, ◌↔◌, true,
  false, Option, some, List, [], ◌∷◌, arith, ◌==◌, Bool-cases, Option-cases,
}
use rlyeh_language.Gc.{
  Header, Memory, find_header, set_marked, visit_slot, scan, mark_found, mark, mark_roots,
}
use rlyeh_language.Gc.Marking.{
  is_marked, unmarked, find_header-some, find_header-none, slots_of-set_marked,
  is_marked-set_marked_ne, is_marked-set_marked_self, unmarked-set_marked, all_marked,
}
use rlyeh_language.Gc.Reachability.{
  Edge, edge, Reach, here, next, Reach-step, Pass, Pass-refl, Pass-trans, Pass-weaken, Shaped,
  Pass-Shaped,
}

module _ (mem : Memory) (sizes : ℕ → Option ℕ) where
  -- What a visitor promises on lists with at most `bound` unmarked objects.
  abbrev Visits : ℕ → (ℕ → List Header → List Header) → Type 0
  Visits bound visit =
      (c : ℕ) (l : List Header)
      → Shaped mem sizes l
      → unmarked l ≤ bound
      → Pass mem sizes (Reach mem sizes c) l (visit c l)
        × ((n : ℕ) → sizes c ≡ some n → is_marked c (visit c l) ≡ true)

  abbrev Slot : ℕ → ℕ → ℕ → Type 0
  Slot a i c = (mem (a + 8 * i) ≡ c) × (c ≢ 0) × ((m : ℕ) × (sizes c ≡ some m))

  module _ (bound : ℕ) (visit : ℕ → List Header → List Header) (ok : Visits bound visit) where
    visit_slot-Pass :
        (a n i : ℕ) (l : List Header)
        → sizes a ≡ some n
        → i < n
        → Shaped mem sizes l
        → unmarked l ≤ bound
        → Pass mem sizes (Reach mem sizes a) l (visit_slot visit (mem (a + 8 * i)) l)
          × ((c : ℕ) → Slot a i c → is_marked c (visit_slot visit (mem (a + 8 * i)) l) ≡ true)
    unfolding visit_slot
    visit_slot-Pass a n i l e h s u = elim (Bool-cases (mem (a + 8 * i) == 0)) [
      | inl z ↦
          rw z
            (Pass-refl mem sizes (Reach mem sizes a) l, λ c t. absurd (t.1 (ground (arith, t.0))))
      | inr z ↦ rw z (elim (Option-cases (find_header (mem (a + 8 * i)) l)) [
        | inl f ↦ rw f (
          Pass-refl mem sizes (Reach mem sizes a) l,
          λ c t. ground (arith, t.0, t.2.1, s c, find_header-none (mem (a + 8 * i)) l f),
        )
        | inr (x, f) ↦ rw f (
          Pass-weaken mem sizes
              (λ b.
                Reach-step mem sizes (edge n i x.slots e h refl (ground arith) (registered x f)))
              (ok (mem (a + 8 * i)) l s u).0,
          λ c t.
              subst (λ d. is_marked d (visit (mem (a + 8 * i)) l) ≡ true) t.0
                ((ok (mem (a + 8 * i)) l s u).1 x.slots (registered x f)),
        )
      ])
    ]
      where
        registered :
            (x : Header)
            → find_header (mem (a + 8 * i)) l ≡ some x
            → sizes (mem (a + 8 * i)) ≡ some x.slots
        registered x f = sym (s (mem (a + 8 * i))) ∙ (find_header-some (mem (a + 8 * i)) l x f).0

    scan-Pass :
        (a size n i : ℕ) (l : List Header)
        → sizes a ≡ some size
        → i + n ≡ size
        → Shaped mem sizes l
        → unmarked l ≤ bound
        → Pass mem sizes (Reach mem sizes a) l (scan visit mem a n i l)
          × ((j c : ℕ)
              → i ≤ j
              → j < size
              → Slot a j c
              → is_marked c (scan visit mem a n i l) ≡ true)
    unfolding scan
    scan-Pass a size zero i l e q s u =
        (Pass-refl mem sizes (Reach mem sizes a) l, λ j c p t k. absurd (omega arith))
    scan-Pass a size (suc n) i l e q s u =
        let (first, hit) = visit_slot-Pass a size i l e (omega arith) s u in
        let (rest, hits) =
          scan-Pass a size n (i + 1) (visit_slot visit (mem (a + 8 * i)) l) e (omega arith)
            (Pass-Shaped mem sizes first s) (omega (arith, first.fewer)) in
        (
          Pass-trans mem sizes (Reach mem sizes a) first rest,
          λ j c p t k. elim (Bool-cases (j == i)) [
            | inl same ↦ rest.grows c (hit c (slot_at a j i c (ground arith) k))
            | inr other ↦ hits j c (ground arith) t k
          ],
        )
      where
        slot_at : (a j i c : ℕ) → j ≡ i → Slot a j c → Slot a i c
        slot_at a j i c h = subst (λ k. Slot a k c) h

    set_marked-Shaped :
        (a : ℕ) (l : List Header) → Shaped mem sizes l → Shaped mem sizes (set_marked a l)
    set_marked-Shaped a l s b = slots_of-set_marked b a l ∙ s b

    -- Marking the object `a` and then scanning its slots.
    scan-set_marked-Pass :
        (a n : ℕ) (l : List Header)
        → sizes a ≡ some n
        → is_marked a l ≡ false
        → Shaped mem sizes l
        → unmarked l ≤ bound + 1
        → Pass mem sizes (Reach mem sizes a) l (scan visit mem a n 0 (set_marked a l))
          × (is_marked a (scan visit mem a n 0 (set_marked a l)) ≡ true)
    scan-set_marked-Pass a n l e f s u = (
      record {
        shape = λ b. pass.shape b ∙ slots_of-set_marked b a l;
        grows = λ b h. elim (Bool-cases (b == a)) [
          | inl same ↦ ground (arith, marked)
          | inr other ↦ pass.grows b (unchanged b other ∙ h)
        ];
        closed = λ b c p q t. elim (Bool-cases (b == a)) [
          | inl same ↦ edges b c (ground arith) t
          | inr other ↦ pass.closed b c (unchanged b other ∙ p) q t
        ];
        sound = λ b p q. elim (Bool-cases (b == a)) [
          | inl same ↦ subst (Reach mem sizes a) (ground arith) here
          | inr other ↦ pass.sound b (unchanged b other ∙ p) q
        ];
        fewer = omega (arith, pass.fewer, smaller);
      },
      marked,
    )
      where
        k : List Header
        k = scan visit mem a n 0 (set_marked a l)

        smaller : unmarked (set_marked a l) + 1 ≡ unmarked l
        smaller = unmarked-set_marked a n l (s a ∙ e) f

        scanned :
            Pass mem sizes (Reach mem sizes a) (set_marked a l) k
            × ((j c : ℕ) → 0 ≤ j → j < n → Slot a j c → is_marked c k ≡ true)
        scanned =
            scan-Pass a n n 0 (set_marked a l) e (omega arith) (set_marked-Shaped a l s)
              (omega (arith, smaller))

        pass : Pass mem sizes (Reach mem sizes a) (set_marked a l) k
        pass = scanned.0

        marked : is_marked a k ≡ true
        marked = pass.grows a (is_marked-set_marked_self a n l (s a ∙ e))

        unchanged : (b : ℕ) → (b == a) ≡ false → is_marked b (set_marked a l) ≡ is_marked b l
        unchanged b other = is_marked-set_marked_ne b a l (ground arith)

        edges : (b c : ℕ) → b ≡ a → Edge mem sizes b c → is_marked c k ≡ true
        edges b c same (edge n' i m p q r z t) =
            scanned.1 i c (omega arith) (ground arith)
              (ap (λ x. mem (x + 8 * i)) (sym same) ∙ r, z, (m, t))

    mark_found-Pass :
        (a : ℕ) (l : List Header)
        → Shaped mem sizes l
        → unmarked l ≤ bound + 1
        → Pass mem sizes (Reach mem sizes a) l (mark_found visit mem a (find_header a l) l)
          × ((n : ℕ)
              → sizes a ≡ some n
              → is_marked a (mark_found visit mem a (find_header a l) l) ≡ true)
    unfolding mark_found
    mark_found-Pass a l s u = elim (Option-cases (find_header a l)) [
      | inl f ↦ rw f (
        Pass-refl mem sizes (Reach mem sizes a) l,
        λ n e. ground (arith, s a, find_header-none a l f),
      )
      | inr (h, f) ↦ rw f (elim (Bool-cases h.marked) [
        | inl done ↦
            rw done (
              Pass-refl mem sizes (Reach mem sizes a) l,
              λ n e. (find_header-some a l h f).1 ∙ done,
            )
        | inr fresh ↦ rw fresh (
            let r =
              scan-set_marked-Pass a h.slots l (sym (s a) ∙ (find_header-some a l h f).0)
                ((find_header-some a l h f).1 ∙ fresh) s u in
            (r.0, λ n e. r.1))
      ])
    ]

  -- With as much fuel as there are unmarked objects, `mark` keeps every promise of a visitor.
  pub mark-Visits : (fuel : ℕ) → Visits fuel (mark fuel mem)
  unfolding mark
  mark-Visits zero c l s u =
      (Pass-refl mem sizes (Reach mem sizes c) l, λ n e. all_marked c n l (omega arith) (s c ∙ e))
  mark-Visits (suc fuel) c l s u =
      mark_found-Pass fuel (mark fuel mem) (mark-Visits fuel) c l s (omega arith)

  -- Reachable from one of the roots.
  abbrev pub Rooted : List ℕ → ℕ → Type 0
  Rooted [] b = ⊥
  Rooted (r ∷ rs) b = Reach mem sizes r b ⊎ Rooted rs b

  pub mark_roots-Pass :
      (fuel : ℕ) (roots : List ℕ) (l : List Header)
      → Shaped mem sizes l
      → unmarked l ≤ fuel
      → Pass mem sizes (Rooted roots) l (mark_roots fuel mem roots l)
  unfolding mark_roots
  mark_roots-Pass fuel [] l s u = Pass-refl mem sizes ⊥_of l
    where
      ⊥_of : ℕ → Type 0
      ⊥_of b = ⊥
  mark_roots-Pass fuel (r ∷ rs) l s u =
      let first = (mark-Visits fuel r l s u).0 in
      Pass-trans mem sizes (Rooted (r ∷ rs)) (Pass-weaken mem sizes (λ b. inl) first) (
        Pass-weaken mem sizes (λ b. inr)
          (mark_roots-Pass fuel rs (mark fuel mem r l) (Pass-Shaped mem sizes first s)
            (omega (arith, first.fewer))))

  Reach-marked :
      (k : List Header) (r b m : ℕ)
      → ((b c : ℕ) → is_marked b k ≡ true → Edge mem sizes b c → is_marked c k ≡ true)
      → ((n : ℕ) → sizes r ≡ some n → is_marked r k ≡ true)
      → Reach mem sizes r b
      → sizes b ≡ some m
      → is_marked b k ≡ true
  Reach-marked k r b m closed start here e = start m e
  Reach-marked k r c m closed start (next {b} p (edge n i m' x y z v w)) e =
      closed b c (Reach-marked k r b n closed start p x) (edge n i m' x y z v w)

  roots-marked :
      (fuel : ℕ) (roots : List ℕ) (l : List Header) (b m : ℕ)
      → Shaped mem sizes l
      → unmarked l ≤ fuel
      → (k : List Header)
      → ((b : ℕ) → is_marked b (mark_roots fuel mem roots l) ≡ true → is_marked b k ≡ true)
      → ((b c : ℕ) → is_marked b k ≡ true → Edge mem sizes b c → is_marked c k ≡ true)
      → Rooted roots b
      → sizes b ≡ some m
      → is_marked b k ≡ true
  unfolding mark_roots
  roots-marked fuel [] l b m s u k later closed p e = absurd p
  roots-marked fuel (r ∷ rs) l b m s u k later closed (inl p) e =
      Reach-marked k r b m closed
        (λ n h.
          later r ((mark_roots-Pass fuel rs (mark fuel mem r l) shaped few).grows r (first.1 n h)))
        p e
    where
      first :
          Pass mem sizes (Reach mem sizes r) l (mark fuel mem r l)
          × ((n : ℕ) → sizes r ≡ some n → is_marked r (mark fuel mem r l) ≡ true)
      first = mark-Visits fuel r l s u

      shaped : Shaped mem sizes (mark fuel mem r l)
      shaped = Pass-Shaped mem sizes first.0 s

      few : unmarked (mark fuel mem r l) ≤ fuel
      few = omega (arith, first.0.fewer)
  roots-marked fuel (r ∷ rs) l b m s u k later closed (inr p) e =
      let first = (mark-Visits fuel r l s u).0 in
      roots-marked fuel rs (mark fuel mem r l) b m (Pass-Shaped mem sizes first s)
        (omega (arith, first.fewer)) k later closed p e

  -- After the roots are marked, the marked objects are exactly the reachable ones.
  pub is_marked-mark_roots :
      (fuel : ℕ) (roots : List ℕ) (l : List Header) (b m : ℕ)
      → Shaped mem sizes l
      → unmarked l ≤ fuel
      → ((c : ℕ) → is_marked c l ≡ false)
      → sizes b ≡ some m
      → (is_marked b (mark_roots fuel mem roots l) ≡ true) ↔ Rooted roots b
  is_marked-mark_roots fuel roots l b m s u fresh e =
      let pass = mark_roots-Pass fuel roots l s u in
      (
        λ h. pass.sound b (fresh b) h,
        λ p.
            roots-marked fuel roots l b m s u (mark_roots fuel mem roots l) (λ c h. h)
              (λ c d h t. pass.closed c d (fresh c) h t) p e,
      )
