-- ===== src/Gc/Reachability.antt =====
-- Reachability through the words of memory, and what a piece of marking promises about it.
use rlyeh_language.Common.{
  ℕ, ◌+◌, ◌*◌, ◌≤◌, ◌<◌, ◌≡◌, refl, ◌∙◌, ◌≢◌, inl, inr, true, false, Option, some, List, arith,
  Bool-cases,
}
use rlyeh_language.Gc.{Header, Memory}
use rlyeh_language.Gc.Marking.{is_marked, slots_of, unmarked}

-- `sizes` says which addresses are registered objects, and how many slots each has.
module _ (mem : Memory) (sizes : ℕ → Option ℕ) where
  -- Slot `i` of object `a` holds the base `c` of a registered object.
  pub data Edge (a c : ℕ) : Type 0 where
    edge :
        (n i m : ℕ)
        → sizes a ≡ some n
        → i < n
        → mem (a + 8 * i) ≡ c
        → c ≢ 0
        → sizes c ≡ some m
        → Edge a c

  pub data Reach (a : ℕ) : ℕ → Type 0 where
    here : Reach a a
    next : {b c : ℕ} → Reach a b → Edge b c → Reach a c

  pub Reach-step : {a b c : ℕ} → Edge a b → Reach b c → Reach a c
  Reach-step e here = next here e
  Reach-step e (next r f) = next (Reach-step e r) f

  -- What a piece of marking does, where every object that it marks satisfies `R`.
  pub record Pass (R : ℕ → Type 0) (l k : List Header) : Type 0 where
    pub shape : (b : ℕ) → slots_of b k ≡ slots_of b l
    pub grows : (b : ℕ) → is_marked b l ≡ true → is_marked b k ≡ true
    pub closed :
        (b c : ℕ) → is_marked b l ≡ false → is_marked b k ≡ true → Edge b c → is_marked c k ≡ true
    pub sound : (b : ℕ) → is_marked b l ≡ false → is_marked b k ≡ true → R b
    pub fewer : unmarked k ≤ unmarked l

  pub Pass-refl : (R : ℕ → Type 0) (l : List Header) → Pass R l l
  Pass-refl R l = record {
    shape = λ b. refl;
    grows = λ b h. h;
    closed = λ b c p q e. cc;
    sound = λ b p q. cc;
    fewer = omega arith;
  }

  pub Pass-trans : (R : ℕ → Type 0) {l k m : List Header} → Pass R l k → Pass R k m → Pass R l m
  Pass-trans R {l} {k} {m} p q = record {
    shape = λ b. q.shape b ∙ p.shape b;
    grows = λ b h. q.grows b (p.grows b h);
    closed = λ b c u t e. elim (Bool-cases (is_marked b k)) [
      | inl done ↦ q.grows c (p.closed b c u done e)
      | inr not_yet ↦ q.closed b c not_yet t e
    ];
    sound = λ b u t. elim (Bool-cases (is_marked b k)) [
      | inl done ↦ p.sound b u done
      | inr not_yet ↦ q.sound b not_yet t
    ];
    fewer = omega (arith, p.fewer, q.fewer);
  }

  pub Pass-weaken :
      {R S : ℕ → Type 0} {l k : List Header} → ((b : ℕ) → R b → S b) → Pass R l k → Pass S l k
  Pass-weaken w p = record {
    shape = p.shape;
    grows = p.grows;
    closed = p.closed;
    sound = λ b u t. w b (p.sound b u t);
    fewer = p.fewer;
  }

  abbrev pub Shaped : List Header → Type 0
  Shaped l = (b : ℕ) → slots_of b l ≡ sizes b

  pub Pass-Shaped : {R : ℕ → Type 0} {l k : List Header} → Pass R l k → Shaped l → Shaped k
  Pass-Shaped p s = λ b. p.shape b ∙ s b
