-- ===== src/Region/Alignment.antt =====
-- The bump step of region.rs rounds the cursor up by a mask. It claims that this is what
-- `checked_next_multiple_of` gives for a power of two.
use Prim.Native.Nat.{bit_and, digits, bit_and-bitwise}
use native.Mathlib.Nat.{pow-suc, div-div-eq-div-mul, div-eq_of_lt-le, div-add-mod, mod-lt}
use rlyeh_language.Common.{
  ℕ, zero, suc, ◌+◌, ◌-◌, ◌*◌, ◌/◌, ◌%◌, ◌^◌, ◌≤◌, ◌<◌, ◌≡◌, ◌≢◌, refl, ap, subst, ◌∙◌, min, Option,
  none, some, ltb, ◌==◌, if◌then◌else◌, arith, Bool-cases, ==_iff, inl, inr, lt→ltb,
}

abbrev usize_mod : ℕ
usize_mod = 2 ^ 64

unfoldable pub checked_add : ℕ → ℕ → Option ℕ
checked_add a b = if ltb (a + b) usize_mod then some (a + b) else none

pub checked_add-some : (a b c : ℕ) → checked_add a b ≡ some c → c ≡ a + b
unfolding checked_add
checked_add-some a b c e = ground arith

-- `!x` of a 64-bit word.
abbrev pub complement : ℕ → ℕ
complement x = usize_mod - 1 - x

-- off & !(a - 1), where off = cursor + (a - 1)
unfoldable pub mask_up : ℕ → ℕ → Option ℕ
unfolding checked_add
mask_up cursor a = elim (checked_add cursor (a - 1)) [
  | none ↦ none
  | some off ↦ some (bit_and off (complement (a - 1)))
]

unfoldable pub checked_next_multiple_of : ℕ → ℕ → Option ℕ
unfolding checked_add
checked_next_multiple_of cursor a =
    if cursor % a == 0 then some cursor else checked_add cursor (a - cursor % a)

-- One binary digit of `bit_and`.
abbrev and_below : ℕ → ℕ → ℕ → ℕ
and_below n a b = digits (λ b. zero) min n a b

and_below_enough : (n m a b : ℕ) → a ≤ n → a ≤ m → and_below n a b ≡ and_below m a b
and_below_enough zero zero a b p q = refl
and_below_enough zero (suc m) zero b p q = refl
and_below_enough zero (suc m) (suc a) b p q = absurd (omega arith)
and_below_enough (suc n) zero zero b p q = refl
and_below_enough (suc n) zero (suc a) b p q = absurd (omega arith)
and_below_enough (suc n) (suc m) zero b p q = refl
and_below_enough (suc n) (suc m) (suc a) b p q =
    omega (arith, and_below_enough n m (suc a / 2) (b / 2) (omega arith) (omega arith))

bit_and_digit : (a b : ℕ) → bit_and a b ≡ 2 * bit_and (a / 2) (b / 2) + min (a % 2) (b % 2)
bit_and_digit zero b = omega (arith, bit_and-bitwise 0 b, bit_and-bitwise 0 (b / 2))
bit_and_digit (suc a) b = omega (
  arith,
  bit_and-bitwise (suc a) b,
  bit_and-bitwise (suc a / 2) (b / 2),
  and_below_enough a (suc a / 2) (suc a / 2) (b / 2) (omega arith) (omega arith),
)

pow_double : (n : ℕ) → 2 ^ suc n ≡ 2 * 2 ^ n
pow_double n = omega (arith, pow-suc 2 n)

pub pow_pos : (n : ℕ) → 0 < 2 ^ n
pow_pos zero = omega arith
pow_pos (suc n) = omega (arith, pow_double n, pow_pos n)

bit_and-zero : (n x : ℕ) → x ≤ n → bit_and x 0 ≡ 0
bit_and-zero zero zero h = refl
bit_and-zero zero (suc x) h = absurd (omega arith)
bit_and-zero (suc n) x h = omega (arith, bit_and_digit x 0, bit_and-zero n (x / 2) (omega arith))

-- A mask of `w` ones keeps a word below 2 ^ w.
bit_and-ones : (w x : ℕ) → x < 2 ^ w → bit_and x (2 ^ w - 1) ≡ x
bit_and-ones zero x h = omega (arith, bit_and-zero x x (omega arith))
bit_and-ones (suc w) x h =
    let halves : (2 ^ suc w - 1) / 2 ≡ 2 ^ w - 1 = omega (arith, pow_double w, pow_pos w) in
    omega (
      arith,
      pow_double w,
      pow_pos w,
      bit_and_digit x (2 ^ suc w - 1),
      ap (bit_and (x / 2)) halves,
      bit_and-ones w (x / 2) (omega (arith, pow_double w)),
    )

-- A mask of ones above `k` zeros rounds down to a multiple of 2 ^ k.
bit_and-high : (k w x : ℕ) → k ≤ w → x < 2 ^ w → bit_and x (2 ^ w - 2 ^ k) ≡ x / 2 ^ k * 2 ^ k
bit_and-high zero w x h l = bit_and-ones w x l ∙ omega arith
bit_and-high (suc k) zero x h l = absurd (omega arith)
bit_and-high (suc k) (suc w) x h l =
    let halves : (2 ^ suc w - 2 ^ suc k) / 2 ≡ 2 ^ w - 2 ^ k =
      omega (arith, pow_double w, pow_double k) in
    let q : ℕ = x / 2 / 2 ^ k in
    omega (
      arith,
      bit_and_digit x (2 ^ suc w - 2 ^ suc k),
      ap (bit_and (x / 2)) halves,
      bit_and-high k w (x / 2) (omega arith) (omega (arith, pow_double w)),
      pow_double w,
      pow_double k,
      div-div-eq-div-mul x 2 (2 ^ k),
      ap (λ (t : ℕ). x / t * t) (pow_double k),
      ap (λ (t : ℕ). t * (2 * 2 ^ k)) (div-div-eq-div-mul x 2 (2 ^ k)),
    )

-- Rounding up by a division, where the cursor is and where it is not a multiple already.
round_up_exact : (p c : ℕ) → 0 < p → c % p ≡ 0 → (c + (p - 1)) / p * p ≡ c
round_up_exact p c h r =
    let q : (c + (p - 1)) / p ≡ c / p =
      div-eq_of_lt-le p (omega (arith, div-add-mod c p)) (omega (arith, div-add-mod c p)) in
    omega (arith, ap (λ (t : ℕ). t * p) q, div-add-mod c p)

round_up_next : (p c : ℕ) → 0 < p → 0 < c % p → (c + (p - 1)) / p * p ≡ c + (p - c % p)
round_up_next p c h r =
    let q : (c + (p - 1)) / p ≡ c / p + 1 =
      div-eq_of_lt-le p (omega (arith, div-add-mod c p, mod-lt c h))
        (omega (arith, div-add-mod c p, mod-lt c h)) in
    omega (arith, ap (λ (t : ℕ). t * p) q, div-add-mod c p, mod-lt c h)

complement_mask : (k : ℕ) → complement (2 ^ k - 1) ≡ 2 ^ 64 - 2 ^ k
complement_mask k = omega (arith, pow_pos k)

-- For a power of two up to 2 ^ 63, and as long as rounding up stays below 2 ^ 64, the mask and
-- `checked_next_multiple_of` give the same offset.
pub mask_up-checked_next_multiple_of :
    (k cursor : ℕ)
    → k < 64
    → cursor + (2 ^ k - 1) < usize_mod
    → mask_up cursor (2 ^ k) ≡ checked_next_multiple_of cursor (2 ^ k)
unfolding mask_up checked_next_multiple_of
mask_up-checked_next_multiple_of k c h l = elim (Bool-cases (c % 2 ^ k == 0)) [
  | inl z ↦ rw z (down ∙ ap some (round_up_exact (2 ^ k) c (pow_pos k) (ground arith)))
  | inr z ↦ rw z (down ∙ up (ground arith))
]
  where
    down :
        (elim (checked_add c (2 ^ k - 1)) [
          | none ↦ none
          | some off ↦ some (bit_and off (complement (2 ^ k - 1)))
        ])
        ≡ some ((c + (2 ^ k - 1)) / 2 ^ k * 2 ^ k)
    down =
        rw (lt→ltb (c + (2 ^ k - 1)) usize_mod l, complement_mask k)
          (ap some (bit_and-high k 64 (c + (2 ^ k - 1)) (omega arith) l))

    up :
        0 < c % 2 ^ k → some ((c + (2 ^ k - 1)) / 2 ^ k * 2 ^ k) ≡ checked_add c (2 ^ k - c % 2 ^ k)
    up r =
        rw (round_up_next (2 ^ k) c (pow_pos k) r)
          (rw (lt→ltb (c + (2 ^ k - c % 2 ^ k)) usize_mod (omega (arith, mod-lt c (pow_pos k)))))

-- At or above the cursor, by less than the alignment, and a multiple of it.
abbrev pub Aligned : ℕ → ℕ → ℕ → Type 0
Aligned cursor a m = (cursor ≤ m) × (m < cursor + a) × ((q : ℕ) × (m ≡ a * q))

next_multiple : (c a : ℕ) → 0 < a → c % a ≢ 0 → Aligned c a (c + (a - c % a))
next_multiple c a h n = (
  omega arith,
  omega (arith, mod-lt c h),
  (suc (c / a), omega (arith, div-add-mod c a, mod-lt c h)),
)

pub checked_next_multiple_of-Aligned :
    (c a m : ℕ) → 0 < a → checked_next_multiple_of c a ≡ some m → Aligned c a m
unfolding checked_next_multiple_of checked_add
checked_next_multiple_of-Aligned c a m h e = elim (Bool-cases (c % a == 0)) [
  | inl z ↦
      let at : c ≡ m = ground arith in
      (omega arith, omega arith, (c / a, ground (arith, div-add-mod c a, ==_iff (c % a) 0)))
  | inr z ↦
      let at : c + (a - c % a) ≡ m = ground arith in
      subst (Aligned c a) at (next_multiple c a h (ground (arith, ==_iff (c % a) 0)))
]

zero_multiple : (a : ℕ) → 0 < a → 0 % a ≡ 0
zero_multiple a h = omega (arith, div-add-mod 0 a, mod-lt 0 h)

pub checked_next_multiple_of-zero : (a : ℕ) → 0 < a → checked_next_multiple_of 0 a ≡ some 0
unfolding checked_next_multiple_of
checked_next_multiple_of-zero a h = ground (arith, zero_multiple a h)
