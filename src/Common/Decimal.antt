-- ===== src/Common/Decimal.antt =====
-- The decimal form of a number, as `format!` and `Display` write it.
use Prim.Native.Char.{Char, code}
use Prim.Native.String.{String}
use rlyeh_language.Common.{
  ℕ, zero, suc, ◌+◌, ◌-◌, ◌*◌, ◌/◌, ◌%◌, ◌≤◌, ◌<◌, ◌≡◌, refl, sym, ap, ◌∙◌, List, [], ◌∷◌, ◌++◌,
  ltb, if◌then◌else◌, arith, All, All-append, Bool-cases, inl, inr, get_or,
}

-- Most significant digit first; a number has fewer digits than it is large.
unfoldable pub digits : ℕ → ℕ → List ℕ
digits zero n = n ∷ []
digits (suc fuel) n =
    let more = digits fuel (n / 10) ++ (n % 10) ∷ [] in if ltb n 10 then n ∷ [] else more

abbrev pub digit_chars : List Char
digit_chars = "0" ∷ "1" ∷ "2" ∷ "3" ∷ "4" ∷ "5" ∷ "6" ∷ "7" ∷ "8" ∷ "9" ∷ []

abbrev pub digit_char : ℕ → Char
digit_char d = get_or digit_chars d "?"

unfoldable pub text_of : List ℕ → String
text_of [] = String.[]
text_of (d ∷ ds) = String.◌∷◌ (digit_char d) (text_of ds)

unfoldable pub decimal : ℕ → String
unfolding digits text_of
decimal n = text_of (digits n n)

-- The number that digits stand for, after those that were read.
unfoldable pub value_from : ℕ → List ℕ → ℕ
value_from acc [] = acc
value_from acc (d ∷ ds) = value_from (acc * 10 + d) ds

value_from-append :
    (acc : ℕ) (xs ys : List ℕ) → value_from acc (xs ++ ys) ≡ value_from (value_from acc xs) ys
unfolding value_from
value_from-append acc [] ys = refl
value_from-append acc (x ∷ xs) ys = value_from-append (acc * 10 + x) xs ys

pub value_from-digits : (fuel n : ℕ) → n ≤ fuel → value_from 0 (digits fuel n) ≡ n
unfolding value_from digits
value_from-digits zero n h = omega arith
value_from-digits (suc fuel) n h = elim (Bool-cases (ltb n 10)) [
  | inl small ↦ rw small (omega arith)
  | inr large ↦ rw large (
      value_from-append 0 (digits fuel (n / 10)) ((n % 10) ∷ [])
      ∙ omega (arith, value_from-digits fuel (n / 10) (ground arith)))
]

pub digits-All : (fuel n : ℕ) → n ≤ fuel → All (λ d. d < 10) (digits fuel n)
unfolding digits
digits-All zero n h = omega arith
digits-All (suc fuel) n h = elim (Bool-cases (ltb n 10)) [
  | inl small ↦ rw small (ground arith)
  | inr large ↦ rw large (
      All-append (λ d. d < 10) (digits fuel (n / 10)) ((n % 10) ∷ [])
        (digits-All fuel (n / 10) (ground arith)) (omega arith))
]

-- Reading the characters back.
codes_of : String → List ℕ
codes_of String.[] = []
codes_of (String.◌∷◌ c s) = (code c - 48) ∷ codes_of s

pub code-digit_char : (d : ℕ) → d < 10 → code (digit_char d) ≡ 48 + d
code-digit_char zero h = refl
code-digit_char (suc zero) h = refl
code-digit_char (suc (suc zero)) h = refl
code-digit_char (suc (suc (suc zero))) h = refl
code-digit_char (suc (suc (suc (suc zero)))) h = refl
code-digit_char (suc (suc (suc (suc (suc zero))))) h = refl
code-digit_char (suc (suc (suc (suc (suc (suc zero)))))) h = refl
code-digit_char (suc (suc (suc (suc (suc (suc (suc zero))))))) h = refl
code-digit_char (suc (suc (suc (suc (suc (suc (suc (suc zero)))))))) h = refl
code-digit_char (suc (suc (suc (suc (suc (suc (suc (suc (suc zero))))))))) h = refl
code-digit_char (suc (suc (suc (suc (suc (suc (suc (suc (suc (suc d)))))))))) h =
    absurd (omega arith)

codes_of-text_of : (ds : List ℕ) → All (λ d. d < 10) ds → codes_of (text_of ds) ≡ ds
unfolding codes_of text_of
codes_of-text_of [] h = refl
codes_of-text_of (d ∷ ds) h =
    let here : code (digit_char d) - 48 ≡ d = omega (arith, code-digit_char d h.0) in
    cc (here, codes_of-text_of ds h.1)

-- Different numbers have different decimal forms.
pub decimal_inj : (m n : ℕ) → decimal m ≡ decimal n → m ≡ n
unfolding decimal
decimal_inj m n e =
    sym (value_from-digits m m (omega arith))
    ∙ ap (value_from 0) (
        sym (codes_of-text_of (digits m m) (digits-All m m (omega arith)))
        ∙ ap codes_of e
        ∙ codes_of-text_of (digits n n) (digits-All n n (omega arith)))
    ∙ value_from-digits n n (omega arith)

-- The first digit.
pub digits-cons : (fuel n : ℕ) → n ≤ fuel → (d : ℕ) × (ds : List ℕ) × (digits fuel n ≡ d ∷ ds)
unfolding digits
digits-cons zero n h = (n, [], refl)
digits-cons (suc fuel) n h = elim (Bool-cases (ltb n 10)) [
  | inl small ↦ (n, [], rw small refl)
  | inr large ↦
      let (d, ds, e) = digits-cons fuel (n / 10) (ground arith) in
      (d, ds ++ (n % 10) ∷ [], rw (large, e) refl)
]
