-- ===== src/Dagon/Text/RoundTrip.antt =====
-- What Display writes is what parse reads.
use Prim.Native.Char.{code}
use Prim.Native.String
use Prim.Native.String.{String}
use text.Mathlib.TextLemmas.{cons-append, nil-append, append-nil}
use rlyeh_language.Common.{
  ℕ, ◌+◌, ◌-◌, ◌*◌, ◌≤◌, ◌<◌, ◌≡◌, refl, sym, ap, subst, ◌∙◌, true, false, some, List, [], ◌∷◌, ltb,
  ◌==◌, All, arith,
}
use rlyeh_language.Common.Decimal.{
  decimal, digits, text_of, digit_char, value_from, code-digit_char, digits-All, digits-cons,
  value_from-digits,
}
use rlyeh_language.Dagon.Version.{Version, word}
use rlyeh_language.Dagon.Text.{
  is_whitespace, trim_start, is_blank, trim_end, trim, push_front, split_dots, is_ascii_digit,
  number_from, number, from_parts, parse_version, print_version,
}

-- No white space.
abbrev pub Plain : String → Type 0
Plain String.[] = Unit
Plain (String.◌∷◌ c s) = (is_whitespace (code c) ≡ false) × Plain s

abbrev pub Digits : List ℕ → Type 0
Digits ds = All (λ d. d < 10) ds

is_whitespace-digit_char : (d : ℕ) → d < 10 → is_whitespace (code (digit_char d)) ≡ false
unfolding is_whitespace
is_whitespace-digit_char d h = ap is_whitespace (code-digit_char d h) ∙ ground arith

text_of-Plain :
    (ds : List ℕ) (s : String) → Digits ds → Plain s → Plain (String.◌++◌ (text_of ds) s)
unfolding text_of
text_of-Plain [] s h p = subst Plain (sym (nil-append s)) p
text_of-Plain (d ∷ ds) s h p =
    subst Plain (sym (cons-append (digit_char d) (text_of ds) s))
      (is_whitespace-digit_char d h.0, text_of-Plain ds s h.1 p)

trim_start-Plain : (s : String) → Plain s → trim_start s ≡ s
unfolding trim_start
trim_start-Plain String.[] p = refl
trim_start-Plain (String.◌∷◌ c s) p = rw p.0 refl

trim_end-Plain : (s : String) → Plain s → trim_end s ≡ s
unfolding trim_end
trim_end-Plain String.[] p = refl
trim_end-Plain (String.◌∷◌ c s) p = rw p.0 (ap (λ t. String.◌∷◌ c t) (trim_end-Plain s p.1))

pub trim-Plain : (s : String) → Plain s → trim s ≡ s
unfolding trim
trim-Plain s p = ap trim_end (trim_start-Plain s p) ∙ trim_end-Plain s p

code-dot : (d : ℕ) → d < 10 → (code (digit_char d) == 46) ≡ false
code-dot d h = ground (arith, code-digit_char d h)

split_dots-text_of : (ds : List ℕ) → Digits ds → split_dots (text_of ds) ≡ text_of ds ∷ []
unfolding split_dots push_front text_of
split_dots-text_of [] h = refl
split_dots-text_of (d ∷ ds) h =
    rw (code-dot d h.0) (ap (push_front (digit_char d)) (split_dots-text_of ds h.1))

split_dots-append :
    (ds : List ℕ) (s : String)
    → Digits ds
    → split_dots (String.◌++◌ (text_of ds) (String.◌∷◌ "." s)) ≡ text_of ds ∷ split_dots s
unfolding split_dots push_front text_of
split_dots-append [] s h = ap split_dots (nil-append (String.◌∷◌ "." s))
split_dots-append (d ∷ ds) s h =
    ap split_dots (cons-append (digit_char d) (text_of ds) (String.◌∷◌ "." s))
    ∙ rw (code-dot d h.0) (ap (push_front (digit_char d)) (split_dots-append ds s h.1))

value_from-le : (acc : ℕ) (ds : List ℕ) → acc ≤ value_from acc ds
unfolding value_from
value_from-le acc [] = omega arith
value_from-le acc (d ∷ ds) = omega (arith, value_from-le (acc * 10 + d) ds)

number_from-text_of :
    (acc : ℕ) (ds : List ℕ)
    → Digits ds
    → value_from acc ds < word
    → number_from acc (text_of ds) ≡ some (value_from acc ds)
unfolding number_from text_of value_from is_ascii_digit
number_from-text_of acc [] h l = refl
number_from-text_of acc (d ∷ ds) h l =
    let c = code-digit_char d h.0 in
    let e : acc * 10 + (code (digit_char d) - 48) ≡ acc * 10 + d = omega (arith, c) in
    let small : ltb (acc * 10 + d) word ≡ true = ground (arith, value_from-le (acc * 10 + d) ds) in
    let is : is_ascii_digit (code (digit_char d)) ≡ true = ground (arith, c) in
    rw (is, e, small) (number_from-text_of (acc * 10 + d) ds h.1 l)

number-decimal : (n : ℕ) → n < word → number (decimal n) ≡ some n
unfolding number decimal is_blank text_of
number-decimal n h =
    let (d, ds, e) = digits-cons n n (omega arith) in
    let v = value_from-digits n n (omega arith) in
    let full : is_blank (text_of (digits n n)) ≡ false = ap (λ l. is_blank (text_of l)) e in
    rw full (
      number_from-text_of 0 (digits n n) (digits-All n n (omega arith)) (omega (arith, v))
      ∙ ap some v)

-- The components are of 64 bits.
abbrev pub Fits : Version → Type 0
Fits v = (v.major < word) × (v.minor < word) × (v.patch < word)

pub print_version-Plain : (v : Version) → Plain (print_version v)
unfolding print_version decimal text_of is_whitespace
print_version-Plain v =
    let all : (n : ℕ) → Digits (digits n n) = λ n. digits-All n n (omega arith) in
    let last : Plain (text_of (digits v.patch v.patch)) =
      subst Plain (append-nil (text_of (digits v.patch v.patch)))
        (text_of-Plain (digits v.patch v.patch) String.[] (all v.patch) tt) in
    text_of-Plain (digits v.major v.major) _ (all v.major)
      (refl, text_of-Plain (digits v.minor v.minor) _ (all v.minor) (refl, last))

split_dots-print_version :
    (v : Version)
    → split_dots (print_version v) ≡ decimal v.major ∷ decimal v.minor ∷ decimal v.patch ∷ []
unfolding print_version decimal
split_dots-print_version v =
    let all : (n : ℕ) → Digits (digits n n) = λ n. digits-All n n (omega arith) in
    split_dots-append (digits v.major v.major) _ (all v.major)
    ∙ ap (λ l. decimal v.major ∷ l)
        (split_dots-append (digits v.minor v.minor) _ (all v.minor)
          ∙ ap (λ l. decimal v.minor ∷ l)
              (split_dots-text_of (digits v.patch v.patch) (all v.patch)))

-- A version of 64-bit components is parsed back from what Display writes.
pub parse_version-print_version : (v : Version) → Fits v → parse_version (print_version v) ≡ some v
unfolding parse_version from_parts
parse_version-print_version v (a, b, c) =
    ap (λ s. from_parts (split_dots s)) (trim-Plain (print_version v) (print_version-Plain v))
    ∙ ap from_parts (split_dots-print_version v)
    ∙ rw (number-decimal v.major a, number-decimal v.minor b, number-decimal v.patch c) refl
