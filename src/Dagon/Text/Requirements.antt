-- ===== src/Dagon/Text/Requirements.antt =====
-- What Display writes of a requirement is what parse reads.
use Prim.Native.Char.{Char, code}
use Prim.Native.String
use Prim.Native.String.{String}
use text.Mathlib.Text.{◌==◌ as str_eq}
use text.Mathlib.TextEquality.{eq_iff}
use text.Mathlib.TextLemmas.{cons-append, head-eq_of_cons-eq}
use rlyeh_language.Common.{
  ℕ, ◌<◌, ◌≡◌, ◌≢◌, refl, ap, subst, ◌∙◌, inl, inr, false, none, some, List, [], ◌∷◌, ◌==◌, arith,
  Bool-cases,
}
use rlyeh_language.Common.Decimal.{
  decimal, text_of, digit_char, code-digit_char, digits-All, digits-cons,
}
use rlyeh_language.Dagon.Version.{Version, VersionReq}
use rlyeh_language.Dagon.Text.{
  is_whitespace, trim_start, is_blank, trim_end, trim, print_version, strip_prefix, first_prefix,
  parse_trimmed, parse_req, print_req, prefixes,
}
use rlyeh_language.Dagon.Text.RoundTrip.{
  Plain, Digits, trim-Plain, Fits, print_version-Plain, parse_version-print_version,
}

-- A version begins with a digit.
print_version-cons :
    (v : Version)
    → (d : ℕ) × (d < 10) × (s : String) × (print_version v ≡ String.◌∷◌ (digit_char d) s)
unfolding print_version decimal text_of
print_version-cons v =
    let (d, ds, e) = digits-cons v.major v.major (omega arith) in
    let h : Digits (d ∷ ds) = subst Digits e (digits-All v.major v.major (omega arith)) in
    let rest = String.◌∷◌ "." (String.◌++◌ (decimal v.minor) (String.◌∷◌ "." (decimal v.patch))) in
    (
      d,
      h.0,
      String.◌++◌ (text_of ds) rest,
      ap (λ l. String.◌++◌ (text_of l) rest) e ∙ cons-append (digit_char d) (text_of ds) rest,
    )

strip_prefix-print_version : (v : Version) → strip_prefix "=" (print_version v) ≡ none
unfolding strip_prefix
strip_prefix-print_version v =
    let (d, l, s, e) = print_version-cons v in
    let differ : (61 == code (digit_char d)) ≡ false = ground (arith, code-digit_char d l) in
    ap (strip_prefix "=") e ∙ rw differ refl

not_star : (c : Char) (s : String) → code c ≢ 42 → str_eq (String.◌∷◌ c s) "*" ≡ false
not_star c s n = elim (Bool-cases (str_eq (String.◌∷◌ c s) "*")) [
  | inr f ↦ f
  | inl t ↦
      let same : ◌≡◌ {A = Char} c "*" = head-eq_of_cons-eq ((eq_iff (String.◌∷◌ c s) "*").0 t) in
      absurd (n (ap code same))
]

-- The version of a requirement.
abbrev pub ReqFits : VersionReq → Type 0
ReqFits VersionReq.any = Unit
ReqFits (VersionReq.compatible v) = Fits v
ReqFits (VersionReq.exact v) = Fits v
ReqFits (VersionReq.gte v) = Fits v
ReqFits (VersionReq.gt v) = Fits v
ReqFits (VersionReq.lte v) = Fits v
ReqFits (VersionReq.lt v) = Fits v

parse_req-Plain :
    (c : Char) (s : String)
    → is_whitespace (code c) ≡ false
    → Plain s
    → code c ≢ 42
    → parse_req (String.◌∷◌ c s) ≡ first_prefix prefixes (String.◌∷◌ c s)
unfolding parse_req parse_trimmed is_blank
parse_req-Plain c s w p n =
    ap parse_trimmed (trim-Plain (String.◌∷◌ c s) (w, p)) ∙ rw (not_star c s n) refl

-- A prefix that does not fit is passed over.
first_prefix-none :
    (p : String) (ctor : Version → VersionReq) (rest : List (String × (Version → VersionReq)))
    (s : String)
    → strip_prefix p s ≡ none
    → first_prefix ((p, ctor) ∷ rest) s ≡ first_prefix rest s
unfolding first_prefix
first_prefix-none p ctor rest s e = rw (e, first_prefix) refl

-- A requirement, whose version is of 64-bit components, is parsed back from what Display writes.
pub parse_req-print_req : (r : VersionReq) → ReqFits r → parse_req (print_req r) ≡ some r
unfolding print_req first_prefix strip_prefix is_whitespace parse_req parse_trimmed trim trim_start
    trim_end is_blank
parse_req-print_req VersionReq.any h = refl
parse_req-print_req (VersionReq.compatible v) h =
    parse_req-Plain "^" (print_version v) refl (print_version-Plain v) (omega arith)
    ∙ rw (parse_version-print_version v h) refl
parse_req-print_req (VersionReq.exact v) h =
    parse_req-Plain "=" (print_version v) refl (print_version-Plain v) (omega arith)
    ∙ rw (parse_version-print_version v h) refl
parse_req-print_req (VersionReq.gte v) h =
    parse_req-Plain ">" (String.◌∷◌ "=" (print_version v)) refl (refl, print_version-Plain v)
      (omega arith)
    ∙ rw (parse_version-print_version v h) refl
parse_req-print_req (VersionReq.gt v) h =
    parse_req-Plain ">" (print_version v) refl (print_version-Plain v) (omega arith)
    ∙ first_prefix-none ">=" VersionReq.gte
        ((">", VersionReq.gt) ∷ ("<=", VersionReq.lte) ∷ ("<", VersionReq.lt) ∷ [])
        (String.◌∷◌ ">" (print_version v)) (strip_prefix-print_version v)
    ∙ rw (parse_version-print_version v h) refl
parse_req-print_req (VersionReq.lte v) h =
    parse_req-Plain "<" (String.◌∷◌ "=" (print_version v)) refl (refl, print_version-Plain v)
      (omega arith)
    ∙ rw (parse_version-print_version v h) refl
parse_req-print_req (VersionReq.lt v) h =
    parse_req-Plain "<" (print_version v) refl (print_version-Plain v) (omega arith)
    ∙ first_prefix-none "<=" VersionReq.lte (("<", VersionReq.lt) ∷ [])
        (String.◌∷◌ "<" (print_version v)) (strip_prefix-print_version v)
    ∙ rw (parse_version-print_version v h) refl
