-- ===== src/Dagon/Text.antt =====
-- dagon/src/version.rs: versions and requirements as text. `trim`, `split`, `strip_prefix` and the
-- parsing of an unsigned number are those of Rust's standard library. An error is `none`.
pub mod RoundTrip
pub mod Requirements
use Prim.Native.Char.{Char, code}
use Prim.Native.String
use Prim.Native.String.{String}
use text.Mathlib.Text.{◌==◌ as str_eq}
use rlyeh_language.Common.{
  ℕ, zero, suc, ◌+◌, ◌-◌, ◌*◌, Bool, true, false, not, ◌&&◌, ◌||◌, Option, none, some, List, [],
  ◌∷◌, if◌then◌else◌, ltb, leb, ◌==◌, ◌>>=◌,
}
use rlyeh_language.Common.Decimal.{decimal}
use rlyeh_language.Dagon.Version.{Version, VersionReq, word}

-- char::is_whitespace: the code points with the property White_Space.
unfoldable pub is_whitespace : ℕ → Bool
is_whitespace c =
    (leb 9 c && leb c 13)
    || ((c == 32)
        || ((c == 133)
            || ((c == 160)
                || ((c == 5760)
                    || ((leb 8192 c && leb c 8202)
                        || ((c == 8232)
                            || ((c == 8233) || ((c == 8239) || ((c == 8287) || (c == 12288))))))))))

unfoldable pub trim_start : String → String
unfolding is_whitespace
trim_start String.[] = String.[]
trim_start (String.◌∷◌ c s) =
    let rest = trim_start s in if is_whitespace (code c) then rest else String.◌∷◌ c s

unfoldable pub is_blank : String → Bool
is_blank String.[] = true
is_blank (String.◌∷◌ c s) = false

unfoldable pub trim_end : String → String
unfolding is_whitespace is_blank
trim_end String.[] = String.[]
trim_end (String.◌∷◌ c s) =
    let rest = trim_end s in
    if is_whitespace (code c) && is_blank rest then String.[] else String.◌∷◌ c rest

unfoldable pub trim : String → String
trim s = trim_end (trim_start s)

unfoldable pub push_front : Char → List String → List String
push_front c [] = String.◌∷◌ c String.[] ∷ []
push_front c (p ∷ ps) = String.◌∷◌ c p ∷ ps

-- split('.')
unfoldable pub split_dots : String → List String
unfolding push_front
split_dots String.[] = String.[] ∷ []
split_dots (String.◌∷◌ c s) =
    let rest = split_dots s in if code c == 46 then String.[] ∷ rest else push_front c rest

unfoldable pub is_ascii_digit : ℕ → Bool
is_ascii_digit c = leb 48 c && leb c 57

-- The digits of a number after those that were read, up to u64::MAX.
unfoldable pub number_from : ℕ → String → Option ℕ
unfolding is_ascii_digit
number_from acc String.[] = some acc
number_from acc (String.◌∷◌ c s) =
    let rest = number_from (acc * 10 + (code c - 48)) s in
    if is_ascii_digit (code c)
    then (if ltb (acc * 10 + (code c - 48)) word then rest else none)
    else none

unfoldable pub number : String → Option ℕ
unfolding is_blank number_from
number s = if is_blank s then none else number_from 0 s

-- Of one to three parts; the ones that are left out are 0.
unfoldable pub from_parts : List String → Option Version
unfolding number
from_parts (a ∷ []) = number a >>= λ x. some (record { major = x; minor = 0; patch = 0 })
from_parts (a ∷ b ∷ []) =
    number a >>= λ x. number b >>= λ y. some (record { major = x; minor = y; patch = 0 })
from_parts (a ∷ b ∷ c ∷ []) = number a >>= λ x.
    number b >>= λ y. number c >>= λ z. some (record { major = x; minor = y; patch = z })
from_parts _ = none

unfoldable pub parse_version : String → Option Version
unfolding trim split_dots from_parts
parse_version s = from_parts (split_dots (trim s))

unfoldable pub print_version : Version → String
print_version v =
    String.◌++◌ (decimal v.major)
      (String.◌∷◌ "." (String.◌++◌ (decimal v.minor) (String.◌∷◌ "." (decimal v.patch))))

unfoldable pub strip_prefix : String → String → Option String
strip_prefix String.[] s = some s
strip_prefix (String.◌∷◌ c p) String.[] = none
strip_prefix (String.◌∷◌ c p) (String.◌∷◌ d s) =
    let rest = strip_prefix p s in if code c == code d then rest else none

abbrev pub prefixes : List (String × (Version → VersionReq))
prefixes =
    ("^", VersionReq.compatible)
    ∷ ("=", VersionReq.exact)
    ∷ (">=", VersionReq.gte)
    ∷ (">", VersionReq.gt)
    ∷ ("<=", VersionReq.lte)
    ∷ ("<", VersionReq.lt)
    ∷ []

-- The first prefix that fits decides; without one it is a caret requirement.
unfoldable pub first_prefix : List (String × (Version → VersionReq)) → String → Option VersionReq
unfolding strip_prefix parse_version
first_prefix [] s = parse_version s >>= λ v. some (VersionReq.compatible v)
first_prefix ((p, ctor) ∷ rest) s = elim (strip_prefix p s) [
  | some t ↦ parse_version t >>= λ v. some (ctor v)
  | none ↦ first_prefix rest s
]

unfoldable pub parse_trimmed : String → Option VersionReq
unfolding is_blank first_prefix
parse_trimmed s =
    if is_blank s || str_eq s "*" then some VersionReq.any else first_prefix prefixes s

-- VersionReq::parse and its Display.
unfoldable pub parse_req : String → Option VersionReq
unfolding trim parse_trimmed
parse_req s = parse_trimmed (trim s)

unfoldable pub print_req : VersionReq → String
unfolding print_version
print_req VersionReq.any = "*"
print_req (VersionReq.compatible v) = String.◌∷◌ "^" (print_version v)
print_req (VersionReq.exact v) = String.◌∷◌ "=" (print_version v)
print_req (VersionReq.gte v) = String.◌∷◌ ">" (String.◌∷◌ "=" (print_version v))
print_req (VersionReq.gt v) = String.◌∷◌ ">" (print_version v)
print_req (VersionReq.lte v) = String.◌∷◌ "<" (String.◌∷◌ "=" (print_version v))
print_req (VersionReq.lt v) = String.◌∷◌ "<" (print_version v)
