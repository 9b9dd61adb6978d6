-- ===== src/Dagon/Examples.antt =====
-- The theorems on versions, the solver's sets being Boolean functions of versions.
use rlyeh_language.Common.{some, none, ℕ, ◌≡◌, ◌↔◌, refl, Bool, true, not, ◌&&◌, arith}
use rlyeh_language.Dagon.Version.{
  Version, VersionReq, version_eq, version_lt, matches, Caret, matches-Caret,
}
use rlyeh_language.Dagon.Text.{
  parse_version, parse_req, print_req, trim, trim_start, trim_end, is_whitespace, is_blank,
  parse_trimmed, first_prefix, strip_prefix, split_dots, push_front, from_parts, number,
  number_from, is_ascii_digit,
}
use rlyeh_language.Dagon.Text.Requirements.{parse_req-print_req}
use rlyeh_language.Dagon.Ranges.{
  Pubgrub, Laws, to_semantic, to_ranges, contains-to_ranges, to_semantic_collides,
}

abbrev version : ℕ → ℕ → ℕ → Version
version a b c = record { major = a; minor = b; patch = c }

abbrev sets : Pubgrub
sets = record {
  SemanticVersion = Version;
  new = version;
  into = λ v. (v.major, v.minor, v.patch);
  Ranges = Version → Bool;
  full = λ v. true;
  singleton = λ u v. version_eq v u;
  higher_than = λ u v. not (version_lt v u);
  strictly_higher_than = λ u v. version_lt u v;
  lower_than = λ u v. not (version_lt u v);
  strictly_lower_than = λ u v. version_lt v u;
  between = λ u w v. not (version_lt v u) && version_lt v w;
  contains = λ r v. r v;
}

sets-Laws : Laws sets
sets-Laws = record {
  into-new = λ a b c p q r. refl;
  in_full = λ v. refl;
  in_singleton = λ u v p q. refl;
  in_higher = λ u v p q. refl;
  in_strictly_higher = λ u v p q. refl;
  in_lower = λ u v p q. refl;
  in_strictly_lower = λ u v p q. refl;
  in_between = λ u w v p q r. refl;
}

-- ^1.2.3 and 1.4.0
matches-Caret_example :
    (matches (VersionReq.compatible (version 1 2 3)) (version 1 4 0) ≡ true)
    ↔ Caret (version 1 2 3) (version 1 4 0)
matches-Caret_example =
    matches-Caret (version 1 2 3) (version 1 4 0) (omega arith) (omega arith) (omega arith)

contains-to_ranges_example :
    sets.contains
      (to_ranges sets (VersionReq.compatible (version 1 2 3)))
      (to_semantic sets (version 1 4 0))
    ≡ matches (VersionReq.compatible (version 1 2 3)) (version 1 4 0)
contains-to_ranges_example =
    contains-to_ranges sets sets-Laws (VersionReq.compatible (version 1 2 3)) (version 1 4 0)
      (omega arith, omega arith, omega arith) (omega arith, omega arith, omega arith)

to_semantic_collides_example :
    to_semantic sets (version 4294967297 0 0) ≡ to_semantic sets (version 1 0 0)
to_semantic_collides_example = to_semantic_collides sets (version 1 0 0) 1 0 0

parse_req-print_req_example :
    parse_req (print_req (VersionReq.gt (version 1 20 3))) ≡ some (VersionReq.gt (version 1 20 3))
parse_req-print_req_example =
    parse_req-print_req (VersionReq.gt (version 1 20 3)) (omega arith, omega arith, omega arith)

parse_req_test : parse_req " ^1.2" ≡ some (VersionReq.compatible (version 1 2 0))
unfolding parse_req trim trim_start trim_end is_whitespace is_blank parse_trimmed first_prefix
    strip_prefix parse_version split_dots push_front from_parts number number_from is_ascii_digit
parse_req_test = refl

parse_version_test : parse_version "1.2.3.4" ≡ none
unfolding parse_version trim trim_start trim_end is_whitespace is_blank split_dots push_front
    from_parts number number_from is_ascii_digit
parse_version_test = refl
