-- ===== src/Dagon/Version.antt =====
-- dagon/src/version.rs: versions and version requirements. The solver's version sets, the crate
-- pubgrub, are a parameter. A sum that overflows wraps, as in a release build.
use rlyeh_language.Common.{
  ℕ, ◌+◌, ◌%◌, ◌^◌, ◌≤◌, ◌<◌, ◌≡◌, ◌↔◌, ◌⊎◌, Bool, true, not, ◌&&◌, ◌||◌, Option, none, some, ltb,
  ◌==◌, if◌then◌else◌, arith,
}

pub record Version : Type 0 where
  pub major : ℕ
  pub minor : ℕ
  pub patch : ℕ

-- The derived comparisons.
unfoldable pub version_eq : Version → Version → Bool
version_eq a b = a.major == b.major && a.minor == b.minor && a.patch == b.patch

unfoldable pub version_lt : Version → Version → Bool
version_lt a b =
    ltb a.major b.major
    || a.major == b.major && (ltb a.minor b.minor || a.minor == b.minor && ltb a.patch b.patch)

pub data VersionReq : Type 0 where
  any : VersionReq
  compatible exact gte gt lte lt : Version → VersionReq

abbrev pub word : ℕ
word = 2 ^ 64

unfoldable pub compatible_range : Version → Option Version
compatible_range v =
    if ltb 0 v.major
    then some (record { major = (v.major + 1) % word; minor = 0; patch = 0 })
    else if ltb 0 v.minor
    then some (record { major = 0; minor = (v.minor + 1) % word; patch = 0 })
    else if ltb 0 v.patch
    then some (record { major = 0; minor = 0; patch = (v.patch + 1) % word })
    else none

abbrev pub within : Version → Option Version → Version → Bool
within base (some hi) v = not (version_lt v base) && version_lt v hi
within base none v = version_eq v base

-- VersionReq::matches
unfoldable pub matches : VersionReq → Version → Bool
unfolding version_eq version_lt compatible_range
matches VersionReq.any v = true
matches (VersionReq.exact e) v = version_eq v e
matches (VersionReq.gte e) v = not (version_lt v e)
matches (VersionReq.gt e) v = version_lt e v
matches (VersionReq.lte e) v = not (version_lt e v)
matches (VersionReq.lt e) v = version_lt v e
matches (VersionReq.compatible base) v = within base (compatible_range base) v

-- What a caret requirement asks for: the components up to the first that is not zero agree, and the
-- rest is no older.
abbrev pub Caret : Version → Version → Type 0
Caret base v =
    ((0 < base.major)
      × (v.major ≡ base.major)
      × ((base.minor < v.minor) ⊎ (v.minor ≡ base.minor) × (base.patch ≤ v.patch)))
    ⊎ ((base.major ≡ 0)
        × (v.major ≡ 0)
        × (v.minor ≡ base.minor)
        × ((0 < base.minor) × (base.patch ≤ v.patch) ⊎ (base.minor ≡ 0) × (v.patch ≡ base.patch)))

-- Against a requirement with every component below the largest 64-bit number, a version meets
-- the caret requirement exactly when it is compatible in the sense of semantic versioning.
pub matches-Caret :
    (base v : Version)
    → base.major + 1 < word
    → base.minor + 1 < word
    → base.patch + 1 < word
    → (matches (VersionReq.compatible base) v ≡ true) ↔ Caret base v
unfolding matches version_eq version_lt compatible_range
matches-Caret base v a b c = ground arith
