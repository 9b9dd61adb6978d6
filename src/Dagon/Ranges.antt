-- ===== src/Dagon/Ranges.antt =====
-- dagon/src/version.rs: the conversions to and from the solver's versions and sets of versions. The
-- crate pubgrub is an interface, with the laws that its documentation states for its constructors.
use rlyeh_language.Common.{
  ℕ, ◌+◌, ◌*◌, ◌%◌, ◌^◌, ◌<◌, ◌≡◌, refl, ap, ◌∙◌, Bool, true, not, ◌&&◌, Option, none, some, arith,
}
use native.Mathlib.Nat.{mod-eq_of_lt, add-mul-mod_self_left}
use rlyeh_language.Dagon.Version.{
  Version, VersionReq, version_eq, version_lt, compatible_range, matches, within,
}

-- SemanticVersion::new, its conversion into a triple, and Ranges<SemanticVersion>.
pub record Pubgrub : Type 1 where
  pub SemanticVersion : Type 0
  pub new : ℕ → ℕ → ℕ → SemanticVersion
  pub into : SemanticVersion → ℕ × ℕ × ℕ
  pub Ranges : Type 0
  pub full : Ranges
  pub singleton : SemanticVersion → Ranges
  pub higher_than : SemanticVersion → Ranges
  pub strictly_higher_than : SemanticVersion → Ranges
  pub lower_than : SemanticVersion → Ranges
  pub strictly_lower_than : SemanticVersion → Ranges
  pub between : SemanticVersion → SemanticVersion → Ranges
  pub contains : Ranges → SemanticVersion → Bool

-- `v as u32` keeps the low half of the word.
abbrev pub half_word : ℕ
half_word = 2 ^ 32

abbrev pub Small : Version → Type 0
Small v = (v.major < half_word) × (v.minor < half_word) × (v.patch < half_word)

module _ (pg : Pubgrub) where
  open pg use {
    SemanticVersion, new, into, Ranges, full, singleton, higher_than, strictly_higher_than,
    lower_than, strictly_lower_than, between, contains,
  }

  pub to_semantic : Version → SemanticVersion
  to_semantic v = new (v.major % half_word) (v.minor % half_word) (v.patch % half_word)

  pub from_semantic : SemanticVersion → Version
  from_semantic s = record { major = (into s).0; minor = (into s).1; patch = (into s).2 }

  compatible_set : SemanticVersion → Option Version → Ranges
  unfolding to_semantic
  compatible_set s none = singleton s
  compatible_set s (some hi) = between s (to_semantic hi)

  abbrev of_triple : ℕ × ℕ × ℕ → Version
  of_triple t = record { major = t.0; minor = t.1; patch = t.2 }

  -- VersionReq::to_ranges
  pub to_ranges : VersionReq → Ranges
  unfolding compatible_set
  to_ranges VersionReq.any = full
  to_ranges (VersionReq.exact v) = singleton (to_semantic v)
  to_ranges (VersionReq.gte v) = higher_than (to_semantic v)
  to_ranges (VersionReq.gt v) = strictly_higher_than (to_semantic v)
  to_ranges (VersionReq.lte v) = lower_than (to_semantic v)
  to_ranges (VersionReq.lt v) = strictly_lower_than (to_semantic v)
  to_ranges (VersionReq.compatible v) = compatible_set (to_semantic v) (compatible_range v)

  -- A solver's version keeps its components, and is ordered as the triple of them is.
  abbrev pub triple : Version → SemanticVersion
  triple v = new v.major v.minor v.patch

  pub record Laws : Type 0 where
    pub into-new :
        (a b c : ℕ) → a < half_word → b < half_word → c < half_word → into (new a b c) ≡ (a, b, c)
    pub in_full : (v : SemanticVersion) → contains full v ≡ true
    pub in_singleton :
        (u v : Version)
        → Small u
        → Small v
        → contains (singleton (triple u)) (triple v) ≡ version_eq v u
    pub in_higher :
        (u v : Version)
        → Small u
        → Small v
        → contains (higher_than (triple u)) (triple v) ≡ not (version_lt v u)
    pub in_strictly_higher :
        (u v : Version)
        → Small u
        → Small v
        → contains (strictly_higher_than (triple u)) (triple v) ≡ version_lt u v
    pub in_lower :
        (u v : Version)
        → Small u
        → Small v
        → contains (lower_than (triple u)) (triple v) ≡ not (version_lt u v)
    pub in_strictly_lower :
        (u v : Version)
        → Small u
        → Small v
        → contains (strictly_lower_than (triple u)) (triple v) ≡ version_lt v u
    pub in_between :
        (u w v : Version)
        → Small u
        → Small w
        → Small v
        → contains (between (triple u) (triple w)) (triple v)
          ≡ not (version_lt v u) && version_lt v w

  -- The version that a requirement names.
  abbrev pub SmallReq : VersionReq → Type 0
  SmallReq VersionReq.any = Unit
  SmallReq (VersionReq.compatible v) =
      (v.major + 1 < half_word) × (v.minor + 1 < half_word) × (v.patch + 1 < half_word)
  SmallReq (VersionReq.exact v) = Small v
  SmallReq (VersionReq.gte v) = Small v
  SmallReq (VersionReq.gt v) = Small v
  SmallReq (VersionReq.lte v) = Small v
  SmallReq (VersionReq.lt v) = Small v

  to_semantic-Small : (v : Version) → Small v → to_semantic v ≡ triple v
  unfolding to_semantic
  to_semantic-Small v (a, b, c) = rw (to_semantic, mod-eq_of_lt a, mod-eq_of_lt b, mod-eq_of_lt c)

  contains-to_semantic :
      (f : SemanticVersion → Ranges) (u v : Version)
      → Small u
      → Small v
      → contains (f (to_semantic u)) (to_semantic v) ≡ contains (f (triple u)) (triple v)
  contains-to_semantic f u v h s = rw (to_semantic-Small u h, to_semantic-Small v s)

  compatible_range-Small :
      (u hi : Version)
      → SmallReq (VersionReq.compatible u)
      → compatible_range u ≡ some hi
      → Small hi
  unfolding compatible_range
  compatible_range-Small u hi (a, b, c) e = ground arith

  module _ (laws : Laws) where
    contains-compatible_set :
        (u v : Version) (o : Option Version)
        → ((hi : Version) → o ≡ some hi → Small hi)
        → Small u
        → Small v
        → contains (compatible_set (to_semantic u) o) (to_semantic v) ≡ within u o v
    unfolding compatible_set
    contains-compatible_set u v none top h s =
        contains-to_semantic singleton u v h s ∙ laws.in_singleton u v h s
    contains-compatible_set u v (some hi) top h s =
        contains-to_semantic (λ x. between x (to_semantic hi)) u v h s
        ∙ ap (λ x. contains (between (triple u) x) (triple v)) (to_semantic-Small hi (top hi refl))
        ∙ laws.in_between u hi v h (top hi refl) s

    -- Under the laws of the sets, for components of 32 bits, below the largest in a caret
    -- requirement, the solver's set of a requirement holds the versions that match it.
    pub contains-to_ranges :
        (r : VersionReq) (v : Version)
        → SmallReq r
        → Small v
        → contains (to_ranges r) (to_semantic v) ≡ matches r v
    unfolding to_ranges matches
    contains-to_ranges VersionReq.any v h s = laws.in_full (to_semantic v)
    contains-to_ranges (VersionReq.compatible u) v h s =
        contains-compatible_set u v (compatible_range u) (λ hi e. compatible_range-Small u hi h e)
          (omega arith, omega arith, omega arith) s
    contains-to_ranges (VersionReq.exact u) v h s =
        contains-to_semantic singleton u v h s ∙ laws.in_singleton u v h s
    contains-to_ranges (VersionReq.gte u) v h s =
        contains-to_semantic higher_than u v h s ∙ laws.in_higher u v h s
    contains-to_ranges (VersionReq.gt u) v h s =
        contains-to_semantic strictly_higher_than u v h s ∙ laws.in_strictly_higher u v h s
    contains-to_ranges (VersionReq.lte u) v h s =
        contains-to_semantic lower_than u v h s ∙ laws.in_lower u v h s
    contains-to_ranges (VersionReq.lt u) v h s =
        contains-to_semantic strictly_lower_than u v h s ∙ laws.in_strictly_lower u v h s

    -- Under the laws of the sets, a version with components of 32 bits comes back from the
    -- solver as it was.
    pub from_semantic-to_semantic : (v : Version) → Small v → from_semantic (to_semantic v) ≡ v
    unfolding from_semantic
    from_semantic-to_semantic v s =
        ap from_semantic (to_semantic-Small v s)
        ∙ ap (λ (t : ℕ × ℕ × ℕ). of_triple t) (laws.into-new v.major v.minor v.patch s.0 s.1 s.2)

  -- Two versions whose components differ by multiples of 2 ^ 32 are one version for the solver.
  pub to_semantic_collides :
      (v : Version) (i j k : ℕ)
      → to_semantic (record {
        major = v.major + half_word * i;
        minor = v.minor + half_word * j;
        patch = v.patch + half_word * k;
      })
        ≡ to_semantic v
  unfolding to_semantic
  to_semantic_collides v i j k = rw (
    to_semantic,
    add-mul-mod_self_left v.major half_word i,
    add-mul-mod_self_left v.minor half_word j,
    add-mul-mod_self_left v.patch half_word k,
  )
