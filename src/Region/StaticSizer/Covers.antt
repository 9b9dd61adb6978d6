-- ===== src/Region/StaticSizer/Covers.antt =====
-- What a run allocates in the branches, the sums of its arms, and what the estimates leave out.
use Prim.Native.String.{String}
use text.Mathlib.Text.{◌==◌ as str_eq}
use rlyeh_language.Common.{
  ℕ, ◌+◌, ◌*◌, ◌%◌, ◌≤◌, ◌<◌, ◌≡◌, refl, sym, ap, subst, ◌∙◌, ◌⊎◌, inl, inr, true, false, some,
  List, [], ◌∷◌, ◌++◌, arith, All, Option-cases,
}
use rlyeh_language.Region.StaticSizer.{
  word, ExecFrequency, max_size, saturating_mul, AllocSite, BranchInfo, StaticSizer, add_site,
  find_site, max_size_for_site, add_arm, add_arms, new_sums, path_sums, least, greatest, range_of,
  estimate_with_branches, estimate_of, estimate,
}

abbrev pub In : ℕ → List ℕ → Type 0
In x [] = ⊥
In x (y ∷ ys) = (y ≡ x) ⊎ In x ys

abbrev pub Arm : List String → List (List String) → Type 0
Arm arm [] = ⊥
Arm arm (x ∷ xs) = (x ≡ arm) ⊎ Arm arm xs

-- The first site that is registered under the id.
abbrev pub Registered : String → List AllocSite → AllocSite → Type 0
Registered id sites s =
    (pre : List AllocSite) × (post : List AllocSite) × (sites ≡ pre ++ s ∷ post)
    × All (λ x. str_eq x.site_id id ≡ false) pre
    × (str_eq s.site_id id ≡ true)

-- How often a site runs when its loop runs to the end; for an unknown frequency there is no number.
abbrev pub Rounds : ExecFrequency → ℕ → Type 0
Rounds ExecFrequency.once k = k ≡ 1
Rounds (ExecFrequency.loop n) k = k ≡ n
Rounds ExecFrequency.unknown k = ⊥

-- `n` bytes are what the sites of an arm allocate together.
abbrev pub ArmSize : List AllocSite → List String → ℕ → Type 0
ArmSize sites [] n = n ≡ 0
ArmSize sites (id ∷ ids) n =
    (s : AllocSite) × (k : ℕ) × (m : ℕ) × Registered id sites s
    × Rounds s.frequency k
    × ArmSize sites ids m
    × (n ≡ s.type_size * k + m)

-- `n` bytes are what a run allocates in branches, of which it takes one arm each.
abbrev pub Taken : List AllocSite → List BranchInfo → ℕ → Type 0
Taken sites [] n = n ≡ 0
Taken sites (b ∷ branches) n =
    (arm : List String) × (k : ℕ) × (m : ℕ) × Arm arm b.branches
    × ArmSize sites arm k
    × Taken sites branches m
    × (n ≡ k + m)

pub least-le : (x : ℕ) (xs : List ℕ) → In x xs → least xs ≤ x
unfolding least
least-le x [] i = absurd i
least-le x (y ∷ []) (inl e) = omega arith
least-le x (y ∷ []) (inr i) = absurd i
least-le x (y ∷ z ∷ zs) (inl e) = omega arith
least-le x (y ∷ z ∷ zs) (inr i) = omega (arith, least-le x (z ∷ zs) i)

pub greatest-le : (x : ℕ) (xs : List ℕ) → In x xs → x ≤ greatest xs
unfolding greatest
greatest-le x [] i = absurd i
greatest-le x (y ∷ ys) (inl e) = omega arith
greatest-le x (y ∷ ys) (inr i) = omega (arith, greatest-le x ys i)

In-append_left : (x : ℕ) (xs ys : List ℕ) → In x xs → In x (xs ++ ys)
In-append_left x [] ys i = absurd i
In-append_left x (z ∷ xs) ys (inl e) = inl e
In-append_left x (z ∷ xs) ys (inr i) = inr (In-append_left x xs ys i)

In-append_right : (x : ℕ) (xs ys : List ℕ) → In x ys → In x (xs ++ ys)
In-append_right x [] ys i = i
In-append_right x (z ∷ xs) ys i = inr (In-append_right x xs ys i)

In-add_arms :
    (sites : List AllocSite) (sum : ℕ) (arm : List String) (arms : List (List String))
    → Arm arm arms
    → In (add_arm sites sum arm) (add_arms sites sum arms)
unfolding add_arms
In-add_arms sites sum arm [] i = absurd i
In-add_arms sites sum arm (x ∷ arms) (inl e) = inl (ap (add_arm sites sum) e)
In-add_arms sites sum arm (x ∷ arms) (inr i) = inr (In-add_arms sites sum arm arms i)

In-new_sums :
    (sites : List AllocSite) (sum : ℕ) (sums : List ℕ) (arm : List String)
    (arms : List (List String))
    → In sum sums
    → Arm arm arms
    → In (add_arm sites sum arm) (new_sums sites arms sums)
unfolding new_sums
In-new_sums sites sum [] arm arms i a = absurd i
In-new_sums sites sum (x ∷ sums) arm arms (inl e) a =
    In-append_left (add_arm sites sum arm) (add_arms sites x arms) (new_sums sites arms sums) (
      subst (λ y. In (add_arm sites sum arm) (add_arms sites y arms)) (sym e)
        (In-add_arms sites sum arm arms a))
In-new_sums sites sum (x ∷ sums) arm arms (inr i) a =
    In-append_right (add_arm sites sum arm) (add_arms sites x arms) (new_sums sites arms sums)
      (In-new_sums sites sum sums arm arms i a)

pub find_site-first :
    (id : String) (s : AllocSite) (post pre : List AllocSite)
    → All (λ x. str_eq x.site_id id ≡ false) pre
    → str_eq s.site_id id ≡ true
    → find_site id (pre ++ s ∷ post) ≡ some s
unfolding find_site
find_site-first id s post [] o e = rw e refl
find_site-first id s post (x ∷ pre) o e = rw (find_site, o.0) (find_site-first id s post pre o.1 e)

max_size-Rounds :
    (size : ℕ) (f : ExecFrequency) (k : ℕ)
    → Rounds f k
    → size * k < word
    → max_size size f ≡ size * k
unfolding max_size saturating_mul
max_size-Rounds size ExecFrequency.once k e l = ground arith
max_size-Rounds size (ExecFrequency.loop n) k e l =
    subst (λ x. max_size size (ExecFrequency.loop x) ≡ size * k) e (ground arith)
max_size-Rounds size ExecFrequency.unknown k e l = absurd e

-- While nothing overflows, the loop over an arm adds the bytes that the arm allocates.
pub add_arm-ArmSize :
    (sites : List AllocSite) (ids : List String) (sum n : ℕ)
    → ArmSize sites ids n
    → sum + n < word
    → add_arm sites sum ids ≡ sum + n
unfolding add_arm max_size_for_site
add_arm-ArmSize sites [] sum n z l = omega arith
add_arm-ArmSize sites (id ∷ ids) sum n (s, k, m, (pre, post, at, o, e), r, rest, is) l =
    let found : find_site id sites ≡ some s =
      subst (λ x. find_site id x ≡ some s) (sym at) (find_site-first id s post pre o e) in
    let size : max_size_for_site s ≡ s.type_size * k =
      max_size-Rounds s.type_size s.frequency k r (omega arith) in
    let next : (sum + max_size_for_site s) % word ≡ sum + s.type_size * k = ground (arith, size) in
    rw (add_arm, found, next)
      (add_arm-ArmSize sites ids (sum + s.type_size * k) m rest (omega arith) ∙ omega arith)

pub In-path_sums :
    (sites : List AllocSite) (branches : List BranchInfo) (before n : ℕ) (sums : List ℕ)
    → In before sums
    → Taken sites branches n
    → before + n < word
    → In (before + n) (path_sums sites branches sums)
unfolding path_sums
In-path_sums sites [] before n sums i e l = subst (λ x. In x sums) {x = before} (omega arith) i
In-path_sums sites (b ∷ branches) before n sums i (arm, k, m, a, size, t, is) l =
    let sum : add_arm sites before arm ≡ before + k =
      add_arm-ArmSize sites arm before k size (omega arith) in
    let step : In (before + k) (new_sums sites b.branches sums) =
      subst (λ x. In x (new_sums sites b.branches sums)) sum
        (In-new_sums sites before sums arm b.branches i a) in
    subst (λ x. In x (path_sums sites (b ∷ branches) sums)) {x = before + k + m} (omega arith)
      (In-path_sums sites branches (before + k) m (new_sums sites b.branches sums) step t
        (omega arith))

estimate_of-cons :
    (sites : List AllocSite) (b : BranchInfo) (rest : List BranchInfo) (z : StaticSizer)
    → estimate_of sites (b ∷ rest) z ≡ estimate_with_branches z
unfolding estimate_of
estimate_of-cons [] b rest z = refl
estimate_of-cons (s ∷ sites) b rest z = refl

pub estimate-branches :
    (z : StaticSizer) (b : BranchInfo) (rest : List BranchInfo)
    → z.branches ≡ b ∷ rest
    → estimate z ≡ estimate_with_branches z
unfolding estimate
estimate-branches z b rest e =
    ap (λ l. estimate_of z.sites l z) e ∙ estimate_of-cons z.sites b rest z

-- Ids that are not the site's.
abbrev pub Others : AllocSite → List String → Type 0
Others s ids = All (λ id. str_eq s.site_id id ≡ false) ids

-- The site is in no arm of a branch.
abbrev pub Outside : AllocSite → List BranchInfo → Type 0
Outside s branches = All (λ b. All (Others s) b.branches) branches

find_site-append :
    (id : String) (s : AllocSite) (sites : List AllocSite)
    → str_eq s.site_id id ≡ false
    → find_site id (sites ++ s ∷ []) ≡ find_site id sites
unfolding find_site
find_site-append id s [] n = rw n refl
find_site-append id s (x ∷ sites) n = ground (arith, find_site-append id s sites n)

module _ (s : AllocSite) (sites : List AllocSite) where
  add_arm-append :
      (sum : ℕ) (ids : List String)
      → Others s ids
      → add_arm (sites ++ s ∷ []) sum ids ≡ add_arm sites sum ids
  unfolding add_arm
  add_arm-append sum [] o = refl
  add_arm-append sum (id ∷ ids) o = elim (Option-cases (find_site id sites)) [
    | inl e ↦ rw (add_arm, find_site-append id s sites o.0, e) (add_arm-append sum ids o.1)
    | inr (x, e) ↦
        rw (add_arm, find_site-append id s sites o.0, e)
          (add_arm-append ((sum + max_size_for_site x) % word) ids o.1)
  ]

  add_arms-append :
      (sum : ℕ) (arms : List (List String))
      → All (Others s) arms
      → add_arms (sites ++ s ∷ []) sum arms ≡ add_arms sites sum arms
  unfolding add_arms
  add_arms-append sum [] o = refl
  add_arms-append sum (arm ∷ arms) o = cc (add_arm-append sum arm o.0, add_arms-append sum arms o.1)

  new_sums-append :
      (arms : List (List String)) (sums : List ℕ)
      → All (Others s) arms
      → new_sums (sites ++ s ∷ []) arms sums ≡ new_sums sites arms sums
  unfolding new_sums
  new_sums-append arms [] o = refl
  new_sums-append arms (sum ∷ sums) o = cc (add_arms-append sum arms o, new_sums-append arms sums o)

  path_sums-append :
      (branches : List BranchInfo) (sums : List ℕ)
      → Outside s branches
      → path_sums (sites ++ s ∷ []) branches sums ≡ path_sums sites branches sums
  unfolding path_sums
  path_sums-append [] sums o = refl
  path_sums-append (b ∷ branches) sums o =
      ap (path_sums (sites ++ s ∷ []) branches) (new_sums-append b.branches sums o.0)
      ∙ path_sums-append branches (new_sums sites b.branches sums) o.1

-- Where there are branches, a site whose id is in no arm of them does not change the estimate when it
-- is added.
pub estimate-add_site :
    (s : AllocSite) (z : StaticSizer) (b : BranchInfo) (rest : List BranchInfo)
    → z.branches ≡ b ∷ rest
    → Outside s z.branches
    → estimate (add_site s z) ≡ estimate z
unfolding add_site estimate_with_branches
estimate-add_site s z b rest e o =
    estimate-branches (add_site s z) b rest e
    ∙ ap (λ sums. range_of (least sums) (greatest sums))
        (path_sums-append s z.sites z.branches (0 ∷ []) o)
    ∙ sym (estimate-branches z b rest e)
