-- ===== src/Region/StaticSizer/Attained.antt =====
-- The ends of an estimate are the least and the greatest run.
use Prim.Native.String.{String}
use rlyeh_language.Common.{
  ℕ, ◌+◌, ◌≤◌, ◌<◌, ◌≡◌, refl, sym, subst, ◌∙◌, ◌⊎◌, inl, inr, List, [], ◌∷◌, ◌++◌, ◌==◌, ltb,
  arith, Bool-cases, All,
}
use rlyeh_language.Region.StaticSizer.{
  word, SizeEstimate, AllocSite, BranchInfo, StaticSizer, add_arm, add_arms, new_sums, path_sums,
  least, greatest, range_of, estimate_with_branches, estimate,
}
use rlyeh_language.Region.StaticSizer.Covers.{
  In, Arm, ArmSize, Taken, add_arm-ArmSize, In-path_sums, least-le, greatest-le, estimate-branches,
}

-- Every id of every arm is registered, and its site runs a known number of times.
abbrev pub IsKnown : List AllocSite → List BranchInfo → Type 0
IsKnown sites branches = All (λ b. All (λ arm. (k : ℕ) × ArmSize sites arm k) b.branches) branches

In-append : (x : ℕ) (xs ys : List ℕ) → In x (xs ++ ys) → In x xs ⊎ In x ys
In-append x [] ys i = inr i
In-append x (z ∷ xs) ys (inl e) = inl (inl e)
In-append x (z ∷ xs) ys (inr i) = elim (In-append x xs ys i) [ inl j ↦ inl (inr j) | inr j ↦ inr j ]

In-add_arms-Arm :
    (sites : List AllocSite) (sum x : ℕ) (arms : List (List String))
    → In x (add_arms sites sum arms)
    → (arm : List String) × Arm arm arms × (add_arm sites sum arm ≡ x)
unfolding add_arms
In-add_arms-Arm sites sum x [] i = absurd i
In-add_arms-Arm sites sum x (arm ∷ arms) (inl e) = (arm, inl refl, e)
In-add_arms-Arm sites sum x (arm ∷ arms) (inr i) =
    let (other, a, e) = In-add_arms-Arm sites sum x arms i in (other, inr a, e)

In-new_sums-Arm :
    (sites : List AllocSite) (x : ℕ) (sums : List ℕ) (arms : List (List String))
    → In x (new_sums sites arms sums)
    → (before : ℕ) × (arm : List String) × In before sums
      × Arm arm arms
      × (add_arm sites before arm ≡ x)
unfolding new_sums
In-new_sums-Arm sites x [] arms i = absurd i
In-new_sums-Arm sites x (sum ∷ sums) arms i =
    elim (In-append x (add_arms sites sum arms) (new_sums sites arms sums) i) [
      | inl j ↦ let (arm, a, e) = In-add_arms-Arm sites sum x arms j in (sum, arm, inl refl, a, e)
      | inr j ↦
          let (before, arm, b, a, e) = In-new_sums-Arm sites x sums arms j in
          (before, arm, inr b, a, e)
    ]

All-Arm :
    (P : List String → Type 0) (arm : List String) (arms : List (List String))
    → Arm arm arms
    → All P arms
    → P arm
All-Arm P arm [] a h = absurd a
All-Arm P arm (x ∷ arms) (inl e) h = subst P e h.0
All-Arm P arm (x ∷ arms) (inr a) h = All-Arm P arm arms a h.1

-- No run overflows that starts from one of the sums.
abbrev Fits : List AllocSite → List BranchInfo → List ℕ → Type 0
Fits sites branches sums =
    (before n : ℕ) → In before sums → Taken sites branches n → before + n < word

-- Each sum that the loop over the branches computes is that of a run.
path_sums-Taken :
    (sites : List AllocSite) (branches : List BranchInfo) (sums : List ℕ) (x some_run : ℕ)
    → IsKnown sites branches
    → Taken sites branches some_run
    → Fits sites branches sums
    → In x (path_sums sites branches sums)
    → (before n : ℕ) × In before sums × Taken sites branches n × (x ≡ before + n)
unfolding path_sums
path_sums-Taken sites [] sums x some_run known t fits i = (x, 0, i, refl, omega arith)
path_sums-Taken sites (b ∷ branches) sums x some_run known (arm0, k0, m0, a0, size0, t0, is0) fits
      i =
    let step : (y m : ℕ)
        → In y (new_sums sites b.branches sums)
        → Taken sites branches m
        → (before k : ℕ) × In before sums
          × (y ≡ before + k)
          × (before + k + m < word)
          × Taken sites (b ∷ branches) (k + m) =
      λ y m j t.
        let (before, arm, at, a, e) = In-new_sums-Arm sites y sums b.branches j in
        let (k, size) = All-Arm (λ l. (k : ℕ) × ArmSize sites l k) arm b.branches a known.0 in
        let run : Taken sites (b ∷ branches) (k + m) = (arm, k, m, a, size, t, refl) in
        let small : before + (k + m) < word = fits before (k + m) at run in
        (
          before,
          k,
          at,
          sym e ∙ add_arm-ArmSize sites arm before k size (omega arith),
          omega arith,
          run,
        ) in
    let fits' : Fits sites branches (new_sums sites b.branches sums) =
      λ y m j t. let (before, k, at, e, small, run) = step y m j t in omega arith in
    let (y, n, j, t, e) =
      path_sums-Taken sites branches (new_sums sites b.branches sums) x m0 known.1 t0 fits' i in
    let (before, k, at, e', small, run) = step y n j t in (before, k + n, at, run, omega arith)

In-least : (x : ℕ) (xs : List ℕ) → In x xs → In (least xs) xs
unfolding least
In-least x [] i = absurd i
In-least x (y ∷ []) i = inl refl
In-least x (y ∷ z ∷ zs) i = elim (Bool-cases (ltb y (least (z ∷ zs)))) [
  | inl l ↦ inl (ground arith)
  | inr l ↦ inr (
      subst (λ v. In v (z ∷ zs)) {x = least (z ∷ zs)} (ground arith)
        (In-least z (z ∷ zs) (inl refl)))
]

In-greatest : (x : ℕ) (xs : List ℕ) → In x xs → In (greatest xs) xs
unfolding greatest
In-greatest x [] i = absurd i
In-greatest x (y ∷ []) i = inl (omega arith)
In-greatest x (y ∷ z ∷ zs) i = elim (Bool-cases (ltb y (greatest (z ∷ zs)))) [
  | inr l ↦ inl (ground arith)
  | inl l ↦ inr (
      subst (λ v. In v (z ∷ zs)) {x = greatest (z ∷ zs)} (ground arith)
        (In-greatest z (z ∷ zs) (inl refl)))
]

-- Where there are branches, every id of their arms is registered with a known number of rounds,
-- there is a run (one arm of each branch), and the bytes that a run allocates in branches, with its
-- loops to the end, are always below 2 ^ 64: the estimate is the least and the greatest number of
-- these bytes, exact if they agree. Sites outside the branches are not counted.
pub estimate-Attained :
    (z : StaticSizer) (b : BranchInfo) (rest : List BranchInfo) (some_run : ℕ)
    → z.branches ≡ b ∷ rest
    → IsKnown z.sites z.branches
    → Taken z.sites z.branches some_run
    → ((n : ℕ) → Taken z.sites z.branches n → n < word)
    → (low high : ℕ) × Taken z.sites z.branches low
      × Taken z.sites z.branches high
      × ((n : ℕ) → Taken z.sites z.branches n → (low ≤ n) × (n ≤ high))
      × ((low ≡ high) × (estimate z ≡ SizeEstimate.exact low)
          ⊎ ((low < high) × (estimate z ≡ SizeEstimate.range low high)))
unfolding estimate_with_branches range_of
estimate-Attained z b rest some_run e known t small =
    let sums = path_sums z.sites z.branches (0 ∷ []) in
    let inside : (n : ℕ) → Taken z.sites z.branches n → In n sums = λ n r.
      subst (λ x. In x sums) {x = 0 + n} (omega arith)
        (In-path_sums z.sites z.branches 0 n (0 ∷ []) (inl refl) r (omega (arith, small n r))) in
    let fits : Fits z.sites z.branches (0 ∷ []) =
      λ before n i r. elim i [ inl p ↦ omega (arith, small n r) | inr p ↦ absurd p ] in
    let run : (x : ℕ) → In x sums → Taken z.sites z.branches x = λ x i.
      let (before, n, at, r, p) =
        path_sums-Taken z.sites z.branches (0 ∷ []) x some_run known t fits i in
      subst (Taken z.sites z.branches) {x = n} (elim at [ inl q ↦ omega arith | inr q ↦ absurd q ])
        r in
    let low = least sums in
    let high = greatest sums in
    let first = inside some_run t in
    let order : low ≤ high =
      omega (arith, least-le some_run sums first, greatest-le some_run sums first) in
    (
      low,
      high,
      run low (In-least some_run sums first),
      run high (In-greatest some_run sums first),
      λ n r. (least-le n sums (inside n r), greatest-le n sums (inside n r)),
      elim (Bool-cases (low == high)) [
        | inl q ↦ inl (ground arith, estimate-branches z b rest e ∙ rw q refl)
        | inr q ↦ inr (ground arith, estimate-branches z b rest e ∙ rw q refl)
      ],
    )
