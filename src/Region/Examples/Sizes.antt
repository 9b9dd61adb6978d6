-- ===== src/Region/Examples/Sizes.antt =====
-- The theorems on static sizes at one branch of two arms, of 10 and of 20 bytes.
use Prim.Native.String.{String}
use rlyeh_language.Common.{
  ℕ, ◌+◌, ◌*◌, ◌≤◌, ◌<◌, ◌≡◌, refl, sym, ap, subst, ◌∙◌, ◌⊎◌, inl, inr, some, [], ◌∷◌, arith,
}
use rlyeh_language.Region.StaticSizer.{
  word, SizeEstimate, ExecFrequency, AllocSite, BranchInfo, StaticSizer, add_site, estimate,
  estimate_of, estimate_with_branches, range_of, greatest, least, path_sums, new_sums, add_arms,
  add_arm, find_site, max_size_for_site, max_size,
}
use rlyeh_language.Region.StaticSizer.Covers.{
  Rounds, ArmSize, Taken, find_site-first, estimate-add_site,
}
use rlyeh_language.Region.StaticSizer.Attained.{estimate-Attained}

abbrev site : String → ℕ → AllocSite
site id size = record { site_id = id; type_size = size; frequency = ExecFrequency.once }

abbrev branch : BranchInfo
branch = record { branches = ("a" ∷ []) ∷ ("b" ∷ []) ∷ [] }

abbrev sizer : StaticSizer
sizer = record { sites = site "a" 10 ∷ site "b" 20 ∷ []; branches = branch ∷ [] }

some-inj : {A : Type 0} {x y : A} → some x ≡ some y → x ≡ y
some-inj e = cc

-- What an arm of one site allocates.
one_site :
    (id : String) (x : AllocSite) (k : ℕ)
    → find_site id sizer.sites ≡ some x
    → x.frequency ≡ ExecFrequency.once
    → ArmSize sizer.sites (id ∷ []) k
    → k ≡ x.type_size
one_site id x k found once (s, rounds, m, (pre, post, at, o, e), turns, rest, is) =
    let same : some s ≡ some x =
      sym (subst (λ l. find_site id l ≡ some s) (sym at) (find_site-first id s post pre o e))
      ∙ found in
    let size : s.type_size ≡ x.type_size = cc in
    let freq : s.frequency ≡ ExecFrequency.once =
      ap (λ (y : AllocSite). y.frequency) (some-inj same) ∙ once in
    let turn : rounds ≡ 1 = subst (λ f. Rounds f rounds) freq turns in
    is ∙ subst (λ t. s.type_size * t + m ≡ x.type_size) (sym turn) (omega arith)

first_site : find_site "a" sizer.sites ≡ some (site "a" 10)
unfolding find_site
first_site = refl

second_site : find_site "b" sizer.sites ≡ some (site "b" 20)
unfolding find_site
second_site = refl

run_small : (n : ℕ) → Taken sizer.sites sizer.branches n → n < word
run_small n (arm, k, m, inl e, size, rest, is) =
    let at : k ≡ 10 =
      one_site "a" (site "a" 10) k first_site refl
        (subst (λ l. ArmSize sizer.sites l k) (sym e) size) in
    omega arith
run_small n (arm, k, m, inr (inl e), size, rest, is) =
    let at : k ≡ 20 =
      one_site "b" (site "b" 20) k second_site refl
        (subst (λ l. ArmSize sizer.sites l k) (sym e) size) in
    omega arith
run_small n (arm, k, m, inr (inr e), size, rest, is) = absurd e

size_a : ArmSize sizer.sites ("a" ∷ []) 10
size_a = (site "a" 10, 1, 0, ([], site "b" 20 ∷ [], refl, tt, refl), refl, refl, refl)

size_b : ArmSize sizer.sites ("b" ∷ []) 20
size_b = (site "b" 20, 1, 0, (site "a" 10 ∷ [], [], refl, (refl, tt), refl), refl, refl, refl)

estimate-Attained_example :
    (low high : ℕ) × Taken sizer.sites sizer.branches low
    × Taken sizer.sites sizer.branches high
    × ((n : ℕ) → Taken sizer.sites sizer.branches n → (low ≤ n) × (n ≤ high))
    × ((low ≡ high) × (estimate sizer ≡ SizeEstimate.exact low)
        ⊎ ((low < high) × (estimate sizer ≡ SizeEstimate.range low high)))
estimate-Attained_example =
    estimate-Attained sizer branch [] 20 refl (((10, size_a), ((20, size_b), tt)), tt)
      ("b" ∷ [], 20, 0, inr (inl refl), size_b, refl, refl) run_small

-- The estimate of the two arms.
both_arms : estimate sizer ≡ SizeEstimate.range 10 20
unfolding find_site max_size_for_site max_size add_arm add_arms new_sums path_sums least greatest
    range_of estimate_with_branches estimate_of estimate
both_arms = refl

-- 4096 bytes before the branch.
estimate-add_site_example : estimate (add_site (site "c" 4096) sizer) ≡ estimate sizer
estimate-add_site_example =
    estimate-add_site (site "c" 4096) sizer branch [] refl (((refl, tt), ((refl, tt), tt)), tt)
