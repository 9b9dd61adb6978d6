-- ===== src/Mir/Inline/Binding.antt =====
-- The substitution that an inlined call starts with: the parameters, bound to the arguments.
use text.Mathlib.Text.{◌==◌ as str_eq}
use text.Mathlib.TextEquality.{eq_iff}
use rlyeh_language.Common.{
  ℕ, ◌≤◌, ◌≡◌, ◌≢◌, refl, sym, ap, subst, ◌∙◌, ◌⊎◌, inl, inr, true, false, some, List, [], ◌∷◌, map,
  arith, Bool-cases, length,
}
use rlyeh_language.Mir.{Local}
use rlyeh_language.Mir.Dce.{contains}
use rlyeh_language.Mir.Inline.{Subst, Renamer, find, inline_temp, bind_params}
use rlyeh_language.Mir.Inline.Renaming.{renamed, Extends, OneToOne, Closed, find-added}

abbrev pub Distinct : List Local → Type 0
Distinct [] = Unit
Distinct (x ∷ xs) = (contains x xs ≡ false) × Distinct xs

-- No argument is a temporary that is still to be made.
abbrev pub Older : List Local → ℕ → Type 0
Older args counter = (k : ℕ) → counter ≤ k → contains (inline_temp k) args ≡ false

module _ (p a : Local) (σ : Subst) where
  find-cons :
      (x m : Local) → find x ((p, a) ∷ σ) ≡ some m → ((p ≡ x) × (a ≡ m)) ⊎ (find x σ ≡ some m)
  unfolding find
  find-cons x m h = elim (Bool-cases (str_eq p x)) [
    | inl t ↦ inl ((eq_iff p x).0 t, ground arith)
    | inr f ↦ inr (ground arith)
  ]

contains-head : (x : Local) (xs : List Local) → contains x (x ∷ xs) ≡ true
unfolding contains
contains-head x xs = ground (arith, eq_iff x x)

contains-tail : (x y : Local) (xs : List Local) → contains x xs ≡ true → contains x (y ∷ xs) ≡ true
unfolding contains
contains-tail x y xs h = ground arith

-- An image is an argument, or was one before.
find-bind_params :
    (ps args : List Local) (σ : Subst) (x m : Local)
    → find x (bind_params ps args σ) ≡ some m
    → (contains m args ≡ true) ⊎ (find x σ ≡ some m)
unfolding bind_params
find-bind_params [] args σ x m h = inr h
find-bind_params (p ∷ ps) [] σ x m h = inr h
find-bind_params (p ∷ ps) (a ∷ args) σ x m h = elim (find-bind_params ps args ((p, a) ∷ σ) x m h) [
  | inl i ↦ inl (contains-tail m a args i)
  | inr i ↦ elim (find-cons p a σ x m i) [
    | inl (e, f) ↦ inl (subst (λ z. contains z (a ∷ args) ≡ true) f (contains-head a args))
    | inr j ↦ inr j
  ]
]

abbrev One : Subst → Type 0
One σ = (x y m : Local) → find x σ ≡ some m → find y σ ≡ some m → x ≡ y

One-cons : (p a : Local) (σ : Subst) → One σ → ((x : Local) → find x σ ≢ some a) → One ((p, a) ∷ σ)
One-cons p a σ one new x y m h i = elim (find-cons p a σ x m h) [
  | inl (e, f) ↦ elim (find-cons p a σ y m i) [
    | inl (e', f') ↦ sym e ∙ e'
    | inr j ↦ absurd (new y (j ∙ ap some (sym f)))
  ]
  | inr j ↦ elim (find-cons p a σ y m i) [
    | inl (e', f') ↦ absurd (new x (j ∙ ap some (sym f')))
    | inr j' ↦ one x y m j j'
  ]
]

One-bind_params :
    (ps args : List Local) (σ : Subst)
    → Distinct args
    → One σ
    → ((x m : Local) → contains m args ≡ true → find x σ ≢ some m)
    → One (bind_params ps args σ)
unfolding bind_params
One-bind_params [] args σ d one new = one
One-bind_params (p ∷ ps) [] σ d one new = one
One-bind_params (p ∷ ps) (a ∷ args) σ d one new =
    One-bind_params ps args ((p, a) ∷ σ) d.1
      (One-cons p a σ one (λ x. new x a (contains-head a args)))
      (λ x m i h. elim (find-cons p a σ x m h) [
        | inl (e, f) ↦
            let clash : true ≡ false = sym i ∙ ap (λ z. contains z args) (sym f) ∙ d.0 in cc
        | inr j ↦ new x m (contains-tail m a args i) j
      ])

pub bind_params-OneToOne :
    (ps args : List Local) (counter : ℕ)
    → Distinct args
    → Older args counter
    → OneToOne (bind_params ps args [], counter)
unfolding find
bind_params-OneToOne ps args counter d old = record {
  one = One-bind_params ps args [] d (λ x y m h i. cc) (λ x m h i. cc);
  old = λ x m k h le e. elim (find-bind_params ps args [] x m h) [
    | inl i ↦ let clash : true ≡ false = sym i ∙ ap (λ z. contains z args) e ∙ old k le in cc
    | inr i ↦ cc
  ];
}

-- An image is an argument or a temporary that was made since `start`.
pub record FromCall (args : List Local) (start : ℕ) (st : Renamer) : Type 0 where
  pub later : start ≤ st.1
  pub from :
      (x m : Local)
      → find x st.0 ≡ some m
      → (contains m args ≡ true) ⊎ ((k : ℕ) × (start ≤ k) × (m ≡ inline_temp k))

pub added-FromCall : (args : List Local) (start : ℕ) → Closed (FromCall args start)
added-FromCall args start x st n v = record {
  later = omega (arith, v.later);
  from = λ y m h. elim (find-added x st y m h) [
    | inl (e, f) ↦ inr (st.1, v.later, f)
    | inr i ↦ v.from y m i
  ];
}

pub bind_params-FromCall :
    (ps args : List Local) (start : ℕ) → FromCall args start (bind_params ps args [], start)
unfolding find
bind_params-FromCall ps args start = record {
  later = omega arith;
  from = λ x m h. elim (find-bind_params ps args [] x m h) [ inl i ↦ inl i | inr i ↦ cc ];
}

find-bind_params_other :
    (ps args : List Local) (σ : Subst) (x : Local)
    → contains x ps ≡ false
    → find x (bind_params ps args σ) ≡ find x σ
unfolding bind_params contains find
find-bind_params_other [] args σ x h = refl
find-bind_params_other (p ∷ ps) [] σ x h = refl
find-bind_params_other (p ∷ ps) (a ∷ args) σ x h =
    find-bind_params_other ps args ((p, a) ∷ σ) x (ground arith) ∙ ground arith

find-head : (p a : Local) (σ : Subst) → find p ((p, a) ∷ σ) ≡ some a
unfolding find
find-head p a σ = ground (arith, eq_iff p p)

-- Each parameter stands for its argument.
pub map-renamed-bind_params :
    (ps args : List Local) (σ τ : Subst)
    → Distinct ps
    → length ps ≡ length args
    → Extends (bind_params ps args σ) τ
    → map (renamed τ) ps ≡ args
unfolding bind_params
map-renamed-bind_params [] [] σ τ d l e = refl
map-renamed-bind_params [] (a ∷ args) σ τ d l e = absurd (omega arith)
map-renamed-bind_params (p ∷ ps) [] σ τ d l e = absurd (omega arith)
map-renamed-bind_params (p ∷ ps) (a ∷ args) σ τ d l e =
    let hit : find p τ ≡ some a =
      e p a (find-bind_params_other ps args ((p, a) ∷ σ) p d.0 ∙ find-head p a σ) in
    let here : renamed τ p ≡ a = rw (hit, renamed) refl in
    cc (here, map-renamed-bind_params ps args ((p, a) ∷ σ) τ d.1 (omega arith) e)
