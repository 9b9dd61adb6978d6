-- ===== src/Mir/Inline/Renaming.antt =====
-- The pass renames on the fly, with a substitution that grows; the result is the renaming by the
-- final substitution, which is one-to-one. The proof goes by rules for each construct.
use text.Mathlib.Text.{◌==◌ as str_eq}
use text.Mathlib.TextEquality.{eq_iff}
use text.Mathlib.TextLemmas.{append_cancel_left}
use rlyeh_language.Common.{
  ℕ, ◌+◌, ◌≤◌, ◌≡◌, ◌≢◌, refl, sym, ap, subst, ◌∙◌, ◌⊎◌, inl, inr, true, false, Option, none, some,
  List, [], ◌∷◌, ◌++◌, map, arith, Bool-cases, Option-cases,
}
use rlyeh_language.Common.Decimal.{decimal, decimal_inj}
use rlyeh_language.Mir.{Local, MirValue, MirStmt}
use rlyeh_language.Mir.Dce.{contains}
use rlyeh_language.Mir.Dce.Operands.{locals_of, length_operand}
use rlyeh_language.Mir.Inline.{
  Subst, Renamer, find, inline_temp, map_local, map_absent, fresh_inline_temp, ◌>>>=◌, pure,
  map_value, map_option, map_locals, inline_stmt, has_region_op,
}
use rlyeh_language.Mir.Inline.Names.{rename_option, rename_value, rename_stmt, names_of}

-- What a substitution does to a name; a name that it does not know stays.
abbrev pub renamed : Subst → Local → Local
renamed τ x = elim (find x τ) [ none ↦ x | some m ↦ m ]

abbrev pub Extends : Subst → Subst → Type 0
Extends σ τ = (x m : Local) → find x σ ≡ some m → find x τ ≡ some m

abbrev pub Covers : List Local → Subst → Type 0
Covers l σ = (x : Local) → contains x l ≡ true → (m : Local) × (find x σ ≡ some m)

-- No two names have one image, and no image is a temporary that is still to be made.
pub record OneToOne (st : Renamer) : Type 0 where
  pub one : (x y m : Local) → find x st.0 ≡ some m → find y st.0 ≡ some m → x ≡ y
  pub old : (x m : Local) (k : ℕ) → find x st.0 ≡ some m → st.1 ≤ k → m ≢ inline_temp k

-- The state after a name that is met for the first time.
abbrev pub added : Local → Renamer → Renamer
added x st = ((x, inline_temp st.1) ∷ st.0, st.1 + 1)

-- What holds after every name that is added.
abbrev pub Closed : (Renamer → Type 0) → Type 0
Closed P = (x : Local) (st : Renamer) → find x st.0 ≡ none → P st → P (added x st)

-- A routine gives `g` of every substitution that comes after it, and its substitution covers `l`.
pub record Renames {ℓ} {A : Type ℓ} (r : Renamer → A × Renamer) (g : (Local → Local) → A)
    (l : List Local) : Type (ℓ ⊔ 1) where
  pub grows : (st : Renamer) → Extends st.0 (r st).1.0
  pub result : (st : Renamer) (τ : Subst) → Extends (r st).1.0 τ → (r st).0 ≡ g (renamed τ)
  pub covers : (st : Renamer) → Covers l (r st).1.0
  pub keeps : (P : Renamer → Type 0) → Closed P → (st : Renamer) → P st → P (r st).1

inline_temp_inj : (j k : ℕ) → inline_temp j ≡ inline_temp k → j ≡ k
unfolding inline_temp
inline_temp_inj j k e = decimal_inj j k (append_cancel_left "_i" (decimal j) (decimal k) e)

pub Renames-pure {ℓ} : {A : Type ℓ} (a : A) → Renames (pure a) (λ f. a) []
unfolding contains
Renames-pure a = record {
  grows = λ st x m h. h;
  result = λ st τ e. refl;
  covers = λ st x h. cc;
  keeps = λ P c st v. v;
}

Covers-append : (l k : List Local) (σ : Subst) → Covers l σ → Covers k σ → Covers (l ++ k) σ
unfolding contains
Covers-append [] k σ p q x h = q x h
Covers-append (y ∷ l) k σ p q x h = elim (Bool-cases (str_eq y x)) [
  | inl t ↦ p x (ground arith)
  | inr f ↦ Covers-append l k σ (λ z m. p z (ground arith)) q x (ground arith)
]

module _ {ℓ κ} {A : Type ℓ} {B : Type κ} where
  Renames-bind :
      (m : Renamer → A × Renamer) (f : A → Renamer → B × Renamer) (g : (Local → Local) → A)
      (h : A → (Local → Local) → B) (l k : List Local)
      → Renames m g l
      → ((a : A) → Renames (f a) (h a) k)
      → Renames (m >>>= f) (λ σ. h (g σ) σ) (l ++ k)
  Renames-bind m f g h l k p q = record {
    grows = λ st x y e. (q (m st).0).grows (m st).1 x y (p.grows st x y e);
    result = λ st τ e.
        (q (m st).0).result (m st).1 τ e
        ∙ ap (λ a. h a (renamed τ))
            (p.result st τ (λ x y i. e x y ((q (m st).0).grows (m st).1 x y i)));
    covers = λ st.
        Covers-append l k ((m >>>= f) st).1.0
          (λ x i. let (y, j) = p.covers st x i in (y, (q (m st).0).grows (m st).1 x y j))
          ((q (m st).0).covers (m st).1);
    keeps = λ P c st v. (q (m st).0).keeps P c (m st).1 (p.keeps P c st v);
  }

  pub Renames-map :
      (mk : A → B) {m : Renamer → A × Renamer} {g : (Local → Local) → A} {l : List Local}
      → Renames m g l
      → Renames (m >>>= λ a. pure (mk a)) (λ σ. mk (g σ)) l
  Renames-map mk p = record {
    grows = p.grows;
    result = λ st τ e. ap mk (p.result st τ e);
    covers = p.covers;
    keeps = p.keeps;
  }

module _ {A B C : Type 0} where
  pub Renames-two :
      (mk : A → B → C) {m : Renamer → A × Renamer} {n : Renamer → B × Renamer}
      {g : (Local → Local) → A} {h : (Local → Local) → B} {l k : List Local}
      → Renames m g l
      → Renames n h k
      → Renames (m >>>= λ a. n >>>= λ b. pure (mk a b)) (λ σ. mk (g σ) (h σ)) (l ++ k)
  Renames-two mk {m} {n} {g} {h} {l} {k} p q =
      Renames-bind m (λ a. n >>>= λ b. pure (mk a b)) g (λ a σ. mk a (h σ)) l k p
        (λ a. Renames-map (mk a) q)

module _ {A B C D : Type 0} where
  Renames-three :
      (mk : A → B → C → D) {m : Renamer → A × Renamer} {n : Renamer → B × Renamer}
      {o : Renamer → C × Renamer} {g : (Local → Local) → A} {h : (Local → Local) → B}
      {i : (Local → Local) → C} {l k j : List Local}
      → Renames m g l
      → Renames n h k
      → Renames o i j
      → Renames
          (m >>>= λ a. n >>>= λ b. o >>>= λ c. pure (mk a b c))
          (λ σ. mk (g σ) (h σ) (i σ))
          (l ++ (k ++ j))
  Renames-three mk {m} {n} {o} {g} {h} {i} {l} {k} {j} p q r =
      Renames-bind m (λ a. n >>>= λ b. o >>>= λ c. pure (mk a b c)) g (λ a σ. mk a (h σ) (i σ)) l
        (k ++ j) p (λ a. Renames-two (mk a) q r)

map_local-find :
    (x : Local) (st : Renamer) (m : Local) → find x st.0 ≡ some m → map_local x st ≡ (m, st)
unfolding map_local
map_local-find x st m e = rw (e, map_local) refl

map_local-absent :
    (x : Local) (st : Renamer)
    → find x st.0 ≡ none
    → map_local x st ≡ (inline_temp st.1, added x st)
unfolding map_local map_absent fresh_inline_temp
map_local-absent x st e = rw (e, map_local) refl

-- What map_local answers and where it leaves the substitution.
record Answered (x : Local) (st : Renamer) (out : Local × Renamer) : Type 1 where
  grows : Extends st.0 out.1.0
  hit : find x out.1.0 ≡ some out.0
  keeps : (P : Renamer → Type 0) → Closed P → P st → P out.1

pub find-added :
    (x : Local) (st : Renamer) (y m : Local)
    → find y (added x st).0 ≡ some m
    → ((x ≡ y) × (m ≡ inline_temp st.1)) ⊎ (find y st.0 ≡ some m)
unfolding find
find-added x st y m h = elim (Bool-cases (str_eq x y)) [
  | inl t ↦ inl ((eq_iff x y).0 t, ground arith)
  | inr f ↦ inr (ground arith)
]

pub added-OneToOne : Closed OneToOne
added-OneToOne x st e v = record {
  one = λ y z m p q. elim (find-added x st y m p) [
    | inl (a, b) ↦ elim (find-added x st z m q) [
      | inl (c, d) ↦ sym a ∙ c
      | inr c ↦ absurd (v.old z m st.1 c (omega arith) b)
    ]
    | inr a ↦ elim (find-added x st z m q) [
      | inl (c, d) ↦ absurd (v.old y m st.1 a (omega arith) d)
      | inr c ↦ v.one y z m a c
    ]
  ];
  old = λ y m k p h i. elim (find-added x st y m p) [
    | inl (a, b) ↦ absurd (omega (arith, inline_temp_inj st.1 k (sym b ∙ i)))
    | inr a ↦ v.old y m k a (omega arith) i
  ];
}

Extends-added : (x : Local) (st : Renamer) → find x st.0 ≡ none → Extends st.0 (added x st).0
unfolding find
Extends-added x st n y m h = elim (Bool-cases (str_eq x y)) [
  | inl t ↦
      let same : find x st.0 ≡ find y st.0 = ap (λ z. find z st.0) ((eq_iff x y).0 t) in
      let clash : none ≡ some m = sym n ∙ same ∙ h in cc
  | inr f ↦ ground arith
]

map_local-Answered : (x : Local) (st : Renamer) → Answered x st (map_local x st)
unfolding find
map_local-Answered x st = elim (Option-cases (find x st.0)) [
  | inr (m, e) ↦
      subst (Answered x st) (sym (map_local-find x st m e))
        (record { grows = λ y z h. h; hit = e; keeps = λ P c v. v })
  | inl n ↦ subst (Answered x st) (sym (map_local-absent x st n)) (record {
    grows = Extends-added x st n;
    hit = ground (arith, eq_iff x x);
    keeps = λ P c v. c x st n v;
  })
]

renamed-find : (x m : Local) (τ : Subst) → find x τ ≡ some m → m ≡ renamed τ x
renamed-find x m τ e = rw (e, renamed) refl

pub Renames-map_local : (x : Local) → Renames (map_local x) (λ f. f x) (x ∷ [])
unfolding contains
Renames-map_local x = record {
  grows = λ st. (map_local-Answered x st).grows;
  result = λ st τ e.
      renamed-find x (map_local x st).0 τ (e x (map_local x st).0 (map_local-Answered x st).hit);
  covers = λ st y h.
      let same : x ≡ y = (eq_iff x y).0 (ground arith) in
      (
        (map_local x st).0,
        ap (λ z. find z (map_local x st).1.0) (sym same) ∙ (map_local-Answered x st).hit,
      );
  keeps = λ P c st. (map_local-Answered x st).keeps P c;
}

Renames-map_option :
    (o : Option Local) → Renames (map_option o) (λ f. rename_option f o) (length_operand o)
unfolding map_option
Renames-map_option none = Renames-pure none
Renames-map_option (some l) = Renames-map some (Renames-map_local l)

Renames-map_locals : (xs : List Local) → Renames (map_locals xs) (λ f. map f xs) xs
unfolding map_locals
Renames-map_locals [] = Renames-pure []
Renames-map_locals (x ∷ xs) =
    Renames-two (λ y ys. y ∷ ys) (Renames-map_local x) (Renames-map_locals xs)

Renames-map_value : (v : MirValue) → Renames (map_value v) (λ f. rename_value f v) (locals_of v)
unfolding map_value rename_value
Renames-map_value (MirValue.place p) = Renames-map MirValue.place (Renames-map_local p)
Renames-map_value (MirValue.binary op l r) =
    Renames-two (MirValue.binary op) (Renames-map_value l) (Renames-map_value r)
Renames-map_value (MirValue.unary op o) = Renames-map (MirValue.unary op) (Renames-map_value o)
Renames-map_value v = Renames-pure v

module _ {A B C D E : Type 0} where
  Renames-four :
      (mk : A → B → C → D → E) {m : Renamer → A × Renamer} {n : Renamer → B × Renamer}
      {o : Renamer → C × Renamer} {p : Renamer → D × Renamer} {g : (Local → Local) → A}
      {h : (Local → Local) → B} {i : (Local → Local) → C} {j : (Local → Local) → D}
      {a b c d : List Local}
      → Renames m g a
      → Renames n h b
      → Renames o i c
      → Renames p j d
      → Renames
          (m >>>= λ w. n >>>= λ x. o >>>= λ y. p >>>= λ z. pure (mk w x y z))
          (λ σ. mk (g σ) (h σ) (i σ) (j σ))
          (a ++ (b ++ (c ++ d)))
  Renames-four mk {m} {n} {o} {p} {g} {h} {i} {j} {a} {b} {c} {d} q r s t =
      Renames-bind m (λ w. n >>>= λ x. o >>>= λ y. p >>>= λ z. pure (mk w x y z)) g
        (λ w σ. mk w (h σ) (i σ) (j σ)) a (b ++ (c ++ d)) q (λ w. Renames-three (mk w) r s t)

-- Every statement that is no region operation is renamed as a whole.
pub Renames-inline_stmt :
    (s : MirStmt)
    → has_region_op s ≡ false
    → Renames (inline_stmt s) (λ f. some (rename_stmt f s)) (names_of s)
unfolding inline_stmt rename_stmt has_region_op
Renames-inline_stmt (MirStmt.assign t v) h =
    Renames-two (λ a b. some (MirStmt.assign a b)) (Renames-map_local t) (Renames-map_value v)
Renames-inline_stmt (MirStmt.call t c xs) h =
    Renames-two (λ a b. some (MirStmt.call a c b)) (Renames-map_option t) (Renames-map_locals xs)
Renames-inline_stmt (MirStmt.call_indirect t c xs ps r) h =
    Renames-three (λ a b d. some (MirStmt.call_indirect a b d ps r)) (Renames-map_option t)
      (Renames-map_local c) (Renames-map_locals xs)
Renames-inline_stmt (MirStmt.alloc t n b s) h =
    Renames-map (λ a. some (MirStmt.alloc a n b s)) (Renames-map_local t)
Renames-inline_stmt (MirStmt.field_get t b i ty) h =
    Renames-two (λ a c. some (MirStmt.field_get a c i ty)) (Renames-map_local t)
      (Renames-map_local b)
Renames-inline_stmt (MirStmt.field_set b i v ty) h =
    Renames-two (λ a c. some (MirStmt.field_set a i c ty)) (Renames-map_local b)
      (Renames-map_local v)
Renames-inline_stmt (MirStmt.index_get t b i ty s l) h =
    Renames-four (λ a c d e. some (MirStmt.index_get a c d ty s e)) (Renames-map_local t)
      (Renames-map_local b) (Renames-map_local i) (Renames-map_option l)
Renames-inline_stmt (MirStmt.index_set b i v ty s l) h =
    Renames-four (λ a c d e. some (MirStmt.index_set a c d ty s e)) (Renames-map_local b)
      (Renames-map_local i) (Renames-map_local v) (Renames-map_option l)
Renames-inline_stmt (MirStmt.addr_of t o p) h =
    Renames-two (λ a c. some (MirStmt.addr_of a c p)) (Renames-map_local t) (Renames-map_local o)
Renames-inline_stmt (MirStmt.deref_read t b ty) h =
    Renames-two (λ a c. some (MirStmt.deref_read a c ty)) (Renames-map_local t)
      (Renames-map_local b)
Renames-inline_stmt (MirStmt.deref_write b v ty) h =
    Renames-two (λ a c. some (MirStmt.deref_write a c ty)) (Renames-map_local b)
      (Renames-map_local v)
Renames-inline_stmt (MirStmt.addr_of_field t b i ty) h =
    Renames-two (λ a c. some (MirStmt.addr_of_field a c i ty)) (Renames-map_local t)
      (Renames-map_local b)
Renames-inline_stmt (MirStmt.ptr_add t b o e s) h =
    Renames-three (λ a c d. some (MirStmt.ptr_add a c d e s)) (Renames-map_local t)
      (Renames-map_local b) (Renames-map_local o)
Renames-inline_stmt (MirStmt.cast t v to) h =
    Renames-two (λ a c. some (MirStmt.cast a c to)) (Renames-map_local t) (Renames-map_local v)
Renames-inline_stmt _ h = cc
