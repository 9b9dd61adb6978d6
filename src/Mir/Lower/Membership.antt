-- ===== src/Mir/Lower/Membership.antt =====
-- What `x in {…}` and `x in l..u` of literals are lowered to, against the evaluator of operand trees.
use rlyeh_language.Common.{
  ℕ, ◌≡◌, refl, sym, subst, Bool, true, false, not, ◌&&◌, ◌||◌, Option, none, some, List, [], ◌∷◌,
  ◌==◌, if◌then◌else◌,
}
use rlyeh_language.Hir.{Span, HirExpr, HirExprKind, HirExprs, HirOption}
use rlyeh_language.Mir.{Local, MirValue, HirBinaryOp}
use rlyeh_language.Mir.Int128.{less}
use rlyeh_language.Mir.ConstFold.Meaning.{
  Value, Rest, RestUnary, eval, apply, apply_int, apply_bool, apply_unary,
}
use rlyeh_language.Mir.Lower.{MirLowerer, pure, ◌>>=◌, ◌>>?◌}
use rlyeh_language.Mir.Lower.Control.{to_place, place_of}
use rlyeh_language.Mir.Lower.Values.{joined, whole_test, lower_test, upper_test}
use rlyeh_language.Mir.Lower.Expr.{lower_value, lower_kind, lower_members, lower_bound}

abbrev pub literal : Span → ℕ → HirExpr
literal sp n = HirExpr.expr (HirExprKind.int_literal n) sp

abbrev pub literals : Span → List ℕ → HirExprs
literals sp [] = HirExprs.no_more
literals sp (n ∷ ns) = HirExprs.more (literal sp n) (literals sp ns)

abbrev pub bound : Span → Option ℕ → HirOption
bound sp none = HirOption.absent
bound sp (some n) = HirOption.present (literal sp n)

abbrev pub elem : ℕ → List ℕ → Bool
elem n [] = false
elem n (m ∷ ms) = (n == m) || elem n ms

-- An absent bound admits every number.
abbrev pub above : Bool → ℕ → Option ℕ → Bool
above inclusive n none = true
above inclusive n (some l) = if inclusive then not (less n l) else less l n

abbrev pub below : Bool → ℕ → Option ℕ → Bool
below inclusive n none = true
below inclusive n (some u) = if inclusive then not (less u n) else less n u

abbrev pub unless : Bool → Bool → Bool
unless negated b = if negated then not b else b

or_false : (b : Bool) → (b || false) ≡ b
or_false true = refl
or_false false = refl

or_assoc : (a b c : Bool) → ((a || b) || c) ≡ (a || (b || c))
or_assoc true b c = refl
or_assoc false b c = refl

and_true : (b : Bool) → (b && true) ≡ b
and_true true = refl
and_true false = refl

abbrev map_literal : Option ℕ → Option MirValue
map_literal none = none
map_literal (some n) = some (MirValue.int n)

lower_bound-literal :
    (sp : Span) (o : Option ℕ) (s : MirLowerer)
    → lower_bound (bound sp o) s ≡ some (some (map_literal o), s)
unfolding lower_bound lower_value lower_kind ◌>>?◌ ◌>>=◌ pure
lower_bound-literal sp none s = refl
lower_bound-literal sp (some n) s = refl

module _ (env : Local → Value) (rest : Rest) (rest_unary : RestUnary) where
  -- What the comparisons so far come to.
  abbrev Means : Bool → Bool → Option MirValue → Type 0
  Means unjoined b none = unjoined ≡ b
  Means unjoined b (some v) = eval env rest rest_unary v ≡ some (Value.bool b)

  whole_test-Means :
      (negated unjoined b : Bool) (acc : Option MirValue)
      → Means unjoined b acc
      → eval env rest rest_unary (whole_test negated unjoined acc)
        ≡ some (Value.bool (unless negated b))
  unfolding whole_test eval apply_unary
  whole_test-Means true unjoined b none h = rw h refl
  whole_test-Means false unjoined b none h = rw h refl
  whole_test-Means true unjoined b (some v) h = rw h refl
  whole_test-Means false unjoined b (some v) h = h

  joined-or :
      (acc : Option MirValue) (b c : Bool) (cmp : MirValue)
      → Means false b acc
      → eval env rest rest_unary cmp ≡ some (Value.bool c)
      → Means false (b || c) (some (joined HirBinaryOp.or acc cmp))
  unfolding joined eval apply apply_bool
  joined-or none b c cmp h k =
      subst (λ a. eval env rest rest_unary cmp ≡ some (Value.bool (a || c))) h k
  joined-or (some v) b c cmp h k = rw (h, k) refl

  joined-and :
      (acc : Option MirValue) (b c : Bool) (cmp : MirValue)
      → Means true b acc
      → eval env rest rest_unary cmp ≡ some (Value.bool c)
      → Means true (b && c) (some (joined HirBinaryOp.and acc cmp))
  unfolding joined eval apply apply_bool
  joined-and none b c cmp h k =
      subst (λ a. eval env rest rest_unary cmp ≡ some (Value.bool (a && c))) h k
  joined-and (some v) b c cmp h k = rw (h, k) refl

  module _ (sp : Span) (x : Local) (n : ℕ) (held : env x ≡ Value.int n) where
    compared :
        (op : HirBinaryOp) (m : ℕ) (b : Bool)
        → apply_int env rest rest_unary op n m ≡ some (Value.bool b)
        → eval env rest rest_unary (MirValue.binary op (MirValue.place x) (MirValue.int m))
          ≡ some (Value.bool b)
    unfolding eval apply
    compared op m b h = rw held h

    lower_members-Means :
        (ms : List ℕ) (acc : Option MirValue) (b : Bool) (s : MirLowerer)
        → Means false b acc
        → (acc' : Option MirValue) × (lower_members x acc (literals sp ms) s ≡ some (some acc', s))
          × Means false (b || elem n ms) acc'
    unfolding lower_members lower_value lower_kind ◌>>?◌ ◌>>=◌ pure apply_int
    lower_members-Means [] acc b s h =
        (acc, refl, subst (λ a. Means false a acc) (sym (or_false b)) h)
    lower_members-Means (m ∷ ms) acc b s h =
        let next : Option MirValue = some (
          joined HirBinaryOp.or acc
            (MirValue.binary HirBinaryOp.eq (MirValue.place x) (MirValue.int m))) in
        let (acc', e, h') =
          lower_members-Means ms next (b || (n == m)) s
            (joined-or acc b (n == m) _ h (compared HirBinaryOp.eq m (n == m) refl)) in
        (acc', e, subst (λ a. Means false a acc') (or_assoc b (n == m) (elem n ms)) h')

    -- Let `x` hold the number `n`. Lowering `x in {m, …}` (or `x not in {m, …}`) of literals emits
    -- nothing, and the tree that it returns evaluates to whether `n` is a member (or is none).
    pub eval-set_lookup :
        (ms : List ℕ) (negated : Bool) (s : MirLowerer)
        → (v : MirValue) × (lower_kind
              (HirExprKind.set_lookup
                (HirExpr.expr (HirExprKind.variable x) sp)
                (literals sp ms)
                negated)
              s
            ≡ some (some v, s))
          × (eval env rest rest_unary v ≡ some (Value.bool (unless negated (elem n ms))))
    unfolding lower_kind lower_value to_place place_of ◌>>?◌ ◌>>=◌ pure
    eval-set_lookup ms negated s =
        let (acc, e, h) = lower_members-Means ms none false s refl in
        (whole_test negated false acc, rw e refl, whole_test-Means negated false (elem n ms) acc h)

    lower_test-Means :
        (inclusive : Bool) (l : Option ℕ)
        → Means true (above inclusive n l) (lower_test x inclusive (map_literal l))
    unfolding lower_test apply_int
    lower_test-Means inclusive none = refl
    lower_test-Means true (some l) = compared HirBinaryOp.ge l _ refl
    lower_test-Means false (some l) = compared HirBinaryOp.gt l _ refl

    upper_test-Means :
        (inclusive : Bool) (acc : Option MirValue) (b : Bool) (u : Option ℕ)
        → Means true b acc
        → Means true (b && below inclusive n u) (upper_test x inclusive acc (map_literal u))
    unfolding upper_test apply_int
    upper_test-Means inclusive acc b none h = subst (λ a. Means true a acc) (sym (and_true b)) h
    upper_test-Means true acc b (some u) h =
        joined-and acc b _ _ h (compared HirBinaryOp.le u _ refl)
    upper_test-Means false acc b (some u) h =
        joined-and acc b _ _ h (compared HirBinaryOp.lt u _ refl)

    -- Let `x` hold the number `n`. Lowering `x in l..u` (or `x not in l..u`) of literal bounds, each
    -- absent or present, included or not, emits nothing, and the tree that it returns evaluates to
    -- whether `n`, as a signed number, is inside both bounds (or is not).
    pub eval-range_check :
        (l u : Option ℕ) (lower_inclusive upper_inclusive negated : Bool) (s : MirLowerer)
        → (v : MirValue) × (lower_kind
              (HirExprKind.range_check
                (HirExpr.expr (HirExprKind.variable x) sp)
                (bound sp l)
                (bound sp u)
                lower_inclusive
                upper_inclusive
                negated)
              s
            ≡ some (some v, s))
          × (eval env rest rest_unary v
              ≡ some (
                  Value.bool
                    (unless negated (above lower_inclusive n l && below upper_inclusive n u))))
    unfolding lower_kind lower_value to_place place_of ◌>>?◌ ◌>>=◌ pure
    eval-range_check l u li ui negated s = (
      whole_test negated true (upper_test x ui (lower_test x li (map_literal l)) (map_literal u)),
      rw (lower_bound-literal sp l, lower_bound-literal sp u) refl,
      whole_test-Means negated true (above li n l && below ui n u) _
          (upper_test-Means ui _ (above li n l) u (lower_test-Means li l)),
    )
