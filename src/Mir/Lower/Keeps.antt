-- ===== src/Mir/Lower/Keeps.antt =====
-- The rules for the other operations, for chains, and for values that are put in a local.
use Prim.Native.String.{String}
use rlyeh_language.Common.{
  ℕ, suc, ◌≤◌, ◌≡◌, refl, ap, subst, Bool, true, false, Option, none, some, List, [], ◌∷◌, arith,
  length, All, if◌then◌else◌,
}
use rlyeh_language.Mir.{Local, MirValue}
use rlyeh_language.Mir.Lower.{
  LoopCtx, MirLowerer, Lowering, pure, expect, on_some, ◌>>=◌, ◌>>?◌, fresh_temp, push_loop,
  pop_loop, region_key,
}
use rlyeh_language.Mir.Lower.Rules.{
  TargetsBelow, Inv, Any, Gives, Lowers, Gives-bind, Gives-pure, Lowers-Gives, current-Gives,
  switch_to-Lowers, emit-Lowers, terminate-Lowers, cur_closed-Lowers, new_block-Gives,
}
use rlyeh_language.Mir.Lower.Control.{place_of, to_place, unit_value, place_result}

pub fresh_temp-Lowers : {n d : ℕ} → Lowers n d d fresh_temp
unfolding fresh_temp
fresh_temp-Lowers = record {
  run = λ s v. (
    (_, _),
    refl,
    record {
      size = v.size;
      here = v.here;
      inside = v.inside;
      loops = v.loops;
      depth = v.depth;
      no_asserts = v.no_asserts;
    },
    tt,
  );
}

pub region_key-Lowers : {n d : ℕ} (name : Option String) → Lowers n d d (region_key name)
unfolding region_key
region_key-Lowers (some x) = record { run = λ s v. ((x, s), refl, v, tt) }
region_key-Lowers none = record {
  run = λ s v. (
    (_, _),
    refl,
    record {
      size = v.size;
      here = v.here;
      inside = v.inside;
      loops = v.loops;
      depth = v.depth;
      no_asserts = v.no_asserts;
    },
    tt,
  );
}

pub push_loop-Lowers : {n d : ℕ} (c : LoopCtx) → TargetsBelow n c → Lowers n d (suc d) (push_loop c)
unfolding push_loop
push_loop-Lowers c h = record {
  run = λ s v. (
    (tt, record s { loop_stack = c ∷ s.loop_stack }),
    refl,
    record {
      size = v.size;
      here = v.here;
      inside = v.inside;
      loops = ((omega (arith, v.size, h), omega (arith, v.size, h)), v.loops);
      depth = ap suc v.depth;
      no_asserts = v.no_asserts;
    },
    tt,
  );
}

-- The loop that a pop takes.
abbrev pub IsLoop : ℕ → Option LoopCtx → Type 0
IsLoop n none = ⊥
IsLoop n (some c) = TargetsBelow n c

popped :
    {n d : ℕ} (s : MirLowerer) (cs : List LoopCtx)
    → s.loop_stack ≡ cs
    → Inv n (suc d) s
    → (out : Option LoopCtx × MirLowerer) × (pop_loop s ≡ some out)
      × Inv n d out.1
      × IsLoop (length out.1.blocks) out.0
unfolding pop_loop
popped s [] e v = absurd (ground (arith, v.depth))
popped s (c ∷ cs) e v =
    let loops : All (TargetsBelow (length s.blocks)) (c ∷ cs) =
      subst (All (TargetsBelow (length s.blocks))) e v.loops in
    (
      (some c, record s { loop_stack = cs }),
      rw e refl,
      record {
        size = v.size;
        here = v.here;
        inside = v.inside;
        loops = loops.1;
        depth = ground (arith, v.depth);
        no_asserts = v.no_asserts;
      },
      loops.0,
    )

pub pop_loop-Gives : {n d : ℕ} → Gives IsLoop n (suc d) d pop_loop
pop_loop-Gives = record { run = λ s v. popped s s.loop_stack refl v }

pub expect-Gives : {n d : ℕ} (o : Option LoopCtx) → IsLoop n o → Gives TargetsBelow n d d (expect o)
unfolding expect
expect-Gives none h = absurd h
expect-Gives (some c) h = record {
  run = λ s v. ((c, s), refl, v, (omega (arith, v.size, h), omega (arith, v.size, h)));
}

pub this_loop-Gives : {n d : ℕ} → Gives TargetsBelow n (suc d) d (pop_loop >>= expect)
this_loop-Gives = Gives-bind pop_loop expect pop_loop-Gives λ k o le h. expect-Gives o h

-- For a step whose result matters to no rule.
module _ {A B : Type 0} where
  pub Lowers-bind :
      {n d : ℕ} (m : Lowering A) (f : A → Lowering B)
      → Lowers n d d m
      → ((k : ℕ) (a : A) → n ≤ k → Lowers k d d (f a))
      → Lowers n d d (m >>= f)
  Lowers-bind m f hm hf = Gives-bind m f hm λ k a le _. hf k a le

module _ {A B : Type 0} where
  on_some-Lowers :
      {n d : ℕ} (f : A → Lowering (Option B)) (o : Option A)
      → ((a : A) → Lowers n d d (f a))
      → Lowers n d d (on_some f o)
  on_some-Lowers f none h = Gives-pure none (λ _ _. tt)
  on_some-Lowers f (some a) h = h a

  pub Lowers-try :
      {n d : ℕ} (m : Lowering (Option A)) (f : A → Lowering (Option B))
      → Lowers n d d m
      → ((k : ℕ) (a : A) → n ≤ k → Lowers k d d (f a))
      → Lowers n d d (m >>? f)
  unfolding ◌>>?◌
  Lowers-try m f hm hf = Lowers-bind m (on_some f) hm λ k o le. on_some-Lowers f o (λ a. hf k a le)

pub Lowers-pure : {A : Type 0} {n d : ℕ} (a : A) → Lowers n d d (pure a)
Lowers-pure a = Gives-pure a (λ _ _. tt)

pub Lowers-if :
    {A : Type 0} {n d d' : ℕ} (b : Bool) (m m' : Lowering A)
    → Lowers n d d' m
    → Lowers n d d' m'
    → Lowers n d d' (if b then m else m')
Lowers-if true m m' h h' = h
Lowers-if false m m' h h' = h'

pub ruleset lower_rules = (
  Lowers-bind, Lowers-try, Lowers-pure, Lowers-if, emit-Lowers, cur_closed-Lowers,
  fresh_temp-Lowers, region_key-Lowers,
)

pub unit_value-Lowers : {n d : ℕ} → Lowers n d d unit_value
unfolding unit_value
unit_value-Lowers = search lower_rules

pub place_of-Lowers : {n d : ℕ} (v : MirValue) → Lowers n d d (place_of v)
unfolding place_of
place_of-Lowers {n = n} {d = d} v = elim v as (λ w. Lowers n d d (place_of w)) [
  | MirValue.place p ↦ search lower_rules
  | _ ↦ search lower_rules
]

pub to_place-Lowers :
    {n d : ℕ} (m : Lowering (Option MirValue)) → Lowers n d d m → Lowers n d d (to_place m)
unfolding to_place
to_place-Lowers m h = search (lower_rules, place_of-Lowers)

pub place_result-Lowers :
    {n d : ℕ} (m : Lowering (Option Local)) → Lowers n d d m → Lowers n d d (place_result m)
unfolding place_result
place_result-Lowers m h = search lower_rules
