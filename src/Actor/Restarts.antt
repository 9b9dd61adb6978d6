-- ===== src/Actor/Restarts.antt =====
-- How often a supervised actor is restarted, and which actors are restarted with it.
use rlyeh_language.Common.{
  ℕ, suc, ◌+◌, ◌-◌, ◌≤◌, ◌<◌, ◌≡◌, refl, sym, ap, subst, ◌∙◌, inl, inr, min, none, some, List, [],
  ◌∷◌, ◌++◌, length, drop, ltb, ◌==◌, if◌then◌else◌, arith, All, Option-cases, Bool-cases,
}
use rlyeh_language.Actor.Supervisor.{
  ActorId, ActorError, RestartStrategy, SupervisorStrategy, RestartCounter, SupervisorDecision,
  Supervisor, current, counted, position, restarted, decide, note, handle_supervised, handle_crash,
  from_position,
}

module _ (F : Type 0) where
  abbrev pub restarts_of : SupervisorDecision F → ℕ
  restarts_of (SupervisorDecision.restart actors) = 1
  restarts_of _ = 0

  -- Crashes of one actor, each with its instant and its error, and the number of restarts.
  pub crash_all : ActorId → List (ℕ × ActorError) → Supervisor F → Supervisor F × ℕ
  crash_all a [] sup = (sup, 0)
  crash_all a ((now, error) ∷ rest) sup =
      let step = handle_crash F now a error sup in
      let after = crash_all a rest step.0 in (after.0, restarts_of step.1 + after.1)

  -- The strategy of an actor and its counter.
  abbrev pub Watches : ActorId → SupervisorStrategy F → RestartCounter → Supervisor F → Type 0
  Watches a s c sup = (sup.strategies a ≡ some s) × (sup.restart_counts a ≡ some c)

  -- The crash counts in the window of `c`.
  abbrev pub InWindow : SupervisorStrategy F → RestartCounter → ℕ × ActorError → Type 0
  InWindow s c crash = crash.0 - c.window_start ≤ s.within

  abbrev more : ℕ → RestartCounter → RestartCounter
  more n c = record { count = c.count + n; window_start = c.window_start }

  more_counts :
      (n : ℕ) (c : RestartCounter) (k : ℕ)
      → k ≡ c.count + n
      → (record { count = k; window_start = c.window_start }) ≡ more n c
  more_counts n c k e = ap (λ x. record { count = x; window_start = c.window_start }) e

  -- The answer to a crash, given the new counter.
  abbrev Answered :
      ActorId → SupervisorStrategy F → RestartCounter → Supervisor F × SupervisorDecision F → Type 0
  Answered a s c out =
      Watches a s c out.0 × (restarts_of out.1 ≡ (if ltb s.max_restarts c.count then 0 else 1))

  handle_supervised-Answered :
      (a : ActorId) (s : SupervisorStrategy F) (c : RestartCounter) (now : ℕ) (sup : Supervisor F)
      → sup.strategies a ≡ some s
      → Answered a s c (handle_supervised F now a s c sup)
  unfolding handle_supervised note decide
  handle_supervised-Answered a s c now sup w = ((w, ground arith), ground arith)

  handle_crash-handle_supervised :
      (a : ActorId) (s : SupervisorStrategy F) (now : ℕ) (error : ActorError) (sup : Supervisor F)
      → sup.strategies a ≡ some s
      → handle_crash F now a error sup
        ≡ handle_supervised F now a s (counted F now s.within (sup.restart_counts a)) sup
  unfolding handle_crash
  handle_crash-handle_supervised a s now error sup w = rw (handle_crash, w) refl

  counted-InWindow :
      (s : SupervisorStrategy F) (c : RestartCounter) (now : ℕ)
      → now - c.window_start ≤ s.within
      → counted F now s.within (some c) ≡ more 1 c
  unfolding counted current
  counted-InWindow s c now h = ground arith

  handle_crash-Watches :
      (a : ActorId) (s : SupervisorStrategy F) (c : RestartCounter) (now : ℕ) (error : ActorError)
      (sup : Supervisor F)
      → Watches a s c sup
      → now - c.window_start ≤ s.within
      → Answered a s (more 1 c) (handle_crash F now a error sup)
  handle_crash-Watches a s c now error sup (w, k) h =
      let e : handle_crash F now a error sup ≡ handle_supervised F now a s (more 1 c) sup =
        handle_crash-handle_supervised a s now error sup w
        ∙ ap (λ o. handle_supervised F now a s (counted F now s.within o) sup) k
        ∙ ap (λ x. handle_supervised F now a s x sup) (counted-InWindow s c now h) in
      subst (Answered a s (more 1 c)) (sym e) (handle_supervised-Answered a s (more 1 c) now sup w)

  -- Crashes of a supervised actor within its counter's window are answered by a restart as
  -- long as the window's count is below the maximum, and by no restart from there on; the
  -- count goes on.
  pub restarts-crash_all :
      (a : ActorId) (s : SupervisorStrategy F) (c : RestartCounter)
      (crashes : List (ℕ × ActorError)) (sup : Supervisor F)
      → Watches a s c sup
      → All (InWindow s c) crashes
      → ((crash_all a crashes sup).1 ≡ min (length crashes) (s.max_restarts - c.count))
        × Watches a s (more (length crashes) c) (crash_all a crashes sup).0
  unfolding crash_all
  restarts-crash_all a s c [] sup w h =
      (omega arith, (w.0, w.1 ∙ ap some (more_counts 0 c c.count (omega arith))))
  restarts-crash_all a s c ((now, error) ∷ rest) sup w h =
      let (w', r) = handle_crash-Watches a s c now error sup w h.0 in
      let (n, (p, q)) =
        restarts-crash_all a s (more 1 c) rest (handle_crash F now a error sup).0 w' h.1 in
      (ground (arith, n, r), (p, q ∙ ap some (more_counts (suc (length rest)) c _ (omega arith))))

  -- With a maximum above 0, a crash of a supervised actor after the end of its window is
  -- answered by a restart, whatever the count was, and starts the next window.
  pub restarts-handle_crash_expired :
      (a : ActorId) (s : SupervisorStrategy F) (c : RestartCounter) (now : ℕ) (error : ActorError)
      (sup : Supervisor F)
      → Watches a s c sup
      → s.within < now - c.window_start
      → 0 < s.max_restarts
      → Watches a s (record { count = 1; window_start = now }) (handle_crash F now a error sup).0
        × (restarts_of (handle_crash F now a error sup).1 ≡ 1)
  unfolding counted current
  restarts-handle_crash_expired a s c now error sup (w, k) h m =
      let first : RestartCounter = record { count = 1; window_start = now } in
      let at : counted F now s.within (some c) ≡ first = ground arith in
      let e : handle_crash F now a error sup ≡ handle_supervised F now a s first sup =
        handle_crash-handle_supervised a s now error sup w
        ∙ ap (λ o. handle_supervised F now a s (counted F now s.within o) sup) k
        ∙ ap (λ x. handle_supervised F now a s x sup) at in
      let (x, y) : Answered a s first (handle_crash F now a error sup) =
        subst (Answered a s first) (sym e) (handle_supervised-Answered a s first now sup w) in
      (x, ground (arith, y))

  crash_all-append :
      (a : ActorId) (xs ys : List (ℕ × ActorError)) (sup : Supervisor F)
      → (crash_all a (xs ++ ys) sup).1
        ≡ (crash_all a xs sup).1 + (crash_all a ys (crash_all a xs sup).0).1
  unfolding crash_all
  crash_all-append a [] ys sup = omega arith
  crash_all-append a ((now, error) ∷ xs) ys sup =
      omega (arith, crash_all-append a xs ys (handle_crash F now a error sup).0)

  -- With a maximum above 0, over the boundary of two windows a supervised actor is restarted
  -- up to the maximum in each of them, however close the crashes are: the window does not
  -- slide.
  pub restarts-two_windows :
      (a : ActorId) (s : SupervisorStrategy F) (c : RestartCounter) (xs ys : List (ℕ × ActorError))
      (now : ℕ) (error : ActorError) (sup : Supervisor F)
      → Watches a s c sup
      → All (InWindow s c) xs
      → s.within < now - c.window_start
      → All (InWindow s (record { count = 1; window_start = now })) ys
      → 0 < s.max_restarts
      → (crash_all a (xs ++ (now, error) ∷ ys) sup).1
        ≡ min (length xs) (s.max_restarts - c.count) + min (suc (length ys)) s.max_restarts
  unfolding crash_all
  restarts-two_windows a s c xs ys now error sup w before late after m =
      let (n, w') = restarts-crash_all a s c xs sup w before in
      let mid = (crash_all a xs sup).0 in
      let (w'', r) =
        restarts-handle_crash_expired a s (more (length xs) c) now error mid w' late m in
      let (k, _) =
        restarts-crash_all a s (record { count = 1; window_start = now }) ys
          (handle_crash F now a error mid).0 w'' after in
      omega (arith, crash_all-append a xs ((now, error) ∷ ys) sup, n, r, k)

  position-some :
      (a i : ℕ) (children : List ActorId)
      → position F a children ≡ some i
      → (before : List ActorId) × (after : List ActorId) × (children ≡ before ++ a ∷ after)
        × (drop i children ≡ a ∷ after)
        × (position F a before ≡ none)
  unfolding position
  position-some a i [] e = cc
  position-some a i (x ∷ xs) e = elim (Bool-cases (x == a)) [
    | inl t ↦
        let z : 0 ≡ i = ground arith in
        let same : x ≡ a = ground arith in
        (
          [],
          xs,
          ap (λ y. y ∷ xs) same,
          subst (λ j. drop j (x ∷ xs) ≡ a ∷ xs) z (ap (λ y. y ∷ xs) same),
          refl,
        )
    | inr f ↦ elim (Option-cases (position F a xs)) [
      | inl n ↦ ground arith
      | inr (j, q) ↦
          let (before, after, p, d, m) = position-some a j xs q in
          let z : suc j ≡ i = ground arith in
          (
            x ∷ before,
            after,
            ap (◌∷◌ x) p,
            subst (λ k. drop k (x ∷ xs) ≡ a ∷ after) z d,
            ground arith,
          )
    ]
  ]

  -- With restart_for_one a declared child is restarted with the children that were declared after
  -- it, and with no others.
  pub restarted_suffix :
      (a i : ℕ) (children : List ActorId)
      → position F a children ≡ some i
      → (before : List ActorId) × (after : List ActorId) × (children ≡ before ++ a ∷ after)
        × (restarted F a RestartStrategy.restart_for_one children ≡ a ∷ after)
        × (position F a before ≡ none)
  unfolding restarted from_position
  restarted_suffix a i children e =
      let (before, after, p, d, m) = position-some a i children e in
      (before, after, p, rw (e, restarted, from_position) d, m)
