-- ===== src/Resilience/Retry/Laws.antt =====
-- What the retry decorator promises: how many calls, which outcome, which pauses.
use agentic_fraud_decisionin.Common.{
  ℕ, zero, suc, ◌+◌, ◌≤◌, ◌<◌, ◌≡◌, ◌≢◌, refl, ap, ◌∙◌, subst, Bool, true, false, not, ◌&&◌, ◌⊎◌,
  inl, inr, List, [], ◌∷◌, length, All, drop, arith, ◌==◌, Bool-cases,
}
use agentic_fraud_decisionin.Resilience.Classify.{Exc, classify_error}
use agentic_fraud_decisionin.Resilience.Classify.{
  error_text, has_marker, permanent_markers, classify_error-permanent,
}
use agentic_fraud_decisionin.Resilience.Retry.{
  Delays, Outcome, returns, raises, Final, returned, raised, raised_none, is_transient, Config, Run,
  next_delay, slept, stop, attempt_from, retry,
}

module _ (ds : Delays) {A : Type 0} (c : Config ds) (fn : ℕ → Outcome A) where
  open ds use {Delay, Le, min, times, min-le_right}

  -- The decorator tries again after this exception, if attempts are left.
  abbrev pub is_retryable : Exc → Bool
  is_retryable e = not (c.only_transient && not (is_transient (classify_error e)))

  -- What came out is what the call numbered `j` did; a raise is a last attempt or not retryable.
  abbrev pub Ended : ℕ → Final A → Type 0
  Ended j (returned a) = fn j ≡ returns a
  Ended j (raised e) = (fn j ≡ raises e) × ((is_retryable e ≡ false) ⊎ (j ≡ c.max_attempts))
  Ended j raised_none = ⊥

  -- Call `j` raised something that is retried.
  abbrev pub Retried : ℕ → Type 0
  Retried j = (e : Exc) × (fn j ≡ raises e) × (is_retryable e ≡ true)

  Outcome-cases : (o : Outcome A) → ((a : A) × (o ≡ returns a)) ⊎ ((e : Exc) × (o ≡ raises e))
  Outcome-cases (returns a) = inl (a, refl)
  Outcome-cases (raises e) = inr (e, refl)

  record Good (k : ℕ) (d : Delay) (r : Run ds A) : Type 0 where
    last : ℕ
    at : k + r.calls ≡ suc last
    some_call : 1 ≤ r.calls
    in_bound : last ≤ c.max_attempts
    pauses : length r.sleeps + 1 ≡ r.calls
    ended : Ended last r.final
    earlier : (j : ℕ) → k ≤ j → j < last → Retried j

  stop-Good :
      (k : ℕ) (d : Delay) (f : Final A) → k ≤ c.max_attempts → Ended k f → Good k d (stop ds f)
  stop-Good k d f h e = record {
    last = k;
    at = omega arith;
    some_call = omega arith;
    in_bound = h;
    pauses = omega arith;
    ended = e;
    earlier = λ j a b. absurd (omega arith);
  }

  eq_or_lt : (k j : ℕ) → k ≤ j → (k ≡ j) ⊎ (k + 1 ≤ j)
  eq_or_lt k j h = grind arith

  slept-Good :
      (k : ℕ) (d d' : Delay) (r : Run ds A)
      → Retried k
      → Good (k + 1) d' r
      → Good k d (slept ds d r)
  slept-Good k d d' r h g = record {
    last = g.last;
    at = omega (arith, g.at);
    some_call = omega arith;
    in_bound = g.in_bound;
    pauses = omega (arith, g.pauses);
    ended = g.ended;
    earlier =
        λ j a b. elim (eq_or_lt k j a) [ inl e ↦ subst Retried e h | inr l ↦ g.earlier j l b ];
  }

  attempt-Good :
      (left k : ℕ) (d : Delay)
      → k ≤ c.max_attempts
      → (k ≢ c.max_attempts
          → Good
              (k + 1)
              (next_delay ds c d)
              (attempt_from ds c fn left (k + 1) (next_delay ds c d)))
      → Good k d (attempt_from ds c fn (suc left) k d)
  unfolding attempt_from
  attempt-Good left k d b rest = elim (Outcome-cases (fn k)) [
    | inl (a, r) ↦ rw (r, attempt_from) (stop-Good k d (returned a) b r)
    | inr (x, r) ↦ elim (Bool-cases (c.only_transient && not (is_transient (classify_error x)))) [
      | inl fatal ↦ rw (r, attempt_from, fatal) (stop-Good k d (raised x) b (r, inl (rw fatal)))
      | inr again ↦ elim (Bool-cases (k == c.max_attempts)) [
        | inl over ↦
            rw (r, attempt_from, again, over) (stop-Good k d (raised x) b (r, inr (ground arith)))
        | inr more ↦
            rw (r, attempt_from, again, more)
              (slept-Good k d _ _ (x, r, rw again) (rest (ground arith)))
      ]
    ]
  ]

  attempt_from-Good :
      (left k : ℕ) (d : Delay)
      → k + left ≡ c.max_attempts
      → Good k d (attempt_from ds c fn (suc left) k d)
  attempt_from-Good zero k d e = attempt-Good zero k d (omega arith) (λ n. absurd (n (omega arith)))
  attempt_from-Good (suc left) k d e =
      attempt-Good (suc left) k d (omega arith)
        (λ n. attempt_from-Good left (k + 1) (next_delay ds c d) (omega arith))

  attempts-Good :
      (m : ℕ)
      → 1 ≤ m
      → m ≡ c.max_attempts
      → Good 1 c.base_delay (attempt_from ds c fn m 1 c.base_delay)
  attempts-Good zero h e = elim h [ ]
  attempts-Good (suc n) h e = attempt_from-Good n 1 c.base_delay (omega (arith, e))

  retry-Good : 1 ≤ c.max_attempts → Good 1 c.base_delay (retry ds c fn)
  unfolding retry
  retry-Good h = attempts-Good c.max_attempts h refl

  -- With at least one attempt allowed, the decorator makes between one and `max_attempts` calls,
  -- pauses once between any two of them, hands back what the last call did, and has seen every
  -- earlier call raise an exception that it retries; it gives up only on an exception that is not
  -- retried or on the last attempt.
  pub retry_lem :
      1 ≤ c.max_attempts
      → let r = retry ds c fn in
        (1 ≤ r.calls)
        × (r.calls ≤ c.max_attempts)
        × (length r.sleeps + 1 ≡ r.calls)
        × Ended r.calls r.final
        × ((j : ℕ) → 1 ≤ j → j < r.calls → Retried j)
  retry_lem h =
      let g = retry-Good h in
      let e : g.last ≡ (retry ds c fn).calls = omega (arith, g.at) in
      (g.some_call, rw (← e) g.in_bound, g.pauses, rw (← e) g.ended, rw (← e) g.earlier)

  -- The pauses that n failed attempts call for, from the first delay on.
  pub schedule : ℕ → Delay → List Delay
  schedule zero d = []
  schedule (suc n) d = d ∷ schedule n (next_delay ds c d)

  attempt_from-schedule :
      (left k : ℕ) (d : Delay)
      → let r = attempt_from ds c fn left k d in r.sleeps ≡ schedule (length r.sleeps) d
  unfolding attempt_from schedule
  attempt_from-schedule zero k d = refl
  attempt_from-schedule (suc left) k d =
      ground (arith, attempt_from-schedule left (k + 1) (next_delay ds c d))

  sleeps-schedule : let r = retry ds c fn in r.sleeps ≡ schedule (length r.sleeps) c.base_delay
  unfolding retry
  sleeps-schedule = attempt_from-schedule c.max_attempts 1 c.base_delay

  schedule-capped : (n : ℕ) (d : Delay) → All (λ p. Le p c.max_delay) (drop 1 (schedule n d))
  unfolding schedule
  schedule-capped zero d = tt
  schedule-capped (suc zero) d = tt
  schedule-capped (suc (suc n)) d = (min-le_right _ _, schedule-capped (suc n) (next_delay ds c d))

  -- Every pause after the first is at most `max_delay`.
  pub retry-capped : All (λ p. Le p c.max_delay) (drop 1 (retry ds c fn).sleeps)
  retry-capped = rw sleeps-schedule (schedule-capped (length (retry ds c fn).sleeps) c.base_delay)

  -- The delay before any cap: `base_delay` times `backoff`, `i` times over.
  unfoldable pub geometric : ℕ → Delay
  geometric zero = c.base_delay
  geometric (suc i) = times (geometric i) c.backoff

  -- The capped powers from the `i`-th on.
  unfoldable pub powers : ℕ → ℕ → List Delay
  powers i zero = []
  powers i (suc n) = min (geometric i) c.max_delay ∷ powers (suc i) n

  -- `base_delay`, then the capped powers; the first pause is not capped.
  abbrev pub exponential : ℕ → List Delay
  exponential zero = []
  exponential (suc n) = c.base_delay ∷ powers 1 n

  -- What the order of delays, its minimum and a factor that is at least one promise.
  pub record Growth : Type 0 where
    pub total : (a b : Delay) → Le a b ⊎ Le b a
    pub trans : (a b d : Delay) → Le a b → Le b d → Le a d
    pub min_left : (a b : Delay) → Le a b → min a b ≡ a
    pub min_right : (a b : Delay) → Le b a → min a b ≡ b
    pub grows : (a : Delay) → Le a (times a c.backoff)

  -- A cap before the factor is forgotten by the cap after it.
  min-times :
      Growth
      → (a : Delay)
      → min (times (min a c.max_delay) c.backoff) c.max_delay ≡ min (times a c.backoff) c.max_delay
  min-times g a = elim (g.total a c.max_delay) [
    | inl l ↦ rw (g.min_left a c.max_delay l) refl
    | inr l ↦
        let longer = g.trans c.max_delay a (times a c.backoff) l (g.grows a) in
        rw
          (
            g.min_right a c.max_delay l,
            g.min_right (times c.max_delay c.backoff) c.max_delay (g.grows c.max_delay),
            g.min_right (times a c.backoff) c.max_delay longer,
          )
          refl
  ]

  schedule-powers :
      Growth
      → (n i : ℕ) (d : Delay) → next_delay ds c d ≡ min (geometric (suc i)) c.max_delay
      → schedule n (next_delay ds c d) ≡ powers (suc i) n
  unfolding schedule powers geometric
  schedule-powers g zero i d h = refl
  schedule-powers g (suc n) i d h =
      let later : next_delay ds c (next_delay ds c d) ≡ min (geometric (suc (suc i))) c.max_delay =
        ap (λ x. min (times x c.backoff) c.max_delay) h ∙ min-times g (geometric (suc i)) in
      ap (λ x. x ∷ schedule n (next_delay ds c (next_delay ds c d))) h
      ∙ ap (λ xs. min (geometric (suc i)) c.max_delay ∷ xs)
          (schedule-powers g n (suc i) (next_delay ds c d) later)

  schedule-exponential : Growth → (n : ℕ) → schedule n c.base_delay ≡ exponential n
  unfolding schedule geometric
  schedule-exponential g zero = refl
  schedule-exponential g (suc n) =
      ap (λ xs. c.base_delay ∷ xs) (schedule-powers g n 0 c.base_delay refl)

  -- Where a delay times the backoff is never shorter than the delay, the pauses slept are
  -- `base_delay`, then for each i from 1 the product of `base_delay` and i factors `backoff`, or
  -- `max_delay` where that is shorter, until the run ends.
  pub retry-schedule : Growth → let r = retry ds c fn in r.sleeps ≡ exponential (length r.sleeps)
  retry-schedule g = sleeps-schedule ∙ schedule-exponential g (length (retry ds c fn).sleeps)

  attempts_permanent :
      (m : ℕ) (e : Exc)
      → 1 ≤ m
      → c.only_transient ≡ true
      → fn 1 ≡ raises e
      → has_marker permanent_markers (error_text e) ≡ true
      → attempt_from ds c fn m 1 c.base_delay ≡ record { final = raised e; sleeps = []; calls = 1 }
  unfolding attempt_from
  attempts_permanent zero e h o f m = elim h [ ]
  attempts_permanent (suc n) e h o f m = rw (f, attempt_from, o, classify_error-permanent e m)

  -- Under `only_transient`, a first call whose exception text has a permanent marker is the only
  -- call, whatever other markers the text has: it is raised on with no pause.
  retry_permanent :
      (e : Exc)
      → 1 ≤ c.max_attempts
      → c.only_transient ≡ true
      → fn 1 ≡ raises e
      → has_marker permanent_markers (error_text e) ≡ true
      → retry ds c fn ≡ record { final = raised e; sleeps = []; calls = 1 }
  unfolding retry
  retry_permanent = attempts_permanent c.max_attempts
