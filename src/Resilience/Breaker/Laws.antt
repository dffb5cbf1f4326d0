-- ===== src/Resilience/Breaker/Laws.antt =====
-- The circuit breaker's state machine: its invariant, and when it trips, rejects and closes.
use agentic_fraud_decisionin.Common.{
  ◌+◌, ◌≤◌, ◌<◌, ◌≡◌, refl, true, false, ◌⊎◌, inl, inr, Bool-cases, List, [], ◌∷◌, ◌++◌, ap, ◌∙◌,
  All, length, arith,
}
use agentic_fraud_decisionin.Resilience.Breaker.{
  Config, Breaker, closed, open_, Reply, passed, failed, rejected, Call, init, call, run,
}

-- A closed breaker is below its threshold, and one that has tripped has counted a failure.
pub record Inv (c : Config) (b : Breaker) : Type 0 where
  pub below : b.mode ≡ closed → b.failures < c.failure_threshold
  pub counted : (b.mode ≡ closed) ⊎ (1 ≤ b.failures)

init-Inv : (c : Config) → 1 ≤ c.failure_threshold → Inv c init
unfolding init
init-Inv c h = ground arith

call-Inv :
    (c : Config) (b : Breaker) (k : Call) → 1 ≤ c.failure_threshold → Inv c b → Inv c (call c b k).0
unfolding call
call-Inv c b k h v = ground arith

run-Inv :
    (c : Config) (b : Breaker) (ks : List Call)
    → 1 ≤ c.failure_threshold
    → Inv c b
    → Inv c (run c b ks)
unfolding run
run-Inv c b [] h v = v
run-Inv c b (k ∷ ks) h v = run-Inv c (call c b k).0 ks h (call-Inv c b k h v)

-- After any calls on a new breaker with a positive threshold, a closed breaker has counted fewer
-- failures than the threshold, and one that is open or half open has counted at least one.
pub run-init-Inv : (c : Config) (ks : List Call) → 1 ≤ c.failure_threshold → Inv c (run c init ks)
run-init-Inv c ks h = run-Inv c init ks h (init-Inv c h)

abbrev pub Fails : Call → Type 0
Fails k = k.succeeds ≡ false

closed_failure :
    (c : Config) (b : Breaker) (k : Call)
    → b.mode ≡ closed
    → Fails k
    → b.failures + 1 < c.failure_threshold
    → (call c b k).0 ≡ record b { failures = b.failures + 1 }
unfolding call
closed_failure c b k m f h = ground arith

threshold_opens :
    (c : Config) (b : Breaker) (k : Call)
    → b.mode ≡ closed
    → Fails k
    → c.failure_threshold ≤ b.failures + 1
    → ((call c b k).0.mode ≡ open_) × ((call c b k).0.opened_at ≡ k.after)
unfolding call
threshold_opens c b k m f h = ground arith

open_call :
    (c : Config) (b : Breaker) (k : Call)
    → b.mode ≡ open_
    → k.before < b.opened_at + c.reset_timeout
    → call c b k ≡ (b, rejected)
unfolding call
open_call c b k m h = ground arith

failures_add_up :
    (c : Config) (b : Breaker) (ks : List Call)
    → b.mode ≡ closed
    → All Fails ks
    → b.failures + length ks < c.failure_threshold
    → run c b ks ≡ record b { failures = b.failures + length ks }
unfolding run
failures_add_up c b [] m f h = ground arith
failures_add_up c b (k ∷ ks) m f h = rw (closed_failure c b k m f.0 (omega arith)) (
    failures_add_up c (record b { failures = b.failures + 1 }) ks m f.1 (omega arith)
    ∙ ground arith)

run-append :
    (c : Config) (b : Breaker) (ks ls : List Call) → run c b (ks ++ ls) ≡ run c (run c b ks) ls
unfolding run
run-append c b [] ls = refl
run-append c b (k ∷ ks) ls = run-append c (call c b k).0 ks ls

-- A new breaker that sees only failures stays closed as long as they are fewer than the threshold,
-- and the one that reaches the threshold opens it at that call's last clock reading.
pub failures_trip :
    (c : Config) (ks : List Call) (k : Call)
    → All Fails ks
    → Fails k
    → length ks + 1 ≡ c.failure_threshold
    → ((run c init ks).mode ≡ closed)
      × ((run c init (ks ++ k ∷ [])).mode ≡ open_)
      × ((run c init (ks ++ k ∷ [])).opened_at ≡ k.after)
unfolding init run
failures_trip c ks k f g h =
    let b = run c init ks in
    let e = failures_add_up c init ks refl f (omega (arith, h)) in
    let t = threshold_opens c b k (ap (λ r. r.mode) e) g (rw e (omega (arith, h))) in
    (
      ap (λ r. r.mode) e,
      rw (run-append c init ks (k ∷ []), run) t.0,
      rw (run-append c init ks (k ∷ []), run) t.1,
    )

-- What each caller of a run of calls is told.
pub replies : Config → Breaker → List Call → List Reply
replies c b [] = []
replies c b (k ∷ ks) = (call c b k).1 ∷ replies c (call c b k).0 ks

-- During the cooldown an open breaker rejects every call and does not change, whatever the wrapped
-- function would have done.
pub open_rejects :
    (c : Config) (b : Breaker) (ks : List Call)
    → b.mode ≡ open_
    → All (λ k. k.before < b.opened_at + c.reset_timeout) ks
    → (run c b ks ≡ b) × All (λ r. r ≡ rejected) (replies c b ks)
unfolding run replies
open_rejects c b [] m h = (refl, tt)
open_rejects c b (k ∷ ks) m h =
    rw (open_call c b k m h.0)
      ((open_rejects c b ks m h.1).0, (refl, (open_rejects c b ks m h.1).1))

-- After the cooldown one call goes through as the probe: its success closes the breaker with no
-- failure counted, and its failure opens it again for a new cooldown from that call's last reading.
pub probe :
    (c : Config) (b : Breaker) (k : Call)
    → b.mode ≡ open_
    → b.opened_at + c.reset_timeout ≤ k.before
    → let (b', r) = call c b k in
      ((k.succeeds ≡ true) × (r ≡ passed) × (b'.mode ≡ closed) × (b'.failures ≡ 0))
      ⊎ (Fails k × (r ≡ failed) × (b'.mode ≡ open_) × (b'.opened_at ≡ k.after))
unfolding call
probe c b k m h = elim (Bool-cases k.succeeds) [
  | inl s ↦ inl (ground arith)
  | inr n ↦ inr (ground arith)
]
