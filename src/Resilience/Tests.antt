-- ===== src/Resilience/Tests.antt =====
-- Concrete runs of fraud_platform/common/resilience.py, and its theorems at concrete inputs.
use Prim.Native.Nat.{min}
use agentic_fraud_decisionin.Common.{
  ℕ, zero, suc, ◌+◌, ◌*◌, ◌≤◌, ◌<◌, ◌≡◌, refl, true, false, [], ◌∷◌, All, length, drop, codes,
  arith, ◌⊎◌, contains, lower, starts_with,
}
use agentic_fraud_decisionin.Resilience.Classify.{
  Exc, error_text, permanent_markers, transient_markers, classify_error, transient, permanent,
}
use agentic_fraud_decisionin.Resilience.Retry.{Delays, Outcome, returns, raises, Config, retry}
use agentic_fraud_decisionin.Resilience.Retry.Laws.{
  Ended, Retried, retry_lem, exponential, powers, geometric, Growth, retry-schedule, retry-capped,
}
use agentic_fraud_decisionin.Resilience.Breaker
use agentic_fraud_decisionin.Resilience.Breaker.{
  Breaker, Call, open_, closed, rejected, init, call, run,
}
use agentic_fraud_decisionin.Resilience.Breaker.Laws.{
  Inv, run-init-Inv, failures_trip, Fails, probe,
}

min_right : (a b : ℕ) → min a b ≤ b
min_right a b = omega arith

abbrev millis : Delays
millis = record { Delay = ℕ; times = λ a b. a * b; min = min; Le = ◌≤◌; min-le_right = min_right }

abbrev config : Config millis
config = record {
  max_attempts = 3;
  base_delay = 100;
  backoff = 2;
  max_delay = 150;
  only_transient = true;
}

abbrev timeout : Exc
timeout = record { type_name = codes "TimeoutError"; message = codes "read timed out" }

abbrev bad_login : Exc
bad_login = record { type_name = codes "OperationalError"; message = codes "Invalid connection" }

-- Two timeouts, then a result.
abbrev flaky : ℕ → Outcome ℕ
flaky zero = raises timeout
flaky (suc zero) = raises timeout
flaky (suc (suc zero)) = raises timeout
flaky (suc (suc (suc n))) = returns 7

timeout_is_transient : classify_error timeout ≡ transient
unfolding classify_error error_text permanent_markers transient_markers contains starts_with lower
timeout_is_transient = refl

-- The text also has the transient marker "connection".
bad_login_is_permanent : classify_error bad_login ≡ permanent
unfolding classify_error error_text permanent_markers transient_markers contains starts_with lower
bad_login_is_permanent = refl

retry_lem_example :
    let r = retry millis config flaky in
    (1 ≤ r.calls)
    × (r.calls ≤ 3)
    × (length r.sleeps + 1 ≡ r.calls)
    × Ended millis config flaky r.calls r.final
    × ((j : ℕ) → 1 ≤ j → j < r.calls → Retried millis config flaky j)
retry_lem_example = retry_lem millis config flaky (omega arith)

le_total : (a b : ℕ) → (a ≤ b) ⊎ (b ≤ a)
le_total a b = grind arith

min_left_eq : (a b : ℕ) → a ≤ b → min a b ≡ a
min_left_eq a b h = omega arith

min_right_eq : (a b : ℕ) → b ≤ a → min a b ≡ b
min_right_eq a b h = omega arith

doubling : Growth millis config flaky
doubling = record {
  total = le_total;
  trans = λ a b d h k. omega arith;
  min_left = min_left_eq;
  min_right = min_right_eq;
  grows = λ a. omega arith;
}

-- The cap of 150 cuts the second pause of 200.
slept_pauses : exponential millis config flaky 2 ≡ 100 ∷ 150 ∷ []
unfolding powers geometric
slept_pauses = refl

retry-schedule_example :
    let r = retry millis config flaky in
    r.sleeps ≡ exponential millis config flaky (length r.sleeps)
retry-schedule_example = retry-schedule millis config flaky doubling

retry-capped_example : All (λ p. p ≤ 150) (drop 1 (retry millis config flaky).sleeps)
retry-capped_example = retry-capped millis config flaky

abbrev limits : Breaker.Config
limits = record { failure_threshold = 2; reset_timeout = 30 }

abbrev failure : ℕ → Call
failure t = record { before = t; succeeds = false; after = t + 1 }

abbrev tripped : Breaker
tripped = record { failures = 2; mode = open_; opened_at = 11 }

abbrev ready : Call
ready = record { before = 20; succeeds = true; after = 21 }

abbrev late : Call
late = record { before = 50; succeeds = true; after = 51 }

run-init-Inv_example : Inv limits (run limits init (failure 5 ∷ failure 10 ∷ ready ∷ []))
run-init-Inv_example = run-init-Inv limits (failure 5 ∷ failure 10 ∷ ready ∷ []) (omega arith)

failures_trip_example :
    ((run limits init (failure 5 ∷ [])).mode ≡ closed)
    × ((run limits init (failure 5 ∷ failure 10 ∷ [])).mode ≡ open_)
    × ((run limits init (failure 5 ∷ failure 10 ∷ [])).opened_at ≡ 11)
failures_trip_example =
    failures_trip limits (failure 5 ∷ []) (failure 10) (refl, tt) refl (omega arith)

probe_example :
    let (b', r) = call limits tripped late in
    ((true ≡ true) × (r ≡ Breaker.passed) × (b'.mode ≡ closed) × (b'.failures ≡ 0))
    ⊎ (Fails late × (r ≡ Breaker.failed) × (b'.mode ≡ open_) × (b'.opened_at ≡ 51))
probe_example = probe limits tripped late refl (omega arith)
