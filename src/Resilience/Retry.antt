-- ===== src/Resilience/Retry.antt =====
-- The retry decorator of fraud_platform/common/resilience.py. The wrapped function is the outcome
-- of each attempt, from 1; a run records what came out, the pauses slept and the calls made.
-- Delays are floats in the source: their product, minimum and order are a parameter.
pub mod Laws
use agentic_fraud_decisionin.Common.{
  ℕ, zero, suc, ◌+◌, Bool, true, false, not, ◌&&◌, List, [], ◌∷◌, if◌then◌else◌, ◌==◌, arith,
}
use agentic_fraud_decisionin.Resilience.Classify.{Exc, Kind, transient, permanent, classify_error}

-- The arithmetic of delays, with the one law of `min` that the cap rests on.
pub record Delays : Type 1 where
  pub Delay : Type 0
  pub times : Delay → Delay → Delay
  pub min : Delay → Delay → Delay
  pub Le : Delay → Delay → Type 0
  pub min-le_right : (a b : Delay) → Le (min a b) b

pub data Outcome (A : Type 0) : Type 0 where
  returns : A → Outcome A
  raises : Exc → Outcome A

-- `raise last_exc` with no attempt made raises None, which is an error of its own.
pub data Final (A : Type 0) : Type 0 where
  returned : A → Final A
  raised : Exc → Final A
  raised_none : Final A

abbrev pub is_transient : Kind → Bool
is_transient transient = true
is_transient permanent = false

module _ (ds : Delays) where
  open ds use {Delay, times, min}

  pub record Config : Type 0 where
    pub max_attempts : ℕ
    pub base_delay : Delay
    pub backoff : Delay
    pub max_delay : Delay
    pub only_transient : Bool

  pub record Run (A : Type 0) : Type 0 where
    pub final : Final A
    pub sleeps : List Delay
    pub calls : ℕ

  -- delay = min(delay * backoff, max_delay)
  abbrev pub next_delay : Config → Delay → Delay
  next_delay c d = min (times d c.backoff) c.max_delay

  abbrev pub slept : {A : Type 0} → Delay → Run A → Run A
  slept d r = record r { sleeps = d ∷ r.sleeps; calls = suc r.calls }

  abbrev pub stop : {A : Type 0} → Final A → Run A
  stop f = record { final = f; sleeps = []; calls = 1 }

  -- The loop from attempt `k`, with as many rounds left as the first argument says.
  attempt_from : {A : Type 0} → Config → (ℕ → Outcome A) → ℕ → ℕ → Delay → Run A
  attempt_from c fn zero k d = record { final = raised_none; sleeps = []; calls = 0 }
  attempt_from c fn (suc left) k d =
      let rest = slept d (attempt_from c fn left (k + 1) (next_delay c d)) in
      elim (fn k) [
        | returns a ↦ stop (returned a)
        | raises e ↦
            if c.only_transient && not (is_transient (classify_error e))
            then stop (raised e)
            else if k == c.max_attempts
            then stop (raised e)
            else rest
      ]

  pub retry : {A : Type 0} → Config → (ℕ → Outcome A) → Run A
  unfolding attempt_from
  retry c fn = attempt_from c fn c.max_attempts 1 c.base_delay
