-- ===== src/Resilience/Breaker.antt =====
-- CircuitBreaker of fraud_platform/common/resilience.py. Clock readings are numbers of one unit;
-- a call is given the reading before it, the wrapped function's outcome and the reading after it.
pub mod Laws
use agentic_fraud_decisionin.Common.{
  ℕ, ◌+◌, Bool, true, false, ◌||◌, ◌&&◌, List, [], ◌∷◌, if◌then◌else◌, leb, arith,
}

pub data Mode : Type 0 where
  closed open_ half_open : Mode

pub record Config : Type 0 where
  pub failure_threshold : ℕ
  pub reset_timeout : ℕ

pub record Breaker : Type 0 where
  pub failures : ℕ
  pub mode : Mode
  pub opened_at : ℕ

-- What the caller sees: the function's own outcome, or CircuitOpenError with no call made.
pub data Reply : Type 0 where
  passed failed rejected : Reply

pub record Call : Type 0 where
  pub before : ℕ
  pub succeeds : Bool
  pub after : ℕ

abbrev pub is_open : Mode → Bool
is_open open_ = true
is_open _ = false

abbrev pub is_half_open : Mode → Bool
is_half_open half_open = true
is_half_open _ = false

unfoldable pub init : Breaker
init = record { failures = 0; mode = closed; opened_at = 0 }

-- The property `state`, which moves OPEN to HALF_OPEN once the cooldown is over:
-- clock - opened_at >= reset_timeout, with the subtraction moved to the other side.
unfoldable pub state : Config → ℕ → Breaker → Breaker
state c now b =
    if is_open b.mode && leb (b.opened_at + c.reset_timeout) now
    then record b { mode = half_open }
    else b

unfoldable pub on_success : Breaker → Breaker
on_success b = record b { failures = 0; mode = closed }

unfoldable pub on_failure : Config → ℕ → Breaker → Breaker
on_failure c now b =
    let n = b.failures + 1 in
    if leb c.failure_threshold n || is_half_open b.mode
    then record { failures = n; mode = open_; opened_at = now }
    else record b { failures = n }

unfoldable pub call : Config → Breaker → Call → Breaker × Reply
unfolding state on_success on_failure
call c b k =
    let b' = state c k.before b in
    if is_open b'.mode
    then (b', rejected)
    else if k.succeeds
    then (on_success b', passed)
    else (on_failure c k.after b', failed)

unfoldable pub run : Config → Breaker → List Call → Breaker
run c b [] = b
run c b (k ∷ ks) = run c (call c b k).0 ks
