-- ===== src/Workflow/State.antt =====
-- The state machine of fraud_platform/workflow_engine/state.py.
use agentic_fraud_decisionin.Common.{ℕ, Bool, true, ◌≡◌, List, [], ◌∷◌, any, ◌==◌, arith, ◌↔◌}

pub data WorkflowState : Type 0 where
  submitted planned feasible rejected awaiting_approval ready running completed failed paused :
      WorkflowState

-- A number for each state, to compare them.
abbrev index : WorkflowState → ℕ
index submitted = 0
index planned = 1
index feasible = 2
index rejected = 3
index awaiting_approval = 4
index ready = 5
index running = 6
index completed = 7
index failed = 8
index paused = 9

unfoldable pub state_eq : WorkflowState → WorkflowState → Bool
state_eq s t = index s == index t

-- ALLOWED_TRANSITIONS
unfoldable pub allowed_transitions : WorkflowState → List WorkflowState
allowed_transitions submitted = planned ∷ []
allowed_transitions planned = feasible ∷ rejected ∷ []
allowed_transitions feasible = awaiting_approval ∷ ready ∷ []
allowed_transitions awaiting_approval = ready ∷ rejected ∷ []
allowed_transitions ready = running ∷ []
allowed_transitions running = completed ∷ failed ∷ paused ∷ []
allowed_transitions paused = running ∷ failed ∷ []
allowed_transitions completed = ready ∷ []
allowed_transitions failed = ready ∷ []
allowed_transitions rejected = []

unfoldable pub can_transition : WorkflowState → WorkflowState → Bool
unfolding state_eq allowed_transitions
can_transition from to = any (state_eq to) (allowed_transitions from)

pub state_eq_iff : (s t : WorkflowState) → (state_eq s t ≡ true) ↔ (s ≡ t)
unfolding state_eq
state_eq_iff s t = ground arith
