-- ===== src/Workflow/Plan.antt =====
-- Plans: the data of fraud_platform/workflow_engine/planner.py and schedule.py. Step numbers are
-- natural numbers, as the 1-based positions that the field describes.
use agentic_fraud_decisionin.Common.{ℕ, Str, Bool, Option, List}
use agentic_fraud_decisionin.Common.Int.{ℤ}
use agentic_fraud_decisionin.Common.Value.{Fields}

pub record PlanStep : Type 0 where
  pub step_number : ℕ
  pub tool_name : Str
  pub args : Fields
  pub rationale : Str
  pub when : Option Str

-- The schedule as the model proposes it, before any validation.
pub record PlannedSchedule : Type 0 where
  pub frequency : Option Str
  pub hour : Option ℤ
  pub minute : ℤ
  pub day_of_week : Option Str
  pub timezone : Option Str

pub record WorkflowPlan : Type 0 where
  pub goal : Str
  pub trigger : Option Str
  pub schedule : Option PlannedSchedule
  pub steps : List PlanStep
  pub needs_clarification : Bool
  pub clarification_question : Option Str

pub data Frequency : Type 0 where
  hourly daily weekly : Frequency

-- A schedule that passed its validators.
pub record Schedule : Type 0 where
  pub frequency : Frequency
  pub minute : ℕ
  pub hour : Option ℕ
  pub day_of_week : Option Str
  pub timezone : Str
