-- ===== src/Workflow/Tables.antt =====
-- The tables of WorkflowStore (_SCHEMA in fraud_platform/workflow_engine/state.py). The JSON columns
-- hold the values that their text encodes. What the environment supplies (clock readings, generated
-- ids, which are taken to be new) is a stream that the store reads on; `calls` counts dispatches of
-- tools, so that a tool may answer twice differently.
use agentic_fraud_decisionin.Common.{ℕ, Str, Bool, Option, List}
use agentic_fraud_decisionin.Common.Value.{Value, Fields}
use agentic_fraud_decisionin.Workflow.State.{WorkflowState}
use agentic_fraud_decisionin.Workflow.Plan.{WorkflowPlan, Schedule}

-- A nullable JSON column whose text may not validate when it is read back.
pub data Column (A : Type 0) : Type 0 where
  absent malformed : Column A
  holds : A → Column A

pub record Workflow : Type 0 where
  pub id : Str
  pub user_id : Option Str
  pub instruction : Str
  pub trigger : Option Str
  pub plan : Option WorkflowPlan
  pub state : WorkflowState
  pub created_at : ℕ
  pub updated_at : ℕ
  pub trigger_type : Str
  pub schedule : Column Schedule
  pub destination : Option Value
  pub template_id : Option Str
  pub schedule_paused : Bool
  pub last_run_at : Option ℕ
  pub next_run_at : Option ℕ
  pub last_report : Option Value

pub data RunStatus : Type 0 where
  running completed failed : RunStatus

pub record Run : Type 0 where
  pub run_id : Str
  pub workflow_id : Str
  pub started_at : ℕ
  pub finished_at : Option ℕ
  pub status : RunStatus
  pub scheduled_run_key : Option Str

pub data StepStatus : Type 0 where
  ok_ error skipped : StepStatus

pub record StepRow : Type 0 where
  pub run_id : Str
  pub step_number : ℕ
  pub tool_name : Str
  pub args : Fields
  pub result : Value
  pub status : StepStatus
  pub ts : ℕ

pub record OutboxRow : Type 0 where
  pub id : Str
  pub connector : Str
  pub payload : Fields
  pub ts : ℕ

pub record Template : Type 0 where
  pub id : Str
  pub workflow_id : Option Str
  pub title : Option Str
  pub sql : Str
  pub created_at : ℕ

pub record Store : Type 0 where
  pub workflows : List Workflow
  pub runs : List Run
  pub step_results : List StepRow
  pub outbox : List OutboxRow
  pub templates : List Template
  pub clock : ℕ → ℕ
  pub uuids : ℕ → Str
  pub reads : ℕ
  pub issued : ℕ
  pub calls : ℕ
