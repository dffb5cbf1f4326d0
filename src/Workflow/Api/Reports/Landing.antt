-- ===== src/Workflow/Api/Reports/Landing.antt =====
-- What the workflow of a scheduled report is, once its request is accepted.
use agentic_fraud_decisionin.Common.{
  List, ◌∷◌, ℕ, ◌≡◌, Str, str_eq, Bool, true, false, Option, some, ◌⊎◌, any, codes,
}
use agentic_fraud_decisionin.Common.Value.{Value, get}
use agentic_fraud_decisionin.Common.Result.{ok}
use agentic_fraud_decisionin.Workflow.State
use agentic_fraud_decisionin.Workflow.State.{WorkflowState}
use agentic_fraud_decisionin.Workflow.Conditions.{Numerics}
use agentic_fraud_decisionin.Workflow.Plan.{PlanStep, PlannedSchedule, Schedule, WorkflowPlan}
use agentic_fraud_decisionin.Workflow.Registry.{Registry}
use agentic_fraud_decisionin.Workflow.Schedule.{build_schedule}
use agentic_fraud_decisionin.Workflow.Schedule.Runnable.{Runnable}
use agentic_fraud_decisionin.Workflow.Tables.{Workflow}
use agentic_fraud_decisionin.Workflow.Store.{get_workflow}
use agentic_fraud_decisionin.Workflow.Promotion.{Destination}
use agentic_fraud_decisionin.Workflow.Feasibility.{check_plan}
use agentic_fraud_decisionin.Workflow.Executor.{Texts}
use agentic_fraud_decisionin.Workflow.Scheduler.{Runtime}
use agentic_fraud_decisionin.Workflow.Api.Reports.Published.{IsPrepared}
use agentic_fraud_decisionin.Workflow.Api.Reports.Sources.{IsVetted}
use agentic_fraud_decisionin.Workflow.Api.Reports.{ReportRequest, destination_of, to_json}

-- The plan starts with the query of the report that `ref` names.
abbrev pub Queries : WorkflowPlan → Str → Type 0
Queries plan ref =
    (s : PlanStep) × (rest : List PlanStep) × (plan.steps ≡ s ∷ rest)
    × (s.tool_name ≡ codes "run_report_query")
    × (get (codes "report") s.args ≡ some (Value.str ref))

module _ (num : Numerics) (texts : Texts) (registry : Registry) (max_plan_steps : ℕ)
    (zone_exists : Str → Bool) (next_fire : Schedule → Option ℕ)
    (printed : Schedule → PlannedSchedule) where
  module _ (guard : Str → Option Str) (catalog : Str → Option Str) where
    -- A workflow that the scheduler runs for this request.
    pub record IsScheduled (req : ReportRequest) (id : Str) (after : Runtime) : Type 0 where
      pub schedule : Schedule
      pub as_asked : build_schedule zone_exists req.schedule ≡ ok schedule
      pub runnable : Runnable zone_exists schedule
      pub dest : Destination
      pub to_whom : destination_of req.destination ≡ ok dest
      pub plan : WorkflowPlan
      pub source : Str
      pub queries : Queries plan source
      pub vetted : IsVetted guard catalog req.sql source after.store.templates
      pub feasible : (check_plan num max_plan_steps zone_exists plan registry).is_ok ≡ true
      pub row : Workflow
      pub found : get_workflow after.store id ≡ some row
      pub ready : row.state ≡ State.ready
      pub prepared : IsPrepared plan schedule (to_json dest) row
      pub next_run : row.next_run_at ≡ next_fire schedule
      pub listed : (after.started ≡ false) ⊎ (any (λ j. str_eq j id) after.jobs ≡ true)
