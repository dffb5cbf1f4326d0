-- ===== src/Workflow/Store/Queries.antt =====
-- The listings of WorkflowStore in fraud_platform/workflow_engine/state.py: SELECT statements as
-- filters, sorts and searches. The table keeps the order of insertion, which is the order that the
-- database gives to rows a statement does not sort.
use Prim.Native.Nat.{max}
use agentic_fraud_decisionin.Common.{
  ℕ, Str, codes, str_eq, Bool, true, false, not, ◌&&◌, ◌||◌, Option, none, some, List, [], ◌∷◌,
  filter, if◌then◌else◌, ltb,
}
use agentic_fraud_decisionin.Common.Sort.{sort_by}
use agentic_fraud_decisionin.Workflow.State
use agentic_fraud_decisionin.Workflow.State.{WorkflowState, state_eq}
use agentic_fraud_decisionin.Workflow.Tables.{Workflow, Run, StepRow, StepStatus, Template, Store}

-- trigger_type = 'schedule' AND state != 'REJECTED'
abbrev pub is_scheduled : Workflow → Bool
is_scheduled w = str_eq w.trigger_type (codes "schedule") && not (state_eq w.state State.rejected)

unfoldable pub scheduled_workflows : Store → Bool → List Workflow
scheduled_workflows s include_paused =
    let found = filter is_scheduled s.workflows in
    if include_paused then found else filter (λ w. not w.schedule_paused) found

-- trigger = ? AND state IN ('READY', 'COMPLETED')
abbrev pub is_triggered : Str → Workflow → Bool
is_triggered trigger w =
    elim w.trigger [ none ↦ false | some t ↦ str_eq t trigger ]
    && (state_eq w.state State.ready || state_eq w.state State.completed)

unfoldable pub workflows_for_trigger : Store → Str → List Workflow
workflows_for_trigger s trigger = filter (is_triggered trigger) s.workflows

unfoldable pub find_template : Str → List Template → Option Template
find_template id [] = none
find_template id (t ∷ ts) = if str_eq t.id id then some t else find_template id ts

abbrev pub get_template : Store → Str → Option Template
get_template s id = find_template id s.templates

unfoldable pub find_run : Str → List Run → Option Run
find_run id [] = none
find_run id (r ∷ rs) = if str_eq r.run_id id then some r else find_run id rs

abbrev pub get_run : Store → Str → Option Run
get_run s id = find_run id s.runs

-- ORDER BY started_at DESC LIMIT 1, of the runs of one workflow: the latest, the first among equals.
unfoldable pub latest : List Run → Option Run
latest [] = none
latest (r ∷ rs) = elim (latest rs) [
  | none ↦ some r
  | some m ↦ if ltb r.started_at m.started_at then some m else some r
]

unfoldable pub latest_run : Store → Str → Option Run
latest_run s id = latest (filter (λ r. str_eq r.workflow_id id) s.runs)

-- WHERE run_id = ? ORDER BY step_number
unfoldable pub steps_for_run : Store → Str → List StepRow
steps_for_run s run_id =
    sort_by (λ r. r.step_number) (filter (λ r. str_eq r.run_id run_id) s.step_results)

abbrev pub is_ok_step : StepRow → Bool
is_ok_step r = elim r.status [
  | StepStatus.ok_ ↦ true
  | StepStatus.error ↦ false
  | StepStatus.skipped ↦ false
]

unfoldable pub max_step : List StepRow → Option ℕ
max_step [] = none
max_step (r ∷ rs) = elim (max_step rs) [
  | none ↦ some r.step_number
  | some m ↦ some (max r.step_number m)
]

-- SELECT MAX(step_number) … AND status = 'ok'
unfoldable pub last_completed_step : Store → Str → Option ℕ
last_completed_step s run_id =
    max_step (filter (λ r. str_eq r.run_id run_id && is_ok_step r) s.step_results)
