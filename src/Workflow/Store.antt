-- ===== src/Workflow/Store.antt =====
-- The operations of WorkflowStore of fraud_platform/workflow_engine/state.py: a statement is a
-- function on the list of rows.
pub mod Laws
pub mod Queries
use agentic_fraud_decisionin.Common.{
  ℕ, suc, ◌+◌, Str, codes, str_eq, Bool, true, false, not, ◌&&◌, ◌||◌, Option, none, some, List, [],
  ◌∷◌, ◌++◌, any, filter, if◌then◌else◌, ◌==◌,
}
use agentic_fraud_decisionin.Common.Value.{Value, Fields}
use agentic_fraud_decisionin.Common.Result.{Result, ok, err}
use agentic_fraud_decisionin.Workflow.State.{WorkflowState, submitted, can_transition}
use agentic_fraud_decisionin.Workflow.Plan.{WorkflowPlan, Schedule}
use agentic_fraud_decisionin.Workflow.Tables.{
  Workflow, Run, RunStatus, running, StepRow, StepStatus, Store, OutboxRow, Template, absent, holds,
}

-- What leaves a store operation or a run as an exception: KeyError, InvalidTransition,
-- sqlite3.IntegrityError, the error of json.dumps in checkpoint_step, and that of int in a run.
pub data StoreError : Type 0 where
  no_workflow invalid_transition integrity : StoreError
  not_encodable long_number : StoreError

-- _now(), and the store that has read the clock once more.
abbrev pub now : Store → ℕ
now s = s.clock s.reads

abbrev pub new_id : Store → Str
new_id s = s.uuids s.issued

-- WHERE id = ?
unfoldable pub find_workflow : Str → List Workflow → Option Workflow
find_workflow id [] = none
find_workflow id (w ∷ ws) = if str_eq w.id id then some w else find_workflow id ws

unfoldable pub update_workflow : Str → (Workflow → Workflow) → List Workflow → List Workflow
update_workflow id f [] = []
update_workflow id f (w ∷ ws) = (if str_eq w.id id then f w else w) ∷ update_workflow id f ws

abbrev pub get_workflow : Store → Str → Option Workflow
get_workflow s id = find_workflow id s.workflows

unfoldable pub create_workflow : Store → Option Str → Str → Str × Store
create_workflow s user_id instruction =
    let row : Workflow = record {
      id = new_id s;
      user_id = user_id;
      instruction = instruction;
      trigger = none;
      plan = none;
      state = submitted;
      created_at = now s;
      updated_at = now s;
      trigger_type = codes "manual";
      schedule = absent;
      destination = none;
      template_id = none;
      schedule_paused = false;
      last_run_at = none;
      next_run_at = none;
      last_report = none;
    } in
    (
      new_id s,
      record s { workflows = s.workflows ++ row ∷ []; reads = suc s.reads; issued = suc s.issued },
    )

-- UPDATE workflows SET …, updated_at = now WHERE id = ?
abbrev pub set_field : Store → Str → (Workflow → Workflow) → Store
set_field s id f = record s {
  workflows = update_workflow id (λ w. record (f w) { updated_at = now s }) s.workflows;
  reads = suc s.reads;
}

unfoldable pub set_plan : Store → Str → WorkflowPlan → Store
unfolding update_workflow
set_plan s id plan = set_field s id (λ w. record w { plan = some plan })

unfoldable pub set_trigger : Store → Str → Option Str → Store
set_trigger s id trigger = set_field s id (λ w. record w { trigger = trigger })

unfoldable pub set_schedule : Store → Str → Schedule → Option Value → Option Str → Store
set_schedule s id schedule destination template_id =
    let a = set_field s id (λ w. record w { trigger_type = codes "schedule" }) in
    let b = set_field a id (λ w. record w { schedule = holds schedule }) in
    let c : Store = elim destination [
      | none ↦ b
      | some d ↦ set_field b id (λ w. record w { destination = some d })
    ] in
    elim template_id [ none ↦ c | some t ↦ set_field c id (λ w. record w { template_id = some t }) ]

unfoldable pub set_next_run : Store → Str → Option ℕ → Store
set_next_run s id at = set_field s id (λ w. record w { next_run_at = at })

unfoldable pub set_last_run : Store → Str → ℕ → Store
set_last_run s id at = set_field s id (λ w. record w { last_run_at = some at })

unfoldable pub set_last_report : Store → Str → Option Value → Store
set_last_report s id report = set_field s id (λ w. record w { last_report = report })

unfoldable pub set_paused : Store → Str → Bool → Store
set_paused s id paused = set_field s id (λ w. record w { schedule_paused = paused })

unfoldable pub save_template : Store → Str → Option Str → Option Str → Str × Store
save_template s sql title workflow_id =
    let row : Template = record {
      id = new_id s;
      workflow_id = workflow_id;
      title = title;
      sql = sql;
      created_at = now s;
    } in
    (
      new_id s,
      record s { templates = s.templates ++ row ∷ []; reads = suc s.reads; issued = suc s.issued },
    )

-- The validated change of state: the edge is checked before anything is written.
unfoldable pub transition : Store → Str → WorkflowState → Result StoreError Store
transition s id to = elim (get_workflow s id) [
  | none ↦ err no_workflow
  | some w ↦
      if can_transition w.state to
      then ok (set_field s id (λ v. record v { state = to }))
      else err invalid_transition
]

-- WHERE workflow_id = ? AND scheduled_run_key = ?; NULL equals no key.
abbrev pub has_key : Str → Str → Run → Bool
has_key id key r =
    str_eq r.workflow_id id && elim r.scheduled_run_key [ none ↦ false | some k ↦ str_eq k key ]

abbrev pub run_exists_for_key : Store → Str → Str → Bool
run_exists_for_key s id key = any (has_key id key) s.runs

-- The unique index on (workflow_id, scheduled_run_key).
abbrev pub violates_index : Store → Str → Option Str → Bool
violates_index s id none = false
violates_index s id (some key) = run_exists_for_key s id key

abbrev pub opened : Store → Str → Option Str → Store
opened s id key =
    let row : Run = record {
      run_id = new_id s;
      workflow_id = id;
      started_at = now s;
      finished_at = none;
      status = running;
      scheduled_run_key = key;
    } in
    record s { runs = s.runs ++ row ∷ []; reads = suc s.reads; issued = suc s.issued }

unfoldable pub start_run : Store → Str → Option Str → Result StoreError (Str × Store)
start_run s id key =
    if violates_index s id key then err integrity else ok (new_id s, opened s id key)

unfoldable pub update_run : Str → (Run → Run) → List Run → List Run
update_run id f [] = []
update_run id f (r ∷ rs) = (if str_eq r.run_id id then f r else r) ∷ update_run id f rs

abbrev pub same_step : Str → ℕ → StepRow → Bool
same_step run_id n r = str_eq r.run_id run_id && r.step_number == n

-- INSERT OR REPLACE on (run_id, step_number), then the run's status, in one transaction, for values
-- that json.dumps encodes; `Executor.perform` has the other case, in which nothing is written.
unfoldable pub checkpoint_step : Store → Str → ℕ → Str → Fields → Value → StepStatus → Store
checkpoint_step s run_id n tool args result status =
    let row : StepRow = record {
      run_id = run_id;
      step_number = n;
      tool_name = tool;
      args = args;
      result = result;
      status = status;
      ts = now s;
    } in
    record s {
      step_results = filter (λ r. not (same_step run_id n r)) s.step_results ++ row ∷ [];
      runs = update_run run_id (λ r. record r { status = running }) s.runs;
      reads = suc s.reads;
    }

unfoldable pub finish_run : Store → Str → RunStatus → Store
finish_run s run_id status = record s {
  runs = update_run run_id (λ r. record r { status = status; finished_at = some (now s) }) s.runs;
  reads = suc s.reads;
}

unfoldable pub write_outbox : Store → Str → Fields → Store
write_outbox s connector payload =
    let row : OutboxRow = record {
      id = new_id s;
      connector = connector;
      payload = payload;
      ts = now s;
    } in
    record s { outbox = s.outbox ++ row ∷ []; reads = suc s.reads; issued = suc s.issued }
