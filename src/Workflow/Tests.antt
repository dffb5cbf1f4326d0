-- ===== src/Workflow/Tests.antt =====
-- Concrete runs of fraud_platform/workflow_engine, and its theorems at concrete inputs.
use agentic_fraud_decisionin.Common.{
  ℕ, ◌≡◌, refl, Str, codes, str_eq, true, false, Option, none, some, ◌⊎◌, [], ◌∷◌, map, All,
  if◌then◌else◌, lower,
}
use agentic_fraud_decisionin.Common.Int.{pos}
use agentic_fraud_decisionin.Common.Float.{eqb_float, leb_float, ltb_float, of_int, ulps}
use agentic_fraud_decisionin.Common.Sort.{sort_by, insert_by}
use agentic_fraud_decisionin.Common.Value
use agentic_fraud_decisionin.Common.Value.{Value, Fields, empty, entry}
use agentic_fraud_decisionin.Common.Result.{Result, ok, err}
use agentic_fraud_decisionin.Workflow.State
use agentic_fraud_decisionin.Workflow.State.{
  WorkflowState, can_transition, allowed_transitions, state_eq,
}
use agentic_fraud_decisionin.Workflow.Refs.{
  int_raises, parse_ref, number_from, parse_field, parse_step, span, strip_prefix,
}
use agentic_fraud_decisionin.Workflow.Conditions.{
  RunError, Numerics, parse_condition, compare, apply_op, as_number, coerce, equals, ordered,
  parse_literal, parse_op, skip_space, split_field, split_ref, str_lt, strip_last, strip_right,
  to_float, unquote,
}
use agentic_fraud_decisionin.Workflow.Plan.{PlanStep, WorkflowPlan}
use agentic_fraud_decisionin.Workflow.Registry.{
  Registry, Annotation, ToolSpec, get, execute as dispatch,
}
use agentic_fraud_decisionin.Workflow.Tables.{Workflow, Store, absent, StepStatus, RunStatus}
use agentic_fraud_decisionin.Workflow.Store.{
  start_run, transition, find_workflow, finish_run, checkpoint_step, update_run, update_workflow,
  StoreError, not_encodable, write_outbox, integrity, get_workflow,
}
use agentic_fraud_decisionin.Workflow.Executor.{
  Texts, RunResult, outcome, depends_on, guard_false, args_raise, referenced_steps, perform,
  resolve_args, guard_passes, resolve_value, resolve_ref, result_of, run_steps, run_step, arg_refs,
  deliver, fail, finish, skip, step_refs, succeed, sort_steps, execute,
}
use agentic_fraud_decisionin.Workflow.Executor.Outcomes.{Account, execute-Account}
use agentic_fraud_decisionin.Workflow.Executor.Keys.{Attempt, attempts, once_for_each_key}
use agentic_fraud_decisionin.Workflow.Executor.States.{execute_state, execute_returns}

abbrev pub num : Numerics
num = record {
  int_of_text = λ s. if str_eq s (codes "5") then some (pos 5) else none;
  float_of_text = λ s. none;
  float_of_int = λ z. some (of_int z);
}

abbrev pub texts : Texts
texts = record {
  skip_text = λ r. codes "skipped";
  error_text = λ s e. codes "failed";
  encodes = λ v. true;
}

abbrev pub three : Value
three = Value.dict (entry (codes "n") (Value.int (pos 3)) empty)

-- A tool that counts, and one that sends what it is given.
abbrev pub count : ToolSpec
count = record {
  name = codes "count";
  description = codes "";
  args_schema = record { model_fields = []; validate = λ d. some d };
  category = codes "READ_DATA";
  body = λ n d. record { sent = []; result = ok three };
  read_only = true;
  requires_approval = false;
}

abbrev pub notify : ToolSpec
notify = record {
  name = codes "notify";
  description = codes "";
  args_schema = record { model_fields = (codes "m", Annotation.str) ∷ []; validate = λ d. some d };
  category = codes "NOTIFY";
  body = λ n d. record { sent = (codes "slack", d) ∷ []; result = ok (Value.bool true) };
  read_only = false;
  requires_approval = true;
}

abbrev pub registry : Registry
registry = count ∷ notify ∷ []

abbrev pub plan_step : ℕ → Str → Fields → Option Str → PlanStep
plan_step n tool args guard = record {
  step_number = n;
  tool_name = tool;
  args = args;
  rationale = codes "";
  when = guard;
}

-- Count; send if there are more than five; then send what the second step gave.
abbrev pub one : PlanStep
one = plan_step 1 (codes "count") empty none

abbrev pub two : PlanStep
two = plan_step 2 (codes "notify") empty (some (codes "$step_1.n > 5"))

abbrev pub last : PlanStep
last = plan_step 3 (codes "notify") (entry (codes "m") (Value.str (codes "$step_2")) empty) none

abbrev pub plan : WorkflowPlan
plan = record {
  goal = codes "";
  trigger = none;
  schedule = none;
  steps = last ∷ one ∷ two ∷ [];
  needs_clarification = false;
  clarification_question = none;
}

abbrev pub ready : Workflow
ready = record {
  id = codes "w";
  user_id = none;
  instruction = codes "";
  trigger = none;
  plan = some plan;
  state = State.ready;
  created_at = 0;
  updated_at = 0;
  trigger_type = codes "manual";
  schedule = absent;
  destination = none;
  template_id = none;
  schedule_paused = false;
  last_run_at = none;
  next_run_at = none;
  last_report = none;
}

abbrev pub store : Store
store = record {
  workflows = ready ∷ [];
  runs = [];
  step_results = [];
  outbox = [];
  templates = [];
  clock = λ n. n;
  uuids = λ n. n ∷ [];
  reads = 0;
  issued = 0;
  calls = 0;
}

abbrev pub key : Option Str
key = some (codes "w:10")

abbrev pub result : RunResult
result = record {
  run_id = 0 ∷ [];
  status = RunStatus.completed;
  steps =
      outcome one StepStatus.ok_ (some three) none none
      ∷ outcome two StepStatus.skipped none none (some (guard_false (codes "$step_1.n > 5")))
      ∷ outcome last StepStatus.skipped none none (some (depends_on (2 ∷ [])))
      ∷ [];
  error = none;
}

-- The guarded step is skipped, and so is the one that depends on it.
ran : (execute num texts registry store (codes "w") plan empty key).0 ≡ ok result
unfolding execute dispatch get Value.get parse_condition compare parse_ref lower str_eq sort_by
    insert_by eqb_float leb_float ltb_float of_int ulps can_transition allowed_transitions state_eq
    referenced_steps perform resolve_args guard_passes resolve_value resolve_ref result_of run_steps
    run_step arg_refs args_raise int_raises deliver fail finish skip step_refs succeed start_run
    transition find_workflow finish_run checkpoint_step update_run update_workflow write_outbox
    apply_op as_number coerce equals ordered parse_literal parse_op skip_space split_field split_ref
    str_lt strip_last strip_right to_float unquote number_from parse_field parse_step span
    strip_prefix
ran = refl

execute-Account_example :
    Account num [] (sort_steps plan.steps) result.steps result.error
    × (((result.status ≡ RunStatus.completed)
          × (result.error ≡ none)
          × (map (λ o. o.step_number) result.steps
              ≡ map (λ s. s.step_number) (sort_steps plan.steps)))
        ⊎ ((e : RunError) × (result.status ≡ RunStatus.failed) × (result.error ≡ some e)))
execute-Account_example = execute-Account num texts registry store (codes "w") plan empty key ran

execute_state_example :
    (before after : Workflow) × (get_workflow store (codes "w") ≡ some before)
    × (can_transition before.state State.running ≡ true)
    × (get_workflow (execute num texts registry store (codes "w") plan empty key).1 (codes "w")
        ≡ some after)
    × (((result.error ≡ none) × (after.state ≡ State.completed))
        ⊎ ((x : RunError) × (result.error ≡ some x) × (after.state ≡ State.failed)))
execute_state_example = execute_state num texts registry store (codes "w") plan empty key ran

found : get_workflow store (codes "w") ≡ some ready
unfolding find_workflow str_eq
found = refl

short : All (λ s. args_raise s.args ≡ false) (sort_steps plan.steps)
unfolding args_raise int_raises parse_ref parse_step parse_field number_from span strip_prefix
    sort_by insert_by
short = (refl, (refl, (refl, tt)))

-- A result that json.dumps does not encode leaves the workflow in RUNNING.
abbrev strict : Texts
strict = record texts { encodes = λ v. false }

abbrev abandoned : Result StoreError RunResult × Store
abandoned = execute num strict registry store (codes "w") plan empty key

not_encoded :
    (abandoned.0 ≡ err not_encodable)
    × (map (λ w. w.state) abandoned.1.workflows ≡ State.running ∷ [])
unfolding execute dispatch get Value.get parse_ref lower str_eq sort_by insert_by can_transition
    allowed_transitions state_eq referenced_steps perform resolve_args run_steps run_step arg_refs
    args_raise int_raises deliver start_run transition find_workflow update_workflow number_from
    parse_field parse_step span strip_prefix step_refs
not_encoded = (refl, refl)

execute_returns_example :
    (r : RunResult) × ((execute num texts registry store (codes "w") plan empty key).0 ≡ ok r)
unfolding can_transition
execute_returns_example =
    execute_returns num texts registry store (codes "w") plan empty key ready
      (λ call name args v h. refl) short found refl refl

-- A run of the plan by hand, in between.
abbrev pub manual : Attempt
manual = record { workflow_id = codes "w"; plan = plan; payload = empty; key = none }

once_for_each_key_example :
    let s' =
      attempts num texts registry
        (execute num texts registry store (codes "w") plan empty (some (codes "w:10"))).1
        (manual ∷ []) in
    execute num texts registry s' (codes "w") plan empty (some (codes "w:10")) ≡ (err integrity, s')
once_for_each_key_example =
    once_for_each_key num texts registry store (codes "w") (codes "w:10") plan empty (manual ∷ [])
      plan empty
