-- ===== src/Workflow/Api/Tests.antt =====
-- Concrete runs of the scheduler and of the handlers, and their theorems at concrete inputs.
use agentic_fraud_decisionin.Common.{
  ◌≢◌, ℕ, ◌≡◌, refl, Str, codes, str_eq, true, Option, none, some, [], ◌∷◌, lower, any,
}
use agentic_fraud_decisionin.Common.Float.{eqb_float, leb_float, ltb_float, of_int, ulps}
use agentic_fraud_decisionin.Common.Sort.{sort_by, insert_by}
use agentic_fraud_decisionin.Common.Value
use agentic_fraud_decisionin.Common.Value.{Value, Fields, empty, entry}
use agentic_fraud_decisionin.Common.Result.{Result, ok}
use agentic_fraud_decisionin.Workflow.State
use agentic_fraud_decisionin.Workflow.State.{
  WorkflowState, can_transition, allowed_transitions, state_eq,
}
use agentic_fraud_decisionin.Workflow.Feasibility.Attended.{is_attended}
use agentic_fraud_decisionin.Workflow.Refs.{
  int_raises, parse_ref, number_from, parse_field, parse_step, span, strip_prefix,
}
use agentic_fraud_decisionin.Workflow.Conditions.{
  parse_condition, compare, apply_op, as_number, coerce, equals, ordered, parse_literal, parse_op,
  skip_space, split_field, split_ref, str_lt, strip_last, strip_right, to_float, unquote,
}
use agentic_fraud_decisionin.Workflow.Plan.{WorkflowPlan}
use agentic_fraud_decisionin.Workflow.Registry.{get, execute as dispatch}
use agentic_fraud_decisionin.Workflow.Tables.{Workflow, Store}
use agentic_fraud_decisionin.Workflow.Store.{
  start_run, transition, find_workflow, finish_run, checkpoint_step, update_run, update_workflow,
  write_outbox, integrity, get_workflow,
}
use agentic_fraud_decisionin.Workflow.Executor.{
  args_raise, referenced_steps, perform, resolve_args, guard_passes, resolve_value, resolve_ref,
  result_of, run_steps, run_step, arg_refs, deliver, fail, finish, skip, step_refs, succeed,
  execute,
}
use agentic_fraud_decisionin.Workflow.Tests.{num, texts, registry, plan, ready, store, result}
use agentic_fraud_decisionin.Workflow.Plan.{daily, Schedule}
use agentic_fraud_decisionin.Workflow.Store.{
  set_next_run, set_last_run, set_last_report, set_plan, set_trigger,
}
use agentic_fraud_decisionin.Workflow.Store
use agentic_fraud_decisionin.Workflow.Feasibility.{
  Report, check_raises, check_plan, check_steps, check_step, check_args, check_ref, check_guard,
  check_schedule, annotation_of, placeholder, allowed_tool_categories,
}
use agentic_fraud_decisionin.Workflow.Scheduler.{
  FireTime, run_key, compute_window, extract_report, arm_for_run, fire,
}
use agentic_fraud_decisionin.Workflow.Scheduler.Fires.{Fired, fire-Fired, fire_once}
use agentic_fraud_decisionin.Workflow.Api
use agentic_fraud_decisionin.Workflow.Api.{arm, executable, create_workflow}
use agentic_fraud_decisionin.Workflow.Api.Requests.{Requested, execute-ok}
use agentic_fraud_decisionin.Workflow.Api.Approval.{
  landing_state, create_workflow-landing, approval_gate,
}

-- The same workflow on a schedule, after a run.
abbrev nightly : Store
nightly = record store {
  workflows = record ready { trigger_type = codes "schedule"; state = State.completed } ∷ [];
}

abbrev tick : FireTime
tick = record {
  seconds = 100000;
  hour_stamp = codes "2026-01-02T03";
  day_stamp = codes "2026-01-02";
  week_stamp = codes "2026-W01";
  iso = codes "2026-01-02T03:46:40";
}

abbrev next_fire : Schedule → Option ℕ
next_fire s = none

abbrev print_time : ℕ → Str
print_time n = n ∷ []

fired :
    (fire next_fire num texts registry print_time nightly (codes "w") daily tick).0
    ≡ ok (some result)
unfolding fire run_key compute_window extract_report arm_for_run execute dispatch get Value.get
    parse_condition compare parse_ref lower str_eq sort_by insert_by eqb_float leb_float ltb_float
    of_int ulps can_transition allowed_transitions state_eq referenced_steps perform resolve_args
    guard_passes resolve_value resolve_ref result_of run_steps run_step arg_refs args_raise
    int_raises deliver fail finish skip step_refs succeed start_run transition find_workflow
    finish_run checkpoint_step update_run update_workflow write_outbox apply_op as_number coerce
    equals ordered parse_literal parse_op skip_space split_field split_ref str_lt strip_last
    strip_right to_float unquote number_from parse_field parse_step span strip_prefix
fired = refl

fire-Fired_example :
    (w : Workflow) × Fired nightly
      (fire next_fire num texts registry print_time nightly (codes "w") daily tick).1
      (codes "w")
      (run_key daily tick)
      tick
      result
      w
fire-Fired_example =
    fire-Fired next_fire num texts registry print_time nightly (codes "w") daily tick fired

fire_once_example :
    let s' = (fire next_fire num texts registry print_time nightly (codes "w") daily tick).1 in
    fire next_fire num texts registry print_time s' (codes "w") daily tick ≡ (ok none, s')
fire_once_example =
    fire_once next_fire num texts registry print_time nightly (codes "w") daily tick tick fired refl

-- A request on the store whose only workflow is READY.
requested : (Api.execute num texts registry store (codes "w") empty).0 ≡ ok result
unfolding Api.execute arm execute dispatch get Value.get parse_condition compare parse_ref lower
    str_eq sort_by insert_by eqb_float leb_float ltb_float of_int ulps can_transition
    allowed_transitions state_eq referenced_steps perform resolve_args guard_passes resolve_value
    resolve_ref result_of run_steps run_step arg_refs args_raise int_raises deliver fail finish skip
    step_refs succeed start_run transition find_workflow finish_run checkpoint_step update_run
    update_workflow write_outbox apply_op as_number coerce equals ordered parse_literal parse_op
    skip_space split_field split_ref str_lt strip_last strip_right to_float unquote number_from
    parse_field parse_step span strip_prefix
requested = refl

execute-ok_example :
    (w : Workflow) × (get_workflow store (codes "w") ≡ some w)
    × Requested num texts registry w result
        (Api.execute num texts registry store (codes "w") empty).1
execute-ok_example = execute-ok num texts registry store (codes "w") empty requested

abbrev bare : Store
bare = record store { workflows = [] }

abbrev reported : Report
reported = record { is_ok = true; errors = []; requires_approval = true }

abbrev created : Result Api.HttpError (Str × Report) × Store
created = create_workflow num texts registry 10 (λ z. true) bare none (codes "") (some plan)

was_created : created.0 ≡ ok (0 ∷ [], reported)
unfolding create_workflow check_raises Store.create_workflow set_plan set_trigger check_plan
    check_steps check_step check_args check_ref check_guard check_schedule annotation_of placeholder
    allowed_tool_categories execute dispatch get Value.get parse_condition compare parse_ref lower
    str_eq sort_by insert_by eqb_float leb_float ltb_float of_int ulps can_transition
    allowed_transitions state_eq referenced_steps perform resolve_args guard_passes resolve_value
    resolve_ref result_of run_steps run_step arg_refs args_raise int_raises deliver fail finish skip
    step_refs succeed start_run transition find_workflow finish_run checkpoint_step update_run
    update_workflow write_outbox apply_op as_number coerce equals ordered parse_literal parse_op
    skip_space split_field split_ref str_lt strip_last strip_right to_float unquote number_from
    parse_field parse_step span strip_prefix
was_created = refl

create_workflow-landing_example :
    (w : Workflow) × (p : WorkflowPlan) × (some plan ≡ some p)
    × (get_workflow created.1 (0 ∷ []) ≡ some w)
    × (w.plan ≡ some p)
    × (w.state
        ≡ landing_state
            (check_plan num 10 (λ z. true) p registry).is_ok
            (any (is_attended registry) p.steps))
create_workflow-landing_example =
    create_workflow-landing num texts registry 10 (λ z. true) bare none (codes "") (some plan)
      was_created

approval_gate_example : (Api.execute num texts registry created.1 (0 ∷ []) empty).0 ≢ ok result
approval_gate_example =
    approval_gate num texts registry 10 (λ z. true) bare none (codes "") (some plan) empty result
      was_created refl refl
