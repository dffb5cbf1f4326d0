-- ===== src/Workflow/Feasibility/Tests.antt =====
-- The checks of a plan and of a schedule at concrete inputs.
use agentic_fraud_decisionin.Common.{
  ◌≤◌, ◌≡◌, refl, codes, str_eq, lower, true, some, map, All, length,
}
use agentic_fraud_decisionin.Common.Int.{pos}
use agentic_fraud_decisionin.Common.Result.{ok}
use agentic_fraud_decisionin.Workflow.Refs.{
  parse_ref, number_from, parse_field, parse_step, span, strip_prefix,
}
use agentic_fraud_decisionin.Workflow.Conditions.{
  parse_condition, coerce, parse_literal, parse_op, skip_space, split_field, split_ref, strip_last,
  strip_right, unquote,
}
use agentic_fraud_decisionin.Workflow.Plan.{PlannedSchedule, Schedule, daily}
use agentic_fraud_decisionin.Workflow.Registry.{get}
use agentic_fraud_decisionin.Workflow.Schedule.{
  weekdays, build_schedule, check_frequency, check_range, check_hour, weekday_name, check_timezone,
  fields_required_by_frequency,
}
use agentic_fraud_decisionin.Workflow.Schedule.Runnable.{Runnable, build_schedule-Runnable}
use agentic_fraud_decisionin.Workflow.Feasibility.{
  check_plan, check_steps, check_step, check_args, check_ref, check_guard, check_schedule,
  annotation_of, placeholder, allowed_tool_categories,
}
use agentic_fraud_decisionin.Workflow.Feasibility.Sound.{Sound, check_plan-Sound}
use agentic_fraud_decisionin.Workflow.Tests.{num, registry, plan}

feasible : (check_plan num 10 (λ z. true) plan registry).is_ok ≡ true
unfolding check_plan check_steps check_step check_args check_ref check_guard check_schedule
    annotation_of placeholder allowed_tool_categories get str_eq lower parse_ref number_from
    parse_field parse_step span strip_prefix parse_condition coerce parse_literal parse_op
    skip_space split_field split_ref strip_last strip_right unquote
feasible = refl

check_plan-Sound_example :
    (1 ≤ length plan.steps)
    × (length plan.steps ≤ 10)
    × All (Sound num registry (map (λ t. t.step_number) plan.steps)) plan.steps
check_plan-Sound_example = check_plan-Sound num 10 (λ z. true) plan registry feasible

abbrev pub proposed : PlannedSchedule
proposed = record {
  frequency = some (codes "daily");
  hour = some (pos 22);
  minute = pos 30;
  day_of_week = some (codes "Monday");
  timezone = some (codes "UTC");
}

abbrev at_night : Schedule
at_night = record {
  frequency = daily;
  minute = 30;
  hour = some 22;
  day_of_week = some (codes "mon");
  timezone = codes "UTC";
}

built : build_schedule (λ z. true) proposed ≡ ok at_night
unfolding weekdays build_schedule check_frequency check_range check_hour weekday_name check_timezone
    fields_required_by_frequency skip_space strip_right strip_last lower str_eq
built = refl

build_schedule-Runnable_example : Runnable (λ z. true) at_night
build_schedule-Runnable_example = build_schedule-Runnable (λ z. true) proposed at_night built
