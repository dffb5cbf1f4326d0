-- ===== src/Workflow/Promotion.antt =====
-- fraud_platform/workflow_engine/promotion.py: plans that code builds from a validated report.
use agentic_fraud_decisionin.Common.{
  ℕ, Str, codes, str_eq, lower, Bool, true, false, Option, none, some, [], ◌∷◌, ◌++◌, if◌then◌else◌,
}
use agentic_fraud_decisionin.Common.Value.{Value, Fields, empty, entry, str}
use agentic_fraud_decisionin.Common.Result.{Result, ok, err}
use agentic_fraud_decisionin.Workflow.Plan.{PlanStep, PlannedSchedule, WorkflowPlan}

pub data DestinationError : Type 0 where
  no_channel no_recipient unknown_connector : DestinationError

-- An optional text that Python takes for false: absent or empty.
abbrev pub is_missing : Option Str → Bool
is_missing none = true
is_missing (some []) = true
is_missing (some (c ∷ s)) = false

abbrev pub text_of : Option Str → Str
text_of none = []
text_of (some s) = s

-- A delivery target that has the fields its connector needs.
pub data Destination : Type 0 where
  slack : Str → Option Str → Option Str → Destination
  email : Option Str → Str → Option Str → Destination

-- Destination.__init__: connector, channel, to, subject.
unfoldable pub destination :
    Str → Option Str → Option Str → Option Str → Result DestinationError Destination
destination connector channel to subject =
    if str_eq (lower connector) (codes "slack")
    then (if is_missing channel then err no_channel else ok (slack (text_of channel) to subject))
    else if str_eq (lower connector) (codes "email")
    then (if is_missing to then err no_recipient else ok (email channel (text_of to) subject))
    else err unknown_connector

-- str(n) of a step number.
abbrev pub step_reference : Str → Str → Value
step_reference n field = str (codes "$step_" ++ n ++ codes "." ++ field)

abbrev pub email_subject : Option Str → Str → Value
email_subject none format_step = step_reference format_step (codes "email_subject")
email_subject (some []) format_step = step_reference format_step (codes "email_subject")
email_subject (some (c ∷ s)) format_step = str (c ∷ s)

-- Destination.notify_step, whose format step is given by its printed number.
unfoldable pub notify_step : Destination → ℕ → Str → PlanStep
notify_step (slack channel to subject) n format_step = record {
  step_number = n;
  tool_name = codes "slack_send_message";
  args =
      entry (codes "channel") (str channel)
        (entry (codes "text") (step_reference format_step (codes "slack_text")) empty);
  rationale = codes "deliver the formatted report to Slack";
  when = none;
}
notify_step (email channel to subject) n format_step = record {
  step_number = n;
  tool_name = codes "email_send";
  args = entry (codes "to") (str to) (
      entry (codes "subject") (email_subject subject format_step)
        (entry (codes "body") (step_reference format_step (codes "email_body")) empty));
  rationale = codes "deliver the detailed report by email";
  when = none;
}

abbrev pub run_args : Str → Bool → Fields
run_args report windowed = entry (codes "report") (str report) (
    if windowed
    then entry (codes "window_start") (str (codes "$trigger.window_start"))
        (entry (codes "window_end") (str (codes "$trigger.window_end")) empty)
    else empty)

unfoldable pub build_report_plan :
    Str → Str → Destination → Bool → Option PlannedSchedule → Option Str → WorkflowPlan
unfolding notify_step
build_report_plan title report_ref dest windowed schedule goal = record {
  goal = if is_missing goal then title else text_of goal;
  trigger = none;
  schedule = schedule;
  steps =
      record {
        step_number = 1;
        tool_name = codes "run_report_query";
        args = run_args report_ref windowed;
        rationale = codes "run the validated report SQL (not regenerated)";
        when = none;
      }
      ∷ record {
        step_number = 2;
        tool_name = codes "format_report";
        args =
            entry (codes "title") (str title) (entry (codes "data") (str (codes "$step_1")) empty);
        rationale = codes "turn rows into a structured, readable report";
        when = none;
      }
      ∷ notify_step dest 3 (codes "2")
      ∷ [];
  needs_clarification = false;
  clarification_question = none;
}
