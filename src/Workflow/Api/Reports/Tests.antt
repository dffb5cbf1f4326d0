-- ===== src/Workflow/Api/Reports/Tests.antt =====
-- A report that is scheduled, at concrete inputs.
use agentic_fraud_decisionin.Common.{ℕ, Str, codes, true, false, Option, none, some, List, [], ◌∷◌}
use agentic_fraud_decisionin.Common.Value.{Value}
use agentic_fraud_decisionin.Common.Result.{ok}
use agentic_fraud_decisionin.Workflow.Plan.{PlannedSchedule, Schedule}
use agentic_fraud_decisionin.Workflow.Registry.{Registry, ToolSpec, Annotation}
use agentic_fraud_decisionin.Workflow.Store
use agentic_fraud_decisionin.Workflow.Store.{get_workflow}
use agentic_fraud_decisionin.Workflow.Promotion.{destination}
use agentic_fraud_decisionin.Workflow.Feasibility.Tests.{proposed}
use agentic_fraud_decisionin.Workflow.Scheduler.{Runtime}
use agentic_fraud_decisionin.Workflow.Tests.{store}
use agentic_fraud_decisionin.Workflow.Api.Reports.{ReportRequest}

abbrev tool : Str → Str → List (Str × Annotation) → ToolSpec
tool name category fields = record {
  name = name;
  description = codes "";
  args_schema = record { model_fields = fields; validate = λ d. some d };
  category = category;
  body = λ n d. record { sent = []; result = ok Value.null };
  read_only = true;
  requires_approval = false;
}

abbrev registry : Registry
registry =
    tool (codes "run_report_query") (codes "READ_DATA") (
      (codes "report", Annotation.str)
      ∷ (codes "window_start", Annotation.str)
      ∷ (codes "window_end", Annotation.str)
      ∷ [])
    ∷ tool (codes "format_report") (codes "ANALYZE")
        ((codes "title", Annotation.str) ∷ (codes "data", Annotation.list) ∷ [])
    ∷ tool (codes "slack_send_message") (codes "NOTIFY")
        ((codes "channel", Annotation.str) ∷ (codes "text", Annotation.str) ∷ [])
    ∷ []

abbrev runtime : Runtime
runtime = record { store = record store { workflows = [] }; started = true; jobs = [] }

abbrev request : ReportRequest
request = record {
  title = codes "Losses";
  sql = codes "SELECT 1";
  schedule = proposed;
  destination = record {
    connector = codes "Slack";
    channel = some (codes "#ops");
    to = none;
    subject = none;
  };
  user_id = none;
  report = none;
}

-- A guard that adds a window to what it accepts, and a catalog with no report.
abbrev guard : Str → Option Str
guard sql = some (codes ":window_start")

abbrev catalog : Str → Option Str
catalog name = none

abbrev next_fire : Schedule → Option ℕ
next_fire s = some 7

abbrev printed : Schedule → PlannedSchedule
printed s = proposed
