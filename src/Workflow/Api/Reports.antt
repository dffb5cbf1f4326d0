-- ===== src/Workflow/Api/Reports.antt =====
-- The report handlers of fraud_platform/workflow_engine/api.py, and pausing and resuming. The SQL
-- guard, the catalog of named reports, and the printing of a schedule as a proposal are parameters.
pub mod Published
pub mod Sources
pub mod Landing
pub mod Tests
use agentic_fraud_decisionin.Common.{
  ℕ, Str, codes, contains, Bool, true, false, Option, none, some, List, [], ◌∷◌, ◌++◌,
  if◌then◌else◌, str_eq,
}
use agentic_fraud_decisionin.Common.Value
use agentic_fraud_decisionin.Common.Value.{Value, Fields, empty, entry}
use agentic_fraud_decisionin.Common.Result.{Result, ok, err, ◌>>=◌}
use agentic_fraud_decisionin.Workflow.State
use agentic_fraud_decisionin.Workflow.Conditions.{Numerics}
use agentic_fraud_decisionin.Workflow.Plan.{PlannedSchedule, Schedule, WorkflowPlan}
use agentic_fraud_decisionin.Workflow.Registry.{Registry}
use agentic_fraud_decisionin.Workflow.Schedule.{build_schedule}
use agentic_fraud_decisionin.Workflow.Tables.{Store, Column, holds}
use agentic_fraud_decisionin.Workflow.Store
use agentic_fraud_decisionin.Workflow.Store.{
  StoreError, get_workflow, transition, set_plan, set_schedule, save_template,
}
use agentic_fraud_decisionin.Workflow.Promotion.{
  Destination, slack, email, destination, build_report_plan,
}
use agentic_fraud_decisionin.Workflow.Feasibility.{Report, PlanError, check_raises, check_plan}
use agentic_fraud_decisionin.Workflow.Executor
use agentic_fraud_decisionin.Workflow.Executor.{Texts, RunResult}
use agentic_fraud_decisionin.Workflow.Scheduler
use agentic_fraud_decisionin.Workflow.Scheduler.{Runtime, register_job}

pub data ReportError : Type 0 where
  no_such_workflow not_scheduled unknown_report no_source rejected_sql : ReportError
  invalid_schedule invalid_destination resume_failed check_failed : ReportError
  infeasible : List PlanError → ReportError
  store_error : StoreError → ReportError

pub record DestinationModel : Type 0 where
  pub connector : Str
  pub channel : Option Str
  pub to : Option Str
  pub subject : Option Str

pub record ReportRequest : Type 0 where
  pub title : Str
  pub sql : Str
  pub schedule : PlannedSchedule
  pub destination : DestinationModel
  pub user_id : Option Str
  pub report : Option Str

pub record DeliverRequest : Type 0 where
  pub title : Str
  pub sql : Str
  pub destination : DestinationModel
  pub user_id : Option Str

-- What a report runs: a named report, or SQL that passed the guard; and whether it has a window.
pub data Origin : Type 0 where
  named validated : Str → Bool → Origin

abbrev pub is_windowed : Origin → Bool
is_windowed (named r w) = w
is_windowed (validated q w) = w

abbrev pub or_null : Option Str → Value
or_null none = Value.null
or_null (some s) = Value.str s

-- Destination.to_json
unfoldable pub to_json : Destination → Value
to_json (slack channel to subject) = Value.dict (
    entry (codes "connector") (Value.str (codes "slack")) (
      entry (codes "channel") (Value.str channel)
        (entry (codes "to") (or_null to) (entry (codes "subject") (or_null subject) empty))))
to_json (email channel to subject) = Value.dict (
    entry (codes "connector") (Value.str (codes "email")) (
      entry (codes "channel") (or_null channel)
        (entry (codes "to") (Value.str to) (entry (codes "subject") (or_null subject) empty))))

-- _destination
abbrev pub destination_of : DestinationModel → Result ReportError Destination
destination_of m = elim (destination m.connector m.channel m.to m.subject) [
  | err e ↦ err invalid_destination
  | ok d ↦ ok d
]

module _ (guard : Str → Option Str) (catalog : Str → Option Str) where
  -- Ad-hoc SQL, vetted by the guard.
  unfoldable pub vetted : Str → Result ReportError Origin
  vetted sql = elim (guard sql) [
    | none ↦ err rejected_sql
    | some safe ↦ ok (validated safe (contains (codes ":window_start") safe))
  ]

  abbrev pub adhoc : Str → Result ReportError Origin
  adhoc [] = err no_source
  adhoc (c ∷ sql) = vetted (c ∷ sql)

  -- _resolve_source
  unfoldable pub resolve_source : ReportRequest → Result ReportError Origin
  unfolding vetted
  resolve_source req = elim req.report [
    | none ↦ adhoc req.sql
    | some r ↦ elim r [
      | [] ↦ adhoc req.sql
      | c ∷ cs ↦ elim (catalog (c ∷ cs)) [
        | none ↦ err unknown_report
        | some sql ↦ ok (named (c ∷ cs) (contains (codes ":window_start") sql))
      ]
    ]
  ]

-- The template that ad-hoc SQL is stored as, and the text that names the report in the plan.
abbrev pub stored : Store → Origin → Str → (Option Str × Str) × Store
stored s (named r w) title = ((none, r), s)
stored s (validated q w) title =
    let (tid, s') = save_template s q (some title) none in ((some tid, tid), s')

module _ (num : Numerics) (texts : Texts) (registry : Registry) (max_plan_steps : ℕ)
    (zone_exists : Str → Bool) (next_fire : Schedule → Option ℕ)
    (printed : Schedule → PlannedSchedule) where
  -- A new READY workflow with a plan that code built; `prepare` writes what else the row needs.
  unfoldable pub publish :
      Store
      → Option Str
      → Str
      → WorkflowPlan
      → (Store → Str → Store)
      → Result ReportError Str × Store
  publish s user_id instruction plan prepare =
      let report = check_plan num max_plan_steps zone_exists plan registry in
      if check_raises num plan registry
      then (err check_failed, s)
      else if report.is_ok
      then (let (id, s1) = Store.create_workflow s user_id instruction in
          elim (transition s1 id State.planned) [
            | err e ↦ (err (store_error e), s1)
            | ok s2 ↦
                let s3 = prepare (set_plan s2 id plan) id in
                elim (transition s3 id State.feasible) [
                  | err e ↦ (err (store_error e), s3)
                  | ok s4 ↦ elim (transition s4 id State.ready) [
                    | err e ↦ (err (store_error e), s4)
                    | ok s5 ↦ (ok id, s5)
                  ]
                ]
          ])
      else (err (infeasible report.errors), s)

  module _ (guard : Str → Option Str) (catalog : Str → Option Str) where
    -- The parts of a request, each of which may be refused before anything is written.
    unfoldable pub accepted : ReportRequest → Result ReportError (Origin × Schedule × Destination)
    accepted req = do
      source ← resolve_source guard catalog req
      schedule ← elim (build_schedule zone_exists req.schedule) [
        | err f ↦ err invalid_schedule
        | ok s ↦ ok s
      ]
      dest ← destination_of req.destination
      ok (source, schedule, dest)

    unfoldable pub schedule_report : Runtime → ReportRequest → Result ReportError Str × Runtime
    unfolding accepted publish
    schedule_report r req = elim (accepted req) [
      | err e ↦ (err e, r)
      | ok parts ↦
          let (source, schedule, dest) = parts in
          let ((tid, ref), s1) = stored r.store source req.title in
          let plan =
            build_report_plan req.title ref dest (is_windowed source) (some (printed schedule))
              none in
          let (result, s2) =
            publish s1 req.user_id (codes "[scheduled] " ++ req.title) plan
              (λ s id. set_schedule s id schedule (some (to_json dest)) tid) in
          elim result [
            | err e ↦ (err e, record r { store = s2 })
            | ok id ↦ (ok id, register_job next_fire (record r { store = s2 }) id schedule)
          ]
    ]

    unfoldable pub deliver_report : Store → DeliverRequest → Result ReportError RunResult × Store
    unfolding publish
    deliver_report s req = elim (guard req.sql) [
      | none ↦ (err rejected_sql, s)
      | some safe ↦ elim (destination_of req.destination) [
        | err e ↦ (err e, s)
        | ok dest ↦
            let (tid, s1) = save_template s safe (some req.title) none in
            let plan = build_report_plan req.title tid dest false none none in
            let (result, s2) =
              publish s1 req.user_id (codes "[deliver] " ++ req.title) plan (λ s id. s) in
            elim result [
              | err e ↦ (err e, s2)
              | ok id ↦
                  let (ran, s3) = Executor.execute num texts registry s2 id plan empty none in
                  elim ran [ err e ↦ (err (store_error e), s3) | ok r ↦ (ok r, s3) ]
            ]
      ]
    ]

  unfoldable pub pause : Runtime → Str → Result ReportError (Unit {0}) × Runtime
  pause r id = elim (get_workflow r.store id) [
    | none ↦ (err no_such_workflow, r)
    | some w ↦ (ok tt, Scheduler.pause next_fire r id)
  ]

  unfoldable pub resume : Runtime → Str → Result ReportError (Unit {0}) × Runtime
  resume r id = elim (get_workflow r.store id) [
    | none ↦ (err no_such_workflow, r)
    | some w ↦
        if str_eq w.trigger_type (codes "schedule")
        then (let (r', resumed) = Scheduler.resume next_fire r id in
            if resumed then (ok tt, r') else (err resume_failed, r'))
        else (err not_scheduled, r)
  ]
