-- ===== src/Workflow/Scheduler.antt =====
-- fraud_platform/workflow_engine/scheduler.py. The cron library is a parameter, as the next fire time
-- of a schedule; its jobs are a list of ids. A fire time is its seconds and what strftime and
-- isocalendar print of it.
pub mod Armed
pub mod Fires
use agentic_fraud_decisionin.Common.{
  ℕ, ◌-◌, ◌*◌, Str, codes, str_eq, Bool, true, false, not, Option, none, some, List, [], ◌∷◌, ◌++◌,
  filter, if◌then◌else◌,
}
use agentic_fraud_decisionin.Common.Value
use agentic_fraud_decisionin.Common.Value.{Value, Fields, empty, entry}
use agentic_fraud_decisionin.Common.Result.{Result, ok, err}
use agentic_fraud_decisionin.Workflow.State
use agentic_fraud_decisionin.Workflow.Conditions.{Numerics}
use agentic_fraud_decisionin.Workflow.Plan.{
  WorkflowPlan, Frequency, hourly, daily, weekly, Schedule,
}
use agentic_fraud_decisionin.Workflow.Registry.{Registry}
use agentic_fraud_decisionin.Workflow.Tables.{
  Workflow, Store, StepStatus, Column, absent, malformed, holds,
}
use agentic_fraud_decisionin.Workflow.Store.{
  StoreError, no_workflow, integrity, get_workflow, transition, run_exists_for_key, set_next_run,
  set_last_run, set_last_report, set_paused,
}
use agentic_fraud_decisionin.Workflow.Store.Queries.{scheduled_workflows}
use agentic_fraud_decisionin.Workflow.Executor.{Texts, StepOutcome, RunResult, execute}

pub record FireTime : Type 0 where
  pub seconds : ℕ
  pub hour_stamp : Str
  pub day_stamp : Str
  pub week_stamp : Str
  pub iso : Str

-- _PERIOD, in seconds.
abbrev pub period : Frequency → ℕ
period hourly = 3600
period daily = 86400
period weekly = 604800

unfoldable pub compute_window : Frequency → FireTime → ℕ × ℕ
compute_window f t = (t.seconds - period f, t.seconds)

unfoldable pub run_key : Frequency → FireTime → Str
run_key hourly t = codes "hourly:" ++ t.hour_stamp
run_key weekly t = codes "weekly:" ++ t.week_stamp
run_key daily t = codes "daily:" ++ t.day_stamp

pub data FireError : Type 0 where
  store_error : StoreError → FireError
  cannot_arm : FireError

-- A workflow that may be moved to READY, or is there.
pub data Arming : Type 0 where
  armed movable stuck : Arming

abbrev pub arming : State.WorkflowState → Arming
arming State.WorkflowState.ready = armed
arming State.WorkflowState.feasible = movable
arming State.WorkflowState.completed = movable
arming State.WorkflowState.failed = movable
arming State.WorkflowState.submitted = stuck
arming State.WorkflowState.planned = stuck
arming State.WorkflowState.rejected = stuck
arming State.WorkflowState.awaiting_approval = stuck
arming State.WorkflowState.running = stuck
arming State.WorkflowState.paused = stuck

unfoldable pub arm_for_run : Store → Str → Result FireError Store
arm_for_run s id = elim (get_workflow s id) [
  | none ↦ err cannot_arm
  | some w ↦ elim (arming w.state) [
    | armed ↦ ok s
    | movable ↦ elim (transition s id State.WorkflowState.ready) [
      | err e ↦ err (store_error e)
      | ok s' ↦ ok s'
    ]
    | stuck ↦ err cannot_arm
  ]
]

abbrev pub or_null : Option Value → Value
or_null none = Value.null
or_null (some v) = v

-- A formatted report: a dictionary with metrics.
abbrev pub report_of : Option Value → Option Value
report_of (some (Value.dict d)) = elim (Value.get (codes "metrics") d) [
  | none ↦ none
  | some m ↦ some (
      Value.dict (
        entry (codes "title") (or_null (Value.get (codes "title") d)) (
          entry (codes "metrics") m
            (entry (codes "generated_at") (or_null (Value.get (codes "generated_at") d)) empty))))
]
report_of _ = none

-- _extract_report
unfoldable pub extract_report : List StepOutcome → Option Value
extract_report [] = none
extract_report (o ∷ os) =
    let later = extract_report os in
    elim o.status [
      | StepStatus.ok_ ↦ elim (report_of o.result) [ none ↦ later | some r ↦ some r ]
      | StepStatus.error ↦ later
      | StepStatus.skipped ↦ later
    ]

-- The jobs of the cron library, once start has run; `started = false` is self._sched is None.
pub record Runtime : Type 0 where
  pub store : Store
  pub started : Bool
  pub jobs : List Str

module _ (next_fire : Schedule → Option ℕ) where
  -- _register, with replace_existing.
  unfoldable pub register_job : Runtime → Str → Schedule → Runtime
  register_job r id schedule = record r {
    store = set_next_run r.store id (next_fire schedule);
    jobs = if r.started then id ∷ filter (λ j. not (str_eq j id)) r.jobs else r.jobs;
  }

  unfoldable pub reload_all : Runtime → List Workflow → Runtime
  reload_all r [] = r
  reload_all r (w ∷ ws) = elim w.schedule [
    | absent ↦ reload_all r ws
    | malformed ↦ reload_all r ws
    | holds schedule ↦ reload_all (register_job r w.id schedule) ws
  ]

  unfoldable pub reload : Runtime → Runtime
  unfolding reload_all
  reload r = reload_all r (scheduled_workflows r.store false)

  unfoldable pub pause : Runtime → Str → Runtime
  pause r id = record r {
    store = set_next_run (set_paused r.store id true) id none;
    jobs = if r.started then filter (λ j. not (str_eq j id)) r.jobs else r.jobs;
  }

  -- `false` where reading the workflow or its schedule raises, after the flag is written.
  unfoldable pub resume : Runtime → Str → Runtime × Bool
  unfolding register_job
  resume r id =
      let r' : Runtime = record r { store = set_paused r.store id false } in
      elim (get_workflow r'.store id) [
        | none ↦ (r', false)
        | some w ↦ elim w.schedule [
          | absent ↦ (r', false)
          | malformed ↦ (r', false)
          | holds schedule ↦ (register_job r' id schedule, true)
        ]
      ]

  module _ (num : Numerics) (texts : Texts) (registry : Registry) (print_time : ℕ → Str) where
    -- The trigger payload of a scheduled run.
    abbrev pub payload : Frequency → FireTime → Fields
    payload f t =
        let (start, end_) = compute_window f t in
        entry (codes "window_start") (Value.str (print_time start)) (
          entry (codes "window_end") (Value.str (print_time end_))
            (entry (codes "fired_at") (Value.str t.iso) empty))

    -- next_run_at is advisory: a schedule that does not parse leaves it.
    abbrev pub advance : Store → Str → Column Schedule → Store
    advance s id absent = s
    advance s id malformed = s
    advance s id (holds schedule) = set_next_run s id (next_fire schedule)

    abbrev pub recorded : Store → Str → Workflow → FireTime → RunResult → Store
    recorded s id w t r =
        advance (set_last_report (set_last_run s id t.seconds) id (extract_report r.steps)) id
          w.schedule

    -- The plan of a workflow that may fire now.
    abbrev pub fireable : Workflow → Option WorkflowPlan
    fireable w =
        if w.schedule_paused
        then none
        else if str_eq w.trigger_type (codes "schedule")
        then w.plan
        else none

    unfoldable pub fire :
        Store → Str → Frequency → FireTime → Result FireError (Option RunResult) × Store
    fire s id f t = elim (get_workflow s id) [
      | none ↦ (ok none, s)
      | some w ↦ elim (fireable w) [
        | none ↦ (ok none, s)
        | some plan ↦
            if run_exists_for_key s id (run_key f t)
            then (ok none, s)
            else elim (arm_for_run s id) [
              | err e ↦ (err e, s)
              | ok s1 ↦
                  let (result, s') =
                    execute num texts registry s1 id plan (payload f t) (some (run_key f t)) in
                  elim result [
                    | ok r ↦ (ok (some r), recorded s' id w t r)
                    | err integrity ↦ (ok none, s')
                    | err e ↦ (err (store_error e), s')
                  ]
            ]
      ]
    ]
