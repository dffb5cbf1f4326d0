-- ===== src/Workflow/Api.antt =====
-- The handlers of fraud_platform/workflow_engine/api.py that change workflows. What the planner, a
-- language model, answers is an argument; `none` means that it raised. A raised exception leaves the
-- store as the statements before it have made it.
pub mod Approval
pub mod Reports
pub mod Requests
pub mod Tests
use agentic_fraud_decisionin.Common.{
  ℕ, Str, Bool, true, false, Option, none, some, List, [], ◌∷◌, if◌then◌else◌,
}
use agentic_fraud_decisionin.Common.Value.{Fields}
use agentic_fraud_decisionin.Common.Result.{Result, ok, err}
use agentic_fraud_decisionin.Workflow.State
use agentic_fraud_decisionin.Workflow.State.{WorkflowState, state_eq}
use agentic_fraud_decisionin.Workflow.Conditions.{Numerics}
use agentic_fraud_decisionin.Workflow.Plan.{WorkflowPlan}
use agentic_fraud_decisionin.Workflow.Registry.{Registry}
use agentic_fraud_decisionin.Workflow.Tables.{Workflow, Store}
use agentic_fraud_decisionin.Workflow.Store
use agentic_fraud_decisionin.Workflow.Store.{
  StoreError, get_workflow, transition, set_plan, set_trigger,
}
use agentic_fraud_decisionin.Workflow.Store.Queries.{workflows_for_trigger}
use agentic_fraud_decisionin.Workflow.Feasibility.{Report, check_raises, check_plan}
use agentic_fraud_decisionin.Workflow.Executor
use agentic_fraud_decisionin.Workflow.Executor.{Texts, RunResult}
use agentic_fraud_decisionin.Workflow.Scheduler.{arming, armed, movable, stuck}

pub data HttpError : Type 0 where
  no_such_workflow not_awaiting no_executable_plan approval_required cannot_run : HttpError
  planner_failed check_failed : HttpError
  store_error : StoreError → HttpError

abbrev pub Response : Type 0 → Type 0
Response A = Result HttpError A × Store

-- store.transition, and what follows it.
abbrev pub after_transition :
    {A : Type 0} → Store → Str → WorkflowState → (Store → Response A) → Response A
after_transition s id to next = elim (transition s id to) [
  | err e ↦ (err (store_error e), s)
  | ok s' ↦ next s'
]

-- _arm
unfoldable pub arm : {A : Type 0} → Store → Str → (Store → Response A) → Response A
arm s id next = elim (get_workflow s id) [
  | none ↦ (err no_such_workflow, s)
  | some w ↦ elim (arming w.state) [
    | armed ↦ next s
    | movable ↦ after_transition s id State.ready next
    | stuck ↦
        if state_eq w.state State.awaiting_approval
        then (err approval_required, s)
        else (err cannot_run, s)
  ]
]

-- A plan that has steps.
abbrev pub executable : Option WorkflowPlan → Option WorkflowPlan
executable none = none
executable (some p) = elim p.steps [ [] ↦ none | x ∷ xs ↦ some p ]

unfoldable pub approve : Store → Str → Response (Unit {0})
approve s id = elim (get_workflow s id) [
  | none ↦ (err no_such_workflow, s)
  | some w ↦
      if state_eq w.state State.awaiting_approval
      then after_transition s id State.ready (λ s'. (ok tt, s'))
      else (err not_awaiting, s)
]

-- `if report.ok`, with both flags of the report.
abbrev pub place : Store → Str → Report → Bool → Bool → Response (Str × Report)
place s id report false needs_approval =
    after_transition s id State.rejected (λ s1. (ok (id, report), s1))
place s id report true needs_approval = after_transition s id State.feasible (λ s1.
    after_transition s1 id (if needs_approval then State.awaiting_approval else State.ready)
      (λ s2. (ok (id, report), s2)))

module _ (num : Numerics) (texts : Texts) (registry : Registry) where
  -- Executor.execute as a handler sees it.
  abbrev pub run_plan : Str → WorkflowPlan → Fields → Store → Response RunResult
  run_plan id plan payload s =
      let (result, s') = Executor.execute num texts registry s id plan payload none in
      elim result [ err e ↦ (err (store_error e), s') | ok r ↦ (ok r, s') ]

  unfoldable pub execute : Store → Str → Fields → Response RunResult
  unfolding arm
  execute s id payload = elim (get_workflow s id) [
    | none ↦ (err no_such_workflow, s)
    | some w ↦ elim (executable w.plan) [
      | none ↦ (err no_executable_plan, s)
      | some plan ↦ arm s id (run_plan id plan payload)
    ]
  ]

  -- The runs of the matched workflows, one after the other; an exception ends the loop.
  unfoldable pub run_matched : Store → List Workflow → Fields → Response (List (Str × RunResult))
  unfolding arm
  run_matched s [] payload = (ok [], s)
  run_matched s (w ∷ ws) payload = elim (executable w.plan) [
    | none ↦ run_matched s ws payload
    | some plan ↦
        let (result, s') = arm s w.id (run_plan w.id plan payload) in
        elim result [
          | err e ↦ (err e, s')
          | ok r ↦
              let (others, s'') = run_matched s' ws payload in
              elim others [ err e ↦ (err e, s'') | ok rs ↦ (ok ((w.id, r) ∷ rs), s'') ]
        ]
  ]

  unfoldable pub fire_event : Store → Str → Fields → Response (List (Str × RunResult))
  unfolding run_matched
  fire_event s event payload = run_matched s (workflows_for_trigger s event) payload

  module _ (max_plan_steps : ℕ) (zone_exists : Str → Bool) where
    abbrev pub review : WorkflowPlan → Report
    review plan = check_plan num max_plan_steps zone_exists plan registry

    -- What follows the planner's answer.
    abbrev pub answered : Option WorkflowPlan → Store → Str → Response (Str × Report)
    answered none s id = (err planner_failed, s)
    answered (some plan) s id =
        let report = review plan in
        let s1 = set_trigger (set_plan s id plan) id plan.trigger in
        if check_raises num plan registry
        then (err check_failed, s1)
        else place s1 id report report.is_ok report.requires_approval

    unfoldable pub create_workflow :
        Store → Option Str → Str → Option WorkflowPlan → Response (Str × Report)
    create_workflow s user_id instruction answer =
        let (id, s1) = Store.create_workflow s user_id instruction in
        after_transition s1 id State.planned (λ s2. answered answer s2 id)
