-- ===== src/Workflow/Api/Requests.antt =====
-- What a request to execute a workflow runs, and how it leaves the workflow.
use agentic_fraud_decisionin.Common.{
  ◌≡◌, ◌≢◌, refl, sym, ap, Str, str_eq, str_eq_iff, Option, none, some, List, [], ◌∷◌, ◌⊎◌, inl,
  inr, Bool-cases, Option-cases, ◌∙◌, arith,
}
use agentic_fraud_decisionin.Common.Value.{Fields}
use agentic_fraud_decisionin.Common.Result.{ok, Result-cases}
use agentic_fraud_decisionin.Workflow.State
use agentic_fraud_decisionin.Workflow.State.{WorkflowState}
use agentic_fraud_decisionin.Workflow.Conditions.{Numerics, RunError}
use agentic_fraud_decisionin.Workflow.Plan.{PlanStep, WorkflowPlan}
use agentic_fraud_decisionin.Workflow.Registry.{Registry}
use agentic_fraud_decisionin.Workflow.Tables.{Workflow, Store}
use agentic_fraud_decisionin.Workflow.Store.{find_workflow, get_workflow, transition}
use agentic_fraud_decisionin.Workflow.Executor
use agentic_fraud_decisionin.Workflow.Executor.{Texts, RunResult, sort_steps}
use agentic_fraud_decisionin.Workflow.Executor.Outcomes.{Account, execute-Account}
use agentic_fraud_decisionin.Workflow.Executor.States.{execute_state}
use agentic_fraud_decisionin.Workflow.Scheduler.{Arming, arming, armed, movable, stuck}
use agentic_fraud_decisionin.Workflow.Scheduler.Armed.{IsStartable, arming-IsStartable}
use agentic_fraud_decisionin.Workflow.Api.{
  Response, after_transition, arm, executable, run_plan, execute,
}

pub arm-ok :
    {A : Type 0} (s : Store) (id : Str) (next : Store → Response A) {a : A} (w : Workflow)
    → get_workflow s id ≡ some w
    → (arm s id next).0 ≡ ok a
    → arming w.state ≢ stuck
unfolding arm
arm-ok s id next w e h n = ground (arith, n)

Arming-cases : (a : Arming) → (a ≡ armed) ⊎ ((a ≡ movable) ⊎ (a ≡ stuck))
Arming-cases armed = inl refl
Arming-cases movable = inr (inl refl)
Arming-cases stuck = inr (inr refl)

-- What follows an armed workflow runs on a store that still has its plan.
arm_runs :
    {A : Type 0} (s : Store) (id : Str) (next : Store → Response A) {a : A} (w : Workflow)
    → get_workflow s id ≡ some w
    → (arm s id next).0 ≡ ok a
    → (s' : Store) × ((next s').0 ≡ ok a) × (arm s id next ≡ next s')
unfolding arm
arm_runs s id next w e h = elim (Arming-cases (arming w.state)) [
  | inl x ↦ (s, ground arith, rw (e, arm, x) refl)
  | inr (inl x) ↦ elim (Result-cases (transition s id State.ready)) [
    | inl (s', t) ↦ (s', ground arith, rw (e, arm, x, t, after_transition) refl)
    | inr (y, t) ↦ absurd (ground arith)
  ]
  | inr (inr x) ↦ absurd (ground arith)
]

-- A plan with steps.
executable-some :
    (o : Option WorkflowPlan) (p : WorkflowPlan)
    → executable o ≡ some p
    → (o ≡ some p) × (p.steps ≢ [])
executable-some none p h = absurd (ground arith)
executable-some (some q) p h = by_steps q.steps refl
  where
    by_steps : (ss : List PlanStep) → q.steps ≡ ss → (some q ≡ some p) × (p.steps ≢ [])
    by_steps [] e = absurd (ground arith)
    by_steps (x ∷ xs) e = let same : q ≡ p = ground arith in (ap some same, λ n. ground (arith, n))

module _ (num : Numerics) (texts : Texts) (registry : Registry) where
  -- What a run through the API was, for the workflow `w` as it was before.
  pub record Requested (w : Workflow) (r : RunResult) (after : Store) : Type 0 where
    pub startable : IsStartable w.state
    pub plan : WorkflowPlan
    pub planned : w.plan ≡ some plan
    pub some_step : plan.steps ≢ []
    pub account : Account num [] (sort_steps plan.steps) r.steps r.error
    pub row : Workflow
    pub found : get_workflow after w.id ≡ some row
    pub ended :
        ((r.error ≡ none) × (row.state ≡ State.completed))
        ⊎ ((e : RunError) × (r.error ≡ some e) × (row.state ≡ State.failed))

  run_plan-ok :
      (id : Str) (plan : WorkflowPlan) (payload : Fields) (s : Store) {r : RunResult}
      → (run_plan num texts registry id plan payload s).0 ≡ ok r
      → ((Executor.execute num texts registry s id plan payload none).0 ≡ ok r)
        × ((run_plan num texts registry id plan payload s).1
            ≡ (Executor.execute num texts registry s id plan payload none).1)
  run_plan-ok id plan payload s h =
      elim (Result-cases (Executor.execute num texts registry s id plan payload none).0) [
        | inl (x, e) ↦ (ground arith, rw (run_plan, e) refl)
        | inr (x, e) ↦ absurd (ground arith)
      ]

  find_workflow-id :
      (id : Str) (ws : List Workflow) (w : Workflow) → find_workflow id ws ≡ some w → w.id ≡ id
  unfolding find_workflow
  find_workflow-id id [] w h = absurd (ground arith)
  find_workflow-id id (v ∷ vs) w h = elim (Bool-cases (str_eq v.id id)) [
    | inl e ↦
        let same : v ≡ w = ground arith in ap (λ x. x.id) (sym same) ∙ (str_eq_iff v.id id).0 e
    | inr n ↦ find_workflow-id id vs w (ground arith)
  ]

  pub execute_starts :
      (s : Store) (id : Str) (payload : Fields) {r : RunResult}
      → (execute num texts registry s id payload).0 ≡ ok r
      → (w : Workflow) × (p : WorkflowPlan) × (get_workflow s id ≡ some w)
        × (executable w.plan ≡ some p)
        × ((arm s id (run_plan num texts registry id p payload)).0 ≡ ok r)
        × (execute num texts registry s id payload
            ≡ arm s id (run_plan num texts registry id p payload))
  unfolding execute
  execute_starts s id payload {r = x} h = elim (Option-cases (get_workflow s id)) [
    | inl e ↦ absurd (ground arith)
    | inr (w, e) ↦ elim (Option-cases (executable w.plan)) [
      | inl n ↦ absurd (ground arith)
      | inr (p, q) ↦ (w, p, e, q, ground arith, rw (e, execute, q) refl)
    ]
  ]

  -- A run through the API that returns a result started at a workflow in READY, FEASIBLE, COMPLETED
  -- or FAILED whose plan has steps. The outcomes are an account of the sorted steps of that plan, and
  -- the workflow is left in COMPLETED when the result has no error and in FAILED when it has one.
  pub execute-ok :
      (s : Store) (id : Str) (payload : Fields) {r : RunResult}
      → (execute num texts registry s id payload).0 ≡ ok r
      → (w : Workflow) × (get_workflow s id ≡ some w)
        × Requested w r (execute num texts registry s id payload).1
  execute-ok s id payload {r = x} h =
      let (w, p, e, q, g, whole) = execute_starts s id payload h in
      let next = run_plan num texts registry id p payload in
      let (s', ran, same) = arm_runs s id next w e g in
      let (done, store_eq) = run_plan-ok id p payload s' ran in
      let (before, row, _, _, found, ended) =
        execute_state num texts registry s' id p payload none done in
      let (planned, some_step) = executable-some w.plan p q in
      (
        w,
        e,
        record {
          startable = arming-IsStartable w.state (arm-ok s id next w e g);
          plan = p;
          planned = planned;
          some_step = some_step;
          account = (execute-Account num texts registry s' id p payload none done).0;
          row = row;
          found = rw (find_workflow-id id s.workflows w e, whole, same, store_eq) found;
          ended = ended;
        },
      )
