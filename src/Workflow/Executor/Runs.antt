-- ===== src/Workflow/Executor/Runs.antt =====
-- The stages of a run that returns a result, and the ways in which execute can end.
use agentic_fraud_decisionin.Common.{◌≡◌, refl, ap, ◌∙◌, Str, Option, inl, inr, arith}
use agentic_fraud_decisionin.Common.Value.{Fields}
use agentic_fraud_decisionin.Common.Result.{Result, ok, err, Result-cases}
use agentic_fraud_decisionin.Workflow.State
use agentic_fraud_decisionin.Workflow.Conditions.{Numerics, RunError}
use agentic_fraud_decisionin.Workflow.Plan.{WorkflowPlan}
use agentic_fraud_decisionin.Workflow.Registry.{Registry}
use agentic_fraud_decisionin.Workflow.Tables.{Store}
use agentic_fraud_decisionin.Workflow.Store.{StoreError, start_run, transition, finish_run}
use agentic_fraud_decisionin.Workflow.Executor.{
  Texts, Progress, RunResult, run_status, end_state, start, sort_steps, run_steps, finish, execute,
}

module _ (num : Numerics) (texts : Texts) (registry : Registry) (store : Store) (wid : Str)
    (plan : WorkflowPlan) (payload : Fields) (key : Option Str) where
  -- The loop of a run that has the id `run_id` and starts on the store `started`.
  abbrev pub looped : Str → Store → Progress
  looped run_id started =
      run_steps num texts registry run_id payload (start started) (sort_steps plan.steps)

  -- The stages of a run: a new row, READY to RUNNING, the loop, and the last transition.
  pub record Stages (r : RunResult) (final : Store) (run_id : Str) (opened started : Store)
      : Type 0 where
    pub opens : start_run store wid key ≡ ok (run_id, opened)
    pub starts : transition opened wid State.WorkflowState.running ≡ ok started
    pub ends :
        transition
          (finish_run (looped run_id started).0.store run_id (run_status r.error))
          wid
          (end_state r.error)
        ≡ ok final
    pub steps : r.steps ≡ (looped run_id started).0.outcomes
    pub error : (looped run_id started).1 ≡ ok r.error
    pub status : r.status ≡ run_status r.error

  pub execute-Stages :
      {r : RunResult}
      → (execute num texts registry store wid plan payload key).0 ≡ ok r
      → (run_id : Str) × (opened : Store) × (started : Store) × Stages r
          (execute num texts registry store wid plan payload key).1
          run_id
          opened
          started
  unfolding execute finish
  execute-Stages {r = y} h = elim (Result-cases (start_run store wid key)) [
    | inr (e, q) ↦ absurd (ground arith)
    | inl ((run_id, opened), q) ↦
        elim (Result-cases (transition opened wid State.WorkflowState.running)) [
          | inr (e, p) ↦ absurd (ground arith)
          | inl (started, p) ↦
              let x = looped run_id started in
              elim (Result-cases x.1) [
                | inr (e, z) ↦ absurd (ground arith)
                | inl (f, z) ↦
                    elim (Result-cases
                      (transition (finish_run x.0.store run_id (run_status f)) wid (end_state f))) [
                        | inr (e, t) ↦ absurd (ground arith)
                        | inl (final, t) ↦
                            let same : f ≡ y.error = ground arith in
                            let last : (execute num texts registry store wid plan payload key).1
                                ≡ final =
                              rw (q, execute, p, z, finish, t) refl in
                            (
                              run_id,
                              opened,
                              started,
                              record {
                                opens = q;
                                starts = p;
                                ends = rw (last, ← same) t;
                                steps = ground arith;
                                error = z ∙ ap ok same;
                                status = ground arith;
                              },
                            )
                      ]
              ]
        ]
  ]

  -- Each way in which execute can end: refused by the index, refused at the start, ended.
  pub execute_cases :
      (P : Result StoreError RunResult × Store → Type 0)
      → ((e : StoreError) → start_run store wid key ≡ err e → P (err e, store))
      → ((e : StoreError) (run_id : Str) (opened : Store)
          → start_run store wid key ≡ ok (run_id, opened)
          → P (err e, opened))
      → ((run_id : Str) (opened started : Store)
          → start_run store wid key ≡ ok (run_id, opened)
          → transition opened wid State.WorkflowState.running ≡ ok started
          → (f : Option RunError)
          → P (finish num texts registry wid run_id (looped run_id started).0 f))
      → ((run_id : Str) (opened started : Store)
          → start_run store wid key ≡ ok (run_id, opened)
          → transition opened wid State.WorkflowState.running ≡ ok started
          → (x : StoreError) → P (err x, (looped run_id started).0.store))
      → P (execute num texts registry store wid plan payload key)
  unfolding execute
  execute_cases P on_index on_start on_end on_raise =
      elim (Result-cases (start_run store wid key)) [
        | inr (e, q) ↦ rw (q, execute) (on_index e q)
        | inl ((run_id, opened), q) ↦
            elim (Result-cases (transition opened wid State.WorkflowState.running)) [
              | inr (e, p) ↦ rw (q, execute, p) (on_start e run_id opened q)
              | inl (started, p) ↦ elim (Result-cases (looped run_id started).1) [
                | inl (f, z) ↦ rw (q, execute, p, z) (on_end run_id opened started q p f)
                | inr (x, z) ↦ rw (q, execute, p, z) (on_raise run_id opened started q p x)
              ]
            ]
      ]
