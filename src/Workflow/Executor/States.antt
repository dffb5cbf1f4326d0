-- ===== src/Workflow/Executor/States.antt =====
-- The state of the workflow when a run returns.
use agentic_fraud_decisionin.Common.{
  ℕ, List, [], ◌∷◌, All, Option-cases, arith, ◌≡◌, refl, sym, ◌∙◌, Str, true, false, Option, none,
  some, ◌⊎◌, inl, inr, ap,
}
use agentic_fraud_decisionin.Common.Value.{Value, Fields}
use agentic_fraud_decisionin.Common.Result.{ok}
use agentic_fraud_decisionin.Workflow.State
use agentic_fraud_decisionin.Workflow.State.{WorkflowState, can_transition}
use agentic_fraud_decisionin.Workflow.Conditions.{Numerics, RunError}
use agentic_fraud_decisionin.Workflow.Plan.{PlanStep, WorkflowPlan}
use agentic_fraud_decisionin.Workflow.Registry.{Registry, execute as dispatch}
use agentic_fraud_decisionin.Workflow.Tables.{Workflow, Store}
use agentic_fraud_decisionin.Workflow.Store.{
  find_workflow, get_workflow, new_id, violates_index, set_field, opened, checkpoint_step,
  finish_run, write_outbox,
}
use agentic_fraud_decisionin.Workflow.Store.Laws.{
  transition-ok, transition-state, transition_lem, start_run-ok, start_run_free,
}
use agentic_fraud_decisionin.Workflow.Executor.{
  Texts, Loop, args_raise, fail, run_step, run_steps, RunResult, run_status, end_state, start,
  sort_steps, finish, execute,
}
use agentic_fraud_decisionin.Workflow.Executor.Steps.{run_step_cases, run_steps_keeps}
use agentic_fraud_decisionin.Workflow.Executor.Runs.{execute-Stages, looped}

module _ (num : Numerics) (texts : Texts) (registry : Registry) (store : Store) (wid : Str)
    (plan : WorkflowPlan) (payload : Fields) (key : Option Str) where
  -- A run never touches the table of workflows before its last transition.
  looped-workflows :
      (rid : Str) (started : Store)
      → (looped num texts registry store wid plan payload key rid started).0.store.workflows
        ≡ started.workflows
  unfolding checkpoint_step write_outbox
  looped-workflows rid started =
      run_steps_keeps num texts registry rid payload (λ s. s.workflows ≡ started.workflows)
        (λ s n tool args v st q. q) (λ s c p q. q) (λ s n q. q) (start started)
        (sort_steps plan.steps) refl

ending :
    (f : Option RunError) (s : WorkflowState)
    → s ≡ end_state f
    → ((f ≡ none) × (s ≡ State.completed)) ⊎ ((x : RunError) × (f ≡ some x) × (s ≡ State.failed))
ending none s h = inl (refl, h)
ending (some x) s h = inr (x, refl, h)

-- A workflow whose run returns a result could be started in the state it was in, and is left in
-- COMPLETED when the result has no error and in FAILED when it has one.
pub execute_state :
    (num : Numerics) (texts : Texts) (registry : Registry) (store : Store) (wid : Str)
    (plan : WorkflowPlan) (payload : Fields) (key : Option Str) {r : RunResult}
    → (execute num texts registry store wid plan payload key).0 ≡ ok r
    → (before after : Workflow) × (get_workflow store wid ≡ some before)
      × (can_transition before.state State.running ≡ true)
      × (get_workflow (execute num texts registry store wid plan payload key).1 wid ≡ some after)
      × (((r.error ≡ none) × (after.state ≡ State.completed))
          ⊎ ((x : RunError) × (r.error ≡ some x) × (after.state ≡ State.failed)))
execute_state num texts registry store wid plan payload key {r = x} h =
    let (rid, opened, started, r) =
      execute-Stages num texts registry store wid plan payload key h in
    let (_, q, _) = start_run-ok store opened wid rid key r.opens in
    let (before, e, c, _) = transition-ok opened started wid State.running r.starts in
    let (after, f, d) = transition-state _ _ wid _ r.ends in
    (before, after, ap (λ s. get_workflow s wid) (sym q) ∙ e, c, f, ending x.error after.state d)

can_end : (f : Option RunError) → can_transition State.running (end_state f) ≡ true
unfolding can_transition
can_end none = refl
can_end (some e) = refl

-- Every result that a tool can return is one that json.dumps encodes.
abbrev pub Encodable : Texts → Registry → Type 0
Encodable texts registry =
    (call : ℕ) (name : Str) (args : Fields) (v : Value)
    → (dispatch registry call name args).result ≡ ok v
    → texts.encodes v ≡ true

module _ (num : Numerics) (texts : Texts) (registry : Registry) (run_id : Str) (payload : Fields)
    (encodable : Encodable texts registry) where
  run_step_settles :
      (l : Loop) (s : PlanStep)
      → args_raise s.args ≡ false
      → (f : Option RunError) × ((run_step num texts registry run_id payload l s).1 ≡ ok f)
  unfolding fail
  run_step_settles l s short =
      run_step_cases num texts registry run_id payload (λ r. (f : Option RunError) × (r.1 ≡ ok f)) l
        s (λ k ks b. (none, refl)) (λ w b g. (none, refl)) (λ m e b h. (some e, refl))
        (λ m args v b h. (none, refl))
        (λ m x h why. elim why [
          | inl long ↦ absurd (ground (arith, long, short))
          | inr (call, args, v, q, n) ↦ absurd (ground (arith, n, encodable call _ args v q))
        ])

  run_steps_settle :
      (l : Loop) (ss : List PlanStep)
      → All (λ s. args_raise s.args ≡ false) ss
      → (f : Option RunError) × ((run_steps num texts registry run_id payload l ss).1 ≡ ok f)
  unfolding run_steps
  run_steps_settle l [] h = (none, refl)
  run_steps_settle l (s ∷ ss) h =
      let r = run_step num texts registry run_id payload l s in
      let (f, e) = run_step_settles l s h.0 in
      elim (Option-cases f) [
        | inl n ↦ rw (e, run_steps, n) (run_steps_settle r.0 ss h.1)
        | inr (x, n) ↦ rw (e, run_steps, n) (some x, refl)
      ]

-- A run of a workflow that may start, under a key that is free, returns a result: whatever its
-- guards, arguments and tools do, execute raises nothing and the last change of state is not
-- refused. It takes that json.dumps encodes every result of a tool, and that no argument of the
-- plan refers to a step by a number of more than 4300 digits.
pub execute_returns :
    (num : Numerics) (texts : Texts) (registry : Registry) (store : Store) (wid : Str)
    (plan : WorkflowPlan) (payload : Fields) (key : Option Str) (w : Workflow)
    → Encodable texts registry
    → All (λ s. args_raise s.args ≡ false) (sort_steps plan.steps)
    → get_workflow store wid ≡ some w
    → can_transition w.state State.running ≡ true
    → violates_index store wid key ≡ false
    → (r : RunResult) × ((execute num texts registry store wid plan payload key).0 ≡ ok r)
unfolding execute finish finish_run
execute_returns num texts registry store wid plan payload key w encodable short e c v =
    let s1 = opened store wid key in
    let s2 = set_field s1 wid (λ x. record x { state = State.running }) in
    let a = start_run_free store wid key v in
    let b = transition_lem s1 wid State.running w e c in
    let (w', f, d) = transition-state s1 s2 wid State.running b in
    let rid = new_id store in
    let x = looped num texts registry store wid plan payload key rid s2 in
    let (failure, settled) =
      run_steps_settle num texts registry rid payload encodable (start s2) (sort_steps plan.steps)
        short in
    let s3 = finish_run x.0.store rid (run_status failure) in
    let g : get_workflow s3 wid ≡ some w' =
      ap (find_workflow wid) (looped-workflows num texts registry store wid plan payload key rid s2)
      ∙ f in
    let q = transition_lem s3 wid (end_state failure) w' g (rw d (can_end failure)) in
    let r : RunResult = record {
      run_id = rid;
      status = run_status failure;
      steps = x.0.outcomes;
      error = failure;
    } in
    (r, rw (a, execute, b, settled, finish, q) refl)
