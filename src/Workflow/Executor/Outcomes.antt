-- ===== src/Workflow/Executor/Outcomes.antt =====
-- What the outcomes of a run say: an abstract account of execute, which the loop implements.
use mathlib.Core.List.{Perm, append_assoc, append-nil}
use agentic_fraud_decisionin.Common.{
  ℕ, ◌≡◌, refl, sym, ap, subst, ◌∙◌, ◌⊎◌, Str, Option, none, some, List, [], ◌∷◌, ◌++◌, map, filter,
  any, ◌==◌, inl, inr, Option-cases, arith,
}
use agentic_fraud_decisionin.Common.Sort.{IsOrdered, sort_by-perm, sort_by-IsOrdered}
use agentic_fraud_decisionin.Common.Value.{Value, Fields}
use agentic_fraud_decisionin.Common.Result.{Result, ok, err, Result-cases}
use agentic_fraud_decisionin.Workflow.Conditions.{Numerics, RunError}
use agentic_fraud_decisionin.Workflow.Plan.{PlanStep, WorkflowPlan}
use agentic_fraud_decisionin.Workflow.Registry.{Registry}
use agentic_fraud_decisionin.Workflow.Tables.{Store, StepStatus, RunStatus}
use agentic_fraud_decisionin.Workflow.Store.{StoreError}
use agentic_fraud_decisionin.Workflow.Feasibility.{guard_of}
use agentic_fraud_decisionin.Workflow.Executor.{
  Texts, Loop, Progress, StepOutcome, RunResult, depends_on, guard_false, outcome, run_status,
  start, sort_steps, skip, fail, succeed, referenced_steps, run_step, run_steps, execute,
}
use agentic_fraud_decisionin.Workflow.Executor.Steps.{Touched, run_step_cases}
use agentic_fraud_decisionin.Workflow.Executor.Runs.{execute-Stages}

module _ (num : Numerics) where
  -- The steps among `skipped` that `s` refers to.
  abbrev pub waits_for : List ℕ → PlanStep → List ℕ
  waits_for skipped s = filter (λ k. any (λ m. m == k) skipped) (referenced_steps num s)

  -- Given the steps skipped so far, the outcomes and the error that steps to run may lead to.
  pub data Account : List ℕ → List PlanStep → List StepOutcome → Option RunError → Type 0 where
    finished : {k : List ℕ} → Account k [] [] none
    failed :
        {k : List ℕ} {s : PlanStep} {ss : List PlanStep} {e : RunError}
        → waits_for k s ≡ []
        → Account k (s ∷ ss) (outcome s StepStatus.error none (some e) none ∷ []) (some e)
    succeeded :
        {k : List ℕ} {s : PlanStep} {ss : List PlanStep} {os : List StepOutcome}
        {f : Option RunError} (v : Value)
        → waits_for k s ≡ []
        → Account k ss os f
        → Account k (s ∷ ss) (outcome s StepStatus.ok_ (some v) none none ∷ os) f
    held_back :
        {k : List ℕ} {s : PlanStep} {ss : List PlanStep} {os : List StepOutcome}
        {f : Option RunError} (n : ℕ) (ns : List ℕ)
        → waits_for k s ≡ n ∷ ns
        → Account (s.step_number ∷ k) ss os f
        → Account k
            (s ∷ ss)
            (outcome s StepStatus.skipped none none (some (depends_on (n ∷ ns))) ∷ os)
            f
    guarded :
        {k : List ℕ} {s : PlanStep} {ss : List PlanStep} {os : List StepOutcome}
        {f : Option RunError} (w : Str)
        → waits_for k s ≡ []
        → guard_of s ≡ some w
        → Account (s.step_number ∷ k) ss os f
        → Account k (s ∷ ss) (outcome s StepStatus.skipped none none (some (guard_false w)) ∷ os) f

  abbrev numbers : List StepOutcome → List ℕ
  numbers = map (λ o. o.step_number)

  pub Account-complete :
      {k : List ℕ} {ss : List PlanStep} {os : List StepOutcome} {f : Option RunError}
      → Account k ss os f
      → f ≡ none
      → map (λ o. o.step_number) os ≡ map (λ s. s.step_number) ss
  Account-complete finished e = refl
  Account-complete (failed b) e = absurd (ground arith)
  Account-complete (succeeded v b a) e = rw (Account-complete a e) refl
  Account-complete (held_back n ns b a) e = rw (Account-complete a e) refl
  Account-complete (guarded w b g a) e = rw (Account-complete a e) refl

-- What a step adds to the outcomes, and what it passes on.
module _ (num : Numerics) (texts : Texts) (registry : Registry) (run_id : Str)
    (payload : Fields) where
  abbrev Reported : Loop → List PlanStep → Progress → Type 0
  Reported l ss r =
      (f : Option RunError)
      → r.1 ≡ ok f
      → (os : List StepOutcome) × (r.0.outcomes ≡ l.outcomes ++ os) × Account num l.skipped ss os f

  abbrev continue_with : List PlanStep → Progress → Progress
  continue_with ss (m, ok none) = run_steps num texts registry run_id payload m ss
  continue_with ss (m, ok (some e)) = (m, ok (some e))
  continue_with ss (m, err x) = (m, err x)

  -- One outcome more, then those of the rest.
  snoc_outcomes :
      (a b c : List StepOutcome) (o : StepOutcome) (os : List StepOutcome)
      → c ≡ b ++ os
      → b ≡ a ++ o ∷ []
      → c ≡ a ++ o ∷ os
  snoc_outcomes a b c o os h k = rw (h, k) (append_assoc a (o ∷ []) os)

  Touched-outcomes :
      (l m : Loop) → Touched l m → (m.outcomes ≡ l.outcomes) × (m.skipped ≡ l.skipped)
  Touched-outcomes l m (inl e) = rw e (refl, refl)
  Touched-outcomes l m (inr (sent, e)) = rw e (refl, refl)

  abbrev settled : Option RunError → Result StoreError (Option RunError)
  settled f = ok f

  same_error : (e : RunError) (f : Option RunError) → settled (some e) ≡ ok f → some e ≡ f
  same_error e f z = cc

  no_error : (f : Option RunError) → settled none ≡ ok f → none ≡ f
  no_error f z = cc

  run_step_Account :
      (l : Loop) (s : PlanStep) (ss : List PlanStep)
      → ((m : Loop) → Reported m ss (run_steps num texts registry run_id payload m ss))
      → Reported l (s ∷ ss) (continue_with ss (run_step num texts registry run_id payload l s))
  unfolding skip fail succeed
  run_step_Account l s ss rest =
      run_step_cases num texts registry run_id payload
        (λ r. Reported l (s ∷ ss) (continue_with ss r)) l s
        (λ k ks b f z.
          let (os, e, a) = rest (skip num texts registry run_id l s (depends_on (k ∷ ks))) f z in
          (_, snoc_outcomes _ _ _ _ os e refl, Account.held_back k ks b a))
        (λ w b g f z.
          let (os, e, a) = rest (skip num texts registry run_id l s (guard_false w)) f z in
          (_, snoc_outcomes _ _ _ _ os e refl, Account.guarded w b g a))
        (λ m e b h f z. (
          _,
          ap (λ x. x ++ outcome s StepStatus.error none (some e) none ∷ [])
              (Touched-outcomes l m h).0,
          subst (Account num l.skipped (s ∷ ss) _) (same_error e f z) (Account.failed b),
        ))
        (λ m args v b h f z.
          let (os, e, a) = rest (succeed num texts registry run_id m s args v) f z in
          let (same, sk) = Touched-outcomes l m h in
          (
            _,
            snoc_outcomes _ _ _ _ os e
                (ap (λ x. x ++ outcome s StepStatus.ok_ (some v) none none ∷ []) same),
            Account.succeeded v b (subst (λ k. Account num k ss os f) sk a),
          ))
        (λ m x h z f q. absurd (cc q))

  run_steps-cons :
      (l : Loop) (s : PlanStep) (ss : List PlanStep)
      → run_steps num texts registry run_id payload l (s ∷ ss)
        ≡ continue_with ss (run_step num texts registry run_id payload l s)
  unfolding run_steps
  run_steps-cons l s ss = elim (Result-cases (run_step num texts registry run_id payload l s).1) [
    | inl (none, e) ↦ rw (e, run_steps, continue_with) refl
    | inl (some f, e) ↦ rw (e, run_steps, continue_with) refl
    | inr (x, e) ↦ rw (e, run_steps, continue_with) refl
  ]

  pub run_steps_Account :
      (l : Loop) (ss : List PlanStep)
      → Reported l ss (run_steps num texts registry run_id payload l ss)
  unfolding run_steps
  run_steps_Account l [] = λ f z. (
    [],
    sym (append-nil l.outcomes),
    subst (Account num l.skipped [] []) (no_error f z) Account.finished,
  )
  run_steps_Account l (s ∷ ss) =
      rw (run_steps-cons l s ss) (run_step_Account l s ss (λ m. run_steps_Account m ss))

-- The steps run in the order of their numbers, and are exactly the steps of the plan.
pub sort_steps-IsOrdered :
    (ss : List PlanStep) → IsOrdered (λ s. s.step_number) (sort_steps ss) × Perm (sort_steps ss) ss
sort_steps-IsOrdered ss =
    (sort_by-IsOrdered (λ s. s.step_number) ss, sort_by-perm (λ s. s.step_number) ss)

-- A run that returns a result: its outcomes are an account of the plan's sorted steps that ends in
-- the result's error. There is one outcome for each step up to the first error and none after it, a
-- step that refers to a step skipped before it is skipped, and no other is but by its own guard. The
-- run has completed with no error and one outcome for every step, or it has failed with an error.
pub execute-Account :
    (num : Numerics) (texts : Texts) (registry : Registry) (store : Store) (wid : Str)
    (plan : WorkflowPlan) (payload : Fields) (key : Option Str) {r : RunResult}
    → (execute num texts registry store wid plan payload key).0 ≡ ok r
    → Account num [] (sort_steps plan.steps) r.steps r.error
      × (((r.status ≡ RunStatus.completed)
            × (r.error ≡ none)
            × (map (λ o. o.step_number) r.steps ≡ map (λ s. s.step_number) (sort_steps plan.steps)))
          ⊎ ((e : RunError) × (r.status ≡ RunStatus.failed) × (r.error ≡ some e)))
execute-Account num texts registry store wid plan payload key {r = x} h =
    let (run_id, opened, started, r) =
      execute-Stages num texts registry store wid plan payload key h in
    let (os, e, a) =
      run_steps_Account num texts registry run_id payload (start started) (sort_steps plan.steps)
        x.error r.error in
    let account : Account num [] (sort_steps plan.steps) x.steps x.error = rw (r.steps, e) a in
    let status : x.status ≡ run_status x.error = r.status in
    (
      account,
      elim (Option-cases x.error) [
        | inl n ↦ inl (status ∙ ap run_status n, n, Account-complete num account n)
        | inr (f, n) ↦ inr (f, status ∙ ap run_status n, n)
      ],
    )
