-- ===== src/Workflow/Scheduler/Fires.antt =====
-- When a scheduled fire runs a workflow, and that it does so once for each period.
use agentic_fraud_decisionin.Common.{
  ℕ, ◌≡◌, ◌≢◌, refl, ap, ◌∙◌, ◌⊎◌, Str, codes, str_eq, true, false, Option, none, some, inl, inr,
  Bool-cases, Option-cases, arith,
}
use agentic_fraud_decisionin.Common.Result.{ok, Result-cases}
use agentic_fraud_decisionin.Workflow.State
use agentic_fraud_decisionin.Workflow.Conditions.{Numerics, RunError}
use agentic_fraud_decisionin.Workflow.Plan.{WorkflowPlan, Frequency, Schedule}
use agentic_fraud_decisionin.Workflow.Registry.{Registry}
use agentic_fraud_decisionin.Workflow.Tables.{Workflow, Store, absent, malformed, holds, Column}
use agentic_fraud_decisionin.Workflow.Store.{
  integrity, no_workflow, invalid_transition, not_encodable, long_number, get_workflow,
  run_exists_for_key, set_next_run, set_last_run, set_last_report,
}
use agentic_fraud_decisionin.Workflow.Executor.{Texts, RunResult, execute}
use agentic_fraud_decisionin.Workflow.Store.Laws.{find-update_self}
use agentic_fraud_decisionin.Workflow.Executor.Keys.{claims}
use agentic_fraud_decisionin.Workflow.Executor.States.{execute_state}
use agentic_fraud_decisionin.Workflow.Scheduler.Armed.{IsStartable, arming-IsStartable}
use agentic_fraud_decisionin.Workflow.Scheduler.{
  FireTime, run_key, stuck, arming, arm_for_run, fire, fireable, recorded, advance, payload,
}

-- What let a fire run the workflow `w`, and what it left.
pub record Fired (s after : Store) (id key : Str) (t : FireTime) (r : RunResult) (w : Workflow)
    : Type 0 where
  pub found : get_workflow s id ≡ some w
  pub unpaused : w.schedule_paused ≡ false
  pub scheduled : str_eq w.trigger_type (codes "schedule") ≡ true
  pub planned : (p : WorkflowPlan) × (w.plan ≡ some p)
  pub is_new : run_exists_for_key s id key ≡ false
  pub startable : IsStartable w.state
  pub claimed : run_exists_for_key after id key ≡ true
  pub row : Workflow
  pub stored : get_workflow after id ≡ some row
  pub ended :
      ((r.error ≡ none) × (row.state ≡ State.completed))
      ⊎ ((e : RunError) × (r.error ≡ some e) × (row.state ≡ State.failed))
  pub noted : row.last_run_at ≡ some t.seconds

arm_for_run-ok :
    (s s' : Store) (id : Str) (w : Workflow)
    → get_workflow s id ≡ some w
    → arm_for_run s id ≡ ok s'
    → arming w.state ≢ stuck
unfolding arm_for_run
arm_for_run-ok s s' id w e h n = ground (arith, n)

module _ (next_fire : Schedule → Option ℕ) (num : Numerics) (texts : Texts) (registry : Registry)
    (print_time : ℕ → Str) where
  fireable-some :
      (w : Workflow) (p : WorkflowPlan)
      → fireable next_fire num texts registry print_time w ≡ some p
      → (w.schedule_paused ≡ false)
        × (str_eq w.trigger_type (codes "schedule") ≡ true)
        × (w.plan ≡ some p)
  fireable-some w p h = (ground arith, ground arith, ground arith)

  advance-Taken :
      (s : Store) (id key : Str) (c : Column Schedule)
      → run_exists_for_key s id key ≡ true
      → run_exists_for_key (advance next_fire num texts registry print_time s id c) id key ≡ true
  unfolding set_next_run
  advance-Taken s id key absent h = h
  advance-Taken s id key malformed h = h
  advance-Taken s id key (holds z) h = h

  -- What is recorded about a run leaves the runs alone.
  recorded-Taken :
      (s : Store) (id key : Str) (w : Workflow) (t : FireTime) (r : RunResult)
      → run_exists_for_key s id key ≡ true
      → run_exists_for_key (recorded next_fire num texts registry print_time s id w t r) id key
        ≡ true
  unfolding set_last_run set_last_report
  recorded-Taken s id key w t r h = advance-Taken _ id key w.schedule h

  fired-Taken :
      (s : Store) (id : Str) (f : Frequency) (t : FireTime) {r : RunResult}
      → (fire next_fire num texts registry print_time s id f t).0 ≡ ok (some r)
      → run_exists_for_key
          (fire next_fire num texts registry print_time s id f t).1
          id
          (run_key f t)
        ≡ true
  unfolding fire
  fired-Taken s id f t h = elim (Option-cases (get_workflow s id)) [
    | inl e ↦ absurd (ground arith)
    | inr (w, e) ↦ elim (Option-cases (fireable next_fire num texts registry print_time w)) [
      | inl n ↦ absurd (ground arith)
      | inr (p, q) ↦ elim (Bool-cases (run_exists_for_key s id (run_key f t))) [
        | inl x ↦ absurd (ground arith)
        | inr x ↦ elim (Result-cases (arm_for_run s id)) [
          | inr (y, a) ↦ absurd (ground arith)
          | inl (s1, a) ↦
              let load = payload next_fire num texts registry print_time f t in
              let done = execute num texts registry s1 id p load (some (run_key f t)) in
              elim (Result-cases done.0) [
                | inr (integrity, y) ↦ absurd (ground arith)
                | inr (no_workflow, y) ↦ absurd (ground arith)
                | inr (invalid_transition, y) ↦ absurd (ground arith)
                | inr (not_encodable, y) ↦ absurd (ground arith)
                | inr (long_number, y) ↦ absurd (ground arith)
                | inl (r', y) ↦
                    rw (e, fire, q, x, a, y)
                      (recorded-Taken done.1 id (run_key f t) w t r'
                        (claims num texts registry id (run_key f t) s1 p load))
              ]
        ]
      ]
    ]
  ]

  advance-row :
      (s : Store) (id : Str) (c : Column Schedule) (v : Workflow)
      → get_workflow s id ≡ some v
      → (x : Workflow) × (get_workflow (advance next_fire num texts registry print_time s id c) id
          ≡ some x)
        × (x.state ≡ v.state)
        × (x.last_run_at ≡ v.last_run_at)
  unfolding set_next_run
  advance-row s id absent v e = (v, e, refl, refl)
  advance-row s id malformed v e = (v, e, refl, refl)
  advance-row s id (holds z) v e =
      (_, find-update_self id _ s.workflows v (λ y. refl) e, refl, refl)

  -- What is recorded about a run keeps the workflow's state.
  recorded-row :
      (s : Store) (id : Str) (w v : Workflow) (t : FireTime) (r : RunResult)
      → get_workflow s id ≡ some v
      → (x : Workflow) × (get_workflow
            (recorded next_fire num texts registry print_time s id w t r)
            id
          ≡ some x)
        × (x.state ≡ v.state)
        × (x.last_run_at ≡ some t.seconds)
  unfolding set_last_run set_last_report
  recorded-row s id w v t r e =
      let e1 = find-update_self id _ s.workflows v (λ y. refl) e in
      advance-row _ id w.schedule _ (find-update_self id _ _ _ (λ y. refl) e1)

  -- A fire that runs a workflow found it scheduled, not paused, with a plan, with no run for the
  -- period's key, and in READY, FEASIBLE, COMPLETED or FAILED. It leaves the key taken, the time of
  -- the fire noted, and the workflow in COMPLETED when the result has no error and in FAILED when it
  -- has one.
  pub fire-Fired :
      (s : Store) (id : Str) (f : Frequency) (t : FireTime) {r : RunResult}
      → (fire next_fire num texts registry print_time s id f t).0 ≡ ok (some r)
      → (w : Workflow) × Fired s
          (fire next_fire num texts registry print_time s id f t).1
          id
          (run_key f t)
          t
          r
          w
  unfolding fire
  fire-Fired s id f t {r = x} h = elim (Option-cases (get_workflow s id)) [
    | inl e ↦ absurd (ground arith)
    | inr (w, e) ↦ elim (Option-cases (fireable next_fire num texts registry print_time w)) [
      | inl n ↦ absurd (ground arith)
      | inr (p, q) ↦ elim (Bool-cases (run_exists_for_key s id (run_key f t))) [
        | inl k ↦ absurd (ground arith)
        | inr k ↦ elim (Result-cases (arm_for_run s id)) [
          | inr (y, a) ↦ absurd (ground arith)
          | inl (s1, a) ↦
              let (unpaused, scheduled, planned) = fireable-some w p q in
              let load = payload next_fire num texts registry print_time f t in
              let done = execute num texts registry s1 id p load (some (run_key f t)) in
              elim (Result-cases done.0) [
                | inr (integrity, y) ↦ absurd (ground arith)
                | inr (no_workflow, y) ↦ absurd (ground arith)
                | inr (invalid_transition, y) ↦ absurd (ground arith)
                | inr (not_encodable, y) ↦ absurd (ground arith)
                | inr (long_number, y) ↦ absurd (ground arith)
                | inl (r', y) ↦
                    let same : r' ≡ x = ground arith in
                    let (_, v, _, _, g, ended) =
                      execute_state num texts registry s1 id p load (some (run_key f t))
                        (y ∙ ap ok same) in
                    let (row, stored, state, noted) = recorded-row done.1 id w v t x g in
                    let last : (fire next_fire num texts registry print_time s id f t).1
                        ≡ recorded next_fire num texts registry print_time done.1 id w t x =
                      rw (e, fire, q, k, a, y, same) refl in
                    (
                      w,
                      record {
                        found = e;
                        unpaused = unpaused;
                        scheduled = scheduled;
                        planned = (p, planned);
                        is_new = k;
                        startable = arming-IsStartable w.state (arm_for_run-ok s s1 id w e a);
                        claimed = fired-Taken s id f t h;
                        row = row;
                        stored = rw last stored;
                        ended = rw state ended;
                        noted = noted;
                      },
                    )
              ]
        ]
      ]
    ]
  ]

  taken_fire :
      (s : Store) (id : Str) (f : Frequency) (t : FireTime)
      → run_exists_for_key s id (run_key f t) ≡ true
      → fire next_fire num texts registry print_time s id f t ≡ (ok none, s)
  unfolding fire
  taken_fire s id f t h = elim (Option-cases (get_workflow s id)) [
    | inl e ↦ rw (e, fire) refl
    | inr (w, e) ↦ elim (Option-cases (fireable next_fire num texts registry print_time w)) [
      | inl n ↦ rw (e, fire, n) refl
      | inr (p, q) ↦ rw (e, fire, q, h) refl
    ]
  ]

  -- A second fire in the same period, after one that ran the workflow, does nothing at all: no run,
  -- no message, no change of any row.
  pub fire_once :
      (s : Store) (id : Str) (f : Frequency) (t t' : FireTime) {r : RunResult}
      → (fire next_fire num texts registry print_time s id f t).0 ≡ ok (some r)
      → run_key f t' ≡ run_key f t
      → let s' = (fire next_fire num texts registry print_time s id f t).1 in
        fire next_fire num texts registry print_time s' id f t' ≡ (ok none, s')
  fire_once s id f t t' h k = taken_fire _ id f t' (rw k (fired-Taken s id f t h))
