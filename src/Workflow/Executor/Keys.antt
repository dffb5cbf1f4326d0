-- ===== src/Workflow/Executor/Keys.antt =====
-- A scheduled run happens at most once for each key, by the unique index on workflow_runs.
use agentic_fraud_decisionin.Common.{
  ◌≡◌, refl, ◌∙◌, Str, str_eq_refl, true, Option, some, List, [], ◌∷◌, any-append, inl, inr, arith,
}
use agentic_fraud_decisionin.Common.Value.{Fields}
use agentic_fraud_decisionin.Common.Result.{ok, err, Result-cases}
use agentic_fraud_decisionin.Workflow.State
use agentic_fraud_decisionin.Workflow.State.{WorkflowState}
use agentic_fraud_decisionin.Workflow.Conditions.{Numerics, RunError}
use agentic_fraud_decisionin.Workflow.Plan.{WorkflowPlan}
use agentic_fraud_decisionin.Workflow.Registry.{Registry}
use agentic_fraud_decisionin.Workflow.Tables.{Store}
use agentic_fraud_decisionin.Workflow.Store.{
  integrity, has_key, run_exists_for_key, start_run, opened, transition, finish_run, write_outbox,
}
use agentic_fraud_decisionin.Workflow.Store.Laws.{
  any-has_key-checkpoint_step, any-has_key-finish_run, transition-ok, start_run-ok, start_run_taken,
  start_run_refused,
}
use agentic_fraud_decisionin.Workflow.Executor.{
  Texts, Loop, run_status, end_state, start, sort_steps, finish, execute,
}
use agentic_fraud_decisionin.Workflow.Executor.Steps.{run_steps_keeps}
use agentic_fraud_decisionin.Workflow.Executor.Runs.{execute_cases, looped}

-- One call of execute.
pub record Attempt : Type 0 where
  pub workflow_id : Str
  pub plan : WorkflowPlan
  pub payload : Fields
  pub key : Option Str

module _ (num : Numerics) (texts : Texts) (registry : Registry) where
  abbrev pub attempt : Store → Attempt → Store
  attempt s a = (execute num texts registry s a.workflow_id a.plan a.payload a.key).1

  unfoldable pub attempts : Store → List Attempt → Store
  attempts s [] = s
  attempts s (a ∷ cs) = attempts (attempt s a) cs

  -- A run with this key is on record.
  abbrev pub Taken : Str → Str → Store → Type 0
  Taken id key s = run_exists_for_key s id key ≡ true

  module _ (id key : Str) where
    transition-Taken :
        (s s' : Store) (wid : Str) (to : WorkflowState)
        → transition s wid to ≡ ok s'
        → Taken id key s
        → Taken id key s'
    transition-Taken s s' wid to h t = let (w, e, c, q) = transition-ok s s' wid to h in rw q t

    start_run-Taken :
        (s s' : Store) (wid rid : Str) (k : Option Str)
        → start_run s wid k ≡ ok (rid, s')
        → Taken id key s
        → Taken id key s'
    start_run-Taken s s' wid rid k h t =
        rw ((start_run-ok s s' wid rid k h).1)
          (any-append (has_key id key) s.runs _ ∙ ground (arith, t))

    looped-Taken :
        (rid wid : Str) (plan : WorkflowPlan) (payload : Fields) (k : Option Str)
        (s started : Store)
        → Taken id key started
        → Taken id key (looped num texts registry s wid plan payload k rid started).0.store
    unfolding write_outbox
    looped-Taken rid wid plan payload k s started t =
        run_steps_keeps num texts registry rid payload (Taken id key)
          (λ s n tool args v st q. rw (any-has_key-checkpoint_step id key s rid n tool args v st) q)
          (λ s c p q. q) (λ s n q. q) (start started) (sort_steps plan.steps) t

    finish-Taken :
        (wid rid : Str) (l : Loop) (f : Option RunError)
        → Taken id key l.store
        → Taken id key (finish num texts registry wid rid l f).1
    unfolding finish
    finish-Taken wid rid l f t =
        let s = finish_run l.store rid (run_status f) in
        let q : Taken id key s = rw (any-has_key-finish_run id key l.store rid (run_status f)) t in
        elim (Result-cases (transition s wid (end_state f))) [
          | inl (s', e) ↦ rw (e, finish) (transition-Taken s s' wid _ e q)
          | inr (x, e) ↦ rw (e, finish) q
        ]

    attempt-Taken : (s : Store) (a : Attempt) → Taken id key s → Taken id key (attempt s a)
    attempt-Taken s a t =
        execute_cases num texts registry s a.workflow_id a.plan a.payload a.key
          (λ r. Taken id key r.1) (λ e h. t)
          (λ e rid opened h. start_run-Taken s opened _ rid _ h t)
          (λ rid opened started h k f. finish-Taken _ rid _ f (ran rid opened started h k))
          (λ rid opened started h k x. ran rid opened started h k)
      where
        ran :
            (rid : Str) (opened started : Store)
            → start_run s a.workflow_id a.key ≡ ok (rid, opened)
            → transition opened a.workflow_id State.running ≡ ok started
            → Taken id key
                (looped num texts registry s a.workflow_id a.plan a.payload a.key rid
                  started).0.store
        ran rid opened started h k =
            looped-Taken rid a.workflow_id a.plan a.payload a.key s started
              (transition-Taken opened started _ _ k (start_run-Taken s opened _ rid _ h t))

    attempts-Taken : (s : Store) (cs : List Attempt) → Taken id key s → Taken id key (attempts s cs)
    unfolding attempts
    attempts-Taken s [] t = t
    attempts-Taken s (c ∷ cs) t = attempts-Taken (attempt s c) cs (attempt-Taken s c t)

    -- Whatever comes of an attempt with a key, the key is taken after it.
    pub claims :
        (s : Store) (plan : WorkflowPlan) (payload : Fields)
        → Taken id key (execute num texts registry s id plan payload (some key)).1
    claims s plan payload =
        execute_cases num texts registry s id plan payload (some key) (λ r. Taken id key r.1)
          (λ e h. start_run_refused s id key e h) (λ e rid opened h. claimed opened rid h)
          (λ rid opened started h k f. finish-Taken _ rid _ f (ran rid opened started h k))
          (λ rid opened started h k x. ran rid opened started h k)
      where
        claimed :
            (opened : Store) (rid : Str)
            → start_run s id (some key) ≡ ok (rid, opened)
            → Taken id key opened
        claimed opened rid h =
            rw ((start_run-ok s opened id rid (some key) h).1) (
              any-append (has_key id key) s.runs _
              ∙ ground (arith, str_eq_refl id, str_eq_refl key))

        ran :
            (rid : Str) (opened started : Store)
            → start_run s id (some key) ≡ ok (rid, opened)
            → transition opened id State.running ≡ ok started
            → Taken id key
                (looped num texts registry s id plan payload (some key) rid started).0.store
        ran rid opened started h k =
            looped-Taken rid id plan payload (some key) s started
              (transition-Taken opened started _ _ k (claimed opened rid h))

  -- After an attempt to run a workflow under a key, however it ended, and after any attempts in
  -- between, another one under the same key is refused by the index and changes nothing.
  pub once_for_each_key :
      (s : Store) (id key : Str) (plan : WorkflowPlan) (payload : Fields) (between : List Attempt)
      (plan' : WorkflowPlan) (payload' : Fields)
      → let s' = attempts (execute num texts registry s id plan payload (some key)).1 between in
        execute num texts registry s' id plan' payload' (some key) ≡ (err integrity, s')
  unfolding execute
  once_for_each_key s id key plan payload between plan' payload' =
      let s' = attempts (execute num texts registry s id plan payload (some key)).1 between in
      rw
        (
          start_run_taken s' id key
              (attempts-Taken id key _ between (claims id key s plan payload)),
          execute,
        )
        refl
