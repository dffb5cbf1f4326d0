-- ===== src/Workflow/Store/Laws.antt =====
-- Lookups in the workflow table after an update, and what the statements leave alone.
use agentic_fraud_decisionin.Common.{
  ℕ, ◌≡◌, ◌≢◌, refl, sym, ap, subst, if◌then◌else◌, Str, str_eq, str_eq_iff, true, false, Option,
  some, List, [], ◌∷◌, any, inl, inr, Bool-cases, Option-cases, arith,
}
use agentic_fraud_decisionin.Common.Value.{Value, Fields}
use agentic_fraud_decisionin.Common.Result.{ok, err}
use agentic_fraud_decisionin.Workflow.State.{WorkflowState, can_transition}
use agentic_fraud_decisionin.Workflow.Tables.{Workflow, Run, RunStatus, StepStatus, Store}
use agentic_fraud_decisionin.Workflow.Store.{
  StoreError, now, find_workflow, update_workflow, get_workflow, set_field, transition, has_key,
  run_exists_for_key, start_run, violates_index, integrity, opened, new_id, update_run,
  checkpoint_step, finish_run,
}

found :
    (id : Str) (f : Workflow → Workflow) (v : Workflow) (ws : List Workflow) (w : Workflow)
    → str_eq v.id id ≡ true
    → ((x : Workflow) → (f x).id ≡ x.id)
    → v ≡ w
    → find_workflow id ((if str_eq v.id id then f v else v) ∷ ws) ≡ some (f w)
unfolding find_workflow
found id f v ws w e k q =
    let same : str_eq (f v).id id ≡ true = subst (λ i. str_eq i id ≡ true) (sym (k v)) e in
    rw (e, find_workflow, same) (ap (λ x. some (f x)) q)

-- An update that keeps ids is what a lookup of that id then finds.
pub find-update_self :
    (id : Str) (f : Workflow → Workflow) (ws : List Workflow) (w : Workflow)
    → ((v : Workflow) → (f v).id ≡ v.id)
    → find_workflow id ws ≡ some w
    → find_workflow id (update_workflow id f ws) ≡ some (f w)
unfolding find_workflow update_workflow
find-update_self id f [] w k h = cc
find-update_self id f (v ∷ vs) w k h = elim (Bool-cases (str_eq v.id id)) [
  | inl e ↦ found id f v (update_workflow id f vs) w e k (ground arith)
  | inr n ↦ rw (n, update_workflow, find_workflow, n) (find-update_self id f vs w k (ground arith))
]

pub find-update_other :
    (id other : Str) (f : Workflow → Workflow) (ws : List Workflow)
    → ((v : Workflow) → (f v).id ≡ v.id)
    → id ≢ other
    → find_workflow id (update_workflow other f ws) ≡ find_workflow id ws
unfolding find_workflow update_workflow
find-update_other id other f [] k n = refl
find-update_other id other f (v ∷ vs) k n =
    ground
      (arith, k v, str_eq_iff v.id other, str_eq_iff v.id id, find-update_other id other f vs k n)

-- A change of state that is accepted starts at a state with that edge, and is what is found after.
pub transition-ok :
    (s s' : Store) (id : Str) (to : WorkflowState)
    → transition s id to ≡ ok s'
    → (w : Workflow) × (get_workflow s id ≡ some w)
      × (can_transition w.state to ≡ true)
      × (s' ≡ set_field s id (λ v. record v { state = to }))
unfolding transition
transition-ok s s' id to h = elim (Option-cases (get_workflow s id)) [
  | inl e ↦ absurd (ground arith)
  | inr (w, e) ↦ (w, e, ground arith, ground arith)
]

pub transition_lem :
    (s : Store) (id : Str) (to : WorkflowState) (w : Workflow)
    → get_workflow s id ≡ some w
    → can_transition w.state to ≡ true
    → transition s id to ≡ ok (set_field s id (λ v. record v { state = to }))
unfolding transition
transition_lem s id to w e c = ground arith

-- The row after an accepted change of state, which keeps what else it holds.
pub transition-row :
    (s s' : Store) (id : Str) (to : WorkflowState) (w : Workflow)
    → transition s id to ≡ ok s'
    → get_workflow s id ≡ some w
    → get_workflow s' id ≡ some (record w { state = to; updated_at = now s })
transition-row s s' id to w h e =
    let (v, f, _, q) = transition-ok s s' id to h in
    rw q (find-update_self id _ s.workflows w (λ v. refl) e)

pub transition-state :
    (s s' : Store) (id : Str) (to : WorkflowState)
    → transition s id to ≡ ok s'
    → (w : Workflow) × (get_workflow s' id ≡ some w) × (w.state ≡ to)
transition-state s s' id to h =
    let (w, e, _, q) = transition-ok s s' id to h in
    (
      record w { state = to; updated_at = now s },
      rw q (find-update_self id _ s.workflows w (λ v. refl) e),
      refl,
    )

-- Updates of runs keep their keys.
pub any-has_key-update_run :
    (id key rid : Str) (f : Run → Run) (rs : List Run)
    → ((r : Run) → has_key id key (f r) ≡ has_key id key r)
    → any (has_key id key) (update_run rid f rs) ≡ any (has_key id key) rs
unfolding update_run
any-has_key-update_run id key rid f [] k = refl
any-has_key-update_run id key rid f (r ∷ rs) k = elim (Bool-cases (str_eq r.run_id rid)) [
  | inl e ↦ rw (e, update_run, k r, any-has_key-update_run id key rid f rs k) refl
  | inr e ↦ rw (e, update_run, any-has_key-update_run id key rid f rs k) refl
]

-- A run that is opened has a new row, and its key was free.
pub start_run-ok :
    (s s' : Store) (id rid : Str) (key : Option Str)
    → start_run s id key ≡ ok (rid, s')
    → (rid ≡ new_id s) × (s' ≡ opened s id key) × (violates_index s id key ≡ false)
unfolding start_run
start_run-ok s s' id rid key h = ground arith

pub start_run_refused :
    (s : Store) (id key : Str) (e : StoreError)
    → start_run s id (some key) ≡ err e
    → run_exists_for_key s id key ≡ true
unfolding start_run
start_run_refused s id key e h = ground arith

pub start_run_taken :
    (s : Store) (id key : Str)
    → run_exists_for_key s id key ≡ true
    → start_run s id (some key) ≡ err integrity
unfolding start_run
start_run_taken s id key h = ground arith

-- The change that a checkpoint makes to its run.
abbrev pub as_running : Run → Run
as_running r = record r { status = RunStatus.running }

pub any-has_key-checkpoint_step :
    (id key : Str) (s : Store) (rid : Str) (n : ℕ) (tool : Str) (args : Fields) (v : Value)
    (st : StepStatus)
    → run_exists_for_key (checkpoint_step s rid n tool args v st) id key
      ≡ run_exists_for_key s id key
unfolding checkpoint_step
any-has_key-checkpoint_step id key s rid n tool args v st =
    any-has_key-update_run id key rid as_running s.runs (λ r. refl)

pub any-has_key-finish_run :
    (id key : Str) (s : Store) (rid : Str) (st : RunStatus)
    → run_exists_for_key (finish_run s rid st) id key ≡ run_exists_for_key s id key
unfolding finish_run
any-has_key-finish_run id key s rid st =
    any-has_key-update_run id key rid (λ r. record r { status = st; finished_at = some (now s) })
      s.runs (λ r. refl)

pub start_run_free :
    (s : Store) (id : Str) (key : Option Str)
    → violates_index s id key ≡ false
    → start_run s id key ≡ ok (new_id s, opened s id key)
unfolding start_run
start_run_free s id key h = ground arith
