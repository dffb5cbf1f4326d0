-- ===== src/Workflow/Executor.antt =====
-- Executor of fraud_platform/workflow_engine/executor.py. A run is a loop over the sorted steps that
-- threads the store, the results, the skipped steps and the outcomes; the wording of messages is a
-- parameter, and latencies and log lines are left out.
pub mod Steps
pub mod Runs
pub mod Outcomes
pub mod Keys
pub mod States
use agentic_fraud_decisionin.Common.{
  ℕ, suc, Str, codes, Bool, true, false, Option, none, some, List, [], ◌∷◌, ◌++◌, any, filter, leb,
  ◌==◌, ◌||◌, if◌then◌else◌,
}
use agentic_fraud_decisionin.Common.Sort.{sort_by}
use agentic_fraud_decisionin.Common.Value
use agentic_fraud_decisionin.Common.Value.{Value, Fields, empty, entry}
use agentic_fraud_decisionin.Common.Result.{Result, ok, err, ◌>>=◌}
use agentic_fraud_decisionin.Workflow.State
use agentic_fraud_decisionin.Workflow.Refs.{Ref, trigger, step, parse_ref, int_raises}
use agentic_fraud_decisionin.Workflow.Conditions.{
  Numerics, RunError, parse_condition, compare, bad_reference, not_run, no_field, not_addressable,
}
use agentic_fraud_decisionin.Workflow.Plan.{PlanStep, WorkflowPlan}
use agentic_fraud_decisionin.Workflow.Tables
use agentic_fraud_decisionin.Workflow.Tables.{Store, StepStatus, RunStatus}
use agentic_fraud_decisionin.Workflow.Store.{
  StoreError, not_encodable, long_number, start_run, transition, checkpoint_step, finish_run,
  write_outbox,
}
use agentic_fraud_decisionin.Workflow.Registry.{Registry, execute as dispatch}
use agentic_fraud_decisionin.Workflow.Feasibility.{ref_of, guard_of}

-- Why a step was skipped: the skipped steps that it refers to, as often as it does and in that order
-- (the message sorts them as a set), or the guard that is false.
pub data SkipReason : Type 0 where
  depends_on : List ℕ → SkipReason
  guard_false : Str → SkipReason

pub record StepOutcome : Type 0 where
  pub step_number : ℕ
  pub tool_name : Str
  pub status : StepStatus
  pub result : Option Value
  pub error : Option RunError
  pub reason : Option SkipReason

pub record RunResult : Type 0 where
  pub run_id : Str
  pub status : RunStatus
  pub steps : List StepOutcome
  pub error : Option RunError

-- The wording of the messages that a checkpoint keeps, and whether json.dumps encodes the result of a
-- tool. It encodes what came as JSON: the arguments of a plan, the payload, and results kept before.
pub record Texts : Type 0 where
  pub skip_text : SkipReason → Str
  pub error_text : PlanStep → RunError → Str
  pub encodes : Value → Bool

pub record Loop : Type 0 where
  pub store : Store
  pub results : List (ℕ × Value)
  pub skipped : List ℕ
  pub outcomes : List StepOutcome

-- A loop, with the exception that leaves it, or the error that ends it, or none.
abbrev pub Progress : Type 0
Progress = Loop × Result StoreError (Option RunError)

-- results.get(n)
unfoldable pub result_of : ℕ → List (ℕ × Value) → Option Value
result_of n [] = none
result_of n ((k, v) ∷ rs) = if k == n then some v else result_of n rs

abbrev pub source_value : Ref → Fields → List (ℕ × Value) → Result RunError Value
source_value r payload results = elim r.source [
  | trigger ↦ ok (Value.dict payload)
  | step n ↦ elim (result_of n results) [
    | none ↦ err not_run
    | some v ↦ elim v [ Value.null ↦ err not_run | w ↦ ok w ]
  ]
]

abbrev pub field_value : Option Str → Value → Result RunError Value
field_value none src = ok src
field_value (some f) (Value.dict d) = elim (Value.get f d) [ none ↦ err no_field | some v ↦ ok v ]
field_value (some f) _ = err not_addressable

-- _resolve_value, of a text that starts with `$`.
unfoldable pub resolve_ref : Str → Fields → List (ℕ × Value) → Result RunError Value
unfolding result_of
resolve_ref s payload results = elim (parse_ref s) [
  | none ↦ err bad_reference
  | some r ↦
      if int_raises s
      then err bad_reference
      else source_value r payload results >>= field_value r.field
]

unfoldable pub resolve_value : Value → Fields → List (ℕ × Value) → Result RunError Value
unfolding resolve_ref
resolve_value v payload results = elim (ref_of v) [
  | none ↦ ok v
  | some s ↦ resolve_ref s payload results
]

unfoldable pub resolve_args : Fields → Fields → List (ℕ × Value) → Result RunError Fields
resolve_args empty payload results = ok empty
resolve_args (entry k v rest) payload results =
    let others = resolve_args rest payload results in
    resolve_value v payload results >>= λ w. others >>= λ ws. ok (entry k w ws)

-- The step number of a `$step_N` reference, which `_add` adds unless it raises.
unfoldable pub step_refs : Str → List ℕ
step_refs s = elim (parse_ref s) [
  | none ↦ []
  | some r ↦ if int_raises s then [] else elim r.source [ trigger ↦ [] | step n ↦ n ∷ [] ]
]

-- An argument on which `_add` raises; in a guard the exception is caught.
unfoldable pub args_raise : Fields → Bool
args_raise empty = false
args_raise (entry k v rest) = elim (ref_of v) [
  | none ↦ args_raise rest
  | some s ↦ int_raises s || args_raise rest
]

unfoldable pub arg_refs : Fields → List ℕ
unfolding step_refs
arg_refs empty = []
arg_refs (entry k v rest) = elim (ref_of v) [
  | none ↦ arg_refs rest
  | some s ↦ step_refs s ++ arg_refs rest
]

-- sorted(plan.steps, key=step_number), which is stable.
abbrev pub sort_steps : List PlanStep → List PlanStep
sort_steps = sort_by (λ s. s.step_number)

-- _referenced_steps
unfoldable pub referenced_steps : Numerics → PlanStep → List ℕ
unfolding arg_refs step_refs
referenced_steps num s = arg_refs s.args ++ elim (guard_of s) [
  | none ↦ []
  | some w ↦ elim (parse_condition num w) [ err e ↦ [] | ok c ↦ step_refs c.ref ]
]

-- The messages that a tool sent, written one after the other.
unfoldable pub deliver : Store → List (Str × Fields) → Store
deliver s [] = s
deliver s ((c, p) ∷ ms) = deliver (write_outbox s c p) ms

abbrev pub outcome :
    PlanStep → StepStatus → Option Value → Option RunError → Option SkipReason → StepOutcome
outcome s status result error reason = record {
  step_number = s.step_number;
  tool_name = s.tool_name;
  status = status;
  result = result;
  error = error;
  reason = reason;
}

abbrev pub run_status : Option RunError → RunStatus
run_status none = RunStatus.completed
run_status (some e) = RunStatus.failed

abbrev pub end_state : Option RunError → State.WorkflowState
end_state none = State.WorkflowState.completed
end_state (some e) = State.WorkflowState.failed

abbrev pub start : Store → Loop
start s = record { store = s; results = []; skipped = []; outcomes = [] }

module _ (num : Numerics) (texts : Texts) (registry : Registry) where
  unfoldable pub skip : Str → Loop → PlanStep → SkipReason → Loop
  skip run_id l s reason = record l {
    store =
        checkpoint_step l.store run_id s.step_number s.tool_name s.args
          (Value.dict (entry (codes "skipped") (Value.str (texts.skip_text reason)) empty))
          StepStatus.skipped;
    skipped = s.step_number ∷ l.skipped;
    outcomes = l.outcomes ++ outcome s StepStatus.skipped none none (some reason) ∷ [];
  }

  unfoldable pub fail : Str → Loop → PlanStep → RunError → Progress
  fail run_id l s e = (
    record l {
      store =
          checkpoint_step l.store run_id s.step_number s.tool_name s.args
            (Value.dict (entry (codes "error") (Value.str (texts.error_text s e)) empty))
            StepStatus.error;
      outcomes = l.outcomes ++ outcome s StepStatus.error none (some e) none ∷ [];
    },
    ok (some e),
  )

  unfoldable pub succeed : Str → Loop → PlanStep → Fields → Value → Loop
  succeed run_id l s resolved v = record l {
    store = checkpoint_step l.store run_id s.step_number s.tool_name resolved v StepStatus.ok_;
    results = (s.step_number, v) ∷ l.results;
    outcomes = l.outcomes ++ outcome s StepStatus.ok_ (some v) none none ∷ [];
  }

  -- (c) resolve the arguments and dispatch through the registry.
  unfoldable pub perform : Str → Fields → Loop → PlanStep → Progress
  unfolding fail succeed
  perform run_id payload l s = elim (resolve_args s.args payload l.results) [
    | err e ↦ fail run_id l s e
    | ok resolved ↦
        let r = dispatch registry l.store.calls s.tool_name resolved in
        let sent : Loop = record l {
          store = record (deliver l.store r.sent) { calls = suc l.store.calls };
        } in
        elim r.result [
          | err e ↦ fail run_id sent s e
          | ok v ↦
              if texts.encodes v
              then (succeed run_id sent s resolved v, ok none)
              else (sent, err not_encodable)
        ]
  ]

  -- The value of a guard: parse, resolve its reference, compare.
  unfoldable pub guard_passes : Str → Fields → List (ℕ × Value) → Result RunError Bool
  guard_passes w payload results = do
    c ← parse_condition num w
    v ← resolve_value (Value.str c.ref) payload results
    compare num v c.op c.literal

  -- The skipped steps that this one depends on.
  abbrev pub blocked : Loop → PlanStep → List ℕ
  blocked l s = filter (λ k. any (λ m. m == k) l.skipped) (referenced_steps num s)

  unfoldable pub run_step : Str → Fields → Loop → PlanStep → Progress
  unfolding skip fail
  run_step run_id payload l s =
      if args_raise s.args then (l, err long_number) else elim (blocked l s) [
        | k ∷ ks ↦ (skip run_id l s (depends_on (k ∷ ks)), ok none)
        | [] ↦ elim (guard_of s) [
          | none ↦ perform run_id payload l s
          | some w ↦ elim (guard_passes w payload l.results) [
            | err e ↦ fail run_id l s e
            | ok passed ↦
                if passed
                then perform run_id payload l s
                else (skip run_id l s (guard_false w), ok none)
          ]
        ]
      ]

  unfoldable pub run_steps : Str → Fields → Loop → List PlanStep → Progress
  run_steps run_id payload l [] = (l, ok none)
  run_steps run_id payload l (s ∷ ss) =
      let (l', failure) = run_step run_id payload l s in
      elim failure [
        | err x ↦ (l', err x)
        | ok f ↦ elim f [ none ↦ run_steps run_id payload l' ss | some e ↦ (l', ok (some e)) ]
      ]

  -- finish_run, then the workflow's own transition.
  unfoldable pub finish : Str → Str → Loop → Option RunError → Result StoreError RunResult × Store
  finish wid run_id l failure =
      let s = finish_run l.store run_id (run_status failure) in
      elim (transition s wid (end_state failure)) [
        | err e ↦ (err e, s)
        | ok s' ↦ (
          ok (record {
            run_id = run_id;
            status = run_status failure;
            steps = l.outcomes;
            error = failure;
          }),
          s',
        )
      ]

  unfoldable pub execute :
      Store → Str → WorkflowPlan → Fields → Option Str → Result StoreError RunResult × Store
  unfolding finish
  execute store wid plan payload key = elim (start_run store wid key) [
    | err e ↦ (err e, store)
    | ok (run_id, opened) ↦ elim (transition opened wid State.WorkflowState.running) [
      | err e ↦ (err e, opened)
      | ok started ↦
          let (l, failure) = run_steps run_id payload (start started) (sort_steps plan.steps) in
          elim failure [ err x ↦ (err x, l.store) | ok f ↦ finish wid run_id l f ]
    ]
  ]
