-- ===== src/Workflow/Feasibility.antt =====
-- check_plan of fraud_platform/workflow_engine/feasibility.py. An error is its message's kind and
-- the step that it names; the step limit and the schedule's zone database are parameters.
pub mod Attended
pub mod Sound
pub mod Tests
use agentic_fraud_decisionin.Common.{
  ℕ, Str, codes, str_eq, mem_str, Bool, true, false, not, ◌&&◌, ◌||◌, is_some, Option, none, some,
  List, [], ◌∷◌, ◌++◌, map, any, length, ltb, leb, ◌==◌, if◌then◌else◌,
}
use agentic_fraud_decisionin.Common.Int.{pos}
use agentic_fraud_decisionin.Common.Float.{of_int}
use agentic_fraud_decisionin.Common.Value.{Value, Fields, empty, entry, nil}
use agentic_fraud_decisionin.Common.Result.{ok, err}
use agentic_fraud_decisionin.Workflow.Refs.{trigger, step, parse_ref, int_raises, is_ref_text}
use agentic_fraud_decisionin.Workflow.Conditions.{Numerics, parse_condition}
use agentic_fraud_decisionin.Workflow.Plan.{PlanStep, PlannedSchedule, WorkflowPlan}
use agentic_fraud_decisionin.Workflow.Registry.{Registry, Annotation, get}
use agentic_fraud_decisionin.Workflow.Schedule.{build_schedule}

pub data PlanError : Type 0 where
  needs_clarification no_steps too_many_steps invalid_schedule : PlanError
  unknown_tool forbidden_category malformed_reference forward_reference missing_step : ℕ → PlanError
  unknown_arg invalid_args malformed_guard : ℕ → PlanError

pub record Report : Type 0 where
  pub is_ok : Bool
  pub errors : List PlanError
  pub requires_approval : Bool

-- ALLOWED_TOOL_CATEGORIES of fraud_platform/workflow_engine/config.py.
unfoldable pub allowed_tool_categories : List Str
allowed_tool_categories = codes "READ_DATA" ∷ codes "ANALYZE" ∷ codes "NOTIFY" ∷ []

-- _placeholder
unfoldable pub placeholder : Annotation → Value
placeholder Annotation.str = Value.str (codes "x")
placeholder Annotation.int = Value.int (pos 0)
placeholder Annotation.float = Value.float (of_int (pos 0))
placeholder Annotation.bool = Value.bool false
placeholder Annotation.dict = Value.dict empty
placeholder Annotation.list = Value.list nil
placeholder Annotation.other = Value.str (codes "x")

-- _check_ref
unfoldable pub check_ref : Str → ℕ → List ℕ → List PlanError
check_ref value n valid = elim (parse_ref value) [
  | none ↦ malformed_reference n ∷ []
  | some r ↦ elim r.source [
    | trigger ↦ []
    | step k ↦
        if leb n k
        then forward_reference n ∷ []
        else if any (λ m. m == k) valid
        then []
        else missing_step n ∷ []
  ]
]

unfoldable pub annotation_of : Str → List (Str × Annotation) → Option Annotation
annotation_of key [] = none
annotation_of key ((k, a) ∷ fs) = if str_eq k key then some a else annotation_of key fs

-- isinstance(val, str) and val.startswith("$")
abbrev pub ref_of : Value → Option Str
ref_of (Value.str s) = if is_ref_text s then some s else none
ref_of _ = none

-- The arguments of a step: the errors found, and the candidate handed to the schema.
unfoldable pub check_args : ℕ → List ℕ → List (Str × Annotation) → Fields → List PlanError × Fields
unfolding check_ref annotation_of placeholder
check_args n valid fields empty = ([], empty)
check_args n valid fields (entry key val rest) =
    let (errors, candidate) = check_args n valid fields rest in
    elim (annotation_of key fields) [
      | none ↦ (unknown_arg n ∷ errors, candidate)
      | some a ↦ elim (ref_of val) [
        | some s ↦ (check_ref s n valid ++ errors, entry key (placeholder a) candidate)
        | none ↦ (errors, entry key val candidate)
      ]
    ]

abbrev pub when_true {ℓ} : {A : Type ℓ} → Bool → A → List A
when_true true a = a ∷ []
when_true false a = []

-- `if step.when`: a guard that is there and not the empty text.
abbrev pub guard_of : PlanStep → Option Str
guard_of s = elim s.when [ none ↦ none | some w ↦ elim w [ [] ↦ none | c ∷ t ↦ some (c ∷ t) ] ]

module _ (num : Numerics) where
  unfoldable pub check_guard : ℕ → List ℕ → Option Str → List PlanError
  unfolding check_ref
  check_guard n valid none = []
  check_guard n valid (some w) = elim (parse_condition num w) [
    | err e ↦ malformed_guard n ∷ []
    | ok c ↦ check_ref c.ref n valid
  ]

  unfoldable pub check_step : Registry → List ℕ → PlanStep → List PlanError × Bool
  unfolding check_args check_guard get
  check_step registry valid s = elim (get registry s.tool_name) [
    | none ↦ (unknown_tool s.step_number ∷ [], false)
    | some spec ↦
        let n = s.step_number in
        let (errors, candidate) = check_args n valid spec.args_schema.model_fields s.args in
        let accepted : Bool = elim (spec.args_schema.validate candidate) [
          | none ↦ false
          | some v ↦ true
        ] in
        (
          when_true (not (mem_str spec.category allowed_tool_categories)) (forbidden_category n)
              ++ errors
              ++ when_true (not accepted) (invalid_args n)
              ++ check_guard n valid (guard_of s),
          spec.requires_approval,
        )
  ]

  unfoldable pub check_steps : Registry → List ℕ → List PlanStep → List PlanError × Bool
  unfolding check_step
  check_steps registry valid [] = ([], false)
  check_steps registry valid (s ∷ ss) =
      let (e, a) = check_step registry valid s in
      let (es, as_) = check_steps registry valid ss in (e ++ es, a || as_)

  unfoldable pub check_schedule : (Str → Bool) → Option PlannedSchedule → List PlanError
  check_schedule zone_exists none = []
  check_schedule zone_exists (some p) = elim (build_schedule zone_exists p) [
    | ok s ↦ []
    | err f ↦ invalid_schedule ∷ []
  ]

  -- The step has a reference to check whose number int does not accept.
  abbrev pub checked_args_raise : List (Str × Annotation) → Fields → Bool
  checked_args_raise fields empty = false
  checked_args_raise fields (entry key val rest) =
      (is_some (annotation_of key fields)
        && elim (ref_of val) [ none ↦ false | some s ↦ int_raises s ])
      || checked_args_raise fields rest

  abbrev pub guard_raises : Option Str → Bool
  guard_raises none = false
  guard_raises (some w) = elim (parse_condition num w) [ err e ↦ false | ok c ↦ int_raises c.ref ]

  abbrev pub step_raises : Registry → PlanStep → Bool
  step_raises registry s = elim (get registry s.tool_name) [
    | none ↦ false
    | some spec ↦
        checked_args_raise spec.args_schema.model_fields s.args || guard_raises (guard_of s)
  ]

  -- Whether check_plan raises, on a number that int does not accept, instead of returning a report.
  unfoldable pub check_raises : WorkflowPlan → Registry → Bool
  unfolding annotation_of get
  check_raises plan registry = not plan.needs_clarification && any (step_raises registry) plan.steps

  abbrev pub is_empty : List PlanError → Bool
  is_empty [] = true
  is_empty (e ∷ es) = false

  -- The report, where check_raises does not hold.
  unfoldable pub check_plan : ℕ → (Str → Bool) → WorkflowPlan → Registry → Report
  unfolding check_steps check_schedule
  check_plan max_plan_steps zone_exists plan registry =
      if plan.needs_clarification
      then record { is_ok = false; errors = needs_clarification ∷ []; requires_approval = false }
      else elim plan.steps [
        | [] ↦ record { is_ok = false; errors = no_steps ∷ []; requires_approval = false }
        | s ∷ ss ↦
            let valid = map (λ (t : PlanStep). t.step_number) (s ∷ ss) in
            let (errors, approval) = check_steps registry valid (s ∷ ss) in
            let all_errors =
              when_true (ltb max_plan_steps (length (s ∷ ss))) too_many_steps
              ++ errors
              ++ check_schedule zone_exists plan.schedule in
            record {
              is_ok = is_empty all_errors;
              errors = all_errors;
              requires_approval = approval;
            }
      ]
