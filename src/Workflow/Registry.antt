-- ===== src/Workflow/Registry.antt =====
-- ToolRegistry of fraud_platform/workflow_engine/registry.py. A tool's argument schema is its field
-- list and the schema library's validation, a parameter of each tool; its body is what it sends to
-- the outbox and what it returns, for the number of the dispatch and the validated arguments.
use agentic_fraud_decisionin.Common.{
  ℕ, Str, str_eq, Bool, Option, none, some, List, [], ◌∷◌, ◌++◌, any, if◌then◌else◌,
}
use agentic_fraud_decisionin.Common.Value.{Value, Fields}
use agentic_fraud_decisionin.Common.Result.{Result, err}
use agentic_fraud_decisionin.Workflow.Conditions.{RunError, unknown_tool, bad_args}

pub data Annotation : Type 0 where
  str int float bool dict list other : Annotation

pub record Schema : Type 0 where
  pub model_fields : List (Str × Annotation)
  pub validate : Fields → Option Fields

-- What one run of a tool does: messages written to the outbox, and its result.
pub record ToolRun : Type 0 where
  pub sent : List (Str × Fields)
  pub result : Result RunError Value

pub record ToolSpec : Type 0 where
  pub name : Str
  pub description : Str
  pub args_schema : Schema
  pub category : Str
  pub body : ℕ → Fields → ToolRun
  pub read_only : Bool
  pub requires_approval : Bool

-- self._tools, in the order of registration.
abbrev pub Registry : Type 0
Registry = List ToolSpec

unfoldable pub get : Registry → Str → Option ToolSpec
get [] name = none
get (t ∷ ts) name = if str_eq t.name name then some t else get ts name

abbrev pub is_registered : Registry → Str → Bool
is_registered r name = any (λ t. str_eq t.name name) r

-- `none` is the ValueError of a second registration under one name.
unfoldable pub register : Registry → ToolSpec → Option Registry
register r spec = if is_registered r spec.name then none else some (r ++ spec ∷ [])

-- The one dispatch path: a registered tool, validated arguments, then the body.
unfoldable pub execute : Registry → ℕ → Str → Fields → ToolRun
unfolding get
execute r call name args = elim (get r name) [
  | none ↦ record { sent = []; result = err unknown_tool }
  | some spec ↦ elim (spec.args_schema.validate args) [
    | none ↦ record { sent = []; result = err bad_args }
    | some validated ↦ spec.body call validated
  ]
]
