-- ===== src/Observability/Audit.antt =====
-- AgentTraceWriter of fraud_platform/observability/audit_logger.py: the rows of
-- FACT_AGENT_TRACES that a run's messages become.
pub mod Laws
mod Tests
use agentic_fraud_decisionin.Common.{
  ℕ, zero, suc, Str, codes, str_eq, Bool, true, false, Option, none, some, List, [], ◌∷◌, ◌++◌, map,
  length, if◌then◌else◌,
}
use agentic_fraud_decisionin.Common.Value.{
  Value, str, list, dict, null, bool, int, float, Items, nil, cons, Fields, empty, entry, get,
}
use agentic_fraud_decisionin.Common.Words.{join}
use agentic_fraud_decisionin.Observability.Redaction.{Codec, TraceRow, redact_rows}

-- The classes of messages that the writer tells apart.
pub data Role : Type 0 where
  human : Role
  tool : Role
  ai : Role
  other_message : Role

pub record ToolCall : Type 0 where
  pub name : Str
  pub args : Value

pub record Message : Type 0 where
  pub role : Role
  pub name : Option Str
  pub tool_calls : List ToolCall
  pub content : Value
  pub usage_metadata : Option Fields

pub data StepType : Type 0 where
  input : StepType
  tool_call : StepType
  tool_output : StepType
  handoff : StepType
  reasoning : StepType
  other : StepType

-- A row; `texts` are the columns tool_output, tool_input and reasoning_text.
pub record StepRow : Type 0 where
  pub trace_id : Str
  pub decision_id : Str
  pub step_number : ℕ
  pub agent_name : Str
  pub step_type : StepType
  pub tool_name : Option Str
  pub texts : TraceRow
  pub tokens_used : Option Value

abbrev pub is_orchestrator : Option Str → Bool
is_orchestrator none = false
is_orchestrator (some name) = str_eq name (codes "orchestrator")

abbrev pub ai_step : List ToolCall → Option Str → StepType
ai_step (call ∷ calls) name = tool_call
ai_step [] name = if is_orchestrator name then handoff else reasoning

abbrev pub role_step : Role → Message → StepType
role_step human msg = input
role_step tool msg = tool_output
role_step ai msg = ai_step msg.tool_calls msg.name
role_step other_message msg = other

-- `_classify_step`
unfoldable pub classify_step : Message → StepType
classify_step msg = role_step msg.role msg

-- `name or default`
abbrev pub name_or : Str → Option Str → Str
name_or default none = default
name_or default (some []) = default
name_or default (some (c ∷ s)) = c ∷ s

abbrev pub agent_of : StepType → Option Str → Str
agent_of input name = name_or (codes "user") name
agent_of step name = name_or (codes "single_agent") name

abbrev pub tool_of : StepType → Message → Option Str
tool_of tool_call msg = some (join (codes ", ") (map (λ c. c.name) msg.tool_calls))
tool_of tool_output msg = msg.name
tool_of step msg = none

abbrev pub call_items : List ToolCall → Items
call_items [] = nil
call_items (c ∷ calls) =
    cons (dict (entry (codes "name") (str c.name) (entry (codes "args") c.args empty)))
      (call_items calls)

-- `usage.get("total_tokens") if usage else None`
abbrev pub tokens_of : Option Fields → Option Value
tokens_of none = none
tokens_of (some usage) = get (codes "total_tokens") usage

module _ (codec : Codec) where
  abbrev pub content_text : Value → Str
  content_text (str s) = s
  content_text v = codec.dumps v

  abbrev pub texts_of : StepType → Message → TraceRow
  texts_of tool_call msg = record {
    tool_output = none;
    tool_input = some (codec.dumps (list (call_items msg.tool_calls)));
    reasoning_text = none;
  }
  texts_of tool_output msg = record {
    tool_output =
        some (codec.dumps (dict (entry (codes "content") (str (codec.to_str msg.content)) empty)));
    tool_input = none;
    reasoning_text = none;
  }
  texts_of other msg = record { tool_output = none; tool_input = none; reasoning_text = none }
  texts_of step msg = record {
    tool_output = none;
    tool_input = none;
    reasoning_text = some (content_text msg.content);
  }

  -- `uuid` are the identifiers that uuid4 returns, one for each row.
  module _ (uuid : ℕ → Str) (decision_id : Str) where
    -- `_row_for_message`
    unfoldable pub row_for_message : ℕ → Message → StepRow
    row_for_message step_number msg = record {
      trace_id = uuid step_number;
      decision_id = decision_id;
      step_number = step_number;
      agent_name = agent_of (classify_step msg) msg.name;
      step_type = classify_step msg;
      tool_name = tool_of (classify_step msg) msg;
      texts = texts_of (classify_step msg) msg;
      tokens_used = tokens_of msg.usage_metadata;
    }

    unfoldable pub number_rows : ℕ → List Message → List StepRow
    number_rows i [] = []
    number_rows i (msg ∷ messages) = row_for_message i msg ∷ number_rows (suc i) messages

-- The redactor rewrites the rows where they stand.
unfoldable pub put_texts : List StepRow → List TraceRow → List StepRow
put_texts (r ∷ rows) (t ∷ texts) = record r { texts = t } ∷ put_texts rows texts
put_texts [] texts = []
put_texts (r ∷ rows) [] = []

unfoldable pub redact : Codec → List Str → List StepRow → List StepRow
redact codec pii_keys rows = put_texts rows (redact_rows codec pii_keys (map (λ r. r.texts) rows))

-- The INSERT and its commit, where `accepted` says whether the warehouse takes them; the number of
-- rows, or none where the failure is raised on after the rollback.
abbrev pub insert : Bool → List StepRow → List StepRow → List StepRow × Option ℕ
insert accepted [] table = (table, some 0)
insert accepted (r ∷ rows) table =
    if accepted then (table ++ (r ∷ rows), some (length (r ∷ rows))) else (table, none)

-- `write_trace`
unfoldable pub write_trace :
    Codec
    → List Str
    → (ℕ → Str)
    → Bool
    → Str
    → List Message
    → List StepRow
    → List StepRow × Option ℕ
write_trace codec pii_keys uuid accepted decision_id messages table =
    insert accepted (redact codec pii_keys (number_rows codec uuid decision_id 0 messages)) table
