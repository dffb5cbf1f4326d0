-- ===== src/Observability/Audit/Tests.antt =====
-- The trace of a short run.
use agentic_fraud_decisionin.Common.{
  ℕ, Str, codes, str_eq, ◌≡◌, refl, true, Option, none, some, List, [], ◌∷◌, ◌++◌, map,
}
use agentic_fraud_decisionin.Common.Value.{null, str}
use agentic_fraud_decisionin.Common.Words.{join}
use agentic_fraud_decisionin.Observability.Redaction.{
  Codec, default_pii_keys, redact_rows, redact_structured,
}
use agentic_fraud_decisionin.Observability.Audit.{
  Role, human, tool, ai, Message, StepType, StepRow, input, tool_call, handoff, classify_step,
  row_for_message, number_rows, put_texts, redact, write_trace,
}
use agentic_fraud_decisionin.Observability.Audit.Laws.{IsTrail, write_trace-IsStored}

-- No text is JSON.
abbrev codec : Codec
codec = record {
  loads = λ s. none;
  dumps = λ v. codes "printed";
  to_str = λ v. codes "shown";
  digest = λ s. codes "0123456789ab";
}

abbrev uuid : ℕ → Str
uuid i = codes "t" ++ (i ∷ [])

abbrev message : Role → Option Str → Str → Message
message role name content = record {
  role = role;
  name = name;
  tool_calls = [];
  content = str content;
  usage_metadata = none;
}

abbrev lookup : Message
lookup = record (message ai none []) {
  tool_calls =
      record { name = codes "get_user_history"; args = null }
      ∷ record { name = codes "get_features"; args = null }
      ∷ [];
}

abbrev messages : List Message
messages =
    message human none (codes "score t1")
    ∷ message ai (some (codes "orchestrator")) (codes "to risk")
    ∷ lookup
    ∷ message tool (some (codes "get_user_history")) (codes "3 logins")
    ∷ []

abbrev shown : StepRow → Str × StepType
shown r = (r.agent_name, r.step_type)

step_types :
    map shown (redact codec default_pii_keys (number_rows codec uuid (codes "d") 0 messages))
    ≡ (codes "user", input)
      ∷ (codes "orchestrator", handoff)
      ∷ (codes "single_agent", tool_call)
      ∷ (codes "get_user_history", StepType.tool_output)
      ∷ []
unfolding redact redact_rows redact_structured number_rows row_for_message classify_step put_texts
    str_eq
step_types = refl

tool_names :
    (row_for_message codec uuid (codes "d") 2 lookup).tool_name
    ≡ some (codes "get_user_history, get_features")
unfolding row_for_message classify_step join
tool_names = refl

write_trace-IsStored_example :
    (rows : List StepRow) × (write_trace codec default_pii_keys uuid true (codes "d") messages []
      ≡ (rows, some 4))
    × IsTrail (codes "d") 0 messages rows
write_trace-IsStored_example =
    write_trace-IsStored codec default_pii_keys uuid (codes "d") messages []
