-- ===== src/Observability/Audit/Laws.antt =====
-- The trace that is stored for a decision, against the messages of its run.
use mathlib.Core.List.{append-nil}
use agentic_fraud_decisionin.Common.{
  ℕ, suc, Str, ◌≡◌, refl, codes, ◌∙◌, Bool, true, false, Option, none, some, List, [], ◌∷◌, ◌++◌,
  map, length, arith,
}
use agentic_fraud_decisionin.Common.Words.{join}
use agentic_fraud_decisionin.Observability.Redaction.{
  Codec, TraceRow, rewrite_field, rewrite_row, redact_rows, scrub_rows, collected,
  redact_structured, scrub_literals,
}
use agentic_fraud_decisionin.Observability.Audit.{
  Message, StepType, StepRow, input, tool_call, tool_output, handoff, reasoning, other,
  classify_step, tool_of, texts_of, row_for_message, number_rows, put_texts, redact, insert,
  write_trace,
}

abbrev pub is_none : Option Str → Bool
is_none none = true
is_none (some s) = false

-- Which of the columns tool_output, tool_input and reasoning_text are NULL in a step of this type.
abbrev pub null_texts : StepType → Bool × Bool × Bool
null_texts tool_call = (true, false, true)
null_texts tool_output = (false, true, true)
null_texts other = (true, true, true)
null_texts step = (true, true, false)

abbrev nulls : TraceRow → Bool × Bool × Bool
nulls t = (is_none t.tool_output, is_none t.tool_input, is_none t.reasoning_text)

-- The tool that a row names: the tools called, the tool that answered, or none.
abbrev pub named_tool : StepType → Message → Option Str
named_tool tool_call m = some (join (codes ", ") (map (λ c. c.name) m.tool_calls))
named_tool tool_output m = m.name
named_tool input m = none
named_tool handoff m = none
named_tool reasoning m = none
named_tool other m = none

-- The rows of these messages, one for each in their order, numbered from `i`.
unfoldable pub IsTrail : Str → ℕ → List Message → List StepRow → Type 0
IsTrail decision i [] [] = Unit
IsTrail decision i [] (r ∷ rows) = ⊥
IsTrail decision i (m ∷ messages) [] = ⊥
IsTrail decision i (m ∷ messages) (r ∷ rows) =
    (r.step_number ≡ i)
    × (r.decision_id ≡ decision)
    × (r.step_type ≡ classify_step m)
    × (r.tool_name ≡ named_tool (classify_step m) m)
    × (nulls r.texts ≡ null_texts (classify_step m))
    × IsTrail decision (suc i) messages rows

is_none-rewrite_field : (f : Str → Str) (t : Option Str) → is_none (rewrite_field f t) ≡ is_none t
is_none-rewrite_field f none = refl
is_none-rewrite_field f (some []) = refl
is_none-rewrite_field f (some (c ∷ s)) = refl

nulls-rewrite_row : (f : Str → Str) (t : TraceRow) → nulls (rewrite_row f t) ≡ nulls t
nulls-rewrite_row f t =
    rw
      (
        is_none-rewrite_field f t.tool_output,
        is_none-rewrite_field f t.tool_input,
        is_none-rewrite_field f t.reasoning_text,
      )
      refl

nulls-texts_of :
    (codec : Codec) (step : StepType) (m : Message)
    → nulls (texts_of codec step m) ≡ null_texts step
nulls-texts_of codec input m = refl
nulls-texts_of codec tool_call m = refl
nulls-texts_of codec tool_output m = refl
nulls-texts_of codec handoff m = refl
nulls-texts_of codec reasoning m = refl
nulls-texts_of codec other m = refl

tool_of-named_tool : (step : StepType) (m : Message) → tool_of step m ≡ named_tool step m
tool_of-named_tool input m = refl
tool_of-named_tool tool_call m = refl
tool_of-named_tool tool_output m = refl
tool_of-named_tool handoff m = refl
tool_of-named_tool reasoning m = refl
tool_of-named_tool other m = refl

module _ (decision : Str) where
  -- A field-wise rewriting of the texts keeps the trail.
  put_texts-rewrite_row :
      (f : Str → Str) (i : ℕ) (messages : List Message) (rows : List StepRow)
      (texts : List TraceRow)
      → IsTrail decision i messages (put_texts rows texts)
      → IsTrail decision i messages (put_texts rows (map (rewrite_row f) texts))
  unfolding IsTrail put_texts
  put_texts-rewrite_row f i [] [] texts h = h
  put_texts-rewrite_row f i (m ∷ messages) [] texts h = h
  put_texts-rewrite_row f i [] (r ∷ rows) [] h = h
  put_texts-rewrite_row f i (m ∷ messages) (r ∷ rows) [] h = h
  put_texts-rewrite_row f i [] (r ∷ rows) (t ∷ texts) h = elim h [ ]
  put_texts-rewrite_row f i (m ∷ messages) (r ∷ rows) (t ∷ texts) (n, d, s, o, p, rest) = (
    n,
    d,
    s,
    o,
    nulls-rewrite_row f t ∙ p,
    put_texts-rewrite_row f (suc i) messages rows texts rest,
  )

  number_rows-IsTrail :
      (codec : Codec) (uuid : ℕ → Str) (i : ℕ) (messages : List Message)
      → IsTrail decision i messages (
          put_texts
            (number_rows codec uuid decision i messages)
            (map (λ r. r.texts) (number_rows codec uuid decision i messages)))
  unfolding IsTrail put_texts number_rows row_for_message
  number_rows-IsTrail codec uuid i [] = tt
  number_rows-IsTrail codec uuid i (m ∷ messages) = (
    refl,
    refl,
    refl,
    tool_of-named_tool (classify_step m) m,
    nulls-texts_of codec (classify_step m) m,
    number_rows-IsTrail codec uuid (suc i) messages,
  )

  scrub_rows-IsTrail :
      (codec : Codec) (values : List Str) (messages : List Message) (rows : List StepRow)
      (texts : List TraceRow)
      → IsTrail decision 0 messages (put_texts rows texts)
      → IsTrail decision 0 messages (put_texts rows (scrub_rows codec values texts))
  scrub_rows-IsTrail codec [] messages rows texts h = h
  scrub_rows-IsTrail codec (v ∷ vs) messages rows texts h =
      put_texts-rewrite_row (λ s. scrub_literals codec s (v ∷ vs)) 0 messages rows texts h

  redact-IsTrail :
      (codec : Codec) (pii_keys : List Str) (uuid : ℕ → Str) (messages : List Message)
      → IsTrail decision 0 messages
          (redact codec pii_keys (number_rows codec uuid decision 0 messages))
  unfolding redact redact_rows
  redact-IsTrail codec pii_keys uuid messages =
      let rows = number_rows codec uuid decision 0 messages in
      let texts = map (λ r. r.texts) rows in
      let hash : Str → Str = λ s. (redact_structured codec pii_keys s).0 in
      scrub_rows-IsTrail codec (collected codec pii_keys texts) messages rows _ (
        put_texts-rewrite_row hash 0 messages rows texts
          (number_rows-IsTrail codec uuid 0 messages))

length-IsTrail :
    (decision : Str) (i : ℕ) (messages : List Message) (rows : List StepRow)
    → IsTrail decision i messages rows
    → length rows ≡ length messages
unfolding IsTrail
length-IsTrail decision i [] [] h = refl
length-IsTrail decision i [] (r ∷ rows) h = elim h [ ]
length-IsTrail decision i (m ∷ messages) [] h = elim h [ ]
length-IsTrail decision i (m ∷ messages) (r ∷ rows) (n, d, s, o, p, rest) =
    omega (arith, length-IsTrail decision (suc i) messages rows rest)

insert_lem :
    (rows table : List StepRow) → insert true rows table ≡ (table ++ rows, some (length rows))
insert_lem [] table = rw (append-nil table) refl
insert_lem (r ∷ rows) table = refl

-- Where the warehouse takes the rows, a run's trace is added to the table as one row for each message
-- in the order of the messages, numbered from 0, and their number is returned. A row has the
-- decision's identifier and the message's step type. It names the tools called in a TOOL_CALL, the
-- tool that answered in a TOOL_OUTPUT, and none in any other step. A TOOL_CALL has only tool_input
-- of the three text columns, a TOOL_OUTPUT only tool_output, a message of no known kind none, and
-- every other step only reasoning_text.
pub write_trace-IsStored :
    (codec : Codec) (pii_keys : List Str) (uuid : ℕ → Str) (decision : Str)
    (messages : List Message) (table : List StepRow)
    → (rows : List StepRow) × (write_trace codec pii_keys uuid true decision messages table
        ≡ (table ++ rows, some (length messages)))
      × IsTrail decision 0 messages rows
unfolding write_trace
write_trace-IsStored codec pii_keys uuid decision messages table =
    let trail = redact-IsTrail decision codec pii_keys uuid messages in
    let rows = redact codec pii_keys (number_rows codec uuid decision 0 messages) in
    (rows, insert_lem rows table ∙ rw (length-IsTrail decision 0 messages rows trail) refl, trail)
