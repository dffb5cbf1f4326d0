-- ===== src/Governance/Hitl.antt =====
-- HITLHandler of fraud_platform/governance/hitl_handler.py over the table FACT_DECISIONS, whose
-- three SQL statements are the list operations below. The connector is an argument: `true` if the
-- statement and its commit go through, `false` if it raises, which rolls back. The generated id
-- and the clock reading of a call are arguments too.
pub mod Review
pub mod Queue
pub mod Rows
use agentic_fraud_decisionin.Common.{
  ℕ, suc, ◌+◌, Str, codes, str_eq, Bool, true, false, not, ◌&&◌, Option, none, some, List, [], ◌∷◌,
  ◌++◌, map, filter, take, leb, if◌then◌else◌, ◌==◌,
}
use agentic_fraud_decisionin.Common.Sort.{sort_by}
use agentic_fraud_decisionin.Common.Value.{Value, str}
use agentic_fraud_decisionin.Common.Result.{Result, ok, err}
use agentic_fraud_decisionin.Db.Validators.{
  Error, validate_decision_record, validate_review_outcome,
}

-- A row of FACT_DECISIONS, in its columns' order; the evaluation columns belong to observability.
pub record Row : Type 0 where
  pub decision_id : Str
  pub transaction_id : Str
  pub user_id : Str
  pub snapshot_id : Option Str
  pub decision : Value
  pub confidence_score : Value
  pub reasoning_text : Value
  pub identified_pattern : Value
  pub governance_tier : Str
  pub decided_at : ℕ
  pub processing_latency_ms : ℕ
  pub human_reviewed : Bool
  pub human_reviewer_id : Option Str
  pub human_outcome : Option Value
  pub human_reviewed_at : Option ℕ
  pub human_notes : Option Str

abbrev pub Table : Type 0
Table = List Row

-- The fields of a finished agent run that are persisted.
pub record FinalState : Type 0 where
  pub transaction_id : Str
  pub user_id : Str
  pub decision : Value
  pub confidence_score : Value
  pub reasoning_text : Value
  pub identified_pattern : Value

pub data Failure : Type 0 where
  invalid_record : Error → Failure
  database : Failure
  review_conflict : Failure

abbrev pub new_row : FinalState → Str → ℕ → Option Str → Str → ℕ → Row
new_row s tier latency snapshot id now = record {
  decision_id = id;
  transaction_id = s.transaction_id;
  user_id = s.user_id;
  snapshot_id = snapshot;
  decision = s.decision;
  confidence_score = s.confidence_score;
  reasoning_text = s.reasoning_text;
  identified_pattern = s.identified_pattern;
  governance_tier = tier;
  decided_at = now;
  processing_latency_ms = latency;
  human_reviewed = false;
  human_reviewer_id = none;
  human_outcome = none;
  human_reviewed_at = none;
  human_notes = none;
}

unfoldable pub persist_decision :
    Table → FinalState → Str → ℕ → Option Str → Str → ℕ → Bool → Result Failure Str × Table
persist_decision t s tier latency snapshot id now connector =
    elim (validate_decision_record s.decision s.confidence_score s.identified_pattern
      (some (str tier))) [
        | err e ↦ (err (invalid_record e), t)
        | ok _ ↦
            if connector
            then (ok id, t ++ new_row s tier latency snapshot id now ∷ [])
            else (err database, t)
      ]

-- WHERE governance_tier = 'SUGGEST' AND human_reviewed = FALSE
abbrev pub is_pending : Row → Bool
is_pending r = str_eq r.governance_tier (codes "SUGGEST") && not r.human_reviewed

-- ORDER BY decided_at ASC
abbrev pub order_by_age : Table → Table
order_by_age = sort_by (λ r. r.decided_at)

-- The columns that the queue's SELECT reads.
pub record ReviewItem : Type 0 where
  pub decision_id : Str
  pub transaction_id : Str
  pub user_id : Str
  pub decision : Value
  pub confidence_score : Value
  pub identified_pattern : Value
  pub reasoning_text : Value
  pub decided_at : ℕ

abbrev pub to_item : Row → ReviewItem
to_item r = record {
  decision_id = r.decision_id;
  transaction_id = r.transaction_id;
  user_id = r.user_id;
  decision = r.decision;
  confidence_score = r.confidence_score;
  identified_pattern = r.identified_pattern;
  reasoning_text = r.reasoning_text;
  decided_at = r.decided_at;
}

unfoldable pub pending_reviews : Table → ℕ → List ReviewItem
pending_reviews t limit = map to_item (take limit (order_by_age (filter is_pending t)))

-- WHERE decision_id = id AND human_reviewed = FALSE
abbrev pub is_reviewable : Str → Row → Bool
is_reviewable id r = str_eq r.decision_id id && not r.human_reviewed

abbrev pub reviewed : Str → Value → Str → ℕ → Row → Row
reviewed reviewer outcome notes now r = record r {
  human_reviewed = true;
  human_reviewer_id = some reviewer;
  human_outcome = some outcome;
  human_reviewed_at = some now;
  human_notes = some notes;
}

-- UPDATE … SET … WHERE: the new table and the count of rows changed.
unfoldable pub update_where : (Row → Bool) → (Row → Row) → Table → Table × ℕ
update_where p f [] = ([], 0)
update_where p f (r ∷ rs) =
    let (rs', n) = update_where p f rs in if p r then (f r ∷ rs', suc n) else (r ∷ rs', n)

unfoldable pub record_review :
    Table → Str → Str → Value → Str → ℕ → Bool → Result Failure (Unit {0}) × Table
record_review t id reviewer outcome notes now connector =
    elim (validate_review_outcome outcome (codes "human_outcome")) [
      | err e ↦ (err (invalid_record e), t)
      | ok _ ↦
          if connector
          then (let (t', affected) =
                update_where (is_reviewable id) (reviewed reviewer outcome notes now) t in
              if affected == 0 then (err review_conflict, t) else (ok tt, t'))
          else (err database, t)
    ]

-- The calls of a session, with what the connector, the id generator and the clock give them.
pub data Call : Type 0 where
  persist : FinalState → Str → ℕ → Option Str → Str → ℕ → Bool → Call
  review : Str → Str → Value → Str → ℕ → Bool → Call

unfoldable pub step : Table → Call → Table
unfolding persist_decision record_review
step t (persist s tier latency snapshot id now connector) =
    (persist_decision t s tier latency snapshot id now connector).1
step t (review id reviewer outcome notes now connector) =
    (record_review t id reviewer outcome notes now connector).1

unfoldable pub run : Table → List Call → Table
run t [] = t
run t (c ∷ cs) = run (step t c) cs
