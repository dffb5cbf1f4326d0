-- ===== src/Governance/Tests.antt =====
-- Concrete runs of fraud_platform/governance, and its theorems at concrete inputs.
use agentic_fraud_decisionin.Common.{
  ℕ, ◌^◌, ◌≤◌, ◌≡◌, refl, Str, codes, str_eq, str_ne, true, none, some, [], ◌∷◌, map,
}
use agentic_fraud_decisionin.Common.Int.{pos}
use agentic_fraud_decisionin.Common.Float.{Float, finite, ulps, of_int, leb_float, ltb_float}
use agentic_fraud_decisionin.Common.Sort.{sort_by}
use agentic_fraud_decisionin.Common.Value.{Value, str, float, null}
use agentic_fraud_decisionin.Common.Result.{ok, err}
use agentic_fraud_decisionin.Db.Schema.{enums, human_outcome}
use agentic_fraud_decisionin.Db.Validators.{
  validate_decision_record, validate_enum, validate_identified_pattern, validate_probability,
  is_autonomous, validate_review_outcome,
}
use agentic_fraud_decisionin.Db.Validators.Laws.{
  Accepted, IsEnum, validate_decision_record-Accepted,
}
use agentic_fraud_decisionin.Governance.Policy.{Framework, tier_name, assign_tier}
use agentic_fraud_decisionin.Governance.Hitl.{
  Table, FinalState, review_conflict, Call, persist, step, run, persist_decision, record_review,
  pending_reviews, update_where, to_item, Row, new_row,
}
use agentic_fraud_decisionin.Governance.Hitl.Review.{review_once}
use agentic_fraud_decisionin.Governance.Hitl.Queue.{Queued, pending_reviews_lem}
use agentic_fraud_decisionin.Governance.Hitl.Rows.{IsTable, IsFresh, run-IsTable}
use agentic_fraud_decisionin.Governance.Autonomy.{
  AgentResult, Earned, final_state, govern, rank, assign_tier_mono, autonomy_is_Earned,
}

-- 0.5 and 0.25
abbrev half : Float
half = finite (pos (2 ^ 1073))

abbrev quarter : Float
quarter = finite (pos (2 ^ 1072))

abbrev framework : Framework
framework = record { confidence_floor = quarter; auto_allow_max_amount = half }

abbrev allowed : AgentResult
allowed = record {
  transaction_id = codes "t1";
  user_id = codes "u1";
  decision = codes "ALLOW";
  confidence_score = some half;
  amount = quarter;
  reasoning_text = null;
  identified_pattern = null;
}

-- A decision that is left to a human.
abbrev escalated : FinalState
escalated = record {
  transaction_id = codes "t2";
  user_id = codes "u2";
  decision = str (codes "ESCALATE");
  confidence_score = null;
  reasoning_text = null;
  identified_pattern = null;
}

abbrev held : Str → ℕ → Call
held id at = persist escalated (codes "SUGGEST") 5 none id at true

abbrev queue : Table
queue = run [] (held (codes "d1") 20 ∷ held (codes "d2") 10 ∷ [])

abbrev confirmed : Value
confirmed = str (codes "CONFIRMED")

confirmed-IsEnum : IsEnum human_outcome confirmed
unfolding enums str_eq
confirmed-IsEnum = (codes "CONFIRMED", refl, refl)

blocks :
    validate_decision_record
      (str (codes "BLOCK"))
      (float half)
      (str (codes "NONE"))
      (some (str (codes "NOTIFY_ONLY")))
    ≡ ok tt
unfolding validate_decision_record validate_enum validate_identified_pattern validate_probability
    enums str_eq is_autonomous of_int ulps leb_float
blocks = refl

validate_decision_record-Accepted_example :
    Accepted (str (codes "BLOCK")) (float half) (str (codes "NONE")) (str (codes "NOTIFY_ONLY"))
validate_decision_record-Accepted_example =
    validate_decision_record-Accepted (str (codes "BLOCK")) (float half) (str (codes "NONE"))
      (str (codes "NOTIFY_ONLY")) blocks

below : leb_float quarter half ≡ true
unfolding leb_float
below = refl

assign_tier_mono_example :
    rank (assign_tier framework (codes "ALLOW") (some quarter) half).0
    ≤ rank (assign_tier framework (codes "ALLOW") (some half) quarter).0
assign_tier_mono_example =
    assign_tier_mono framework (codes "ALLOW") quarter half half quarter below below

governed : (govern framework [] allowed 7 none (codes "d0") 3 true).0 ≡ ok (codes "d0")
unfolding govern assign_tier tier_name persist_decision validate_decision_record validate_enum
    validate_identified_pattern validate_probability enums str_eq is_autonomous of_int ulps
    leb_float ltb_float
governed = refl

abbrev silent : Row
silent = new_row (final_state allowed) (codes "AUTO_APPROVE") 7 none (codes "d0") 3

stored : (govern framework [] allowed 7 none (codes "d0") 3 true).1 ≡ silent ∷ []
unfolding govern assign_tier tier_name persist_decision validate_decision_record validate_enum
    validate_identified_pattern validate_probability enums str_eq is_autonomous of_int ulps
    leb_float ltb_float
stored = refl

autonomy_is_Earned_example : (x : Float) × Earned framework allowed silent x
autonomy_is_Earned_example =
    autonomy_is_Earned framework [] allowed 7 none (codes "d0") 3 true refl governed silent stored
      (str_ne (codes "AUTO_APPROVE") (codes "SUGGEST") (unfold str_eq in refl))

fresh : IsFresh (codes "d2") (step [] (held (codes "d1") 20))
unfolding step persist_decision validate_decision_record validate_enum validate_identified_pattern
    validate_probability enums str_eq is_autonomous
fresh = (str_ne (codes "d1") (codes "d2") refl, tt)

run-IsTable_example : IsTable (run [] (held (codes "d1") 20 ∷ held (codes "d2") 10 ∷ []))
run-IsTable_example =
    run-IsTable [] (held (codes "d1") 20 ∷ held (codes "d2") 10 ∷ []) (tt, (fresh, tt)) (tt, tt)

pending_reviews_lem_example :
    (shown : Table) × (waiting : Table) × (pending_reviews queue 1 ≡ map to_item shown)
    × Queued queue 1 shown waiting
pending_reviews_lem_example = pending_reviews_lem queue 1

-- The older of two decisions is the one shown.
oldest_first : map (λ i. i.decision_id) (pending_reviews queue 1) ≡ codes "d2" ∷ []
unfolding pending_reviews run step persist_decision validate_decision_record validate_enum
    validate_identified_pattern validate_probability enums str_eq is_autonomous sort_by
oldest_first = refl

first_review :
    (record_review queue (codes "d1") (codes "r1") confirmed (codes "") 30 true).0 ≡ ok tt
unfolding record_review update_where validate_review_outcome run step persist_decision
    validate_decision_record validate_enum validate_identified_pattern validate_probability enums
    str_eq is_autonomous
first_review = refl

review_once_example :
    let u =
      run
        (record_review queue (codes "d1") (codes "r1") confirmed (codes "") 30 true).1
        (held (codes "d3") 40 ∷ []) in
    record_review u (codes "d1") (codes "r2") confirmed (codes "late") 50 true
    ≡ (err review_conflict, u)
unfolding str_eq
review_once_example =
    review_once (codes "d1") (codes "r1") (codes "") confirmed 30 queue (held (codes "d3") 40 ∷ [])
      (codes "r2") (codes "late") confirmed 50 first_review
      (str_ne (codes "d3") (codes "d1") refl, tt) confirmed-IsEnum
