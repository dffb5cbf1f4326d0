-- ===== src/Governance/Autonomy.antt =====
-- The path of a decision from the agent to the table: assign_tier, then persist_decision (as main
-- of fraud_platform/governance/run_demo.py calls them), and what an autonomous tier proves.
use agentic_fraud_decisionin.Common.{
  ℕ, ◌≤◌, ◌≡◌, ◌≢◌, refl, sym, ap, ◌∙◌, Str, [], ◌∷◌, ◌++◌, codes, str_eq, str_eq_iff, mem_str,
  Bool, true, false, Option, none, some, ◌⊎◌, inl, inr, Bool-cases, arith,
}
use agentic_fraud_decisionin.Common.Float.{Float, leb_float, ltb_float, is_not_finite}
use agentic_fraud_decisionin.Common.Float.Order.{
  leb_float_trans, ltb_float_of_le, leb_float_of_not_lt,
}
use agentic_fraud_decisionin.Common.Value.{Value, null, str, float}
use agentic_fraud_decisionin.Common.Result.{Result, ok, Result-cases}
use agentic_fraud_decisionin.Db.Schema.{enums, decision}
use agentic_fraud_decisionin.Db.Validators.{validate_decision_record, in_unit_interval}
use agentic_fraud_decisionin.Db.Validators.Laws.{
  Accepted, IsProbability, validate_decision_record-Accepted,
}
use agentic_fraud_decisionin.Governance.Policy.{
  Tier, auto_approve, notify_only, suggest, tier_name, Framework, assign_tier,
}
use agentic_fraud_decisionin.Governance.Hitl.{
  Table, Row, FinalState, Failure, new_row, persist_decision,
}

-- What a finished run of the agents hands to governance.
pub record AgentResult : Type 0 where
  pub transaction_id : Str
  pub user_id : Str
  pub decision : Str
  pub confidence_score : Option Float
  pub amount : Float
  pub reasoning_text : Value
  pub identified_pattern : Value

abbrev pub confidence_value : Option Float → Value
confidence_value none = null
confidence_value (some x) = float x

abbrev pub final_state : AgentResult → FinalState
final_state r = record {
  transaction_id = r.transaction_id;
  user_id = r.user_id;
  decision = str r.decision;
  confidence_score = confidence_value r.confidence_score;
  reasoning_text = r.reasoning_text;
  identified_pattern = r.identified_pattern;
}

abbrev pub tier_of : Framework → AgentResult → Tier
tier_of f r = (assign_tier f r.decision r.confidence_score r.amount).0

unfoldable pub govern :
    Framework → Table → AgentResult → ℕ → Option Str → Str → ℕ → Bool → Result Failure Str × Table
govern f t r latency snapshot id now connector =
    persist_decision t (final_state r) (tier_name (tier_of f r)) latency snapshot id now connector

-- How much a tier lets happen with no human in the loop.
abbrev pub rank : Tier → ℕ
rank suggest = 0
rank notify_only = 1
rank auto_approve = 2

-- For one decision, more confidence and a smaller amount never lose autonomy.
pub assign_tier_mono :
    (f : Framework) (d : Str) (x y a b : Float)
    → leb_float x y ≡ true
    → leb_float b a ≡ true
    → rank (assign_tier f d (some x) a).0 ≤ rank (assign_tier f d (some y) b).0
unfolding assign_tier
assign_tier_mono f d x y a b h k =
    ground (
      arith,
      ltb_float_of_le x y f.confidence_floor h,
      leb_float_trans b a f.auto_allow_max_amount k,
    )

persist-Accepted :
    (t : Table) (s : FinalState) (tier : Str) (latency : ℕ) (snapshot : Option Str) (id : Str)
    (now : ℕ) (connector : Bool) {i : Str}
    → (persist_decision t s tier latency snapshot id now connector).0 ≡ ok i
    → Accepted s.decision s.confidence_score s.identified_pattern (str tier)
unfolding persist_decision
persist-Accepted t s tier latency snapshot id now connector h =
    elim (Result-cases (
      validate_decision_record s.decision s.confidence_score s.identified_pattern
        (some (str tier)))) [
          | inl (u, q) ↦ validate_decision_record-Accepted _ _ _ _ q
          | inr (e, q) ↦ absurd (ground arith)
        ]

-- How `assign_tier` reaches a tier that is not SUGGEST.
assign_tier_acts :
    (f : Framework) (d : Str) (c : Option Float) (a : Float)
    → (assign_tier f d c a).0 ≢ suggest
    → (str_eq d (codes "ESCALATE") ≡ false)
      × ((x : Float) × (c ≡ some x) × (ltb_float x f.confidence_floor ≡ false))
      × ((assign_tier f d c a).0 ≡ auto_approve
          → (str_eq d (codes "BLOCK") ≡ false) × (leb_float a f.auto_allow_max_amount ≡ true))
unfolding assign_tier
assign_tier_acts f d none a n = absurd (ground arith)
assign_tier_acts f d (some x) a n = (ground arith, (x, refl, ground arith), ground arith)

confident :
    (c : Option Float) (x : Float) (P : Type 0)
    → c ≡ some x
    → ((confidence_value c ≡ null) × P) ⊎ IsProbability (confidence_value c)
    → (is_not_finite x ≡ false) × (in_unit_interval x ≡ true)
confident c x P e (inl (n, p)) = absurd (ground arith)
confident c x P e (inr (inl (y, q, fin, unit))) =
    let same : y ≡ x = ground arith in (rw (← same) fin, rw (← same) unit)
confident c x P e (inr (inr (z, q, l, u))) = absurd (ground arith)

decided :
    (d : Str)
    → mem_str d (enums decision) ≡ true
    → str_eq d (codes "ESCALATE") ≡ false
    → (d ≡ codes "ALLOW") ⊎ (d ≡ codes "BLOCK")
unfolding enums
decided d m n = elim (Bool-cases (str_eq d (codes "ALLOW"))) [
  | inl a ↦ inl ((str_eq_iff d _).0 a)
  | inr b ↦ inr ((str_eq_iff d _).0 (ground arith))
]

not_block :
    (d : Str)
    → (d ≡ codes "ALLOW") ⊎ (d ≡ codes "BLOCK")
    → str_eq d (codes "BLOCK") ≡ false
    → d ≡ codes "ALLOW"
not_block d (inl a) n = a
not_block d (inr b) n = absurd (ground (arith, str_eq_iff d (codes "BLOCK")))

-- What stands behind a stored row that acts with no human.
pub record Earned (f : Framework) (r : AgentResult) (row : Row) (x : Float) : Type 0 where
  pub kept : row.decision ≡ str r.decision
  pub tier_kept : row.governance_tier ≡ tier_name (tier_of f r)
  pub stated : row.confidence_score ≡ float x
  pub is_finite : is_not_finite x ≡ false
  pub in_range : in_unit_interval x ≡ true
  pub at_floor : leb_float f.confidence_floor x ≡ true
  pub acts : (r.decision ≡ codes "ALLOW") ⊎ (r.decision ≡ codes "BLOCK")
  pub silent :
      row.governance_tier ≡ codes "AUTO_APPROVE"
      → (r.decision ≡ codes "ALLOW") × (leb_float r.amount f.auto_allow_max_amount ≡ true)

tier_names : (t : Tier) → tier_name t ≡ codes "AUTO_APPROVE" → t ≡ auto_approve
unfolding tier_name
tier_names auto_approve h = refl
tier_names notify_only h = cc
tier_names suggest h = cc

last_row : (t : Table) (a b : Row) → t ++ a ∷ [] ≡ t ++ b ∷ [] → a ≡ b
last_row [] a b h = cc
last_row (r ∷ t) a b h = last_row t a b cc

-- A decision that is persisted is the new row at the end.
persist-row :
    (t : Table) (s : FinalState) (tier : Str) (latency : ℕ) (snapshot : Option Str) (id : Str)
    (now : ℕ) (connector : Bool) {i : Str}
    → (persist_decision t s tier latency snapshot id now connector).0 ≡ ok i
    → (persist_decision t s tier latency snapshot id now connector).1
      ≡ t ++ new_row s tier latency snapshot id now ∷ []
unfolding persist_decision
persist-row t s tier latency snapshot id now connector h =
    elim (Result-cases (
      validate_decision_record s.decision s.confidence_score s.identified_pattern
        (some (str tier)))) [
          | inl (u, q) ↦ elim (Bool-cases connector) [
            | inl c ↦ rw (q, persist_decision, c) refl
            | inr c ↦ absurd (ground arith)
          ]
          | inr (e, q) ↦ absurd (ground arith)
        ]

-- Under a finite floor, a row that a decision adds to the table and whose stored tier is not SUGGEST
-- holds that decision, with the tier that the policy assigns to it. It is an ALLOW or a BLOCK with a
-- stored, finite confidence from 0 to 1 at or above the floor; where the stored tier is AUTO_APPROVE
-- it is an ALLOW whose amount is within the cap.
pub autonomy_is_Earned :
    (f : Framework) (t : Table) (r : AgentResult) (latency : ℕ) (snapshot : Option Str) (id : Str)
    (now : ℕ) (connector : Bool) {i : Str}
    → is_not_finite f.confidence_floor ≡ false
    → (govern f t r latency snapshot id now connector).0 ≡ ok i
    → (row : Row) → (govern f t r latency snapshot id now connector).1 ≡ t ++ row ∷ []
    → row.governance_tier ≢ codes "SUGGEST"
    → (x : Float) × Earned f r row x
unfolding govern tier_name
autonomy_is_Earned f t r latency snapshot id now connector floor h row stored m =
    let tier = tier_name (tier_of f r) in
    let new = new_row (final_state r) tier latency snapshot id now in
    let added = persist-row t (final_state r) tier latency snapshot id now connector h in
    let here : new ≡ row = last_row t new row (sym added ∙ stored) in
    let same_tier : tier ≡ row.governance_tier = ap (λ w. w.governance_tier) here in
    let n : tier_of f r ≢ suggest = λ e. m (sym same_tier ∙ ap tier_name e) in
    let a = persist-Accepted t (final_state r) _ latency snapshot id now connector h in
    let (e, (x, c, u), auto) = assign_tier_acts f r.decision r.confidence_score r.amount n in
    let (fin, unit) = confident r.confidence_score x _ c a.confidence in
    let (d, q, mem) = a.decided in
    let same : d ≡ r.decision = ground arith in
    let acts = decided r.decision (rw (← same) mem) e in
    (
      x,
      record {
        kept = sym (ap (λ w. w.decision) here);
        tier_kept = sym same_tier;
        stated = sym (ap (λ w. w.confidence_score) here) ∙ ap confidence_value c;
        is_finite = fin;
        in_range = unit;
        at_floor = leb_float_of_not_lt f.confidence_floor x floor fin u;
        acts = acts;
        silent = λ t.
            let auto_tier = auto (tier_names (tier_of f r) (same_tier ∙ t)) in
            (not_block r.decision acts auto_tier.0, auto_tier.1);
      },
    )
