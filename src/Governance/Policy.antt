-- ===== src/Governance/Policy.antt =====
-- GovernancePolicyFramework of fraud_platform/governance/policy_framework.py. The rationale text
-- is the rule that produced it.
use agentic_fraud_decisionin.Common.{
  Str, codes, str_eq, Bool, true, Option, none, some, if◌then◌else◌,
}
use agentic_fraud_decisionin.Common.Float.{Float, leb_float, ltb_float}

pub data Tier : Type 0 where
  auto_approve notify_only suggest : Tier

-- The constants TIER_* of fraud_platform/governance/config.py.
unfoldable pub tier_name : Tier → Str
tier_name auto_approve = codes "AUTO_APPROVE"
tier_name notify_only = codes "NOTIFY_ONLY"
tier_name suggest = codes "SUGGEST"

pub data Rule : Type 0 where
  escalated unsure confident_block small_allow large_allow : Rule

pub record Framework : Type 0 where
  pub confidence_floor : Float
  pub auto_allow_max_amount : Float

-- confidence_score is None or confidence_score < floor
abbrev pub is_unsure : Framework → Option Float → Bool
is_unsure f none = true
is_unsure f (some x) = ltb_float x f.confidence_floor

unfoldable pub assign_tier : Framework → Str → Option Float → Float → Tier × Rule
assign_tier f decision confidence_score amount =
    if str_eq decision (codes "ESCALATE")
    then (suggest, escalated)
    else if is_unsure f confidence_score
    then (suggest, unsure)
    else if str_eq decision (codes "BLOCK")
    then (notify_only, confident_block)
    else if leb_float amount f.auto_allow_max_amount
    then (auto_approve, small_allow)
    else (notify_only, large_allow)
