-- ===== src/Db/Schema.antt =====
-- The enumerated columns of fraud_platform/db/schema_contract.py (ENUMS).
use agentic_fraud_decisionin.Common.{Str, codes, List, [], ◌∷◌}

pub data EnumName : Type 0 where
  decision governance_tier human_outcome risk_tier fraud_pattern : EnumName

unfoldable pub enums : EnumName → List Str
enums decision = codes "ALLOW" ∷ codes "BLOCK" ∷ codes "ESCALATE" ∷ []
enums governance_tier = codes "AUTO_APPROVE" ∷ codes "SUGGEST" ∷ codes "NOTIFY_ONLY" ∷ []
enums human_outcome = codes "CONFIRMED" ∷ codes "OVERRIDDEN" ∷ codes "ESCALATED" ∷ []
enums risk_tier = codes "LOW" ∷ codes "MEDIUM" ∷ codes "HIGH" ∷ []
enums fraud_pattern =
    codes "VELOCITY_SPIKE" ∷ codes "GEO_JUMP" ∷ codes "NEW_DEVICE" ∷ codes "AMOUNT_ANOMALY" ∷ []
