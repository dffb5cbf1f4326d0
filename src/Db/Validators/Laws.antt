-- ===== src/Db/Validators/Laws.antt =====
-- Which decision records the validators let through.
use agentic_fraud_decisionin.Common.{
  ◌≡◌, refl, ap, Str, codes, str_eq, str_eq_iff, mem_str, Bool, true, false, not, ◌⊎◌, inl, inr,
  some, Bool-cases, arith,
}
use agentic_fraud_decisionin.Common.Int.{ℤ, pos, leb_ℤ}
use agentic_fraud_decisionin.Common.Float.{Float, is_not_finite}
use agentic_fraud_decisionin.Common.Value.{Value, null, bool, int, float, str, list, dict}
use agentic_fraud_decisionin.Common.Result.{ok, >>=-eq-ok}
use agentic_fraud_decisionin.Db.Schema.{EnumName, enums, decision, governance_tier, fraud_pattern}
use agentic_fraud_decisionin.Db.Validators.{
  in_unit_interval, validate_probability, validate_enum, validate_identified_pattern, is_autonomous,
  validate_decision_record,
}

-- One of the texts of an enumerated column.
abbrev pub IsEnum : EnumName → Value → Type 0
IsEnum e v = (s : Str) × (v ≡ str s) × (mem_str s (enums e) ≡ true)

-- A finite number from 0 to 1.
abbrev pub IsProbability : Value → Type 0
IsProbability v =
    ((x : Float) × (v ≡ float x) × (is_not_finite x ≡ false) × (in_unit_interval x ≡ true))
    ⊎ ((z : ℤ) × (v ≡ int z) × (leb_ℤ (pos 0) z ≡ true) × (leb_ℤ z (pos 1) ≡ true))

pub validate_enum-IsEnum :
    (v : Value) (e : EnumName) (f : Str) {w : Value} → validate_enum v e f false ≡ ok w → IsEnum e v
unfolding validate_enum
validate_enum-IsEnum null e f h = cc
validate_enum-IsEnum (bool b) e f h = cc
validate_enum-IsEnum (int z) e f h = cc
validate_enum-IsEnum (float x) e f h = cc
validate_enum-IsEnum (str s) e f h = (s, refl, ground arith)
validate_enum-IsEnum (list xs) e f h = cc
validate_enum-IsEnum (dict d) e f h = cc

pub validate_probability-IsProbability :
    (v : Value) (f : Str) (a : Bool) {w : Value}
    → validate_probability v f a ≡ ok w
    → ((v ≡ null) × (a ≡ true)) ⊎ IsProbability v
unfolding validate_probability
validate_probability-IsProbability null f a h = inl (refl, ground arith)
validate_probability-IsProbability (bool b) f a h = cc
validate_probability-IsProbability (int z) f a h = inr (inr (z, refl, ground arith, ground arith))
validate_probability-IsProbability (float x) f a h = inr (inl (x, refl, ground arith, ground arith))
validate_probability-IsProbability (str s) f a h = cc
validate_probability-IsProbability (list xs) f a h = cc
validate_probability-IsProbability (dict d) f a h = cc

-- NULL, 'NONE' or a fraud pattern.
abbrev pub IsPattern : Value → Type 0
IsPattern v = (v ≡ null) ⊎ (v ≡ str (codes "NONE")) ⊎ IsEnum fraud_pattern v

pub validate_identified_pattern-IsPattern :
    (v : Value) (f : Str) {w : Value} → validate_identified_pattern v f ≡ ok w → IsPattern v
unfolding validate_identified_pattern
validate_identified_pattern-IsPattern null f h = inl refl
validate_identified_pattern-IsPattern (str s) f {w} h =
    elim (Bool-cases (str_eq s (codes "NONE"))) [
      | inl e ↦ inr (inl (ap str ((str_eq_iff s (codes "NONE")).0 e)))
      | inr n ↦ inr (inr (validate_enum-IsEnum (str s) fraud_pattern f {w = w} (ground arith)))
    ]
validate_identified_pattern-IsPattern v f h = inr (inr (validate_enum-IsEnum _ fraud_pattern f h))

pub record Accepted (d c p t : Value) : Type 0 where
  pub decided : IsEnum decision d
  pub pattern : IsPattern p
  pub tier : IsEnum governance_tier t
  pub confidence : ((c ≡ null) × (is_autonomous d ≡ false)) ⊎ IsProbability c

-- A record that passes has a known decision, pattern and tier, and a confidence that is a finite
-- number from 0 to 1; only a decision other than ALLOW and BLOCK may leave it out.
pub validate_decision_record-Accepted :
    (d c p t : Value) → validate_decision_record d c p (some t) ≡ ok tt → Accepted d c p t
unfolding validate_decision_record
validate_decision_record-Accepted d c p t h =
    let (_, a, h1) = >>=-eq-ok (validate_enum d decision _ false) _ h in
    let (_, b, h2) = >>=-eq-ok (validate_identified_pattern p _) _ h1 in
    let (_, x, h3) = >>=-eq-ok (validate_enum t governance_tier _ false) _ h2 in
    let (_, y, _) = >>=-eq-ok (validate_probability c _ (not (is_autonomous d))) _ h3 in
    record {
      decided = validate_enum-IsEnum d decision _ a;
      pattern = validate_identified_pattern-IsPattern p _ b;
      tier = validate_enum-IsEnum t governance_tier _ x;
      confidence = elim (validate_probability-IsProbability c _ _ y) [
        | inl n ↦ inl (n.0, ground (arith, n.1))
        | inr z ↦ inr z
      ];
    }
