-- ===== src/Db/Validators.antt =====
-- fraud_platform/db/validators.py. A validator returns its value or raises; a ValidationError is
-- its field's name and the reason that its message gives. `type_error` is the TypeError of an
-- unhashable value looked up in a set.
pub mod Laws
use agentic_fraud_decisionin.Common.{
  Str, codes, str_eq, mem_str, Bool, true, false, not, ◌&&◌, ◌||◌, Option, none, some,
  if◌then◌else◌,
}
use agentic_fraud_decisionin.Common.Int.{ℤ, pos, leb_ℤ, ltb_ℤ}
use agentic_fraud_decisionin.Common.Float.{Float, of_int, leb_float, ltb_float, is_not_finite}
use agentic_fraud_decisionin.Common.Value.{Value, null, bool, int, float, str, list, dict}
use agentic_fraud_decisionin.Common.Result.{Result, ok, err, ◌>>=◌, ◌>>◌}
use agentic_fraud_decisionin.Db.Schema.{
  EnumName, enums, decision, governance_tier, human_outcome, fraud_pattern,
}

pub data Reason : Type 0 where
  required not_a_number not_finite out_of_range negative not_in_enum : Reason

pub data Error : Type 0 where
  invalid : Str → Reason → Error
  type_error : Error

abbrev pub Checked : Type 0
Checked = Result Error Value

-- 0.0 <= value <= 1.0
abbrev pub in_unit_interval : Float → Bool
in_unit_interval x = leb_float (of_int (pos 0)) x && leb_float x (of_int (pos 1))

unfoldable pub validate_probability : Value → Str → Bool → Checked
validate_probability null field allow_none =
    if allow_none then ok null else err (invalid field required)
validate_probability (int z) field allow_none =
    if leb_ℤ (pos 0) z && leb_ℤ z (pos 1) then ok (int z) else err (invalid field out_of_range)
validate_probability (float x) field allow_none =
    if is_not_finite x
    then err (invalid field not_finite)
    else if in_unit_interval x
    then ok (float x)
    else err (invalid field out_of_range)
validate_probability _ field allow_none = err (invalid field not_a_number)

unfoldable pub validate_risk_score : Value → Str → Checked
validate_risk_score value field = validate_probability value field false

unfoldable pub validate_amount : Value → Str → Checked
validate_amount null field = err (invalid field required)
validate_amount (int z) field = if ltb_ℤ z (pos 0) then err (invalid field negative) else ok (int z)
validate_amount (float x) field =
    if is_not_finite x
    then err (invalid field not_finite)
    else if ltb_float x (of_int (pos 0))
    then err (invalid field negative)
    else ok (float x)
validate_amount _ field = err (invalid field not_a_number)

unfoldable pub validate_enum : Value → EnumName → Str → Bool → Checked
validate_enum null enum_name field allow_none =
    if allow_none then ok null else err (invalid field required)
validate_enum (str s) enum_name field allow_none =
    if mem_str s (enums enum_name) then ok (str s) else err (invalid field not_in_enum)
validate_enum (list xs) enum_name field allow_none = err type_error
validate_enum (dict d) enum_name field allow_none = err type_error
validate_enum _ enum_name field allow_none = err (invalid field not_in_enum)

unfoldable pub validate_review_outcome : Value → Str → Checked
validate_review_outcome outcome field = validate_enum outcome human_outcome field false

-- NULL, the literal 'NONE', or one of the four patterns.
unfoldable pub validate_identified_pattern : Value → Str → Checked
validate_identified_pattern null field = ok null
validate_identified_pattern (str s) field =
    if str_eq s (codes "NONE") then ok (str s) else validate_enum (str s) fraud_pattern field false
validate_identified_pattern value field = validate_enum value fraud_pattern field false

-- decision in ("ALLOW", "BLOCK")
unfoldable pub is_autonomous : Value → Bool
is_autonomous (str s) = str_eq s (codes "ALLOW") || str_eq s (codes "BLOCK")
is_autonomous _ = false

abbrev pub is_null : Value → Bool
is_null null = true
is_null _ = false

-- A governance tier, when one is given.
abbrev pub check_tier : Option Value → Result Error Value
check_tier none = ok null
check_tier (some tier) = validate_enum tier governance_tier (codes "governance_tier") false

unfoldable pub validate_decision_record :
    Value → Value → Value → Option Value → Result Error (Unit {0})
validate_decision_record decided confidence_score identified_pattern tier = do
  validate_enum decided decision (codes "decision") false
  validate_identified_pattern identified_pattern (codes "identified_pattern")
  check_tier tier
  let autonomous = is_autonomous decided
  validate_probability confidence_score (codes "confidence_score") (not autonomous)
  if autonomous && is_null confidence_score
      then err (invalid (codes "confidence_score") required)
      else ok tt
