-- ===== src/Resilience/Classify.antt =====
-- classify_error of fraud_platform/common/resilience.py. An exception is its type's name and its
-- message; lower-casing is that of ASCII letters.
use agentic_fraud_decisionin.Common.{
  Str, codes, lower, contains, any, Bool, true, List, [], ◌∷◌, ◌++◌, if◌then◌else◌, ◌≡◌,
}

pub data Kind : Type 0 where
  transient permanent : Kind

pub record Exc : Type 0 where
  pub type_name : Str
  pub message : Str

unfoldable pub transient_markers : List Str
transient_markers =
    codes "timeout"
    ∷ codes "timed out"
    ∷ codes "connection"
    ∷ codes "connectionerror"
    ∷ codes "connectionreset"
    ∷ codes "temporarily"
    ∷ codes "unavailable"
    ∷ codes "rate limit"
    ∷ codes "ratelimit"
    ∷ codes "429"
    ∷ codes "503"
    ∷ codes "502"
    ∷ codes "504"
    ∷ codes "broken pipe"
    ∷ codes "reset by peer"
    ∷ codes "econnreset"
    ∷ []

unfoldable pub permanent_markers : List Str
permanent_markers =
    codes "auth"
    ∷ codes "unauthorized"
    ∷ codes "forbidden"
    ∷ codes "permission"
    ∷ codes "invalid"
    ∷ codes "syntax"
    ∷ codes "does not exist"
    ∷ codes "not found"
    ∷ codes "constraint"
    ∷ codes "programmingerror"
    ∷ []

-- f"{type(exc).__name__} {exc}".lower()
unfoldable pub error_text : Exc → Str
error_text e = lower (e.type_name ++ codes " " ++ e.message)

abbrev pub has_marker : List Str → Str → Bool
has_marker markers text = any (λ m. contains m text) markers

unfoldable pub classify_error : Exc → Kind
classify_error e =
    let text = error_text e in
    if has_marker permanent_markers text
    then permanent
    else if has_marker transient_markers text
    then transient
    else permanent

-- A permanent marker wins over any transient one.
pub classify_error-permanent :
    (e : Exc) → has_marker permanent_markers (error_text e) ≡ true → classify_error e ≡ permanent
unfolding classify_error
classify_error-permanent e h = rw h
