-- ===== src/Observability/Tests.antt =====
-- Metrics of a few scored decisions.
use agentic_fraud_decisionin.Common.{
  Str, codes, str_eq, upper, lower, contains, starts_with, if◌then◌else◌, ◌≡◌, refl, sym, subst,
  ◌∙◌, Bool-cases, inl, inr, arith, str_eq_iff, ◌&&◌, ◌<◌, length, Bool, true, false, Option, none,
  some, List, [], ◌∷◌,
}
use agentic_fraud_decisionin.Common.Map.{find, set}
use agentic_fraud_decisionin.Common.Value.{
  Value, int, Fields, null, bool, int, float, str, list, dict, entry,
}
use agentic_fraud_decisionin.Common.Words.{strip, lstrip, rstrip, is_space}
use agentic_fraud_decisionin.Observability.Redaction.{
  Codec, default_pii_keys, walk, walk_with, found, found_with, pseudonym, redact_structured,
  redact_rows, scrub_literals, scrub_each, replace,
}
use agentic_fraud_decisionin.Observability.Redaction.Laws.{
  longest, clean, JsonLaws, redact_structured-clean,
}
use agentic_fraud_decisionin.Observability.Metrics.{
  Decision, Elevated, Bucket, missing, text, count, surfaced_patterns, normalized, split_comma,
  count_pattern, tally,
}
use agentic_fraud_decisionin.Observability.Metrics.Laws.{IsSane, is_row, tally-IsSane}

abbrev decided : Str → Bool → Option Str → Option Str → Elevated → Decision
decided decision is_fraud truth agent elevated = record {
  decision = decision;
  is_fraud = is_fraud;
  truth_pattern = truth;
  agent_pattern = agent;
  elevated_patterns = elevated;
  judge_score = none;
}

abbrev decisions : List Decision
decisions =
    decided (codes "BLOCK") true (some (codes "NEW_DEVICE")) (some (codes "AMOUNT_ANOMALY"))
      (text (codes "amount_anomaly, new_device"))
    ∷ decided (codes "ALLOW") true (some (codes "NEW_DEVICE")) none missing
    ∷ decided (codes "ESCALATE") true (some (codes "new_device")) (some (codes "NEW_DEVICE"))
        missing
    ∷ decided (codes "ALLOW") false none none missing
    ∷ []

abbrev new_device : Bucket
new_device = record {
  n = 3;
  caught = 2;
  primary_correct = 1;
  detected = 2;
  mislabeled = 1;
  missed = 1;
}

tally-decisions : find (codes "NEW_DEVICE") (tally [] decisions) ≡ some new_device
unfolding tally find set count_pattern surfaced_patterns normalized split_comma strip lstrip rstrip
    is_space upper str_eq
tally-decisions = refl

-- A fraud row whose pattern is NONE has the right final label without a detection.
abbrev unlabeled : List Decision
unlabeled = decided (codes "ALLOW") true (some (codes "NONE")) none missing ∷ []

undetected :
    find (codes "NONE") (tally [] unlabeled)
    ≡ some (record {
      n = 1;
      caught = 0;
      primary_correct = 1;
      detected = 0;
      mislabeled = 0;
      missed = 1;
    })
unfolding tally find set count_pattern surfaced_patterns normalized strip lstrip rstrip is_space
    upper str_eq
undetected = refl

tally-IsSane_example :
    IsSane (codes "NEW_DEVICE") (count (is_row (codes "NEW_DEVICE")) decisions) new_device
tally-IsSane_example =
    tally-IsSane decisions (codes "NEW_DEVICE") (unfold str_eq in refl) refl tally-decisions

-- A stand-in for JSON: one text denotes a profile, another the profile with its name hashed.
abbrev profile : Str → Value
profile name = dict (entry (codes "Name") (str name) Fields.empty)

abbrev token : Str
token = codes "[REDACTED:0123456789ab]"

abbrev printed : Value → Str
printed (dict (entry k (str s) Fields.empty)) =
    if str_eq k (codes "Name") && str_eq s token then codes "a hashed profile, printed" else []
printed v = []

abbrev parsed : Str → Option Value
parsed s =
    if str_eq s (codes "profile")
    then some (profile (codes "Ada"))
    else if str_eq s (codes "a hashed profile, printed")
    then some (profile token)
    else none

abbrev codec : Codec
codec = record {
  loads = parsed;
  dumps = printed;
  to_str = λ v. codes "Ada";
  digest = λ s. codes "0123456789ab";
}

name_hashed : walk codec default_pii_keys 7 (profile (codes "Ada")) ≡ profile token
unfolding walk walk_with pseudonym str_eq lower
name_hashed = refl

quoted :
    redact_rows codec default_pii_keys (
      record {
        tool_output = some (codes "profile");
        tool_input = none;
        reasoning_text = some (codes "I saw Ada.");
      }
      ∷ [])
    ≡ record {
      tool_output = some (codes "a hashed profile, printed");
      tool_input = none;
      reasoning_text = some (codes "I saw [REDACTED:0123456789ab].");
    }
      ∷ []
unfolding redact_rows redact_structured walk walk_with found found_with scrub_literals scrub_each
    replace pseudonym contains starts_with str_eq lower
quoted = refl

parsed_hashed : parsed (codes "a hashed profile, printed") ≡ some (profile token)
unfolding str_eq
parsed_hashed = refl

parsed_nil : parsed [] ≡ none
unfolding str_eq
parsed_nil = refl

parsed_entry :
    (k s : Str) (w : Value)
    → parsed (printed (dict (entry k (str s) Fields.empty))) ≡ some w
    → w ≡ dict (entry k (str s) Fields.empty)
parsed_entry k s w h = elim (Bool-cases (str_eq k (codes "Name") && str_eq s token)) [
  | inl e ↦
      let key = (str_eq_iff k (codes "Name")).0 (ground (arith, e)) in
      let name = (str_eq_iff s token).0 (ground (arith, e)) in
      let here : parsed (printed (dict (entry k (str s) Fields.empty))) ≡ some (profile token) =
        rw e parsed_hashed in
      let same : some (profile token) ≡ some w = sym here ∙ h in
      let read : w ≡ profile token = cc in read ∙ rw (key, name) refl
  | inr e ↦
      let here : parsed (printed (dict (entry k (str s) Fields.empty))) ≡ none = rw e parsed_nil in
      absurd (cc (here, h))
]

-- What is printed for anything else is not read.
parsed-printed : (v w : Value) → parsed (printed v) ≡ some w → w ≡ v
unfolding str_eq
parsed-printed null w h = cc
parsed-printed (bool b) w h = cc
parsed-printed (int z) w h = cc
parsed-printed (float x) w h = cc
parsed-printed (str s) w h = cc
parsed-printed (list xs) w h = cc
parsed-printed (dict Fields.empty) w h = cc
parsed-printed (dict (entry k null rest)) w h = cc
parsed-printed (dict (entry k (bool b) rest)) w h = cc
parsed-printed (dict (entry k (int z) rest)) w h = cc
parsed-printed (dict (entry k (float x) rest)) w h = cc
parsed-printed (dict (entry k (list xs) rest)) w h = cc
parsed-printed (dict (entry k (dict d) rest)) w h = cc
parsed-printed (dict (entry k (str s) (entry j v rest))) w h = cc
parsed-printed (dict (entry k (str s) Fields.empty)) w h = parsed_entry k s w h

longest-profile : longest (profile (codes "Ada")) < 7
unfolding longest
longest-profile = omega arith

longest-token : longest (profile token) < 25
unfolding longest
longest-token = omega arith

parsed-longest : (s : Str) (v : Value) → parsed s ≡ some v → longest v < length s
parsed-longest s v h = elim (Bool-cases (str_eq s (codes "profile"))) [
  | inl e ↦
      let text = (str_eq_iff s (codes "profile")).0 e in
      let here : parsed s ≡ some (profile (codes "Ada")) = rw e refl in
      let same : some (profile (codes "Ada")) ≡ some v = sym here ∙ h in
      let read : profile (codes "Ada") ≡ v = cc in
      subst (λ x. longest x < length s) read (rw text longest-profile)
  | inr n ↦ elim (Bool-cases (str_eq s (codes "a hashed profile, printed"))) [
    | inl e ↦
        let text = (str_eq_iff s (codes "a hashed profile, printed")).0 e in
        let here : parsed s ≡ some (profile token) = rw (n, e) refl in
        let same : some (profile token) ≡ some v = sym here ∙ h in
        let read : profile token ≡ v = cc in
        subst (λ x. longest x < length s) read (rw text longest-token)
    | inr m ↦ let here : parsed s ≡ none = rw (n, m) refl in absurd (cc (here, h))
  ]
]

codec_laws : JsonLaws codec
codec_laws = record { loads-dumps = parsed-printed; longest_lt = parsed-longest }

redacted_profile :
    codec.loads (redact_structured codec default_pii_keys (codes "profile")).0
    ≡ some (profile token)
unfolding redact_structured walk walk_with pseudonym str_eq lower
redacted_profile = refl

redact_structured-clean_example : clean codec default_pii_keys 3 (profile token) ≡ true
redact_structured-clean_example =
    redact_structured-clean codec default_pii_keys codec_laws 3 (codes "profile")
      (profile (codes "Ada")) (profile token) (unfold str_eq in refl) redacted_profile
