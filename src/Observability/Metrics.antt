-- ===== src/Observability/Metrics.antt =====
-- fraud_platform/observability/metrics.py, as far as it counts: the confusion matrix, escalations,
-- the tally of each fraud pattern and the scores of the judge. The arithmetic of doubles is the
-- record `Ratios`, with no law assumed; letters are upper-cased as ASCII.
pub mod Laws
use agentic_fraud_decisionin.Common.{
  ℕ, suc, ◌+◌, Str, codes, str_eq, mem_str, upper, Bool, true, false, not, ◌&&◌, ◌||◌, Option, none,
  some, List, [], ◌∷◌, ◌++◌, map, filter, length, ◌==◌, if◌then◌else◌,
}
use agentic_fraud_decisionin.Common.Int.{pos}
use agentic_fraud_decisionin.Common.Float.{Float, of_int, eqb_float}
use agentic_fraud_decisionin.Common.Map.{Map, find, set}
use agentic_fraud_decisionin.Common.Words.{strip, is_empty}

-- The patterns that were elevated: missing, a text with commas, or a list.
pub data Elevated : Type 0 where
  missing : Elevated
  text : Str → Elevated
  many : List Str → Elevated

-- A scored decision.
pub record Decision : Type 0 where
  pub decision : Str
  pub is_fraud : Bool
  pub truth_pattern : Option Str
  pub agent_pattern : Option Str
  pub elevated_patterns : Elevated
  pub judge_score : Option Float

abbrev pub is_escalated : Decision → Bool
is_escalated d = str_eq d.decision (codes "ESCALATE")

abbrev pub is_blocked : Decision → Bool
is_blocked d = str_eq d.decision (codes "BLOCK")

-- `len(xs)`, and how many pass a test.
abbrev pub count {ℓ} : {A : Type ℓ} → (A → Bool) → List A → ℕ
count p [] = 0
count p (x ∷ xs) = if p x then suc (count p xs) else count p xs

-- Quotients and the like: `ratio n m` is n / m for a positive m.
pub record Ratios : Type 0 where
  pub ratio : ℕ → ℕ → Float
  pub add : Float → Float → Float
  pub mul : Float → Float → Float
  pub div : Float → Float → Float

pub record Confusion : Type 0 where
  pub tp : ℕ
  pub fp : ℕ
  pub fn : ℕ
  pub tn : ℕ

-- One decided row; the rounds of the loop commute, so the rest is counted first.
abbrev pub count_row : Bool → Bool → Confusion → Confusion
count_row true true c = record c { tp = suc c.tp }
count_row true false c = record c { fp = suc c.fp }
count_row false true c = record c { fn = suc c.fn }
count_row false false c = record c { tn = suc c.tn }

unfoldable pub confusion : List Decision → Confusion
confusion [] = record { tp = 0; fp = 0; fn = 0; tn = 0 }
confusion (d ∷ ds) =
    let rest = confusion ds in
    if is_escalated d then rest else count_row (is_blocked d) d.is_fraud rest

-- `{p.strip().upper() for p in ps if p.strip()}`, as a list.
unfoldable pub normalized : List Str → List Str
normalized ps = map (λ p. upper (strip p)) (filter (λ p. not (is_empty (strip p))) ps)

abbrev pub add_piece : ℕ → List Str → List Str
add_piece c [] = []
add_piece c (p ∷ ps) = if c == b',' then [] ∷ p ∷ ps else (c ∷ p) ∷ ps

-- `text.split(",")`
unfoldable pub split_comma : Str → List Str
split_comma [] = [] ∷ []
split_comma (c ∷ s) = add_piece c (split_comma s)

abbrev pub elevated_set : Elevated → List Str
elevated_set missing = []
elevated_set (text s) = normalized (split_comma s)
elevated_set (many ps) = normalized ps

-- `(x or default).strip().upper()`
abbrev pub label : Option Str → Str → Str
label none default = upper (strip default)
label (some []) default = upper (strip default)
label (some (c ∷ s)) default = upper (strip (c ∷ s))

-- The patterns that a decision surfaced, as a list that stands for the set.
unfoldable pub surfaced_patterns : Decision → List Str
surfaced_patterns d =
    let primary = label d.agent_pattern [] in
    if not (is_empty primary) && not (str_eq primary (codes "NONE"))
    then primary ∷ elevated_set d.elevated_patterns
    else elevated_set d.elevated_patterns

pub record Bucket : Type 0 where
  pub n : ℕ
  pub caught : ℕ
  pub primary_correct : ℕ
  pub detected : ℕ
  pub mislabeled : ℕ
  pub missed : ℕ

abbrev pub empty_bucket : Bucket
empty_bucket = record {
  n = 0;
  caught = 0;
  primary_correct = 0;
  detected = 0;
  mislabeled = 0;
  missed = 0;
}

abbrev pub bump : Bool → ℕ → ℕ
bump true k = suc k
bump false k = k

abbrev pub pattern_of : Decision → Str
pattern_of d = label d.truth_pattern (codes "UNKNOWN")

abbrev pub is_primary : Decision → Str → Bool
is_primary d pat = str_eq (label d.agent_pattern (codes "NONE")) pat

abbrev pub is_detected : Decision → Str → Bool
is_detected d pat = mem_str pat (surfaced_patterns d)

unfoldable pub count_pattern : Decision → Str → Bucket → Bucket
count_pattern d pat b = record {
  n = suc b.n;
  caught = bump (is_blocked d || is_escalated d) b.caught;
  primary_correct = bump (is_primary d pat) b.primary_correct;
  detected = bump (is_detected d pat) b.detected;
  mislabeled = bump (is_detected d pat && not (is_primary d pat)) b.mislabeled;
  missed = bump (not (is_detected d pat)) b.missed;
}

abbrev pub or_empty : Option Bucket → Bucket
or_empty none = empty_bucket
or_empty (some b) = b

-- The loop over the decisions, with the buckets so far.
unfoldable pub tally : Map Bucket → List Decision → Map Bucket
tally out [] = out
tally out (d ∷ ds) =
    let pat = pattern_of d in
    tally (if d.is_fraud then set pat (count_pattern d pat (or_empty (find pat out))) out else out)
      ds

-- The scores of the judge on correct and on incorrect decisions.
abbrev pub sort_score : Bool → Float → List Float × List Float → List Float × List Float
sort_score true score r = (score ∷ r.0, r.1)
sort_score false score r = (r.0, score ∷ r.1)

abbrev pub bool_eq : Bool → Bool → Bool
bool_eq true b = b
bool_eq false b = not b

unfoldable pub judged : List Decision → List Float × List Float
judged [] = ([], [])
judged (d ∷ ds) =
    let rest = judged ds in
    elim d.judge_score [
      | none ↦ rest
      | some score ↦
          if is_escalated d then rest else sort_score (bool_eq (is_blocked d) d.is_fraud) score rest
    ]

module _ (q : Ratios) where
  -- `n / d if d else None`
  abbrev pub safe_div : ℕ → ℕ → Option Float
  safe_div n m = if m == 0 then none else some (q.ratio n m)

  pub record Classification : Type 0 where
    pub precision : Option Float
    pub recall : Option Float
    pub false_positive_rate : Option Float
    pub f1 : Option Float
    pub counts : Confusion

  abbrev pub is_positive : Option Float → Bool
  is_positive none = false
  is_positive (some x) = not (eqb_float x (of_int (pos 0)))

  -- `_safe_div(2 * p * r, p + r) if p and r else None`
  abbrev pub f1_of : Option Float → Option Float → Option Float
  f1_of (some p) (some r) =
      if is_positive (some p) && is_positive (some r) && is_positive (some (q.add p r))
      then some (q.div (q.mul (q.mul (of_int (pos 2)) p) r) (q.add p r))
      else none
  f1_of _ _ = none

  unfoldable pub classification_metrics : List Decision → Classification
  classification_metrics ds =
      let c = confusion ds in
      let precision = safe_div c.tp (c.tp + c.fp) in
      let recall = safe_div c.tp (c.tp + c.fn) in
      record {
        precision = precision;
        recall = recall;
        false_positive_rate = safe_div c.fp (c.fp + c.tn);
        f1 = f1_of precision recall;
        counts = c;
      }

  pub record Escalation : Type 0 where
    pub escalation_rate : Option Float
    pub escalations : ℕ
    pub escalation_cost : Float

  unfoldable pub escalation_metrics : List Decision → Float → Escalation
  escalation_metrics ds cost_per_escalation =
      let esc = count is_escalated ds in
      record {
        escalation_rate = safe_div esc (length ds);
        escalations = esc;
        escalation_cost = q.mul (of_int (pos esc)) cost_per_escalation;
      }

  -- A bucket with its rates.
  pub record PatternRates : Type 0 where
    pub bucket : Bucket
    pub recall : Option Float
    pub pattern_id_accuracy : Option Float
    pub detection_rate : Option Float
    pub mislabeled_rate : Option Float
    pub missed_rate : Option Float

  abbrev pub rates : Bucket → PatternRates
  rates b = record {
    bucket = b;
    recall = safe_div b.caught b.n;
    pattern_id_accuracy = safe_div b.primary_correct b.n;
    detection_rate = safe_div b.detected b.n;
    mislabeled_rate = safe_div b.mislabeled b.n;
    missed_rate = safe_div b.missed b.n;
  }

  unfoldable pub per_pattern_recall : List Decision → Map PatternRates
  per_pattern_recall ds = map (λ e. (e.0, rates e.1)) (tally [] ds)
