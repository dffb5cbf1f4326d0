-- ===== src/Stream/Scoring/Laws.antt =====
-- What a feature row that is returned satisfies.
use agentic_fraud_decisionin.Common.{
  ℕ, Str, ◌≡◌, subst, Bool, true, false, Option, List, inl, inr, arith,
}
use agentic_fraud_decisionin.Common.Float.{Float, ltb_float, is_not_finite}
use agentic_fraud_decisionin.Common.Value.{Value, float}
use agentic_fraud_decisionin.Common.Result.{ok, >>=-eq-ok, Result-cases}
use agentic_fraud_decisionin.Db.Validators.{validate_amount, validate_probability, in_unit_interval}
use agentic_fraud_decisionin.Db.Validators.Laws.{IsPattern, validate_identified_pattern-IsPattern}
use agentic_fraud_decisionin.Stream.Scoring.{
  Maths, Config, number, compute_implied_speed_kmh, abs_float,
}
use agentic_fraud_decisionin.Stream.Scoring.Row.{
  Transaction, Baseline, Location, FeatureRow, geo_features, value_of, checked, check_zscore,
  feature_row, validate_feature_row, build_feature_row, zscore_of, signal, or_zero, avg_of,
  stddev_of,
}

-- A row that may be stored: a finite amount that is not negative, a risk score from 0 to 1, a finite
-- z-score, and a label that is a fraud pattern, 'NONE' or missing.
pub record IsStorable (fd : FeatureRow) : Type 0 where
  pub amount_finite : is_not_finite fd.txn_amount ≡ false
  pub amount_nonnegative : ltb_float fd.txn_amount (number 0) ≡ false
  pub risk_finite : is_not_finite fd.risk_score_raw ≡ false
  pub risk_in_range : in_unit_interval fd.risk_score_raw ≡ true
  pub zscore_finite : is_not_finite fd.amount_zscore ≡ false
  pub pattern_known : IsPattern (value_of fd.fraud_pattern)

validate_amount-float :
    (x : Float) (f : Str) {v : Value}
    → validate_amount (float x) f ≡ ok v
    → (is_not_finite x ≡ false) × (ltb_float x (number 0) ≡ false)
unfolding validate_amount
validate_amount-float x f h = ground arith

validate_probability-float :
    (x : Float) (f : Str) {v : Value}
    → validate_probability (float x) f false ≡ ok v
    → (is_not_finite x ≡ false) × (in_unit_interval x ≡ true)
unfolding validate_probability
validate_probability-float x f h = ground arith

check_zscore-finite : (z : Float) {v : Value} → check_zscore z ≡ ok v → is_not_finite z ≡ false
check_zscore-finite z h = ground arith

validate_feature_row-IsStorable :
    (fd : FeatureRow) {v : Value} → validate_feature_row fd ≡ ok v → IsStorable fd
unfolding validate_feature_row
validate_feature_row-IsStorable fd h =
    let (_, a, h1) = >>=-eq-ok (validate_amount (float fd.txn_amount) _) _ h in
    let (_, b, h2) = >>=-eq-ok (validate_probability (float fd.risk_score_raw) _ false) _ h1 in
    let (_, z, h3) = >>=-eq-ok (check_zscore fd.amount_zscore) _ h2 in
    let amount = validate_amount-float fd.txn_amount _ a in
    let risk = validate_probability-float fd.risk_score_raw _ b in
    record {
      amount_finite = amount.0;
      amount_nonnegative = amount.1;
      risk_finite = risk.0;
      risk_in_range = risk.1;
      zscore_finite = check_zscore-finite fd.amount_zscore z;
      pattern_known = validate_identified_pattern-IsPattern (value_of fd.fraud_pattern) _ h3;
    }

pub checked-eq-ok :
    (v : Bool) (row : FeatureRow) {fd : FeatureRow} → checked v row ≡ ok fd → row ≡ fd
checked-eq-ok v row h = ground arith

pub checked-IsStorable :
    (row : FeatureRow) {fd : FeatureRow} → checked true row ≡ ok fd → IsStorable fd
checked-IsStorable row {fd} h = elim (Result-cases (validate_feature_row row)) [
  | inl (v, e) ↦
      subst IsStorable (checked-eq-ok true row {fd = fd} h) (validate_feature_row-IsStorable row e)
  | inr (r, e) ↦ absurd (ground arith)
]

module _ (m : Maths) (config : Config) (snapshot_id now : Str) where
  -- How a row that is returned was made.
  pub record IsBuilt (t : Transaction) (b : Option Baseline) (loc : Option Location) (velocity : ℕ)
      (devices : List Str) (validate : Bool) (fd : FeatureRow) : Type 0 where
    pub zscore : Float
    pub v15 : Float
    pub amt_signal : Float
    pub geo_signal : Float
    pub speed : Option Float
    pub speed_eq :
        let geo = geo_features m loc t in
        compute_implied_speed_kmh m geo.distance_km geo.elapsed_min ≡ ok speed
    pub row_eq :
        checked validate (
          feature_row m config snapshot_id now t b velocity devices
            (geo_features m loc t)
            zscore
            speed
            v15
            amt_signal
            geo_signal)
        ≡ ok fd

  pub build_feature_row-IsBuilt :
      (t : Transaction) (b : Option Baseline) (loc : Option Location) (velocity : ℕ)
      (devices : List Str) (validate : Bool) {fd : FeatureRow}
      → build_feature_row m config snapshot_id now t b loc velocity devices validate ≡ ok fd
      → IsBuilt t b loc velocity devices validate fd
  unfolding build_feature_row
  build_feature_row-IsBuilt t b loc velocity devices validate h =
      let geo = geo_features m loc t in
      let (zscore, _, h1) =
        >>=-eq-ok (zscore_of m (or_zero t.amount) (avg_of b) (stddev_of b)) _ h in
      let (v15, _, h2) = >>=-eq-ok (signal m (m.of_nat velocity) (number 5)) _ h1 in
      let (amt_signal, _, h3) = >>=-eq-ok (signal m (abs_float zscore) (number 3)) _ h2 in
      let (geo_signal, _, h4) = >>=-eq-ok (signal m (or_zero geo.distance_km) (number 500)) _ h3 in
      let (speed, e, h5) =
        >>=-eq-ok (compute_implied_speed_kmh m geo.distance_km geo.elapsed_min) _ h4 in
      record {
        zscore = zscore;
        v15 = v15;
        amt_signal = amt_signal;
        geo_signal = geo_signal;
        speed = speed;
        speed_eq = e;
        row_eq = h5;
      }
