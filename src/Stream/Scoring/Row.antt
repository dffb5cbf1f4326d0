-- ===== src/Stream/Scoring/Row.antt =====
-- build_feature_row, validate_feature_row and to_snowflake_row of
-- fraud_platform/stream_processing/scoring.py. The fresh identifier and the clock are arguments.
use agentic_fraud_decisionin.Common.{
  ℕ, Str, codes, mem_str, Bool, true, false, not, ◌&&◌, ◌||◌, Option, none, some, List, [], ◌∷◌,
  if◌then◌else◌,
}
use agentic_fraud_decisionin.Common.Float.{Float, leb_float, ltb_float, is_not_finite}
use agentic_fraud_decisionin.Common.Value.{Value, null, float, str}
use agentic_fraud_decisionin.Common.Result.{Result, ok, err, ◌>>=◌}
use agentic_fraud_decisionin.Db.Validators.{
  Error, invalid, not_finite, validate_amount, validate_probability, validate_identified_pattern,
}
use agentic_fraud_decisionin.Stream.Scoring.{
  Maths, Failure, validation, Config, number, is_zero, min_float, abs_float, attempt, geo_hard_rule,
  haversine_distance, compute_implied_speed_kmh, compute_risk_score,
}

-- A parsed transaction, as far as it is read; a null column is `none`.
pub record Transaction : Type 0 where
  pub transaction_id : Str
  pub user_id : Str
  pub device_id : Option Str
  pub amount : Option Float
  pub city : Option Str
  pub country : Option Str
  pub latitude : Option Float
  pub longitude : Option Float
  pub transaction_ts : Option Str
  pub is_synthetic_fraud : Option Bool
  pub fraud_pattern : Option Str

pub record Baseline : Type 0 where
  pub surrogate_key : Str
  pub avg_transaction_amt : Float
  pub stddev_transaction_amt : Float

-- `baseline.get(...)`, with the default of a user that has none.
abbrev pub key_of : Option Baseline → Str
key_of none = []
key_of (some b) = b.surrogate_key

abbrev pub avg_of : Option Baseline → Float
avg_of none = number 50
avg_of (some b) = b.avg_transaction_amt

abbrev pub stddev_of : Option Baseline → Float
stddev_of none = number 20
stddev_of (some b) = b.stddev_transaction_amt

-- The last location of a user, as the store keeps it.
pub record Location : Type 0 where
  pub lat : Option Float
  pub lon : Option Float
  pub city : Option Str
  pub ts : Option Str

pub record FeatureRow : Type 0 where
  pub snapshot_id : Str
  pub transaction_id : Str
  pub user_id : Str
  pub user_surrogate_key : Str
  pub computed_at : Str
  pub transaction_ts : Option Str
  pub velocity_5min : Option ℕ
  pub velocity_15min : ℕ
  pub velocity_1hr : Option ℕ
  pub velocity_24hr : Option ℕ
  pub txn_amount : Float
  pub user_avg_amount : Float
  pub user_stddev_amount : Float
  pub amount_zscore : Float
  pub prev_transaction_city : Option Str
  pub prev_transaction_ts : Option Str
  pub geo_distance_km : Option Float
  pub time_since_last_txn_min : Option Float
  pub is_new_device : Bool
  pub device_id : Option Str
  pub city : Option Str
  pub country : Option Str
  pub latitude : Option Float
  pub longitude : Option Float
  pub suspect_location : Bool
  pub risk_score_raw : Float
  pub is_flagged_for_review : Bool
  pub is_synthetic_fraud : Option Bool
  pub fraud_pattern : Option Str

-- `if x`, for a nullable double and a nullable text.
abbrev pub truthy_float : Option Float → Bool
truthy_float none = false
truthy_float (some x) = not (is_zero x)

abbrev pub truthy_str : Option Str → Bool
truthy_str none = false
truthy_str (some []) = false
truthy_str (some (c ∷ s)) = true

-- `x or 0`
abbrev pub or_zero : Option Float → Float
or_zero none = number 0
or_zero (some x) = if is_zero x then number 0 else x

-- What is derived from the last location.
pub record Geo : Type 0 where
  pub distance_km : Option Float
  pub elapsed_min : Option Float
  pub prev_city : Option Str
  pub prev_ts : Option Str

abbrev pub no_geo : Geo
no_geo = record { distance_km = none; elapsed_min = none; prev_city = none; prev_ts = none }

-- A delta that is not positive nulls the distance and the delta.
unfoldable pub ordering_guard : Geo → Geo
ordering_guard g = elim g.elapsed_min [
  | none ↦ g
  | some t ↦
      if leb_float t (number 0) then record g { distance_km = none; elapsed_min = none } else g
]

abbrev pub device_is_new : Option Str → List Str → Bool
device_is_new none devices = false
device_is_new (some []) devices = false
device_is_new (some (c ∷ s)) devices = not (mem_str (c ∷ s) devices)

-- `round(x, 2) if x else None`
abbrev pub rounded : (Float → ℕ → Float) → Option Float → Option Float
rounded round none = none
rounded round (some x) = if is_zero x then none else some (round x 2)

abbrev pub value_of : Option Str → Value
value_of none = null
value_of (some s) = str s

-- `float(x) if x else None`
abbrev pub kept : Option Float → Option Float
kept x = if truthy_float x then x else none

abbrev pub check_zscore : Float → Result Error Value
check_zscore z =
    if is_not_finite z then err (invalid (codes "amount_zscore") not_finite) else ok null

unfoldable pub validate_feature_row : FeatureRow → Result Error Value
validate_feature_row fd = validate_amount (float fd.txn_amount) (codes "txn_amount") >>= λ amount.
    validate_probability (float fd.risk_score_raw) (codes "risk_score_raw") false >>= λ risk.
    check_zscore fd.amount_zscore >>= λ z.
    validate_identified_pattern (value_of fd.fraud_pattern) (codes "fraud_pattern")

abbrev pub checked : Bool → FeatureRow → Result Failure FeatureRow
checked false fd = ok fd
checked true fd = elim (validate_feature_row fd) [ ok v ↦ ok fd | err e ↦ err (validation e) ]

module _ (m : Maths) where
  -- The minutes since the last location, when both times are there and can be read.
  abbrev pub elapsed : Option Str → Option Str → Option Float
  elapsed (some prev) (some now) =
      if truthy_str (some prev) && truthy_str (some now) then m.minutes_between prev now else none
  elapsed _ _ = none

  abbrev pub geo_at : Location → Transaction → Result Failure (Option Float) → Geo
  geo_at loc t (err e) = no_geo
  geo_at loc t (ok d) = ordering_guard (record {
    distance_km = d;
    elapsed_min = elapsed loc.ts t.transaction_ts;
    prev_city = loc.city;
    prev_ts = loc.ts;
  })

  unfoldable pub geo_features : Option Location → Transaction → Geo
  geo_features none t = no_geo
  geo_features (some loc) t =
      if truthy_float t.latitude && truthy_float t.longitude
      then geo_at loc t (haversine_distance m loc.lat loc.lon t.latitude t.longitude)
      else no_geo

  -- (amount - avg) / stddev, or 0.0 without a spread.
  abbrev pub zscore_of : Float → Float → Float → Result Failure Float
  zscore_of amount avg stddev =
      if ltb_float (number 0) stddev
      then attempt (m.div (m.sub amount avg) stddev)
      else ok (number 0)

  -- `min(x / bound, 1.0)`
  abbrev pub signal : Float → Float → Result Failure Float
  signal x bound = attempt (m.div x bound) >>= λ q. ok (min_float q (number 1))

  module _ (config : Config) (snapshot_id now : Str) where
    -- The row, from its signals.
    abbrev pub feature_row :
        Transaction
        → Option Baseline
        → ℕ
        → List Str
        → Geo
        → Float
        → Option Float
        → Float
        → Float
        → Float
        → FeatureRow
    feature_row t baseline velocity devices geo zscore speed v15 amt_signal geo_signal =
        let is_new = device_is_new t.device_id devices in
        let risk =
          compute_risk_score m v15 amt_signal geo_signal (if is_new then number 1 else number 0)
            config.weights in
        let geo_hard_triggered = geo_hard_rule geo.distance_km speed in
        let hard_rule_triggered =
          geo_hard_triggered
          || leb_float config.hard_rule_amount_threshold amt_signal
          || leb_float config.hard_rule_velocity_threshold v15 in
        record {
          snapshot_id = snapshot_id;
          transaction_id = t.transaction_id;
          user_id = t.user_id;
          user_surrogate_key = key_of baseline;
          computed_at = now;
          transaction_ts = if truthy_str t.transaction_ts then t.transaction_ts else none;
          velocity_5min = none;
          velocity_15min = velocity;
          velocity_1hr = none;
          velocity_24hr = none;
          txn_amount = or_zero t.amount;
          user_avg_amount = avg_of baseline;
          user_stddev_amount = stddev_of baseline;
          amount_zscore = m.round zscore 4;
          prev_transaction_city = geo.prev_city;
          prev_transaction_ts = geo.prev_ts;
          geo_distance_km = rounded m.round geo.distance_km;
          time_since_last_txn_min = rounded m.round geo.elapsed_min;
          is_new_device = is_new;
          device_id = t.device_id;
          city = t.city;
          country = t.country;
          latitude = kept t.latitude;
          longitude = kept t.longitude;
          suspect_location = geo_hard_triggered;
          risk_score_raw = risk;
          is_flagged_for_review = ltb_float config.risk_flag_threshold risk || hard_rule_triggered;
          is_synthetic_fraud = t.is_synthetic_fraud;
          fraud_pattern = t.fraud_pattern;
        }

    unfoldable pub build_feature_row :
        Transaction
        → Option Baseline
        → Option Location
        → ℕ
        → List Str
        → Bool
        → Result Failure FeatureRow
    build_feature_row t baseline last_loc velocity devices validate =
        let geo = geo_features last_loc t in
        zscore_of (or_zero t.amount) (avg_of baseline) (stddev_of baseline) >>= λ zscore.
        signal (m.of_nat velocity) (number 5) >>= λ v15.
        signal (abs_float zscore) (number 3) >>= λ amt_signal.
        signal (or_zero geo.distance_km) (number 500) >>= λ geo_signal.
        compute_implied_speed_kmh m geo.distance_km geo.elapsed_min >>= λ speed.
        checked validate
          (feature_row t baseline velocity devices geo zscore speed v15 amt_signal geo_signal)
