-- ===== src/Stream/Scoring.antt =====
-- fraud_platform/stream_processing/scoring.py: from one parsed transaction to one feature row. The
-- arithmetic of doubles and the difference of two timestamps stay operations of a record, with no
-- law assumed; comparisons are exact.
pub mod Row
pub mod Laws
pub mod Safety
use agentic_fraud_decisionin.Common.{
  ℕ, ◌*◌, ◌^◌, Str, codes, mem_str, Bool, true, false, not, ◌&&◌, ◌||◌, Option, none, some, List,
  [], ◌∷◌, if◌then◌else◌,
}
use agentic_fraud_decisionin.Common.Int.{ℤ, pos, negsuc, pos_part, neg_part}
use agentic_fraud_decisionin.Common.Float.{
  Float, nan, inf, neg_inf, finite, of_int, leb_float, ltb_float, eqb_float, is_not_finite,
}
use agentic_fraud_decisionin.Common.Value.{Value}
use agentic_fraud_decisionin.Common.Result.{Result, ok, err, ◌>>=◌, ◌>>◌, require}
use agentic_fraud_decisionin.Db.Validators.{
  Error, invalid, validate_amount, validate_probability, validate_identified_pattern, not_finite,
}

-- Operations that may raise return an option; `round x n` is `round(x, n)`, and `minutes_between`
-- is the time from a text that datetime.fromisoformat reads to a timestamp.
pub record Maths : Type 0 where
  pub add : Float → Float → Float
  pub sub : Float → Float → Float
  pub mul : Float → Float → Float
  pub div : Float → Float → Option Float
  pub radians : Float → Float
  pub sin : Float → Option Float
  pub cos : Float → Option Float
  pub asin : Float → Option Float
  pub sqrt : Float → Option Float
  pub square : Float → Option Float
  pub round : Float → ℕ → Float
  pub of_nat : ℕ → Float
  pub minutes_between : Str → Str → Option Float

-- A ValidationError, or another exception.
pub data Failure : Type 0 where
  validation : Error → Failure
  other : Failure

abbrev pub number : ℕ → Float
number n = of_int (pos n)

-- The double m / 2 ^ (1074 - e).
unfoldable pub double : ℕ → ℕ → Float
double m e = finite (pos (m * 2 ^ e))

pub record Weights : Type 0 where
  pub velocity_15min : Float
  pub amount_zscore : Float
  pub geo_distance : Float
  pub new_device : Float

-- RISK_WEIGHTS: 0.30, 0.25, 0.25 and 0.20.
abbrev pub risk_weights : Weights
risk_weights = record {
  velocity_15min = double 5404319552844595 1020;
  amount_zscore = double 1 1072;
  geo_distance = double 1 1072;
  new_device = double 3602879701896397 1020;
}

-- The thresholds that build_feature_row reads from its config.
pub record Config : Type 0 where
  pub weights : Weights
  pub risk_flag_threshold : Float
  pub hard_rule_amount_threshold : Float
  pub hard_rule_velocity_threshold : Float

-- 0.60, 0.95 and 1.0.
abbrev pub default_config : Config
default_config = record {
  weights = risk_weights;
  risk_flag_threshold = double 5404319552844595 1021;
  hard_rule_amount_threshold = double 4278419646001971 1022;
  hard_rule_velocity_threshold = number 1;
}

abbrev pub hard_rule_geo_min_jump_km : Float
hard_rule_geo_min_jump_km = number 3000

abbrev pub impossible_travel_speed_kmh : Float
impossible_travel_speed_kmh = number 900

abbrev pub speed_rule_min_distance_km : Float
speed_rule_min_distance_km = number 100

-- `x` as a truth value: NaN is true, both zeros are false.
abbrev pub is_zero : Float → Bool
is_zero x = eqb_float x (number 0)

-- `min(a, b)`
abbrev pub min_float : Float → Float → Float
min_float a b = if ltb_float b a then b else a

-- `abs(x)`
abbrev pub abs_float : Float → Float
abs_float nan = nan
abs_float inf = inf
abs_float neg_inf = inf
abs_float (finite (pos n)) = finite (pos n)
abs_float (finite (negsuc n)) = finite (pos (neg_part (negsuc n)))

abbrev pub attempt {ℓ} : {A : Type ℓ} → Option A → Result Failure A
attempt none = err other
attempt (some a) = ok a

unfoldable pub geo_hard_rule : Option Float → Option Float → Bool
geo_hard_rule none speed = false
geo_hard_rule (some d) none = leb_float hard_rule_geo_min_jump_km d
geo_hard_rule (some d) (some v) =
    if leb_float hard_rule_geo_min_jump_km d
    then true
    else ltb_float impossible_travel_speed_kmh v && leb_float speed_rule_min_distance_km d

module _ (m : Maths) where
  unfoldable pub haversine_distance :
      Option Float → Option Float → Option Float → Option Float → Result Failure (Option Float)
  haversine_distance (some lat1) (some lon1) (some lat2) (some lon2) =
      let a1 = m.radians lat1 in
      let a2 = m.radians lat2 in
      let dlat = m.sub a2 a1 in
      let dlon = m.sub (m.radians lon2) (m.radians lon1) in
      attempt (m.div dlat (number 2)) >>= λ half_lat. attempt (m.sin half_lat) >>= λ sin_lat.
      attempt (m.square sin_lat) >>= λ first. attempt (m.cos a1) >>= λ cos1.
      attempt (m.cos a2) >>= λ cos2. attempt (m.div dlon (number 2)) >>= λ half_lon.
      attempt (m.sin half_lon) >>= λ sin_lon. attempt (m.square sin_lon) >>= λ second.
      attempt (m.sqrt (m.add first (m.mul (m.mul cos1 cos2) second))) >>= λ root.
      attempt (m.asin root) >>= λ angle. ok (some (m.mul (m.mul (number 6371) (number 2)) angle))
  haversine_distance _ _ _ _ = ok none

  unfoldable pub compute_implied_speed_kmh :
      Option Float → Option Float → Result Failure (Option Float)
  compute_implied_speed_kmh (some d) (some t) =
      if is_zero t || leb_float t (number 0)
      then ok none
      else attempt (m.div t (number 60)) >>= λ hours.
          attempt (m.div d hours) >>= λ speed. ok (some speed)
  compute_implied_speed_kmh _ _ = ok none

  unfoldable pub compute_risk_score : Float → Float → Float → Float → Weights → Float
  compute_risk_score v15 amt_signal geo_signal dev_signal w =
      let score =
        m.add
          (m.add (m.add (m.mul w.velocity_15min v15) (m.mul w.amount_zscore amt_signal))
            (m.mul w.geo_distance geo_signal))
          (m.mul w.new_device dev_signal) in
      m.round (min_float score (number 1)) 4
