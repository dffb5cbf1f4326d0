-- ===== src/Stream/Tests.antt =====
-- The feature engine on concrete transactions, with stand-ins for the arithmetic of doubles.
use agentic_fraud_decisionin.Common.{
  Str, codes, str_eq, ◌≡◌, refl, Bool, true, false, Option, none, some, [], if◌then◌else◌,
}
use agentic_fraud_decisionin.Common.Int.{negsuc}
use agentic_fraud_decisionin.Common.Float.{
  Float, finite, of_int, ulps, leb_float, ltb_float, eqb_float,
}
use agentic_fraud_decisionin.Common.Result.{ok}
use agentic_fraud_decisionin.Db.Validators.{
  validate_amount, validate_probability, validate_identified_pattern,
}
use agentic_fraud_decisionin.Stream.Scoring.{
  Maths, default_config, double, number, geo_hard_rule, haversine_distance,
  compute_implied_speed_kmh, compute_risk_score,
}
use agentic_fraud_decisionin.Stream.Scoring.Row.{
  Transaction, Location, FeatureRow, ordering_guard, geo_features, validate_feature_row, elapsed,
  build_feature_row,
}
use agentic_fraud_decisionin.Stream.Scoring.Laws.{IsStorable}
use agentic_fraud_decisionin.Stream.Scoring.Safety.{
  IsPositive, build_feature_row-IsStorable, build_feature_row-suspect,
  build_feature_row-out_of_order,
}

-- Stand-ins that keep their first argument; "early" is before every other time.
abbrev pub maths : Maths
maths = record {
  add = λ a b. a;
  sub = λ a b. a;
  mul = λ a b. a;
  div = λ a b. some a;
  radians = λ a. a;
  sin = λ a. some a;
  cos = λ a. some a;
  asin = λ a. some a;
  sqrt = λ a. some a;
  square = λ a. some a;
  round = λ a n. a;
  of_nat = number;
  minutes_between =
      λ prev now. if str_eq now (codes "early") then some (finite (negsuc 0)) else some (number 60);
}

abbrev pub home : Location
home = record {
  lat = some (number 43);
  lon = some (number 79);
  city = some (codes "Toronto");
  ts = some (codes "noon");
}

abbrev pub purchase : Str → Transaction
purchase ts = record {
  transaction_id = codes "t1";
  user_id = codes "u1";
  device_id = some (codes "d1");
  amount = some (number 10);
  city = some (codes "Lagos");
  country = some (codes "Nigeria");
  latitude = some (number 6);
  longitude = some (number 3);
  transaction_ts = some ts;
  is_synthetic_fraud = none;
  fraud_pattern = none;
}

abbrev built : Str → Bool → Option Float → Option Float → FeatureRow
built ts suspect shown elapsed = record {
  snapshot_id = codes "s1";
  transaction_id = codes "t1";
  user_id = codes "u1";
  user_surrogate_key = [];
  computed_at = codes "now";
  transaction_ts = some ts;
  velocity_5min = none;
  velocity_15min = 0;
  velocity_1hr = none;
  velocity_24hr = none;
  txn_amount = number 10;
  user_avg_amount = number 50;
  user_stddev_amount = number 20;
  amount_zscore = number 10;
  prev_transaction_city = some (codes "Toronto");
  prev_transaction_ts = some (codes "noon");
  geo_distance_km = shown;
  time_since_last_txn_min = elapsed;
  is_new_device = true;
  device_id = some (codes "d1");
  city = some (codes "Lagos");
  country = some (codes "Nigeria");
  latitude = some (number 6);
  longitude = some (number 3);
  suspect_location = suspect;
  risk_score_raw = double 5404319552844595 1020;
  is_flagged_for_review = true;
  is_synthetic_fraud = none;
  fraud_pattern = none;
}

abbrev pub jump : FeatureRow
jump = built (codes "later") true (some (number 6371)) (some (number 60))

abbrev stale : FeatureRow
stale = built (codes "early") false none none

jump_built :
    build_feature_row maths default_config
      (codes "s1")
      (codes "now")
      (purchase (codes "later"))
      none
      (some home)
      0
      []
      true
    ≡ ok jump
unfolding build_feature_row geo_features ordering_guard haversine_distance compute_implied_speed_kmh
    compute_risk_score geo_hard_rule validate_feature_row validate_amount validate_probability
    validate_identified_pattern double of_int ulps leb_float ltb_float eqb_float str_eq
jump_built = refl

stale_built :
    build_feature_row maths default_config
      (codes "s1")
      (codes "now")
      (purchase (codes "early"))
      none
      (some home)
      0
      []
      true
    ≡ ok stale
unfolding build_feature_row geo_features ordering_guard haversine_distance compute_implied_speed_kmh
    compute_risk_score geo_hard_rule validate_feature_row validate_amount validate_probability
    validate_identified_pattern double of_int ulps leb_float ltb_float eqb_float str_eq
stale_built = refl

early_is_late : leb_float (finite (negsuc 0)) (number 0) ≡ true
unfolding leb_float of_int ulps
early_is_late = refl

early_elapsed :
    elapsed maths home.ts (purchase (codes "early")).transaction_ts ≡ some (finite (negsuc 0))
unfolding str_eq
early_elapsed = refl

build_feature_row-IsStorable_example : IsStorable jump
build_feature_row-IsStorable_example =
    build_feature_row-IsStorable maths default_config (codes "s1") (codes "now")
      (purchase (codes "later")) none (some home) 0 [] jump_built

build_feature_row-suspect_example :
    (jump.is_flagged_for_review ≡ true)
    × ((d : Float) × ((geo_features maths (some home) (purchase (codes "later"))).distance_km
          ≡ some d)
        × (leb_float (number 100) d ≡ true)
        × IsPositive (geo_features maths (some home) (purchase (codes "later"))).elapsed_min)
build_feature_row-suspect_example =
    build_feature_row-suspect maths default_config (codes "s1") (codes "now")
      (purchase (codes "later")) none (some home) 0 [] true jump_built refl

build_feature_row-out_of_order_example :
    (stale.geo_distance_km ≡ none)
    × (stale.time_since_last_txn_min ≡ none)
    × (stale.suspect_location ≡ false)
build_feature_row-out_of_order_example =
    build_feature_row-out_of_order maths default_config (codes "s1") (codes "now")
      (purchase (codes "early")) none home 0 [] true (finite (negsuc 0)) stale_built early_elapsed
      early_is_late
