-- ===== src/Stream/Engine/Tests.antt =====
-- Batches of the feature engine on a concrete store.
use agentic_fraud_decisionin.Common.{
  codes, str_eq, ◌≡◌, refl, true, false, some, [], ◌∷◌, ◌⊎◌, ltb→lt,
}
use agentic_fraud_decisionin.Common.Float.{nan, of_int, ulps, leb_float, ltb_float, eqb_float}
use agentic_fraud_decisionin.Common.Result.{err}
use agentic_fraud_decisionin.Db.Validators.{
  invalid, not_finite, validate_amount, validate_probability, validate_identified_pattern,
}
use agentic_fraud_decisionin.Common.Map.{find}
use agentic_fraud_decisionin.Stream.Scoring.{
  validation, default_config, double, geo_hard_rule, haversine_distance, compute_implied_speed_kmh,
  compute_risk_score,
}
use agentic_fraud_decisionin.Stream.Scoring.Row.{
  Transaction, ordering_guard, geo_features, validate_feature_row, build_feature_row,
}
use agentic_fraud_decisionin.Stream.Redis.{
  Redis, unique, get_last_locations_batch, get_velocity_batch,
}
use agentic_fraud_decisionin.Stream.Redis.Trusted.{IsTrusted}
use agentic_fraud_decisionin.Stream.Sinks.{default_flush}
use agentic_fraud_decisionin.Stream.Tests.{maths, purchase}
use agentic_fraud_decisionin.Stream.Engine.{
  Arrival, Outside, Setup, State, build, process_batch, read_locations, read_velocities,
}
use agentic_fraud_decisionin.Stream.Engine.Durable.{IsStaged, rows_of, process_batch-IsStaged}
use agentic_fraud_decisionin.Stream.Engine.Isolation.{process_batch-quarantine}
use agentic_fraud_decisionin.Stream.Engine.Steps.{start, more, batch, IsValidated, Run-IsTrusted}

abbrev setup : Setup
setup = record {
  maths = maths;
  scoring = default_config;
  flushing = default_flush;
  direct = false;
  user_baselines = [];
  trusted_devices = [];
}

abbrev all_up : Outside
all_up = record {
  locations_read = true;
  velocities_read = true;
  redis_written = true;
  inserted = true;
  put = true;
}

abbrev empty_store : State
empty_store = record {
  redis = some (record { features = []; location = []; velocity = [] });
  s3 = record { buffer = []; batches_since_flush = 0; files = [] };
  facts = [];
}

abbrev arrival : Transaction → Arrival
arrival t = record {
  txn = t;
  snapshot_id = codes "s1";
  built_at = codes "now";
  projected_at = codes "now";
}

abbrev good : Arrival
good = arrival (purchase (codes "later"))

abbrev corrupt : Arrival
corrupt = arrival (record (purchase (codes "later")) { amount = some nan })

build-corrupt :
    build setup
      (read_locations setup all_up empty_store (corrupt ∷ good ∷ []))
      (read_velocities setup all_up empty_store (corrupt ∷ good ∷ []))
      corrupt
    ≡ err (validation (invalid (codes "txn_amount") not_finite))
unfolding build_feature_row geo_features ordering_guard haversine_distance compute_implied_speed_kmh
    compute_risk_score geo_hard_rule validate_feature_row validate_amount validate_probability
    validate_identified_pattern double of_int ulps leb_float ltb_float eqb_float str_eq find unique
    get_last_locations_batch get_velocity_batch
build-corrupt = refl

process_batch-quarantine_example :
    process_batch setup all_up (corrupt ∷ good ∷ []) empty_store
    ≡ process_batch setup all_up (good ∷ []) empty_store
process_batch-quarantine_example =
    process_batch-quarantine setup all_up [] (good ∷ []) corrupt empty_store refl build-corrupt

process_batch-IsStaged_example :
    (process_batch setup all_up (good ∷ []) empty_store ≡ (empty_store, false))
    ⊎ IsStaged setup
        (rows_of setup all_up (good ∷ []) empty_store)
        empty_store.s3
        (process_batch setup all_up (good ∷ []) empty_store).0.s3
        (process_batch setup all_up (good ∷ []) empty_store).1
process_batch-IsStaged_example =
    process_batch-IsStaged setup all_up good [] empty_store refl (ltb→lt _ _ refl)

Run-IsTrusted_example :
    IsTrusted (IsValidated setup) (process_batch setup all_up (good ∷ []) empty_store).0.redis
Run-IsTrusted_example =
    Run-IsTrusted setup (more (start empty_store) (batch all_up (good ∷ []) empty_store)) tt
