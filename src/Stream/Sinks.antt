-- ===== src/Stream/Sinks.antt =====
-- The row that goes to the warehouse (to_snowflake_row of
-- fraud_platform/stream_processing/scoring.py), and S3FeatureWriter of
-- fraud_platform/stream_processing/feature_engine.py: rows are buffered and flushed as one file.
pub mod Laws
use agentic_fraud_decisionin.Common.{
  ℕ, suc, Str, Bool, true, false, ◌||◌, Option, none, some, List, [], ◌∷◌, ◌++◌, length, leb,
  if◌then◌else◌,
}
use agentic_fraud_decisionin.Common.Float.{Float}
use agentic_fraud_decisionin.Stream.Scoring.Row.{FeatureRow}

pub record SnowflakeRow : Type 0 where
  pub snapshot_id : Str
  pub transaction_id : Str
  pub user_id : Str
  pub user_surrogate_key : Str
  pub velocity_5min : Option ℕ
  pub velocity_15min : ℕ
  pub velocity_1hr : Option ℕ
  pub velocity_24hr : Option ℕ
  pub txn_amount : Float
  pub user_avg_amount : Float
  pub user_stddev_amount : Float
  pub amount_zscore : Float
  pub prev_transaction_city : Option Str
  pub prev_transaction_ts : Option Str
  pub geo_distance_km : Option Float
  pub time_since_last_txn_min : Option Float
  pub is_new_device : Bool
  pub device_id : Option Str
  pub risk_score_raw : Float
  pub is_flagged_for_review : Bool
  pub is_synthetic_fraud : Option Bool
  pub fraud_pattern : Option Str
  pub computed_at : Str

-- `computed_at` is the time of the projection.
unfoldable pub to_snowflake_row : FeatureRow → Str → SnowflakeRow
to_snowflake_row fd now = record {
  snapshot_id = fd.snapshot_id;
  transaction_id = fd.transaction_id;
  user_id = fd.user_id;
  user_surrogate_key = fd.user_surrogate_key;
  velocity_5min = fd.velocity_5min;
  velocity_15min = fd.velocity_15min;
  velocity_1hr = fd.velocity_1hr;
  velocity_24hr = fd.velocity_24hr;
  txn_amount = fd.txn_amount;
  user_avg_amount = fd.user_avg_amount;
  user_stddev_amount = fd.user_stddev_amount;
  amount_zscore = fd.amount_zscore;
  prev_transaction_city = fd.prev_transaction_city;
  prev_transaction_ts = fd.prev_transaction_ts;
  geo_distance_km = fd.geo_distance_km;
  time_since_last_txn_min = fd.time_since_last_txn_min;
  is_new_device = fd.is_new_device;
  device_id = fd.device_id;
  risk_score_raw = fd.risk_score_raw;
  is_flagged_for_review = fd.is_flagged_for_review;
  is_synthetic_fraud = fd.is_synthetic_fraud;
  fraud_pattern = fd.fraud_pattern;
  computed_at = now;
}

-- FLUSH_EVERY_N_BATCHES and FLUSH_MAX_ROWS.
pub record FlushConfig : Type 0 where
  pub flush_every_n_batches : ℕ
  pub flush_max_rows : ℕ

abbrev pub default_flush : FlushConfig
default_flush = record { flush_every_n_batches = 5; flush_max_rows = 50000 }

-- The writer's buffer, and the files that the bucket holds, the last one first.
pub record S3Writer : Type 0 where
  pub buffer : List SnowflakeRow
  pub batches_since_flush : ℕ
  pub files : List (List SnowflakeRow)

unfoldable pub add_batch : List SnowflakeRow → S3Writer → S3Writer
add_batch rows w = record w {
  buffer = w.buffer ++ rows;
  batches_since_flush = suc w.batches_since_flush;
}

unfoldable pub should_flush : FlushConfig → S3Writer → Bool
should_flush c w =
    leb c.flush_every_n_batches w.batches_since_flush || leb c.flush_max_rows (length w.buffer)

-- The flush; `put` is false when put_object raises, which leaves the buffer as it is. The result
-- says whether the call returned.
unfoldable pub flush : Bool → S3Writer → S3Writer × Bool
flush put w = elim w.buffer [
  | [] ↦ (w, true)
  | r ∷ rest ↦
      if put
      then (record { buffer = []; batches_since_flush = 0; files = (r ∷ rest) ∷ w.files }, true)
      else (w, false)
]
