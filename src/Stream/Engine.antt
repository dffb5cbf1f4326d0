-- ===== src/Stream/Engine.antt =====
-- process_batch of FraudFeatureEngine (fraud_platform/stream_processing/feature_engine.py): one
-- micro-batch of parsed transactions, each in isolation, to the store and to the warehouse.
pub mod Isolation
pub mod Durable
pub mod Steps
mod Tests
use agentic_fraud_decisionin.Common.{
  ℕ, suc, Str, codes, str_eq, Bool, true, false, not, ◌&&◌, Option, none, some, List, [], ◌∷◌, ◌++◌,
  map, if◌then◌else◌,
}
use agentic_fraud_decisionin.Common.Result.{Result, ok, err}
use agentic_fraud_decisionin.Common.Map.{Map, find}
use agentic_fraud_decisionin.Stream.Scoring.{Maths, Config, Failure}
use agentic_fraud_decisionin.Stream.Scoring.Row.{
  Transaction, Baseline, Location, FeatureRow, build_feature_row,
}
use agentic_fraud_decisionin.Stream.Redis.{
  Redis, get_last_locations_batch, get_velocity_batch, write_batch,
}
use agentic_fraud_decisionin.Stream.Sinks.{
  SnowflakeRow, FlushConfig, S3Writer, to_snowflake_row, add_batch, should_flush, flush,
}

-- A transaction of the batch, with the identifier and the two times that its turn draws.
pub record Arrival : Type 0 where
  pub txn : Transaction
  pub snapshot_id : Str
  pub built_at : Str
  pub projected_at : Str

-- What the calls to other services do in this batch; false is a call that raises.
pub record Outside : Type 0 where
  pub locations_read : Bool
  pub velocities_read : Bool
  pub redis_written : Bool
  pub inserted : Bool
  pub put : Bool

-- The settings of the engine, and what it loaded at its start.
pub record Setup : Type 0 where
  pub maths : Maths
  pub scoring : Config
  pub flushing : FlushConfig
  pub direct : Bool
  pub user_baselines : Map Baseline
  pub trusted_devices : Map (List Str)

-- The store, the staging writer, and the rows of FACT_FEATURE_SNAPSHOTS that the direct path made.
pub record State : Type 0 where
  pub redis : Option Redis
  pub s3 : S3Writer
  pub facts : List SnowflakeRow

-- The rows that were computed, as features and as warehouse rows, and how many were quarantined.
pub record Computed : Type 0 where
  pub features : List FeatureRow
  pub sf_rows : List SnowflakeRow
  pub quarantined : ℕ

abbrev pub or_else {ℓ} : {A : Type ℓ} → Option A → A → A
or_else none a = a
or_else (some b) a = b

-- `locations.get(user_id)`
abbrev pub flatten {ℓ} : {A : Type ℓ} → Option (Option A) → Option A
flatten none = none
flatten (some o) = o

-- A row that raises is quarantined and logged, and the loop goes on.
abbrev pub isolate : Str → Result Failure FeatureRow → Computed → Computed
isolate projected_at (err e) c = record c { quarantined = suc c.quarantined }
isolate projected_at (ok fd) c = record c {
  features = fd ∷ c.features;
  sf_rows = to_snowflake_row fd projected_at ∷ c.sf_rows;
}

abbrev pub is_connected : Option Redis → Bool
is_connected none = false
is_connected (some r) = true

abbrev pub is_empty_list {ℓ} : {A : Type ℓ} → List A → Bool
is_empty_list [] = true
is_empty_list (x ∷ xs) = false

module _ (setup : Setup) where
  -- build_feature_row with what the batch read for the user.
  abbrev pub build : Map (Option Location) → Map ℕ → Arrival → Result Failure FeatureRow
  build locations velocities a =
      let user = a.txn.user_id in
      build_feature_row setup.maths setup.scoring a.snapshot_id a.built_at a.txn
        (find user setup.user_baselines) (flatten (find user locations))
        (or_else (find user velocities) 0) (or_else (find user setup.trusted_devices) []) true

  unfoldable pub compute : Map (Option Location) → Map ℕ → List Arrival → Computed
  compute locations velocities [] = record { features = []; sf_rows = []; quarantined = 0 }
  compute locations velocities (a ∷ rest) =
      isolate a.projected_at (build locations velocities a) (compute locations velocities rest)

  abbrev pub staged : State → S3Writer × Bool → State × Bool
  staged st r = (record st { s3 = r.0 }, r.1)

  unfoldable pub stage : Outside → List SnowflakeRow → State → State × Bool
  stage outside rows st =
      let w = add_batch rows st.s3 in
      staged st (if should_flush setup.flushing w then flush outside.put w else (w, true))

  -- One INSERT of all the rows, rolled back when it raises.
  abbrev pub insert : Bool → List SnowflakeRow → State → State × Bool
  insert inserted [] st = (st, true)
  insert true (r ∷ rows) st = (record st { facts = st.facts ++ (r ∷ rows) }, true)
  insert false (r ∷ rows) st = (st, false)

  abbrev pub read_locations : Outside → State → List Arrival → Map (Option Location)
  read_locations outside st rows =
      get_last_locations_batch outside.locations_read st.redis (map (λ a. a.txn.user_id) rows)

  abbrev pub read_velocities : Outside → State → List Arrival → Map ℕ
  read_velocities outside st rows =
      get_velocity_batch outside.velocities_read st.redis (map (λ a. a.txn.user_id) rows)

  -- The features to the store, unless that raises, and then the warehouse rows. A store that is
  -- not connected, or no rows, is no call.
  unfoldable pub write_out : Outside → Computed → State → State × Bool
  write_out outside c st =
      let calls = is_connected st.redis && not (is_empty_list c.features) in
      if calls && not outside.redis_written
      then (st, false)
      else (let after = record st { redis = write_batch c.features st.redis } in
          if setup.direct
          then insert outside.inserted c.sf_rows after
          else stage outside c.sf_rows after)

  -- The state after the batch, and whether the batch returned.
  unfoldable pub process_batch : Outside → List Arrival → State → State × Bool
  process_batch outside [] st = (st, true)
  process_batch outside (a ∷ rows) st =
      let c =
        compute (read_locations outside st (a ∷ rows)) (read_velocities outside st (a ∷ rows))
          (a ∷ rows) in
      write_out outside c st
