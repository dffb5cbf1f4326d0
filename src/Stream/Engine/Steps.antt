-- ===== src/Stream/Engine/Steps.antt =====
-- The two streaming queries as steps on the shared state, and what holds after any of them.
use agentic_fraud_decisionin.Common.{
  ℕ, Str, ◌≡◌, refl, sym, subst, Bool, true, false, not, ◌&&◌, Option, some, List, [], ◌∷◌, All,
  Bool-cases, inl, inr,
}
use agentic_fraud_decisionin.Common.Result.{Result, ok, err}
use agentic_fraud_decisionin.Common.Map.{Map}
use agentic_fraud_decisionin.Stream.Scoring.{Failure}
use agentic_fraud_decisionin.Stream.Scoring.Row.{
  Transaction, Baseline, Location, FeatureRow, build_feature_row,
}
use agentic_fraud_decisionin.Stream.Redis.{Redis, Window, write_batch, write_velocity_batch}
use agentic_fraud_decisionin.Stream.Redis.Trusted.{
  IsTrusted, write_batch-IsTrusted, write_velocity_batch-location,
}
use agentic_fraud_decisionin.Stream.Sinks.{SnowflakeRow}
use agentic_fraud_decisionin.Stream.Engine.{
  Arrival, Outside, Setup, State, Computed, isolate, build, compute, stage, insert, is_connected,
  is_empty_list, write_out, process_batch, read_locations, read_velocities,
}

module _ (setup : Setup) where
  -- A row that build_feature_row returned, with validation.
  pub record IsValidated (fd : FeatureRow) : Type 0 where
    pub txn : Transaction
    pub baseline : Option Baseline
    pub last_loc : Option Location
    pub velocity : ℕ
    pub devices : List Str
    pub snapshot_id : Str
    pub now : Str
    pub built :
        build_feature_row setup.maths setup.scoring snapshot_id now txn baseline last_loc velocity
          devices true
        ≡ ok fd

  isolate-All :
      (now : Str) (r : Result Failure FeatureRow) (c : Computed)
      → ((fd : FeatureRow) → r ≡ ok fd → IsValidated fd)
      → All IsValidated c.features
      → All IsValidated (isolate now r c).features
  isolate-All now (ok fd) c v h = (v fd refl, h)
  isolate-All now (err e) c v h = h

  compute-All :
      (locations : Map (Option Location)) (velocities : Map ℕ) (rows : List Arrival)
      → All IsValidated (compute setup locations velocities rows).features
  unfolding compute
  compute-All locations velocities [] = tt
  compute-All locations velocities (a ∷ rows) =
      isolate-All a.projected_at (build setup locations velocities a)
        (compute setup locations velocities rows)
        (λ fd e. record {
          txn = a.txn;
          baseline = _;
          last_loc = _;
          velocity = _;
          devices = _;
          snapshot_id = a.snapshot_id;
          now = a.built_at;
          built = e;
        })
        (compute-All locations velocities rows)

  insert-redis :
      (inserted : Bool) (rows : List SnowflakeRow) (st : State)
      → (insert setup inserted rows st).0.redis ≡ st.redis
  insert-redis inserted [] st = refl
  insert-redis true (r ∷ rows) st = refl
  insert-redis false (r ∷ rows) st = refl

  write_out-redis :
      (outside : Outside) (c : Computed) (st : State) (P : Option Redis → Type 0)
      → P st.redis
      → P (write_batch c.features st.redis)
      → P (write_out setup outside c st).0.redis
  unfolding write_out stage
  write_out-redis outside c st P before after =
      let next = record st { redis = write_batch c.features st.redis } in
      elim (Bool-cases
        (is_connected st.redis && not (is_empty_list c.features) && not outside.redis_written)) [
          | inl e ↦ rw e before
          | inr e ↦ elim (Bool-cases setup.direct) [
            | inl d ↦
                rw e (simp (d) (subst P (sym (insert-redis outside.inserted c.sf_rows next)) after))
            | inr d ↦ rw e (simp (d) after)
          ]
        ]

  -- A micro-batch of the main query, whether it returns or raises, or one of the velocity query.
  pub data Step : State → State → Type 0 where
    batch :
        (outside : Outside) (rows : List Arrival) (st : State)
        → Step st (process_batch setup outside rows st).0
    velocities :
        (rows : List Window) (flag_threshold : ℕ) (r : Redis) (st : State)
        → st.redis ≡ some r
        → Step st (record st { redis = some (write_velocity_batch r rows flag_threshold).0 })

  pub data Run : State → State → Type 0 where
    start : (st : State) → Run st st
    more : {a b c : State} → Run a b → Step b c → Run a c

  process_batch-IsTrusted :
      (outside : Outside) (rows : List Arrival) (st : State)
      → IsTrusted IsValidated st.redis
      → IsTrusted IsValidated (process_batch setup outside rows st).0.redis
  unfolding process_batch
  process_batch-IsTrusted outside [] st h = h
  process_batch-IsTrusted outside (a ∷ rows) st h =
      let locations = read_locations setup outside st (a ∷ rows) in
      let counts = read_velocities setup outside st (a ∷ rows) in
      let c = compute setup locations counts (a ∷ rows) in
      write_out-redis outside c st (IsTrusted IsValidated) h (
        write_batch-IsTrusted IsValidated c.features st.redis
          (compute-All locations counts (a ∷ rows)) h)

  Step-IsTrusted :
      {a b : State} → Step a b → IsTrusted IsValidated a.redis → IsTrusted IsValidated b.redis
  Step-IsTrusted (batch outside rows st) h = process_batch-IsTrusted outside rows st h
  Step-IsTrusted (velocities rows n r st e) h =
      rw (write_velocity_batch-location rows n r) (subst (IsTrusted IsValidated) e h)

  -- The two queries, interleaved in any way and with any calls raising, keep every last location of
  -- the store the location of a row that build_feature_row returned with validation, for that user,
  -- and that is not suspect; so no suspect location becomes a baseline.
  pub Run-IsTrusted :
      {a b : State} → Run a b → IsTrusted IsValidated a.redis → IsTrusted IsValidated b.redis
  Run-IsTrusted (start st) h = h
  Run-IsTrusted (more run step) h = Step-IsTrusted step (Run-IsTrusted run h)
