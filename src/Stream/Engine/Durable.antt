-- ===== src/Stream/Engine/Durable.antt =====
-- No row of a batch that reaches the staging writer is lost, whichever call raises.
use agentic_fraud_decisionin.Common.{
  ◌<◌, ◌≡◌, refl, ◌∙◌, Bool, true, false, not, ◌&&◌, ◌||◌, List, ◌∷◌, ◌++◌, length, ltb, Bool-cases,
  ◌⊎◌, inl, inr, arith,
}
use agentic_fraud_decisionin.Stream.Redis.{write_batch}
use agentic_fraud_decisionin.Stream.Sinks.{SnowflakeRow, S3Writer, add_batch, should_flush, flush}
use agentic_fraud_decisionin.Stream.Sinks.Laws.{held, held-flush, held-add_batch, flush-buffer}
use agentic_fraud_decisionin.Stream.Engine.{
  Arrival, Outside, Setup, State, Computed, compute, stage, write_out, process_batch,
  read_locations, read_velocities, is_connected, is_empty_list,
}

module _ (setup : Setup) where
  -- After staging, the rows stand behind those held before; and where the calls returned, the
  -- buffer is below FLUSH_MAX_ROWS.
  pub record IsStaged (rows : List SnowflakeRow) (before after : S3Writer) (returned : Bool)
      : Type 0 where
    pub kept : held after ≡ held before ++ rows
    pub bounded : (not returned || ltb (length after.buffer) setup.flushing.flush_max_rows) ≡ true

  flush-bounded :
      (put : Bool) (w : S3Writer)
      → 0 < setup.flushing.flush_max_rows
      → (not (flush put w).1 || ltb (length (flush put w).0.buffer) setup.flushing.flush_max_rows)
        ≡ true
  flush-bounded put w some_room = elim (Bool-cases (flush put w).1) [
    | inl e ↦ rw (e, flush-buffer put w e) (ground arith)
    | inr e ↦ rw e refl
  ]

  stage-IsStaged :
      (outside : Outside) (rows : List SnowflakeRow) (st : State)
      → 0 < setup.flushing.flush_max_rows
      → IsStaged rows st.s3 (stage setup outside rows st).0.s3 (stage setup outside rows st).1
  unfolding stage
  stage-IsStaged outside rows st some_room =
      let w = add_batch rows st.s3 in
      elim (Bool-cases (should_flush setup.flushing w)) [
        | inl e ↦ record {
          kept = rw e (held-flush outside.put w ∙ held-add_batch rows st.s3);
          bounded = rw e (flush-bounded outside.put w some_room);
        }
        | inr e ↦ record {
          kept = rw e (held-add_batch rows st.s3);
          bounded = rw e (unfold should_flush in ground (arith, e));
        }
      ]

  -- The warehouse rows that a batch computes.
  abbrev pub rows_of : Outside → List Arrival → State → List SnowflakeRow
  rows_of outside rows st =
      let c =
        compute setup (read_locations setup outside st rows) (read_velocities setup outside st rows)
          rows in
      c.sf_rows

  write_out-IsStaged :
      (outside : Outside) (c : Computed) (st : State)
      → setup.direct ≡ false
      → 0 < setup.flushing.flush_max_rows
      → (write_out setup outside c st ≡ (st, false))
        ⊎ IsStaged c.sf_rows st.s3
            (write_out setup outside c st).0.s3
            (write_out setup outside c st).1
  unfolding write_out
  write_out-IsStaged outside c st snowpipe some_room =
      let calls = is_connected st.redis && not (is_empty_list c.features) in
      elim (Bool-cases (calls && not outside.redis_written)) [
        | inl e ↦ inl (rw e refl)
        | inr e ↦
            let after = record st { redis = write_batch c.features st.redis } in
            inr (rw e (simp (snowpipe) (stage-IsStaged outside c.sf_rows after some_room)))
      ]

  -- On the Snowpipe path a batch either stops at the store and changes nothing, or adds the rows it
  -- computed behind those that the staging writer holds in its files and its buffer, also where the
  -- upload raises. If it returns, the buffer is below FLUSH_MAX_ROWS, which is taken to be positive.
  pub process_batch-IsStaged :
      (outside : Outside) (a : Arrival) (rows : List Arrival) (st : State)
      → setup.direct ≡ false
      → 0 < setup.flushing.flush_max_rows
      → (process_batch setup outside (a ∷ rows) st ≡ (st, false))
        ⊎ IsStaged
            (rows_of outside (a ∷ rows) st)
            st.s3
            (process_batch setup outside (a ∷ rows) st).0.s3
            (process_batch setup outside (a ∷ rows) st).1
  unfolding process_batch
  process_batch-IsStaged outside a rows st = write_out-IsStaged outside _ st
