-- ===== src/Stream/Engine/Isolation.antt =====
-- A transaction that is quarantined leaves no trace in the state.
use agentic_fraud_decisionin.Common.{
  ℕ, suc, Str, str_eq, str_eq_iff, str_eq_refl, mem_str, ◌≡◌, refl, sym, ap, ◌∙◌, Bool, true, false,
  Option, none, some, List, [], ◌∷◌, ◌++◌, map, any-append, All, Bool-cases, inl, inr, arith,
}
use agentic_fraud_decisionin.Common.Result.{Result, ok, err}
use agentic_fraud_decisionin.Common.Map.{Map, find}
use agentic_fraud_decisionin.Stream.Scoring.{Failure}
use agentic_fraud_decisionin.Stream.Scoring.Row.{FeatureRow, Location}
use agentic_fraud_decisionin.Stream.Redis.{
  Redis, unique, count_of, get_last_locations_batch, get_velocity_batch,
}
use agentic_fraud_decisionin.Stream.Engine.{
  Arrival, Outside, Setup, State, Computed, is_empty_list, isolate, build, compute, write_out,
  process_batch, read_locations, read_velocities,
}

-- A dictionary over the distinct users of a batch answers for each of them.
find-unique :
    {A : Type 0} (f : Str → A) (u : Str) (ids : List Str)
    → mem_str u ids ≡ true
    → find u (map (λ v. (v, f v)) (unique ids)) ≡ some (f u)
unfolding find unique
find-unique f u [] h = cc
find-unique f u (v ∷ vs) h = elim (Bool-cases (mem_str v vs)) [
  | inl e ↦ rw e (
      find-unique f u vs (elim (Bool-cases (str_eq u v)) [
        | inl q ↦ rw ((str_eq_iff u v).0 q) e
        | inr q ↦ ground (arith, h, q)
      ]))
  | inr e ↦ rw e (elim (Bool-cases (str_eq u v)) [
    | inl q ↦ rw (q, (str_eq_iff u v).0 q) refl
    | inr q ↦ rw q (find-unique f u vs (ground (arith, h, q)))
  ])
]

-- What a batch reads for one of its users does not depend on the others.
last_location : Bool → Option Redis → Str → Option (Option Location)
last_location up none u = none
last_location true (some r) u = some (find u r.location)
last_location false (some r) u = some none

find-locations :
    (up : Bool) (redis : Option Redis) (u : Str) (ids : List Str)
    → mem_str u ids ≡ true
    → find u (get_last_locations_batch up redis ids) ≡ last_location up redis u
unfolding get_last_locations_batch last_location find
find-locations up none u ids h = refl
find-locations true (some r) u ids h = find-unique (λ v. find v r.location) u ids h
find-locations false (some r) u ids h = find-unique (λ v. none) u ids h

last_velocity : Bool → Option Redis → Str → Option ℕ
last_velocity up none u = none
last_velocity true (some r) u = some (count_of (find u r.velocity))
last_velocity false (some r) u = some 0

find-velocities :
    (up : Bool) (redis : Option Redis) (u : Str) (ids : List Str)
    → mem_str u ids ≡ true
    → find u (get_velocity_batch up redis ids) ≡ last_velocity up redis u
unfolding get_velocity_batch last_velocity find
find-velocities up none u ids h = refl
find-velocities true (some r) u ids h = find-unique (λ v. count_of (find v r.velocity)) u ids h
find-velocities false (some r) u ids h = find-unique (λ v. 0) u ids h

abbrev users : List Arrival → List Str
users rows = map (λ a. a.txn.user_id) rows

-- Every row's user is among the identifiers.
abbrev IsCovered : List Str → List Arrival → Type 0
IsCovered ids rows = All (λ a. mem_str a.txn.user_id ids ≡ true) rows

IsCovered-cons :
    (u : Str) (ids : List Str) (rows : List Arrival) → IsCovered ids rows → IsCovered (u ∷ ids) rows
IsCovered-cons u ids [] h = tt
IsCovered-cons u ids (a ∷ rows) h = (ground (arith, h.0), IsCovered-cons u ids rows h.1)

IsCovered-append :
    (ids more : List Str) (rows : List Arrival) → IsCovered ids rows → IsCovered (ids ++ more) rows
IsCovered-append ids more [] h = tt
IsCovered-append ids more (a ∷ rows) h =
    (any-append (str_eq a.txn.user_id) ids more ∙ rw h.0 refl, IsCovered-append ids more rows h.1)

IsCovered-users : (rows : List Arrival) → IsCovered (users rows) rows
IsCovered-users [] = tt
IsCovered-users (a ∷ rows) = (
  ground (arith, str_eq_refl a.txn.user_id),
  IsCovered-cons a.txn.user_id (users rows) rows (IsCovered-users rows),
)

-- The users of a batch with one row more cover those of the rest.
IsCovered-insert :
    (xs ys : List Arrival) (bad : Arrival) → IsCovered (users (xs ++ bad ∷ ys)) (xs ++ ys)
IsCovered-insert [] ys bad = IsCovered-cons bad.txn.user_id (users ys) ys (IsCovered-users ys)
IsCovered-insert (x ∷ xs) ys bad = (
  ground (arith, str_eq_refl x.txn.user_id),
  IsCovered-cons x.txn.user_id (users (xs ++ bad ∷ ys)) (xs ++ ys) (IsCovered-insert xs ys bad),
)

module _ (setup : Setup) where
  -- What is computed does not depend on which identifiers the reads were made for.
  build-covered :
      (outside : Outside) (redis : Option Redis) (ids more : List Str) (a : Arrival)
      → mem_str a.txn.user_id ids ≡ true
      → mem_str a.txn.user_id more ≡ true
      → build setup
          (get_last_locations_batch outside.locations_read redis ids)
          (get_velocity_batch outside.velocities_read redis ids)
          a
        ≡ build setup
            (get_last_locations_batch outside.locations_read redis more)
            (get_velocity_batch outside.velocities_read redis more)
            a
  build-covered outside redis ids more a h k =
      rw
        (
          find-locations outside.locations_read redis a.txn.user_id ids h,
          find-locations outside.locations_read redis a.txn.user_id more k,
          find-velocities outside.velocities_read redis a.txn.user_id ids h,
          find-velocities outside.velocities_read redis a.txn.user_id more k,
        )
        refl

  compute-covered :
      (outside : Outside) (redis : Option Redis) (ids more : List Str) (rows : List Arrival)
      → IsCovered ids rows
      → IsCovered more rows
      → compute setup
          (get_last_locations_batch outside.locations_read redis ids)
          (get_velocity_batch outside.velocities_read redis ids)
          rows
        ≡ compute setup
            (get_last_locations_batch outside.locations_read redis more)
            (get_velocity_batch outside.velocities_read redis more)
            rows
  unfolding compute
  compute-covered outside redis ids more [] h k = refl
  compute-covered outside redis ids more (a ∷ rows) h k =
      rw
        (
          build-covered outside redis ids more a h.0 k.0,
          compute-covered outside redis ids more rows h.1 k.1,
        )
        refl

  -- Quarantined only counts.
  abbrev counted : Computed → Computed
  counted c = record c { quarantined = suc c.quarantined }

  isolate-counted :
      (now : Str) (r : Result Failure FeatureRow) (c : Computed)
      → isolate now r (counted c) ≡ counted (isolate now r c)
  isolate-counted now (ok fd) c = refl
  isolate-counted now (err e) c = refl

  compute-insert :
      (locations : Map (Option Location)) (velocities : Map ℕ) (xs ys : List Arrival)
      (bad : Arrival) {e : Failure}
      → build setup locations velocities bad ≡ err e
      → compute setup locations velocities (xs ++ bad ∷ ys)
        ≡ counted (compute setup locations velocities (xs ++ ys))
  unfolding compute
  compute-insert locations velocities [] ys bad h = rw h refl
  compute-insert locations velocities (x ∷ xs) ys bad h =
      rw (compute-insert locations velocities xs ys bad h) (
        isolate-counted x.projected_at (build setup locations velocities x)
          (compute setup locations velocities (xs ++ ys)))

  write_out-counted :
      (outside : Outside) (c : Computed) (st : State)
      → write_out setup outside (counted c) st ≡ write_out setup outside c st
  unfolding write_out
  write_out-counted outside c st = refl

  computed : Outside → State → List Arrival → Computed
  computed outside st rows =
      compute setup (read_locations setup outside st rows) (read_velocities setup outside st rows)
        rows

  process_batch-computed :
      (outside : Outside) (rows : List Arrival) (st : State)
      → is_empty_list rows ≡ false
      → process_batch setup outside rows st ≡ write_out setup outside (computed outside st rows) st
  unfolding process_batch computed
  process_batch-computed outside [] st h = cc
  process_batch-computed outside (a ∷ rows) st h = refl

  computed-insert :
      (outside : Outside) (xs ys : List Arrival) (bad : Arrival) (st : State) {e : Failure}
      → build setup
          (read_locations setup outside st (xs ++ bad ∷ ys))
          (read_velocities setup outside st (xs ++ bad ∷ ys))
          bad
        ≡ err e
      → computed outside st (xs ++ bad ∷ ys) ≡ counted (computed outside st (xs ++ ys))
  unfolding computed
  computed-insert outside xs ys bad st h =
      let rows = xs ++ bad ∷ ys in
      compute-insert (read_locations setup outside st rows) (read_velocities setup outside st rows)
        xs ys bad h
      ∙ ap counted (
          compute-covered outside st.redis (users rows) (users (xs ++ ys)) (xs ++ ys)
            (IsCovered-insert xs ys bad) (IsCovered-users (xs ++ ys)))

  insert-nonempty : (xs ys : List Arrival) (bad : Arrival) → is_empty_list (xs ++ bad ∷ ys) ≡ false
  insert-nonempty [] ys bad = refl
  insert-nonempty (x ∷ xs) ys bad = refl

  -- A transaction whose row cannot be built, for whatever reason, leaves no trace: with it, wherever
  -- it stands in a batch that holds another transaction, the batch ends in the same state, and
  -- returns or raises in the same way, as without it.
  pub process_batch-quarantine :
      (outside : Outside) (xs ys : List Arrival) (bad : Arrival) (st : State) {e : Failure}
      → is_empty_list (xs ++ ys) ≡ false
      → build setup
          (read_locations setup outside st (xs ++ bad ∷ ys))
          (read_velocities setup outside st (xs ++ bad ∷ ys))
          bad
        ≡ err e
      → process_batch setup outside (xs ++ bad ∷ ys) st ≡ process_batch setup outside (xs ++ ys) st
  process_batch-quarantine outside xs ys bad st some_rows h =
      process_batch-computed outside (xs ++ bad ∷ ys) st (insert-nonempty xs ys bad)
      ∙ ap (λ c. write_out setup outside c st) (computed-insert outside xs ys bad st h)
      ∙ write_out-counted outside (computed outside st (xs ++ ys)) st
      ∙ sym (process_batch-computed outside (xs ++ ys) st some_rows)
