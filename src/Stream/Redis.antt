-- ===== src/Stream/Redis.antt =====
-- RedisFeatureWriter of fraud_platform/stream_processing/feature_engine.py: the latest features, the
-- last location and the velocity of each user. A client that is `none` is not connected. Values are
-- kept as they were before json.dumps, and keys do not expire.
pub mod Laws
pub mod Latest
pub mod Trusted
use agentic_fraud_decisionin.Common.{
  lt_str, ℕ, suc, Str, codes, str_eq, mem_str, Bool, true, false, not, ◌&&◌, ◌||◌, Option, none,
  some, List, [], ◌∷◌, map, ltb, ◌==◌, if◌then◌else◌,
}
use agentic_fraud_decisionin.Common.Map.{Map, find, set}
use agentic_fraud_decisionin.Stream.Scoring.Row.{FeatureRow, Location}

pub record Velocity : Type 0 where
  pub user_id : Str
  pub velocity_15min : ℕ
  pub window_start : Str
  pub window_end : Str
  pub is_flagged : Bool

pub record Redis : Type 0 where
  pub features : Map FeatureRow
  pub location : Map Location
  pub velocity : Map Velocity

-- `list(set(ids))`, up to its order.
unfoldable pub unique : List Str → List Str
unique [] = []
unique (u ∷ us) = let rest = unique us in if mem_str u us then rest else u ∷ rest

-- One MGET for the last locations; `up` is false when the call raises.
unfoldable pub get_last_locations_batch : Bool → Option Redis → List Str → Map (Option Location)
get_last_locations_batch up none ids = []
get_last_locations_batch true (some r) ids = map (λ u. (u, find u r.location)) (unique ids)
get_last_locations_batch false (some r) ids = map (λ u. (u, none)) (unique ids)

abbrev pub count_of : Option Velocity → ℕ
count_of none = 0
count_of (some v) = v.velocity_15min

unfoldable pub get_velocity_batch : Bool → Option Redis → List Str → Map ℕ
get_velocity_batch up none ids = []
get_velocity_batch true (some r) ids = map (λ u. (u, count_of (find u r.velocity))) (unique ids)
get_velocity_batch false (some r) ids = map (λ u. (u, 0)) (unique ids)

-- A window row that the velocity query hands over.
pub record Window : Type 0 where
  pub user_id : Str
  pub velocity_15min : ℕ
  pub window_start : Str
  pub window_end : Str

unfoldable pub write_velocity_batch : Redis → List Window → ℕ → Redis × ℕ
write_velocity_batch r [] flag_threshold = (r, 0)
write_velocity_batch r (row ∷ rest) flag_threshold =
    let is_flagged = ltb flag_threshold row.velocity_15min in
    let payload : Velocity = record {
      user_id = row.user_id;
      velocity_15min = row.velocity_15min;
      window_start = row.window_start;
      window_end = row.window_end;
      is_flagged = is_flagged;
    } in
    let later =
      write_velocity_batch (record r { velocity = set row.user_id payload r.velocity }) rest
        flag_threshold in
    (later.0, if is_flagged then suc later.1 else later.1)

-- `str(features.get("transaction_ts", ""))`
abbrev pub ts_text : FeatureRow → Str
ts_text f = elim f.transaction_ts [ none ↦ codes "None" | some s ↦ s ]

abbrev pub offered : Option FeatureRow → FeatureRow → Map FeatureRow → Map FeatureRow
offered none f seen = set f.user_id f seen
offered (some e) f seen = if lt_str (ts_text e) (ts_text f) then set f.user_id f seen else seen

abbrev pub has_user : FeatureRow → Bool
has_user f = not (str_eq f.user_id [])

-- The latest row of each user; rows without a user are passed over.
unfoldable pub latest_per_user : Map FeatureRow → List FeatureRow → Map FeatureRow
latest_per_user seen [] = seen
latest_per_user seen (f ∷ rest) =
    latest_per_user (if has_user f then offered (find f.user_id seen) f seen else seen) rest

abbrev pub location_of : FeatureRow → Location
location_of f = record { lat = f.latitude; lon = f.longitude; city = f.city; ts = f.transaction_ts }

-- The features of a user, and the location too unless it is suspect (the poisoning guard).
unfoldable pub write_features : Str → FeatureRow → Redis → Redis
write_features user f r = record {
  features = set user f r.features;
  location = if f.suspect_location then r.location else set user (location_of f) r.location;
  velocity = r.velocity;
}

unfoldable pub write_each : Map FeatureRow → Redis → Redis
write_each [] r = r
write_each (e ∷ rest) r = write_each rest (write_features e.0 e.1 r)

unfoldable pub write_batch : List FeatureRow → Option Redis → Option Redis
write_batch rows none = none
write_batch rows (some r) = some (write_each (latest_per_user [] rows) r)
