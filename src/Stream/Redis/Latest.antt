-- ===== src/Stream/Redis/Latest.antt =====
-- RedisFeatureWriter.write_batch: the store holds the latest row of each user.
use agentic_fraud_decisionin.Common.{
  Str, str_eq, ◌≡◌, false, Option, none, some, List, [], ◌∷◌, any, ◌⊎◌, if◌then◌else◌,
}
use agentic_fraud_decisionin.Common.Map.{Map, find}
use agentic_fraud_decisionin.Stream.Scoring.Row.{FeatureRow, Location}
use agentic_fraud_decisionin.Stream.Redis.{Redis, offered, has_user, location_of}
use agentic_fraud_decisionin.Stream.Redis.Laws.{IsLatest}

-- One round of the loop.
abbrev step : Map FeatureRow → FeatureRow → Map FeatureRow
step seen f = if has_user f then offered (find f.user_id seen) f seen else seen

-- A key stands once.
abbrev IsDistinct : Map FeatureRow → Type 0
IsDistinct [] = Unit {0}
IsDistinct (e ∷ rest) = (find e.0 rest ≡ none) × IsDistinct rest

-- The features and the location that a user has after a row, or as before without one.
abbrev pub new_features : Option FeatureRow → Option FeatureRow → Option FeatureRow
new_features none old = old
new_features (some f) old = some f

abbrev pub new_location : Option FeatureRow → Option Location → Option Location
new_location none old = old
new_location (some f) old = if f.suspect_location then old else some (location_of f)

-- What the store holds for a user after a dictionary of rows is written.
abbrev IsWritten : Str → Map FeatureRow → Redis → Redis → Type 0
IsWritten u d r s =
    (find u s.features ≡ new_features (find u d) (find u r.features))
    × (find u s.location ≡ new_location (find u d) (find u r.location))

-- What a batch does to the store for one user: nothing without a row of the user; and otherwise the
-- features are its latest row, and the location is that row's unless the row is suspect.
abbrev pub IsUpdated : Str → List FeatureRow → Redis → Redis → Type 0
IsUpdated u rows r s =
    ((any (λ g. str_eq g.user_id u) rows ≡ false)
      × (find u s.features ≡ find u r.features)
      × (find u s.location ≡ find u r.location))
    ⊎ ((row : FeatureRow) × IsLatest u rows row
        × (find u s.features ≡ some row)
        × (find u s.location
            ≡ (if row.suspect_location then find u r.location else some (location_of row))))
