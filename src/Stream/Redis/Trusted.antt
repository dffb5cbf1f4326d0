-- ===== src/Stream/Redis/Trusted.antt =====
-- Where the locations of the store come from: rows that were written, and never a suspect one.
use agentic_fraud_decisionin.Common.{
  lt_str, ℕ, Str, ◌≡◌, refl, false, Option, none, some, List, [], ◌∷◌, All, Bool-cases, inl, inr,
}
use agentic_fraud_decisionin.Common.Map.{Map, find, set-All}
use agentic_fraud_decisionin.Stream.Scoring.Row.{FeatureRow, Location}
use agentic_fraud_decisionin.Stream.Redis.{
  Redis, Window, ts_text, offered, has_user, latest_per_user, location_of, write_features,
  write_each, write_batch, write_velocity_batch,
}

module _ (Good : FeatureRow → Type 0) where
  -- An entry that a good row of its user left, whose location is not suspect.
  pub record IsFrom (e : Str × Location) : Type 0 where
    pub row : FeatureRow
    pub good : Good row
    pub clean : row.suspect_location ≡ false
    pub user_eq : row.user_id ≡ e.0
    pub location_eq : location_of row ≡ e.1

  abbrev IsKeyed : Str × FeatureRow → Type 0
  IsKeyed e = (e.1.user_id ≡ e.0) × Good e.1

  offered-All :
      (o : Option FeatureRow) (f : FeatureRow) (seen : Map FeatureRow)
      → Good f
      → All IsKeyed seen
      → All IsKeyed (offered o f seen)
  offered-All none f seen g h = set-All IsKeyed f.user_id f seen (refl, g) h
  offered-All (some e) f seen g h = elim (Bool-cases (lt_str (ts_text e) (ts_text f))) [
    | inl q ↦ rw q (set-All IsKeyed f.user_id f seen (refl, g) h)
    | inr q ↦ rw q h
  ]

  latest_per_user-All :
      (seen : Map FeatureRow) (rows : List FeatureRow)
      → All IsKeyed seen
      → All Good rows
      → All IsKeyed (latest_per_user seen rows)
  unfolding latest_per_user
  latest_per_user-All seen [] h g = h
  latest_per_user-All seen (f ∷ rows) h g = elim (Bool-cases (has_user f)) [
    | inl q ↦ rw q (
        latest_per_user-All (offered (find f.user_id seen) f seen) rows
          (offered-All (find f.user_id seen) f seen g.0 h) g.1)
    | inr q ↦ rw q (latest_per_user-All seen rows h g.1)
  ]

  write_features-All :
      (k : Str) (f : FeatureRow) (r : Redis)
      → IsKeyed (k, f)
      → All IsFrom r.location
      → All IsFrom (write_features k f r).location
  unfolding write_features
  write_features-All k f r g h = elim (Bool-cases f.suspect_location) [
    | inl q ↦ rw q h
    | inr q ↦
        let from : IsFrom (k, location_of f) = record {
          row = f;
          good = g.1;
          clean = q;
          user_eq = g.0;
          location_eq = refl;
        } in
        rw q (set-All IsFrom k (location_of f) r.location from h)
  ]

  write_each-All :
      (d : Map FeatureRow) (r : Redis)
      → All IsKeyed d
      → All IsFrom r.location
      → All IsFrom (write_each d r).location
  unfolding write_each
  write_each-All [] r g h = h
  write_each-All (e ∷ d) r g h =
      write_each-All d (write_features e.0 e.1 r) g.1 (write_features-All e.0 e.1 r g.0 h)

  -- Every location of a connected store.
  abbrev pub IsTrusted : Option Redis → Type 0
  IsTrusted none = Unit {0}
  IsTrusted (some r) = All IsFrom r.location

  pub write_batch-IsTrusted :
      (rows : List FeatureRow) (o : Option Redis)
      → All Good rows
      → IsTrusted o
      → IsTrusted (write_batch rows o)
  unfolding write_batch
  write_batch-IsTrusted rows none g h = tt
  write_batch-IsTrusted rows (some r) g h =
      write_each-All (latest_per_user [] rows) r (latest_per_user-All [] rows tt g) h

-- The velocity query leaves features and locations alone.
pub write_velocity_batch-location :
    (rows : List Window) (n : ℕ) (r : Redis)
    → (write_velocity_batch r rows n).0.location ≡ r.location
unfolding write_velocity_batch
write_velocity_batch-location [] n r = refl
write_velocity_batch-location (w ∷ rows) n r = write_velocity_batch-location rows n _
