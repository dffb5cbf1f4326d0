-- ===== src/Stream/Scoring/Safety.antt =====
-- The guards of build_feature_row: what is stored, what is suspect, and events out of order.
use agentic_fraud_decisionin.Common.{
  ℕ, ◌*◌, ◌≤◌, Str, ◌≡◌, refl, sym, ap, ◌∙◌, Bool, true, false, ◌&&◌, Option, none, some, List,
  Bool-cases, inl, inr, arith,
}
use agentic_fraud_decisionin.Common.Float.{Float, leb_float, of_int, ulps}
use agentic_fraud_decisionin.Common.Float.Order.{leb_float_trans}
use agentic_fraud_decisionin.Common.Result.{ok, Result-cases}
use agentic_fraud_decisionin.Stream.Scoring.{
  Maths, Config, number, geo_hard_rule, hard_rule_geo_min_jump_km, speed_rule_min_distance_km,
  haversine_distance,
}
use agentic_fraud_decisionin.Stream.Scoring.Row.{
  Transaction, Baseline, Location, FeatureRow, Geo, geo_features, ordering_guard, build_feature_row,
  elapsed, truthy_float,
}
use agentic_fraud_decisionin.Stream.Scoring.Laws.{
  IsStorable, build_feature_row-IsBuilt, checked-IsStorable, checked-eq-ok,
}

number_le : (a b : ℕ) → a ≤ b → leb_float (number a) (number b) ≡ true
unfolding of_int leb_float
number_le a b h = let scaled : ulps * a ≤ ulps * b = grind arith in ground arith

-- A distance that trips the rule is at least the floor of the speed arm.
geo_hard_rule-floor :
    (d : Float) (speed : Option Float)
    → geo_hard_rule (some d) speed ≡ true
    → leb_float speed_rule_min_distance_km d ≡ true
unfolding geo_hard_rule
geo_hard_rule-floor d none h =
    leb_float_trans (number 100) (number 3000) d (number_le 100 3000 (omega arith)) h
geo_hard_rule-floor d (some v) h = elim (Bool-cases (leb_float hard_rule_geo_min_jump_km d)) [
  | inl e ↦ leb_float_trans (number 100) (number 3000) d (number_le 100 3000 (omega arith)) e
  | inr e ↦ ground (arith, e)
]

geo_hard_rule-some :
    (distance speed : Option Float)
    → geo_hard_rule distance speed ≡ true
    → (d : Float) × (distance ≡ some d)
unfolding geo_hard_rule
geo_hard_rule-some none speed h = cc
geo_hard_rule-some (some d) speed h = (d, refl)

-- A delta that is unknown or positive.
abbrev pub IsPositive : Option Float → Type 0
IsPositive none = Unit {0}
IsPositive (some x) = leb_float x (number 0) ≡ false

every-IsPositive :
    (o : Option Float) → ((x : Float) → o ≡ some x → leb_float x (number 0) ≡ false) → IsPositive o
every-IsPositive none h = tt
every-IsPositive (some x) h = h x refl

-- A delta that is kept beside a distance is positive.
ordering_guard-positive :
    (g : Geo) (d : Float)
    → (ordering_guard g).distance_km ≡ some d
    → (x : Float) → (ordering_guard g).elapsed_min ≡ some x
    → leb_float x (number 0) ≡ false
unfolding ordering_guard
ordering_guard-positive g d h x k = ground arith

module _ (m : Maths) where
  geo_features-positive :
      (loc : Option Location) (t : Transaction) (d : Float)
      → (geo_features m loc t).distance_km ≡ some d
      → (x : Float) → (geo_features m loc t).elapsed_min ≡ some x
      → leb_float x (number 0) ≡ false
  unfolding geo_features
  geo_features-positive none t d = λ h x k. cc
  geo_features-positive (some loc) t d =
      elim (Bool-cases (truthy_float t.latitude && truthy_float t.longitude)) [
        | inr e ↦ rw e λ h x k. cc
        | inl e ↦
            elim (Result-cases (haversine_distance m loc.lat loc.lon t.latitude t.longitude)) [
              | inl (q, done) ↦
                  rw (e, done)
                    (ordering_guard-positive
                      (record {
                        distance_km = q;
                        elapsed_min = elapsed m loc.ts t.transaction_ts;
                        prev_city = loc.city;
                        prev_ts = loc.ts;
                      })
                      d)
              | inr (r, done) ↦ rw (e, done) λ h x k. cc
            ]
      ]

  -- The location may be measured against the last one, and the delta is not positive.
  geo_features-out_of_order :
      (loc : Location) (t : Transaction) (x : Float)
      → elapsed m loc.ts t.transaction_ts ≡ some x
      → leb_float x (number 0) ≡ true
      → ((geo_features m (some loc) t).distance_km ≡ none)
        × ((geo_features m (some loc) t).elapsed_min ≡ none)
  unfolding geo_features ordering_guard
  geo_features-out_of_order loc t x h k =
      elim (Bool-cases (truthy_float t.latitude && truthy_float t.longitude)) [
        | inr e ↦ rw e (refl, refl)
        | inl e ↦
            elim (Result-cases (haversine_distance m loc.lat loc.lon t.latitude t.longitude)) [
              | inl (q, done) ↦ rw (e, done, h, k) (refl, refl)
              | inr (r, done) ↦ rw (e, done) (refl, refl)
            ]
      ]

  module _ (config : Config) (snapshot_id now : Str) where
    -- A row that is built with validation has a finite amount that is not negative, a finite risk
    -- score from 0 to 1, a finite z-score, and a label that is a fraud pattern, 'NONE' or null.
    pub build_feature_row-IsStorable :
        (t : Transaction) (b : Option Baseline) (loc : Option Location) (velocity : ℕ)
        (devices : List Str) {fd : FeatureRow}
        → build_feature_row m config snapshot_id now t b loc velocity devices true ≡ ok fd
        → IsStorable fd
    build_feature_row-IsStorable t b loc velocity devices h =
        let built =
          build_feature_row-IsBuilt m config snapshot_id now t b loc velocity devices true h in
        checked-IsStorable _ built.row_eq

    -- A row whose location is suspect is flagged for review, its distance is at least the floor of
    -- the speed arm, and it does not come from an event out of order: a delta that is known is
    -- positive.
    pub build_feature_row-suspect :
        (t : Transaction) (b : Option Baseline) (loc : Option Location) (velocity : ℕ)
        (devices : List Str) (validate : Bool) {fd : FeatureRow}
        → build_feature_row m config snapshot_id now t b loc velocity devices validate ≡ ok fd
        → fd.suspect_location ≡ true
        → (fd.is_flagged_for_review ≡ true)
          × ((d : Float) × ((geo_features m loc t).distance_km ≡ some d)
              × (leb_float speed_rule_min_distance_km d ≡ true)
              × IsPositive (geo_features m loc t).elapsed_min)
    build_feature_row-suspect t b loc velocity devices validate {fd} h suspect =
        let built =
          build_feature_row-IsBuilt m config snapshot_id now t b loc velocity devices validate h in
        let same = checked-eq-ok validate _ {fd = fd} built.row_eq in
        let rule : geo_hard_rule (geo_features m loc t).distance_km built.speed ≡ true =
          ap (λ r. r.suspect_location) same ∙ suspect in
        let (d, at) = geo_hard_rule-some (geo_features m loc t).distance_km built.speed rule in
        (
          sym (ap (λ r. r.is_flagged_for_review) same) ∙ ground (arith, rule),
          (
            d,
            at,
            geo_hard_rule-floor d built.speed (rw (← at) rule),
            every-IsPositive _ (geo_features-positive loc t d at),
          ),
        )

    -- An event that is not later than the last location has no distance and no delta in its row,
    -- and its location is not suspect.
    pub build_feature_row-out_of_order :
        (t : Transaction) (b : Option Baseline) (loc : Location) (velocity : ℕ) (devices : List Str)
        (validate : Bool) (x : Float) {fd : FeatureRow}
        → build_feature_row m config snapshot_id now t b (some loc) velocity devices validate
          ≡ ok fd
        → elapsed m loc.ts t.transaction_ts ≡ some x
        → leb_float x (number 0) ≡ true
        → (fd.geo_distance_km ≡ none)
          × (fd.time_since_last_txn_min ≡ none)
          × (fd.suspect_location ≡ false)
    unfolding geo_hard_rule
    build_feature_row-out_of_order t b loc velocity devices validate x {fd} h late k =
        let built =
          build_feature_row-IsBuilt m config snapshot_id now t b (some loc) velocity devices
            validate h in
        let same = checked-eq-ok validate _ {fd = fd} built.row_eq in
        let (no_distance, no_delta) = geo_features-out_of_order loc t x late k in
        (
          sym (ap (λ r. r.geo_distance_km) same) ∙ rw no_distance refl,
          sym (ap (λ r. r.time_since_last_txn_min) same) ∙ rw no_delta refl,
          sym (ap (λ r. r.suspect_location) same) ∙ rw no_distance refl,
        )
