-- ===== src/Stream/Redis/Laws.antt =====
-- What a batch leaves in the store: the latest row of each user, and no suspect location.
use mathlib.Core.List.{append_assoc}
use agentic_fraud_decisionin.Common.{
  lt_str, Str, str_eq, ◌≡◌, refl, ap, ◌∙◌, Bool, true, false, not, ◌&&◌, Option, none, some, List,
  [], ◌∷◌, ◌++◌, any, all, any-append, arith,
}
use agentic_fraud_decisionin.Stream.Scoring.Row.{FeatureRow}
use agentic_fraud_decisionin.Stream.Redis.{ts_text}

lt_str_irrefl : (s : Str) → lt_str s s ≡ false
unfolding lt_str
lt_str_irrefl [] = refl
lt_str_irrefl (c ∷ s) = ground (arith, lt_str_irrefl s)

lt_str_trans : (s t u : Str) → lt_str s t ≡ true → lt_str t u ≡ true → lt_str s u ≡ true
unfolding lt_str
lt_str_trans [] [] u h k = cc
lt_str_trans [] (d ∷ t) [] h k = cc
lt_str_trans [] (d ∷ t) (e ∷ u) h k = refl
lt_str_trans (c ∷ s) [] u h k = cc
lt_str_trans (c ∷ s) (d ∷ t) [] h k = cc
lt_str_trans (c ∷ s) (d ∷ t) (e ∷ u) h k = ground (arith, lt_str_trans s t u)

-- No row before or after is later.
abbrev pub no_later : Str → FeatureRow → List FeatureRow → Bool
no_later u f rows = all (λ g. not (str_eq g.user_id u && lt_str (ts_text f) (ts_text g))) rows

-- `row` is the latest of the rows of the user, the first of those with its time.
pub record IsLatest (u : Str) (rows : List FeatureRow) (row : FeatureRow) : Type 0 where
  pub before : List FeatureRow
  pub after : List FeatureRow
  pub among : rows ≡ before ++ (row ∷ after)
  pub user_eq : row.user_id ≡ u
  pub latest : no_later u row rows ≡ true

-- What the dictionary holds for a user after some rows.
abbrev pub Holds : Str → List FeatureRow → Option FeatureRow → Type 0
Holds u rows none = any (λ g. str_eq g.user_id u) rows ≡ false
Holds u rows (some row) = IsLatest u rows row

all-append :
    {A : Type 0} (p : A → Bool) (xs ys : List A) → all p (xs ++ ys) ≡ (all p xs && all p ys)
all-append p [] ys = refl
all-append p (x ∷ xs) ys = ground (arith, all-append p xs ys)

pub Holds-other :
    (u : Str) (rows : List FeatureRow) (o : Option FeatureRow) (f : FeatureRow)
    → str_eq f.user_id u ≡ false
    → Holds u rows o
    → Holds u (rows ++ f ∷ []) o
Holds-other u rows none f n h = any-append (λ g. str_eq g.user_id u) rows (f ∷ []) ∙ rw (h, n) refl
Holds-other u rows (some row) f n h = record {
  before = h.before;
  after = h.after ++ (f ∷ []);
  among = ap (λ xs. xs ++ (f ∷ [])) h.among ∙ append_assoc h.before (row ∷ h.after) (f ∷ []);
  user_eq = h.user_eq;
  latest =
      all-append (λ g. not (str_eq g.user_id u && lt_str (ts_text row) (ts_text g))) rows (f ∷ [])
      ∙ rw (h.latest, n) refl;
}

pub Holds-keep :
    (u : Str) (rows : List FeatureRow) (row f : FeatureRow)
    → lt_str (ts_text row) (ts_text f) ≡ false
    → IsLatest u rows row
    → IsLatest u (rows ++ f ∷ []) row
Holds-keep u rows row f n h = record {
  before = h.before;
  after = h.after ++ (f ∷ []);
  among = ap (λ xs. xs ++ (f ∷ [])) h.among ∙ append_assoc h.before (row ∷ h.after) (f ∷ []);
  user_eq = h.user_eq;
  latest =
      all-append (λ g. not (str_eq g.user_id u && lt_str (ts_text row) (ts_text g))) rows (f ∷ [])
      ∙ rw (h.latest, n) (ground arith);
}

pub no_later-lt :
    (u : Str) (row f : FeatureRow) (rows : List FeatureRow)
    → lt_str (ts_text row) (ts_text f) ≡ true
    → no_later u row rows ≡ true
    → no_later u f rows ≡ true
no_later-lt u row f [] h k = refl
no_later-lt u row f (g ∷ rows) h k =
    ground (arith, lt_str_trans (ts_text row) (ts_text f) (ts_text g), no_later-lt u row f rows h)

pub no_later-none :
    (u : Str) (f : FeatureRow) (rows : List FeatureRow)
    → any (λ g. str_eq g.user_id u) rows ≡ false
    → no_later u f rows ≡ true
no_later-none u f [] h = refl
no_later-none u f (g ∷ rows) h = ground (arith, no_later-none u f rows)

pub Holds-new :
    (u : Str) (rows : List FeatureRow) (f : FeatureRow)
    → f.user_id ≡ u
    → no_later u f rows ≡ true
    → IsLatest u (rows ++ f ∷ []) f
Holds-new u rows f e h = record {
  before = rows;
  after = [];
  among = refl;
  user_eq = e;
  latest =
      all-append (λ g. not (str_eq g.user_id u && lt_str (ts_text f) (ts_text g))) rows (f ∷ [])
      ∙ rw (h, lt_str_irrefl (ts_text f)) (ground arith);
}
