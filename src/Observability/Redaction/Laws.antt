-- ===== src/Observability/Redaction/Laws.antt =====
-- What is left of personal data in a trace field that holds JSON.
use agentic_fraud_decisionin.Common.{
  ℕ, zero, suc, ◌≤◌, ◌<◌, Str, codes, starts_with, ◌≡◌, refl, subst, Bool, true, false, not, ◌&&◌,
  Option, none, some, List, length, leb, Bool-cases, Option-cases, inl, inr, arith, if◌then◌else◌,
}
use agentic_fraud_decisionin.Common.Value.{
  Value, null, bool, int, float, str, list, dict, Items, nil, cons, Fields, empty, entry,
}
use agentic_fraud_decisionin.Observability.Redaction.{
  Codec, is_null, is_container, pseudonym, is_pii, nested, walk_with, walk_items, walk_fields, walk,
  redacted, redact_structured,
}

abbrev max : ℕ → ℕ → ℕ
max a b = if leb a b then b else a

-- The length of the longest text in a value.
unfoldable mutual
  pub longest : Value → ℕ
  longest (dict d) = longest_field d
  longest (list xs) = longest_item xs
  longest (str s) = length s
  longest null = 0
  longest (bool b) = 0
  longest (int z) = 0
  longest (float x) = 0

  longest_item : Items → ℕ
  longest_item nil = 0
  longest_item (cons v rest) = max (longest v) (longest_item rest)

  longest_field : Fields → ℕ
  longest_field empty = 0
  longest_field (entry k v rest) = max (longest v) (longest_field rest)

-- What json.loads and json.dumps promise: what is read of a printed value is that value, and a text
-- is longer than each text in the value that it denotes.
pub record JsonLaws (codec : Codec) : Type 0 where
  pub loads-dumps : (v w : Value) → codec.loads (codec.dumps v) ≡ some w → w ≡ v
  pub longest_lt : (s : Str) (v : Value) → codec.loads s ≡ some v → longest v < length s

abbrev pub is_pseudonym : Value → Bool
is_pseudonym (str s) = starts_with (codes "[REDACTED:") s
is_pseudonym v = false

module _ (codec : Codec) (pii_keys : List Str) where
  abbrev nested_clean : (Value → Bool) → Option Value → Bool
  nested_clean inner none = true
  nested_clean inner (some v) = if is_container v then inner v else true

  -- Each key that names personal data has a pseudonym or null, also in the JSON inside of texts.
  unfoldable mutual
    pub clean_with : (Value → Bool) → Value → Bool
    clean_with inner (dict d) = clean_fields inner d
    clean_with inner (list xs) = clean_items inner xs
    clean_with inner (str s) = nested_clean inner (codec.loads s)
    clean_with inner null = true
    clean_with inner (bool b) = true
    clean_with inner (int z) = true
    clean_with inner (float x) = true

    clean_items : (Value → Bool) → Items → Bool
    clean_items inner nil = true
    clean_items inner (cons v rest) = clean_with inner v && clean_items inner rest

    clean_fields : (Value → Bool) → Fields → Bool
    clean_fields inner empty = true
    clean_fields inner (entry k v rest) =
        (if is_pii codec pii_keys k && not (is_null v) then is_pseudonym v else clean_with inner v)
        && clean_fields inner rest

  -- The same, looking through `depth` levels of JSON inside texts.
  unfoldable pub clean : ℕ → Value → Bool
  clean zero v = clean_with (λ w. true) v
  clean (suc depth) v = clean_with (clean depth) v

  module _ (laws : JsonLaws codec) where
    -- What is asked of the walk inside of texts, for values whose texts are shorter than `bound`.
    abbrev Inside : ℕ → (Value → Bool) → (Value → Value) → Type 0
    Inside bound check inner = (w : Value) → longest w < bound → check (inner w) ≡ true

    printed-clean :
        (check : Value → Bool) (v : Value)
        → check v ≡ true
        → nested_clean check (codec.loads (codec.dumps v)) ≡ true
    printed-clean check v good = elim (Option-cases (codec.loads (codec.dumps v))) [
      | inl e ↦ rw e refl
      | inr (w, e) ↦ rw (e, laws.loads-dumps v w e, good) (ground arith)
    ]

    nested-clean :
        (check : Value → Bool) (inner : Value → Value) (s : Str)
        → Inside (length s) check inner
        → clean_with check (nested codec pii_keys inner s (codec.loads s)) ≡ true
    unfolding clean_with
    nested-clean check inner s h = elim (Option-cases (codec.loads s)) [
      | inl e ↦ rw (e, e) refl
      | inr (v, e) ↦ elim (Bool-cases (is_container v)) [
        | inr n ↦ rw (e, n, e, n) refl
        | inl y ↦ rw (e, y) (printed-clean check (inner v) (h v (laws.longest_lt s v e)))
      ]
    ]

    -- The entry of a key that names personal data, and of another one.
    entry_value-clean :
        (check : Value → Bool) (inner : Value → Value) (pii : Bool) (v : Value)
        → clean_with check (walk_with codec pii_keys inner v) ≡ true
        → let out =
            if pii && not (is_null v)
            then str (pseudonym codec (codec.to_str v))
            else walk_with codec pii_keys inner v in
          (if pii && not (is_null out) then is_pseudonym out else clean_with check out) ≡ true
    unfolding clean_with walk_with pseudonym starts_with
    entry_value-clean check inner false v h = h
    entry_value-clean check inner true null h = refl
    entry_value-clean check inner true (bool b) h = refl
    entry_value-clean check inner true (int z) h = refl
    entry_value-clean check inner true (float x) h = refl
    entry_value-clean check inner true (str s) h = refl
    entry_value-clean check inner true (list xs) h = refl
    entry_value-clean check inner true (dict d) h = refl

    mutual
      unfolding clean_with walk_with longest

      walk_with-clean :
          (check : Value → Bool) (inner : Value → Value) (bound : ℕ) (v : Value)
          → Inside bound check inner
          → longest v ≤ bound
          → clean_with check (walk_with codec pii_keys inner v) ≡ true
      walk_with-clean check inner bound (dict d) h l = walk_fields-clean check inner bound d h l
      walk_with-clean check inner bound (list xs) h l = walk_items-clean check inner bound xs h l
      walk_with-clean check inner bound (str s) h l =
          nested-clean check inner s (λ w short. h w (omega arith))
      walk_with-clean check inner bound null h l = refl
      walk_with-clean check inner bound (bool b) h l = refl
      walk_with-clean check inner bound (int z) h l = refl
      walk_with-clean check inner bound (float x) h l = refl

      walk_items-clean :
          (check : Value → Bool) (inner : Value → Value) (bound : ℕ) (xs : Items)
          → Inside bound check inner
          → longest_item xs ≤ bound
          → clean_items check (walk_items codec pii_keys inner xs) ≡ true
      walk_items-clean check inner bound nil h l = refl
      walk_items-clean check inner bound (cons v rest) h l =
          let here = walk_with-clean check inner bound v h (ground arith) in
          let later = walk_items-clean check inner bound rest h (ground arith) in
          rw (here, later) refl

      walk_fields-clean :
          (check : Value → Bool) (inner : Value → Value) (bound : ℕ) (d : Fields)
          → Inside bound check inner
          → longest_field d ≤ bound
          → clean_fields check (walk_fields codec pii_keys inner d) ≡ true
      walk_fields-clean check inner bound empty h l = refl
      walk_fields-clean check inner bound (entry k v rest) h l =
          let here = walk_with-clean check inner bound v h (ground arith) in
          let later = walk_fields-clean check inner bound rest h (ground arith) in
          rw (entry_value-clean check inner (is_pii codec pii_keys k) v here, later) refl

    -- Enough levels leave nothing, however deep one looks.
    walk-clean :
        (depth levels : ℕ) (v : Value)
        → longest v ≤ levels
        → clean depth (walk codec pii_keys levels v) ≡ true
    unfolding clean walk
    walk-clean zero zero v l = walk_with-clean (λ w. true) (λ w. w) zero v (λ w short. refl) l
    walk-clean zero (suc n) v l =
        walk_with-clean (λ w. true) (walk codec pii_keys n) (suc n) v (λ w short. refl) l
    walk-clean (suc d) zero v l =
        walk_with-clean (clean d) (λ w. w) zero v (λ w short. absurd (omega arith)) l
    walk-clean (suc d) (suc n) v l =
        walk_with-clean (clean d) (walk codec pii_keys n) (suc n) v
          (λ w short. walk-clean d n w (omega arith)) l

    -- A trace field that is JSON is rewritten to a text in which, read as JSON, each key that names
    -- personal data has a pseudonym or null; the same holds of the JSON inside its texts, to any
    -- depth. It takes of json.loads that it reads a printed value as that value, and that a text is
    -- longer than each text of the value it denotes.
    pub redact_structured-clean :
        (depth : ℕ) (s : Str) (v w : Value)
        → codec.loads s ≡ some v
        → codec.loads (redact_structured codec pii_keys s).0 ≡ some w
        → clean depth w ≡ true
    unfolding redact_structured
    redact_structured-clean depth s v w e read =
        let short = laws.longest_lt s v e in
        let out = walk codec pii_keys (length s) v in
        let printed : codec.loads (codec.dumps out) ≡ some w =
          subst (λ o. codec.loads (redacted codec pii_keys s o).0 ≡ some w) e read in
        rw (laws.loads-dumps out w printed) (walk-clean depth (length s) v (omega arith))
