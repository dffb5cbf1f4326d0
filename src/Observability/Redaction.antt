-- ===== src/Observability/Redaction.antt =====
-- TraceRedactor of fraud_platform/observability/redaction.py. JSON, `str` and the digest are the
-- operations of the record `Codec`.
pub mod Laws
use agentic_fraud_decisionin.Common.{
  ℕ, zero, suc, ◌-◌, ◌<◌, Str, codes, str_eq, mem_str, contains, starts_with, lower, Bool, true,
  false, not, ◌&&◌, ◌||◌, Option, none, some, List, [], ◌∷◌, ◌++◌, map, length, leb, drop,
  if◌then◌else◌,
}
use agentic_fraud_decisionin.Common.Value.{
  Value, null, bool, int, float, str, list, dict, Items, nil, cons, Fields, empty, entry,
}
use agentic_fraud_decisionin.Common.Words.{is_empty}

-- json.loads (none where it raises), json.dumps, str(v), and the first twelve hexadecimal digits of
-- the SHA-256 of a text.
pub record Codec : Type 0 where
  pub loads : Str → Option Value
  pub dumps : Value → Str
  pub to_str : Value → Str
  pub digest : Str → Str

-- DEFAULT_PII_KEYS
abbrev pub default_pii_keys : List Str
default_pii_keys =
    codes "full_name"
    ∷ codes "name"
    ∷ codes "home_city"
    ∷ codes "home_country"
    ∷ codes "home_latitude"
    ∷ codes "home_longitude"
    ∷ codes "email"
    ∷ codes "phone"
    ∷ []

abbrev pub is_null : Value → Bool
is_null null = true
is_null v = false

-- `isinstance(v, (dict, list))`
abbrev pub is_container : Value → Bool
is_container (dict d) = true
is_container (list xs) = true
is_container v = false

-- The fields of a trace row that may hold personal data.
pub record TraceRow : Type 0 where
  pub tool_output : Option Str
  pub tool_input : Option Str
  pub reasoning_text : Option Str

-- A field that is a text and not empty is rewritten.
abbrev pub rewrite_field : (Str → Str) → Option Str → Option Str
rewrite_field f none = none
rewrite_field f (some []) = some []
rewrite_field f (some (c ∷ s)) = some (f (c ∷ s))

abbrev pub rewrite_row : (Str → Str) → TraceRow → TraceRow
rewrite_row f r = record {
  tool_output = rewrite_field f r.tool_output;
  tool_input = rewrite_field f r.tool_input;
  reasoning_text = rewrite_field f r.reasoning_text;
}

module _ (codec : Codec) where
  unfoldable pub pseudonym : Str → Str
  pseudonym value = codes "[REDACTED:" ++ (codec.digest value ++ codes "]")

  -- The keys of the redactor, in lower case.
  module _ (pii_keys : List Str) where
    abbrev pub is_pii : Str → Bool
    is_pii k = mem_str (lower k) pii_keys

    -- A text that holds JSON with a container is walked as that, by `inner`.
    abbrev pub nested : (Value → Value) → Str → Option Value → Value
    nested inner s none = str s
    nested inner s (some v) = if is_container v then str (codec.dumps (inner v)) else str s

    unfoldable mutual
      pub walk_with : (Value → Value) → Value → Value
      walk_with inner (dict d) = dict (walk_fields inner d)
      walk_with inner (list xs) = list (walk_items inner xs)
      walk_with inner (str s) = nested inner s (codec.loads s)
      walk_with inner null = null
      walk_with inner (bool b) = bool b
      walk_with inner (int z) = int z
      walk_with inner (float x) = float x

      pub walk_items : (Value → Value) → Items → Items
      walk_items inner nil = nil
      walk_items inner (cons v rest) = cons (walk_with inner v) (walk_items inner rest)

      pub walk_fields : (Value → Value) → Fields → Fields
      walk_fields inner empty = empty
      walk_fields inner (entry k v rest) =
          entry k
            (if is_pii k && not (is_null v)
              then str (pseudonym (codec.to_str v))
              else walk_with inner v)
            (walk_fields inner rest)

    -- `_walk`, which reads JSON inside texts up to `depth` levels deep.
    unfoldable pub walk : ℕ → Value → Value
    walk zero v = walk_with (λ w. w) v
    walk (suc depth) v = walk_with (walk depth) v

    -- The literal values that `_walk` adds to the collected set, in the order of the walk.
    abbrev pub nested_found : (Value → List Str) → Option Value → List Str
    nested_found inner none = []
    nested_found inner (some v) = if is_container v then inner v else []

    unfoldable mutual
      pub found_with : (Value → List Str) → Value → List Str
      found_with inner (dict d) = found_fields inner d
      found_with inner (list xs) = found_items inner xs
      found_with inner (str s) = nested_found inner (codec.loads s)
      found_with inner null = []
      found_with inner (bool b) = []
      found_with inner (int z) = []
      found_with inner (float x) = []

      pub found_items : (Value → List Str) → Items → List Str
      found_items inner nil = []
      found_items inner (cons v rest) = found_with inner v ++ found_items inner rest

      pub found_fields : (Value → List Str) → Fields → List Str
      found_fields inner empty = []
      found_fields inner (entry k v rest) =
          (if is_pii k && not (is_null v) then codec.to_str v ∷ [] else found_with inner v)
          ++ found_fields inner rest

    unfoldable pub found : ℕ → Value → List Str
    found zero v = found_with (λ w. []) v
    found (suc depth) v = found_with (found depth) v

    abbrev pub redacted : Str → Option Value → Str × List Str
    redacted s none = (s, [])
    redacted s (some v) = (codec.dumps (walk (length s) v), found (length s) v)

    -- `_redact_structured`: the text, and what it adds to the collected set. The depth is the length
    -- of the text.
    unfoldable pub redact_structured : Str → Str × List Str
    redact_structured s = redacted s (codec.loads s)

  -- `text.replace(value, token)`; `skip` counts what is left of a replaced occurrence.
  unfoldable pub replace : ℕ → Str → Str → Str → Str
  replace skip value token [] = []
  replace (suc skip) value token (c ∷ s) = replace skip value token s
  replace zero value token (c ∷ s) =
      let here = starts_with value (c ∷ s) in
      let rest = replace (if here then length value - 1 else 0) value token s in
      if here then token ++ rest else c ∷ rest

  -- `sorted(values, key=len, reverse=True)`, of the distinct values.
  abbrev pub insert_longest : Str → List Str → List Str
  insert_longest v [] = v ∷ []
  insert_longest v (w ∷ ws) =
      if leb (length w) (length v) then v ∷ w ∷ ws else w ∷ insert_longest v ws

  abbrev pub longest_first : List Str → List Str
  longest_first [] = []
  longest_first (v ∷ vs) =
      let rest = longest_first vs in if mem_str v vs then rest else insert_longest v rest

  unfoldable pub scrub_each : List Str → Str → Str
  scrub_each [] s = s
  scrub_each (v ∷ vs) s =
      scrub_each vs (if not (is_empty v) && contains v s then replace 0 v (pseudonym v) s else s)

  -- `_scrub_literals`
  unfoldable pub scrub_literals : Str → List Str → Str
  scrub_literals s values = scrub_each (longest_first values) s

  abbrev pub found_field : List Str → Option Str → List Str
  found_field keys none = []
  found_field keys (some []) = []
  found_field keys (some (c ∷ s)) = (redact_structured keys (c ∷ s)).1

  abbrev pub collected : List Str → List TraceRow → List Str
  collected keys [] = []
  collected keys (r ∷ rows) =
      found_field keys r.tool_output
      ++ (found_field keys r.tool_input
          ++ (found_field keys r.reasoning_text ++ collected keys rows))

  -- The second pass, over the collected values.
  abbrev pub scrub_rows : List Str → List TraceRow → List TraceRow
  scrub_rows [] rows = rows
  scrub_rows (v ∷ vs) rows = map (rewrite_row (λ s. scrub_literals s (v ∷ vs))) rows

  unfoldable pub redact_rows : List Str → List TraceRow → List TraceRow
  redact_rows keys rows =
      scrub_rows (collected keys rows) (map (rewrite_row (λ s. (redact_structured keys s).0)) rows)
