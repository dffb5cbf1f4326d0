-- ===== src/Workflow/Refs.antt =====
-- References such as `$step_2.count` and `$trigger.amount`: the pattern _REF_RE of
-- fraud_platform/workflow_engine/feasibility.py, for ASCII digits. As in the source's dialect, the
-- final `$` of the pattern also matches before one trailing newline.
use agentic_fraud_decisionin.Common.{
  ℕ, ◌+◌, ◌-◌, ◌*◌, Str, codes, Bool, true, false, ◌&&◌, ◌||◌, Option, none, some, [], ◌∷◌, ◌==◌,
  leb, ltb, length, is_some, if◌then◌else◌,
}

pub data Source : Type 0 where
  trigger : Source
  step : ℕ → Source

pub record Ref : Type 0 where
  pub source : Source
  pub field : Option Str

abbrev pub is_digit : ℕ → Bool
is_digit c = leb b'0' c && leb c b'9'

-- [A-Za-z_]
abbrev pub is_ident_start : ℕ → Bool
is_ident_start c = (leb b'A' c && leb c b'Z') || (leb b'a' c && leb c b'z') || c == b'_'

-- [A-Za-z0-9_]
abbrev pub is_ident : ℕ → Bool
is_ident c = is_ident_start c || is_digit c

-- The rest of a text after a prefix.
unfoldable pub strip_prefix : Str → Str → Option Str
strip_prefix [] s = some s
strip_prefix (c ∷ p) [] = none
strip_prefix (c ∷ p) (d ∷ s) = if c == d then strip_prefix p s else none

-- The longest prefix whose characters pass a test, and what follows it.
unfoldable pub span : (ℕ → Bool) → Str → Str × Str
span p [] = ([], [])
span p (c ∷ s) = let (taken, rest) = span p s in if p c then (c ∷ taken, rest) else ([], c ∷ s)

-- int(digits), continuing from `n`, for as many digits as int accepts: see int_raises.
unfoldable pub number_from : ℕ → Str → ℕ
number_from n [] = n
number_from n (d ∷ s) = number_from (n * 10 + (d - b'0')) s

-- The end of the text, or the newline before it.
abbrev pub at_end : Str → Bool
at_end [] = true
at_end (c ∷ []) = c == 10
at_end (c ∷ d ∷ s) = false

-- (\.[A-Za-z_][A-Za-z0-9_]*)?$
unfoldable pub parse_field : Source → Str → Option Ref
unfolding span
parse_field src [] = some (record { source = src; field = none })
parse_field src (c ∷ []) = if c == 10 then some (record { source = src; field = none }) else none
parse_field src (c ∷ d ∷ s) =
    let (name, rest) = span is_ident s in
    if c == b'.' && is_ident_start d && at_end rest
    then some (record { source = src; field = some (d ∷ name) })
    else none

-- step_(\d+) and what follows
unfoldable pub parse_step : Str → Option Ref
unfolding span number_from parse_field
parse_step s =
    let (digits, rest) = span is_digit s in
    elim digits [ [] ↦ none | d ∷ ds ↦ parse_field (step (number_from 0 (d ∷ ds))) rest ]

unfoldable pub parse_ref : Str → Option Ref
unfolding strip_prefix parse_step parse_field
parse_ref s = elim (strip_prefix (codes "$step_") s) [
  | some rest ↦ parse_step rest
  | none ↦ elim (strip_prefix (codes "$trigger") s) [
    | some rest ↦ parse_field trigger rest
    | none ↦ none
  ]
]

-- int(m.group(2)) raises on a number of more than 4300 digits, the limit of the language.
unfoldable pub int_raises : Str → Bool
unfolding span strip_prefix
int_raises s = elim (strip_prefix (codes "$step_") s) [
  | none ↦ false
  | some rest ↦ is_some (parse_ref s) && ltb 4300 (length (span is_digit rest).0)
]

-- isinstance(value, str) and value.startswith("$"), for the text
abbrev pub is_ref_text : Str → Bool
is_ref_text [] = false
is_ref_text (c ∷ s) = c == b'$'
