-- ===== src/Workflow/Conditions.antt =====
-- Step guards, fraud_platform/workflow_engine/conditions.py: one comparison of a reference with a
-- literal. What int(), float() make of a text, and float() of an integer, is a parameter; the
-- pattern _COND_RE is read here by hand, on ASCII white space, with the two places where the
-- source's matcher backtracks written out.
use agentic_fraud_decisionin.Common.{
  ℕ, Str, codes, str_eq, lower, Bool, true, false, not, ◌&&◌, ◌||◌, Option, none, some, [], ◌∷◌,
  ◌++◌, all, ◌==◌, leb, ltb, if◌then◌else◌,
}
use agentic_fraud_decisionin.Common.Int.{ℤ, pos}
use agentic_fraud_decisionin.Common.Float.{Float, of_int, leb_float, ltb_float, eqb_float}
use agentic_fraud_decisionin.Common.Value.{Value, bool, int, float, str}
use agentic_fraud_decisionin.Common.Result.{Result, ok, err}
use agentic_fraud_decisionin.Workflow.Refs.{span, strip_prefix, is_digit, is_ident, is_ident_start}

pub data Op : Type 0 where
  ge le eq ne gt lt : Op

pub record Condition : Type 0 where
  pub ref : Str
  pub op : Op
  pub literal : Value

-- What a guard, a reference, a dispatch or a tool raises.
pub data RunError : Type 0 where
  malformed_condition non_numeric incomparable : RunError
  bad_reference not_run no_field not_addressable : RunError
  unknown_tool bad_args : RunError
  tool_raised : Str → RunError

-- Conversions of the source's runtime; a text that does not convert, and an integer beyond the
-- floats, give `none`.
pub record Numerics : Type 0 where
  pub int_of_text : Str → Option ℤ
  pub float_of_text : Str → Option Float
  pub float_of_int : ℤ → Option Float

abbrev pub is_space : ℕ → Bool
is_space c = c == 32 || (leb 9 c && leb c 13) || (leb 28 c && leb c 31)

unfoldable pub skip_space : Str → Str
skip_space [] = []
skip_space (c ∷ s) = if is_space c then skip_space s else c ∷ s

-- s.rstrip()
unfoldable pub strip_right : Str → Str
strip_right [] = []
strip_right (c ∷ s) = elim (strip_right s) [
  | [] ↦ if is_space c then [] else c ∷ []
  | d ∷ t ↦ c ∷ d ∷ t
]

-- The text before a final quote, if the quote stands nowhere else in it.
unfoldable pub unquote : ℕ → Str → Option Str
unquote q [] = none
unquote q (c ∷ []) = if c == q then some [] else none
unquote q (c ∷ d ∷ s) = elim (unquote q (d ∷ s)) [
  | none ↦ none
  | some t ↦ if c == q then none else some (c ∷ t)
]

abbrev pub is_quoted : ℕ → Str → Bool
is_quoted q [] = false
is_quoted q (c ∷ s) = c == q && elim (unquote q s) [ none ↦ false | some t ↦ true ]

-- ('[^']*'|"[^"]*"|\S+)\s*$ : the literal, with no white space around it.
unfoldable pub parse_literal : Str → Option Str
unfolding skip_space strip_right unquote
parse_literal s =
    let t = strip_right (skip_space s) in
    elim t [
      | [] ↦ none
      | c ∷ u ↦
          if is_quoted 39 (c ∷ u) || is_quoted 34 (c ∷ u) || all (λ d. not (is_space d)) (c ∷ u)
          then some (c ∷ u)
          else none
    ]

-- An operator and its literal; where the literal is missing after a two-character operator, the
-- matcher takes the one-character operator and reads on from the second character.
abbrev pub with_op : Op → Str → Option (Op × Str)
with_op o s = elim (parse_literal s) [ none ↦ none | some l ↦ some (o, l) ]

abbrev pub or_else : Option (Op × Str) → Option (Op × Str) → Option (Op × Str)
or_else none b = b
or_else (some a) b = some a

unfoldable pub parse_op : Str → Option (Op × Str)
unfolding parse_literal
parse_op [] = none
parse_op (c ∷ []) = none
parse_op (c ∷ d ∷ s) =
    if c == b'>'
    then (if d == b'=' then or_else (with_op ge s) (with_op gt (d ∷ s)) else with_op gt (d ∷ s))
    else if c == b'<'
    then (if d == b'=' then or_else (with_op le s) (with_op lt (d ∷ s)) else with_op lt (d ∷ s))
    else if c == b'=' && d == b'='
    then with_op eq s
    else if c == b'!' && d == b'='
    then with_op ne s
    else none

-- \.[A-Za-z_][A-Za-z0-9_]*, if it stands here: the field with its dot, and the rest.
unfoldable pub split_field : Str → Str × Str
unfolding span
split_field [] = ([], [])
split_field (c ∷ []) = ([], c ∷ [])
split_field (c ∷ d ∷ s) =
    let (name, rest) = span is_ident s in
    if c == b'.' && is_ident_start d then (c ∷ d ∷ name, rest) else ([], c ∷ d ∷ s)

-- The reference of a condition: its text, and what follows.
unfoldable pub split_ref : Str → Option (Str × Str)
unfolding span strip_prefix split_field
split_ref s = elim (strip_prefix (codes "$step_") s) [
  | some rest ↦
      let (digits, after) = span is_digit rest in
      let (field, end) = split_field after in
      elim digits [ [] ↦ none | d ∷ ds ↦ some (codes "$step_" ++ (d ∷ ds) ++ field, end) ]
  | none ↦ elim (strip_prefix (codes "$trigger") s) [
    | some rest ↦ let (field, end) = split_field rest in some (codes "$trigger" ++ field, end)
    | none ↦ none
  ]
]

-- The text before its last character, if that is `q`.
unfoldable pub strip_last : ℕ → Str → Option Str
strip_last q [] = none
strip_last q (c ∷ []) = if c == q then some [] else none
strip_last q (c ∷ d ∷ s) = elim (strip_last q (d ∷ s)) [ none ↦ none | some t ↦ some (c ∷ t) ]

-- raw[1:-1] of a quoted literal
abbrev pub inner : Str → Option Str
inner [] = none
inner (c ∷ s) = if c == 39 || c == 34 then strip_last c s else none

-- The code points' order, `a < b` on texts.
unfoldable pub str_lt : Str → Str → Bool
str_lt s [] = false
str_lt [] (d ∷ t) = true
str_lt (c ∷ s) (d ∷ t) = ltb c d || (c == d && str_lt s t)

-- A bool, an int or a float as a number; Python compares them by value.
unfoldable pub as_number : Value → Option Float
as_number (bool true) = some (of_int (pos 1))
as_number (bool false) = some (of_int (pos 0))
as_number (int z) = some (of_int z)
as_number (float x) = some x
as_number _ = none

abbrev pub as_text : Value → Option Str
as_text (str s) = some s
as_text _ = none

-- left == literal, for a literal that is no container.
unfoldable pub equals : Value → Value → Bool
unfolding as_number
equals left literal = elim (as_number literal) [
  | some y ↦ elim (as_number left) [ some x ↦ eqb_float x y | none ↦ false ]
  | none ↦ elim (as_text literal) [
    | some t ↦ elim (as_text left) [ some u ↦ str_eq u t | none ↦ false ]
    | none ↦ false
  ]
]

-- An order between two numbers or two texts; any other pair raises TypeError.
unfoldable pub ordered :
    (Float → Float → Bool) → (Str → Str → Bool) → Value → Value → Result RunError Bool
unfolding as_number
ordered on_numbers on_texts left literal = elim (as_number literal) [
  | some y ↦ elim (as_number left) [ some x ↦ ok (on_numbers x y) | none ↦ err incomparable ]
  | none ↦ elim (as_text literal) [
    | some t ↦ elim (as_text left) [ some u ↦ ok (on_texts u t) | none ↦ err incomparable ]
    | none ↦ err incomparable
  ]
]

-- _OPS[op](left, literal)
unfoldable pub apply_op : Op → Value → Value → Result RunError Bool
unfolding equals ordered str_lt
apply_op eq l r = ok (equals l r)
apply_op ne l r = ok (not (equals l r))
apply_op lt l r = ordered ltb_float str_lt l r
apply_op le l r = ordered leb_float (λ s t. not (str_lt t s)) l r
apply_op gt l r = ordered (λ x y. ltb_float y x) (λ s t. str_lt t s) l r
apply_op ge l r = ordered (λ x y. leb_float y x) (λ s t. not (str_lt s t)) l r

abbrev pub is_bool : Value → Bool
is_bool (bool b) = true
is_bool _ = false

-- isinstance(literal, (int, float)), which holds of a bool too.
abbrev pub is_numeric : Value → Bool
is_numeric (bool b) = true
is_numeric (int z) = true
is_numeric (float x) = true
is_numeric _ = false

module _ (num : Numerics) where
  open num use {int_of_text, float_of_text, float_of_int}

  unfoldable pub coerce : Str → Value
  coerce raw =
      if str_eq (lower raw) (codes "true")
      then bool true
      else if str_eq (lower raw) (codes "false")
      then bool false
      else elim (inner raw) [
        | some t ↦ str t
        | none ↦ elim (int_of_text raw) [
          | some z ↦ int z
          | none ↦ elim (float_of_text raw) [ some x ↦ float x | none ↦ str raw ]
        ]
      ]

  unfoldable pub parse_condition : Str → Result RunError Condition
  unfolding split_ref parse_op skip_space coerce
  parse_condition text = elim (split_ref (skip_space text)) [
    | none ↦ err malformed_condition
    | some (r, rest) ↦ elim (parse_op (skip_space rest)) [
      | none ↦ err malformed_condition
      | some (o, l) ↦ ok (record { ref = r; op = o; literal = coerce l })
    ]
  ]

  -- float(left), where a failure of any kind raises.
  unfoldable pub to_float : Value → Option Float
  to_float (int z) = float_of_int z
  to_float (float x) = some x
  to_float (str s) = float_of_text s
  to_float _ = none

  unfoldable pub compare : Value → Op → Value → Result RunError Bool
  unfolding apply_op to_float
  compare left op literal =
      if is_numeric literal && not (is_bool left)
      then elim (to_float left) [ some x ↦ apply_op op (float x) literal | none ↦ err non_numeric ]
      else apply_op op left literal
