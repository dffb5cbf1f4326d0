-- ===== src/Common/Words.antt =====
-- The text operations of the source language that work on words: str.isspace, str.strip,
-- str.split with no argument and by a blank line, and str.join.
pub mod Laws
pub mod Join
use agentic_fraud_decisionin.Common.{
  ℕ, Str, codes, Bool, true, false, ◌&&◌, ◌||◌, List, [], ◌∷◌, ◌++◌, map, leb, ◌==◌, if◌then◌else◌,
}

-- `c.isspace()`, which is also what `\s` matches.
unfoldable pub is_space : ℕ → Bool
is_space c =
    leb 9 c && leb c 13
    || leb 28 c && leb c 32
    || c == 0x85
    || c == 0xa0
    || c == 0x1680
    || leb 0x2000 c && leb c 0x200a
    || leb 0x2028 c && leb c 0x2029
    || c == 0x202f
    || c == 0x205f
    || c == 0x3000

abbrev pub is_empty : Str → Bool
is_empty [] = true
is_empty (c ∷ s) = false

unfoldable pub lstrip : Str → Str
lstrip [] = []
lstrip (c ∷ s) = if is_space c then lstrip s else c ∷ s

unfoldable pub rstrip : Str → Str
rstrip [] = []
rstrip (c ∷ s) = let r = rstrip s in if is_space c && is_empty r then [] else c ∷ r

unfoldable pub strip : Str → Str
strip s = lstrip (rstrip s)

-- A word that may be unfinished, put before the words that follow it.
abbrev pub flush : Str × List Str → List Str
flush ([], ws) = ws
flush (c ∷ w, ws) = (c ∷ w) ∷ ws

abbrev pub add_code : ℕ → Str × List Str → Str × List Str
add_code c r = if is_space c then ([], flush r) else (c ∷ r.0, r.1)

-- The letters up to the first whitespace, and the words after it.
unfoldable pub words_from : Str → Str × List Str
words_from [] = ([], [])
words_from (c ∷ s) = add_code c (words_from s)

-- `text.split()`
unfoldable pub words : Str → List Str
words s = flush (words_from s)

abbrev pub starts_line : Str → Bool
starts_line [] = false
starts_line (c ∷ s) = c == b'\n'

abbrev pub cut_or_add : Bool → ℕ → Str × List Str → Str × List Str
cut_or_add true c r = ([], r.0 ∷ r.1)
cut_or_add false c r = (c ∷ r.0, r.1)

-- The first piece of a text and the others; `skip` is set on the second newline of a separator.
unfoldable pub pieces : Bool → Str → Str × List Str
pieces skip [] = ([], [])
pieces true (c ∷ s) = pieces false s
pieces false (c ∷ s) = let cut = c == b'\n' && starts_line s in cut_or_add cut c (pieces cut s)

-- `text.split("\n\n")`
unfoldable pub split_blank : Str → List Str
split_blank s = let r = pieces false s in r.0 ∷ r.1

-- `separator.join(texts)`
unfoldable pub join : Str → List Str → Str
join separator [] = []
join separator (s ∷ []) = s
join separator (s ∷ t ∷ rest) = s ++ (separator ++ join separator (t ∷ rest))

unfoldable pub concat {ℓ} : {A : Type ℓ} → List (List A) → List A
concat [] = []
concat (xs ∷ rest) = xs ++ concat rest

-- The words of several texts, in order.
unfoldable pub words_in : List Str → List Str
words_in texts = concat (map words texts)
