-- ===== src/Retrieval/Chunker/Markdown.antt =====
-- The headers that DocumentChunker finds in a Markdown text: the patterns `^##\s+(.+)$` and
-- `^#\s+(.+)$` of fraud_platform/retrieval/config.py, which match line by line.
use agentic_fraud_decisionin.Common.{
  ℕ, zero, suc, ◌+◌, ◌-◌, Str, codes, Bool, true, ◌&&◌, Option, none, some, List, [], ◌∷◌, ◌++◌,
  drop, length, starts_with, map, ◌==◌, if◌then◌else◌,
}
use agentic_fraud_decisionin.Common.Words.{is_space, strip}

-- `.+` up to the end of the line: the text of the line, and its length.
unfoldable pub line_of : Str → Str
line_of [] = []
line_of (c ∷ s) = if c == b'\n' then [] else c ∷ line_of s

-- A match: the text of group 1, and how many characters the whole match takes.
pub record Match : Type 0 where
  pub group : Str
  pub taken : ℕ

abbrev pub rest_of_line : Str → Option Match
rest_of_line [] = none
rest_of_line (c ∷ s) =
    if c == b'\n'
    then none
    else some (record { group = line_of (c ∷ s); taken = length (line_of (c ∷ s)) })

-- One character more of `\s+`, if what follows can match, and otherwise `(.+)$` from here.
abbrev pub first_of : Option Match → Option Match → Option Match
first_of (some m) other = some (record m { taken = suc m.taken })
first_of none other = other

-- `\s*(.+)$`, after one character of whitespace; `\s` matches newlines as well, and is greedy.
unfoldable pub after_space : Str → Option Match
after_space [] = none
after_space (c ∷ s) =
    let longer = after_space s in
    first_of (if is_space c then longer else none) (rest_of_line (c ∷ s))

-- `\s+(.+)$`
abbrev pub spaced_line : Str → Option Match
spaced_line [] = none
spaced_line (c ∷ s) = if is_space c then after_space s else none

-- The whole pattern at one position: its hash signs, then `\s+(.+)$`.
abbrev pub after_hashes : ℕ → Option Match → Option Match
after_hashes n none = none
after_hashes n (some m) = some (record m { taken = n + suc m.taken })

unfoldable pub match_header : Str → Bool → Str → Option Match
match_header hashes line_start s =
    if line_start && starts_with hashes s
    then after_hashes (length hashes) (spaced_line (drop (length hashes) s))
    else none

-- The text before the first match of the pattern, the match, and the text behind it.
pub record Found : Type 0 where
  pub before : Str
  pub header : Match
  pub after : Str

abbrev pub found_or_next : ℕ → Str → Option Match → Option Found → Option Found
found_or_next c s (some m) next =
    some (record { before = []; header = m; after = drop m.taken (c ∷ s) })
found_or_next c s none none = none
found_or_next c s none (some f) = some (record f { before = c ∷ f.before })

-- `pattern.search(text)`
unfoldable pub search : Str → Bool → Str → Option Found
search hashes line_start [] = none
search hashes line_start (c ∷ s) =
    let next = search hashes (c == b'\n') s in
    found_or_next c s (match_header hashes line_start (c ∷ s)) next

unfoldable pub extract_title : Str → Option Str
extract_title text = elim (search (codes "#") true text) [
  | none ↦ none
  | some f ↦ some (strip f.header.group)
]

-- `self._title_re.sub("", markdown_text, count=1).strip()`
unfoldable pub without_title : Str → Str
without_title text = elim (search (codes "#") true text) [
  | none ↦ strip text
  | some f ↦ strip (f.before ++ f.after)
]

-- A text cut at its headers: what is before the first one, then each with its body.
abbrev pub Sections : Type 0
Sections = List (Str × Str)

-- The characters of a match that are still to be passed over, after its first.
abbrev pub to_skip : ℕ → Option Match → ℕ
to_skip skip (some m) = m.taken - 1
to_skip skip none = skip - 1

abbrev pub place : ℕ → ℕ → Option Match → Str × Sections → Str × Sections
place skip c (some m) r = ([], (m.group, r.0) ∷ r.1)
place zero c none r = (c ∷ r.0, r.1)
place (suc skip) c none r = r

-- No match begins inside another one.
abbrev pub header_at : ℕ → Bool → Str → Option Match
header_at zero line_start s = match_header (codes "##") line_start s
header_at (suc skip) line_start s = none

unfoldable pub sections : ℕ → Bool → Str → Str × Sections
sections skip line_start [] = ([], [])
sections skip line_start (c ∷ s) =
    let m = header_at skip line_start (c ∷ s) in
    place skip c m (sections (to_skip skip m) (c == b'\n') s)

abbrev pub strip_both : Str × Str → Str × Str
strip_both r = (strip r.0, strip r.1)

unfoldable pub split_by_h2 : Str → Sections
split_by_h2 text = map strip_both (sections 0 true text).1
