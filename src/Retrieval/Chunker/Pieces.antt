-- ===== src/Retrieval/Chunker/Pieces.antt =====
-- DocumentChunker._split_oversized_paragraphs of fraud_platform/retrieval/chunker.py.
pub mod Laws
use agentic_fraud_decisionin.Common.{
  ℕ, suc, zero, ◌+◌, ◌-◌, Str, codes, Bool, true, false, ◌&&◌, List, [], ◌∷◌, ◌++◌, length, take,
  drop, leb, if◌then◌else◌,
}
use agentic_fraud_decisionin.Common.Int.{ℤ, pos, negsuc, leb_ℤ}
use agentic_fraud_decisionin.Common.Result.{Result, ok, err, ◌>>=◌}
use agentic_fraud_decisionin.Common.Words.{words, join}

-- The document has no H1 title; `range` is given the step 0.
pub data Error : Type 0 where
  no_title : Error
  zero_step : Error

-- `for i in range(0, len(words), budget): words[i:i + budget]`, for a positive step: each round
-- drops words, so a round for each word is enough.
unfoldable pub pieces_of : ℕ → ℕ → List Str → List Str
pieces_of zero budget ws = []
pieces_of (suc rounds) budget [] = []
pieces_of (suc rounds) budget (w ∷ ws) =
    join (codes " ") (take budget (w ∷ ws)) ∷ pieces_of rounds budget (drop budget (w ∷ ws))

-- The pieces of one paragraph; `range` with a negative step is empty.
abbrev pub pieces_by : ℤ → List Str → Result Error (List Str)
pieces_by (pos zero) ws = err zero_step
pieces_by (pos (suc n)) ws = ok (pieces_of (length ws) (suc n) ws)
pieces_by (negsuc n) ws = ok []

unfoldable pub split_oversized_paragraphs : List Str → ℤ → Result Error (List Str)
split_oversized_paragraphs [] budget = ok []
split_oversized_paragraphs (para ∷ rest) budget =
    (if leb_ℤ (pos (length (words para))) budget
      then ok (para ∷ [])
      else pieces_by budget (words para))
    >>= λ here. split_oversized_paragraphs rest budget >>= λ others. ok (here ++ others)
