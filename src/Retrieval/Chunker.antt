-- ===== src/Retrieval/Chunker.antt =====
-- fraud_platform/retrieval/chunker.py: a Markdown document is cut at its H2 headers, and a section
-- that is too long at its paragraphs and, where one of those is too long, between words.
-- ValueError is raised for a document with no title; `zero_step` is that of `range(0, n, 0)`.
pub mod Markdown
pub mod Pieces
pub mod Laws
pub mod Document
use agentic_fraud_decisionin.Common.{
  ℕ, ◌+◌, ◌-◌, Str, codes, Bool, true, false, not, ◌&&◌, Option, none, some, List, [], ◌∷◌, ◌++◌,
  map, filter, length, take, drop, leb, ltb, if◌then◌else◌,
}
use agentic_fraud_decisionin.Common.Int.{ℤ, pos, negsuc, ltb_ℤ}
use agentic_fraud_decisionin.Common.Result.{Result, ok, err, ◌>>=◌}
use agentic_fraud_decisionin.Common.Words.{is_empty, strip, words, split_blank, join}
use agentic_fraud_decisionin.Retrieval.Chunker.Markdown.{extract_title, split_by_h2, without_title}
use agentic_fraud_decisionin.Retrieval.Chunker.Pieces.{
  split_oversized_paragraphs, zero_step, Error, no_title,
}

abbrev pub is_empty_list {ℓ} : {A : Type ℓ} → List A → Bool
is_empty_list [] = true
is_empty_list (x ∷ xs) = false

-- The difference of two counts, as an integer.
abbrev pub subtract : ℕ → ℕ → ℤ
subtract a b = if leb b a then pos (a - b) else negsuc (b - a - 1)

abbrev pub chunk_max_words : ℕ
chunk_max_words = 180

pub record Chunk : Type 0 where
  pub pattern : Str
  pub section : Str
  pub text : Str
  pub source_file : Str
  pub document_type : Str
  pub word_count : ℕ

-- CHUNK_CONTEXT_PREFIX_TEMPLATE and the section's header, which every chunk begins with.
abbrev pub header_of : Str → Str → Str
header_of pattern section_name =
    codes "Fraud Pattern: " ++ (pattern ++ (codes "\n\n## " ++ (section_name ++ codes "\n")))

-- The arguments that every chunk of a section shares.
module _ (pattern section_name source_file document_type : Str) where
  abbrev pub chunk_of : Str → Chunk
  chunk_of body =
      let whole = header_of pattern section_name ++ body in
      record {
        pattern = pattern;
        section = section_name;
        text = whole;
        source_file = source_file;
        document_type = document_type;
        word_count = length (words whole);
      }

  unfoldable pub finalize_subchunk : List Str → Chunk
  finalize_subchunk paragraphs = chunk_of (join (codes "\n\n") paragraphs)

  -- The loop over the paragraphs, with the group that is open and its words.
  unfoldable pub group_loop : ℤ → List Str → ℕ → List Str → List Chunk
  group_loop budget group current_words [] =
      if is_empty_list group then [] else finalize_subchunk group ∷ []
  group_loop budget group current_words (para ∷ rest) =
      let para_words = length (words para) in
      let full = ltb_ℤ budget (pos (current_words + para_words)) && not (is_empty_list group) in
      let later =
        group_loop budget (if full then para ∷ [] else group ++ para ∷ [])
          (if full then para_words else current_words + para_words) rest in
      if full then finalize_subchunk group ∷ later else later

  -- CHUNK_MAX_WORDS - overhead_words, which a long section name makes negative.
  abbrev pub effective_budget : ℤ
  effective_budget = subtract chunk_max_words (length (words (header_of pattern section_name)))

  unfoldable pub build_chunks_for_section : Str → Result Error (List Chunk)
  build_chunks_for_section section_body =
      let whole = chunk_of section_body in
      if leb whole.word_count chunk_max_words
      then ok (whole ∷ [])
      else (split_oversized_paragraphs
            (filter (λ p. not (is_empty p)) (map strip (split_blank section_body))) effective_budget
          >>= λ paragraphs. ok (group_loop effective_budget [] 0 paragraphs))

-- The chunks of each section in turn, with the pattern, the file and the type of the document.
module _ (pattern source_file document_type : Str) where
  unfoldable pub chunk_sections : List (Str × Str) → Result Error (List Chunk)
  chunk_sections [] = ok []
  chunk_sections (s ∷ rest) =
      build_chunks_for_section pattern s.0 source_file document_type s.1 >>= λ here.
      chunk_sections rest >>= λ others. ok (here ++ others)

abbrev pub sections_or_body : Str → List (Str × Str) → List (Str × Str)
sections_or_body text [] = (codes "Full Document", without_title text) ∷ []
sections_or_body text (s ∷ rest) = s ∷ rest

-- `if not pattern: raise`, then the chunks of every section.
abbrev pub chunk_with : Option Str → Str → Str → Str → Result Error (List Chunk)
chunk_with none text source_file document_type = err no_title
chunk_with (some pattern) text source_file document_type =
    if is_empty pattern
    then err no_title
    else chunk_sections pattern source_file document_type (sections_or_body text (split_by_h2 text))

unfoldable pub chunk_document : Str → Str → Str → Result Error (List Chunk)
chunk_document text source_file document_type =
    chunk_with (extract_title text) text source_file document_type
