-- ===== src/Retrieval/Tests.antt =====
-- The chunker on concrete documents.
use agentic_fraud_decisionin.Common.{
  ℕ, zero, suc, ◌<◌, Str, codes, ◌≡◌, refl, some, List, [], ◌∷◌, ◌++◌, map, length, ltb→lt, All,
  starts_with,
}
use agentic_fraud_decisionin.Common.Result.{ok, err}
use agentic_fraud_decisionin.Common.Words.{
  is_space, lstrip, rstrip, strip, words_from, words, pieces, split_blank, join,
}
use agentic_fraud_decisionin.Retrieval.Chunker.Markdown.{
  line_of, after_space, match_header, search, extract_title, sections, split_by_h2,
}
use agentic_fraud_decisionin.Retrieval.Chunker.Pieces.{
  pieces_of, split_oversized_paragraphs, no_title,
}
use agentic_fraud_decisionin.Retrieval.Chunker.{
  Chunk, header_of, finalize_subchunk, group_loop, build_chunks_for_section, chunk_sections,
  chunk_document,
}
use agentic_fraud_decisionin.Retrieval.Chunker.Laws.{rejoined, IsSmall, HasRoom}
use agentic_fraud_decisionin.Retrieval.Chunker.Document.{
  sections_of, words_of_sections, chunk_document-rejoined, chunk_document-IsSmall,
  build_chunks-long_header,
}

abbrev policy : Str
policy = codes "# GEO_JUMP\n\nintro\n## Threshold\nOver 3000 km\n\n## Action \n\nBlock  it"

policy_title : extract_title policy ≡ some (codes "GEO_JUMP")
unfolding extract_title search match_header after_space line_of starts_with is_space strip lstrip
    rstrip
policy_title = refl

policy_sections :
    split_by_h2 policy
    ≡ (codes "Threshold", codes "Over 3000 km") ∷ (codes "Action", codes "Block  it") ∷ []
unfolding split_by_h2 sections match_header after_space line_of starts_with is_space strip lstrip
    rstrip
policy_sections = refl

untitled : chunk_document (codes "## Threshold\nx") (codes "x.md") (codes "POLICY") ≡ err no_title
unfolding chunk_document extract_title search match_header after_space line_of starts_with is_space
untitled = refl

-- `count` words.
abbrev filler : ℕ → Str
filler zero = []
filler (suc count) = codes "w " ++ filler count

long_section :
    (r : List Chunk) × (build_chunks_for_section (codes "P") (codes "S") [] [] (filler 400) ≡ ok r)
    × (map (λ c. c.word_count) r ≡ 180 ∷ 180 ∷ 55 ∷ [])
unfolding build_chunks_for_section group_loop finalize_subchunk split_oversized_paragraphs pieces_of
    join words words_from is_space split_blank pieces strip lstrip rstrip
long_section = (_, refl, refl)

policy-HasRoom : All (λ r. HasRoom (codes "GEO_JUMP") r.0) (sections_of policy)
unfolding split_by_h2 sections match_header after_space line_of starts_with is_space strip lstrip
    rstrip words words_from
policy-HasRoom = (ltb→lt _ _ refl, (ltb→lt _ _ refl, tt))

abbrev policy_file : Str
policy_file = codes "geo_jump.md"

abbrev policy_chunks : List Chunk
policy_chunks =
    record {
      pattern = codes "GEO_JUMP";
      section = codes "Threshold";
      text = codes "Fraud Pattern: GEO_JUMP\n\n## Threshold\nOver 3000 km";
      source_file = policy_file;
      document_type = codes "POLICY";
      word_count = 8;
    }
    ∷ record {
      pattern = codes "GEO_JUMP";
      section = codes "Action";
      text = codes "Fraud Pattern: GEO_JUMP\n\n## Action\nBlock  it";
      source_file = policy_file;
      document_type = codes "POLICY";
      word_count = 7;
    }
    ∷ []

policy_chunked : chunk_document policy policy_file (codes "POLICY") ≡ ok policy_chunks
unfolding chunk_document chunk_sections build_chunks_for_section extract_title search split_by_h2
    sections match_header after_space line_of starts_with is_space strip lstrip rstrip words
    words_from
policy_chunked = refl

chunk_document-rejoined_example :
    (cs : List Chunk) × (chunk_document policy policy_file (codes "POLICY") ≡ ok cs)
    × (rejoined cs ≡ words_of_sections (sections_of policy))
chunk_document-rejoined_example =
    chunk_document-rejoined policy (codes "GEO_JUMP") policy_file (codes "POLICY") policy_title refl
      policy-HasRoom

chunk_document-IsSmall_example : All IsSmall policy_chunks
chunk_document-IsSmall_example =
    chunk_document-IsSmall policy (codes "GEO_JUMP") policy_file (codes "POLICY") policy_title refl
      policy-HasRoom policy_chunked

long_header : 180 < length (words (header_of (codes "P") (filler 200)))
unfolding words words_from is_space
long_header = ltb→lt _ _ refl

build_chunks-long_header_example :
    build_chunks_for_section (codes "P") (filler 200) [] [] (codes "Block it") ≡ ok []
build_chunks-long_header_example =
    build_chunks-long_header (codes "P") (filler 200) [] [] (codes "Block it") long_header
