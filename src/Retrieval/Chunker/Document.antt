-- ===== src/Retrieval/Chunker/Document.antt =====
-- What DocumentChunker.chunk_document makes of a whole document.
use mathlib.Core.List.{append_assoc}
use agentic_fraud_decisionin.Common.{
  ℕ, suc, ◌+◌, ◌-◌, ◌<◌, not, filter, Str, ◌≡◌, refl, sym, subst, ◌∙◌, false, some, List, [], ◌∷◌,
  ◌++◌, map, length, All, All-append, leb, arith,
}
use agentic_fraud_decisionin.Common.Result.{Result, ok}
use agentic_fraud_decisionin.Common.Int.{negsuc}
use agentic_fraud_decisionin.Common.Words.{is_empty, strip, split_blank, words, words_in, concat}
use agentic_fraud_decisionin.Retrieval.Chunker.Markdown.{extract_title, split_by_h2}
use agentic_fraud_decisionin.Retrieval.Chunker.Pieces.{Error, split_oversized_paragraphs}
use agentic_fraud_decisionin.Retrieval.Chunker.{
  Chunk, chunk_max_words, subtract, group_loop, header_of, build_chunks_for_section, chunk_sections,
  sections_or_body, chunk_document,
}
use agentic_fraud_decisionin.Retrieval.Chunker.Laws.{
  body_words, rejoined, IsSmall, HasRoom, word_count-chunk_of, build_chunks_lem,
}

rejoined-append : (xs ys : List Chunk) → rejoined (xs ++ ys) ≡ rejoined xs ++ rejoined ys
unfolding concat
rejoined-append [] ys = refl
rejoined-append (x ∷ xs) ys =
    rw (rejoined-append xs ys) (sym (append_assoc (body_words x) (rejoined xs) (rejoined ys)))

-- The words of the bodies of sections, in order.
abbrev pub words_of_sections : List (Str × Str) → List Str
words_of_sections rows = words_in (map (λ r. r.1) rows)

-- What the chunks of a text have to satisfy.
abbrev pub IsChunked : List Str → List Chunk → Type 0
IsChunked ws cs = (rejoined cs ≡ ws) × All IsSmall cs

chunk_sections-IsChunked :
    (p file kind : Str) (rows : List (Str × Str))
    → All (λ r. HasRoom p r.0) rows
    → (cs : List Chunk) × (chunk_sections p file kind rows ≡ ok cs)
      × IsChunked (words_of_sections rows) cs
unfolding chunk_sections words_in concat
chunk_sections-IsChunked p file kind [] room = ([], refl, (refl, tt))
chunk_sections-IsChunked p file kind (r ∷ rest) room =
    let (xs, done, same, small) = build_chunks_lem p r.0 file kind r.1 room.0 in
    let (ys, done', (same', small')) = chunk_sections-IsChunked p file kind rest room.1 in
    (
      xs ++ ys,
      rw (done, done') refl,
      (rejoined-append xs ys ∙ rw (same, same') refl, All-append IsSmall xs ys small small'),
    )

-- The sections of a document, or its whole body where it has none.
abbrev pub sections_of : Str → List (Str × Str)
sections_of text = sections_or_body text (split_by_h2 text)

chunk_document-IsChunked :
    (text pattern file kind : Str)
    → extract_title text ≡ some pattern
    → is_empty pattern ≡ false
    → All (λ r. HasRoom pattern r.0) (sections_of text)
    → (cs : List Chunk) × (chunk_document text file kind ≡ ok cs)
      × IsChunked (words_of_sections (sections_of text)) cs
unfolding chunk_document
chunk_document-IsChunked text pattern file kind titled named room =
    let (cs, done, holds) = chunk_sections-IsChunked pattern file kind _ room in
    (cs, rw (titled, named) done, holds)

-- Chunking a document that has a title, and whose section headers each leave room for a word,
-- gives chunks; put together in order without their headers, they hold exactly the words of the
-- section bodies, or those of the whole body where there is no section.
pub chunk_document-rejoined :
    (text pattern file kind : Str)
    → extract_title text ≡ some pattern
    → is_empty pattern ≡ false
    → All (λ r. HasRoom pattern r.0) (sections_of text)
    → (cs : List Chunk) × (chunk_document text file kind ≡ ok cs)
      × (rejoined cs ≡ words_of_sections (sections_of text))
chunk_document-rejoined text pattern file kind titled named room =
    let (cs, done, holds) = chunk_document-IsChunked text pattern file kind titled named room in
    (cs, done, holds.0)

ok-inj : {A : Type 0} {x y : A} → Path (Result Error A) (ok x) (ok y) → x ≡ y
ok-inj e = cc

-- Under the same conditions every chunk that is returned has at most CHUNK_MAX_WORDS words, and
-- the count it carries is that of its text.
pub chunk_document-IsSmall :
    (text pattern file kind : Str) {cs : List Chunk}
    → extract_title text ≡ some pattern
    → is_empty pattern ≡ false
    → All (λ r. HasRoom pattern r.0) (sections_of text)
    → chunk_document text file kind ≡ ok cs
    → All IsSmall cs
chunk_document-IsSmall text pattern file kind {cs} titled named room e =
    let (ds, done, holds) = chunk_document-IsChunked text pattern file kind titled named room in
    subst (λ xs. All IsSmall xs) (ok-inj {x = ds} {y = cs} (sym done ∙ e)) holds.1

subtract_below : (a b : ℕ) → a < b → subtract a b ≡ negsuc (b - a - 1)
subtract_below a b h = ground arith

split_oversized_paragraphs-negsuc :
    (paras : List Str) (n : ℕ) → split_oversized_paragraphs paras (negsuc n) ≡ ok []
unfolding split_oversized_paragraphs
split_oversized_paragraphs-negsuc [] n = refl
split_oversized_paragraphs-negsuc (p ∷ paras) n =
    let over : leb (length (words p) + suc n) 0 ≡ false = ground arith in
    rw (split_oversized_paragraphs-negsuc paras n, over) refl

-- A section whose header alone is longer than CHUNK_MAX_WORDS gives no chunk at all, whatever its
-- body holds.
pub build_chunks-long_header :
    (p s file kind body : Str)
    → chunk_max_words < length (words (header_of p s))
    → build_chunks_for_section p s file kind body ≡ ok []
unfolding build_chunks_for_section group_loop
build_chunks-long_header p s file kind body h =
    let paras = filter (λ t. not (is_empty t)) (map strip (split_blank body)) in
    let count = word_count-chunk_of p s file kind body in
    let below = subtract_below chunk_max_words (length (words (header_of p s))) h in
    let none_left =
      split_oversized_paragraphs-negsuc paras
        (length (words (header_of p s)) - chunk_max_words - 1) in
    let over : leb (length (words (header_of p s ++ body))) chunk_max_words ≡ false =
      ground arith in
    rw (over, below, none_left) refl
