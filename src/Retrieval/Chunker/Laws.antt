-- ===== src/Retrieval/Chunker/Laws.antt =====
-- The chunks of a section hold all of its words, and none is over the limit.
use mathlib.Core.List.{append-nil, append_assoc}
use agentic_fraud_decisionin.Common.{
  ℕ, suc, ◌+◌, ◌-◌, ◌≤◌, ◌<◌, Str, codes, ◌≡◌, refl, sym, ap, subst, ◌∙◌, true, false, not, ◌&&◌,
  List, [], ◌∷◌, ◌++◌, map, filter, length, length-append, drop, leb, leb→le, All, Bool-cases, inl,
  inr, arith,
}
use agentic_fraud_decisionin.Common.Int.{ℤ, pos, ltb_ℤ}
use agentic_fraud_decisionin.Common.Result.{ok}
use agentic_fraud_decisionin.Common.Words.{
  is_space, is_empty, strip, words, words_from, words_in, split_blank, join, concat,
}
use agentic_fraud_decisionin.Common.Words.Laws.{words-append, words-strip, words_in-split_blank}
use agentic_fraud_decisionin.Common.Words.Join.{words-join, words_in-append}
use agentic_fraud_decisionin.Retrieval.Chunker.Pieces.Laws.{
  Fits, split_oversized_paragraphs-IsSplit,
}
use agentic_fraud_decisionin.Retrieval.Chunker.{
  Chunk, is_empty_list, subtract, chunk_max_words, header_of, chunk_of, finalize_subchunk,
  group_loop, effective_budget, build_chunks_for_section,
}

newline_is_space : is_space b'\n' ≡ true
unfolding is_space
newline_is_space = refl

subtract_lem : (a b : ℕ) → b < a → (d : ℕ) × (subtract a b ≡ pos (suc d)) × (b + suc d ≡ a)
subtract_lem a b h = (a - b - 1, ground arith, omega arith)

-- No word goes across the end of a line.
words-line :
    (line body : Str)
    → words ((line ++ codes "\n") ++ body) ≡ words (line ++ codes "\n") ++ words body
words-line line body =
    let before = words-append line [] b'\n' newline_is_space in
    let both = words-append line body b'\n' newline_is_space in
    rw (append_assoc line (codes "\n") body, both, before)
      (unfold words words_from in ap (λ ws. ws ++ words body) (sym (append-nil (words line))))

header_of_line :
    (p s : Str)
    → header_of p s ≡ (codes "Fraud Pattern: " ++ (p ++ (codes "\n\n## " ++ s))) ++ codes "\n"
header_of_line p s =
    ap (λ t. codes "Fraud Pattern: " ++ t)
      (sym (append_assoc p (codes "\n\n## " ++ s) (codes "\n")))

words-header_of :
    (p s body : Str) → words (header_of p s ++ body) ≡ words (header_of p s) ++ words body
words-header_of p s body =
    subst (λ h. words (h ++ body) ≡ words h ++ words body) (sym (header_of_line p s))
      (words-line (codes "Fraud Pattern: " ++ (p ++ (codes "\n\n## " ++ s))) body)

words-empty : (s : Str) → is_empty s ≡ true → words s ≡ []
unfolding words words_from
words-empty [] h = refl
words-empty (c ∷ s) h = cc

-- The paragraphs that are left of a section body hold its words.
strip-words_in :
    (ps : List Str) → words_in (filter (λ p. not (is_empty p)) (map strip ps)) ≡ words_in ps
unfolding words_in concat
strip-words_in [] = refl
strip-words_in (p ∷ ps) = elim (Bool-cases (is_empty (strip p))) [
  | inl e ↦ rw (e, strip-words_in ps, ← words-strip p, words-empty (strip p) e) refl
  | inr e ↦ rw (e, words-strip p, strip-words_in ps) refl
]

blank_line_is_space : (is_space b'\n' && (is_space b'\n' && true)) ≡ true
unfolding is_space
blank_line_is_space = refl

-- The words of a chunk behind its header.
abbrev pub body_words : Chunk → List Str
body_words c = drop (length (words (header_of c.pattern c.section))) (words c.text)

-- The words that the chunks hold behind their headers, in order.
abbrev pub rejoined : List Chunk → List Str
rejoined cs = concat (map body_words cs)

-- The count that a chunk carries is that of its text, and within the limit.
abbrev pub IsSmall : Chunk → Type 0
IsSmall c = (c.word_count ≡ length (words c.text)) × (c.word_count ≤ chunk_max_words)

-- The header of a section leaves room for a word.
abbrev pub HasRoom : Str → Str → Type 0
HasRoom pattern section_name = length (words (header_of pattern section_name)) < chunk_max_words

module _ (p s file kind : Str) where
  drop-length : {A : Type 0} (xs ys : List A) → drop (length xs) (xs ++ ys) ≡ ys
  drop-length [] ys = refl
  drop-length (x ∷ xs) ys = drop-length xs ys

  body_words-chunk_of : (body : Str) → body_words (chunk_of p s file kind body) ≡ words body
  body_words-chunk_of body =
      rw (words-header_of p s body) (drop-length (words (header_of p s)) (words body))

  body_words-finalize :
      (ps : List Str) → body_words (finalize_subchunk p s file kind ps) ≡ words_in ps
  unfolding finalize_subchunk
  body_words-finalize ps =
      body_words-chunk_of (join (codes "\n\n") ps)
      ∙ words-join b'\n' (b'\n' ∷ []) ps blank_line_is_space

  rejoined-group_loop :
      (budget : ℤ) (group : List Str) (n : ℕ) (paras : List Str)
      → rejoined (group_loop p s file kind budget group n paras) ≡ words_in group ++ words_in paras
  unfolding group_loop concat words_in
  rejoined-group_loop budget [] n [] = refl
  rejoined-group_loop budget (g ∷ gs) n [] = ap (λ ws. ws ++ []) (body_words-finalize (g ∷ gs))
  rejoined-group_loop budget group n (para ∷ rest) =
      elim (Bool-cases
        (ltb_ℤ budget (pos (n + length (words para))) && not (is_empty_list group))) [
          | inl e ↦
              let ih = rejoined-group_loop budget (para ∷ []) (length (words para)) rest in
              rw (e, body_words-finalize group, ih, append-nil (words para)) refl
          | inr e ↦
              let ih =
                rejoined-group_loop budget (group ++ para ∷ []) (n + length (words para)) rest in
              rw (e, ih, words_in-append group (para ∷ []), append-nil (words para))
                (append_assoc (words_in group) (words para) (words_in rest))
        ]

  pub word_count-chunk_of :
      (body : Str)
      → length (words (header_of p s ++ body))
        ≡ length (words (header_of p s)) + length (words body)
  word_count-chunk_of body =
      rw (words-header_of p s body) (length-append (words (header_of p s)) (words body))

  finalize_subchunk-IsSmall :
      (b : ℕ) (ps : List Str)
      → length (words (header_of p s)) + b ≤ chunk_max_words
      → length (words_in ps) ≤ b
      → IsSmall (finalize_subchunk p s file kind ps)
  unfolding finalize_subchunk
  finalize_subchunk-IsSmall b ps room fits =
      let count = word_count-chunk_of (join (codes "\n\n") ps) in
      let joined = words-join b'\n' (b'\n' ∷ []) ps blank_line_is_space in
      (refl, rw (count, joined) (omega arith))

  group_has_room :
      (b n w : ℕ) (group : List Str)
      → (ltb_ℤ (pos b) (pos (n + w)) && not (is_empty_list group)) ≡ false
      → n ≡ length (words_in group)
      → w ≤ b
      → n + w ≤ b
  unfolding words_in concat
  group_has_room b n w [] e count le = omega arith
  group_has_room b n w (g ∷ gs) e count le = ground arith

  group_loop-IsSmall :
      (b : ℕ) (group : List Str) (n : ℕ) (paras : List Str)
      → length (words (header_of p s)) + b ≤ chunk_max_words
      → n ≡ length (words_in group)
      → n ≤ b
      → All (Fits b) paras
      → All IsSmall (group_loop p s file kind (pos b) group n paras)
  unfolding group_loop
  group_loop-IsSmall b [] n [] room count le fits = tt
  group_loop-IsSmall b (g ∷ gs) n [] room count le fits =
      (finalize_subchunk-IsSmall b (g ∷ gs) room (omega arith), tt)
  group_loop-IsSmall b group n (para ∷ rest) room count le fits =
      let one : length (words_in (para ∷ [])) ≡ length (words para) =
        unfold words_in concat in ap length (append-nil (words para)) in
      let more = ap length (words_in-append group (para ∷ [])) in
      let sum = length-append (words_in group) (words_in (para ∷ [])) in
      elim (Bool-cases
        (ltb_ℤ (pos b) (pos (n + length (words para))) && not (is_empty_list group))) [
          | inl e ↦ rw e (
            finalize_subchunk-IsSmall b group room (omega arith),
            group_loop-IsSmall b (para ∷ []) (length (words para)) rest room (sym one) fits.0
                fits.1,
          )
          | inr e ↦ rw e (
              group_loop-IsSmall b (group ++ para ∷ []) (n + length (words para)) rest room
                (omega arith) (group_has_room b n (length (words para)) group e count fits.0)
                fits.1)
        ]

  effective_budget_lem :
      length (words (header_of p s)) < chunk_max_words
      → (b : ℕ) × (effective_budget p s file kind ≡ pos (suc b))
        × (length (words (header_of p s)) + suc b ≡ chunk_max_words)
  effective_budget_lem room = subtract_lem chunk_max_words (length (words (header_of p s))) room

  -- A section whose header leaves room for at least one word a chunk.
  pub build_chunks_lem :
      (body : Str)
      → HasRoom p s
      → (cs : List Chunk) × (build_chunks_for_section p s file kind body ≡ ok cs)
        × (rejoined cs ≡ words body)
        × All IsSmall cs
  unfolding build_chunks_for_section concat words_in words
  build_chunks_lem body room =
      let whole = chunk_of p s file kind body in
      let paras = filter (λ t. not (is_empty t)) (map strip (split_blank body)) in
      let words_kept = strip-words_in (split_blank body) ∙ words_in-split_blank body in
      let (b, budget_is, fills) = effective_budget_lem room in
      elim (Bool-cases (leb whole.word_count chunk_max_words)) [
        | inl e ↦ (
          whole ∷ [],
          rw e refl,
          append-nil (body_words whole) ∙ body_words-chunk_of body,
          ((refl, leb→le _ _ e), tt),
        )
        | inr e ↦
            let (out, done, same, fits) = split_oversized_paragraphs-IsSplit b paras in
            (
              group_loop p s file kind (pos (suc b)) [] 0 out,
              rw (e, budget_is, done) refl,
              rejoined-group_loop (pos (suc b)) [] 0 out ∙ (same ∙ words_kept),
              group_loop-IsSmall (suc b) [] 0 out (omega arith) (unfold words_in concat in refl)
                  (omega arith) fits,
            )
      ]
