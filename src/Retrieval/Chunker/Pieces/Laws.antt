-- ===== src/Retrieval/Chunker/Pieces/Laws.antt =====
-- The pieces of an oversized paragraph hold its words, and no piece is too long.
use mathlib.Core.List.{append-nil}
use agentic_fraud_decisionin.Common.{
  ℕ, zero, suc, ◌≤◌, Str, codes, ◌≡◌, refl, ap, ◌∙◌, true, List, [], ◌∷◌, ◌++◌, length, take, drop,
  All, All-append, Bool-cases, inl, inr, arith, if◌then◌else◌,
}
use agentic_fraud_decisionin.Common.Int.{pos, leb_ℤ}
use agentic_fraud_decisionin.Common.Result.{Result, ok}
use agentic_fraud_decisionin.Common.Words.{words, words_in, join, concat, is_space}
use agentic_fraud_decisionin.Common.Words.Join.{
  IsWord, words-All, words-join, words_in-All, words_in-append,
}
use agentic_fraud_decisionin.Retrieval.Chunker.Pieces.{
  Error, pieces_of, pieces_by, split_oversized_paragraphs,
}

module _ {A : Type 0} where
  take-drop : (n : ℕ) (xs : List A) → take n xs ++ drop n xs ≡ xs
  take-drop zero xs = refl
  take-drop (suc n) [] = refl
  take-drop (suc n) (x ∷ xs) = ap (λ ys. x ∷ ys) (take-drop n xs)

  length-take_le : (n : ℕ) (xs : List A) → length (take n xs) ≤ n
  length-take_le zero xs = omega arith
  length-take_le (suc n) [] = omega arith
  length-take_le (suc n) (x ∷ xs) = omega (arith, length-take_le n xs)

  length-drop_le : (n : ℕ) (xs : List A) → length (drop n xs) ≤ length xs
  length-drop_le zero xs = omega arith
  length-drop_le (suc n) [] = omega arith
  length-drop_le (suc n) (x ∷ xs) = omega (arith, length-drop_le n xs)

  All-take : (P : A → Type 0) (n : ℕ) (xs : List A) → All P xs → All P (take n xs)
  All-take P zero xs h = tt
  All-take P (suc n) [] h = tt
  All-take P (suc n) (x ∷ xs) h = (h.0, All-take P n xs h.1)

  All-drop : (P : A → Type 0) (n : ℕ) (xs : List A) → All P xs → All P (drop n xs)
  All-drop P zero xs h = h
  All-drop P (suc n) [] h = tt
  All-drop P (suc n) (x ∷ xs) h = All-drop P n xs h.1

-- At most `budget` words.
abbrev pub Fits : ℕ → Str → Type 0
Fits budget para = length (words para) ≤ budget

space_is_space : is_space b' ' ≡ true
unfolding is_space
space_is_space = refl

words-joined : (ws : List Str) → All IsWord ws → words (join (codes " ") ws) ≡ ws
words-joined ws h = words-join b' ' [] ws (rw space_is_space refl) ∙ words_in-All ws h

pieces_of-lem :
    (rounds b : ℕ) (ws : List Str)
    → length ws ≤ rounds
    → All IsWord ws
    → (words_in (pieces_of rounds (suc b) ws) ≡ ws)
      × All (Fits (suc b)) (pieces_of rounds (suc b) ws)
unfolding pieces_of words_in concat
pieces_of-lem zero b [] l h = (refl, tt)
pieces_of-lem zero b (w ∷ ws) l h = absurd (omega arith)
pieces_of-lem (suc r) b [] l h = (refl, tt)
pieces_of-lem (suc r) b (w ∷ ws) l h =
    let here = words-joined (take (suc b) (w ∷ ws)) (All-take IsWord (suc b) (w ∷ ws) h) in
    let shorter = length-drop_le b ws in
    let rest = pieces_of-lem r b (drop b ws) (omega arith) (All-drop IsWord b ws h.1) in
    (
      rw (here, rest.0) (take-drop (suc b) (w ∷ ws)),
      (rw here (length-take_le (suc b) (w ∷ ws)), rest.1),
    )

-- For a positive budget: what the pieces of a paragraph satisfy.
abbrev pub IsSplit : ℕ → List Str → Result Error (List Str) → Type 0
IsSplit b ws r = (out : List Str) × (r ≡ ok out) × (words_in out ≡ ws) × All (Fits b) out

paragraph-IsSplit :
    (b : ℕ) (para : Str)
    → IsSplit (suc b) (words para) (
        if leb_ℤ (pos (length (words para))) (pos (suc b))
        then ok (para ∷ [])
        else pieces_by (pos (suc b)) (words para))
unfolding words_in concat
paragraph-IsSplit b para = elim (Bool-cases (leb_ℤ (pos (length (words para))) (pos (suc b)))) [
  | inl e ↦ rw e (para ∷ [], refl, append-nil (words para), (ground arith, tt))
  | inr e ↦
      let ws = words para in
      let (same, fits) = pieces_of-lem (length ws) b ws (omega arith) (words-All para) in
      rw e (pieces_of (length ws) (suc b) ws, refl, same, fits)
]

-- The pre-pass, under a positive budget, keeps the words and leaves no paragraph too long.
pub split_oversized_paragraphs-IsSplit :
    (b : ℕ) (paras : List Str)
    → IsSplit (suc b) (words_in paras) (split_oversized_paragraphs paras (pos (suc b)))
unfolding split_oversized_paragraphs words_in concat
split_oversized_paragraphs-IsSplit b [] = ([], refl, refl, tt)
split_oversized_paragraphs-IsSplit b (para ∷ rest) =
    let (xs, done, same, fits) = paragraph-IsSplit b para in
    let (ys, done', same', fits') = split_oversized_paragraphs-IsSplit b rest in
    (
      xs ++ ys,
      rw (done, done') refl,
      rw (words_in-append xs ys, same, same') refl,
      All-append (Fits (suc b)) xs ys fits fits',
    )
