-- ===== src/Common/Words/Join.antt =====
-- Joining texts by whitespace joins their words.
use mathlib.Core.List.{append-nil, append_assoc}
use agentic_fraud_decisionin.Common.{
  ℕ, Str, ◌≡◌, refl, sym, ap, ◌∙◌, true, false, List, [], ◌∷◌, ◌++◌, any, all, All, Bool-cases, inl,
  inr, arith,
}
use agentic_fraud_decisionin.Common.Words.{
  is_space, is_empty, flush, words_from, words, join, concat, words_in,
}
use agentic_fraud_decisionin.Common.Words.Laws.{words-append, words-space}

-- Letters, and no whitespace among them.
abbrev pub IsWord : Str → Type 0
IsWord w = (is_empty w ≡ false) × (any is_space w ≡ false)

words_from-solid : (w : Str) → any is_space w ≡ false → words_from w ≡ (w, [])
unfolding words_from
words_from-solid [] h = refl
words_from-solid (c ∷ w) h =
    let here : is_space c ≡ false = ground arith in
    rw (words_from-solid w (ground arith), here) refl

words-IsWord : (w : Str) → IsWord w → words w ≡ w ∷ []
unfolding words
words-IsWord [] h = cc
words-IsWord (c ∷ w) h = ap flush (words_from-solid (c ∷ w) h.1)

flush-All : (r : Str × List Str) → any is_space r.0 ≡ false → All IsWord r.1 → All IsWord (flush r)
flush-All ([], ws) h every = every
flush-All (c ∷ w, ws) h every = ((refl, h), every)

words_from-All : (s : Str) → (any is_space (words_from s).0 ≡ false) × All IsWord (words_from s).1
unfolding words_from
words_from-All [] = (refl, tt)
words_from-All (c ∷ s) = elim (Bool-cases (is_space c)) [
  | inl e ↦ rw e (refl, flush-All (words_from s) (words_from-All s).0 (words_from-All s).1)
  | inr e ↦ rw (e, e) ((words_from-All s).0, (words_from-All s).1)
]

pub words-All : (s : Str) → All IsWord (words s)
unfolding words
words-All s = flush-All (words_from s) (words_from-All s).0 (words_from-All s).1

words-spaces : (sep t : Str) → all is_space sep ≡ true → words (sep ++ t) ≡ words t
words-spaces [] t h = refl
words-spaces (c ∷ sep) t h =
    words-space (sep ++ t) c (ground arith) ∙ words-spaces sep t (ground arith)

-- The words of joined texts are those of the texts.
pub words-join :
    (c : ℕ) (sep : Str) (texts : List Str)
    → all is_space (c ∷ sep) ≡ true
    → words (join (c ∷ sep) texts) ≡ words_in texts
unfolding join words_in concat
words-join c sep [] h = unfold words words_from in refl
words-join c sep (s ∷ []) h = sym (append-nil (words s))
words-join c sep (s ∷ t ∷ rest) h =
    words-append s (sep ++ join (c ∷ sep) (t ∷ rest)) c (ground arith)
    ∙ ap (λ ws. words s ++ ws)
        (words-spaces sep (join (c ∷ sep) (t ∷ rest)) (ground arith)
          ∙ words-join c sep (t ∷ rest) h)

-- Words are their own words.
pub words_in-All : (ws : List Str) → All IsWord ws → words_in ws ≡ ws
unfolding words_in concat
words_in-All [] h = refl
words_in-All (w ∷ ws) h = rw (words-IsWord w h.0, words_in-All ws h.1) refl

pub concat-append {ℓ} :
    {A : Type ℓ} (xs ys : List (List A)) → concat (xs ++ ys) ≡ concat xs ++ concat ys
unfolding concat
concat-append [] ys = refl
concat-append (x ∷ xs) ys = rw (concat-append xs ys) (sym (append_assoc x (concat xs) (concat ys)))

pub words_in-append : (xs ys : List Str) → words_in (xs ++ ys) ≡ words_in xs ++ words_in ys
unfolding words_in concat
words_in-append [] ys = refl
words_in-append (x ∷ xs) ys =
    rw (words_in-append xs ys) (sym (append_assoc (words x) (words_in xs) (words_in ys)))
