-- ===== src/Common/Words/Laws.antt =====
-- What splitting and joining text does to its words.
use agentic_fraud_decisionin.Common.{
  ℕ, Str, ◌≡◌, refl, sym, ap, ◌∙◌, Bool, true, false, ◌&&◌, List, [], ◌∷◌, ◌++◌, ◌==◌, ==_iff,
  ==_iff, Bool-cases, inl, inr, arith,
}
use agentic_fraud_decisionin.Common.Words.{
  is_space, is_empty, lstrip, rstrip, strip, flush, words_from, words, starts_line, pieces,
  split_blank, concat, words_in,
}

is_empty-eq : (s : Str) → is_empty s ≡ true → s ≡ []
is_empty-eq [] h = refl
is_empty-eq (c ∷ s) h = cc

flush-append : (r : Str × List Str) (ws : List Str) → flush (r.0, r.1 ++ ws) ≡ flush r ++ ws
flush-append ([], vs) ws = refl
flush-append (c ∷ w, vs) ws = refl

words_from-append :
    (s t : Str) (c : ℕ)
    → is_space c ≡ true
    → words_from (s ++ c ∷ t) ≡ ((words_from s).0, (words_from s).1 ++ words t)
unfolding words_from words
words_from-append [] t c h = rw h refl
words_from-append (d ∷ s) t c h = elim (Bool-cases (is_space d)) [
  | inl e ↦ rw (words_from-append s t c h, e, flush-append (words_from s) (words t)) refl
  | inr e ↦ rw (words_from-append s t c h, e) refl
]

pub words-append : (s t : Str) (c : ℕ) → is_space c ≡ true → words (s ++ c ∷ t) ≡ words s ++ words t
unfolding words
words-append s t c h =
    rw (words_from-append s t c h, flush-append (words_from s) (flush (words_from t))) refl

pub words-space : (t : Str) (c : ℕ) → is_space c ≡ true → words (c ∷ t) ≡ words t
unfolding words words_from
words-space t c h = words-append [] t c h

-- A space before text that strips to nothing.
words_from-blank :
    (s : Str) (c : ℕ)
    → is_space c ≡ true
    → is_empty (rstrip s) ≡ true
    → words_from (rstrip s) ≡ words_from s
    → words_from [] ≡ words_from (c ∷ s)
unfolding words_from
words_from-blank s c e h q = let n = is_empty-eq (rstrip s) h in rw (e, ← q, n) refl

rstrip-words_from : (s : Str) → words_from (rstrip s) ≡ words_from s
unfolding rstrip words_from
rstrip-words_from [] = refl
rstrip-words_from (c ∷ s) = elim (Bool-cases (is_space c && is_empty (rstrip s))) [
  | inl e ↦ rw e (words_from-blank s c (ground arith) (ground arith) (rstrip-words_from s))
  | inr e ↦ rw (e, words_from, rstrip-words_from s) refl
]

words-lstrip : (s : Str) → words (lstrip s) ≡ words s
unfolding lstrip
words-lstrip [] = refl
words-lstrip (c ∷ s) = elim (Bool-cases (is_space c)) [
  | inl e ↦ rw (e, words-space s c e) (words-lstrip s)
  | inr e ↦ rw e refl
]

pub words-strip : (s : Str) → words (strip s) ≡ words s
unfolding strip
words-strip s = words-lstrip (rstrip s) ∙ unfold words in ap flush (rstrip-words_from s)

newline_is_space : is_space b'\n' ≡ true
unfolding is_space
newline_is_space = refl

-- The text that is still to be cut.
after_skip : Bool → Str → Str
after_skip true (c ∷ s) = s
after_skip _ s = s

-- The unfinished word and the words of a text that is cut in pieces.
combine : Str × List Str → Str × List Str
combine r = ((words_from r.0).0, (words_from r.0).1 ++ words_in r.1)

words_from-add_code :
    (c : ℕ) (s : Str) (r : Str × List Str)
    → words_from s ≡ combine r
    → words_from (c ∷ s) ≡ combine (c ∷ r.0, r.1)
unfolding combine words_from
words_from-add_code c s r h = elim (Bool-cases (is_space c)) [
  | inl e ↦ rw (h, e, flush-append (words_from r.0) (words_in r.1)) refl
  | inr e ↦ rw (h, e) refl
]

words_from-cut :
    (c : ℕ) (s : Str) (r : Str × List Str)
    → (c == b'\n' && starts_line s) ≡ true
    → words_from (after_skip true s) ≡ combine r
    → words_from (c ∷ s) ≡ combine ([], r.0 ∷ r.1)
unfolding combine words_from after_skip words_in concat words
words_from-cut c [] r h q = ground arith
words_from-cut c (d ∷ s) r h q =
    let c_is = (==_iff c b'\n').0 (ground arith) in
    let d_is = (==_iff d b'\n').0 (ground arith) in
    rw (c_is, d_is, newline_is_space, q, flush-append (words_from r.0) (words_in r.1)) refl

words_from-pieces :
    (skip : Bool) (s : Str) → words_from (after_skip skip s) ≡ combine (pieces skip s)
unfolding after_skip pieces combine words_in concat words_from
words_from-pieces true [] = refl
words_from-pieces false [] = refl
words_from-pieces true (c ∷ s) = words_from-pieces false s
words_from-pieces false (c ∷ s) = elim (Bool-cases (c == b'\n' && starts_line s)) [
  | inl e ↦ rw e (words_from-cut c s (pieces true s) e (words_from-pieces true s))
  | inr e ↦ rw e (words_from-add_code c s (pieces false s) (words_from-pieces false s))
]

-- Cutting a text at its blank lines keeps every word.
pub words_in-split_blank : (s : Str) → words_in (split_blank s) ≡ words s
unfolding split_blank words words_in concat combine after_skip
words_in-split_blank s =
    let r = pieces false s in
    sym (ap flush (words_from-pieces false s) ∙ flush-append (words_from r.0) (words_in r.1))
