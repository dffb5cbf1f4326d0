-- ===== src/Observability/Metrics/Laws.antt =====
-- The tally of a pattern counts every fraud row of it once, and its counts agree.
use agentic_fraud_decisionin.Common.{
  ℕ, suc, ◌+◌, ◌≤◌, Str, codes, str_eq, str_eq_iff, str_eq_refl, str_eq_sym, upper, ◌≡◌, refl, sym,
  ap, subst, ◌∙◌, Bool, true, false, not, ◌&&◌, ◌||◌, Option, none, some, List, [], ◌∷◌, Bool-cases,
  length, inl, inr, arith, if◌then◌else◌,
}
use agentic_fraud_decisionin.Common.Map.{Map, find, set, find-set, find-set_other}
use agentic_fraud_decisionin.Common.Words.{strip, is_empty, lstrip, rstrip, is_space}
use agentic_fraud_decisionin.Observability.Metrics.{
  Decision, Bucket, is_escalated, is_blocked, count, confusion, label, surfaced_patterns, bump,
  pattern_of, is_primary, is_detected, count_pattern, or_empty, tally,
}

-- Every decision is escalated or stands in one cell of the matrix.
pub confusion_lem :
    (ds : List Decision)
    → let c = confusion ds in c.tp + c.fp + c.fn + c.tn + count is_escalated ds ≡ length ds
unfolding confusion
confusion_lem [] = refl
confusion_lem (d ∷ ds) = elim (Bool-cases (is_escalated d)) [
  | inl e ↦ rw e (omega (arith, confusion_lem ds))
  | inr e ↦ rw e (ground (arith, confusion_lem ds))
]

none_label : upper (strip (codes "NONE")) ≡ codes "NONE"
unfolding upper strip lstrip rstrip is_space
none_label = refl

label_named :
    (agent : Option Str) (pat : Str)
    → str_eq pat (codes "NONE") ≡ false
    → str_eq (label agent (codes "NONE")) pat ≡ true
    → label agent [] ≡ pat
label_named none pat known h =
    let same : codes "NONE" ≡ pat = sym none_label ∙ (str_eq_iff _ pat).0 h in
    let clash : str_eq pat (codes "NONE") ≡ true = (str_eq_iff pat (codes "NONE")).1 (sym same) in
    absurd (ground (arith, clash, known))
label_named (some []) pat known h =
    let same : codes "NONE" ≡ pat = sym none_label ∙ (str_eq_iff _ pat).0 h in
    let clash : str_eq pat (codes "NONE") ≡ true = (str_eq_iff pat (codes "NONE")).1 (sym same) in
    absurd (ground (arith, clash, known))
label_named (some (c ∷ s)) pat known h = (str_eq_iff _ pat).0 h

-- A right final label of a known pattern is a detection.
primary_detected :
    (d : Decision) (pat : Str)
    → str_eq pat (codes "NONE") ≡ false
    → is_empty pat ≡ false
    → is_primary d pat ≡ true
    → is_detected d pat ≡ true
unfolding surfaced_patterns
primary_detected d pat known some_text h =
    let same = label_named d.agent_pattern pat known h in
    rw (same, some_text, known, str_eq_refl pat) refl

-- What the counts of a bucket satisfy after `k` rows.
pub record IsSane (pat : Str) (k : ℕ) (b : Bucket) : Type 0 where
  pub all_rows : b.n ≡ k
  pub split : b.detected + b.missed ≡ b.n
  pub caught_le : b.caught ≤ b.n
  pub by_label : b.detected ≡ b.primary_correct + b.mislabeled

abbrev SaneAfter : Str → ℕ → Option Bucket → Type 0
SaneAfter pat k none = k ≡ 0
SaneAfter pat k (some b) = IsSane pat k b

or_empty-IsSane :
    (pat : Str) (k : ℕ) (o : Option Bucket) → SaneAfter pat k o → IsSane pat k (or_empty o)
or_empty-IsSane pat k none h = record {
  all_rows = sym h;
  split = refl;
  caught_le = omega arith;
  by_label = refl;
}
or_empty-IsSane pat k (some b) h = h

bump_lem : (t : Bool) (k : ℕ) → (bump t k ≤ suc k) × (bump t k + bump (not t) 0 ≡ suc k)
bump_lem true k = (omega arith, omega arith)
bump_lem false k = (omega arith, omega arith)

count_pattern-IsSane :
    (d : Decision) (pat : Str) (k : ℕ) (b : Bucket)
    → str_eq pat (codes "NONE") ≡ false
    → is_empty pat ≡ false
    → IsSane pat k b
    → IsSane pat (suc k) (count_pattern d pat b)
unfolding count_pattern
count_pattern-IsSane d pat k b known some_text h =
    let implied = primary_detected d pat known some_text in
    record {
      all_rows = ap suc h.all_rows;
      split = elim (Bool-cases (is_detected d pat)) [
        | inl e ↦ rw e (omega (arith, h.split))
        | inr e ↦ rw e (omega (arith, h.split))
      ];
      caught_le = elim (Bool-cases (is_blocked d || is_escalated d)) [
        | inl e ↦ rw e (omega (arith, h.caught_le))
        | inr e ↦ rw e (omega (arith, h.caught_le))
      ];
      by_label = elim (Bool-cases (is_primary d pat)) [
        | inl e ↦ rw (e, implied e) (omega (arith, h.by_label))
        | inr e ↦ elim (Bool-cases (is_detected d pat)) [
          | inl q ↦ rw (e, q) (omega (arith, h.by_label))
          | inr q ↦ rw (e, q) (omega (arith, h.by_label))
        ]
      ];
    }

-- A fraud row of the pattern.
abbrev pub is_row : Str → Decision → Bool
is_row pat d = d.is_fraud && str_eq (pattern_of d) pat

-- A round of the loop, for a row that is fraud or not, under its pattern.
abbrev round_at : Bool → Str → Decision → Map Bucket → Map Bucket
round_at fraud key d out =
    if fraud then set key (count_pattern d key (or_empty (find key out))) out else out

round_at-SaneAfter :
    (fraud : Bool) (key pat : Str) (k : ℕ) (out : Map Bucket) (d : Decision)
    → str_eq pat (codes "NONE") ≡ false
    → is_empty pat ≡ false
    → SaneAfter pat k (find pat out)
    → SaneAfter pat (bump (fraud && str_eq key pat) k) (find pat (round_at fraud key d out))
round_at-SaneAfter false key pat k out d known some_text h = h
round_at-SaneAfter true key pat k out d known some_text h = elim (Bool-cases (str_eq key pat)) [
  | inl q ↦
      let b = or_empty (find pat out) in
      rw ((str_eq_iff key pat).0 q, str_eq_refl pat, find-set pat (count_pattern d pat b) out)
        (count_pattern-IsSane d pat k b known some_text (or_empty-IsSane pat k (find pat out) h))
  | inr q ↦
      let other =
        find-set_other pat key (count_pattern d key (or_empty (find key out))) out
          (str_eq_sym pat key ∙ q) in
      rw (q, other) h
]

bump_count : (t : Bool) (k n : ℕ) → k + (if t then suc n else n) ≡ bump t k + n
bump_count true k n = omega arith
bump_count false k n = refl

tally-SaneAfter :
    (pat : Str) (k : ℕ) (out : Map Bucket) (ds : List Decision)
    → str_eq pat (codes "NONE") ≡ false
    → is_empty pat ≡ false
    → SaneAfter pat k (find pat out)
    → SaneAfter pat (k + count (is_row pat) ds) (find pat (tally out ds))
unfolding tally
tally-SaneAfter pat k out [] known some_text h =
    let same : k ≡ k + 0 = omega arith in subst (λ n. SaneAfter pat n (find pat out)) same h
tally-SaneAfter pat k out (d ∷ ds) known some_text h =
    let round = round_at-SaneAfter d.is_fraud (pattern_of d) pat k out d known some_text h in
    subst (λ n. SaneAfter pat n (find pat (tally out (d ∷ ds))))
      (sym (bump_count (is_row pat d) k (count (is_row pat) ds)))
      (tally-SaneAfter pat (bump (is_row pat d) k) (round_at d.is_fraud (pattern_of d) d out) ds
        known some_text round)

-- The bucket of a pattern, after the loop over all decisions, counts every fraud row of that
-- pattern; each of these is detected or missed, no more of them are caught than there are, and the
-- detected ones are those with the right final label and the mislabeled ones. The pattern is taken
-- to be neither empty nor NONE.
pub tally-IsSane :
    (ds : List Decision) (pat : Str) {b : Bucket}
    → str_eq pat (codes "NONE") ≡ false
    → is_empty pat ≡ false
    → find pat (tally [] ds) ≡ some b
    → IsSane pat (count (is_row pat) ds) b
unfolding find
tally-IsSane ds pat {b} known some_text h =
    let rows = count (is_row pat) ds in
    let same : 0 + rows ≡ rows = omega arith in
    subst (SaneAfter pat rows) h (
      subst (λ n. SaneAfter pat n (find pat (tally [] ds))) same
        (tally-SaneAfter pat 0 [] ds known some_text refl))
