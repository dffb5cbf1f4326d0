-- ===== src/Governance/Hitl/Rows.antt =====
-- The table stays well formed: valid rows, one row for each id, a verdict exactly where reviewed.
use agentic_fraud_decisionin.Common.{
  ℕ, ◌≡◌, ◌≢◌, refl, sym, Str, true, false, none, some, List, [], ◌∷◌, ◌++◌, All, All-append, ◌⊎◌,
  inl, inr, Bool-cases,
}
use agentic_fraud_decisionin.Common.Value.{Value, str}
use agentic_fraud_decisionin.Db.Schema.{human_outcome}
use agentic_fraud_decisionin.Db.Validators.Laws.{IsEnum, Accepted}
use agentic_fraud_decisionin.Governance.Hitl.{
  Row, Table, new_row, reviewed, is_reviewable, update_where, Call, persist, review, step, run,
}
use agentic_fraud_decisionin.Governance.Hitl.Review.{persist_cases, review_cases}

-- A verdict is recorded exactly if the row is marked as reviewed, and it is an allowed one.
abbrev pub Verdict : Row → Type 0
Verdict r =
    ((r.human_reviewed ≡ false) × (r.human_outcome ≡ none))
    ⊎ ((r.human_reviewed ≡ true)
        × ((o : Value) × (r.human_outcome ≡ some o) × IsEnum human_outcome o))

abbrev pub IsRow : Row → Type 0
IsRow r =
    Accepted r.decision r.confidence_score r.identified_pattern (str r.governance_tier) × Verdict r

abbrev pub IsFresh : Str → Table → Type 0
IsFresh id t = All (λ r. r.decision_id ≢ id) t

abbrev pub Distinct : Table → Type 0
Distinct [] = Unit {0}
Distinct (r ∷ rs) = IsFresh r.decision_id rs × Distinct rs

abbrev pub IsTable : Table → Type 0
IsTable t = All IsRow t × Distinct t

-- The generator gives a decision an id that no row has.
abbrev pub FreshCall : Table → Call → Type 0
FreshCall t (persist s tier latency snapshot id now connector) = IsFresh id t
FreshCall t (review id reviewer outcome notes now connector) = Unit {0}

abbrev pub FreshCalls : Table → List Call → Type 0
FreshCalls t [] = Unit {0}
FreshCalls t (c ∷ cs) = FreshCall t c × FreshCalls (step t c) cs

IsFresh-snoc :
    (id : Str) (t : Table) (r : Row) → IsFresh id t → r.decision_id ≢ id → IsFresh id (t ++ r ∷ [])
IsFresh-snoc id t r h n = All-append _ t _ h (n, tt)

Distinct-snoc :
    (t : Table) (r : Row) → Distinct t → IsFresh r.decision_id t → Distinct (t ++ r ∷ [])
Distinct-snoc [] r d f = (tt, tt)
Distinct-snoc (x ∷ xs) r d f =
    (IsFresh-snoc x.decision_id xs r d.0 (λ e. f.0 (sym e)), Distinct-snoc xs r d.1 f.1)

module _ (id reviewer : Str) (outcome : Value) (notes : Str) (now : ℕ) where
  abbrev updated : Table → Table
  updated t = (update_where (is_reviewable id) (reviewed reviewer outcome notes now) t).0

  -- An update goes row by row.
  updated-cons {ℓ} :
      (P : Table → Type ℓ) (r : Row) (rs : Table)
      → P (reviewed reviewer outcome notes now r ∷ updated rs)
      → P (r ∷ updated rs)
      → P (updated (r ∷ rs))
  unfolding update_where
  updated-cons P r rs hit miss = elim (Bool-cases (is_reviewable id r)) [
    | inl e ↦ rw (e, updated, update_where) hit
    | inr e ↦ rw (e, updated, update_where) miss
  ]

  updated-IsFresh : (i : Str) (t : Table) → IsFresh i t → IsFresh i (updated t)
  unfolding update_where
  updated-IsFresh i [] h = tt
  updated-IsFresh i (r ∷ rs) h =
      let rest = updated-IsFresh i rs h.1 in updated-cons (IsFresh i) r rs (h.0, rest) (h.0, rest)

  updated-Distinct : (t : Table) → Distinct t → Distinct (updated t)
  unfolding update_where
  updated-Distinct [] h = tt
  updated-Distinct (r ∷ rs) h =
      let rest = updated-Distinct rs h.1 in
      let fresh = updated-IsFresh r.decision_id rs h.0 in
      updated-cons Distinct r rs (fresh, rest) (fresh, rest)

  updated-rows : (t : Table) → IsEnum human_outcome outcome → All IsRow t → All IsRow (updated t)
  unfolding update_where
  updated-rows [] o h = tt
  updated-rows (r ∷ rs) o h =
      let rest = updated-rows rs o h.1 in
      updated-cons (All IsRow) r rs ((h.0.0, inr (refl, (outcome, refl, o))), rest) (h.0, rest)

step-IsTable : (t : Table) (c : Call) → FreshCall t c → IsTable t → IsTable (step t c)
step-IsTable t (persist s tier latency snapshot id now connector) f h =
    persist_cases IsTable t s tier latency snapshot id now connector h λ a. (
      All-append IsRow t _ h.0 ((a, inl (refl, refl)), tt),
      Distinct-snoc t (new_row s tier latency snapshot id now) h.1 f,
    )
step-IsTable t (review id reviewer outcome notes now connector) f h =
    review_cases IsTable t id reviewer outcome notes now connector h λ o. (
      updated-rows id reviewer outcome notes now t o h.0,
      updated-Distinct id reviewer outcome notes now t h.1,
    )

-- From a well-formed table on, whatever the calls and whatever the connector does, every row passes the
-- validators, no two rows share an id, and a row has a verdict, an allowed one, exactly if it is
-- marked as reviewed. The ids given to new decisions have to be new.
pub run-IsTable : (t : Table) (cs : List Call) → FreshCalls t cs → IsTable t → IsTable (run t cs)
unfolding run
run-IsTable t [] f h = h
run-IsTable t (c ∷ cs) f h = run-IsTable (step t c) cs f.1 (step-IsTable t c f.0 h)
