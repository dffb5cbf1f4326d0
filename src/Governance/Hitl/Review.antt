-- ===== src/Governance/Hitl/Review.antt =====
-- A decision is reviewed at most once, and the table stays well formed.
use agentic_fraud_decisionin.Common.{
  ℕ, ◌≡◌, refl, Str, codes, str_eq_iff, Bool, true, false, Option, some, List, [], ◌∷◌, ◌++◌, All,
  All-append, inl, inr, Bool-cases, arith, ◌==◌,
}
use agentic_fraud_decisionin.Common.Value.{Value, str}
use agentic_fraud_decisionin.Common.Result.{ok, err, Result-cases}
use agentic_fraud_decisionin.Db.Schema.{human_outcome}
use agentic_fraud_decisionin.Db.Validators.{
  validate_decision_record, validate_review_outcome, validate_enum,
}
use agentic_fraud_decisionin.Db.Validators.Laws.{
  IsEnum, validate_enum-IsEnum, Accepted, validate_decision_record-Accepted,
}
use agentic_fraud_decisionin.Governance.Hitl.{
  Row, Table, FinalState, review_conflict, new_row, reviewed, is_reviewable, update_where,
  record_review, Call, persist, review, step, run,
}

-- Every row with this id has been reviewed.
abbrev pub IsClosed : Str → Table → Type 0
IsClosed id t = All (λ r. is_reviewable id r ≡ false) t

update_where-IsClosed :
    (id reviewer notes : Str) (outcome : Value) (now : ℕ) (t : Table)
    → IsClosed id (update_where (is_reviewable id) (reviewed reviewer outcome notes now) t).0
unfolding update_where
update_where-IsClosed id reviewer notes outcome now [] = tt
update_where-IsClosed id reviewer notes outcome now (r ∷ rs) =
    ground (arith, update_where-IsClosed id reviewer notes outcome now rs)

-- A review of one decision opens no other.
update_where-IsClosed_other :
    (id other reviewer notes : Str) (outcome : Value) (now : ℕ) (t : Table)
    → IsClosed id t
    → IsClosed id (update_where (is_reviewable other) (reviewed reviewer outcome notes now) t).0
unfolding update_where
update_where-IsClosed_other id other reviewer notes outcome now [] h = tt
update_where-IsClosed_other id other reviewer notes outcome now (r ∷ rs) h =
    ground (arith, update_where-IsClosed_other id other reviewer notes outcome now rs h.1)

update_where_closed :
    (id : Str) (f : Row → Row) (t : Table)
    → IsClosed id t
    → (update_where (is_reviewable id) f t).1 ≡ 0
unfolding update_where
update_where_closed id f [] h = refl
update_where_closed id f (r ∷ rs) h = ground (arith, update_where_closed id f rs h.1)

-- The table after `persist_decision`: as it was, or with the new row of an accepted record.
pub persist_cases {ℓ} :
    (P : Table → Type ℓ) (t : Table) (s : FinalState) (tier : Str) (latency : ℕ)
    (snapshot : Option Str) (id : Str) (now : ℕ) (connector : Bool)
    → P t
    → (Accepted s.decision s.confidence_score s.identified_pattern (str tier)
        → P (t ++ new_row s tier latency snapshot id now ∷ []))
    → P (step t (persist s tier latency snapshot id now connector))
unfolding step
persist_cases P t s tier latency snapshot id now connector same added =
    elim (Result-cases (
      validate_decision_record s.decision s.confidence_score s.identified_pattern
        (some (str tier)))) [
          | inr (e, q) ↦ rw (q, step) same
          | inl (u, q) ↦ elim (Bool-cases connector) [
            | inl on ↦ rw (q, step, on) (added (validate_decision_record-Accepted _ _ _ _ q))
            | inr off ↦ rw (q, step, off) same
          ]
        ]

-- The table after `record_review`: as it was, or updated with an outcome that is allowed.
pub review_cases {ℓ} :
    (P : Table → Type ℓ) (t : Table) (id reviewer : Str) (outcome : Value) (notes : Str) (now : ℕ)
    (connector : Bool)
    → P t
    → (IsEnum human_outcome outcome
        → P (update_where (is_reviewable id) (reviewed reviewer outcome notes now) t).0)
    → P (step t (review id reviewer outcome notes now connector))
unfolding step validate_review_outcome
review_cases P t id reviewer outcome notes now connector same updated =
    elim (Result-cases (validate_enum outcome human_outcome (codes "human_outcome") false)) [
      | inr (e, q) ↦ rw (q, step) same
      | inl (u, q) ↦ elim (Bool-cases connector) [
        | inr off ↦ rw (q, step, off) same
        | inl on ↦
            elim (Bool-cases
              ((update_where (is_reviewable id) (reviewed reviewer outcome notes now) t).1 == 0)) [
                | inl missed ↦ rw (q, step, on, missed) same
                | inr hit ↦
                    rw (q, step, on, hit) (updated (validate_enum-IsEnum outcome human_outcome _ q))
              ]
      ]
    ]

abbrev pub Persists : Str → Call → Type 0
Persists id (persist s tier latency snapshot new now connector) = new ≡ id
Persists id (review other reviewer outcome notes now connector) = ⊥

step-IsClosed :
    (id : Str) (t : Table) (c : Call) → ¬ Persists id c → IsClosed id t → IsClosed id (step t c)
step-IsClosed id t (persist s tier latency snapshot new now connector) n h =
    persist_cases (IsClosed id) t s tier latency snapshot new now connector h
      λ _. All-append _ t _ h (ground (arith, n, str_eq_iff new id), tt)
step-IsClosed id t (review other reviewer outcome notes now connector) n h =
    review_cases (IsClosed id) t other reviewer outcome notes now connector h
      λ _. update_where-IsClosed_other id other reviewer notes outcome now t h

run-IsClosed :
    (id : Str) (t : Table) (cs : List Call)
    → All (λ c. ¬ Persists id c) cs
    → IsClosed id t
    → IsClosed id (run t cs)
unfolding run
run-IsClosed id t [] n h = h
run-IsClosed id t (c ∷ cs) n h = run-IsClosed id (step t c) cs n.1 (step-IsClosed id t c n.0 h)

record_review-IsClosed :
    (id reviewer notes : Str) (outcome : Value) (now : ℕ) (t : Table)
    → (record_review t id reviewer outcome notes now true).0 ≡ ok tt
    → IsClosed id (record_review t id reviewer outcome notes now true).1
unfolding record_review
record_review-IsClosed id reviewer notes outcome now t h =
    ground (arith, update_where-IsClosed id reviewer notes outcome now t)

closed_review :
    (id reviewer notes : Str) (outcome : Value) (now : ℕ) (t : Table)
    → IsClosed id t
    → IsEnum human_outcome outcome
    → record_review t id reviewer outcome notes now true ≡ (err review_conflict, t)
unfolding record_review validate_review_outcome validate_enum
closed_review id reviewer notes outcome now t h (s, e, m) =
    rw e (ground (arith, e, m, update_where_closed id (reviewed reviewer (str s) notes now) t h))

-- Once a review of a decision went through, a second one with an allowed outcome is refused as a
-- conflict and changes nothing, whatever calls came in between, as long as none of them persists a
-- decision under the same id.
pub review_once :
    (id reviewer notes : Str) (outcome : Value) (now : ℕ) (t : Table) (cs : List Call)
    (reviewer' notes' : Str) (outcome' : Value) (now' : ℕ)
    → (record_review t id reviewer outcome notes now true).0 ≡ ok tt
    → All (λ c. ¬ Persists id c) cs
    → IsEnum human_outcome outcome'
    → let u = run (record_review t id reviewer outcome notes now true).1 cs in
      record_review u id reviewer' outcome' notes' now' true ≡ (err review_conflict, u)
review_once id reviewer notes outcome now t cs reviewer' notes' outcome' now' h n m =
    closed_review id reviewer' notes' outcome' now' _
      (run-IsClosed id _ cs n (record_review-IsClosed id reviewer notes outcome now t h)) m
