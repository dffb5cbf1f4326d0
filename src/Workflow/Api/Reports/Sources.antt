-- ===== src/Workflow/Api/Reports/Sources.antt =====
-- Where the SQL of an accepted report comes from.
use agentic_fraud_decisionin.Common.{
  ◌≡◌, refl, ◌∙◌, Str, codes, contains, str_eq, str_eq_refl, any-append, Bool, true, ◌&&◌, Option,
  none, some, List, [], ◌∷◌, ◌⊎◌, inl, inr, any, Option-cases, arith,
}
use agentic_fraud_decisionin.Common.Result.{ok}
use agentic_fraud_decisionin.Workflow.Tables.{Template, Store}
use agentic_fraud_decisionin.Workflow.Store.{new_id, save_template}
use agentic_fraud_decisionin.Workflow.Api.Reports.{
  ReportRequest, Origin, named, validated, vetted, adhoc, resolve_source, stored,
}

-- The text names a report of the catalog, or a template that holds what the guard made of `sql`.
abbrev pub IsVetted : (Str → Option Str) → (Str → Option Str) → Str → Str → List Template → Type 0
IsVetted guard catalog sql ref templates =
    ((text : Str) × (catalog ref ≡ some text))
    ⊎ ((safe : Str) × (guard sql ≡ some safe)
        × (any (λ t. str_eq t.id ref && str_eq t.sql safe) templates ≡ true))

module _ (guard : Str → Option Str) (catalog : Str → Option Str) where
  abbrev Resolved : ReportRequest → Origin → Type 0
  Resolved req (named r w) = (text : Str) × (catalog r ≡ some text)
  Resolved req (validated q w) = guard req.sql ≡ some q

  vetted-Resolved :
      (req : ReportRequest) (source : Origin)
      → vetted guard catalog req.sql ≡ ok source
      → Resolved req source
  unfolding vetted
  vetted-Resolved req source h = elim (Option-cases (guard req.sql)) [
    | inl e ↦ absurd (ground arith)
    | inr (safe, e) ↦ by_source source safe (contains (codes ":window_start") safe) e (ground arith)
  ]
    where
      by_source :
          (x : Origin) (safe : Str) (w : Bool)
          → guard req.sql ≡ some safe
          → validated safe w ≡ x
          → Resolved req x
      by_source (named r v) safe w e h = absurd (ground arith)
      by_source (validated q v) safe w e h = e ∙ ground arith

  adhoc-Resolved :
      (req : ReportRequest) (source : Origin) (sql : Str)
      → req.sql ≡ sql
      → adhoc guard catalog sql ≡ ok source
      → Resolved req source
  adhoc-Resolved req source [] e h = absurd (ground arith)
  adhoc-Resolved req source (c ∷ sql) e h = vetted-Resolved req source (rw e h)

  named-Resolved :
      (req : ReportRequest) (source : Origin) (r text : Str) (w : Bool)
      → catalog r ≡ some text
      → named r w ≡ source
      → Resolved req source
  named-Resolved req (named q v) r text w e h =
      let same : r ≡ q = ground arith in (text, rw (← same) e)
  named-Resolved req (validated q v) r text w e h = absurd (ground arith)

  resolve_source-Resolved :
      (req : ReportRequest) (source : Origin)
      → resolve_source guard catalog req ≡ ok source
      → Resolved req source
  unfolding resolve_source
  resolve_source-Resolved req source h = by_report req.report refl
    where
      by_report : (report : Option Str) → req.report ≡ report → Resolved req source
      by_report none e = adhoc-Resolved req source req.sql refl (ground arith)
      by_report (some []) e = adhoc-Resolved req source req.sql refl (ground arith)
      by_report (some (c ∷ cs)) e = elim (Option-cases (catalog (c ∷ cs))) [
        | inl n ↦ absurd (ground arith)
        | inr (text, n) ↦
            named-Resolved req source (c ∷ cs) text (contains (codes ":window_start") text) n
              (ground arith)
      ]

  -- What is stored for a resolved source is vetted.
  pub stored-IsVetted :
      (req : ReportRequest) (source : Origin) (s : Store)
      → resolve_source guard catalog req ≡ ok source
      → let ((tid, ref), s1) = stored s source req.title in
        IsVetted guard catalog req.sql ref s1.templates
  unfolding save_template
  stored-IsVetted req source s h = by_source source (resolve_source-Resolved req source h)
    where
      by_source :
          (x : Origin)
          → Resolved req x
          → let ((tid, ref), s1) = stored s x req.title in
            IsVetted guard catalog req.sql ref s1.templates
      by_source (named r w) found = inl found
      by_source (validated q w) safe =
          let is_it : Template → Bool = λ t. str_eq t.id (new_id s) && str_eq t.sql q in
          inr (
            q,
            safe,
            any-append is_it s.templates _
                ∙ rw (str_eq_refl (new_id s), str_eq_refl q) (ground arith),
          )
