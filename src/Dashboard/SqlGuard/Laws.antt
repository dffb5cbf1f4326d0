-- ===== src/Dashboard/SqlGuard/Laws.antt =====
-- What a query that the guard lets through is.
use agentic_fraud_decisionin.Common.{
  ℕ, Str, codes, str_eq, mem_str, upper, ◌≡◌, Bool, true, false, ◌||◌, Option, some, List, [], ◌∷◌,
  any, All, ◌⊎◌,
}
use agentic_fraud_decisionin.Common.Int.{ℤ, pos, leb_ℤ}
use agentic_fraud_decisionin.Common.Words.{is_empty}
use agentic_fraud_decisionin.Dashboard.SqlGuard.{
  Table, Sqlglot, Validator, is_forbidden, pair_eq, collect, apply_row_cap, cte_names,
}

-- A relation of the allowlist, in its database, or a name that the query itself defines.
abbrev pub IsAllowed : Validator → List Str → Table → Type 0
IsAllowed v names t =
    ((is_empty (upper t.db) ≡ true) × (mem_str (upper t.name) names ≡ true))
    ⊎ ((any (pair_eq (upper t.db, upper t.name)) v.allowed ≡ true)
        × (str_eq (upper t.db) (codes "INFORMATION_SCHEMA") ≡ false)
        × ((is_empty (upper t.catalog) || str_eq (upper t.catalog) (codes "FRAUD_DETECTION"))
            ≡ true))

-- What `.limit(n)` and the meaning of a LIMIT promise. `rows s` is the number to which the query `s`
-- limits its rows, and `is_literal s` says that the LIMIT of `s` is a number literal, whose `name`
-- is its text. `.limit(n)` sets the LIMIT to the literal n and leaves the rest of a query alone.
pub record LimitLaws {Statement : Type 0} (sql : Sqlglot Statement) (is_literal : Statement → Bool)
    (rows : Statement → Option ℤ) : Type 0 where
  pub rows_eq : (s : Statement) (n : ℕ) → rows (sql.limit s n) ≡ some (pos n)
  pub literal_eq :
      (s : Statement) (name : Str) (z : ℤ)
      → is_literal s ≡ true
      → sql.limit_name s ≡ some (some name)
      → sql.int_of_text name ≡ some z
      → rows s ≡ some z
  pub is_read_eq : (s : Statement) (n : ℕ) → sql.is_read (sql.limit s n) ≡ sql.is_read s
  pub functions_eq : (s : Statement) (n : ℕ) → sql.functions (sql.limit s n) ≡ sql.functions s
  pub aliases_eq : (s : Statement) (n : ℕ) → sql.aliases (sql.limit s n) ≡ sql.aliases s
  pub tables_eq : (s : Statement) (n : ℕ) → sql.tables (sql.limit s n) ≡ sql.tables s

module _ (v : Validator) {Statement : Type 0} (sql : Sqlglot Statement)
    (is_literal : Statement → Bool) (rows : Statement → Option ℤ) where
  -- A read without a forbidden function, of allowed relations only.
  abbrev pub IsPermitted : Statement → Type 0
  IsPermitted s =
      (sql.is_read s ≡ true)
      × (any is_forbidden (sql.functions s) ≡ false)
      × All (IsAllowed v (cte_names v sql s)) (sql.tables s)

  -- A query limited to a number of rows within the cap.
  abbrev pub IsLimited : Statement → Type 0
  IsLimited s = (z : ℤ) × (rows s ≡ some z) × (leb_ℤ z (pos v.max_rows) ≡ true)

  -- The LIMIT is no literal, and the name of its expression reads as a number within the cap.
  abbrev pub IsMisread : Statement → Type 0
  IsMisread s =
      (is_literal s ≡ false)
      × ((name : Str) × (z : ℤ) × (sql.limit_name s ≡ some (some name))
          × (sql.int_of_text name ≡ some z)
          × (leb_ℤ z (pos v.max_rows) ≡ true))

  -- The query runs with a limit within the cap, or unchanged with a LIMIT that is no literal.
  abbrev pub IsCapped : Statement → Statement → Type 0
  IsCapped query run = IsLimited run ⊎ (IsMisread query × (run ≡ query))

  -- The printed text of one statement that may run: permitted, and capped.
  pub record IsSafe (text : Str) (out : Str) : Type 0 where
    pub query : Statement
    pub run : Statement
    pub statements : List (Option Statement)
    pub parse_eq : sql.parse text ≡ some statements
    pub only_one : collect statements ≡ query ∷ []
    pub run_eq : run ≡ apply_row_cap v sql query
    pub print_eq : sql.print run ≡ out
    pub permitted : IsPermitted run
    pub capped : IsCapped query run
