-- ===== src/Dashboard/SqlGuard.antt =====
-- SQLValidator of fraud_platform/bi_dashboard/sql_guard.py. The parser, its syntax trees and their
-- printer are another project's; what the validator calls of them are the operations of `Sqlglot`.
pub mod Laws
use agentic_fraud_decisionin.Common.{
  ℕ, Str, codes, str_eq, mem_str, upper, starts_with, Bool, true, false, not, ◌&&◌, ◌||◌, Option,
  none, some, List, [], ◌∷◌, map, any, filter, is_some, ◌==◌, if◌then◌else◌,
}
use agentic_fraud_decisionin.Common.Int.{ℤ, pos, leb_ℤ}
use agentic_fraud_decisionin.Common.Result.{Result, ok, err, ◌>>=◌, ◌>>◌, require}
use agentic_fraud_decisionin.Common.Words.{strip, is_empty}

-- A table node: its `name`, `db` and `catalog`, empty when missing.
pub record Table : Type 0 where
  pub name : Str
  pub db : Str
  pub catalog : Str

-- A function node: its `name`, and `sql_name()`, empty when it has none.
pub record Function : Type 0 where
  pub name : Str
  pub sql_name : Str

-- `functions`, `aliases` and `tables` are what find_all gives of the whole tree. `limit_name` is none
-- without a LIMIT, some none where its node has no expression, and else the `name` of that
-- expression. `int_of_text` is int(text), none where it raises.
pub record Sqlglot (Statement : Type 0) : Type 0 where
  pub parse : Str → Option (List (Option Statement))
  pub is_read : Statement → Bool
  pub functions : Statement → List Function
  pub aliases : Statement → List Str
  pub tables : Statement → List Table
  pub limit_name : Statement → Option (Option Str)
  pub int_of_text : Str → Option ℤ
  pub limit : Statement → ℕ → Statement
  pub print : Statement → Str

-- Why a query is refused, or why an allowlist is.
pub data Rejected : Type 0 where
  no_sql unparsable not_one_statement not_a_read forbidden_function no_relation unqualified
        information_schema wrong_database not_allowed :
      Rejected

-- `text.split(".")`
abbrev pub add_part : ℕ → List Str → List Str
add_part c [] = []
add_part c (p ∷ ps) = if c == b'.' then [] ∷ p ∷ ps else (c ∷ p) ∷ ps

unfoldable pub split_dot : Str → List Str
split_dot [] = [] ∷ []
split_dot (c ∷ s) = add_part c (split_dot s)

pub record Validator : Type 0 where
  pub allowed : List (Str × Str)
  pub max_rows : ℕ

abbrev pub pair_of : Str → List Str → Result Str (Str × Str)
pair_of entry (schema ∷ name ∷ []) = ok (schema, name)
pair_of entry _ = err entry

-- The allowlist in upper case; a ValueError names the entry that is not SCHEMA.TABLE.
unfoldable pub allowlist : List Str → Result Str (List (Str × Str))
allowlist [] = ok []
allowlist (t ∷ rest) =
    pair_of t (split_dot (upper t)) >>= λ pair. allowlist rest >>= λ others. ok (pair ∷ others)

unfoldable pub init : List Str → ℕ → Result Str Validator
init allowed_tables max_rows =
    allowlist allowed_tables >>= λ pairs. ok (record { allowed = pairs; max_rows = max_rows })

abbrev pub first_nonempty : Str → Str → Str
first_nonempty [] t = t
first_nonempty (c ∷ s) t = c ∷ s

abbrev pub function_name : Function → Str
function_name f = upper (first_nonempty f.name f.sql_name)

-- _FORBIDDEN_FUNCTIONS
abbrev pub is_forbidden : Function → Bool
is_forbidden f = mem_str (function_name f) (codes "IDENTIFIER" ∷ codes "TABLE" ∷ [])

abbrev pub pair_eq : Str × Str → Str × Str → Bool
pair_eq p q = str_eq p.0 q.0 && str_eq p.1 q.1

abbrev pub collect {ℓ} : {A : Type ℓ} → List (Option A) → List A
collect [] = []
collect (none ∷ rest) = collect rest
collect (some a ∷ rest) = a ∷ collect rest

module _ (v : Validator) where
  -- The checks of a relation that names a schema.
  abbrev pub check_qualified : Str → Str → Str → Result Rejected (Unit {0})
  check_qualified name schema catalog =
      if str_eq schema (codes "INFORMATION_SCHEMA")
      then err information_schema
      else if not (is_empty catalog) && not (str_eq catalog (codes "FRAUD_DETECTION"))
      then err wrong_database
      else if any (pair_eq (schema, name)) v.allowed
      then ok tt
      else err not_allowed

  unfoldable pub check_table : List Str → Table → Result Rejected (Unit {0})
  check_table cte_names table =
      let name = upper table.name in
      let schema = upper table.db in
      if is_empty name || starts_with (codes "@") name
      then err no_relation
      else if is_empty schema && mem_str name cte_names
      then ok tt
      else if is_empty schema
      then err unqualified
      else check_qualified name schema (upper table.catalog)

  unfoldable pub check_tables : List Str → List Table → Result Rejected (Unit {0})
  check_tables cte_names [] = ok tt
  check_tables cte_names (t ∷ rest) = check_table cte_names t >> check_tables cte_names rest

  module _ {Statement : Type 0} (sql : Sqlglot Statement) where
    -- current = int(existing.expression.name), or None
    abbrev pub current : Option (Option Str) → Option ℤ
    current (some (some name)) = sql.int_of_text name
    current _ = none

    -- The name of the query's own LIMIT reads as a number within the cap.
    abbrev pub within_cap : Option ℤ → Bool
    within_cap none = false
    within_cap (some n) = leb_ℤ n (pos v.max_rows)

    unfoldable pub apply_row_cap : Statement → Statement
    apply_row_cap stmt =
        if within_cap (current (sql.limit_name stmt)) then stmt else sql.limit stmt v.max_rows

    abbrev pub cte_names : Statement → List Str
    cte_names stmt = map upper (filter (λ a. not (is_empty a)) (sql.aliases stmt))

    abbrev pub the_statement : List Statement → Result Rejected Statement
    the_statement (stmt ∷ []) = ok stmt
    the_statement _ = err not_one_statement

    abbrev pub parsed : Option (List (Option Statement)) → Result Rejected (List Statement)
    parsed none = err unparsable
    parsed (some statements) = ok (collect statements)

    -- The checks of the only statement, and the capped statement.
    unfoldable pub vet : Statement → Result Rejected Statement
    vet stmt =
        require (sql.is_read stmt) not_a_read
        >> (require (not (any is_forbidden (sql.functions stmt))) forbidden_function
            >> (check_tables (cte_names stmt) (sql.tables stmt) >> ok (apply_row_cap stmt)))

    unfoldable pub validate : Str → Result Rejected Str
    validate text =
        require (not (is_empty (strip text))) no_sql
        >> (parsed (sql.parse text) >>= λ statements.
            the_statement statements >>= λ stmt. vet stmt >>= λ capped. ok (sql.print capped))
