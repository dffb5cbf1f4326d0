-- ===== src/Dashboard/Tests.antt =====
-- The guard with a stand-in for the parser: two texts, one statement type.
use Prim.Native.String.{String}
use agentic_fraud_decisionin.Common.{
  ℕ, zero, suc, Str, codes, str_eq, length, is_some, Bool, upper, starts_with, ◌≡◌, refl, true,
  Option, none, some, List, [], ◌∷◌, if◌then◌else◌,
}
use agentic_fraud_decisionin.Common.Int.{ℤ, pos}
use agentic_fraud_decisionin.Common.Result.{ok, err}
use agentic_fraud_decisionin.Common.Words.{is_space, strip, lstrip, rstrip}
use agentic_fraud_decisionin.Dashboard.SqlGuard.{
  Table, Sqlglot, Validator, not_one_statement, not_allowed, split_dot, allowlist, init,
  check_table, check_tables, apply_row_cap, vet, validate,
}

-- A query that reads one table, with its LIMIT.
pub record Query : Type 0 where
  pub table : Table
  pub limit : Option Str

abbrev from : String → String → Query
from schema name = record {
  table = record { name = codes name; db = codes schema; catalog = [] };
  limit = none;
}

abbrev statements_of : Str → List (Option Query)
statements_of text =
    if str_eq text (codes "decisions")
    then some (from "decisions" "fact_decisions") ∷ none ∷ []
    else if str_eq text (codes "raw")
    then some (from "raw" "fact_transactions") ∷ []
    else some (from "a" "b") ∷ some (from "a" "b") ∷ []

-- A number as that many strokes.
abbrev strokes : ℕ → Str
strokes zero = []
strokes (suc n) = b'I' ∷ strokes n

abbrev rows : Query → Option ℤ
rows q = elim q.limit [ none ↦ none | some name ↦ some (pos (length name)) ]

abbrev name_of : Option Str → Option (Option Str)
name_of none = none
name_of (some name) = some (some name)

abbrev has_limit : Query → Bool
has_limit q = is_some q.limit

abbrev parser : Sqlglot Query
parser = record {
  parse = λ text. some (statements_of text);
  is_read = λ q. true;
  functions = λ q. [];
  aliases = λ q. [];
  tables = λ q. q.table ∷ [];
  limit_name = λ q. name_of q.limit;
  int_of_text = λ name. some (pos (length name));
  limit = λ q n. record q { limit = some (strokes n) };
  print = λ q. q.table.name;
}

abbrev guard : Validator
guard = record {
  allowed =
      (codes "DECISIONS", codes "FACT_DECISIONS")
      ∷ (codes "FEATURES", codes "FACT_FEATURE_SNAPSHOTS")
      ∷ [];
  max_rows = 200;
}

init-guard :
    init (codes "DECISIONS.FACT_DECISIONS" ∷ codes "FEATURES.FACT_FEATURE_SNAPSHOTS" ∷ []) 200
    ≡ ok guard
unfolding init allowlist split_dot upper
init-guard = refl

foreign : validate guard parser (codes "raw") ≡ err not_allowed
unfolding validate vet check_tables check_table apply_row_cap strip lstrip rstrip is_space str_eq
    upper starts_with
foreign = refl

stacked : validate guard parser (codes "a; b") ≡ err not_one_statement
unfolding validate strip lstrip rstrip is_space str_eq
stacked = refl
