-- ===== src/Db/Migrate.antt =====
-- fraud_platform/db/migrate.py: which migrations there are, which are pending, and applying them in
-- order. A directory is its file names; the digits of a version are those of ASCII.
pub mod Laws
pub mod Resume
use agentic_fraud_decisionin.Common.{
  lt_str, ℕ, ◌+◌, ◌-◌, ◌*◌, Str, codes, str_eq, starts_with, Bool, true, false, not, ◌&&◌, ◌||◌,
  Option, none, some, List, [], ◌∷◌, ◌++◌, map, any, filter, drop, leb, ◌==◌, if◌then◌else◌,
}
use agentic_fraud_decisionin.Common.Sort.{sort_by}
use agentic_fraud_decisionin.Common.Result.{Result, ok, err, ◌>>=◌}

pub record Migration : Type 0 where
  pub version : ℕ
  pub filename : Str

pub data Error : Type 0 where
  duplicate : ℕ → Str → Error
  -- The statements of a migration, or the row that records it, raised.
  failed : ℕ → Error

abbrev pub is_digit : ℕ → Bool
is_digit c = leb b'0' c && leb c b'9'

-- [A-Za-z0-9_]
abbrev pub is_word : ℕ → Bool
is_word c = is_digit c || leb b'A' c && leb c b'Z' || leb b'a' c && leb c b'z' || c == b'_'

-- `[A-Za-z0-9_]+\.sql$` behind one character of the class; `$` also matches before a last newline.
unfoldable pub is_tail : Str → Bool
is_tail [] = false
is_tail (c ∷ s) =
    if is_word c
    then is_tail s
    else str_eq (c ∷ s) (codes ".sql") || str_eq (c ∷ s) (codes ".sql\n")

abbrev pub is_name : Str → Bool
is_name [] = false
is_name (c ∷ s) = is_word c && is_tail s

-- `(\d+)__...`, with the digits that were read.
unfoldable pub after_digits : ℕ → Str → Option ℕ
after_digits version [] = none
after_digits version (c ∷ s) =
    let more = after_digits (version * 10 + (c - b'0')) s in
    if is_digit c
    then more
    else if starts_with (codes "__") (c ∷ s) && is_name (drop 2 (c ∷ s))
    then some version
    else none

-- `int(m.group(1))`, where the name matches `^V(\d+)__([A-Za-z0-9_]+)\.sql$`.
unfoldable pub version_of : Str → Option ℕ
version_of [] = none
version_of (v ∷ []) = none
version_of (v ∷ d ∷ s) = if v == b'V' && is_digit d then after_digits 0 (d ∷ s) else none

-- `sorted(names)`
unfoldable pub insert_name : Str → List Str → List Str
insert_name n [] = n ∷ []
insert_name n (m ∷ ms) = if lt_str m n then m ∷ insert_name n ms else n ∷ m ∷ ms

unfoldable pub sort_names : List Str → List Str
sort_names [] = []
sort_names (n ∷ ns) = insert_name n (sort_names ns)

abbrev pub mem : ℕ → List ℕ → Bool
mem n ns = any (λ m. n == m) ns

-- One file: passed over, a duplicate, or found.
abbrev pub found :
    Str
    → Option ℕ
    → List ℕ
    → (List ℕ → Result Error (List Migration))
    → Result Error (List Migration)
found name none seen next = next seen
found name (some version) seen next =
    if mem version seen
    then err (duplicate version name)
    else (next (version ∷ seen) >>= λ others.
        ok (record { version = version; filename = name } ∷ others))

unfoldable pub scan : List Str → List ℕ → Result Error (List Migration)
scan [] seen = ok []
scan (name ∷ rest) seen = found name (version_of name) seen (scan rest)

unfoldable pub discover_migrations : List Str → Result Error (List Migration)
discover_migrations names = scan (sort_names names) [] >>= λ ms. ok (sort_by (λ m. m.version) ms)

unfoldable pub pending : List Migration → List ℕ → List Migration
pending all_migrations applied = filter (λ m. not (mem m.version applied)) all_migrations

-- SCHEMA_MIGRATIONS, and the migrations whose statements were run.
pub record Database : Type 0 where
  pub versions : List ℕ
  pub executed : List ℕ

-- What the database does with a migration: `runs` is false where its statements raise, and
-- `records` where the INSERT or its commit does.
pub record Server : Type 0 where
  pub runs : Migration → Bool
  pub records : Migration → Bool

abbrev pub applied_row : Migration → Database → Database
applied_row m db = record {
  versions = db.versions ++ (m.version ∷ []);
  executed = db.executed ++ (m.version ∷ []);
}

abbrev pub then_version : ℕ → Database × Result Error (List ℕ) → Database × Result Error (List ℕ)
then_version n r = (r.0, r.1 >>= λ ns. ok (n ∷ ns))

module _ (server : Server) where
  -- The loop over what is pending; each migration is recorded once its statements have run.
  unfoldable pub apply_each : List Migration → Database → Database × Result Error (List ℕ)
  apply_each [] db = (db, ok [])
  apply_each (m ∷ rest) db =
      let later = then_version m.version (apply_each rest (applied_row m db)) in
      if not (server.runs m)
      then (db, err (failed m.version))
      else if server.records m
      then later
      else (record db { executed = db.executed ++ (m.version ∷ []) }, err (failed m.version))

  abbrev pub apply_found :
      Bool → Result Error (List Migration) → Database → Database × Result Error (List ℕ)
  apply_found dry_run (err e) db = (db, err e)
  apply_found dry_run (ok all_migrations) db =
      if dry_run then (db, ok []) else apply_each (pending all_migrations db.versions) db

  unfoldable pub apply_all : List Str → Bool → Database → Database × Result Error (List ℕ)
  apply_all names dry_run db = apply_found dry_run (discover_migrations names) db
