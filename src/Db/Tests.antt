-- ===== src/Db/Tests.antt =====
-- The migrations of a small directory.
use agentic_fraud_decisionin.Common.{
  Str, codes, str_eq, starts_with, lt_str, ◌≡◌, refl, true, false, List, [], ◌∷◌,
}
use agentic_fraud_decisionin.Common.Sort.{sort_by, insert_by}
use agentic_fraud_decisionin.Common.Result.{ok, err}
use agentic_fraud_decisionin.Db.Migrate.{
  Migration, Server, Database, duplicate, failed, version_of, after_digits, is_tail, sort_names,
  insert_name, scan, discover_migrations, pending, apply_each, apply_all,
}
use agentic_fraud_decisionin.Db.Migrate.Resume.{IsResumable, apply_all-IsResumable}

abbrev directory : List Str
directory = codes "V010__grants.sql" ∷ codes "README.md" ∷ codes "V002__stage.sql" ∷ []

abbrev migrations : List Migration
migrations =
    record { version = 2; filename = codes "V002__stage.sql" }
    ∷ record { version = 10; filename = codes "V010__grants.sql" }
    ∷ []

directory_found : discover_migrations directory ≡ ok migrations
unfolding discover_migrations sort_names insert_name lt_str scan version_of after_digits is_tail
    str_eq starts_with sort_by insert_by
directory_found = refl

claimed_twice :
    discover_migrations (codes "V2__b.sql" ∷ codes "V002__a.sql" ∷ [])
    ≡ err (duplicate 2 (codes "V2__b.sql"))
unfolding discover_migrations sort_names insert_name lt_str scan version_of after_digits is_tail
    str_eq starts_with sort_by insert_by
claimed_twice = refl

-- The second migration raises.
abbrev server : Server
server = record { runs = λ m. str_eq m.filename (codes "V002__stage.sql"); records = λ m. true }

abbrev fresh : Database
fresh = record { versions = []; executed = [] }

half_applied :
    apply_all server directory false fresh
    ≡ (record { versions = 2 ∷ []; executed = 2 ∷ [] }, err (failed 10))
unfolding apply_all apply_each pending discover_migrations sort_names insert_name lt_str scan
    version_of after_digits is_tail str_eq starts_with sort_by insert_by
half_applied = refl

apply_all-IsResumable_example :
    IsResumable server migrations fresh (apply_all server directory false fresh)
apply_all-IsResumable_example = apply_all-IsResumable server directory fresh directory_found
