-- ===== src/Db/Migrate/Resume.antt =====
-- A run of the migrations applies a prefix of what is pending, in order, and leaves the rest pending.
use mathlib.Core.List.{append_assoc, append-nil}
use agentic_fraud_decisionin.Common.{
  ℕ, ◌≤◌, Str, ◌≡◌, refl, sym, ap, subst, ◌∙◌, Bool, true, false, List, [], ◌∷◌, ◌++◌, map,
  any-append, filter, All, Bool-cases, ◌==◌, ◌⊎◌, inl, inr, arith,
}
use agentic_fraud_decisionin.Common.Sort.{IsOrdered}
use agentic_fraud_decisionin.Common.Result.{Result, ok, err}
use agentic_fraud_decisionin.Db.Migrate.{
  Migration, Error, mem, discover_migrations, pending, Database, Server, applied_row, then_version,
  failed, apply_each, apply_all,
}
use agentic_fraud_decisionin.Db.Migrate.Laws.{
  IsDistinct, version_key, discover_migrations-IsDistinct,
}

filter-All :
    {A : Type 0} (P : A → Type 0) (p : A → Bool) (xs : List A) → All P xs → All P (filter p xs)
filter-All P p [] h = tt
filter-All P p (x ∷ xs) h = elim (Bool-cases (p x)) [
  | inl e ↦ rw e (h.0, filter-All P p xs h.1)
  | inr e ↦ rw e (filter-All P p xs h.1)
]

filter-IsDistinct :
    (p : Migration → Bool) (ms : List Migration) → IsDistinct ms → IsDistinct (filter p ms)
filter-IsDistinct p [] h = tt
filter-IsDistinct p (m ∷ ms) h = elim (Bool-cases (p m)) [
  | inl e ↦
      rw e (filter-All (λ x. (m.version == x.version) ≡ false) p ms h.0, filter-IsDistinct p ms h.1)
  | inr e ↦ rw e (filter-IsDistinct p ms h.1)
]

filter-IsOrdered :
    (p : Migration → Bool) (ms : List Migration)
    → IsOrdered version_key ms
    → IsOrdered version_key (filter p ms)
filter-IsOrdered p [] h = tt
filter-IsOrdered p (m ∷ ms) h = elim (Bool-cases (p m)) [
  | inl e ↦ rw e (filter-All (λ x. m.version ≤ x.version) p ms h.0, filter-IsOrdered p ms h.1)
  | inr e ↦ rw e (filter-IsOrdered p ms h.1)
]

pending-append :
    (ms : List Migration) (vs ws : List ℕ) → pending ms (vs ++ ws) ≡ pending (pending ms vs) ws
unfolding pending
pending-append [] vs ws = refl
pending-append (m ∷ ms) vs ws = elim (Bool-cases (mem m.version vs)) [
  | inl e ↦ rw (any-append (λ n. m.version == n) vs ws, e) (pending-append ms vs ws)
  | inr e ↦ elim (Bool-cases (mem m.version ws)) [
    | inl q ↦ rw (any-append (λ n. m.version == n) vs ws, e, q) (pending-append ms vs ws)
    | inr q ↦
        rw (any-append (λ n. m.version == n) vs ws, e, q)
          (ap (λ xs. m ∷ xs) (pending-append ms vs ws))
  ]
]

-- A version that none of the migrations has makes no difference.
pending-cons :
    (n : ℕ) (vs : List ℕ) (ms : List Migration)
    → All (λ x. (n == x.version) ≡ false) ms
    → pending ms (n ∷ vs) ≡ pending ms vs
unfolding pending
pending-cons n vs [] h = refl
pending-cons n vs (m ∷ ms) h =
    let differ : (m.version == n) ≡ false = ground (arith, h.0) in
    rw (differ, pending-cons n vs ms h.1) refl

pending-nil : (ms : List Migration) → pending ms [] ≡ ms
unfolding pending
pending-nil [] = refl
pending-nil (m ∷ ms) = ap (λ xs. m ∷ xs) (pending-nil ms)

pending-done :
    (done rest : List Migration)
    → IsDistinct (done ++ rest)
    → pending (done ++ rest) (map (λ m. m.version) done) ≡ rest
unfolding pending
pending-done [] rest h = pending-nil rest
pending-done (d ∷ ds) rest h =
    let own : (d.version == d.version) ≡ true = ground arith in
    rw own
      (pending-cons d.version (map (λ m. m.version) ds) (ds ++ rest) h.0 ∙ pending-done ds rest h.1)

-- What the loop does to a list of migrations: some of them, from the first on, are recorded.
pub record IsApplied (todo : List Migration) (db : Database) (r : Database × Result Error (List ℕ))
    : Type 0 where
  pub done : List Migration
  pub rest : List Migration
  pub todo_eq : todo ≡ done ++ rest
  pub recorded_eq : r.0.versions ≡ db.versions ++ map (λ m. m.version) done
  pub result :
      ((rest ≡ []) × (r.1 ≡ ok (map (λ m. m.version) done)))
      ⊎ ((m : Migration) × (later : List Migration) × (rest ≡ m ∷ later)
          × (r.1 ≡ err (failed m.version)))

module _ (server : Server) where
  apply_each-stopped :
      (m : Migration) (ms : List Migration) (db after : Database)
      → after.versions ≡ db.versions
      → IsApplied (m ∷ ms) db (after, err (failed m.version))
  apply_each-stopped m ms db after e = record {
    done = [];
    rest = m ∷ ms;
    todo_eq = refl;
    recorded_eq = e ∙ sym (append-nil db.versions);
    result = inr (m, ms, refl, refl);
  }

  apply_each-more :
      (m : Migration) (ms : List Migration) (db : Database) (r : Database × Result Error (List ℕ))
      → IsApplied ms (applied_row m db) r
      → IsApplied (m ∷ ms) db (then_version m.version r)
  apply_each-more m ms db r h = record {
    done = m ∷ h.done;
    rest = h.rest;
    todo_eq = ap (λ xs. m ∷ xs) h.todo_eq;
    recorded_eq =
        h.recorded_eq ∙ append_assoc db.versions (m.version ∷ []) (map (λ x. x.version) h.done);
    result = elim h.result [
      | inl q ↦ inl (q.0, rw q.1 refl)
      | inr (x, later, rest_eq, failure) ↦ inr (x, later, rest_eq, rw failure refl)
    ];
  }

  apply_each-IsApplied :
      (ms : List Migration) (db : Database) → IsApplied ms db (apply_each server ms db)
  unfolding apply_each
  apply_each-IsApplied [] db = record {
    done = [];
    rest = [];
    todo_eq = refl;
    recorded_eq = sym (append-nil db.versions);
    result = inl (refl, refl);
  }
  apply_each-IsApplied (m ∷ ms) db = elim (Bool-cases (server.runs m)) [
    | inr e ↦ rw e (apply_each-stopped m ms db db refl)
    | inl e ↦ elim (Bool-cases (server.records m)) [
      | inr q ↦ rw (e, q) (apply_each-stopped m ms db _ refl)
      | inl q ↦ rw (e, q) (apply_each-more m ms db _ (apply_each-IsApplied ms (applied_row m db)))
    ]
  ]

  -- A run, and what it leaves.
  pub record IsResumable (ms : List Migration) (db : Database)
      (r : Database × Result Error (List ℕ)) : Type 0 where
    pub applied : IsApplied (pending ms db.versions) db r
    pub ascending : IsOrdered version_key (pending ms db.versions)
    pub left : pending ms r.0.versions ≡ applied.rest

  -- A run that is not dry, over a directory without a duplicate version, records the versions of
  -- the pending migrations in ascending order, from the first on, up to one whose statements or
  -- record raised, if there is one. Returning, it gives the versions that it recorded, all that were
  -- pending. Either way the migrations that it did not record are exactly those that are pending
  -- afterwards; so a run after one that returned applies nothing.
  pub apply_all-IsResumable :
      (names : List Str) (db : Database) {ms : List Migration}
      → discover_migrations names ≡ ok ms
      → IsResumable ms db (apply_all server names false db)
  unfolding apply_all
  apply_all-IsResumable names db {ms} h =
      let (distinct, ordered) = discover_migrations-IsDistinct names h in
      let todo = pending ms db.versions in
      let applied = apply_each-IsApplied todo db in
      let split : IsDistinct (applied.done ++ applied.rest) =
        subst IsDistinct applied.todo_eq (unfold pending in filter-IsDistinct _ ms distinct) in
      rw h (record {
        applied = applied;
        ascending = unfold pending in filter-IsOrdered _ ms ordered;
        left = rw applied.recorded_eq (
            pending-append ms db.versions (map (λ m. m.version) applied.done)
            ∙ ap (λ xs. pending xs (map (λ m. m.version) applied.done)) applied.todo_eq
            ∙ pending-done applied.done applied.rest split);
      })
