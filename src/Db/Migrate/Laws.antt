-- ===== src/Db/Migrate/Laws.antt =====
-- A run applies a prefix of what is pending, in order, and leaves exactly the rest pending.
use agentic_fraud_decisionin.Common.{
  ℕ, Str, ◌≡◌, subst, false, Option, none, some, List, [], ◌∷◌, All, Bool-cases, leb, ◌==◌, inl,
  inr, arith,
}
use agentic_fraud_decisionin.Common.Sort.{insert_by, sort_by, IsOrdered, sort_by-IsOrdered}
use agentic_fraud_decisionin.Common.Result.{Result, ok, err, ◌>>=◌, >>=-eq-ok}
use agentic_fraud_decisionin.Db.Migrate.{
  Migration, Error, mem, found, version_of, scan, sort_names, discover_migrations,
}

-- No version stands twice.
abbrev pub IsDistinct : List Migration → Type 0
IsDistinct [] = Unit {0}
IsDistinct (m ∷ ms) = All (λ x. (m.version == x.version) ≡ false) ms × IsDistinct ms

-- None of the versions was seen before.
abbrev IsUnseen : List ℕ → List Migration → Type 0
IsUnseen seen ms = All (λ m. mem m.version seen ≡ false) ms

IsUnseen-cons :
    (n : ℕ) (seen : List ℕ) (ms : List Migration)
    → IsUnseen (n ∷ seen) ms
    → IsUnseen seen ms × All (λ x. (n == x.version) ≡ false) ms
IsUnseen-cons n seen [] h = (tt, tt)
IsUnseen-cons n seen (m ∷ ms) h =
    let (unseen, differ) = IsUnseen-cons n seen ms h.1 in
    ((ground (arith, h.0), unseen), (ground (arith, h.0), differ))

-- What a scan finds is distinct and was not seen before.
abbrev IsFound : List ℕ → Result Error (List Migration) → Type 0
IsFound seen (err e) = Unit {0}
IsFound seen (ok ms) = IsDistinct ms × IsUnseen seen ms

IsFound-cons :
    (v : ℕ) (name : Str) (seen : List ℕ) (r : Result Error (List Migration))
    → mem v seen ≡ false
    → IsFound (v ∷ seen) r
    → IsFound seen (r >>= λ others. ok (record { version = v; filename = name } ∷ others))
IsFound-cons v name seen (err e) n h = tt
IsFound-cons v name seen (ok ms) n h =
    let (unseen, differ) = IsUnseen-cons v seen ms h.1 in ((differ, h.0), (n, unseen))

found-IsFound :
    (name : Str) (o : Option ℕ) (seen : List ℕ) (next : List ℕ → Result Error (List Migration))
    → ((s : List ℕ) → IsFound s (next s))
    → IsFound seen (found name o seen next)
found-IsFound name none seen next h = h seen
found-IsFound name (some v) seen next h = elim (Bool-cases (mem v seen)) [
  | inl q ↦ rw q tt
  | inr q ↦ rw q (IsFound-cons v name seen (next (v ∷ seen)) q (h (v ∷ seen)))
]

scan-IsFound : (names : List Str) (seen : List ℕ) → IsFound seen (scan names seen)
unfolding scan
scan-IsFound [] seen = (tt, tt)
scan-IsFound (name ∷ rest) seen =
    found-IsFound name (version_of name) seen (scan rest) (λ s. scan-IsFound rest s)

abbrev pub version_key : Migration → ℕ
version_key m = m.version

insert_by-differ :
    (n : ℕ) (m : Migration) (ms : List Migration)
    → (n == m.version) ≡ false
    → All (λ x. (n == x.version) ≡ false) ms
    → All (λ x. (n == x.version) ≡ false) (insert_by version_key m ms)
unfolding insert_by
insert_by-differ n m [] d h = (d, tt)
insert_by-differ n m (x ∷ ms) d h = elim (Bool-cases (leb m.version x.version)) [
  | inl e ↦ rw e (d, h)
  | inr e ↦ rw e (h.0, insert_by-differ n m ms d h.1)
]

insert_by-IsDistinct :
    (m : Migration) (ms : List Migration)
    → All (λ x. (m.version == x.version) ≡ false) ms
    → IsDistinct ms
    → IsDistinct (insert_by version_key m ms)
unfolding insert_by
insert_by-IsDistinct m [] d h = (tt, tt)
insert_by-IsDistinct m (x ∷ ms) d h = elim (Bool-cases (leb m.version x.version)) [
  | inl e ↦ rw e (d, h)
  | inr e ↦
      rw e (
        insert_by-differ x.version m ms (ground (arith, d.0)) h.0,
        insert_by-IsDistinct m ms d.1 h.1,
      )
]

sort_by-differ :
    (n : ℕ) (ms : List Migration)
    → All (λ x. (n == x.version) ≡ false) ms
    → All (λ x. (n == x.version) ≡ false) (sort_by version_key ms)
unfolding sort_by
sort_by-differ n [] h = tt
sort_by-differ n (m ∷ ms) h =
    insert_by-differ n m (sort_by version_key ms) h.0 (sort_by-differ n ms h.1)

sort_by-IsDistinct : (ms : List Migration) → IsDistinct ms → IsDistinct (sort_by version_key ms)
unfolding sort_by
sort_by-IsDistinct [] h = tt
sort_by-IsDistinct (m ∷ ms) h =
    insert_by-IsDistinct m (sort_by version_key ms) (sort_by-differ m.version ms h.0)
      (sort_by-IsDistinct ms h.1)

-- The migrations of a directory are distinct and in ascending order.
pub discover_migrations-IsDistinct :
    (names : List Str) {ms : List Migration}
    → discover_migrations names ≡ ok ms
    → IsDistinct ms × IsOrdered version_key ms
unfolding discover_migrations
discover_migrations-IsDistinct names {ms} h =
    let (unsorted, scanned, sorted) = >>=-eq-ok (scan (sort_names names) []) _ h in
    let good : IsFound [] (ok unsorted) =
      subst (IsFound []) scanned (scan-IsFound (sort_names names) []) in
    let same : sort_by version_key unsorted ≡ ms = cc in
    subst (λ xs. IsDistinct xs × IsOrdered version_key xs) same
      (sort_by-IsDistinct unsorted good.0, sort_by-IsOrdered version_key unsorted)
