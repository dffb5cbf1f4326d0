-- ===== src/Common/Sort.antt =====
-- The stable sort by a numeric key: Python's sorted(key=...) and SQL's ORDER BY.
use mathlib.Core.List.{Perm}
use mathlib.Core.List.Perm
use agentic_fraud_decisionin.Common.{
  ℕ, ◌≤◌, List, [], ◌∷◌, leb, All, inl, inr, Bool-cases, arith, if◌then◌else◌,
}

module _ {A : Type 0} (key : A → ℕ) where
  unfoldable pub insert_by : A → List A → List A
  insert_by a [] = a ∷ []
  insert_by a (x ∷ xs) = if leb (key a) (key x) then a ∷ x ∷ xs else x ∷ insert_by a xs

  unfoldable pub sort_by : List A → List A
  unfolding insert_by
  sort_by [] = []
  sort_by (x ∷ xs) = insert_by x (sort_by xs)

  -- Smallest key first.
  abbrev pub IsOrdered : List A → Type 0
  IsOrdered [] = Unit {0}
  IsOrdered (a ∷ xs) = All (λ x. key a ≤ key x) xs × IsOrdered xs

  insert_by-perm : (a : A) (xs : List A) → Perm (insert_by a xs) (a ∷ xs)
  unfolding insert_by
  insert_by-perm a [] = Perm.refl (a ∷ [])
  insert_by-perm a (x ∷ xs) = elim (Bool-cases (leb (key a) (key x))) [
    | inl e ↦ rw (e, insert_by) (Perm.refl (a ∷ x ∷ xs))
    | inr e ↦ rw (e, insert_by) (Perm.trans (Perm.cons x (insert_by-perm a xs)) (Perm.swap a x xs))
  ]

  pub sort_by-perm : (xs : List A) → Perm (sort_by xs) xs
  unfolding sort_by
  sort_by-perm [] = Perm.refl []
  sort_by-perm (x ∷ xs) = Perm.trans (insert_by-perm x (sort_by xs)) (Perm.cons x (sort_by-perm xs))

  insert_by-All : (P : A → Type 0) (a : A) (xs : List A) → P a → All P xs → All P (insert_by a xs)
  unfolding insert_by
  insert_by-All P a [] p h = (p, tt)
  insert_by-All P a (x ∷ xs) p h = elim (Bool-cases (leb (key a) (key x))) [
    | inl e ↦ rw (e, insert_by) (p, (h.0, h.1))
    | inr e ↦ rw (e, insert_by) (h.0, insert_by-All P a xs p h.1)
  ]

  above : (n m : ℕ) (xs : List A) → n ≤ m → All (λ x. m ≤ key x) xs → All (λ x. n ≤ key x) xs
  above n m [] l h = tt
  above n m (x ∷ xs) l h = (omega arith, above n m xs l h.1)

  insert_by-IsOrdered : (a : A) (xs : List A) → IsOrdered xs → IsOrdered (insert_by a xs)
  unfolding insert_by
  insert_by-IsOrdered a [] h = (tt, tt)
  insert_by-IsOrdered a (x ∷ xs) h = elim (Bool-cases (leb (key a) (key x))) [
    | inl e ↦ rw (e, insert_by) ((ground arith, above (key a) (key x) xs (ground arith) h.0), h)
    | inr e ↦
        rw (e, insert_by)
          (insert_by-All (λ y. key x ≤ key y) a xs (ground arith) h.0, insert_by-IsOrdered a xs h.1)
  ]

  pub sort_by-IsOrdered : (xs : List A) → IsOrdered (sort_by xs)
  unfolding sort_by
  sort_by-IsOrdered [] = tt
  sort_by-IsOrdered (x ∷ xs) = insert_by-IsOrdered x (sort_by xs) (sort_by-IsOrdered xs)
