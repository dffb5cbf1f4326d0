-- ===== src/Common/Map.antt =====
-- Dictionaries with text keys, in insertion order.
use agentic_fraud_decisionin.Common.{
  Str, str_eq, str_eq_iff, str_eq_refl, ◌≡◌, refl, false, Option, none, some, List, [], ◌∷◌, All,
  Bool-cases, inl, inr, if◌then◌else◌,
}

abbrev pub Map {ℓ} : Type ℓ → Type ℓ
Map A = List (Str × A)

module _ {ℓ} {A : Type ℓ} where
  unfoldable pub find : Str → Map A → Option A
  find k [] = none
  find k (e ∷ rest) = if str_eq k e.0 then some e.1 else find k rest

  -- `d[key] = value`
  unfoldable pub set : Str → A → Map A → Map A
  set k v [] = (k, v) ∷ []
  set k v (e ∷ rest) = if str_eq k e.0 then (k, v) ∷ rest else e ∷ set k v rest

module _ {A : Type 0} where
  pub find-set : (k : Str) (v : A) (d : Map A) → find k (set k v d) ≡ some v
  unfolding find set
  find-set k v [] = rw (str_eq_refl k) refl
  find-set k v (e ∷ rest) = elim (Bool-cases (str_eq k e.0)) [
    | inl h ↦ rw (h, str_eq_refl k) refl
    | inr h ↦ rw (h, h) (find-set k v rest)
  ]

  pub find-set_other :
      (k j : Str) (v : A) (d : Map A) → str_eq k j ≡ false → find k (set j v d) ≡ find k d
  unfolding find set
  find-set_other k j v [] n = rw n refl
  find-set_other k j v (e ∷ rest) n = elim (Bool-cases (str_eq j e.0)) [
    | inl h ↦ rw (h, n, ← (str_eq_iff j e.0).0 h, n) refl
    | inr h ↦ rw (h, find-set_other k j v rest n) refl
  ]

  -- Every entry of a dictionary satisfies P.
  pub set-All :
      (P : Str × A → Type 0) (k : Str) (v : A) (d : Map A) → P (k, v) → All P d → All P (set k v d)
  unfolding set
  set-All P k v [] p h = (p, tt)
  set-All P k v (e ∷ rest) p h = elim (Bool-cases (str_eq k e.0)) [
    | inl q ↦ rw q (p, h.1)
    | inr q ↦ rw q (h.0, set-All P k v rest p h.1)
  ]
