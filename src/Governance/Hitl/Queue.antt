-- ===== src/Governance/Hitl/Queue.antt =====
-- The review queue: which decisions it offers, and in which order.
use mathlib.Core.List.{Perm}
use agentic_fraud_decisionin.Common.Sort.{IsOrdered, sort_by-perm, sort_by-IsOrdered}
use agentic_fraud_decisionin.Common.{
  ℕ, zero, suc, ◌≤◌, ◌<◌, ◌≡◌, refl, [], ◌∷◌, ◌++◌, map, filter, take, drop, length, arith,
}
use agentic_fraud_decisionin.Governance.Hitl.{
  Table, is_pending, order_by_age, to_item, pending_reviews,
}

-- Oldest first.
abbrev pub IsAged : Table → Type 0
IsAged = IsOrdered (λ r. r.decided_at)

take-append-drop : (n : ℕ) (t : Table) → take n t ++ drop n t ≡ t
take-append-drop zero t = refl
take-append-drop (suc n) [] = refl
take-append-drop (suc n) (x ∷ xs) = rw (take-append-drop n xs)

length-take-le : (n : ℕ) (t : Table) → length (take n t) ≤ n
length-take-le zero t = omega arith
length-take-le (suc n) [] = omega arith
length-take-le (suc n) (x ∷ xs) = omega (arith, length-take-le n xs)

drop_of_short : (n : ℕ) (t : Table) → length (take n t) < n → drop n t ≡ []
drop_of_short zero t h = absurd (omega arith)
drop_of_short (suc n) [] h = refl
drop_of_short (suc n) (x ∷ xs) h = drop_of_short n xs (omega arith)

-- What the reviewer is shown: the front `shown` of a list `shown ++ waiting`.
pub record Queued (t : Table) (limit : ℕ) (shown waiting : Table) : Type 0 where
  pub complete : Perm (shown ++ waiting) (filter is_pending t)
  pub ordered : IsAged (shown ++ waiting)
  pub bounded : length shown ≤ limit
  pub full : length shown < limit → waiting ≡ []

-- The queue shows at most `limit` decisions, the oldest of exactly those that are held as SUGGEST
-- and not reviewed, oldest first; none waits behind a queue that is not full.
pub pending_reviews_lem :
    (t : Table) (limit : ℕ)
    → (shown : Table) × (waiting : Table) × (pending_reviews t limit ≡ map to_item shown)
      × Queued t limit shown waiting
unfolding pending_reviews
pending_reviews_lem t limit =
    let q = order_by_age (filter is_pending t) in
    let e = take-append-drop limit q in
    (
      take limit q,
      drop limit q,
      refl,
      record {
        complete = rw e (sort_by-perm (λ r. r.decided_at) (filter is_pending t));
        ordered = rw e (sort_by-IsOrdered (λ r. r.decided_at) (filter is_pending t));
        bounded = length-take-le limit q;
        full = drop_of_short limit q;
      },
    )
