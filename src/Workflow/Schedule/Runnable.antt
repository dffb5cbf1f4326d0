-- ===== src/Workflow/Schedule/Runnable.antt =====
-- A schedule that passes its validators can be turned into a cron trigger.
use agentic_fraud_decisionin.Common.{
  ℕ, ◌≤◌, ◌≡◌, refl, Str, mem_str, Bool, true, Option, none, some, ◌⊎◌, inl, inr, Option-cases,
  subst, arith,
}
use agentic_fraud_decisionin.Common.Int.{ℤ, pos, negsuc}
use agentic_fraud_decisionin.Common.Result.{ok, >>=-eq-ok}
use agentic_fraud_decisionin.Workflow.Plan.{
  PlannedSchedule, Schedule, Frequency, hourly, daily, weekly,
}
use agentic_fraud_decisionin.Workflow.Schedule.{
  Field, weekdays, check_frequency, check_range, check_hour, weekday_name, check_timezone,
  fields_required_by_frequency, build_schedule, minute, hour,
}

-- The fields that the frequency needs are there.
abbrev pub IsComplete : Schedule → Type 0
IsComplete s =
    (s.frequency ≡ hourly)
    ⊎ ((s.frequency ≡ daily) × ((h : ℕ) × (s.hour ≡ some h)))
    ⊎ ((s.frequency ≡ weekly)
        × ((h : ℕ) × (s.hour ≡ some h))
        × ((d : Str) × (s.day_of_week ≡ some d)))

abbrev pub IsHour : Option ℕ → Type 0
IsHour none = Unit {0}
IsHour (some h) = h ≤ 23

abbrev pub IsWeekday : Option Str → Type 0
IsWeekday none = Unit {0}
IsWeekday (some d) = mem_str d weekdays ≡ true

pub record Runnable (zone_exists : Str → Bool) (s : Schedule) : Type 0 where
  pub minutes : s.minute ≤ 59
  pub hours : IsHour s.hour
  pub weekday : IsWeekday s.day_of_week
  pub zone : zone_exists s.timezone ≡ true
  pub complete : IsComplete s

check_range-le : (f : Field) (bound : ℕ) (z : ℤ) (n : ℕ) → check_range f bound z ≡ ok n → n ≤ bound
unfolding check_range
check_range-le f bound (pos m) n h = ground arith
check_range-le f bound (negsuc m) n h = absurd (ground arith)

check_hour-IsHour : (h : Option ℤ) (r : Option ℕ) → check_hour h ≡ ok r → IsHour r
unfolding check_hour
check_hour-IsHour none none e = tt
check_hour-IsHour none (some x) e = absurd (ground arith)
check_hour-IsHour (some z) none e = tt
check_hour-IsHour (some z) (some x) e =
    let (n, a, b) = >>=-eq-ok (check_range hour 23 z) _ e in
    check_range-le hour 23 z x (ground arith)

weekday_name-IsWeekday : (v : Option Str) (r : Option Str) → weekday_name v ≡ ok r → IsWeekday r
unfolding weekday_name
weekday_name-IsWeekday v none e = tt
weekday_name-IsWeekday none (some d) e = absurd (ground arith)
weekday_name-IsWeekday (some v) (some d) e = ground arith

check_timezone-zone :
    (zone_exists : Str → Bool) (v : Option Str) (z : Str)
    → check_timezone zone_exists v ≡ ok z
    → zone_exists z ≡ true
unfolding check_timezone
check_timezone-zone zone_exists none z e = absurd (ground arith)
check_timezone-zone zone_exists (some v) z e = ground arith

Frequency-cases : (f : Frequency) → (f ≡ hourly) ⊎ (f ≡ daily) ⊎ (f ≡ weekly)
Frequency-cases hourly = inl refl
Frequency-cases daily = inr (inl refl)
Frequency-cases weekly = inr (inr refl)

fields_required-IsComplete :
    (s r : Schedule) → fields_required_by_frequency s ≡ ok r → (s ≡ r) × IsComplete s
unfolding fields_required_by_frequency
fields_required-IsComplete s r e = elim (Frequency-cases s.frequency) [
  | inl f ↦ (ground arith, inl f)
  | inr (inl f) ↦ elim (Option-cases s.hour) [
    | inl n ↦ absurd (ground arith)
    | inr (h, q) ↦ (ground arith, inr (inl (f, (h, q))))
  ]
  | inr (inr f) ↦ elim (Option-cases s.hour) [
    | inl n ↦ absurd (ground arith)
    | inr (h, q) ↦ elim (Option-cases s.day_of_week) [
      | inl n ↦ absurd (ground arith)
      | inr (d, k) ↦ (ground arith, inr (inr (f, (h, q), (d, k))))
    ]
  ]
]

-- A schedule that is built from a proposal has a minute up to 59, an hour up to 23 and a weekday
-- where it has any, a zone that exists, and every field that its frequency needs.
pub build_schedule-Runnable :
    (zone_exists : Str → Bool) (p : PlannedSchedule) (s : Schedule)
    → build_schedule zone_exists p ≡ ok s
    → Runnable zone_exists s
unfolding build_schedule
build_schedule-Runnable zone_exists p s e =
    let (f, _, e1) = >>=-eq-ok (check_frequency p.frequency) _ e in
    let (m, a, e2) = >>=-eq-ok (check_range minute 59 p.minute) _ e1 in
    let (h, b, e3) = >>=-eq-ok (check_hour p.hour) _ e2 in
    let (d, c, e4) = >>=-eq-ok (weekday_name p.day_of_week) _ e3 in
    let (z, g, e5) = >>=-eq-ok (check_timezone zone_exists p.timezone) _ e4 in
    let (same, complete) = fields_required-IsComplete _ s e5 in
    subst (Runnable zone_exists) same (record {
      minutes = check_range-le minute 59 p.minute m a;
      hours = check_hour-IsHour p.hour h b;
      weekday = weekday_name-IsWeekday p.day_of_week d c;
      zone = check_timezone-zone zone_exists p.timezone z g;
      complete = complete;
    })
