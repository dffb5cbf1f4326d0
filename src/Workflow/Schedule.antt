-- ===== src/Workflow/Schedule.antt =====
-- fraud_platform/workflow_engine/schedule.py: the validators of a schedule, its cron fields and its
-- 12-hour clock. Whether the zone database has a name is a parameter.
pub mod Runnable
use agentic_fraud_decisionin.Common.{
  ℕ, ◌%◌, Str, codes, str_eq, mem_str, lower, Bool, not, Option, none, some, List, [], ◌∷◌, all,
  take, leb, ltb, ◌==◌, if◌then◌else◌,
}
use agentic_fraud_decisionin.Common.Int.{ℤ, pos, negsuc}
use agentic_fraud_decisionin.Common.Result.{Result, ok, err, ◌>>=◌}
use agentic_fraud_decisionin.Workflow.Conditions.{is_space, skip_space, strip_right}
use agentic_fraud_decisionin.Workflow.Plan.{
  PlannedSchedule, Schedule, Frequency, hourly, daily, weekly,
}

pub data Field : Type 0 where
  frequency minute hour day_of_week timezone model : Field

abbrev pub Checked {ℓ} : Type ℓ → Type ℓ
Checked A = Result Field A

unfoldable pub weekdays : List Str
weekdays =
    codes "mon"
    ∷ codes "tue"
    ∷ codes "wed"
    ∷ codes "thu"
    ∷ codes "fri"
    ∷ codes "sat"
    ∷ codes "sun"
    ∷ []

unfoldable pub check_frequency : Option Str → Checked Frequency
check_frequency none = err frequency
check_frequency (some s) =
    if str_eq s (codes "hourly")
    then ok hourly
    else if str_eq s (codes "daily")
    then ok daily
    else if str_eq s (codes "weekly")
    then ok weekly
    else err frequency

-- ge=0, le=bound
unfoldable pub check_range : Field → ℕ → ℤ → Checked ℕ
check_range f bound (pos n) = if leb n bound then ok n else err f
check_range f bound (negsuc n) = err f

unfoldable pub check_hour : Option ℤ → Checked (Option ℕ)
unfolding check_range
check_hour none = ok none
check_hour (some h) = check_range hour 23 h >>= λ n. ok (some n)

-- v.strip().lower()[:3]
unfoldable pub weekday_name : Option Str → Checked (Option Str)
weekday_name none = ok none
weekday_name (some v) =
    let low = take 3 (lower (strip_right (skip_space v))) in
    if mem_str low weekdays then ok (some low) else err day_of_week

-- daily and weekly need an hour, weekly a day.
unfoldable pub fields_required_by_frequency : Schedule → Checked Schedule
fields_required_by_frequency s = elim s.frequency [
  | hourly ↦ ok s
  | daily ↦ elim s.hour [ none ↦ err model | some h ↦ ok s ]
  | weekly ↦ elim s.hour [
    | none ↦ err model
    | some h ↦ elim s.day_of_week [ none ↦ err model | some d ↦ ok s ]
  ]
]

module _ (zone_exists : Str → Bool) where
  unfoldable pub check_timezone : Option Str → Checked Str
  check_timezone none = err timezone
  check_timezone (some v) =
      if all is_space v then err timezone else if zone_exists v then ok v else err timezone

  -- Schedule(**planned.model_dump(exclude_none=True))
  unfoldable pub build_schedule : PlannedSchedule → Checked Schedule
  build_schedule p = do
    f ← check_frequency p.frequency
    m ← check_range minute 59 p.minute
    h ← check_hour p.hour
    d ← weekday_name p.day_of_week
    z ← check_timezone p.timezone
    fields_required_by_frequency
        (record { frequency = f; minute = m; hour = h; day_of_week = d; timezone = z })

-- The fields handed to the cron trigger.
pub record Cron : Type 0 where
  pub day_of_week : Option Str
  pub hour : Option ℕ
  pub minute : ℕ
  pub timezone : Str

unfoldable pub to_cron_kwargs : Schedule → Cron
to_cron_kwargs s = elim s.frequency [
  | hourly ↦ record { day_of_week = none; hour = none; minute = s.minute; timezone = s.timezone }
  | daily ↦ record { day_of_week = none; hour = s.hour; minute = s.minute; timezone = s.timezone }
  | weekly ↦ record {
    day_of_week = s.day_of_week;
    hour = s.hour;
    minute = s.minute;
    timezone = s.timezone;
  }
]

-- The hour on a 12-hour clock, and whether it is PM: `hour % 12 or 12`.
unfoldable pub clock_12h : ℕ → ℕ × Bool
clock_12h h = (if h % 12 == 0 then 12 else h % 12, not (ltb h 12))
