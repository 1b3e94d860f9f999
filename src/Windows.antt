-- ===== src/Windows.antt =====
-- app/report_v22/comparison_windows.py: the windows of days before and after a change that a client
-- has implemented. A date is its ordinal, an instant its microseconds from a fixed start. The
-- conversions between the two, which Python's time zones make, are arguments (`Zones`).
use search_trust_rd.Prelude.{
  ℕ, ◌+◌, ◌-◌, ◌≤◌, ◌<◌, ◌≡◌, refl, Bool, true, false, not, ◌&&◌, ◌||◌, ◌==◌, ltb, leb,
  if◌then◌else◌, arith, subst,
}

pub record Zones : Type 0 where
  pub own_midnight : ℕ → ℕ
  pub own_date : ℕ → ℕ
  pub source_date : ℕ → ℕ

pub record DateRange : Type 0 where
  pub start : ℕ
  pub end : ℕ

pub record ComparisonWindows : Type 0 where
  pub days : ℕ
  pub before : DateRange
  pub excluded : DateRange
  pub after : DateRange

pub data WindowError : Type 0 where
  unsupported_length no_local_date date_overflow invalid_windows : WindowError

pub data Planned : Type 0 where
  impossible : WindowError → Planned
  planned : ComparisonWindows → Planned

-- `DateRange.ordered`
abbrev pub ordered : DateRange → Bool
ordered r = leb r.start r.end

-- `ComparisonWindows.consistent`, with the ranges' own validators
unfoldable pub consistent : ComparisonWindows → Bool
consistent w =
    ordered w.before
    && ordered w.excluded
    && ordered w.after
    && w.before.end - w.before.start + 1 == w.days
    && w.after.end - w.after.start + 1 == w.days
    && w.before.end + 1 == w.excluded.start
    && w.excluded.end + 1 == w.after.start

abbrev pub last_date : ℕ
last_date = 3652059

-- The midnights that begin the local date of the implementation and the next one.
abbrev pub first_utc : Zones → ℕ → ℕ
first_utc zones day = zones.own_midnight day

abbrev pub last_utc : Zones → ℕ → ℕ
last_utc zones day = zones.own_midnight (day + 1)

abbrev pub windows_around : ℕ → ℕ → ℕ → ComparisonWindows
windows_around days start end = record {
  days = days;
  before = record { start = start - 1 - (days - 1); end = start - 1 };
  excluded = record { start = start; end = end };
  after = record { start = end + 1; end = end + 1 + (days - 1) };
}

-- a date of Python's calendar before the first or after the last one is an OverflowError
abbrev pub overflows : ℕ → ℕ → ℕ → Bool
overflows days start end = leb start days || ltb last_date (end + days)

abbrev pub is_supported : ℕ → Bool
is_supported days = days == 7 || days == 14 || days == 28 || days == 90

abbrev pub validated : ComparisonWindows → Planned
validated w = if consistent w then planned w else impossible invalid_windows

unfoldable pub plan_between : ℕ → ℕ → ℕ → Planned
unfolding consistent
plan_between days start end =
    if overflows days start end
    then impossible date_overflow
    else validated (windows_around days start end)

unfoldable pub plan_windows : Zones → ℕ → ℕ → Planned
unfolding plan_between
plan_windows zones day days =
    if not (is_supported days)
    then impossible unsupported_length
    else if ltb last_date (day + 1)
    then impossible date_overflow
    else if not (zones.own_date (first_utc zones day) == day)
        || leb (last_utc zones day) (first_utc zones day)
    then impossible no_local_date
    else plan_between days (zones.source_date (first_utc zones day))
        (zones.source_date (last_utc zones day - 1))

-- Dates do not run backwards.
abbrev pub IsMonotone : Zones → Type 0
IsMonotone zones = (a b : ℕ) → a ≤ b → zones.source_date a ≤ zones.source_date b

pub plan_between-planned :
    (days start end : ℕ)
    → is_supported days ≡ true
    → start ≤ end
    → overflows days start end ≡ false
    → plan_between days start end ≡ planned (windows_around days start end)
unfolding plan_between consistent
plan_between-planned days start end supported in_order inside = ground arith

-- The local date exists.
abbrev pub HasLocalDate : Zones → ℕ → Type 0
HasLocalDate zones day =
    (day < last_date)
    × (zones.own_date (first_utc zones day) ≡ day)
    × (first_utc zones day < last_utc zones day)

-- Windows of a supported length around a local date that exists are always planned, and pass their
-- validators, where they lie within the calendar.
pub plan_windows-planned :
    (zones : Zones) (day days : ℕ)
    → IsMonotone zones
    → HasLocalDate zones day
    → is_supported days ≡ true
    → days < zones.source_date (first_utc zones day)
    → zones.source_date (last_utc zones day - 1) + days ≤ last_date
    → plan_windows zones day days
      ≡ planned (
          windows_around days
            (zones.source_date (first_utc zones day))
            (zones.source_date (last_utc zones day - 1)))
unfolding plan_windows
plan_windows-planned zones day days monotone (early, exists, longer) supported low high = ground (
  arith,
  plan_between-planned days (zones.source_date (first_utc zones day))
      (zones.source_date (last_utc zones day - 1)),
  monotone (first_utc zones day) (last_utc zones day - 1),
)

-- Windows of equal lengths at both sides of the source's days that an instant can fall on from the
-- midnight that begins the implementation's local date until the midnight that begins the next one.
pub record IsAround (zones : Zones) (day days : ℕ) (w : ComparisonWindows) : Type 0 where
  pub days_before : w.before.start + days ≡ w.excluded.start
  pub days_after : w.after.end ≡ w.excluded.end + days
  pub next_before : w.before.end + 1 ≡ w.excluded.start
  pub next_after : w.after.start ≡ w.excluded.end + 1
  pub covers :
      (t : ℕ)
      → first_utc zones day ≤ t
      → t < last_utc zones day
      → (w.excluded.start ≤ zones.source_date t) × (zones.source_date t ≤ w.excluded.end)

windows_around-IsAround :
    (zones : Zones) (day days : ℕ)
    → IsMonotone zones
    → is_supported days ≡ true
    → days < zones.source_date (first_utc zones day)
    → IsAround zones day days (
        windows_around days
          (zones.source_date (first_utc zones day))
          (zones.source_date (last_utc zones day - 1)))
windows_around-IsAround zones day days monotone supported low = record {
  days_before = ground arith;
  days_after = ground arith;
  next_before = omega arith;
  next_after = refl;
  covers = λ t after before.
      (monotone (first_utc zones day) t after, monotone t (last_utc zones day - 1) (omega arith));
}

plan_windows-eq :
    (zones : Zones) (day days : ℕ) {w : ComparisonWindows}
    → plan_windows zones day days ≡ planned w
    → (is_supported days ≡ true)
      × (days < zones.source_date (first_utc zones day))
      × (windows_around days
            (zones.source_date (first_utc zones day))
            (zones.source_date (last_utc zones day - 1))
          ≡ w)
unfolding plan_windows plan_between
plan_windows-eq zones day days e = (ground arith, ground arith, ground arith)

-- Windows that are planned have the asked number of days and lie just before and just after the
-- excluded dates; and no instant from the midnight that begins the implementation's local date until
-- the midnight that begins the next one falls in them, as long as the source's dates do not run
-- backwards. An instant of that local date outside of the two midnights, where a clock is set back
-- over midnight, is not among these.
pub plan_windows-IsAround :
    (zones : Zones) (day days : ℕ) {w : ComparisonWindows}
    → IsMonotone zones
    → plan_windows zones day days ≡ planned w
    → IsAround zones day days w
plan_windows-IsAround zones day days monotone e =
    let (supported, low, same) = plan_windows-eq zones day days e in
    subst (IsAround zones day days) same
      (windows_around-IsAround zones day days monotone supported low)
