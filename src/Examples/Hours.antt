-- ===== src/Examples/Hours.antt =====
-- A week's texts and two published weeks.
use search_trust_rd.Prelude.{ℕ, ◌≡◌, refl, true, false, some, List, [], ◌∷◌, arith, All, ◌≤◌}
use search_trust_rd.Hours.Clock.{
  parsed, refused, HoursError, TimeText, pm, clock_minutes, clock_minutes_bound,
}
use search_trust_rd.Hours.Clock.Printed.{on_24, on_12, clock_minutes-on}
use search_trust_rd.Hours.Periods.{Period, covers, merge_periods, sort_periods}
use search_trust_rd.Hours.Periods.Laws.{covers-merge}
use search_trust_rd.Hours.Periods.Normal.{IsNormal, merge_unique}
use search_trust_rd.Hours.Week.{Body, Chunk, Days, connect, parse_chunks, weekly_from}
use search_trust_rd.Hours.Week.Laws.{open_at, published, parse-published}
use search_trust_rd.Hours.Week.Explicit.{Publishes, weekly-Publishes}
use search_trust_rd.Hours.Week.Timed.{EndsProperly, EachDay, parse-IsNormal}
use search_trust_rd.Hours.Compare.{
  Candidate, parsed_hours, regular_business, compare_candidates, mismatch,
}
use search_trust_rd.Hours.Compare.Verdict.{IsSound, compare-IsSound}

abbrev half_past_six : TimeText
half_past_six = record { hour = 6; minute = some 30; meridiem = some pm }

six_thirty : clock_minutes (some half_past_six) ≡ parsed 1110
unfolding clock_minutes
six_thirty = refl

clock_minutes_bound_example : 1110 ≤ 1440
clock_minutes_bound_example = clock_minutes_bound (some half_past_six) 1110 six_thirty

clock_minutes-on_example :
    (clock_minutes (some (on_24 1085)) ≡ parsed 1085)
    × (clock_minutes (some (on_12 1085)) ≡ parsed 1085)
clock_minutes-on_example = clock_minutes-on 1085 (omega arith)

abbrev shifts : List Period
shifts = (840, 1080) ∷ (540, 720) ∷ (700, 800) ∷ []

shifts_merged : merge_periods shifts ≡ (540, 800) ∷ (840, 1080) ∷ []
unfolding merge_periods sort_periods
shifts_merged = refl

covers-merge_example : covers 710 (merge_periods shifts) ≡ covers 710 shifts
covers-merge_example = covers-merge 710 shifts

-- The same minutes, in another order and twice.
abbrev other_shifts : List Period
other_shifts = (700, 800) ∷ (840, 1080) ∷ (540, 720) ∷ (840, 1080) ∷ []

same_minutes : (m : ℕ) → covers m shifts ≡ covers m other_shifts
same_minutes m = ground arith

merge_unique_example : merge_periods shifts ≡ merge_periods other_shifts
merge_unique_example =
    merge_unique shifts other_shifts (omega arith, (omega arith, (omega arith, tt)))
      (omega arith, (omega arith, (omega arith, (omega arith, tt)))) same_minutes

-- Monday and Tuesday 17:00 to a time on the 24-hour clock.
abbrev evening : ℕ → Body
evening b = record {
  closed = false;
  all_day = false;
  spans = (some (on_24 1020), some (on_24 b)) ∷ [];
  unparsed = false;
}

abbrev evenings : ℕ → List Chunk
evenings b =
    record { first_day = 0; last_day = 0; connector = true; body = evening 1200 }
    ∷ record { first_day = 1; last_day = 1; connector = false; body = evening b }
    ∷ []

abbrev two_nights : Days
two_nights = (0, (1020, 120) ∷ []) ∷ (1, (1020, 120) ∷ []) ∷ []

abbrev three_days : Days
three_days = (1, (0, 120) ∷ (1020, 1440) ∷ []) ∷ (0, (1020, 1440) ∷ []) ∷ (2, (0, 120) ∷ []) ∷ []

nights_parsed : parse_chunks false (evenings 120) ≡ parsed three_days
unfolding parse_chunks clock_minutes merge_periods sort_periods
nights_parsed = refl

nights_stated : weekly_from false (connect (evenings 120)) [] ≡ parsed two_nights
unfolding weekly_from clock_minutes connect
nights_stated = refl

-- Tuesday at one in the morning is open, from Monday's hours.
parse-published_example :
    (weekly : Days) × (weekly_from false (connect (evenings 120)) [] ≡ parsed weekly)
    × (open_at 1 60 three_days ≡ published 1 60 weekly)
parse-published_example = parse-published false (evenings 120) three_days 1 60 nights_parsed

weekly-Publishes_example : All (Publishes false two_nights) (connect (evenings 120))
weekly-Publishes_example = weekly-Publishes false (connect (evenings 120)) two_nights nights_stated

ends_late : EachDay EndsProperly two_nights
ends_late = ((λ h. omega arith, tt), ((λ h. omega arith, tt), tt))

parse-IsNormal_example : All (λ e. IsNormal e.1) three_days
parse-IsNormal_example =
    parse-IsNormal false (evenings 120) two_nights three_days nights_stated ends_late nights_parsed

-- Evenings that end at midnight, written 00:00, leave empty periods on the days after.
midnight :
    parse_chunks false (evenings 0)
    ≡ parsed ((1, (0, 0) ∷ (1020, 1440) ∷ []) ∷ (0, (1020, 1440) ∷ []) ∷ (2, (0, 0) ∷ []) ∷ [])
unfolding parse_chunks clock_minutes merge_periods sort_periods
midnight = refl

-- And then a day that opens in the morning conflicts with the evening before it.
morning_after :
    parse_chunks false (
      record { first_day = 0; last_day = 0; connector = false; body = evening 0 }
      ∷ record { first_day = 1; last_day = 1; connector = false; body = evening 1200 }
      ∷ [])
    ≡ refused HoursError.conflicting_overnight
unfolding parse_chunks clock_minutes merge_periods sort_periods
morning_after = refl

abbrev candidate : Days → Candidate
candidate days = record {
  classification = parsed_hours;
  purpose = regular_business;
  label_missing = false;
  days = days;
}

two_days_differ :
    (compare_candidates (candidate two_nights ∷ []) (candidate three_days ∷ []) true).state
    ≡ mismatch
unfolding compare_candidates
two_days_differ = refl

compare-IsSound_example :
    IsSound
      (candidate two_nights ∷ [])
      (candidate three_days ∷ [])
      true
      (compare_candidates (candidate two_nights ∷ []) (candidate three_days ∷ []) true)
compare-IsSound_example =
    compare-IsSound (candidate two_nights ∷ []) (candidate three_days ∷ []) true

-- Closing at 24:00 and at 00:00 counts as different hours.
midnight_mismatch :
    (compare_candidates
      (candidate ((0, (1020, 1440) ∷ []) ∷ (1, (1020, 1440) ∷ []) ∷ []) ∷ [])
      (candidate ((1, (0, 0) ∷ (1020, 1440) ∷ []) ∷ (0, (1020, 1440) ∷ []) ∷ (2, (0, 0) ∷ []) ∷ [])
        ∷ [])
      true).state
    ≡ mismatch
unfolding compare_candidates
midnight_mismatch = refl
