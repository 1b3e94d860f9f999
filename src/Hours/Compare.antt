-- ===== src/Hours/Compare.antt =====
-- `compare_candidates`: the hours of a site against those of a business profile.
pub mod Laws
pub mod Verdict
use search_trust_rd.Prelude.{
  ℕ, zero, suc, ◌+◌, Bool, true, false, ◌&&◌, ◌||◌, not, Option, none, some, List, [], ◌∷◌, ◌==◌,
  any, all, length, is_some, if◌then◌else◌,
}
use search_trust_rd.Hours.Clock.{HoursError, Parsed, parsed, refused, ◌>>=◌}
use search_trust_rd.Hours.Periods.{Period}
use search_trust_rd.Hours.Week.{Days, lookup_day, same_periods, set_known, is_empty}

pub data Classification : Type 0 where
  parsed_hours parse_ambiguous tour_schedule emergency appointment_only other : Classification

pub data Purpose : Type 0 where
  unknown tours emergencies appointments dated_special office regular_business : Purpose

-- `label_missing` is the reason `hours_label_missing`.
pub record Candidate : Type 0 where
  pub classification : Classification
  pub purpose : Purpose
  pub label_missing : Bool
  pub days : Days

pub data ComparisonState : Type 0 where
  not_checked mismatch exact_match partial_match : ComparisonState

pub data Reason : Type 0 where
  field_not_observed source_ineligible hours_not_comparable conflicting_hours_sources : Reason
  values_differ all_equal some_equal : Reason

pub record Comparison : Type 0 where
  pub state : ComparisonState
  pub reason : Reason
  pub compared_days : List ℕ
  pub omitted_days : List ℕ

abbrev pub all_days : List ℕ
all_days = 0 ∷ 1 ∷ 2 ∷ 3 ∷ 4 ∷ 5 ∷ 6 ∷ []

abbrev pub is_parsed : Candidate → Bool
is_parsed c = elim c.classification [ parsed_hours ↦ true | _ ↦ false ]

-- A schedule of the site that may not be dropped.
unfoldable pub blocks : Classification → Bool → Bool
blocks parse_ambiguous missing = true
blocks appointment_only missing = true
blocks other missing = not missing
blocks _ missing = false

-- `[c for c in site if c['classification']=='parsed']`
unfoldable pub usable : List Candidate → List Candidate
usable [] = []
usable (c ∷ cs) = if is_parsed c then c ∷ usable cs else usable cs

union_days : Days → Days → Parsed Days
union_days [] result = parsed result
union_days ((d, ps) ∷ rest) result = do
  result' ← set_known (lookup_day d result) d ps result
  union_days rest result'

-- The function `union`: two candidates may not differ on a day.
unfoldable pub union : List Candidate → Days → Parsed Days
unfolding union_days
union [] result = parsed result
union (c ∷ cs) result = do result' ← union_days c.days result; union cs result'

purpose_index : Purpose → ℕ
purpose_index unknown = 0
purpose_index tours = 1
purpose_index emergencies = 2
purpose_index appointments = 3
purpose_index dated_special = 4
purpose_index office = 5
purpose_index regular_business = 6

-- `len({r['purpose'] for r in usable})>1`
unfoldable pub purposes_differ : List Candidate → Bool
unfolding purpose_index
purposes_differ [] = false
purposes_differ (c ∷ cs) = any (λ d. not (purpose_index c.purpose == purpose_index d.purpose)) cs

unfoldable pub common_days : Days → Days → List ℕ → List ℕ
unfolding lookup_day
common_days left right [] = []
common_days left right (d ∷ ds) =
    if is_some (lookup_day d left) && is_some (lookup_day d right)
    then d ∷ common_days left right ds
    else common_days left right ds

unfoldable pub missing_days : Days → Days → List ℕ → List ℕ
unfolding lookup_day
missing_days left right [] = []
missing_days left right (d ∷ ds) =
    if is_some (lookup_day d left) && is_some (lookup_day d right)
    then missing_days left right ds
    else d ∷ missing_days left right ds

abbrev pub periods_or : Option (List Period) → List Period
periods_or none = []
periods_or (some ps) = ps

abbrev pub differ_on : Days → Days → ℕ → Bool
differ_on left right d =
    not (same_periods (periods_or (lookup_day d left)) (periods_or (lookup_day d right)))

abbrev pub unchecked : Reason → Comparison
unchecked r = record {
  state = not_checked;
  reason = r;
  compared_days = [];
  omitted_days = all_days;
}

abbrev judged : ComparisonState → Reason → Days → Days → Comparison
judged s r left right = record {
  state = s;
  reason = r;
  compared_days = common_days left right all_days;
  omitted_days = missing_days left right all_days;
}

unfoldable pub compare_weeks : Days → Days → Comparison
unfolding common_days missing_days
compare_weeks left right =
    let common = common_days left right all_days in
    if is_empty common
    then unchecked hours_not_comparable
    else if any (differ_on left right) common
    then judged mismatch values_differ left right
    else if length common == 7
    then judged exact_match all_equal left right
    else judged partial_match some_equal left right

unfoldable pub compare_unions : Bool → Parsed Days → Parsed Days → Comparison
unfolding compare_weeks
compare_unions mixed (refused e) right = unchecked conflicting_hours_sources
compare_unions mixed (parsed left) (refused e) = unchecked conflicting_hours_sources
compare_unions mixed (parsed left) (parsed right) =
    if mixed then unchecked hours_not_comparable else compare_weeks left right

unfoldable pub compare_candidates : List Candidate → List Candidate → Bool → Comparison
unfolding blocks usable union purposes_differ compare_unions
compare_candidates site gbp eligible =
    if not eligible
    then unchecked source_ineligible
    else if any (λ c. blocks c.classification c.label_missing) site
    then unchecked hours_not_comparable
    else if is_empty (usable site) || is_empty gbp
    then unchecked field_not_observed
    else if any (λ c. not (is_parsed c)) gbp
    then unchecked hours_not_comparable
    else compare_unions (purposes_differ (usable site)) (union (usable site) []) (union gbp [])
