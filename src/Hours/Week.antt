-- ===== src/Hours/Week.antt =====
-- `parse_week`, from the chunks that its regular expressions find: a dictionary of explicit days,
-- the periods that run past midnight, and the merged periods. A dictionary by day is an association
-- list in the order of insertion; Monday is 0.
pub mod Laws
pub mod Explicit
pub mod Timed
use search_trust_rd.Prelude.{
  ℕ, zero, suc, ◌+◌, ◌-◌, ◌%◌, Bool, true, false, ◌&&◌, ◌||◌, not, Option, none, some, List, [],
  ◌∷◌, ◌++◌, map, ltb, leb, ◌==◌, any, length, is_some, if◌then◌else◌,
}
use search_trust_rd.Hours.Clock.{
  HoursError, Parsed, parsed, refused, ◌>>=◌, ◌>>◌, require, TimeText, clock_minutes,
}
use search_trust_rd.Hours.Periods.{Period, merge_periods}

-- What the expressions find in the text after a day: `closed`, `24 hours`, the pairs of times, and
-- whether words are left over.
pub record Body : Type 0 where
  pub closed : Bool
  pub all_day : Bool
  pub spans : List (Option TimeText × Option TimeText)
  pub unparsed : Bool

-- A day or a range of days, and whether nothing but a connector follows it.
pub record Chunk : Type 0 where
  pub first_day : ℕ
  pub last_day : ℕ
  pub connector : Bool
  pub body : Body

days_from : ℕ → ℕ → List ℕ
days_from zero day = []
days_from (suc n) day = (day % 7) ∷ days_from n (day + 1)

-- `[(start+j)%7 for j in range((end-start)%7+1)]`
unfoldable pub days_of : Chunk → List ℕ
unfolding days_from
days_of c = days_from ((c.last_day + 7 - c.first_day) % 7 + 1) c.first_day

abbrev join : Chunk → List Chunk → List Chunk
join c [] = c ∷ []
join c (d ∷ rest) = (if c.connector then record c { body = d.body } else c) ∷ d ∷ rest

-- Empty connectors share the times that follow, from the last chunk backwards.
unfoldable pub connect : List Chunk → List Chunk
connect [] = []
connect (c ∷ rest) = join c (connect rest)

-- One pair of times. Structured hours until 23:59 mean the end of the day.
unfoldable pub span_period : Bool → Option TimeText × Option TimeText → Parsed Period
unfolding clock_minutes
span_period structured (from, to) = do
  a ← clock_minutes from
  b ← clock_minutes to
  require (not (a == b || a == 1440)) HoursError.ambiguous_equal_endpoints
  parsed (a, if structured && a == 0 && b == 1439 then 1440 else b)

unfoldable pub span_periods : Bool → List (Option TimeText × Option TimeText) → Parsed (List Period)
unfolding span_period
span_periods structured [] = parsed []
span_periods structured (s ∷ rest) = do
  p ← span_period structured s
  ps ← span_periods structured rest
  parsed (p ∷ ps)

abbrev pub is_empty : {A : Type 0} → List A → Bool
is_empty [] = true
is_empty (x ∷ xs) = false

unfoldable pub stated_periods : Bool → Body → Parsed (List Period)
unfolding span_periods
stated_periods structured b =
    if b.closed
    then parsed []
    else if b.all_day
    then parsed ((0, 1440) ∷ [])
    else if is_empty b.spans
    then refused HoursError.time_not_explicit
    else span_periods structured b.spans

unfoldable pub body_periods : Bool → Body → Parsed (List Period)
unfolding stated_periods
body_periods structured b = do
  require (not (b.closed && (b.all_day || not (is_empty b.spans))))
      HoursError.conflicting_day_states
  ps ← stated_periods structured b
  require (not b.unparsed) HoursError.unparsed_hours_condition
  require (leb (length ps) 8) HoursError.resource_limit
  parsed ps

abbrev pub Days : Type 0
Days = List (ℕ × List Period)

unfoldable pub lookup_day : ℕ → Days → Option (List Period)
lookup_day d [] = none
lookup_day d ((k, ps) ∷ rest) = if k == d then some ps else lookup_day d rest

abbrev pub same_periods : List Period → List Period → Bool
same_periods [] [] = true
same_periods ((a, b) ∷ ps) ((c, d) ∷ qs) = a == c && b == d && same_periods ps qs
same_periods _ _ = false

-- `weekly[key] = ranges`, unless it holds others
abbrev pub set_known : Option (List Period) → ℕ → List Period → Days → Parsed Days
set_known none d ps week = parsed (week ++ (d, ps) ∷ [])
set_known (some old) d ps week = do
  require (same_periods old ps) HoursError.conflicting_day_states
  parsed week

unfoldable pub set_days : List ℕ → List Period → Days → Parsed Days
unfolding lookup_day
set_days [] ps week = parsed week
set_days (d ∷ ds) ps week = do week' ← set_known (lookup_day d week) d ps week; set_days ds ps week'

-- The loop over the chunks.
unfoldable pub weekly_from : Bool → List Chunk → Days → Parsed Days
unfolding body_periods set_days days_of
weekly_from structured [] week = parsed week
weekly_from structured (c ∷ cs) week = do
  ps ← body_periods structured c.body
  week' ← set_days (days_of c) ps week
  weekly_from structured cs week'

abbrev pub next_day : ℕ → ℕ
next_day d = (d + 1) % 7

-- `expanded.setdefault(day, []).extend(more)`
unfoldable pub extend_day : ℕ → List Period → Days → Days
extend_day d more [] = (d, more) ∷ []
extend_day d more ((k, ps) ∷ rest) =
    if k == d then (k, ps ++ more) ∷ rest else (k, ps) ∷ extend_day d more rest

-- Hours past midnight need an open start, or hours past midnight, on the day after, where that day
-- is explicit.
abbrev pub fits_after : ℕ → Option (List Period) → Bool
fits_after b none = true
fits_after b (some ps) = any (λ p. (p.0 == 0 && leb b p.1) || ltb p.1 p.0) ps

-- A day's own periods, up to midnight.
abbrev pub own_periods : List Period → List Period
own_periods [] = []
own_periods ((a, b) ∷ ps) = (if ltb b a then (a, 1440) else (a, b)) ∷ own_periods ps

-- A period past midnight goes to the day after.
unfoldable pub spill_period : Bool → Days → ℕ → ℕ → Days → Parsed Days
unfolding lookup_day extend_day
spill_period false weekly d b expanded = parsed expanded
spill_period true weekly d b expanded = do
  require (fits_after b (lookup_day (next_day d) weekly)) HoursError.conflicting_overnight
  parsed (extend_day (next_day d) ((0, b) ∷ []) expanded)

unfoldable pub spill : Days → ℕ → List Period → Days → Parsed Days
unfolding spill_period
spill weekly d [] expanded = parsed expanded
spill weekly d ((a, b) ∷ ps) expanded = do
  expanded' ← spill_period (ltb b a) weekly d b expanded
  spill weekly d ps expanded'

unfoldable pub expand : Days → Days → Days → Parsed Days
unfolding spill extend_day
expand weekly [] expanded = parsed expanded
expand weekly ((d, ps) ∷ rest) expanded = do
  expanded' ← spill weekly d ps expanded
  expand weekly rest (extend_day d (own_periods ps) expanded')

abbrev pub merge_days : Days → Days
merge_days [] = []
merge_days ((d, ps) ∷ rest) = (d, merge_periods ps) ∷ merge_days rest

-- The `try` block of `parse_week`, for chunks whose connectors are not yet resolved.
unfoldable pub parse_chunks : Bool → List Chunk → Parsed Days
unfolding connect weekly_from expand
parse_chunks structured chunks = do
  weekly ← weekly_from structured (connect chunks) []
  expanded ← expand weekly weekly []
  parsed (merge_days expanded)
