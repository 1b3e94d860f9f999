-- ===== src/Hours/Week/Timed.antt =====
-- The periods of a week are proper, and merged they are in normal form, unless hours end just at
-- midnight, for which `parse_week` leaves an empty period on the day after.
use search_trust_rd.Prelude.{
  ℕ, ◌≤◌, ◌<◌, ◌≡◌, ◌≢◌, refl, sym, subst, ◌∙◌, Bool, true, false, ◌&&◌, ◌||◌, not, Option, none,
  some, List, [], ◌∷◌, ◌++◌, ltb, leb, ◌==◌, arith, Bool-cases, inl, inr, All, length,
  if◌then◌else◌,
}
use search_trust_rd.Hours.Clock.{
  HoursError, parsed, refused, require, TimeText, clock_minutes, clock_minutes_bound, >>=-eq-parsed,
  require-eq-parsed, parsed-inj,
}
use search_trust_rd.Hours.Periods.{Period}
use search_trust_rd.Hours.Periods.Normal.{IsProper, IsNormal, merge-IsNormal}
use search_trust_rd.Hours.Week.{
  Body, Chunk, Days, connect, days_of, span_period, span_periods, body_periods, lookup_day,
  set_known, set_days, weekly_from, next_day, extend_day, own_periods, spill_period, spill, expand,
  merge_days, parse_chunks, fits_after, is_empty, same_periods, stated_periods,
}

-- Two different times of a day, the first before its end.
abbrev pub IsTimed : Period → Type 0
IsTimed (a, b) = (a ≢ b) × (a < 1440) × (b ≤ 1440)

-- It does not run past midnight by no minute.
abbrev pub EndsProperly : Period → Type 0
EndsProperly (a, b) = b < a → 0 < b

abbrev pub EachDay : (Period → Type 0) → Days → Type 0
EachDay P week = All (λ e. All P e.1) week

span-IsTimed :
    (structured : Bool) (s : Option TimeText × Option TimeText) (p : Period)
    → span_period structured s ≡ parsed p
    → IsTimed p
unfolding span_period
span-IsTimed structured (from, to) p h =
    let (a, begin, rest) = >>=-eq-parsed (clock_minutes from) _ h in
    let (b, end, rest') = >>=-eq-parsed (clock_minutes to) _ rest in
    let (u, apart, made) = >>=-eq-parsed (require (not (a == b || a == 1440)) _) _ rest' in
    let below = clock_minutes_bound from a begin in
    let above = clock_minutes_bound to b end in
    rw (sym (parsed-inj made)) (timed a b structured below above (require-eq-parsed _ _ apart))
  where
    timed :
        (a b : ℕ) (s : Bool)
        → a ≤ 1440
        → b ≤ 1440
        → not (a == b || a == 1440) ≡ true
        → IsTimed (a, if s && a == 0 && b == 1439 then 1440 else b)
    timed a b s h k e = ground arith

spans-IsTimed :
    (structured : Bool) (ss : List (Option TimeText × Option TimeText)) (ps : List Period)
    → span_periods structured ss ≡ parsed ps
    → All IsTimed ps
unfolding span_periods
spans-IsTimed structured [] ps h = rw (sym (parsed-inj h)) tt
spans-IsTimed structured (s ∷ ss) ps h =
    let (p, one, rest) = >>=-eq-parsed (span_period structured s) _ h in
    let (qs, others, made) = >>=-eq-parsed (span_periods structured ss) _ rest in
    rw (sym (parsed-inj made))
      (span-IsTimed structured s p one, spans-IsTimed structured ss qs others)

chosen-IsTimed :
    (closed all_day empty structured : Bool) (ss : List (Option TimeText × Option TimeText))
    (ps : List Period)
    → (if closed
        then parsed []
        else if all_day
        then parsed ((0, 1440) ∷ [])
        else if empty
        then refused HoursError.time_not_explicit
        else span_periods structured ss)
      ≡ parsed ps
    → All IsTimed ps
chosen-IsTimed true all_day empty structured ss ps h = rw (sym (parsed-inj h)) tt
chosen-IsTimed false true empty structured ss ps h = rw (sym (parsed-inj h)) (omega arith)
chosen-IsTimed false false true structured ss ps h = cc
chosen-IsTimed false false false structured ss ps h = spans-IsTimed structured ss ps h

stated-IsTimed :
    (structured : Bool) (b : Body) (ps : List Period)
    → stated_periods structured b ≡ parsed ps
    → All IsTimed ps
unfolding stated_periods
stated-IsTimed structured b ps h =
    chosen-IsTimed b.closed b.all_day (is_empty b.spans) structured b.spans ps h

body-IsTimed :
    (structured : Bool) (b : Body) (ps : List Period)
    → body_periods structured b ≡ parsed ps
    → All IsTimed ps
unfolding body_periods
body-IsTimed structured b ps h =
    let (u, calm, rest) =
      >>=-eq-parsed (require (not (b.closed && (b.all_day || not (is_empty b.spans)))) _) _ h in
    let (qs, chosen, rest') = >>=-eq-parsed (stated_periods structured b) _ rest in
    let (v, read, rest'') = >>=-eq-parsed (require (not b.unparsed) _) _ rest' in
    let (w, few, made) = >>=-eq-parsed (require (leb (length qs) 8) _) _ rest'' in
    subst (All IsTimed) (parsed-inj made) (stated-IsTimed structured b qs chosen)

append-EachDay :
    (P : Period → Type 0) (d : ℕ) (ps : List Period) (week : Days)
    → All P ps
    → EachDay P week
    → EachDay P (week ++ (d, ps) ∷ [])
append-EachDay P d ps [] h k = (h, tt)
append-EachDay P d ps (e ∷ week) h k = (k.0, append-EachDay P d ps week h k.1)

set_known-EachDay :
    (P : Period → Type 0) (known : Option (List Period)) (d : ℕ) (ps : List Period)
    (week week' : Days)
    → set_known known d ps week ≡ parsed week'
    → All P ps
    → EachDay P week
    → EachDay P week'
set_known-EachDay P none d ps week week' h k l =
    subst (EachDay P) (parsed-inj h) (append-EachDay P d ps week k l)
set_known-EachDay P (some old) d ps week week' h k l =
    let (u, same, rest) = >>=-eq-parsed (require (same_periods old ps) _) _ h in
    subst (EachDay P) (parsed-inj rest) l

set_days-EachDay :
    (P : Period → Type 0) (ds : List ℕ) (ps : List Period) (week week' : Days)
    → set_days ds ps week ≡ parsed week'
    → All P ps
    → EachDay P week
    → EachDay P week'
unfolding set_days
set_days-EachDay P [] ps week week' h k l = subst (EachDay P) (parsed-inj h) l
set_days-EachDay P (d ∷ ds) ps week week' h k l =
    let (mid, one, rest) = >>=-eq-parsed (set_known (lookup_day d week) d ps week) _ h in
    set_days-EachDay P ds ps mid week' rest k
      (set_known-EachDay P (lookup_day d week) d ps week mid one k l)

weekly-IsTimed :
    (structured : Bool) (cs : List Chunk) (week weekly : Days)
    → weekly_from structured cs week ≡ parsed weekly
    → EachDay IsTimed week
    → EachDay IsTimed weekly
unfolding weekly_from
weekly-IsTimed structured [] week weekly h k = subst (EachDay IsTimed) (parsed-inj h) k
weekly-IsTimed structured (c ∷ cs) week weekly h k =
    let (ps, body, rest) = >>=-eq-parsed (body_periods structured c.body) _ h in
    let (mid, one, later) = >>=-eq-parsed (set_days (days_of c) ps week) _ rest in
    weekly-IsTimed structured cs mid weekly later (
      set_days-EachDay IsTimed (days_of c) ps week mid one (body-IsTimed structured c.body ps body)
        k)

-- A period of the text that the next steps turn into proper ones.
abbrev IsSound : Period → Type 0
IsSound p = IsTimed p × EndsProperly p

both : (ps : List Period) → All IsTimed ps → All EndsProperly ps → All IsSound ps
both [] h k = tt
both (p ∷ ps) h k = ((h.0, k.0), both ps h.1 k.1)

append-All : (ps qs : List Period) → All IsProper ps → All IsProper qs → All IsProper (ps ++ qs)
append-All [] qs h k = k
append-All (p ∷ ps) qs h k = (h.0, append-All ps qs h.1 k)

extend-IsProper :
    (d : ℕ) (more : List Period) (week : Days)
    → All IsProper more
    → EachDay IsProper week
    → EachDay IsProper (extend_day d more week)
unfolding extend_day
extend-IsProper d more [] h k = (h, tt)
extend-IsProper d more ((j, ps) ∷ rest) h k = elim (Bool-cases (j == d)) [
  | inl e ↦ rw e (append-All ps more k.0 h, k.1)
  | inr e ↦ rw e (k.0, extend-IsProper d more rest h k.1)
]

own-IsProper : (ps : List Period) → All IsSound ps → All IsProper (own_periods ps)
own-IsProper [] h = tt
own-IsProper ((a, b) ∷ ps) h = elim (Bool-cases (ltb b a)) [
  | inl e ↦ rw e (h.0.0.1, own-IsProper ps h.1)
  | inr e ↦ rw e (forward a b h.0.0.0 e, own-IsProper ps h.1)
]
  where
    forward : (a b : ℕ) → a ≢ b → ltb b a ≡ false → a < b
    forward a b h k = ground arith

spill_period-IsProper :
    (past : Bool) (weekly week week' : Days) (d b : ℕ)
    → spill_period past weekly d b week ≡ parsed week'
    → (past ≡ true → 0 < b)
    → EachDay IsProper week
    → EachDay IsProper week'
unfolding spill_period
spill_period-IsProper false weekly week week' d b h k l = subst (EachDay IsProper) (parsed-inj h) l
spill_period-IsProper true weekly week week' d b h k l =
    let (u, fits, rest) =
      >>=-eq-parsed (require (fits_after b (lookup_day (next_day d) weekly)) _) _ h in
    subst (EachDay IsProper) (parsed-inj rest)
      (extend-IsProper (next_day d) ((0, b) ∷ []) week (k refl, tt) l)

spill-IsProper :
    (ps : List Period) (weekly week week' : Days) (d : ℕ)
    → spill weekly d ps week ≡ parsed week'
    → All IsSound ps
    → EachDay IsProper week
    → EachDay IsProper week'
unfolding spill
spill-IsProper [] weekly week week' d h k l = subst (EachDay IsProper) (parsed-inj h) l
spill-IsProper ((a, b) ∷ ps) weekly week week' d h k l =
    let (mid, one, rest) = >>=-eq-parsed (spill_period (ltb b a) weekly d b week) _ h in
    spill-IsProper ps weekly mid week' d rest k.1
      (spill_period-IsProper (ltb b a) weekly week mid d b one (λ e. k.0.1 (less b a e)) l)
  where
    less : (b a : ℕ) → ltb b a ≡ true → b < a
    less b a e = ground arith

expand-IsProper :
    (items weekly week week' : Days)
    → expand weekly items week ≡ parsed week'
    → EachDay IsTimed items
    → EachDay EndsProperly items
    → EachDay IsProper week
    → EachDay IsProper week'
unfolding expand
expand-IsProper [] weekly week week' h k l p = subst (EachDay IsProper) (parsed-inj h) p
expand-IsProper ((d, ps) ∷ rest) weekly week week' h k l p =
    let (mid, one, later) = >>=-eq-parsed (spill weekly d ps week) _ h in
    let sound = both ps k.0 l.0 in
    expand-IsProper rest weekly (extend_day d (own_periods ps) mid) week' later k.1 l.1 (
      extend-IsProper d (own_periods ps) mid (own-IsProper ps sound)
        (spill-IsProper ps weekly week mid d one sound p))

merge_days-IsNormal :
    (week : Days) → EachDay IsProper week → All (λ e. IsNormal e.1) (merge_days week)
merge_days-IsNormal [] h = tt
merge_days-IsNormal ((d, ps) ∷ rest) h = (merge-IsNormal ps h.0, merge_days-IsNormal rest h.1)

-- When `parse_week` succeeds on days of which none ends just at midnight on a clock that starts
-- again, the periods of every day are proper, in order and apart from one another.
pub parse-IsNormal :
    (structured : Bool) (chunks : List Chunk) (weekly days : Days)
    → weekly_from structured (connect chunks) [] ≡ parsed weekly
    → EachDay EndsProperly weekly
    → parse_chunks structured chunks ≡ parsed days
    → All (λ e. IsNormal e.1) days
unfolding parse_chunks
parse-IsNormal structured chunks weekly days h k e =
    let (weekly', explicit, rest) =
      >>=-eq-parsed (weekly_from structured (connect chunks) []) _ e in
    let (week, expanded, merged) = >>=-eq-parsed (expand weekly' weekly' []) _ rest in
    let same = parsed-inj (sym explicit ∙ h) in
    let timed = weekly-IsTimed structured (connect chunks) [] weekly' explicit tt in
    subst (All (λ e. IsNormal e.1)) (parsed-inj merged) (
      merge_days-IsNormal week (
        expand-IsProper weekly' weekly' [] week expanded timed
          (subst (EachDay EndsProperly) (sym same) k) tt))
