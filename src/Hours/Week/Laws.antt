-- ===== src/Hours/Week/Laws.antt =====
-- The days of `parse_week` are open at the minutes that its explicit days publish.
use search_trust_rd.Prelude.{
  ℕ, ◌≡◌, refl, sym, ap, ◌∙◌, Bool, true, false, ◌&&◌, ◌||◌, List, [], ◌∷◌, ◌++◌, ltb, leb, ◌==◌,
  any, arith, if◌then◌else◌,
}
use search_trust_rd.Hours.Clock.{parsed, require, >>=-eq-parsed, parsed-inj}
use search_trust_rd.Hours.Periods.{Period, holds, covers}
use search_trust_rd.Hours.Periods.Laws.{covers-merge}
use search_trust_rd.Hours.Week.{
  Chunk, Days, connect, weekly_from, next_day, extend_day, own_periods, spill_period, spill, expand,
  merge_days, parse_chunks, fits_after, lookup_day,
}

-- A day is open at a minute, by a dictionary of periods within the day.
abbrev pub open_at : ℕ → ℕ → Days → Bool
open_at d m [] = false
open_at d m ((k, ps) ∷ rest) = (k == d && covers m ps) || open_at d m rest

-- A period past midnight holds a minute of the day after.
abbrev pub holds_over : ℕ → Period → Bool
holds_over m (a, b) = ltb b a && ltb m b

-- A period holds a minute of its own day.
abbrev pub holds_own : ℕ → Period → Bool
holds_own m (a, b) = if ltb b a then leb a m && ltb m 1440 else holds m (a, b)

-- Some explicit day publishes a period that holds the minute, of that day or of the day before.
abbrev pub published : ℕ → ℕ → Days → Bool
published d m [] = false
published d m ((k, ps) ∷ rest) =
    (next_day k == d && any (holds_over m) ps)
    || (k == d && any (holds_own m) ps)
    || published d m rest

covers-append : (m : ℕ) (ps qs : List Period) → covers m (ps ++ qs) ≡ (covers m ps || covers m qs)
covers-append m [] qs = refl
covers-append m (p ∷ ps) qs = ground (arith, covers-append m ps qs)

open_at-extend :
    (d m k : ℕ) (more : List Period) (week : Days)
    → open_at d m (extend_day k more week) ≡ (open_at d m week || (k == d && covers m more))
unfolding extend_day
open_at-extend d m k more [] = ground arith
open_at-extend d m k more ((j, ps) ∷ rest) =
    ground (arith, covers-append m ps more, open_at-extend d m k more rest)

covers-own_periods : (m : ℕ) (ps : List Period) → covers m (own_periods ps) ≡ any (holds_own m) ps
covers-own_periods m [] = refl
covers-own_periods m ((a, b) ∷ ps) = ground (arith, covers-own_periods m ps)

open_at-spill_period :
    (past : Bool) (d m k b : ℕ) (weekly week week' : Days)
    → spill_period past weekly k b week ≡ parsed week'
    → open_at d m week' ≡ (open_at d m week || (next_day k == d && (past && ltb m b)))
unfolding spill_period
open_at-spill_period false d m k b weekly week week' h = rw (sym (parsed-inj h)) (ground arith)
open_at-spill_period true d m k b weekly week week' h =
    let (u, fits, rest) =
      >>=-eq-parsed (require (fits_after b (lookup_day (next_day k) weekly)) _) _ h in
    rw (sym (parsed-inj rest)) (simp (open_at-extend) (ground arith))

open_at-spill :
    (d m k : ℕ) (ps : List Period) (weekly week week' : Days)
    → spill weekly k ps week ≡ parsed week'
    → open_at d m week' ≡ (open_at d m week || (next_day k == d && any (holds_over m) ps))
unfolding spill
open_at-spill d m k [] weekly week week' h = rw (sym (parsed-inj h)) (ground arith)
open_at-spill d m k ((a, b) ∷ ps) weekly week week' h =
    let (mid, one, rest) = >>=-eq-parsed (spill_period (ltb b a) weekly k b week) _ h in
    let first = open_at-spill_period (ltb b a) d m k b weekly week mid one in
    let later = open_at-spill d m k ps weekly mid week' rest in
    later
    ∙ regroup (open_at d m mid) (open_at d m week) (next_day k == d) (ltb b a && ltb m b) _ first
  where
    regroup : (x w n p q : Bool) → x ≡ (w || (n && p)) → (x || (n && q)) ≡ (w || (n && (p || q)))
    regroup x w n p q h = ground arith

open_at-expand :
    (d m : ℕ) (items weekly week week' : Days)
    → expand weekly items week ≡ parsed week'
    → open_at d m week' ≡ (open_at d m week || published d m items)
unfolding expand
open_at-expand d m [] weekly week week' h = rw (sym (parsed-inj h)) (ground arith)
open_at-expand d m ((k, ps) ∷ rest) weekly week week' h =
    let (mid, one, later) = >>=-eq-parsed (spill weekly k ps week) _ h in
    let spilled = open_at-spill d m k ps weekly week mid one in
    let own = open_at-extend d m k (own_periods ps) mid in
    let items = open_at-expand d m rest weekly (extend_day k (own_periods ps) mid) week' later in
    items ∙ regroup _ _ _ _ (k == d) _ _ _ spilled own (covers-own_periods m ps)
  where
    regroup :
        (x mid w over own c o p : Bool)
        → mid ≡ (w || over)
        → x ≡ (mid || (own && c))
        → c ≡ o
        → (x || p) ≡ (w || (over || (own && o) || p))
    regroup x mid w over own c o p e f g = ground arith

open_at-merge_days : (d m : ℕ) (week : Days) → open_at d m (merge_days week) ≡ open_at d m week
open_at-merge_days d m [] = refl
open_at-merge_days d m ((k, ps) ∷ rest) =
    ground (arith, covers-merge m ps, open_at-merge_days d m rest)

-- When `parse_week` succeeds, a day is open at a minute exactly when some explicit day publishes a
-- period that holds it: a period of that day, up to midnight if it runs past it, or the rest of a
-- period of the day before.
pub parse-published :
    (structured : Bool) (chunks : List Chunk) (days : Days) (d m : ℕ)
    → parse_chunks structured chunks ≡ parsed days
    → (weekly : Days) × (weekly_from structured (connect chunks) [] ≡ parsed weekly)
      × (open_at d m days ≡ published d m weekly)
unfolding parse_chunks
parse-published structured chunks days d m h =
    let (weekly, explicit, rest) = >>=-eq-parsed (weekly_from structured (connect chunks) []) _ h in
    let (week, expanded, merged) = >>=-eq-parsed (expand weekly weekly []) _ rest in
    let same = ap (open_at d m) (sym (parsed-inj merged)) ∙ open_at-merge_days d m week in
    (weekly, explicit, same ∙ open_at-expand d m weekly weekly [] week expanded)
