-- ===== src/Hours/Week/Explicit.antt =====
-- The explicit days of `parse_week`: every chunk's days hold the periods of its text, so no later
-- chunk has changed them.
use search_trust_rd.Prelude.{
  ℕ, ◌≡◌, refl, sym, ap, ◌∙◌, Bool, true, Option, none, some, List, [], ◌∷◌, ◌++◌, ◌==◌, ==_refl,
  arith, Bool-cases, inl, inr, All,
}
use search_trust_rd.Hours.Clock.{parsed, require, >>=-eq-parsed, require-eq-parsed, parsed-inj}
use search_trust_rd.Hours.Periods.{Period}
use search_trust_rd.Hours.Week.{
  Chunk, Days, days_of, body_periods, lookup_day, same_periods, set_known, set_days, weekly_from,
}

pub same_periods-eq : (ps qs : List Period) → same_periods ps qs ≡ true → ps ≡ qs
same_periods-eq [] [] h = refl
same_periods-eq [] (q ∷ qs) h = cc
same_periods-eq (p ∷ ps) [] h = cc
same_periods-eq ((a, b) ∷ ps) ((c, d) ∷ qs) h = ground (arith, same_periods-eq ps qs)

-- What is set stays set.
abbrev Keeps : Days → Days → Type 0
Keeps week week' =
    (k : ℕ) (qs : List Period) → lookup_day k week ≡ some qs → lookup_day k week' ≡ some qs

append-Keeps : (d : ℕ) (ps : List Period) (week : Days) → Keeps week (week ++ (d, ps) ∷ [])
unfolding lookup_day
append-Keeps d ps [] k qs h = cc
append-Keeps d ps ((j, rs) ∷ week) k qs h = elim (Bool-cases (j == k)) [
  | inl e ↦ rw e (rw e at h)
  | inr e ↦ rw e (append-Keeps d ps week k qs (rw e at h))
]

lookup-append :
    (d : ℕ) (ps : List Period) (week : Days)
    → lookup_day d week ≡ none
    → lookup_day d (week ++ (d, ps) ∷ []) ≡ some ps
unfolding lookup_day
lookup-append d ps [] h = rw (==_refl d) refl
lookup-append d ps ((j, rs) ∷ week) h = elim (Bool-cases (j == d)) [
  | inl e ↦ absurd (none_some (rw e at h))
  | inr e ↦ rw e (lookup-append d ps week (rw e at h))
]
  where
    none_some : some rs ≡ none → ⊥
    none_some h = cc

set_known_lem :
    (known : Option (List Period)) (d : ℕ) (ps : List Period) (week week' : Days)
    → lookup_day d week ≡ known
    → set_known known d ps week ≡ parsed week'
    → (lookup_day d week' ≡ some ps) × Keeps week week'
set_known_lem none d ps week week' e h =
    rw (sym (parsed-inj h)) (lookup-append d ps week e, append-Keeps d ps week)
set_known_lem (some old) d ps week week' e h =
    let (u, same, rest) = >>=-eq-parsed (require (same_periods old ps) _) _ h in
    let equal = same_periods-eq old ps (require-eq-parsed _ _ same) in
    rw (sym (parsed-inj rest)) (e ∙ ap some equal, λ k qs g. g)

set_days_lem :
    (ds : List ℕ) (ps : List Period) (week week' : Days)
    → set_days ds ps week ≡ parsed week'
    → All (λ d. lookup_day d week' ≡ some ps) ds × Keeps week week'
unfolding set_days
set_days_lem [] ps week week' h = rw (sym (parsed-inj h)) (tt, λ k qs g. g)
set_days_lem (d ∷ ds) ps week week' h =
    let (mid, one, rest) = >>=-eq-parsed (set_known (lookup_day d week) d ps week) _ h in
    let (here, keeps) = set_known_lem (lookup_day d week) d ps week mid refl one in
    let (later, keeps') = set_days_lem ds ps mid week' rest in
    ((keeps' d ps here, later), λ k qs g. keeps' k qs (keeps k qs g))

-- A chunk's text has periods, and they are those of all its days.
abbrev pub Publishes : Bool → Days → Chunk → Type 0
Publishes structured week c =
    (ps : List Period) × (body_periods structured c.body ≡ parsed ps)
    × All (λ d. lookup_day d week ≡ some ps) (days_of c)

kept_days :
    (week week' : Days) (ps : List Period) (ds : List ℕ)
    → Keeps week week'
    → All (λ d. lookup_day d week ≡ some ps) ds
    → All (λ d. lookup_day d week' ≡ some ps) ds
kept_days week week' ps [] keeps h = tt
kept_days week week' ps (d ∷ ds) keeps h = (keeps d ps h.0, kept_days week week' ps ds keeps h.1)

weekly_from_lem :
    (structured : Bool) (cs : List Chunk) (week weekly : Days)
    → weekly_from structured cs week ≡ parsed weekly
    → All (Publishes structured weekly) cs × Keeps week weekly
unfolding weekly_from
weekly_from_lem structured [] week weekly h = rw (sym (parsed-inj h)) (tt, λ k qs g. g)
weekly_from_lem structured (c ∷ cs) week weekly h =
    let (ps, body, rest) = >>=-eq-parsed (body_periods structured c.body) _ h in
    let (mid, one, later) = >>=-eq-parsed (set_days (days_of c) ps week) _ rest in
    let (here, keeps) = set_days_lem (days_of c) ps week mid one in
    let (others, keeps') = weekly_from_lem structured cs mid weekly later in
    (
      ((ps, body, kept_days mid weekly ps (days_of c) keeps' here), others),
      λ k qs g. keeps' k qs (keeps k qs g),
    )

-- When the loop over the chunks succeeds, every chunk's text has periods, and every day that the
-- chunk names holds just these in the result: no other chunk has changed or added to them.
pub weekly-Publishes :
    (structured : Bool) (chunks : List Chunk) (weekly : Days)
    → weekly_from structured chunks [] ≡ parsed weekly
    → All (Publishes structured weekly) chunks
weekly-Publishes structured chunks weekly h = (weekly_from_lem structured chunks [] weekly h).0
