-- ===== src/Hours/Compare/Verdict.antt =====
-- What `compare_candidates` answers, over all of its branches.
use search_trust_rd.Prelude.{
  ◌≡◌, refl, Bool, true, false, not, ◌||◌, List, [], any, ◌⊎◌, inl, inr, if◌then◌else◌,
}
use search_trust_rd.Hours.Clock.{Parsed, parsed, refused}
use search_trust_rd.Hours.Week.{Days, is_empty}
use search_trust_rd.Hours.Compare.{
  Candidate, not_checked, Comparison, all_days, blocks, is_parsed, usable, union, purposes_differ,
  compare_unions, compare_candidates,
}
use search_trust_rd.Hours.Compare.Laws.{Verdict, weeks-Verdict}

-- No verdict: no day is compared and all seven are omitted.
abbrev pub IsUnchecked : Comparison → Type 0
IsUnchecked c = (c.state ≡ not_checked) × (c.compared_days ≡ []) × (c.omitted_days ≡ all_days)

-- The sources agree within themselves, and the verdict is true of their weeks.
abbrev pub IsJudged : List Candidate → List Candidate → Bool → Comparison → Type 0
IsJudged site gbp eligible c =
    (left : Days) × (right : Days) × (eligible ≡ true)
    × (any (λ s. blocks s.classification s.label_missing) site ≡ false)
    × (union (usable site) [] ≡ parsed left)
    × (union gbp [] ≡ parsed right)
    × Verdict c.state c.compared_days left right

abbrev pub IsSound : List Candidate → List Candidate → Bool → Comparison → Type 0
IsSound site gbp eligible c = IsUnchecked c ⊎ IsJudged site gbp eligible c

if_either :
    {A : Type 0} (P : A → Type 0) (t : Bool) {a b : A}
    → (t ≡ true → P a)
    → (t ≡ false → P b)
    → P (if t then a else b)
if_either P true f g = f refl
if_either P false f g = g refl

unions-IsSound :
    (site gbp : List Candidate) (mixed : Bool) (l r : Parsed Days)
    → any (λ s. blocks s.classification s.label_missing) site ≡ false
    → union (usable site) [] ≡ l
    → union gbp [] ≡ r
    → IsSound site gbp true (compare_unions mixed l r)
unfolding compare_unions
unions-IsSound site gbp mixed (refused e) r k el er = inl (refl, refl, refl)
unions-IsSound site gbp mixed (parsed left) (refused e) k el er = inl (refl, refl, refl)
unions-IsSound site gbp true (parsed left) (parsed right) k el er = inl (refl, refl, refl)
unions-IsSound site gbp false (parsed left) (parsed right) k el er =
    inr (left, right, refl, k, el, er, weeks-Verdict left right)

-- Every answer either compares no day, or is given for eligible sources without a schedule that may
-- not be dropped, each without a conflict within itself, and is true of their weeks: a mismatch has a
-- day on which they differ, an exact match agrees on all seven days, a partial match on the compared
-- days, of which there are some and not all.
pub compare-IsSound :
    (site gbp : List Candidate) (eligible : Bool)
    → IsSound site gbp eligible (compare_candidates site gbp eligible)
unfolding compare_candidates
compare-IsSound site gbp false = inl (refl, refl, refl)
compare-IsSound site gbp true =
    if_either P (any (λ c. blocks c.classification c.label_missing) site)
      (λ _. inl (refl, refl, refl))
      (λ k.
        if_either P (is_empty (usable site) || is_empty gbp) (λ _. inl (refl, refl, refl))
          (λ _.
            if_either P (any (λ c. not (is_parsed c)) gbp) (λ _. inl (refl, refl, refl))
              (λ _. unions-IsSound site gbp (purposes_differ (usable site)) _ _ k refl refl)))
  where
    P : Comparison → Type 0
    P = IsSound site gbp true
