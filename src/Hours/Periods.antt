-- ===== src/Hours/Periods.antt =====
-- Periods of a day as pairs of minutes: sorting and merging, the last loop of `parse_week`.
pub mod Laws
pub mod Normal
use search_trust_rd.Prelude.{
  ℕ, Bool, true, false, ◌&&◌, ◌||◌, List, [], ◌∷◌, ltb, leb, ◌==◌, max, any, if◌then◌else◌,
}

abbrev pub Period : Type 0
Period = ℕ × ℕ

-- `[a, b] <= [c, d]` for lists
abbrev pub period_le : Period → Period → Bool
period_le (a, b) (c, d) = ltb a c || (a == c && leb b d)

unfoldable pub insert_period : Period → List Period → List Period
insert_period p [] = p ∷ []
insert_period p (q ∷ qs) =
    let rest = insert_period p qs in if period_le p q then p ∷ q ∷ qs else q ∷ rest

-- `sorted(ranges)`
unfoldable pub sort_periods : List Period → List Period
unfolding insert_period
sort_periods [] = []
sort_periods (p ∷ ps) = insert_period p (sort_periods ps)

-- The loop, with `merged[-1]` as [a, b]: what it appends from here on.
unfoldable pub merge_from : ℕ → ℕ → List Period → List Period
merge_from a b [] = (a, b) ∷ []
merge_from a b ((c, d) ∷ rest) =
    let joined = merge_from a (max d b) rest in
    let apart = (a, b) ∷ merge_from c d rest in if leb c b then joined else apart

abbrev pub merge_sorted : List Period → List Period
merge_sorted [] = []
merge_sorted ((a, b) ∷ rest) = merge_from a b rest

unfoldable pub merge_periods : List Period → List Period
unfolding sort_periods merge_from
merge_periods ps = merge_sorted (sort_periods ps)

-- A period holds its first minute and not its last.
abbrev pub holds : ℕ → Period → Bool
holds m (a, b) = leb a m && ltb m b

abbrev pub covers : ℕ → List Period → Bool
covers m ps = any (holds m) ps
