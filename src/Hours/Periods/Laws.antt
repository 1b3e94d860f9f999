-- ===== src/Hours/Periods/Laws.antt =====
-- Merging keeps the minutes that are open, and leaves the one normal form of them.
use search_trust_rd.Prelude.{
  ℕ, ◌≤◌, ◌≡◌, refl, ap, ◌∙◌, Bool, true, ◌||◌, List, [], ◌∷◌, leb, max, arith, Bool-cases, inl,
  inr,
}
use search_trust_rd.Hours.Periods.{
  Period, period_le, insert_period, sort_periods, merge_from, merge_sorted, merge_periods, holds,
  covers,
}

-- Starts that never fall.
abbrev pub Ascending : ℕ → List Period → Type 0
Ascending lo [] = Unit
Ascending lo ((a, b) ∷ ps) = (lo ≤ a) × Ascending a ps

covers-insert :
    (m : ℕ) (p : Period) (ps : List Period)
    → covers m (insert_period p ps) ≡ (holds m p || covers m ps)
unfolding insert_period
covers-insert m p [] = refl
covers-insert m (a, b) ((c, d) ∷ ps) = elim (Bool-cases (period_le (a, b) (c, d))) [
  | inl e ↦ rw e refl
  | inr e ↦ rw e (ground (arith, covers-insert m (a, b) ps))
]

covers-sort : (m : ℕ) (ps : List Period) → covers m (sort_periods ps) ≡ covers m ps
unfolding sort_periods
covers-sort m [] = refl
covers-sort m (p ∷ ps) =
    covers-insert m p (sort_periods ps) ∙ ap (λ b. holds m p || b) (covers-sort m ps)

insert-Ascending :
    (lo a b : ℕ) (ps : List Period)
    → lo ≤ a
    → Ascending lo ps
    → Ascending lo (insert_period (a, b) ps)
unfolding insert_period
insert-Ascending lo a b [] h k = (h, tt)
insert-Ascending lo a b ((c, d) ∷ ps) h k = elim (Bool-cases (period_le (a, b) (c, d))) [
  | inl e ↦ rw e (h, (ground arith, k.1))
  | inr e ↦ rw e (k.0, insert-Ascending c a b ps (ground arith) k.1)
]

pub sort-Ascending : (ps : List Period) → Ascending 0 (sort_periods ps)
unfolding sort_periods
sort-Ascending [] = tt
sort-Ascending ((a, b) ∷ ps) =
    insert-Ascending 0 a b (sort_periods ps) (omega arith) (sort-Ascending ps)

joined_covers :
    (m a b c d : ℕ) (rest : Bool)
    → a ≤ c
    → leb c b ≡ true
    → (holds m (a, max d b) || rest) ≡ (holds m (a, b) || (holds m (c, d) || rest))
joined_covers m a b c d rest h k = ground arith

pub lower : (a c : ℕ) (ps : List Period) → a ≤ c → Ascending c ps → Ascending a ps
lower a c [] h k = tt
lower a c ((e, f) ∷ ps) h k = (omega arith, k.1)

covers-merge_from :
    (m a b : ℕ) (ps : List Period)
    → Ascending a ps
    → covers m (merge_from a b ps) ≡ (holds m (a, b) || covers m ps)
unfolding merge_from
covers-merge_from m a b [] h = refl
covers-merge_from m a b ((c, d) ∷ ps) h = elim (Bool-cases (leb c b)) [
  | inl e ↦ rw e (
      covers-merge_from m a (max d b) ps (lower a c ps h.0 h.1)
      ∙ joined_covers m a b c d (covers m ps) h.0 e)
  | inr e ↦ rw e (ap (λ t. holds m (a, b) || t) (covers-merge_from m c d ps h.1))
]

covers-merge_sorted :
    (m : ℕ) (ps : List Period) → Ascending 0 ps → covers m (merge_sorted ps) ≡ covers m ps
covers-merge_sorted m [] h = refl
covers-merge_sorted m ((a, b) ∷ ps) h = covers-merge_from m a b ps h.1

-- A minute is open in the merged periods exactly when it is in the given ones.
pub covers-merge : (m : ℕ) (ps : List Period) → covers m (merge_periods ps) ≡ covers m ps
unfolding merge_periods
covers-merge m ps = covers-merge_sorted m (sort_periods ps) (sort-Ascending ps) ∙ covers-sort m ps
