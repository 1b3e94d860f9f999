-- ===== src/Hours/Periods/Normal.antt =====
-- The normal form of periods: apart from one another and in order. Two normal forms that hold the
-- same minutes are the same list.
use search_trust_rd.Prelude.{
  ℕ, ◌≤◌, ◌<◌, ◌≡◌, refl, sym, subst, ◌∙◌, false, List, [], ◌∷◌, leb, max, arith, Bool-cases, inl,
  inr, All,
}
use search_trust_rd.Hours.Periods.{
  Period, period_le, insert_period, sort_periods, merge_from, merge_sorted, merge_periods, covers,
}
use search_trust_rd.Hours.Periods.Laws.{Ascending, lower, sort-Ascending, covers-merge}

-- a period that holds a minute
abbrev pub IsProper : Period → Type 0
IsProper (a, b) = a < b

-- Every period ends before the next one starts.
abbrev pub After : ℕ → List Period → Type 0
After p [] = Unit
After p ((a, b) ∷ ps) = (p < a) × (a < b) × After b ps

abbrev pub IsNormal : List Period → Type 0
IsNormal [] = Unit
IsNormal ((a, b) ∷ ps) = (a < b) × After b ps

insert-All :
    (P : Period → Type 0) (p : Period) (ps : List Period)
    → P p
    → All P ps
    → All P (insert_period p ps)
unfolding insert_period
insert-All P p [] h k = (h, tt)
insert-All P p (q ∷ ps) h k = elim (Bool-cases (period_le p q)) [
  | inl e ↦ rw e (h, k)
  | inr e ↦ rw e (k.0, insert-All P p ps h k.1)
]

sort-All : (P : Period → Type 0) (ps : List Period) → All P ps → All P (sort_periods ps)
unfolding sort_periods
sort-All P [] h = tt
sort-All P (p ∷ ps) h = insert-All P p (sort_periods ps) h.0 (sort-All P ps h.1)

-- After what precedes [a, b], the merged rest stays after it.
merge_from-After :
    (p a b : ℕ) (ps : List Period)
    → p < a
    → a < b
    → Ascending a ps
    → All IsProper ps
    → After p (merge_from a b ps)
unfolding merge_from
merge_from-After p a b [] l h s k = (l, h, tt)
merge_from-After p a b ((c, d) ∷ ps) l h s k = elim (Bool-cases (leb c b)) [
  | inl e ↦ rw e (merge_from-After p a (max d b) ps l (omega arith) (lower a c ps s.0 s.1) k.1)
  | inr e ↦ rw e (l, h, merge_from-After b c d ps (ground arith) k.0 s.1 k.1)
]

merge_from-IsNormal :
    (a b : ℕ) (ps : List Period)
    → a < b
    → Ascending a ps
    → All IsProper ps
    → IsNormal (merge_from a b ps)
unfolding merge_from
merge_from-IsNormal a b [] h s k = (h, tt)
merge_from-IsNormal a b ((c, d) ∷ ps) h s k = elim (Bool-cases (leb c b)) [
  | inl e ↦ rw e (merge_from-IsNormal a (max d b) ps (omega arith) (lower a c ps s.0 s.1) k.1)
  | inr e ↦ rw e (h, merge_from-After b c d ps (ground arith) k.0 s.1 k.1)
]

merge_sorted-IsNormal :
    (ps : List Period) → Ascending 0 ps → All IsProper ps → IsNormal (merge_sorted ps)
merge_sorted-IsNormal [] s k = tt
merge_sorted-IsNormal ((a, b) ∷ ps) s k = merge_from-IsNormal a b ps k.0 s.1 k.1

pub merge-IsNormal : (ps : List Period) → All IsProper ps → IsNormal (merge_periods ps)
unfolding merge_periods
merge-IsNormal ps h =
    merge_sorted-IsNormal (sort_periods ps) (sort-Ascending ps) (sort-All IsProper ps h)

-- Nothing is open before the first start.
closed_before : (p m : ℕ) (ps : List Period) → After p ps → m ≤ p → covers m ps ≡ false
closed_before p m [] h k = refl
closed_before p m ((a, b) ∷ ps) h k = ground (arith, closed_before b m ps h.2)

-- The minutes of the tails, given those of the whole lists with the same first period.
tail_minutes :
    (a b m : ℕ) (ps qs : List Period)
    → After b ps
    → After b qs
    → covers m ((a, b) ∷ ps) ≡ covers m ((a, b) ∷ qs)
    → covers m ps ≡ covers m qs
tail_minutes a b m ps qs h k e = ground (arith, closed_before b m ps h, closed_before b m qs k)

-- Two first periods are the same, if the lists hold the same minutes.
same_start :
    (a b c d : ℕ) (ps qs : List Period)
    → IsNormal ((a, b) ∷ ps)
    → IsNormal ((c, d) ∷ qs)
    → ((m : ℕ) → covers m ((a, b) ∷ ps) ≡ covers m ((c, d) ∷ qs))
    → a ≡ c
same_start a b c d ps qs h k e =
    ground (arith, e a, e c, closed_before b c ps h.1, closed_before d a qs k.1)

same_end :
    (a b d : ℕ) (ps qs : List Period)
    → IsNormal ((a, b) ∷ ps)
    → IsNormal ((a, d) ∷ qs)
    → ((m : ℕ) → covers m ((a, b) ∷ ps) ≡ covers m ((a, d) ∷ qs))
    → b ≡ d
same_end a b d ps qs h k e =
    ground (arith, e b, e d, closed_before b b ps h.1, closed_before d d qs k.1)

After-IsNormal : (p : ℕ) (ps : List Period) → After p ps → IsNormal ps
After-IsNormal p [] h = tt
After-IsNormal p ((a, b) ∷ ps) h = (h.1, h.2)

-- Two normal forms that hold the same minutes are the same list of periods.
pub IsNormal-unique :
    (ps qs : List Period)
    → IsNormal ps
    → IsNormal qs
    → ((m : ℕ) → covers m ps ≡ covers m qs)
    → ps ≡ qs
IsNormal-unique [] [] h k e = refl
IsNormal-unique [] ((c, d) ∷ qs) h k e = absurd (ground (arith, e c))
IsNormal-unique ((a, b) ∷ ps) [] h k e = absurd (ground (arith, e a))
IsNormal-unique ((a, b) ∷ ps) ((c, d) ∷ qs) h k e =
    let start = same_start a b c d ps qs h k e in
    let k' = subst (λ x. IsNormal ((x, d) ∷ qs)) (sym start) k in
    let e' = subst (λ x. (m : ℕ) → covers m ((a, b) ∷ ps) ≡ covers m ((x, d) ∷ qs)) (sym start) e in
    let end = same_end a b d ps qs h k' e' in
    let k'' = subst (λ x. IsNormal ((a, x) ∷ qs)) (sym end) k' in
    let e'' = subst (λ x. (m : ℕ) → covers m ((a, b) ∷ ps) ≡ covers m ((a, x) ∷ qs)) (sym end) e' in
    let tails =
      IsNormal-unique ps qs (After-IsNormal b ps h.1) (After-IsNormal b qs k''.1)
        (λ m. tail_minutes a b m ps qs h.1 k''.1 (e'' m)) in
    cc

-- Two lists of proper periods that hold the same minutes are merged to the same list, whatever their
-- order and their overlaps.
pub merge_unique :
    (ps qs : List Period)
    → All IsProper ps
    → All IsProper qs
    → ((m : ℕ) → covers m ps ≡ covers m qs)
    → merge_periods ps ≡ merge_periods qs
merge_unique ps qs h k e =
    IsNormal-unique (merge_periods ps) (merge_periods qs) (merge-IsNormal ps h)
      (merge-IsNormal qs k) (λ m. covers-merge m ps ∙ e m ∙ sym (covers-merge m qs))
