-- ===== src/Hours/Compare/Laws.antt =====
-- What a comparison's verdict says of the published days.
use search_trust_rd.Prelude.{
  ℕ, suc, ◌≤◌, ◌<◌, ◌≡◌, ◌≢◌, refl, sym, ap, subst, ◌∙◌, Bool, true, false, ◌&&◌, ◌||◌, not, Option,
  none, some, List, [], ◌∷◌, ◌==◌, ==_iff, any, length, is_some, arith, Bool-cases, inl, inr, All,
}
use search_trust_rd.Hours.Periods.{Period}
use search_trust_rd.Hours.Week.{Days, lookup_day, same_periods, is_empty}
use search_trust_rd.Hours.Week.Explicit.{same_periods-eq}
use search_trust_rd.Hours.Compare.{
  ComparisonState, not_checked, mismatch, exact_match, partial_match, all_days, common_days,
  periods_or, differ_on, compare_weeks,
}

-- Both weeks have the same periods on a day.
abbrev pub AgreeOn : Days → Days → ℕ → Type 0
AgreeOn left right d =
    (ps : List Period) × (lookup_day d left ≡ some ps) × (lookup_day d right ≡ some ps)

-- Both weeks have a day, with different periods.
abbrev pub DifferOn : Days → Days → ℕ → Type 0
DifferOn left right d =
    (ps : List Period) × (qs : List Period) × (lookup_day d left ≡ some ps)
    × (lookup_day d right ≡ some qs)
    × (ps ≢ qs)

same_periods_refl : (ps : List Period) → same_periods ps ps ≡ true
same_periods_refl [] = refl
same_periods_refl ((a, b) ∷ ps) = ground (arith, same_periods_refl ps)

-- The verdict on one day that both weeks have.
agree_or :
    (left right : Days) (d : ℕ) (l r : Option (List Period))
    → lookup_day d left ≡ l
    → lookup_day d right ≡ r
    → (is_some l && is_some r) ≡ true
    → not (same_periods (periods_or l) (periods_or r)) ≡ false
    → AgreeOn left right d
agree_or left right d none r el er h k = absurd (ground arith)
agree_or left right d (some ps) none el er h k = absurd (ground arith)
agree_or left right d (some ps) (some qs) el er h k =
    (ps, el, er ∙ ap some (sym (same_periods-eq ps qs (ground arith))))

differ_or :
    (left right : Days) (d : ℕ) (l r : Option (List Period))
    → lookup_day d left ≡ l
    → lookup_day d right ≡ r
    → (is_some l && is_some r) ≡ true
    → not (same_periods (periods_or l) (periods_or r)) ≡ true
    → DifferOn left right d
differ_or left right d none r el er h k = absurd (ground arith)
differ_or left right d (some ps) none el er h k = absurd (ground arith)
differ_or left right d (some ps) (some qs) el er h k = (ps, qs, el, er, λ e. unequal ps qs k e)
  where
    unequal : (ps qs : List Period) → not (same_periods ps qs) ≡ true → ps ≡ qs → ⊥
    unequal ps qs h e = absurd_of (rw (e, same_periods_refl qs) at h)
      where
        absurd_of : false ≡ true → ⊥
        absurd_of h = cc

agree-All :
    (left right : Days) (ds : List ℕ)
    → any (differ_on left right) (common_days left right ds) ≡ false
    → All (AgreeOn left right) (common_days left right ds)
unfolding common_days
agree-All left right [] h = tt
agree-All left right (d ∷ ds) h =
    elim (Bool-cases (is_some (lookup_day d left) && is_some (lookup_day d right))) [
      | inr e ↦ rw e (agree-All left right ds (rw e at h))
      | inl e ↦
          let (here, later) = or_false (differ_on left right d) _ (rw e at h) in
          rw e (agree_or left right d _ _ refl refl e here, agree-All left right ds later)
    ]
  where
    or_false : (a b : Bool) → (a || b) ≡ false → (a ≡ false) × (b ≡ false)
    or_false a b h = ground arith

some_differ :
    (left right : Days) (ds : List ℕ)
    → any (differ_on left right) (common_days left right ds) ≡ true
    → (d : ℕ) × DifferOn left right d
unfolding common_days
some_differ left right [] h = cc
some_differ left right (d ∷ ds) h =
    elim (Bool-cases (is_some (lookup_day d left) && is_some (lookup_day d right))) [
      | inr e ↦ some_differ left right ds (rw e at h)
      | inl e ↦ elim (Bool-cases (differ_on left right d)) [
        | inl yes_here ↦ (d, differ_or left right d _ _ refl refl e yes_here)
        | inr not_here ↦ some_differ left right ds (rw not_here at (rw e at h))
      ]
    ]

common-length : (left right : Days) (ds : List ℕ) → length (common_days left right ds) ≤ length ds
unfolding common_days
common-length left right [] = omega arith
common-length left right (d ∷ ds) =
    elim (Bool-cases (is_some (lookup_day d left) && is_some (lookup_day d right))) [
      | inl e ↦ rw e (omega (arith, common-length left right ds))
      | inr e ↦ rw e (omega (arith, common-length left right ds))
    ]

-- As many common days as days are all of them.
common_full :
    (left right : Days) (ds : List ℕ)
    → length (common_days left right ds) ≡ length ds
    → common_days left right ds ≡ ds
unfolding common_days
common_full left right [] h = refl
common_full left right (d ∷ ds) h =
    elim (Bool-cases (is_some (lookup_day d left) && is_some (lookup_day d right))) [
      | inl e ↦ rw e (ap (◌∷◌ d) (common_full left right ds (down (rw e at h))))
      | inr e ↦ absurd (over (rw e at h) (common-length left right ds))
    ]
  where
    down : {a b : ℕ} → suc a ≡ suc b → a ≡ b
    down h = omega arith

    over : {a b : ℕ} → a ≡ suc b → a ≤ b → ⊥
    over h k = omega arith

-- What a verdict says of two weeks, with the days compared.
abbrev pub Verdict : ComparisonState → List ℕ → Days → Days → Type 0
Verdict not_checked ds left right = ds ≡ []
Verdict mismatch ds left right = (d : ℕ) × DifferOn left right d
Verdict exact_match ds left right = All (AgreeOn left right) all_days
Verdict partial_match ds left right =
    All (AgreeOn left right) ds × (0 < length ds) × (length ds < 7)

-- When two weeks are compared, the verdict is true of them.
pub weeks-Verdict :
    (left right : Days)
    → Verdict (compare_weeks left right).state (compare_weeks left right).compared_days left right
unfolding compare_weeks
weeks-Verdict left right =
    let common = common_days left right all_days in
    elim (Bool-cases (is_empty common)) [
      | inl none_left ↦ rw none_left refl
      | inr e ↦ elim (Bool-cases (any (differ_on left right) common)) [
        | inl k ↦ rw (e, k) (some_differ left right all_days k)
        | inr k ↦ elim (Bool-cases (length common == 7)) [
          | inl full ↦
              rw (e, k, full)
                (subst (All (AgreeOn left right))
                  (common_full left right all_days ((==_iff _ _).0 full))
                  (agree-All left right all_days k))
          | inr part ↦
              rw (e, k, part)
                (
                  agree-All left right all_days k,
                  filled common e,
                  fewer (length common) (common-length left right all_days) part,
                )
        ]
      ]
    ]
  where
    filled : (ds : List ℕ) → is_empty ds ≡ false → 0 < length ds
    filled [] h = absurd (ground arith)
    filled (d ∷ ds) h = omega arith

    fewer : (n : ℕ) → n ≤ 7 → (n == 7) ≡ false → n < 7
    fewer n h k = ground arith
