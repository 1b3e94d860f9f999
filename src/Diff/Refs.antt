-- ===== src/Diff/Refs.antt =====
-- References in lists: what sorting, joining and removing repeats leave of them.
use mathlib.Core.List.{append_assoc}
use search_trust_rd.Prelude.{
  ℕ, ◌≡◌, refl, sym, ◌∙◌, ap, true, ◌||◌, none, some, List, [], ◌∷◌, ◌++◌, map, arith, is_some,
  Bool-cases, inl, inr,
}
use search_trust_rd.Plan.Sorting.{sort_by, insert_by, tuple_lt}
use search_trust_rd.Plan.Candidates.Grouped.{gather}
use search_trust_rd.Diff.Sources.{
  Checked, refused, checked, ◌>>=◌, FindingRef, same_ref, has_ref, ParentFinding, NewFinding,
}
use search_trust_rd.Diff.Changes.{DiffRecord, lookup_ref}
use search_trust_rd.Diff.Loops.{distinct_refs}

pub >>=-eq-checked :
    {A B : Type 0} (first : Checked A) (next : A → Checked B) {result : B}
    → (first >>= next) ≡ checked result
    → (value : A) × (first ≡ checked value) × (next value ≡ checked result)
>>=-eq-checked (refused error) next ended = cc
>>=-eq-checked (checked value) next ended = (value, refl, ended)

abbrev pub after_first : List FindingRef → List FindingRef
after_first [] = []
after_first (r ∷ rs) = rs

-- The finding of the parent report that an entry is about.
abbrev pub previous_of : DiffRecord → List ℕ
previous_of r = elim r.previous [ none ↦ [] | some i ↦ i ∷ [] ]

-- The new finding that an entry is about.
abbrev pub added_of : DiffRecord → List FindingRef
added_of r = elim r.previous [ none ↦ r.current_refs | some i ↦ [] ]

-- The verified findings that an entry about a finding of the parent cites, after that finding's own
-- reference.
abbrev pub cited_of : DiffRecord → List FindingRef
cited_of r = elim r.previous [ none ↦ [] | some i ↦ after_first r.current_refs ]

abbrev pub parent_ids : List ParentFinding → List ℕ
parent_ids = map (λ (f : ParentFinding). f.finding_id)

abbrev pub refs_in : List NewFinding → List FindingRef
refs_in = map (λ (n : NewFinding). n.ref)

pub gather-append {ℓ κ} :
    {A : Type ℓ} {B : Type κ} (h : A → List B) (xs ys : List A)
    → gather h (xs ++ ys) ≡ gather h xs ++ gather h ys
gather-append h [] ys = refl
gather-append h (x ∷ xs) ys = rw (gather-append h xs ys) (sym (append_assoc (h x) _ _))

pub same_ref_eq : (a b x : FindingRef) → same_ref a b ≡ true → same_ref x a ≡ same_ref x b
same_ref_eq a b x h = ground arith

pub has_ref_eq :
    (a b : FindingRef) (l : List FindingRef) → same_ref a b ≡ true → has_ref a l ≡ has_ref b l
has_ref_eq a b [] h = refl
has_ref_eq a b (x ∷ l) h = rw (same_ref_eq a b x h, has_ref_eq a b l h)

pub has_ref-append :
    (r : FindingRef) (l m : List FindingRef) → has_ref r (l ++ m) ≡ (has_ref r l || has_ref r m)
has_ref-append r [] m = refl
has_ref-append r (x ∷ l) m = ground (arith, has_ref-append r l m)

pub has_ref-insert_by :
    (key : FindingRef → List ℕ) (r x : FindingRef) (l : List FindingRef)
    → has_ref r (insert_by key x l) ≡ (same_ref x r || has_ref r l)
unfolding insert_by
has_ref-insert_by key r x [] = refl
has_ref-insert_by key r x (y ∷ l) = ground (arith, has_ref-insert_by key r x l)

pub has_ref-sort_by :
    (key : FindingRef → List ℕ) (r : FindingRef) (l : List FindingRef)
    → has_ref r (sort_by key l) ≡ has_ref r l
unfolding sort_by
has_ref-sort_by key r [] = refl
has_ref-sort_by key r (x ∷ l) =
    has_ref-insert_by key r x (sort_by key l) ∙ ap (same_ref x r ||◌) (has_ref-sort_by key r l)

has_ref-gather-insert_by {ℓ} :
    {A : Type ℓ} (h : A → List FindingRef) (key : A → List ℕ) (r : FindingRef) (x : A) (l : List A)
    → has_ref r (gather h (insert_by key x l)) ≡ (has_ref r (h x) || has_ref r (gather h l))
unfolding insert_by
has_ref-gather-insert_by h key r x [] = has_ref-append r (h x) []
has_ref-gather-insert_by h key r x (y ∷ l) = elim (Bool-cases (tuple_lt (key y) (key x))) [
  | inl e ↦ rw e (
      ground (
        arith,
        has_ref-append r (h y) (gather h (insert_by key x l)),
        has_ref-append r (h y) (gather h l),
        has_ref-gather-insert_by h key r x l,
      ))
  | inr e ↦ rw e (has_ref-append r (h x) (gather h (y ∷ l)))
]

-- Sorting the entries leaves what they cite.
pub has_ref-gather-sort_by {ℓ} :
    {A : Type ℓ} (h : A → List FindingRef) (key : A → List ℕ) (r : FindingRef) (l : List A)
    → has_ref r (gather h (sort_by key l)) ≡ has_ref r (gather h l)
unfolding sort_by
has_ref-gather-sort_by h key r [] = refl
has_ref-gather-sort_by h key r (x ∷ l) =
    has_ref-gather-insert_by h key r x (sort_by key l)
    ∙ ap (has_ref r (h x) ||◌) (has_ref-gather-sort_by h key r l)
    ∙ sym (has_ref-append r (h x) (gather h l))

pub has_ref-distinct_refs :
    (r : FindingRef) (l : List FindingRef) → has_ref r (distinct_refs l) ≡ has_ref r l
unfolding distinct_refs
has_ref-distinct_refs r [] = refl
has_ref-distinct_refs r (x ∷ l) = ground (arith, has_ref-distinct_refs r l, has_ref_eq x r l)

pub lookup_ref_has :
    (r : FindingRef) (ns : List NewFinding) → is_some (lookup_ref r ns) ≡ has_ref r (refs_in ns)
unfolding lookup_ref
lookup_ref_has r [] = refl
lookup_ref_has r (n ∷ ns) = ground (arith, lookup_ref_has r ns)
