-- ===== src/Plan/Candidates/Grouped.antt =====
-- The candidates share out the findings: no finding is lost, none is in two candidates.
use mathlib.Core.List.{Perm, perm_middle, perm_append_singleton, perm_append_comm, append_assoc}
use mathlib.Core.List.Perm
use search_trust_rd.Prelude.{
  ℕ, ◌≡◌, sym, subst, All, ◌&&◌, Option, List, [], ◌∷◌, ◌++◌, arith, Bool-cases, inl, inr,
}
use search_trust_rd.Plan.Sorting.{sort_by, insert_by, tuple_lt, sort_by-perm}
use search_trust_rd.Plan.Findings.{Finding, SourceType, TemplateKey, is_template}
use search_trust_rd.Plan.Outcome.{ok, >>=-eq-ok}
use search_trust_rd.Plan.Candidates.{
  Texts, PublicActionLimits, Group, entries, ActionCandidate, group_key, same_page_type, join_group,
  group_findings, finding_key, build_candidate, build_each,
}

-- The lists that a function gives for the elements, one after another.
abbrev pub gather {ℓ κ} : {A : Type ℓ} {B : Type κ} → (A → List B) → List A → List B
gather h [] = []
gather h (x ∷ xs) = h x ++ gather h xs

module _ {ℓ κ} {A : Type ℓ} {B : Type κ} (h : A → List B) where
  perm_exchange : (a b c : List B) → Perm (a ++ (b ++ c)) (b ++ (a ++ c))
  perm_exchange a b c =
      subst (λ l. Perm l (b ++ (a ++ c))) (append_assoc a b c)
        (subst (Perm (a ++ b ++ c)) (append_assoc b a c)
          (Perm.append_right c (perm_append_comm a b)))

  insert_by-gather :
      (key : A → List ℕ) (x : A) (xs : List A)
      → Perm (gather h (insert_by key x xs)) (h x ++ gather h xs)
  unfolding insert_by
  insert_by-gather key x [] = Perm.rfl
  insert_by-gather key x (y ∷ ys) = elim (Bool-cases (tuple_lt (key y) (key x))) [
    | inl e ↦ rw e (
        Perm.trans (Perm.append_left (h y) (insert_by-gather key x ys))
          (perm_exchange (h y) (h x) (gather h ys)))
    | inr e ↦ rw e Perm.rfl
  ]

  pub sort_by-gather :
      (key : A → List ℕ) (xs : List A) → Perm (gather h (sort_by key xs)) (gather h xs)
  unfolding sort_by
  sort_by-gather key [] = Perm.rfl
  sort_by-gather key (x ∷ xs) =
      Perm.trans (insert_by-gather key x (sort_by key xs))
        (Perm.append_left (h x) (sort_by-gather key xs))

join_group-perm :
    (k : TemplateKey) (p : Option ℕ) (f : Finding) (gs : List Group)
    → Perm (gather entries (join_group k p f gs)) (f ∷ gather entries gs)
unfolding join_group
join_group-perm k p f [] = Perm.rfl
join_group-perm k p f (g ∷ gs) =
    elim (Bool-cases (is_template k g.template && same_page_type g.group_page_type p)) [
      | inl e ↦ rw e (Perm.append_right (gather entries gs) (perm_append_singleton f (entries g)))
      | inr e ↦ rw e (
          Perm.trans (Perm.append_left (entries g) (join_group-perm k p f gs))
            (perm_middle (entries g) (gather entries gs)))
    ]

pub group_findings-perm :
    (fs : List Finding) (gs : List Group) {groups : List Group}
    → group_findings fs gs ≡ ok groups
    → Perm (gather entries groups) (fs ++ gather entries gs)
unfolding group_findings
group_findings-perm [] gs e =
    let same : gs ≡ _ = cc in subst (λ l. Perm (gather entries l) (gather entries gs)) same Perm.rfl
group_findings-perm (f ∷ fs) gs e =
    let (key, found, rest) = >>=-eq-ok (group_key f) _ e in
    Perm.trans (group_findings-perm fs (join_group key.0 key.1 f gs) rest) (
      Perm.trans (Perm.append_left fs (join_group-perm key.0 key.1 f gs))
        (perm_middle fs (gather entries gs)))

-- What a built candidate takes from its group.
pub record IsBuiltFrom (g : Group) (c : ActionCandidate) : Type 0 where
  pub same_findings : c.findings ≡ sort_by finding_key (entries g)
  pub no_dependencies : c.dependencies ≡ []

build_candidate-IsBuiltFrom :
    (texts : Texts) (limits : PublicActionLimits) (home : ℕ) (source : ℕ → SourceType) (g : Group)
    {c : ActionCandidate}
    → build_candidate texts limits home source g ≡ ok c
    → IsBuiltFrom g c
unfolding build_candidate
build_candidate-IsBuiltFrom texts limits home source g e = record {
  same_findings = ground arith;
  no_dependencies = ground arith;
}

abbrev pub HasNoDependencies : List ActionCandidate → Type 0
HasNoDependencies = All (λ (c : ActionCandidate). c.dependencies ≡ [])

abbrev pub findings_in : List ActionCandidate → List Finding
findings_in = gather (λ (c : ActionCandidate). c.findings)

pub build_each-perm :
    (texts : Texts) (limits : PublicActionLimits) (home : ℕ) (source : ℕ → SourceType)
    (gs : List Group) {cs : List ActionCandidate}
    → build_each texts limits home source gs ≡ ok cs
    → HasNoDependencies cs × Perm (findings_in cs) (gather entries gs)
unfolding build_each
build_each-perm texts limits home source [] e =
    let same : [] ≡ _ = cc in
    subst (λ l. HasNoDependencies l × Perm (findings_in l) []) same (tt, Perm.rfl)
build_each-perm texts limits home source (g ∷ gs) e =
    let (c, built, e1) = >>=-eq-ok (build_candidate texts limits home source g) _ e in
    let (cs, rest, e2) = >>=-eq-ok (build_each texts limits home source gs) _ e1 in
    let same : c ∷ cs ≡ _ = cc in
    let from = build_candidate-IsBuiltFrom texts limits home source g built in
    let ih = build_each-perm texts limits home source gs rest in
    subst (λ l. HasNoDependencies l × Perm (findings_in l) (gather entries (g ∷ gs))) same
      (
        (from.no_dependencies, ih.0),
        subst (λ l. Perm (l ++ findings_in cs) (entries g ++ gather entries gs))
            (sym from.same_findings) (Perm.append (sort_by-perm finding_key (entries g)) ih.1),
      )
