-- ===== src/Plan/Groups.antt =====
-- The groups of findings that become candidate actions, and the ranks of findings: `_group_key`,
-- `_finding_rank`, and the grouping in `_build_candidates` of app/report_v22/actions.py. A negated
-- rank is written as its distance from the highest one, which keeps the order of tuples.
use search_trust_rd.Prelude.{
  ℕ, ◌+◌, ◌-◌, Bool, true, false, ◌&&◌, Option, none, some, List, [], ◌∷◌, ◌++◌, ◌==◌,
  if◌then◌else◌, length, min,
}
use search_trust_rd.Plan.Sorting.{sort_by}
use search_trust_rd.Plan.Findings.{
  Finding, severity_rank, confidence_rank, classification_rank, TemplateKey, template_index,
  is_template, rule_template, is_asset,
}
use search_trust_rd.Plan.Outcome.{Outcome, ok, raised, ◌>>=◌, reference_invalid}
use search_trust_rd.Plan.Targets.{distinct}

-- A group of findings has at least one.
pub record Group : Type 0 where
  pub template : TemplateKey
  pub group_page_type : Option ℕ
  pub first : Finding
  pub others : List Finding

abbrev pub entries : Group → List Finding
entries g = g.first ∷ g.others

-- `_group_key`
abbrev pub group_key : Finding → Outcome (TemplateKey × Option ℕ)
group_key f =
    if is_asset f.rule
    then (elim f.page_type [
      | none ↦ raised reference_invalid
      | some p ↦ ok (rule_template f.rule, some p)
    ])
    else ok (rule_template f.rule, none)

abbrev pub same_page_type : Option ℕ → Option ℕ → Bool
same_page_type none none = true
same_page_type (some p) (some q) = p == q
same_page_type _ _ = false

-- `groups.setdefault(…)` and the `append` to the entries
unfoldable pub join_group : TemplateKey → Option ℕ → Finding → List Group → List Group
join_group k p f [] = record { template = k; group_page_type = p; first = f; others = [] } ∷ []
join_group k p f (g ∷ gs) =
    if is_template k g.template && same_page_type g.group_page_type p
    then record g { others = g.others ++ f ∷ [] } ∷ gs
    else g ∷ join_group k p f gs

-- The loop over the findings.
unfoldable pub group_findings : List Finding → List Group → Outcome (List Group)
unfolding join_group
group_findings [] groups = ok groups
group_findings (f ∷ fs) groups =
    group_key f >>= λ key. group_findings fs (join_group key.0 key.1 f groups)

abbrev pub finding_key : Finding → List ℕ
finding_key f = f.finding_id ∷ []

-- The order of the groups' keys: a page type follows the key of its template.
abbrev pub group_order : Group → List ℕ
group_order g = template_index g.template ∷ elim g.group_page_type [ none ↦ 0 | some p ↦ p ] ∷ []

-- `_finding_rank`
abbrev pub finding_rank : Finding → List ℕ
finding_rank f =
    (4 - severity_rank f.severity)
    ∷ (3 - confidence_rank f.confidence)
    ∷ (3 - classification_rank f.classification)
    ∷ (11
        - (min (length (distinct f.affected_urls)) 5
            + min (length (distinct f.affected_queries)) 5
            + 1))
    ∷ f.finding_id
    ∷ []

unfoldable pub urls_of : List Finding → List ℕ
urls_of [] = []
urls_of (f ∷ fs) = f.affected_urls ++ urls_of fs

unfoldable pub queries_of : List Finding → List ℕ
queries_of [] = []
queries_of (f ∷ fs) = f.affected_queries ++ queries_of fs

-- the head of a list that is known to have one
abbrev pub first_or {ℓ} : {A : Type ℓ} → A → List A → A
first_or a [] = a
first_or a (x ∷ xs) = x

-- The first part of `_candidate_priority`.
unfoldable pub anchor_of : Group → Finding
unfolding sort_by
anchor_of g = first_or g.first (sort_by finding_rank (entries g))
