-- ===== src/Diff/Changes.antt =====
-- The changes of a report: the two loops of `build_version_diff` in app/report_v22/version_diff.py,
-- over the findings of the parent report and over the new findings. An entry and its audit entry
-- are one record.
use search_trust_rd.Prelude.{
  ℕ, Bool, true, not, ◌&&◌, Option, none, some, List, [], ◌∷◌, ◌++◌, map, all, if◌then◌else◌,
  is_some,
}
use search_trust_rd.Plan.Sorting.{sort_by}
use search_trust_rd.Plan.Targets.{has}
use search_trust_rd.Diff.Sources.{
  Checked, refused, checked, ◌>>=◌, diff_reference_invalid, FindingRef, same_ref, has_ref,
  FindingRelation, RelationKind, supports, reduces_urgency, is_kind, ParentFinding, NewFinding,
  OldCandidate, RankedAction, finding_evidence,
}
use search_trust_rd.Diff.Relations.{
  EvaluationKind, Normal, relations_of, Positions, position, moved, is_action, decision_relations,
  candidate_of, owned_finding_ids,
}

pub data ChangeType : Type 0 where
  refined reprioritized confirmed new_change : ChangeType

pub data ReasonCode : Type 0 where
  refined_by_reliable_growth reprioritized_by_verified_action_order : ReasonCode
  reprioritized_by_measurement_gate confirmed_by_verified_evidence new_verified_finding : ReasonCode

pub data EvidenceBasis : Type 0 where
  direct_relation ranking_boundary parent_fallback new_finding : EvidenceBasis

-- What the loops read.
pub record DiffInput : Type 0 where
  pub parents : List ParentFinding
  pub public_ruleset : ℕ
  pub new_by_ref : List NewFinding
  pub known_evidence : List ℕ
  pub relations : List FindingRelation
  pub candidates : List OldCandidate
  pub kind_of : FindingRef → EvaluationKind
  pub normal : Normal
  pub old_position : Positions
  pub new_position : Positions
  pub actions : List RankedAction
  pub max_current_findings : ℕ
  pub max_evidence : ℕ
  pub max_entries : ℕ
  pub max_audit_entries : ℕ

pub record DiffRecord : Type 0 where
  pub order : List ℕ
  pub change_type : ChangeType
  pub previous : Option ℕ
  pub current_refs : List FindingRef
  pub relation_ids : List ℕ
  pub action_id : Option ℕ
  pub reason : ReasonCode
  pub issue_codes : List ℕ
  pub evidence_ids : List ℕ
  pub basis : EvidenceBasis

-- every owned finding is one of the parent's
unfoldable pub owned_known : DiffInput → List FindingRelation → Bool
unfolding candidate_of owned_finding_ids
owned_known input [] = true
owned_known input (r ∷ rs) =
    let rest = owned_known input rs in
    elim (candidate_of r.candidate_key input.candidates) [
      | none ↦ rest
      | some c ↦
          all (λ i. has i (map (λ (f : ParentFinding). f.finding_id) input.parents))
            (owned_finding_ids input.normal c r (input.kind_of r.finding_ref))
          && rest
    ]

unfoldable pub candidates_with : ℕ → List OldCandidate → List OldCandidate
candidates_with i [] = []
candidates_with i (c ∷ cs) =
    let rest = candidates_with i cs in if has i c.finding_ids then c ∷ rest else rest

-- `next(item for item in candidates_for_finding if …)`
unfoldable pub first_moved : Positions → Positions → List OldCandidate → Option OldCandidate
unfolding position
first_moved old current [] = none
first_moved old current (c ∷ cs) =
    if moved old current c.action_id then some c else first_moved old current cs

unfoldable pub first_of_action : Option ℕ → List OldCandidate → Option OldCandidate
first_of_action i [] = none
first_of_action i (c ∷ cs) = if is_action c.action_id i then some c else first_of_action i cs

unfoldable pub of_kind : RelationKind → List FindingRelation → List FindingRelation
of_kind k [] = []
of_kind k (r ∷ rs) = let rest = of_kind k rs in if is_kind k r.relation_kind then r ∷ rest else rest

abbrev pub or_else {ℓ} : {A : Type ℓ} → Option A → Option A → Option A
or_else none b = b
or_else (some a) b = some a

pub record ChangeDecision : Type 0 where
  pub change_type : ChangeType
  pub reason : ReasonCode
  pub selected : List FindingRelation
  pub candidate : Option OldCandidate

abbrev pub direct_or : List FindingRelation → List FindingRelation → List FindingRelation
direct_or [] decision = decision
direct_or (r ∷ rs) decision = r ∷ rs

-- The `elif changed_candidate is not None` and what follows it.
unfoldable pub decide_unrefined :
    DiffInput
    → List FindingRelation
    → List OldCandidate
    → Option OldCandidate
    → Option ChangeDecision
unfolding decision_relations of_kind first_of_action
decide_unrefined input direct cs (some c) = some record {
  change_type = reprioritized;
  reason = reprioritized_by_verified_action_order;
  selected =
      direct_or direct
        (decision_relations input.old_position input.new_position c.action_id input.relations);
  candidate = some c;
}
decide_unrefined input direct cs none = elim (of_kind supports direct) [
  | [] ↦ none
  | r ∷ rs ↦ some record {
    change_type = confirmed;
    reason = confirmed_by_verified_evidence;
    selected = r ∷ rs;
    candidate = first_of_action r.action_id cs;
  }
]

-- Which branch a finding takes; `none` is the last, which leaves it unchanged.
unfoldable pub decide : DiffInput → List FindingRelation → List OldCandidate → Option ChangeDecision
unfolding of_kind first_moved first_of_action decide_unrefined
decide input direct cs =
    let changed = first_moved input.old_position input.new_position cs in
    elim (of_kind reduces_urgency direct) [
      | [] ↦ decide_unrefined input direct cs changed
      | r ∷ rs ↦ some record {
        change_type = refined;
        reason = refined_by_reliable_growth;
        selected = r ∷ rs;
        candidate = or_else changed (first_of_action r.action_id cs);
      }
    ]

abbrev pub relation_key : FindingRelation → List ℕ
relation_key r = r.relation_id ∷ []

abbrev pub candidate_order : OldCandidate → List ℕ
candidate_order c = c.candidate_key ∷ []

abbrev pub direct_relations : DiffInput → ℕ → List FindingRelation
direct_relations input i =
    sort_by relation_key
      (relations_of input.normal input.kind_of input.candidates i input.relations)

abbrev pub decision_of : DiffInput → ParentFinding → Option ChangeDecision
decision_of input f =
    decide input (direct_relations input f.finding_id)
      (sort_by candidate_order (candidates_with f.finding_id input.candidates))

-- `new_by_ref[key]`
unfoldable pub lookup_ref : FindingRef → List NewFinding → Option NewFinding
lookup_ref r [] = none
lookup_ref r (n ∷ ns) = if same_ref n.ref r then some n else lookup_ref r ns

abbrev pub is_unseen : List NewFinding → List FindingRef → FindingRef → Bool
is_unseen news seen r = is_some (lookup_ref r news) && not (has_ref r seen)

-- The references of the selected relations that are new findings, each once; `seen` has those
-- that are taken.
unfoldable pub known_refs :
    List NewFinding → List FindingRef → List FindingRelation → List FindingRef
unfolding lookup_ref
known_refs news seen [] = []
known_refs news seen (r ∷ rs) =
    let rest =
      known_refs news (if is_unseen news seen r.finding_ref then r.finding_ref ∷ seen else seen)
        rs in
    if is_unseen news seen r.finding_ref then r.finding_ref ∷ rest else rest

abbrev pub evidence_of : DiffInput → Option NewFinding → Checked (List ℕ)
evidence_of input none = refused diff_reference_invalid
evidence_of input (some n) = finding_evidence n.evidence_ids n.comparator_ids input.known_evidence

unfoldable pub evidence_of_refs : DiffInput → List FindingRef → Checked (List ℕ)
unfolding finding_evidence lookup_ref
evidence_of_refs input [] = checked []
evidence_of_refs input (r ∷ rs) = evidence_of input (lookup_ref r input.new_by_ref) >>= λ ids.
    evidence_of_refs input rs >>= λ others. checked (ids ++ others)
