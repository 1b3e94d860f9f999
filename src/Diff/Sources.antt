-- ===== src/Diff/Sources.antt =====
-- What `build_version_diff` of app/report_v22/version_diff.py compares: the findings of the parent
-- report, the new findings by their references, the relations and the actions. A text or an
-- identifier is a number, its place among the others.
use search_trust_rd.Prelude.{
  ℕ, Bool, ◌&&◌, Option, List, [], ◌∷◌, ◌++◌, ◌==◌, any, all, if◌then◌else◌,
}
use search_trust_rd.Plan.Targets.{ActionTarget, has, distinct, sorted_ids}

pub data DiffError : Type 0 where
  diff_reference_invalid diff_limit_exceeded : DiffError

pub data Checked (A : Type 0) : Type 0 where
  refused : DiffError → Checked A
  checked : A → Checked A

infixl 5 ◌>>=◌
abbrev pub ◌>>=◌ : {A B : Type 0} → Checked A → (A → Checked B) → Checked B
◌>>=◌ (refused error) next = refused error
◌>>=◌ (checked value) next = next value

-- The three stages of FindingOrigin, in their order.
pub data FindingOrigin : Type 0 where
  cross_source_findings first_party_findings public_findings : FindingOrigin

abbrev pub origin_index : FindingOrigin → ℕ
origin_index cross_source_findings = 0
origin_index first_party_findings = 1
origin_index public_findings = 2

-- QualifiedFindingRef
pub record FindingRef : Type 0 where
  pub origin_stage : FindingOrigin
  pub ruleset_version : ℕ
  pub finding_id : ℕ

abbrev pub ref_key : FindingRef → List ℕ
ref_key r = origin_index r.origin_stage ∷ r.ruleset_version ∷ r.finding_id ∷ []

abbrev pub same_ref : FindingRef → FindingRef → Bool
same_ref a b =
    origin_index a.origin_stage == origin_index b.origin_stage
    && a.ruleset_version == b.ruleset_version
    && a.finding_id == b.finding_id

abbrev pub has_ref : FindingRef → List FindingRef → Bool
has_ref r l = any (λ x. same_ref x r) l

pub data RelationKind : Type 0 where
  supports reduces_urgency measurement_conflict unmatched : RelationKind

abbrev pub relation_index : RelationKind → ℕ
relation_index supports = 0
relation_index reduces_urgency = 1
relation_index measurement_conflict = 2
relation_index unmatched = 3

abbrev pub is_kind : RelationKind → RelationKind → Bool
is_kind a b = relation_index a == relation_index b

pub record FindingRelation : Type 0 where
  pub relation_id : ℕ
  pub finding_ref : FindingRef
  pub relation_kind : RelationKind
  pub candidate_key : Option ℕ
  pub action_id : Option ℕ
  pub target_key : ℕ

-- A finding of the parent report.
pub record ParentFinding : Type 0 where
  pub finding_id : ℕ
  pub evidence_ids : List ℕ
  pub comparator_ids : List ℕ

-- A value of `new_by_ref`, with its key.
pub record NewFinding : Type 0 where
  pub ref : FindingRef
  pub rule_id : ℕ
  pub evidence_ids : List ℕ
  pub comparator_ids : List ℕ

-- A candidate of the public plan.
pub record OldCandidate : Type 0 where
  pub candidate_key : ℕ
  pub action_id : ℕ
  pub targets : List ActionTarget
  pub finding_ids : List ℕ

-- A ranked action; a measurement action has its issue codes.
pub record RankedAction : Type 0 where
  pub action_id : ℕ
  pub issue_codes : Option (List ℕ)
  pub is_repair : Bool

-- `_finding_evidence`
unfoldable pub finding_evidence : List ℕ → List ℕ → List ℕ → Checked (List ℕ)
unfolding sorted_ids distinct
finding_evidence evidence_ids comparator_ids known =
    elim (distinct (evidence_ids ++ comparator_ids)) [
      | [] ↦ refused diff_reference_invalid
      | i ∷ ids ↦
          if all (λ e. has e known) (i ∷ ids)
          then checked (sorted_ids (i ∷ ids))
          else refused diff_reference_invalid
    ]
