-- ===== src/Diff/Loops.antt =====
-- The two loops of `build_version_diff` in app/report_v22/version_diff.py, and its end up to the
-- result's model. An entry and its audit entry are one record (`DiffRecord`).
use search_trust_rd.Prelude.{
  ℕ, ◌+◌, Bool, true, false, ◌&&◌, ◌||◌, Option, none, some, List, [], ◌∷◌, ◌++◌, map, any, ltb,
  length, if◌then◌else◌, is_some,
}
use search_trust_rd.Plan.Sorting.{sort_by}
use search_trust_rd.Plan.Targets.{distinct, sorted_ids}
use search_trust_rd.Diff.Sources.{
  Checked, refused, checked, ◌>>=◌, diff_reference_invalid, diff_limit_exceeded, FindingRef,
  ref_key, same_ref, has_ref, FindingRelation, ParentFinding, NewFinding, OldCandidate,
  RankedAction, finding_evidence, public_findings, origin_index,
}
use search_trust_rd.Diff.Relations.{position, is_action, relations_of}
use search_trust_rd.Diff.Changes.{
  DiffInput, DiffRecord, new_change, ReasonCode, reprioritized_by_measurement_gate,
  new_verified_finding, EvidenceBasis, direct_relation, ranking_boundary, parent_fallback,
  new_finding, ChangeDecision, decide, candidates_with, decision_of, direct_relations, known_refs,
  evidence_of_refs, owned_known,
}

abbrev pub is_nil {ℓ} : {A : Type ℓ} → List A → Bool
is_nil [] = true
is_nil (x ∷ xs) = false

-- The issue codes of the measurement actions that the selected relations name.
unfoldable pub measured_codes : List RankedAction → List FindingRelation → List ℕ
measured_codes [] rs = []
measured_codes (a ∷ rest) rs =
    let others = measured_codes rest rs in
    elim a.issue_codes [
      | none ↦ others
      | some codes ↦
          if any (λ (r : FindingRelation). is_action a.action_id r.action_id) rs
          then codes ++ others
          else others
    ]

-- whether there is such an action
unfoldable pub is_measured : List RankedAction → List FindingRelation → Bool
is_measured [] rs = false
is_measured (a ∷ rest) rs =
    (is_some a.issue_codes && any (λ (r : FindingRelation). is_action a.action_id r.action_id) rs)
    || is_measured rest rs

-- The issue codes of the measurement repairs.
unfoldable pub repair_codes : List RankedAction → List ℕ
repair_codes [] = []
repair_codes (a ∷ rest) =
    let others = repair_codes rest in
    elim a.issue_codes [
      | none ↦ others
      | some codes ↦ if a.is_repair then codes ++ others else others
    ]

-- Evidence, basis, reason and issue codes of a change.
pub record Grounds : Type 0 where
  pub evidence : List ℕ
  pub basis : EvidenceBasis
  pub reason : ReasonCode
  pub codes : List ℕ

abbrev pub measured_reason : DiffInput → ChangeDecision → ReasonCode
measured_reason input d =
    if is_measured input.actions d.selected then reprioritized_by_measurement_gate else d.reason

-- From `evidence_ids = sorted({…` to the end of `if not evidence_ids`.
unfoldable pub grounds_of : DiffInput → ParentFinding → ChangeDecision → List ℕ → Checked Grounds
unfolding finding_evidence measured_codes is_measured repair_codes
grounds_of input f d [] =
    finding_evidence f.evidence_ids f.comparator_ids input.known_evidence >>= λ own.
    checked record {
      evidence = own;
      basis = parent_fallback;
      reason = reprioritized_by_measurement_gate;
      codes = sorted_ids (distinct (repair_codes input.actions));
    }
grounds_of input f d (e ∷ es) = checked record {
  evidence = sorted_ids (distinct (e ∷ es));
  basis =
      if is_nil (direct_relations input f.finding_id) then ranking_boundary else direct_relation;
  reason = measured_reason input d;
  codes = sorted_ids (distinct (measured_codes input.actions d.selected));
}

abbrev pub action_of : Option OldCandidate → Option ℕ
action_of none = none
action_of (some c) = some c.action_id

abbrev pub key_of : Option OldCandidate → ℕ
key_of none = 0
key_of (some c) = c.candidate_key + 1

abbrev pub place_of : Option OldCandidate → List (ℕ × Option ℕ) → Option ℕ
place_of none positions = none
place_of (some c) positions = position c.action_id positions

abbrev pub or_99 : Option ℕ → ℕ
or_99 none = 99
or_99 (some p) = p

-- `order`
abbrev pub order_of : DiffInput → ParentFinding → Option OldCandidate → List ℕ
order_of input f c = elim (place_of c input.new_position) [
  | none ↦ 1 ∷ or_99 (place_of c input.old_position) ∷ key_of c ∷ f.finding_id ∷ []
  | some p ↦ 0 ∷ p ∷ f.finding_id ∷ []
]

abbrev pub own_ref : DiffInput → ParentFinding → FindingRef
own_ref input f = record {
  origin_stage = public_findings;
  ruleset_version = input.public_ruleset;
  finding_id = f.finding_id;
}

abbrev pub record_of :
    DiffInput → ParentFinding → ChangeDecision → List FindingRef → Grounds → DiffRecord
record_of input f d refs g = record {
  order = order_of input f d.candidate;
  change_type = d.change_type;
  previous = some f.finding_id;
  current_refs = own_ref input f ∷ refs;
  relation_ids = map (λ (r : FindingRelation). r.relation_id) d.selected;
  action_id = action_of d.candidate;
  reason = g.reason;
  issue_codes = g.codes;
  evidence_ids = g.evidence;
  basis = g.basis;
}

abbrev pub ids_of_refs : List FindingRef → List ℕ
ids_of_refs = map (λ (r : FindingRef). r.finding_id)

abbrev pub within_limits : DiffInput → DiffRecord → Checked DiffRecord
within_limits input r =
    if ltb input.max_current_findings (length (distinct (ids_of_refs r.current_refs)))
      || ltb input.max_evidence (length r.evidence_ids)
    then refused diff_limit_exceeded
    else checked r

-- What a finding that is not unchanged comes to.
unfoldable pub change_of :
    DiffInput → ParentFinding → ChangeDecision → List FindingRef → Checked DiffRecord
unfolding evidence_of_refs grounds_of distinct
change_of input f d refs = evidence_of_refs input refs >>= λ evidence.
    grounds_of input f d evidence >>= λ g. within_limits input (record_of input f d refs g)

pub record Compared : Type 0 where
  pub records : List DiffRecord
  pub unchanged : List ℕ
  pub consumed : List FindingRef

abbrev pub refs_of : DiffInput → ChangeDecision → List FindingRef
refs_of input d = known_refs input.new_by_ref [] d.selected

-- One turn of the loop over the findings of the parent report, with what the later turns give.
abbrev pub compare_one :
    DiffInput → ParentFinding → Checked Compared → Option ChangeDecision → Checked Compared
compare_one input f rest none =
    rest >>= λ c. checked (record c { unchanged = f.finding_id ∷ c.unchanged })
compare_one input f rest (some d) = change_of input f d (refs_of input d) >>= λ r. rest >>= λ c.
    checked (record c { records = r ∷ c.records; consumed = refs_of input d ++ c.consumed })

unfoldable pub compare_parents : DiffInput → List ParentFinding → Checked Compared
unfolding change_of known_refs decide relations_of candidates_with
compare_parents input [] = checked record { records = []; unchanged = []; consumed = [] }
compare_parents input (f ∷ fs) =
    compare_one input f (compare_parents input fs) (decision_of input f)

-- the relations that name a reference
unfoldable pub relations_naming : FindingRef → List FindingRelation → List ℕ
relations_naming r [] = []
relations_naming r (x ∷ xs) =
    let rest = relations_naming r xs in
    if same_ref x.finding_ref r then x.relation_id ∷ rest else rest

abbrev pub new_record : DiffInput → NewFinding → List ℕ → DiffRecord
new_record input n evidence = record {
  order = 2 ∷ origin_index n.ref.origin_stage ∷ n.rule_id ∷ n.ref.finding_id ∷ [];
  change_type = new_change;
  previous = none;
  current_refs = n.ref ∷ [];
  relation_ids = relations_naming n.ref input.relations;
  action_id = none;
  reason = new_verified_finding;
  issue_codes = [];
  evidence_ids = evidence;
  basis = new_finding;
}

pub record Added : Type 0 where
  pub added_records : List DiffRecord
  pub new_refs : List FindingRef

-- The loop over the new findings.
unfoldable pub add_new : DiffInput → List FindingRef → List NewFinding → Checked Added
unfolding finding_evidence relations_naming
add_new input consumed [] = checked record { added_records = []; new_refs = [] }
add_new input consumed (n ∷ ns) =
    let rest = add_new input consumed ns in
    if has_ref n.ref consumed
    then rest
    else (finding_evidence n.evidence_ids n.comparator_ids input.known_evidence >>= λ evidence.
        rest >>= λ a. checked record {
          added_records = new_record input n evidence ∷ a.added_records;
          new_refs = n.ref ∷ a.new_refs;
        })

pub record VersionDifference : Type 0 where
  pub entries : List DiffRecord
  pub unchanged_previous_findings : List ℕ
  pub consumed_new_findings : List FindingRef
  pub new_findings : List FindingRef

abbrev pub new_finding_key : NewFinding → List ℕ
new_finding_key n = ref_key n.ref

abbrev pub record_key : DiffRecord → List ℕ
record_key r = r.order

-- `sorted(consumed)`, of a set
unfoldable pub distinct_refs : List FindingRef → List FindingRef
distinct_refs [] = []
distinct_refs (r ∷ rs) = let rest = distinct_refs rs in if has_ref r rs then rest else r ∷ rest

abbrev pub difference_of : Compared → Added → VersionDifference
difference_of c a = record {
  entries = sort_by record_key (c.records ++ a.added_records);
  unchanged_previous_findings = sorted_ids c.unchanged;
  consumed_new_findings = sort_by ref_key (distinct_refs c.consumed);
  new_findings = sort_by ref_key a.new_refs;
}

abbrev pub limit_entries : DiffInput → VersionDifference → Checked VersionDifference
limit_entries input d =
    if ltb input.max_entries (length d.entries) || ltb input.max_audit_entries (length d.entries)
    then refused diff_limit_exceeded
    else checked d

-- `build_version_diff` from the loop over the relations on, up to the result's model.
unfoldable pub build_version_diff : DiffInput → Checked VersionDifference
unfolding owned_known compare_parents add_new sort_by distinct_refs sorted_ids
build_version_diff input =
    if owned_known input input.relations
    then (compare_parents input input.parents >>= λ c.
        add_new input c.consumed (sort_by new_finding_key input.new_by_ref) >>= λ a.
        limit_entries input (difference_of c a))
    else refused diff_reference_invalid
