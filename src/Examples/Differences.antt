-- ===== src/Examples/Differences.antt =====
-- A parent report of three findings: one is confirmed by a finding of the verified stages, one belongs
-- to an action that has moved, one is unchanged; another verified finding is new.
use search_trust_rd.Prelude.{ℕ, ◌≡◌, refl, none, some, [], ◌∷◌, map, false}
use search_trust_rd.Plan.Sorting.{tuple_lt}
use search_trust_rd.Plan.Targets.{TargetKind}
use search_trust_rd.Diff.Sources.{
  Checked, checked, refused, FindingRef, cross_source_findings, first_party_findings,
  FindingRelation, supports, ParentFinding, NewFinding, OldCandidate,
}
use search_trust_rd.Diff.Relations.{page, Normal}
use search_trust_rd.Diff.Changes.{DiffInput, DiffRecord, confirmed, reprioritized, new_change}
use search_trust_rd.Diff.Loops.{VersionDifference, build_version_diff}
use search_trust_rd.Diff.Partition.{IsAccounted, build_version_diff-IsAccounted}

abbrev plain : Normal
plain = record {
  ga4_page = λ p. some p;
  gsc_page = λ p. some p;
  query = λ q. q;
  landing_part = λ p. p;
}

abbrev supporting : FindingRef
supporting = record { origin_stage = first_party_findings; ruleset_version = 1; finding_id = 51 }

abbrev unrelated : FindingRef
unrelated = record { origin_stage = cross_source_findings; ruleset_version = 1; finding_id = 52 }

abbrev new_one : FindingRef → ℕ → NewFinding
new_one r e = record { ref = r; rule_id = 7; evidence_ids = e ∷ []; comparator_ids = [] }

abbrev parent : ℕ → ParentFinding
parent i = record { finding_id = i; evidence_ids = i ∷ []; comparator_ids = [] }

abbrev support : FindingRelation
support = record {
  relation_id = 1;
  finding_ref = supporting;
  relation_kind = supports;
  candidate_key = some 21;
  action_id = some 11;
  target_key = 5;
}

abbrev page_candidate : OldCandidate
page_candidate = record {
  candidate_key = 21;
  action_id = 11;
  targets = record { kind = TargetKind.url; value = 5; finding_ids = 1 ∷ [] } ∷ [];
  finding_ids = 1 ∷ [];
}

abbrev moved_candidate : OldCandidate
moved_candidate = record {
  candidate_key = 22;
  action_id = 12;
  targets = record { kind = TargetKind.site; value = 9; finding_ids = 2 ∷ [] } ∷ [];
  finding_ids = 2 ∷ [];
}

abbrev sample_input : DiffInput
sample_input = record {
  parents = parent 1 ∷ parent 2 ∷ parent 3 ∷ [];
  public_ruleset = 0;
  new_by_ref = new_one unrelated 52 ∷ new_one supporting 51 ∷ [];
  known_evidence = 1 ∷ 2 ∷ 3 ∷ 51 ∷ 52 ∷ [];
  relations = support ∷ [];
  candidates = page_candidate ∷ moved_candidate ∷ [];
  kind_of = λ r. page;
  normal = plain;
  old_position = (11, some 1) ∷ (12, some 2) ∷ [];
  new_position = (11, some 1) ∷ (12, some 3) ∷ [];
  actions = record { action_id = 11; issue_codes = none; is_repair = false } ∷ [];
  max_current_findings = 1000;
  max_evidence = 10000;
  max_entries = 25000;
  max_audit_entries = 25000;
}

abbrev difference_or_empty : Checked VersionDifference → VersionDifference
difference_or_empty (checked d) = d
difference_or_empty (refused e) = record {
  entries = [];
  unchanged_previous_findings = [];
  consumed_new_findings = [];
  new_findings = [];
}

sample_difference : VersionDifference
unfolding build_version_diff
sample_difference = difference_or_empty (build_version_diff sample_input)

sample_difference_built : build_version_diff sample_input ≡ checked sample_difference
unfolding sample_difference build_version_diff tuple_lt
sample_difference_built = refl

build_version_diff-IsAccounted_example : IsAccounted sample_input sample_difference
build_version_diff-IsAccounted_example =
    build_version_diff-IsAccounted sample_input sample_difference_built

changes_in_order :
    map (λ (r : DiffRecord). r.change_type) sample_difference.entries
    ≡ confirmed ∷ reprioritized ∷ new_change ∷ []
unfolding sample_difference build_version_diff tuple_lt
changes_in_order = refl

unchanged_third : sample_difference.unchanged_previous_findings ≡ 3 ∷ []
unfolding sample_difference build_version_diff tuple_lt
unchanged_third = refl
