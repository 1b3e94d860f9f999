-- ===== src/Diff/Relations.antt =====
-- Which relations explain a finding of the parent report: `_owned_finding_ids`, `_position_maps`,
-- `_decision_relations` and the loop over the relations of app/report_v22/version_diff.py.
use search_trust_rd.Prelude.{
  ℕ, Bool, true, false, not, ◌&&◌, ◌||◌, Option, none, some, List, [], ◌∷◌, ◌++◌, ◌==◌, any,
  if◌then◌else◌,
}
use search_trust_rd.Plan.Targets.{ActionTarget, TargetKind, target_order, has}
use search_trust_rd.Diff.Sources.{
  FindingRef, FindingRelation, supports, reduces_urgency, unmatched, is_kind, OldCandidate,
}

-- The kinds of an evaluation's target that the code tells apart.
pub data EvaluationKind : Type 0 where
  page landing_page query aggregate search_demand other_kind : EvaluationKind

-- The normal forms of pages and queries, with the site's domain put in, and the part of a landing
-- page's key before its last bar.
pub record Normal : Type 0 where
  pub ga4_page : ℕ → Option ℕ
  pub gsc_page : ℕ → Option ℕ
  pub query : ℕ → ℕ
  pub landing_part : ℕ → ℕ

abbrev pub same_page : Option ℕ → Option ℕ → Bool
same_page (some a) (some b) = a == b
same_page _ _ = false

abbrev pub is_target : TargetKind → ActionTarget → Bool
is_target k t = target_order t.kind == target_order k

-- Whether a target is the relation's.
abbrev pub owns : Normal → EvaluationKind → ℕ → ActionTarget → Bool
owns normal page key t =
    is_target TargetKind.url t && same_page (normal.gsc_page key) (normal.gsc_page t.value)
owns normal landing_page key t =
    is_target TargetKind.url t
    && same_page (normal.ga4_page (normal.landing_part key)) (normal.gsc_page t.value)
owns normal query key t = is_target TargetKind.query t && normal.query key == normal.query t.value
owns normal aggregate key t = is_target TargetKind.site t
owns normal search_demand key t = is_target TargetKind.site t
owns normal other_kind key t = false

unfoldable pub owned_by : Normal → EvaluationKind → ℕ → List ActionTarget → List ℕ
owned_by normal kind key [] = []
owned_by normal kind key (t ∷ ts) =
    let rest = owned_by normal kind key ts in
    if owns normal kind key t then t.finding_ids ++ rest else rest

-- `_owned_finding_ids`
unfoldable pub owned_finding_ids : Normal → OldCandidate → FindingRelation → EvaluationKind → List ℕ
unfolding owned_by
owned_finding_ids normal c r kind =
    if is_kind supports r.relation_kind || is_kind reduces_urgency r.relation_kind
    then owned_by normal kind r.target_key c.targets
    else []

-- `candidate_by_key.get(relation.candidate_key or "")`
unfoldable pub candidate_of : Option ℕ → List OldCandidate → Option OldCandidate
candidate_of none cs = none
candidate_of (some key) [] = none
candidate_of (some key) (c ∷ cs) =
    if c.candidate_key == key then some c else candidate_of (some key) cs

-- The relations that own a finding, in the order of the loop.
unfoldable pub relations_of :
    Normal
    → (FindingRef → EvaluationKind)
    → List OldCandidate
    → ℕ
    → List FindingRelation
    → List FindingRelation
unfolding candidate_of owned_finding_ids
relations_of normal kind_of cs old [] = []
relations_of normal kind_of cs old (r ∷ rs) =
    let rest = relations_of normal kind_of cs old rs in
    elim (candidate_of r.candidate_key cs) [
      | none ↦ rest
      | some c ↦
          if has old (owned_finding_ids normal c r (kind_of r.finding_ref)) then r ∷ rest else rest
    ]

-- The positions of actions, `none` for one that is not selected.
abbrev pub Positions : Type 0
Positions = List (ℕ × Option ℕ)

-- `positions.get(action_id)`
unfoldable pub position : ℕ → Positions → Option ℕ
position i [] = none
position i ((j, p) ∷ rest) = if j == i then p else position i rest

abbrev pub same_position : Option ℕ → Option ℕ → Bool
same_position none none = true
same_position (some a) (some b) = a == b
same_position _ _ = false

abbrev pub moved : Positions → Positions → ℕ → Bool
moved old current i = not (same_position (position i old) (position i current))

abbrev pub is_listed : ℕ → Positions → Bool
is_listed i positions = any (λ (p : ℕ × Option ℕ). p.0 == i) positions

abbrev pub is_action : ℕ → Option ℕ → Bool
is_action i none = false
is_action i (some j) = j == i

-- the relations of an action that are matched
unfoldable pub direct_of : ℕ → List FindingRelation → List FindingRelation
direct_of i [] = []
direct_of i (r ∷ rs) =
    let rest = direct_of i rs in
    if is_action i r.action_id && not (is_kind unmatched r.relation_kind) then r ∷ rest else rest

abbrev pub is_moved : Positions → Positions → Option ℕ → Bool
is_moved old current none = false
is_moved old current (some i) = (is_listed i old || is_listed i current) && moved old current i

unfoldable pub moved_of : Positions → Positions → List FindingRelation → List FindingRelation
unfolding position
moved_of old current [] = []
moved_of old current (r ∷ rs) =
    let rest = moved_of old current rs in
    if is_moved old current r.action_id && not (is_kind unmatched r.relation_kind)
    then r ∷ rest
    else rest

-- `_decision_relations`
unfoldable pub decision_relations :
    Positions → Positions → ℕ → List FindingRelation → List FindingRelation
unfolding direct_of moved_of
decision_relations old current i rs = elim (direct_of i rs) [
  | [] ↦ moved_of old current rs
  | r ∷ direct ↦ r ∷ direct
]
