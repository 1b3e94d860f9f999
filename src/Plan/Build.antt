-- ===== src/Plan/Build.antt =====
-- The public action plan: `build_public_action_plan` and `select_public_action_skeletons` of
-- app/report_v22/actions.py from the validated findings on, and PublicActionPlan of
-- app/report_v22/action_models.py with its validator.
pub mod Made
pub mod Sound
use search_trust_rd.Prelude.{
  ℕ, zero, suc, ◌+◌, ◌*◌, Bool, true, false, not, ◌&&◌, ◌||◌, Option, none, some, List, [], ◌∷◌,
  ◌++◌, map, ◌==◌, all, ltb, leb, if◌then◌else◌, length, take,
}
use search_trust_rd.Plan.Findings.{Finding, SourceType, TemplateKey, is_template}
use search_trust_rd.Plan.Outcome.{
  Outcome, ok, raised, unfinished, ◌>>=◌, ◌>>◌, refuse_if, limit_exceeded, reference_invalid,
  insufficient,
}
use search_trust_rd.Plan.Targets.{has, distinct, sorted_ids}
use search_trust_rd.Plan.Candidates.{
  ActionCandidate, ActionPriority, Texts, PublicActionLimits, ids_of, all_distinct,
  build_candidates,
}
use search_trust_rd.Plan.Schedule.{within, intersects, add_dependencies, topological_order}
use search_trust_rd.Plan.Skeleton.{ActionSkeleton, finding_ids_of, build_actions}

-- A candidate in the audit; its reason says the same as its state.
pub record ActionSelectionAudit : Type 0 where
  pub candidate_key : ℕ
  pub action_id : ℕ
  pub template_key : TemplateKey
  pub anchor_finding_id : ℕ
  pub finding_ids : List ℕ
  pub priority : ActionPriority
  pub selected : Bool

pub record PublicActionPlan : Type 0 where
  pub planning_date : ℕ
  pub actions : List ActionSkeleton
  pub selection_audit : List ActionSelectionAudit
  pub unselected_finding_ids : List ℕ

pub record PlanInput : Type 0 where
  pub findings : List Finding
  pub source : ℕ → SourceType
  pub site_url : ℕ
  pub planning_date : ℕ
  pub limits : PublicActionLimits

unfoldable pub findings_of : List ActionCandidate → List ℕ
findings_of [] = []
findings_of (c ∷ cs) = finding_ids_of c.findings ++ findings_of cs

-- the elements of `set(l) - set(r)`
unfoldable pub without : List ℕ → List ℕ → List ℕ
without [] r = []
without (x ∷ xs) r = let rest = without xs r in if has x r then rest else x ∷ rest

abbrev pub audit_entry : List ℕ → ActionCandidate → ActionSelectionAudit
audit_entry selected_ids c = record {
  candidate_key = c.candidate_key;
  action_id = c.action_id;
  template_key = c.template;
  anchor_finding_id = c.anchor.finding_id;
  finding_ids = sorted_ids (finding_ids_of c.findings);
  priority = c.priority;
  selected = has c.action_id selected_ids;
}

abbrev pub plan_of :
    PlanInput → List ActionCandidate → List ActionCandidate → List ActionSkeleton → PublicActionPlan
plan_of request candidates selected actions = record {
  planning_date = request.planning_date;
  actions = actions;
  selection_audit = map (audit_entry (ids_of selected)) candidates;
  unselected_finding_ids =
      sorted_ids (distinct (without (finding_ids_of request.findings) (findings_of selected)));
}

-- the position that an identifier has, as `sequence_by_id`
unfoldable pub sequence_by_id : ℕ → List ActionSkeleton → ℕ
sequence_by_id i [] = 0
sequence_by_id i (a ∷ rest) = if a.action_id == i then a.sequence else sequence_by_id i rest

abbrev pub valid_action : ℕ → List ActionSkeleton → ActionSkeleton → Bool
valid_action planning_date actions a =
    not (has a.action_id a.dependencies)
    && within a.dependencies (map (λ (b : ActionSkeleton). b.action_id) actions)
    && all (λ d. ltb (sequence_by_id d actions) a.sequence) a.dependencies
    && a.review_date == planning_date + 30 * a.sequence

unfoldable pub same_ids : List ℕ → List ℕ → Bool
same_ids [] [] = true
same_ids (x ∷ xs) (y ∷ ys) = x == y && same_ids xs ys
same_ids _ _ = false

unfoldable pub selected_audit : List ActionSelectionAudit → List ℕ
selected_audit [] = []
selected_audit (a ∷ rest) =
    let others = selected_audit rest in if a.selected then a.action_id ∷ others else others

unfoldable pub audited_unselected : List ActionSelectionAudit → List ℕ
audited_unselected [] = []
audited_unselected (a ∷ rest) =
    let others = audited_unselected rest in if a.selected then others else a.finding_ids ++ others

-- `audit_by_action`
unfoldable pub audit_of : ℕ → List ActionSelectionAudit → Option ActionSelectionAudit
audit_of i [] = none
audit_of i (a ∷ rest) = if a.action_id == i then some a else audit_of i rest

abbrev pub matches_audit : List ActionSelectionAudit → ActionSkeleton → Bool
matches_audit audit a = elim (audit_of a.action_id audit) [
  | none ↦ false
  | some entry ↦
      is_template entry.template_key a.template_key && same_ids entry.finding_ids a.finding_ids
]

abbrev pub action_ids_of : List ActionSkeleton → List ℕ
action_ids_of = map (λ (a : ActionSkeleton). a.action_id)

unfoldable pub planned_findings : List ActionSkeleton → List ℕ
planned_findings [] = []
planned_findings (a ∷ rest) = a.finding_ids ++ planned_findings rest

-- `PublicActionPlan.validate_plan`
unfoldable pub validate_plan : PublicActionPlan → Bool
unfolding sequence_by_id same_ids selected_audit audited_unselected audit_of planned_findings
    all_distinct sorted_ids distinct
validate_plan p =
    same_ids (map (λ (a : ActionSkeleton). a.sequence) p.actions) (1 ∷ 2 ∷ 3 ∷ [])
    && all_distinct (action_ids_of p.actions)
    && all (valid_action p.planning_date p.actions) p.actions
    && all_distinct (map (λ (a : ActionSelectionAudit). a.candidate_key) p.selection_audit)
    && all_distinct (map (λ (a : ActionSelectionAudit). a.action_id) p.selection_audit)
    && within (selected_audit p.selection_audit) (action_ids_of p.actions)
    && within (action_ids_of p.actions) (selected_audit p.selection_audit)
    && length (selected_audit p.selection_audit) == 3
    && all (matches_audit p.selection_audit) p.actions
    && all_distinct p.unselected_finding_ids
    && not (intersects (planned_findings p.actions) p.unselected_finding_ids)
    && same_ids p.unselected_finding_ids
        (sorted_ids (distinct (audited_unselected p.selection_audit)))

-- the lengths that the fields of PublicActionPlan allow
abbrev pub valid_lengths : PublicActionPlan → Bool
valid_lengths p =
    length p.actions == 3
    && leb 3 (length p.selection_audit)
    && leb (length p.selection_audit) 1000
    && leb (length p.unselected_finding_ids) 10000

-- The actions for the selected candidates: their dependencies, their order, their skeletons.
unfoldable pub plan_actions :
    Texts → PlanInput → Bool → List ActionCandidate → Outcome (List ActionSkeleton)
unfolding add_dependencies topological_order build_actions
plan_actions texts request candidate_only selected =
    topological_order texts (add_dependencies texts request.site_url selected) >>= λ ordered.
    build_actions request.limits candidate_only request.planning_date 1 ordered

-- The end of `build_public_action_plan`. The size of the plan's JSON is an argument.
unfoldable pub finish_plan :
    (PublicActionPlan → ℕ) → PublicActionLimits → PublicActionPlan → Outcome PublicActionPlan
unfolding validate_plan
finish_plan size limits plan = do
  refuse_if (not (valid_lengths plan && validate_plan plan)) reference_invalid
  refuse_if (ltb limits.max_bytes (size plan)) limit_exceeded
  ok plan

-- What `build_public_action_plan` does with the candidates.
unfoldable pub plan_from :
    Texts → (PublicActionPlan → ℕ) → PlanInput → List ActionCandidate → Outcome PublicActionPlan
unfolding plan_actions finish_plan without findings_of sorted_ids distinct
plan_from texts size request candidates = do
  refuse_if (ltb (length candidates) 3) insufficient
  refuse_if (ltb request.limits.max_audit_entries (length candidates)) limit_exceeded
  plan_actions texts request false (take 3 candidates) >>= λ actions.
      finish_plan size request.limits (plan_of request candidates (take 3 candidates) actions)

-- `build_public_action_plan` after `_validated_references`
unfoldable pub build_public_action_plan :
    Texts → (PublicActionPlan → ℕ) → PlanInput → Outcome PublicActionPlan
unfolding build_candidates plan_from
build_public_action_plan texts size request =
    build_candidates texts request.limits request.site_url request.source request.findings
    >>= plan_from texts size request

-- What `select_public_action_skeletons` does with the candidates.
unfoldable pub skeletons_from :
    Texts → PlanInput → Bool → Bool → List ActionCandidate → Outcome (List ActionSkeleton)
unfolding plan_actions
skeletons_from texts request all_candidates candidate_only candidates = do
  refuse_if (ltb request.limits.max_audit_entries (length candidates)) limit_exceeded
  plan_actions texts request candidate_only
      (if all_candidates then candidates else take 3 candidates)

-- `select_public_action_skeletons` after `_validated_references`
unfoldable pub select_public_action_skeletons :
    Texts → PlanInput → Bool → Bool → Outcome (List ActionSkeleton)
unfolding build_candidates skeletons_from
select_public_action_skeletons texts request all_candidates candidate_only =
    build_candidates texts request.limits request.site_url request.source request.findings
    >>= skeletons_from texts request all_candidates candidate_only
