-- ===== src/Plan/Skeleton.antt =====
-- The skeleton of one public action: `_build_action` of app/report_v22/actions.py, with the
-- validator of ActionSkeleton in app/report_v22/action_models.py. The texts of the template, which
-- the skeleton repeats, are left out.
use search_trust_rd.Prelude.{
  ℕ, suc, ◌+◌, ◌*◌, Bool, not, ◌&&◌, ◌||◌, List, [], ◌∷◌, map, all, ltb, leb, if◌then◌else◌, length,
  max,
}
use search_trust_rd.Plan.Findings.{
  Finding, SourceType, TemplateKey, action_templates, has_source, source_order, source_index,
}
use search_trust_rd.Plan.Outcome.{
  Outcome, ok, raised, ◌>>=◌, ◌>>◌, refuse_if, limit_exceeded, reference_invalid, date_invalid,
}
use search_trust_rd.Plan.Targets.{ActionTarget, target_order, distinct, sorted_ids}
use search_trust_rd.Plan.Candidates.{ActionCandidate, PublicActionLimits, all_distinct, no_sources}
use search_trust_rd.Plan.Schedule.{within}

pub record ActionSkeleton : Type 0 where
  pub action_id : ℕ
  pub sequence : ℕ
  pub finding_ids : List ℕ
  pub template_key : TemplateKey
  pub exact_targets : List ActionTarget
  pub dependencies : List ℕ
  pub metric_sources : List SourceType
  pub data_sources : List SourceType
  pub review_date : ℕ

abbrev pub finding_ids_of : List Finding → List ℕ
finding_ids_of = map (λ (f : Finding). f.finding_id)

abbrev pub target_number : ActionTarget → ℕ
target_number t = t.value * 5 + target_order t.kind

-- The sequence is at most 3 in ActionSkeleton and without a bound in PublicActionCandidate.
unfoldable pub valid_skeleton : Bool → ActionSkeleton → Bool
unfolding all_distinct
valid_skeleton candidate_only a =
    leb 1 a.sequence
    && (candidate_only || leb a.sequence 3)
    && leb 1 (length a.finding_ids)
    && leb (length a.finding_ids) 1000
    && leb 1 (length a.exact_targets)
    && leb (length a.exact_targets) 1000
    && leb (length a.dependencies) 2
    && all_distinct a.dependencies
    && all_distinct (map source_index a.data_sources)
    && all (λ (t : ActionTarget). within t.finding_ids a.finding_ids) a.exact_targets
    && all_distinct (map target_number a.exact_targets)

unfoldable pub metric_sources_of :
    List SourceType → List SourceType → List SourceType → List SourceType
metric_sources_of [] sources allowed = []
metric_sources_of (s ∷ ss) sources allowed =
    let rest = metric_sources_of ss sources allowed in
    if has_source s sources && has_source s allowed then s ∷ rest else rest

abbrev pub candidate_metric_sources : ActionCandidate → List SourceType
candidate_metric_sources c =
    metric_sources_of source_order c.data_sources (action_templates c.template).allowed_source_types

-- `_build_action` before the validation
abbrev pub skeleton_of : ActionCandidate → ℕ → ℕ → ActionSkeleton
skeleton_of c sequence review_date = record {
  action_id = c.action_id;
  sequence = sequence;
  finding_ids = sorted_ids (finding_ids_of c.findings);
  template_key = c.template;
  exact_targets = c.targets;
  dependencies = sorted_ids (distinct c.dependencies);
  metric_sources = candidate_metric_sources c;
  data_sources = c.data_sources;
  review_date = review_date;
}

abbrev pub over_limits : PublicActionLimits → TemplateKey → Bool
over_limits limits k =
    ltb limits.max_steps_per_action (action_templates k).steps
    || ltb limits.max_requirements_per_group (
        max (action_templates k).content_requirements
          (max (action_templates k).gbp_requirements (action_templates k).technical_requirements))
    || ltb limits.max_assets_per_action (action_templates k).required_client_assets
    || ltb limits.max_metrics_per_action 1

unfoldable pub build_action :
    PublicActionLimits → Bool → ActionCandidate → ℕ → ℕ → Outcome ActionSkeleton
unfolding metric_sources_of valid_skeleton sorted_ids distinct
build_action limits candidate_only c sequence review_date = do
  refuse_if (over_limits limits c.template) limit_exceeded
  refuse_if (no_sources (candidate_metric_sources c)) reference_invalid
  refuse_if (not (valid_skeleton candidate_only (skeleton_of c sequence review_date)))
      reference_invalid
  ok (skeleton_of c sequence review_date)

-- `planning_date + timedelta(days=30 * sequence)`. A date is its ordinal, and the last date of
-- Python's calendar has the ordinal 3652059.
abbrev pub review_date_of : ℕ → ℕ → Outcome ℕ
review_date_of planning_date sequence =
    if ltb 3652059 (planning_date + 30 * sequence)
    then raised date_invalid
    else ok (planning_date + 30 * sequence)

-- The loop over the ordered candidates, from a sequence number on.
unfoldable pub build_actions :
    PublicActionLimits → Bool → ℕ → ℕ → List ActionCandidate → Outcome (List ActionSkeleton)
unfolding build_action
build_actions limits candidate_only planning_date sequence [] = ok []
build_actions limits candidate_only planning_date sequence (c ∷ cs) =
    review_date_of planning_date sequence >>= λ review_date.
    build_action limits candidate_only c sequence review_date >>= λ a.
    build_actions limits candidate_only planning_date (suc sequence) cs >>= λ rest. ok (a ∷ rest)
