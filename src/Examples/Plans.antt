-- ===== src/Examples/Plans.antt =====
-- Concrete plans of public actions: a page that cannot be reached, repeated titles on it, and a query
-- without the site.
use mathlib.Core.List.{Perm}
use search_trust_rd.Prelude.{
  ℕ, ◌≡◌, refl, true, false, none, List, [], ◌∷◌, map, if◌then◌else◌, ◌==◌, arith,
}
use search_trust_rd.Plan.Sorting.{tuple_lt}
use search_trust_rd.Plan.Findings.{
  Finding, Severity, Confidence, fact, SourceType, serp, http, title, domain, template_index,
  differentiate_page_titles, restore_site_access_indexing,
}
use search_trust_rd.Plan.Outcome.{Outcome, ok}
use search_trust_rd.Plan.Candidates.{
  Texts, PublicActionLimits, ActionCandidate, all_distinct, build_candidates,
}
use search_trust_rd.Plan.Candidates.Ranked.{IsRanked, build_candidates-IsRanked}
use search_trust_rd.Plan.Schedule.{topological_order}
use search_trust_rd.Plan.Schedule.Laws.{IsScheduled, topological_order-IsScheduled}
use search_trust_rd.Plan.Skeleton.{ActionSkeleton}
use search_trust_rd.Plan.Build.{
  PublicActionPlan, PlanInput, build_public_action_plan, select_public_action_skeletons,
}
use search_trust_rd.Plan.Build.Made.{MadeFrom, build_public_action_plan-IsMadeOf}
use search_trust_rd.Plan.Candidates.Sound.{IsSound}
use search_trust_rd.Plan.Build.Sound.{
  build_public_action_plan-IsSound, select_public_action_skeletons-IsSound,
}

abbrev sample_texts : Texts
sample_texts = record {
  accepts = λ k v. true;
  host = λ u. u;
  digest = λ k l. template_index k;
  action_id = λ k d. template_index k;
  target_bytes = λ l. 0;
}

abbrev sample_limits : PublicActionLimits
sample_limits = record {
  max_findings = 10000;
  max_candidates = 1000;
  max_findings_per_action = 1000;
  max_targets_per_action = 1000;
  max_steps_per_action = 20;
  max_requirements_per_group = 50;
  max_assets_per_action = 50;
  max_metrics_per_action = 20;
  max_audit_entries = 1000;
  max_bytes = 20000000;
}

abbrev unreachable : Finding
unreachable = record {
  finding_id = 1;
  rule = http;
  severity = Severity.medium;
  confidence = Confidence.high;
  classification = fact;
  affected_urls = 10 ∷ [];
  affected_queries = [];
  evidence_ids = 1 ∷ [];
  comparator_ids = [];
  page_type = none;
}

abbrev repeated_title : Finding
repeated_title = record unreachable {
  finding_id = 2;
  rule = title;
  severity = Severity.high;
  affected_urls = 10 ∷ 11 ∷ [];
}

abbrev unobserved : Finding
unobserved = record unreachable {
  finding_id = 3;
  rule = domain;
  severity = Severity.low;
  affected_urls = [];
  affected_queries = 20 ∷ [];
  evidence_ids = 2 ∷ [];
}

abbrev sample_source : ℕ → SourceType
sample_source n = if n == 2 then serp else SourceType.site

abbrev sample_findings : List Finding
sample_findings = unobserved ∷ repeated_title ∷ unreachable ∷ []

abbrev sample_request : PlanInput
sample_request = record {
  findings = sample_findings;
  source = sample_source;
  site_url = 10;
  planning_date = 739000;
  limits = sample_limits;
}

abbrev candidates_or_none : Outcome (List ActionCandidate) → List ActionCandidate
candidates_or_none (ok cs) = cs
candidates_or_none _ = []

sample_candidates : List ActionCandidate
unfolding build_candidates
sample_candidates =
    candidates_or_none
      (build_candidates sample_texts sample_limits 10 sample_source sample_findings)

sample_candidates_built :
    build_candidates sample_texts sample_limits 10 sample_source sample_findings
    ≡ ok sample_candidates
unfolding sample_candidates build_candidates tuple_lt
sample_candidates_built = refl

build_candidates-IsRanked_example : IsRanked sample_texts sample_findings sample_candidates
build_candidates-IsRanked_example =
    build_candidates-IsRanked sample_texts sample_limits 10 sample_source sample_findings
      sample_candidates_built

abbrev plan_or_empty : Outcome PublicActionPlan → PublicActionPlan
plan_or_empty (ok p) = p
plan_or_empty _ = record {
  planning_date = 0;
  actions = [];
  selection_audit = [];
  unselected_finding_ids = [];
}

abbrev sample_size : PublicActionPlan → ℕ
sample_size p = 5000

sample_plan : PublicActionPlan
unfolding build_public_action_plan
sample_plan = plan_or_empty (build_public_action_plan sample_texts sample_size sample_request)

sample_plan_built :
    build_public_action_plan sample_texts sample_size sample_request ≡ ok sample_plan
unfolding sample_plan build_public_action_plan tuple_lt
sample_plan_built = refl

build_public_action_plan-IsMadeOf_example :
    (candidates : List ActionCandidate) × MadeFrom sample_texts sample_request candidates
      sample_plan
build_public_action_plan-IsMadeOf_example =
    build_public_action_plan-IsMadeOf sample_texts sample_size sample_request sample_plan_built

build_public_action_plan-IsSound_example :
    IsSound (build_public_action_plan sample_texts sample_size sample_request)
build_public_action_plan-IsSound_example =
    build_public_action_plan-IsSound sample_texts sample_size sample_request

select_public_action_skeletons-IsSound_example :
    IsSound (select_public_action_skeletons sample_texts sample_request true false)
select_public_action_skeletons-IsSound_example =
    select_public_action_skeletons-IsSound sample_texts sample_request true false

-- The repeated titles rank first, but wait for the page to be reachable again.
first_is_recovery : map (λ (a : ActionSkeleton). a.action_id) sample_plan.actions ≡ 3 ∷ 2 ∷ 4 ∷ []
unfolding sample_plan build_public_action_plan tuple_lt
first_is_recovery = refl

abbrev recovery : ActionCandidate
recovery = record {
  template = restore_site_access_indexing;
  findings = unreachable ∷ [];
  targets = [];
  action_id = 2;
  candidate_key = 2;
  anchor = unreachable;
  priority = record { severity = 2; confidence = 3; classification = 3; impact_scope = 2 };
  data_sources = SourceType.site ∷ [];
  dependencies = [];
}

abbrev waiting : ActionCandidate
waiting = record recovery {
  template = differentiate_page_titles;
  action_id = 1;
  priority = record { severity = 3; confidence = 3; classification = 3; impact_scope = 2 };
  dependencies = 2 ∷ [];
}

abbrev sample_depth : ℕ → ℕ
sample_depth n = if n == 2 then 0 else 1

distinct_ids : all_distinct (1 ∷ 2 ∷ []) ≡ true
unfolding all_distinct
distinct_ids = refl

topological_order-IsScheduled_example :
    (ordered : List ActionCandidate) × (topological_order sample_texts (waiting ∷ recovery ∷ [])
      ≡ ok ordered)
    × Perm ordered (waiting ∷ recovery ∷ [])
    × IsScheduled sample_texts (waiting ∷ recovery ∷ []) [] ordered
topological_order-IsScheduled_example =
    topological_order-IsScheduled sample_depth sample_texts (waiting ∷ recovery ∷ []) distinct_ids
      (((refl, omega arith), tt), (tt, tt))

recovery_first :
    topological_order sample_texts (waiting ∷ recovery ∷ []) ≡ ok (recovery ∷ waiting ∷ [])
unfolding topological_order tuple_lt
recovery_first = refl
