-- ===== src/Plan/Candidates.antt =====
-- The candidate actions of app/report_v22/actions.py: `_candidate_priority`, `_candidate_sort_key`, `_action_identity` and `_build_candidates`. A
-- negated rank is written as its distance from the highest one, which keeps the order of tuples.
pub mod Grouped
pub mod Ranked
pub mod Sound
use search_trust_rd.Prelude.{
  ℕ, ◌+◌, ◌-◌, ◌≡◌, Bool, true, false, not, ◌&&◌, ◌||◌, Option, none, some, List, [], ◌∷◌, ◌++◌,
  map, ◌==◌, any, all, ltb, if◌then◌else◌, length, min,
}
use search_trust_rd.Plan.Sorting.{sort_by}
use search_trust_rd.Plan.Findings.{
  Finding, Severity, Confidence, FindingClass, SourceType, severity_rank, confidence_rank,
  classification_rank, source_order, has_source, TemplateKey, template_index, is_template,
  action_templates, rule_template, is_asset,
}
use search_trust_rd.Plan.Outcome.{
  Outcome, ok, raised, unfinished, ◌>>=◌, ◌>>◌, refuse_if, reference_invalid, limit_exceeded,
  id_conflict,
}
use search_trust_rd.Plan.Targets.{
  TargetKind, ActionTarget, target_order, has, distinct, sorted_ids, number_key, build_targets,
}
pub use search_trust_rd.Plan.Groups.{Group}
unfoldable pub use search_trust_rd.Plan.Groups.{
  entries, group_key, same_page_type, join_group, group_findings, finding_key, group_order,
  finding_rank, urls_of, queries_of, first_or, anchor_of,
}

-- What the code takes from texts and digests: whether a target's value is accepted, the host of a
-- URL, the digest of a template with its targets, the identifier made of it, and the place of the
-- targets' JSON among byte strings.
pub record Texts : Type 0 where
  pub accepts : TargetKind → ℕ → Bool
  pub host : ℕ → ℕ
  pub digest : TemplateKey → List (TargetKind × ℕ) → ℕ
  pub action_id : TemplateKey → ℕ → ℕ
  pub target_bytes : List (TargetKind × ℕ) → ℕ

pub record ActionPriority : Type 0 where
  pub severity : ℕ
  pub confidence : ℕ
  pub classification : ℕ
  pub impact_scope : ℕ

pub record ActionCandidate : Type 0 where
  pub template : TemplateKey
  pub findings : List Finding
  pub targets : List ActionTarget
  pub action_id : ℕ
  pub candidate_key : ℕ
  pub anchor : Finding
  pub priority : ActionPriority
  pub data_sources : List SourceType
  pub dependencies : List ℕ

-- The second part of `_candidate_priority`.
unfoldable pub priority_of : Finding → List Finding → ActionPriority
unfolding distinct urls_of queries_of
priority_of anchor findings = record {
  severity = severity_rank anchor.severity;
  confidence = confidence_rank anchor.confidence;
  classification = classification_rank anchor.classification;
  impact_scope =
      min (length (distinct (urls_of findings))) 5
      + min (length (distinct (queries_of findings))) 5
      + min (length findings) 5;
}

abbrev pub target_identity : List ActionTarget → List (TargetKind × ℕ)
target_identity = map (λ (t : ActionTarget). (t.kind, t.value))

-- `_candidate_sort_key`
abbrev pub candidate_sort_key : Texts → ActionCandidate → List ℕ
candidate_sort_key texts c =
    (4 - c.priority.severity)
    ∷ (3 - c.priority.confidence)
    ∷ (3 - c.priority.classification)
    ∷ (15 - c.priority.impact_scope)
    ∷ (action_templates c.template).order
    ∷ texts.target_bytes (target_identity c.targets)
    ∷ c.action_id
    ∷ []

unfoldable pub sources_of : (ℕ → SourceType) → List Finding → List SourceType
sources_of source [] = []
sources_of source (f ∷ fs) = map source (f.evidence_ids ++ f.comparator_ids) ++ sources_of source fs

-- The sources of a list in the order of `_SOURCE_ORDER`.
unfoldable pub ordered_sources : List SourceType → List SourceType → List SourceType
ordered_sources [] among = []
ordered_sources (s ∷ ss) among =
    let rest = ordered_sources ss among in if has_source s among then s ∷ rest else rest

pub record PublicActionLimits : Type 0 where
  pub max_findings : ℕ
  pub max_candidates : ℕ
  pub max_findings_per_action : ℕ
  pub max_targets_per_action : ℕ
  pub max_steps_per_action : ℕ
  pub max_requirements_per_group : ℕ
  pub max_assets_per_action : ℕ
  pub max_metrics_per_action : ℕ
  pub max_audit_entries : ℕ
  pub max_bytes : ℕ

abbrev pub no_sources : List SourceType → Bool
no_sources [] = true
no_sources (s ∷ ss) = false

abbrev pub candidate_from : Texts → Group → List ActionTarget → List SourceType → ActionCandidate
candidate_from texts g targets sources =
    let anchor = anchor_of g in
    let digest = texts.digest g.template (target_identity targets) in
    record {
      template = g.template;
      findings = sort_by finding_key (entries g);
      targets = targets;
      action_id = texts.action_id g.template digest;
      candidate_key = digest;
      anchor = anchor;
      priority = priority_of anchor (sort_by finding_key (entries g));
      data_sources = ordered_sources source_order sources;
      dependencies = [];
    }

-- The body of the loop over the groups.
unfoldable pub build_candidate :
    Texts → PublicActionLimits → ℕ → (ℕ → SourceType) → Group → Outcome ActionCandidate
unfolding sources_of build_targets anchor_of priority_of ordered_sources sort_by
build_candidate texts limits home source g = do
  refuse_if (ltb limits.max_findings_per_action (length (entries g))) limit_exceeded
  targets ← build_targets texts.accepts home g.template (sort_by finding_key (entries g))
  refuse_if (ltb limits.max_targets_per_action (length targets)) limit_exceeded
  let sources = sources_of source (entries g)
  refuse_if
      (no_sources sources
        || not (all (λ s. has_source s (action_templates g.template).allowed_source_types) sources))
      reference_invalid
  ok (candidate_from texts g targets sources)

unfoldable pub build_each :
    Texts → PublicActionLimits → ℕ → (ℕ → SourceType) → List Group → Outcome (List ActionCandidate)
unfolding build_candidate
build_each texts limits home source [] = ok []
build_each texts limits home source (g ∷ gs) = build_candidate texts limits home source g >>= λ c.
    build_each texts limits home source gs >>= λ cs. ok (c ∷ cs)

abbrev pub ids_of : List ActionCandidate → List ℕ
ids_of = map (λ (c : ActionCandidate). c.action_id)

-- `len(ids) == len(set(ids))`
unfoldable pub all_distinct : List ℕ → Bool
all_distinct [] = true
all_distinct (x ∷ xs) = not (has x xs) && all_distinct xs

-- The end of `_build_candidates`: the identifiers are compared, the candidates sorted.
unfoldable pub rank_candidates : Texts → List ActionCandidate → Outcome (List ActionCandidate)
unfolding all_distinct sort_by
rank_candidates texts candidates = do
  refuse_if (not (all_distinct (ids_of candidates))) id_conflict
  ok (sort_by (candidate_sort_key texts) candidates)

unfoldable pub build_candidates :
    Texts
    → PublicActionLimits
    → ℕ
    → (ℕ → SourceType)
    → List Finding
    → Outcome (List ActionCandidate)
unfolding group_findings build_each rank_candidates sort_by
build_candidates texts limits home source findings = do
  groups ← group_findings (sort_by finding_key findings) []
  refuse_if (ltb limits.max_candidates (length groups)) limit_exceeded
  build_each texts limits home source (sort_by group_order groups) >>= rank_candidates texts
