-- ===== src/Cost/Counters.antt =====
-- app/jobs_v22/cost_models.py: the keys of a V1 counter snapshot and its validation. A dictionary
-- is an association list, whose first entry for a key counts.
use search_trust_rd.Prelude.{
  ℕ, Bool, true, false, ◌&&◌, Option, none, some, List, [], ◌∷◌, ◌++◌, map, leb, ◌==◌, Number,
  whole, all, is_some, if◌then◌else◌,
}

pub data CostProvider : Type 0 where
  serpapi firecrawl jina pagespeed gsc ga4 gbp dify : CostProvider

-- BASE_COUNTER_KEYS
pub data BaseCounter : Type 0 where
  cost_schema_version cost_ledger_revision pricing_revision : BaseCounter
  job_wall_elapsed_ms job_active_elapsed_ms job_attempts job_retry_count : BaseCounter
  provider_attempts_total provider_successes_total provider_failures_total : BaseCounter
  provider_outcome_unknown_total provider_local_denials_total : BaseCounter
  checkpoint_hits_total estimated_cost_usd_micros pricing_unknown_units_total : BaseCounter
  dify_input_tokens dify_output_tokens dify_total_tokens dify_usage_unknown_calls : BaseCounter

-- the metrics of PROVIDER_COUNTER_KEYS
pub data Metric : Type 0 where
  attempts successes failures outcome_unknown local_denials : Metric
  duration_ms billable_units estimated_cost pricing_unknown_units : Metric

-- `unknown` is a key outside ALLOWED_COUNTER_KEYS.
pub data CounterKey : Type 0 where
  base : BaseCounter → CounterKey
  provider : CostProvider → Metric → CounterKey
  unknown : ℕ → CounterKey

unfoldable pub base_index : BaseCounter → ℕ
base_index cost_schema_version = 0
base_index cost_ledger_revision = 1
base_index pricing_revision = 2
base_index job_wall_elapsed_ms = 3
base_index job_active_elapsed_ms = 4
base_index job_attempts = 5
base_index job_retry_count = 6
base_index provider_attempts_total = 7
base_index provider_successes_total = 8
base_index provider_failures_total = 9
base_index provider_outcome_unknown_total = 10
base_index provider_local_denials_total = 11
base_index checkpoint_hits_total = 12
base_index estimated_cost_usd_micros = 13
base_index pricing_unknown_units_total = 14
base_index dify_input_tokens = 15
base_index dify_output_tokens = 16
base_index dify_total_tokens = 17
base_index dify_usage_unknown_calls = 18

unfoldable pub provider_index : CostProvider → ℕ
provider_index serpapi = 0
provider_index firecrawl = 1
provider_index jina = 2
provider_index pagespeed = 3
provider_index gsc = 4
provider_index ga4 = 5
provider_index gbp = 6
provider_index dify = 7

unfoldable pub metric_index : Metric → ℕ
metric_index attempts = 0
metric_index successes = 1
metric_index failures = 2
metric_index outcome_unknown = 3
metric_index local_denials = 4
metric_index duration_ms = 5
metric_index billable_units = 6
metric_index estimated_cost = 7
metric_index pricing_unknown_units = 8

unfoldable pub counter_key_eq : CounterKey → CounterKey → Bool
unfolding base_index provider_index metric_index
counter_key_eq (base a) (base b) = base_index a == base_index b
counter_key_eq (provider p m) (provider q n) =
    provider_index p == provider_index q && metric_index m == metric_index n
counter_key_eq (unknown a) (unknown b) = a == b
counter_key_eq _ _ = false

abbrev pub Counters : Type 0
Counters = List (CounterKey × Number)

unfoldable pub counter : Counters → CounterKey → Option Number
unfolding counter_key_eq
counter [] k = none
counter ((j, v) ∷ rest) k = if counter_key_eq j k then some v else counter rest k

abbrev pub providers : List CostProvider
providers = serpapi ∷ firecrawl ∷ jina ∷ pagespeed ∷ gsc ∷ ga4 ∷ gbp ∷ dify ∷ []

abbrev base_counter_keys : List CounterKey
base_counter_keys = map base (
    cost_schema_version ∷ cost_ledger_revision ∷ pricing_revision ∷ job_wall_elapsed_ms
    ∷ job_active_elapsed_ms ∷ job_attempts ∷ job_retry_count ∷ provider_attempts_total
    ∷ provider_successes_total ∷ provider_failures_total ∷ provider_outcome_unknown_total
    ∷ provider_local_denials_total ∷ checkpoint_hits_total ∷ estimated_cost_usd_micros
    ∷ pricing_unknown_units_total ∷ dify_input_tokens ∷ dify_output_tokens ∷ dify_total_tokens
    ∷ dify_usage_unknown_calls ∷ [])

provider_keys : List CostProvider → List CounterKey
provider_keys [] = []
provider_keys (p ∷ ps) =
    map (provider p) (
      attempts ∷ successes ∷ failures ∷ outcome_unknown ∷ local_denials ∷ duration_ms
      ∷ billable_units ∷ estimated_cost ∷ pricing_unknown_units ∷ [])
    ++ provider_keys ps

unfoldable pub allowed_counter_keys : List CounterKey
unfolding provider_keys
allowed_counter_keys = base_counter_keys ++ provider_keys providers

abbrev is_known : CounterKey → Bool
is_known (unknown n) = false
is_known _ = true

abbrev pub max_counter_value : ℕ
max_counter_value = 1_000_000_000_000_000

abbrev safe_value : Number → Bool
safe_value (whole n) = leb n max_counter_value
safe_value _ = false

abbrev schema_is_one : Option Number → Bool
schema_is_one (some (whole n)) = n == 1
schema_is_one _ = false

-- `CostCountersV1.validate_counters`
unfoldable pub validate_counters : Counters → Bool
unfolding counter allowed_counter_keys
validate_counters cs =
    all (λ e. is_known e.0) cs
    && all (λ k. is_some (counter cs k)) allowed_counter_keys
    && all (λ e. safe_value e.1) cs
    && schema_is_one (counter cs (base cost_schema_version))

-- An empty dictionary stands before any accounting.
unfoldable pub validate_cost_counters_snapshot : Counters → Bool
unfolding validate_counters
validate_cost_counters_snapshot [] = true
validate_cost_counters_snapshot (e ∷ cs) = validate_counters (e ∷ cs)
