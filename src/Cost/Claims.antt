-- ===== src/Cost/Claims.antt =====
-- app/jobs_v22/cost_models.py: operations and their limits, claims, prices and the ledger of one
-- job, with the validation of each model. A field that refuses negative numbers is a ℕ, a time a
-- number of microseconds, and a dictionary an association list whose first entry for a key counts.
use search_trust_rd.Prelude.{
  ℕ, ◌+◌, Bool, true, false, ◌&&◌, ◌||◌, not, Option, none, some, List, leb, ◌==◌, all, any,
  is_none, is_some, if◌then◌else◌,
}
use search_trust_rd.Cost.Counters.{
  CostProvider, serpapi, firecrawl, jina, pagespeed, gsc, ga4, gbp, dify, provider_index,
  max_counter_value, providers,
}

pub data CostOperation : Type 0 where
  serpapi_location serpapi_market_search serpapi_public_profile : CostOperation
  serpapi_customer_public_gbp firecrawl_map firecrawl_scrape jina_fetch : CostOperation
  pagespeed_analysis gsc_search_analytics ga4_key_events ga4_run_report : CostOperation
  gbp_location gbp_performance gbp_keywords dify_workflow : CostOperation

unfoldable pub operation_index : CostOperation → ℕ
operation_index serpapi_location = 0
operation_index serpapi_market_search = 1
operation_index serpapi_public_profile = 2
operation_index serpapi_customer_public_gbp = 3
operation_index firecrawl_map = 4
operation_index firecrawl_scrape = 5
operation_index jina_fetch = 6
operation_index pagespeed_analysis = 7
operation_index gsc_search_analytics = 8
operation_index ga4_key_events = 9
operation_index ga4_run_report = 10
operation_index gbp_location = 11
operation_index gbp_performance = 12
operation_index gbp_keywords = 13
operation_index dify_workflow = 14

abbrev pub operation_eq : CostOperation → CostOperation → Bool
operation_eq a b = operation_index a == operation_index b

unfoldable pub operation_provider : CostOperation → CostProvider
operation_provider serpapi_location = serpapi
operation_provider serpapi_market_search = serpapi
operation_provider serpapi_public_profile = serpapi
operation_provider serpapi_customer_public_gbp = serpapi
operation_provider firecrawl_map = firecrawl
operation_provider firecrawl_scrape = firecrawl
operation_provider jina_fetch = jina
operation_provider pagespeed_analysis = pagespeed
operation_provider gsc_search_analytics = gsc
operation_provider ga4_key_events = ga4
operation_provider ga4_run_report = ga4
operation_provider gbp_location = gbp
operation_provider gbp_performance = gbp
operation_provider gbp_keywords = gbp
operation_provider dify_workflow = dify

unfoldable pub operation_limit : CostOperation → ℕ
operation_limit serpapi_location = 1
operation_limit serpapi_market_search = 30
operation_limit serpapi_public_profile = 15
operation_limit serpapi_customer_public_gbp = 3
operation_limit firecrawl_map = 4
operation_limit firecrawl_scrape = 2
operation_limit jina_fetch = 0
operation_limit pagespeed_analysis = 5
operation_limit gsc_search_analytics = 12
operation_limit ga4_key_events = 20
operation_limit ga4_run_report = 8
operation_limit gbp_location = 1
operation_limit gbp_performance = 1
operation_limit gbp_keywords = 10
operation_limit dify_workflow = 3

abbrev pub provider_eq : CostProvider → CostProvider → Bool
provider_eq p q = provider_index p == provider_index q

pub data CostOutcome : Type 0 where
  success failure : CostOutcome

pub data CostAttemptPhase : Type 0 where
  job preparation execution : CostAttemptPhase

-- The prices of requests, which the source does not bound below, are taken as natural numbers.
pub record PricingCatalog : Type 0 where
  pub revision : ℕ
  pub request_usd_micros : List (CostProvider × Option ℕ)
  pub dify_input_mtok_usd_micros : Option ℕ
  pub dify_output_mtok_usd_micros : Option ℕ

abbrev at_most : ℕ → Option ℕ → Bool
at_most top none = true
at_most top (some n) = leb n top

-- `set(self.request_usd_micros) == set(PROVIDERS)`: no other provider exists.
unfoldable pub valid_pricing : PricingCatalog → Bool
valid_pricing c =
    leb 1 c.revision
    && leb c.revision 1_000_000
    && at_most max_counter_value c.dify_input_mtok_usd_micros
    && at_most max_counter_value c.dify_output_mtok_usd_micros
    && all (λ p. any (λ e. provider_eq e.0 p) c.request_usd_micros) providers

pub record CostClaim : Type 0 where
  pub claim_id : ℕ
  pub operation : CostOperation
  pub provider : CostProvider
  pub claimed_at : ℕ
  pub completed_at : Option ℕ
  pub outcome : Option CostOutcome
  pub duration_ms : Option ℕ
  pub billable_units : ℕ
  pub usage_known : Bool
  pub input_tokens : Option ℕ
  pub output_tokens : Option ℕ
  pub total_tokens : Option ℕ

-- the constraints that the fields declare
abbrev claim_fields : CostClaim → Bool
claim_fields c =
    at_most 86_400_000 c.duration_ms
    && leb 1 c.billable_units
    && leb c.billable_units 1_000_000
    && at_most 100_000_000 c.input_tokens
    && at_most 100_000_000 c.output_tokens
    && at_most 200_000_000 c.total_tokens

abbrev completion_whole : Option ℕ → Option CostOutcome → Option ℕ → Bool
completion_whole none none none = true
completion_whole (some t) (some o) (some d) = true
completion_whole _ _ _ = false

abbrev not_before : Option ℕ → ℕ → Bool
not_before none start = true
not_before (some t) start = leb start t

abbrev no_tokens : CostClaim → Bool
no_tokens c = is_none c.input_tokens && is_none c.output_tokens && is_none c.total_tokens

abbrev tokens_add : Option ℕ → Option ℕ → Option ℕ → Bool
tokens_add (some i) (some o) (some t) = t == i + o
tokens_add _ _ _ = false

-- Only Dify reports tokens, all three or none.
abbrev tokens_agree : CostClaim → Bool
tokens_agree c =
    (provider_eq c.provider dify || (not c.usage_known && no_tokens c))
    && (if c.usage_known
        then tokens_add c.input_tokens c.output_tokens c.total_tokens
        else no_tokens c)

unfoldable pub valid_claim : CostClaim → Bool
valid_claim c =
    claim_fields c
    && provider_eq (operation_provider c.operation) c.provider
    && completion_whole c.completed_at c.outcome c.duration_ms
    && not_before c.completed_at c.claimed_at
    && tokens_agree c

-- the property `completed`
abbrev pub completed : CostClaim → Bool
completed c = is_some c.outcome
