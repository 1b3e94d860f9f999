-- ===== src/Cost/Summary.antt =====
-- `cost_counters_from_state` of app/jobs_v22/cost_models.py: the counters that a ledger's claims,
-- denials and prices add up to. The dictionary that the source fills has every allowed key, so it is
-- a function of the key.
use search_trust_rd.Prelude.{
  ℕ, zero, suc, ◌+◌, ◌-◌, ◌*◌, ◌/◌, Bool, false, Option, none, some, List, [], ◌∷◌, map, whole,
  if◌then◌else◌,
}
use search_trust_rd.Model.{Result, ok, err, validation_error}
use search_trust_rd.Cost.Counters.{
  CostProvider, dify, CounterKey, base, provider, Counters, counter_key_eq, allowed_counter_keys,
  validate_counters, cost_schema_version, cost_ledger_revision, pricing_revision,
  job_wall_elapsed_ms, job_active_elapsed_ms, job_attempts, job_retry_count,
  provider_attempts_total, provider_successes_total, provider_failures_total,
  provider_outcome_unknown_total, provider_local_denials_total, checkpoint_hits_total,
  estimated_cost_usd_micros, pricing_unknown_units_total, dify_input_tokens, dify_output_tokens,
  dify_total_tokens, dify_usage_unknown_calls, attempts, successes, failures, outcome_unknown,
  local_denials, duration_ms, billable_units, estimated_cost, pricing_unknown_units,
}
use search_trust_rd.Cost.Claims.{
  CostOperation, operation_provider, CostOutcome, success, failure, CostAttemptPhase,
  PricingCatalog, CostClaim, provider_eq,
}
use search_trust_rd.Cost.Book.{CostLedgerState}

-- Integer division rounds down, so that of the sum rounds the product up.
unfoldable pub microdollars_for_tokens : ℕ → ℕ → ℕ
microdollars_for_tokens zero rate = 0
microdollars_for_tokens (suc t) zero = 0
microdollars_for_tokens (suc t) (suc r) = (suc t * suc r + 999_999) / 1_000_000

abbrev pub Tally : Type 0
Tally = CounterKey → ℕ

-- `counters[key] += n`
abbrev pub bump : CounterKey → ℕ → Tally → Tally
bump key n t k = if counter_key_eq k key then t k + n else t k

-- `pricing.request_usd_micros[provider]`: a validated catalog has an entry.
unfoldable pub request_rate : CostProvider → List (CostProvider × Option ℕ) → Option ℕ
request_rate p [] = none
request_rate p ((q, rate) ∷ rest) = if provider_eq q p then rate else request_rate p rest

abbrev or_zero : Option ℕ → ℕ
or_zero none = 0
or_zero (some n) = n

abbrev priced : Option ℕ → ℕ → ℕ
priced none units = 0
priced (some rate) units = rate * units

abbrev unpriced : Option ℕ → ℕ → ℕ
unpriced none units = units
unpriced (some rate) units = 0

abbrev token_price : Option ℕ → ℕ → ℕ
token_price none tokens = 0
token_price (some rate) tokens = microdollars_for_tokens tokens rate

-- Tokens count for Dify, when their usage is known.
abbrev token_usage : CostClaim → Bool
token_usage c = if provider_eq c.provider dify then c.usage_known else false

unfoldable pub claim_cost : PricingCatalog → CostClaim → ℕ
unfolding request_rate
claim_cost p c =
    priced (request_rate c.provider p.request_usd_micros) c.billable_units
    + (if token_usage c
        then token_price p.dify_input_mtok_usd_micros (or_zero c.input_tokens)
          + token_price p.dify_output_mtok_usd_micros (or_zero c.output_tokens)
        else 0)

unfoldable pub claim_unknown : PricingCatalog → CostClaim → ℕ
unfolding request_rate
claim_unknown p c =
    unpriced (request_rate c.provider p.request_usd_micros) c.billable_units
    + (if token_usage c
        then unpriced p.dify_input_mtok_usd_micros (or_zero c.input_tokens)
          + unpriced p.dify_output_mtok_usd_micros (or_zero c.output_tokens)
        else 0)

abbrev pub add_outcome : CostProvider → Option CostOutcome → Tally → Tally
add_outcome p (some success) t =
    bump (base provider_successes_total) 1 (bump (provider p successes) 1 t)
add_outcome p (some failure) t =
    bump (base provider_failures_total) 1 (bump (provider p failures) 1 t)
add_outcome p none t =
    bump (base provider_outcome_unknown_total) 1 (bump (provider p outcome_unknown) 1 t)

-- what a claim adds to Dify's counters
abbrev pub add_tokens : CostClaim → Tally → Tally
add_tokens c t =
    if provider_eq c.provider dify
    then if c.usage_known
      then bump (base dify_total_tokens) (or_zero c.total_tokens) (
          bump (base dify_output_tokens) (or_zero c.output_tokens)
            (bump (base dify_input_tokens) (or_zero c.input_tokens) t))
      else bump (base dify_usage_unknown_calls) 1 t
    else t

-- The counters that every claim adds to.
unfoldable pub add_attempt :
    CostProvider → Option CostOutcome → (duration billable cost unknown : ℕ) → Tally → Tally
unfolding counter_key_eq
add_attempt p outcome duration billable cost unknown t =
    bump (base pricing_unknown_units_total) unknown (
      bump (base estimated_cost_usd_micros) cost (
        bump (provider p pricing_unknown_units) unknown (
          bump (provider p estimated_cost) cost (
            bump (provider p duration_ms) duration (
              add_outcome p outcome (
                bump (provider p billable_units) billable
                  (bump (base provider_attempts_total) 1 (bump (provider p attempts) 1 t))))))))

-- One round of the loop over the claims. Additions to different keys commute, so those of tokens
-- come last.
unfoldable pub add_claim : PricingCatalog → CostClaim → Tally → Tally
unfolding claim_cost claim_unknown add_attempt
add_claim p c t = add_tokens c (
    add_attempt c.provider c.outcome (or_zero c.duration_ms) c.billable_units (claim_cost p c)
      (claim_unknown p c) t)

unfoldable pub add_claims : PricingCatalog → List CostClaim → Tally → Tally
unfolding add_claim
add_claims p [] t = t
add_claims p (c ∷ cs) t = add_claims p cs (add_claim p c t)

unfoldable pub add_denials : List (CostOperation × ℕ) → Tally → Tally
add_denials [] t = t
add_denials ((op, n) ∷ rest) t = add_denials rest (
    bump (base provider_local_denials_total) n
      (bump (provider (operation_provider op) local_denials) n t))

phase_retries : List (CostAttemptPhase × ℕ) → ℕ
phase_retries [] = 0
phase_retries ((p, n) ∷ rest) = (n - 1) + phase_retries rest

abbrev retry_count : Option (List (CostAttemptPhase × ℕ)) → ℕ → ℕ
retry_count (some ps) n = phase_retries ps
retry_count none n = n - 1

-- The dictionary before the loops.
unfoldable pub first_counters : ℕ → CostLedgerState → Tally
unfolding phase_retries
first_counters wall_ms s (base cost_schema_version) = 1
first_counters wall_ms s (base cost_ledger_revision) = s.revision
first_counters wall_ms s (base pricing_revision) = s.pricing.revision
first_counters wall_ms s (base job_wall_elapsed_ms) = wall_ms
first_counters wall_ms s (base job_active_elapsed_ms) = s.job_active_elapsed_ms
first_counters wall_ms s (base job_attempts) = s.job_attempts
first_counters wall_ms s (base job_retry_count) = retry_count s.phase_attempts s.job_attempts
first_counters wall_ms s (base checkpoint_hits_total) = s.checkpoint_hits
first_counters wall_ms s _ = 0

unfoldable pub tally : ℕ → CostLedgerState → Tally
unfolding add_claims add_denials first_counters
tally wall_ms s =
    add_claims s.pricing s.claims (add_denials s.local_denials (first_counters wall_ms s))

-- `wall_ms` stands for the time since the ledger's creation, which the source computes in floating
-- point.
unfoldable pub cost_counters_from_state : ℕ → CostLedgerState → Result Counters
cost_counters_from_state wall_ms s =
    let counters = map (λ k. (k, whole (tally wall_ms s k))) allowed_counter_keys in
    if validate_counters counters then ok counters else err validation_error
