-- ===== src/Examples/Costs.antt =====
-- A ledger that grants one location lookup, refuses a second, and sees the first completed.
use search_trust_rd.Prelude.{
  ◌+◌, ◌*◌, ◌<◌, length, ◌≤◌, ◌≡◌, refl, false, Option, none, some, List, [], ◌∷◌, map,
}
use search_trust_rd.Redis.{Redis, cost_ledger, run_all}
use search_trust_rd.Redis.Journal.{journal}
use search_trust_rd.Transaction.{attempt, settle}
use search_trust_rd.Cost.Counters.{
  providers, provider_index, base, provider_attempts_total, estimated_cost_usd_micros,
}
use search_trust_rd.Cost.Claims.{
  serpapi_location, firecrawl_scrape, operation_index, operation_provider, operation_limit, success,
  CostAttemptPhase, PricingCatalog, valid_pricing, valid_claim,
}
use search_trust_rd.Cost.Book.{
  CostLedgerState, valid_ledger, new_state, find_claim, used, count_denial, new_claim, denied,
  claimed, claim_mutation,
}
use search_trust_rd.Cost.Ledger.{
  Completion, completed_claim, put_claim, with_claim, complete_mutation, hit_mutation, count_phase,
  attempt_mutation, LedgerValue, ledger_json, LedgerConfig, decode, written, mutation_plan,
  mutation_body, mutate, claim, complete, record_checkpoint_hit, record_job_attempt,
}
use search_trust_rd.Cost.Growth.{Grows}
use search_trust_rd.Cost.Summary.{tally, microdollars_for_tokens}
use search_trust_rd.Cost.Conservation.{Balanced, tally-Balanced}
use search_trust_rd.Cost.Totals.{cost_sum, tally_claims, tokens_bounds}
use search_trust_rd.Cost.Histories.{
  LedgerCall, claims, completes, counts_hits, counts_attempt, perform, history, history-Grows,
  history-WithinLimits,
}

abbrev server : Redis LedgerValue
server = journal LedgerValue

abbrev prices : PricingCatalog
prices = record {
  revision = 1;
  request_usd_micros = map (λ p. (p, some 10)) providers;
  dify_input_mtok_usd_micros = none;
  dify_output_mtok_usd_micros = none;
}

abbrev config : LedgerConfig
config = record {
  job_id = 7;
  ttl_seconds = 86400;
  pricing = prices;
  job_created_at = 1000;
  require_existing = false;
}

abbrev done : Completion
done = record {
  outcome = success;
  duration_ms = 40;
  billable_units = 1;
  usage_known = false;
  input_tokens = none;
  output_tokens = none;
  total_tokens = none;
}

abbrev calls : List LedgerCall
calls =
    claims 1 serpapi_location 2000
    ∷ claims 2 serpapi_location 2100
    ∷ completes 1 done 2200
    ∷ counts_hits 3 2300
    ∷ counts_attempt 500 CostAttemptPhase.execution 2400
    ∷ []

abbrev ledger_or : CostLedgerState → Option LedgerValue → CostLedgerState
ledger_or s (some (ledger_json t)) = t
ledger_or s _ = s

abbrev fresh : CostLedgerState
fresh = new_state 7 prices 1000 2000

abbrev last : CostLedgerState
last = ledger_or fresh (server.get (history config server calls []) (cost_ledger 7))

last_stored : server.get (history config server calls []) (cost_ledger 7) ≡ some (ledger_json last)
unfolding history perform claim complete record_checkpoint_hit record_job_attempt mutate attempt
    settle mutation_body mutation_plan decode written valid_ledger valid_pricing valid_claim
    claim_mutation complete_mutation hit_mutation attempt_mutation find_claim used operation_index
    operation_limit claimed denied new_state new_claim put_claim with_claim completed_claim
    operation_provider provider_index run_all count_denial count_phase
last_stored = refl

history-WithinLimits_example : used serpapi_location last.claims ≤ operation_limit serpapi_location
history-WithinLimits_example =
    history-WithinLimits config server calls [] last refl last_stored serpapi_location

last_revision : last.revision ≡ 6
unfolding history perform claim complete record_checkpoint_hit record_job_attempt mutate attempt
    settle mutation_body mutation_plan decode written valid_ledger valid_pricing valid_claim
    claim_mutation complete_mutation hit_mutation attempt_mutation find_claim used operation_index
    operation_limit claimed denied new_state new_claim put_claim with_claim completed_claim
    operation_provider provider_index run_all count_denial count_phase
last_revision = refl

abbrev later : List LedgerCall
later = claims 3 firecrawl_scrape 3000 ∷ completes 1 done 3100 ∷ []

history-Grows_example :
    (t : CostLedgerState) × ((server.get
          (history config server later (history config server calls []))
          (cost_ledger 7)
        ≡ some (ledger_json t))
      × Grows last t)
history-Grows_example =
    history-Grows config server later (history config server calls []) last last_stored

tally-Balanced_example : Balanced (tally 9000 last)
tally-Balanced_example = tally-Balanced 9000 last

tally_claims_example :
    (tally 9000 last (base provider_attempts_total) ≡ length last.claims)
    × (tally 9000 last (base estimated_cost_usd_micros) ≡ cost_sum last.pricing last.claims)
tally_claims_example = tally_claims 9000 last

tokens_bounds_example :
    (1234 * 567 ≤ 1_000_000 * microdollars_for_tokens 1234 567)
    × (1_000_000 * microdollars_for_tokens 1234 567 < 1234 * 567 + 1_000_000)
tokens_bounds_example = tokens_bounds 1234 567

rounded_up : microdollars_for_tokens 1234 567 ≡ 1
unfolding microdollars_for_tokens
rounded_up = refl
