-- ===== src/Cost/Book.antt =====
-- CostLedgerState of app/jobs_v22/cost_models.py, and what each operation of
-- app/jobs_v22/cost_ledger.py makes of one: its function `mutate`, without the transaction.
use search_trust_rd.Prelude.{
  ℕ, ◌+◌, Bool, true, false, ◌&&◌, not, Option, none, some, List, [], ◌∷◌, ◌++◌, map, leb, ◌==◌,
  all, any, length, max, if◌then◌else◌,
}
use search_trust_rd.Model.{Result, ok, err, cost_claim_conflict}
use search_trust_rd.Cost.Counters.{max_counter_value}
use search_trust_rd.Cost.Claims.{
  CostOperation, firecrawl_scrape, operation_eq, operation_provider, operation_limit,
  CostAttemptPhase, PricingCatalog, valid_pricing, CostClaim, valid_claim,
}

pub data LedgerSchema : Type 0 where
  v22_cost_ledger_v1 v22_cost_ledger_v2 : LedgerSchema

pub record CostLedgerState : Type 0 where
  pub schema_version : LedgerSchema
  pub job_id : ℕ
  pub revision : ℕ
  pub pricing : PricingCatalog
  pub created_at : ℕ
  pub updated_at : ℕ
  pub claims : List CostClaim
  pub local_denials : List (CostOperation × ℕ)
  pub checkpoint_hits : ℕ
  pub job_attempts : ℕ
  pub phase_attempts : Option (List (CostAttemptPhase × ℕ))
  pub job_active_elapsed_ms : ℕ

unique : List ℕ → Bool
unique [] = true
unique (x ∷ xs) = not (any (λ y. y == x) xs) && unique xs

phase_sum : List (CostAttemptPhase × ℕ) → ℕ
phase_sum [] = 0
phase_sum ((p, n) ∷ rest) = n + phase_sum rest

valid_phases : Option (List (CostAttemptPhase × ℕ)) → ℕ → Bool
unfolding phase_sum
valid_phases none attempts = true
valid_phases (some ps) attempts = all (λ e. leb 1 e.1 && leb e.1 100) ps && phase_sum ps == attempts

-- `CostLedgerState.model_validate`, the claims and the prices included
unfoldable pub valid_ledger : CostLedgerState → Bool
unfolding unique valid_phases
valid_ledger s =
    leb 1 s.revision
    && valid_pricing s.pricing
    && all valid_claim s.claims
    && leb (length s.claims) 100
    && leb s.checkpoint_hits 1_000_000
    && leb s.job_attempts 100
    && leb s.job_active_elapsed_ms max_counter_value
    && leb s.created_at s.updated_at
    && valid_phases s.phase_attempts s.job_attempts
    && unique (map (λ c. c.claim_id) s.claims)
    && all (λ e. leb e.1 1_000_000) s.local_denials

-- `_new_state`
unfoldable pub new_state : ℕ → PricingCatalog → ℕ → ℕ → CostLedgerState
new_state job_id pricing job_created_at now = record {
  schema_version = v22_cost_ledger_v1;
  job_id = job_id;
  revision = 1;
  pricing = pricing;
  created_at = job_created_at;
  updated_at = max now job_created_at;
  claims = [];
  local_denials = [];
  checkpoint_hits = 0;
  job_attempts = 0;
  phase_attempts = some [];
  job_active_elapsed_ms = 0;
}

unfoldable pub find_claim : ℕ → List CostClaim → Option CostClaim
find_claim id [] = none
find_claim id (c ∷ cs) = if c.claim_id == id then some c else find_claim id cs

-- `sum(item.operation == operation for item in state.claims)`
unfoldable pub used : CostOperation → List CostClaim → ℕ
used op [] = 0
used op (c ∷ cs) = (if operation_eq c.operation op then 1 else 0) + used op cs

-- `denials[operation] = denials.get(operation, 0) + 1`
unfoldable pub count_denial : CostOperation → List (CostOperation × ℕ) → List (CostOperation × ℕ)
count_denial op [] = (op, 1) ∷ []
count_denial op ((o, n) ∷ rest) =
    if operation_eq o op then (o, n + 1) ∷ rest else (o, n) ∷ count_denial op rest

unfoldable pub new_claim : ℕ → CostOperation → ℕ → CostClaim
new_claim id op now = record {
  claim_id = id;
  operation = op;
  provider = operation_provider op;
  claimed_at = now;
  completed_at = none;
  outcome = none;
  duration_ms = none;
  billable_units = 1;
  usage_known = false;
  input_tokens = none;
  output_tokens = none;
  total_tokens = none;
}

unfoldable pub denied : CostOperation → ℕ → CostLedgerState → CostLedgerState
denied op now s = record s {
  revision = s.revision + 1;
  updated_at = now;
  local_denials = count_denial op s.local_denials;
}

abbrev schema_after : CostOperation → LedgerSchema → LedgerSchema
schema_after firecrawl_scrape v = v22_cost_ledger_v2
schema_after _ v = v

unfoldable pub claimed : ℕ → CostOperation → ℕ → CostLedgerState → CostLedgerState
claimed id op now s = record s {
  schema_version = schema_after op s.schema_version;
  revision = s.revision + 1;
  updated_at = now;
  claims = s.claims ++ new_claim id op now ∷ [];
}

-- A claim that is known by its id; otherwise the limit decides.
abbrev pub claim_known :
    Option CostClaim
    → ℕ
    → CostOperation
    → CostLedgerState
    → ℕ
    → Result (CostLedgerState × Option CostClaim)
claim_known (some existing) id op s now =
    if operation_eq existing.operation op then ok (s, some existing) else err cost_claim_conflict
claim_known none id op s now =
    if leb (operation_limit op) (used op s.claims)
    then ok (denied op now s, none)
    else ok (claimed id op now s, some (new_claim id op now))

-- The mutation of `claim`: no claim in the result is CostLimitExceeded.
unfoldable pub claim_mutation :
    ℕ → CostOperation → CostLedgerState → ℕ → Result (CostLedgerState × Option CostClaim)
claim_mutation id op s now = claim_known (find_claim id s.claims) id op s now
