-- ===== src/Cost/Ledger.antt =====
-- app/jobs_v22/cost_ledger.py: JobCostLedger. Every operation is a mutation of the ledger's state
-- (those of claims stand in Cost/Book) that `mutate` puts into a transaction on the ledger's key.
use search_trust_rd.Prelude.{
  ℕ, ◌+◌, Bool, true, false, ◌&&◌, Option, none, some, List, [], ◌∷◌, leb, ◌==◌, if◌then◌else◌,
}
use search_trust_rd.Model.{
  Result, ok, err, validation_error, value_error, cost_ledger_unavailable, cost_claim_conflict,
  cost_limit_exceeded, capability_recovery_required,
}
use search_trust_rd.Redis.{Redis, cost_ledger, set}
use search_trust_rd.Transaction.{Round, Plan, stop, commit, attempt}
use search_trust_rd.Cost.Claims.{
  CostOperation, CostOutcome, success, failure, CostAttemptPhase, PricingCatalog, CostClaim,
  valid_claim, completed,
}
use search_trust_rd.Cost.Book.{CostLedgerState, valid_ledger, new_state, find_claim, claim_mutation}

abbrev pub phase_eq : CostAttemptPhase → CostAttemptPhase → Bool
phase_eq CostAttemptPhase.job CostAttemptPhase.job = true
phase_eq CostAttemptPhase.preparation CostAttemptPhase.preparation = true
phase_eq CostAttemptPhase.execution CostAttemptPhase.execution = true
phase_eq _ _ = false

-- The arguments of `complete`.
pub record Completion : Type 0 where
  pub outcome : CostOutcome
  pub duration_ms : ℕ
  pub billable_units : ℕ
  pub usage_known : Bool
  pub input_tokens : Option ℕ
  pub output_tokens : Option ℕ
  pub total_tokens : Option ℕ

unfoldable pub completed_claim : Completion → ℕ → CostClaim → CostClaim
completed_claim a now c = record c {
  completed_at = some now;
  outcome = some a.outcome;
  duration_ms = some a.duration_ms;
  billable_units = a.billable_units;
  usage_known = a.usage_known;
  input_tokens = a.input_tokens;
  output_tokens = a.output_tokens;
  total_tokens = a.total_tokens;
}

abbrev same_number : Option ℕ → Option ℕ → Bool
same_number none none = true
same_number (some a) (some b) = a == b
same_number _ _ = false

abbrev same_outcome : Option CostOutcome → CostOutcome → Bool
same_outcome (some success) success = true
same_outcome (some failure) failure = true
same_outcome _ _ = false

abbrev same_flag : Bool → Bool → Bool
same_flag true b = b
same_flag false true = false
same_flag false false = true

-- `comparable_current == completed`: the other fields are those of the current claim on both sides.
unfoldable pub same_completion : Completion → CostClaim → Bool
same_completion a c =
    same_outcome c.outcome a.outcome
    && same_number c.duration_ms (some a.duration_ms)
    && c.billable_units == a.billable_units
    && same_flag c.usage_known a.usage_known
    && same_number c.input_tokens a.input_tokens
    && same_number c.output_tokens a.output_tokens
    && same_number c.total_tokens a.total_tokens

-- `claims[index] = completed`
unfoldable pub put_claim : ℕ → CostClaim → List CostClaim → List CostClaim
put_claim id new [] = []
put_claim id new (c ∷ cs) = if c.claim_id == id then new ∷ cs else c ∷ put_claim id new cs

unfoldable pub with_claim : ℕ → CostClaim → ℕ → CostLedgerState → CostLedgerState
with_claim id new now s = record s {
  revision = s.revision + 1;
  updated_at = now;
  claims = put_claim id new s.claims;
}

-- The mutation of `complete`, on a claim that its id has found.
abbrev pub complete_found :
    Option CostClaim → ℕ → Completion → CostLedgerState → ℕ → Result (CostLedgerState × CostClaim)
complete_found none id a s now = err cost_claim_conflict
complete_found (some current) id a s now =
    if valid_claim (completed_claim a now current)
    then if completed current
      then if same_completion a current then ok (s, current) else err cost_claim_conflict
      else ok (with_claim id (completed_claim a now current) now s, completed_claim a now current)
    else err validation_error

unfoldable pub complete_mutation :
    ℕ → Completion → CostLedgerState → ℕ → Result (CostLedgerState × CostClaim)
complete_mutation id a s now = complete_found (find_claim id s.claims) id a s now

unfoldable pub hit_mutation : ℕ → CostLedgerState → ℕ → Result {0} (CostLedgerState × Unit)
hit_mutation count s now = ok (
  record s {
    revision = s.revision + 1;
    updated_at = now;
    checkpoint_hits = s.checkpoint_hits + count;
  },
  tt,
)

-- `phases[phase] = phases.get(phase, 0) + 1`
unfoldable pub count_phase :
    CostAttemptPhase → List (CostAttemptPhase × ℕ) → List (CostAttemptPhase × ℕ)
count_phase p [] = (p, 1) ∷ []
count_phase p ((q, n) ∷ rest) =
    if phase_eq q p then (q, n + 1) ∷ rest else (q, n) ∷ count_phase p rest

abbrev phases_after :
    CostAttemptPhase → Option (List (CostAttemptPhase × ℕ)) → Option (List (CostAttemptPhase × ℕ))
phases_after p none = none
phases_after p (some ps) = some (count_phase p ps)

unfoldable pub attempt_mutation :
    ℕ → CostAttemptPhase → CostLedgerState → ℕ → Result {0} (CostLedgerState × Unit)
attempt_mutation active_elapsed_ms phase s now = ok (
  record s {
    revision = s.revision + 1;
    updated_at = now;
    job_attempts = s.job_attempts + 1;
    phase_attempts = phases_after phase s.phase_attempts;
    job_active_elapsed_ms = s.job_active_elapsed_ms + active_elapsed_ms;
  },
  tt,
)

-- The document under a ledger's key; one that is no ledger is `other`.
pub data LedgerValue : Type 0 where
  ledger_json : CostLedgerState → LedgerValue
  other : LedgerValue

-- The arguments of `__init__`.
pub record LedgerConfig : Type 0 where
  pub job_id : ℕ
  pub ttl_seconds : ℕ
  pub pricing : PricingCatalog
  pub job_created_at : ℕ
  pub require_existing : Bool

-- `_decode`
unfoldable pub decode : LedgerConfig → Option LedgerValue → ℕ → Result CostLedgerState
decode c none now =
    if c.require_existing
    then err capability_recovery_required
    else ok (new_state c.job_id c.pricing c.job_created_at now)
decode c (some other) now = err cost_ledger_unavailable
decode c (some (ledger_json s)) now =
    if valid_ledger s
    then if s.job_id == c.job_id then ok s else err cost_claim_conflict
    else err cost_ledger_unavailable

-- A mutation's result, validated and put under the key.
unfoldable pub written :
    {A : Type 0} → LedgerConfig → Result (CostLedgerState × A) → Plan LedgerValue A
written c (err e) = stop (err e)
written c (ok (updated, result)) =
    if valid_ledger updated
    then commit (set (cost_ledger c.job_id) (ledger_json updated) c.ttl_seconds ∷ []) result
    else stop (err validation_error)

unfoldable pub mutation_plan :
    {A : Type 0}
    → LedgerConfig
    → (CostLedgerState → ℕ → Result (CostLedgerState × A))
    → ℕ
    → Result CostLedgerState
    → Plan LedgerValue A
unfolding written
mutation_plan c operation now (err e) = stop (err e)
mutation_plan c operation now (ok current) = written c (operation current now)

-- CostLimitExceeded, when the mutation has counted a denial
abbrev pub granted : {D : Type 0} → Result (Option CostClaim) × D → Result CostClaim × D
granted (err e, db) = (err e, db)
granted (ok none, db) = (err cost_limit_exceeded, db)
granted (ok (some claim), db) = (ok claim, db)

module _ (c : LedgerConfig) (R : Redis LedgerValue) where
  open R use {Db, get}

  unfoldable pub mutation_body :
      {A : Type 0}
      → (CostLedgerState → ℕ → Result (CostLedgerState × A))
      → ℕ
      → Db
      → Plan LedgerValue A
  unfolding decode mutation_plan
  mutation_body operation now db =
      mutation_plan c operation now (decode c (get db (cost_ledger c.job_id)) now)

  -- `_mutate`; the clock shows one time in all rounds of a call.
  unfoldable pub mutate :
      {A : Type 0}
      → (CostLedgerState → ℕ → Result (CostLedgerState × A))
      → ℕ
      → List (Round R)
      → Db
      → Result A × Db
  unfolding mutation_body
  mutate operation now rounds db =
      attempt R (cost_ledger c.job_id ∷ []) (mutation_body operation now) rounds db

  unfoldable pub ensure : ℕ → List (Round R) → Db → Result CostLedgerState × Db
  ensure now rounds db = mutate (λ s at. ok (s, s)) now rounds db

  unfoldable pub claim : ℕ → CostOperation → ℕ → List (Round R) → Db → Result CostClaim × Db
  claim id op now rounds db = granted (mutate (claim_mutation id op) now rounds db)

  unfoldable pub complete : ℕ → Completion → ℕ → List (Round R) → Db → Result CostClaim × Db
  unfolding complete_mutation
  complete id a now rounds db = mutate (complete_mutation id a) now rounds db

  unfoldable pub record_checkpoint_hit : ℕ → ℕ → List (Round R) → Db → Result {0} Unit × Db
  record_checkpoint_hit count now rounds db =
      if leb 1 count && leb count 10_000
      then mutate (hit_mutation count) now rounds db
      else (err value_error, db)

  unfoldable pub record_job_attempt :
      ℕ → CostAttemptPhase → ℕ → List (Round R) → Db → Result {0} Unit × Db
  record_job_attempt active_elapsed_ms phase now rounds db =
      if leb active_elapsed_ms 86_400_000
      then mutate (attempt_mutation active_elapsed_ms phase) now rounds db
      else (err value_error, db)

  -- The method `state`.
  unfoldable pub current_state : ℕ → List (Round R) → Db → Result CostLedgerState × Db
  current_state now rounds db = elim (get db (cost_ledger c.job_id)) [
    | none ↦ ensure now rounds db
    | some v ↦ (decode c (some v) now, db)
  ]
