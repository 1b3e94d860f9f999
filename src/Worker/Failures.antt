-- ===== src/Worker/Failures.antt =====
-- app/jobs_v22/errors.py, `classify_job_exception`, with the classes that it knows, and
-- `retry_delay_seconds` of app/jobs_v22/worker.py. Exceptions of libraries are told apart only as
-- far as the code does.
use Prim.Native.Nat.{◌^◌}
use search_trust_rd.Prelude.{
  ℕ, ◌+◌, ◌-◌, ◌*◌, ◌%◌, String, Bool, true, false, ◌||◌, ◌==◌, leb, min, if◌then◌else◌,
}
use search_trust_rd.Model.{
  JobError, idempotency_conflict, job_identity_conflict, job_not_found, job_not_retryable,
  invalid_job_transition, job_lease_lost, validation_error, overflow_error, value_error,
  cost_ledger_unavailable, cost_claim_conflict, cost_limit_exceeded, capability_recovery_required,
}

pub record ClassifiedJobError : Type 0 where
  pub error_code : String
  pub user_message : String
  pub retryable : Bool

-- `durable_error` is any other DurableJobError, with what it was raised with.
pub data JobException : Type 0 where
  raised : JobError → JobException
  job_deadline_exceeded provider_circuit_open request_missing : JobException
  durable_error : ClassifiedJobError → JobException
  timeout_exception network_error type_error : JobException
  http_status_error : ℕ → JobException
  other_exception : JobException

abbrev pub deterministic : String → String → ClassifiedJobError
deterministic code message = record { error_code = code; user_message = message; retryable = false }

abbrev pub transient : String → String → ClassifiedJobError
transient code message = record { error_code = code; user_message = message; retryable = true }

abbrev pub temporarily_unavailable : ClassifiedJobError
temporarily_unavailable =
    transient "PROVIDER_TEMPORARILY_UNAVAILABLE"
      "A data provider is temporarily unavailable. The task will be retried."

abbrev pub input_invalid : ClassifiedJobError
input_invalid = deterministic "V22_INPUT_INVALID" "The analysis request is invalid."

abbrev pub internal_error : ClassifiedJobError
internal_error =
    transient "V22_INTERNAL_ERROR"
      "The analysis could not be completed because of a temporary internal error."

-- `CostLedgerError`
abbrev pub cost_ledger_error : String → ClassifiedJobError
cost_ledger_error code =
    transient code "Cost controls are temporarily unavailable. The task will be retried."

-- The classes of errors.py and cost_ledger.py; the rest are pydantic's and Python's. The message of
-- InvalidJobTransition, which names the two statuses in the source, is a fixed text here.
unfoldable pub classify_raised : JobError → ClassifiedJobError
classify_raised idempotency_conflict =
    deterministic "IDEMPOTENCY_CONFLICT"
      "The idempotency key is already associated with a different request."
classify_raised job_identity_conflict =
    deterministic "JOB_IDENTITY_CONFLICT"
      "The job identifier is already associated with a different task."
classify_raised job_not_found = deterministic "JOB_NOT_FOUND" "The requested task was not found."
classify_raised job_not_retryable =
    deterministic "JOB_NOT_RETRYABLE" "The task is not eligible for a manual retry."
classify_raised invalid_job_transition =
    deterministic "INVALID_JOB_TRANSITION" "The task state transition is not allowed."
classify_raised job_lease_lost =
    deterministic "JOB_LEASE_LOST" "This task run was superseded by recovery."
classify_raised validation_error = input_invalid
classify_raised overflow_error = internal_error
classify_raised value_error = input_invalid
classify_raised cost_ledger_unavailable = cost_ledger_error "V22_COST_LEDGER_UNAVAILABLE"
classify_raised cost_claim_conflict = cost_ledger_error "V22_COST_CLAIM_CONFLICT"
classify_raised cost_limit_exceeded =
    deterministic "V22_PROVIDER_ATTEMPT_LIMIT"
      "The task reached its safe provider request limit and could not be completed."
classify_raised capability_recovery_required = cost_ledger_error "CAPABILITY_RECOVERY_REQUIRED"

unfoldable pub classify_job_exception : JobException → ClassifiedJobError
unfolding classify_raised
classify_job_exception (raised e) = classify_raised e
classify_job_exception job_deadline_exceeded =
    deterministic "JOB_DEADLINE_EXCEEDED" "The analysis exceeded its processing deadline."
classify_job_exception provider_circuit_open =
    transient "PROVIDER_CIRCUIT_OPEN"
      "A data provider is cooling down after repeated temporary failures."
classify_job_exception request_missing =
    deterministic "JOB_REQUEST_MISSING" "The persisted analysis request is unavailable."
classify_job_exception (durable_error e) = e
classify_job_exception timeout_exception = temporarily_unavailable
classify_job_exception network_error = temporarily_unavailable
classify_job_exception type_error = input_invalid
classify_job_exception (http_status_error status) =
    if status == 429 || leb 500 status
    then temporarily_unavailable
    else deterministic "PROVIDER_REQUEST_REJECTED" "A data provider rejected the request."
classify_job_exception other_exception = internal_error

-- The first byte of the digest of `job_id:attempt_count` is an argument.
unfoldable pub retry_delay_seconds : ℕ → ℕ → ℕ
retry_delay_seconds byte attempt_count = min (5 * 2 ^ (attempt_count - 1)) 60 + byte % 4
