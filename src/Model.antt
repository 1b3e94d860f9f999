-- ===== src/Model.antt =====
-- app/jobs_v22/models.py and app/jobs_v22/errors.py: the durable snapshot of one job, its
-- validation, and the failures that the store raises.
--
-- A UUID is its 128-bit number, a digest the number its hexadecimal text writes, a time a number
-- of microseconds since the epoch. Reports are identified by what the validation reads of them.
use Prim.Native.String.{count}
use search_trust_rd.Cost.Counters.{Counters, validate_cost_counters_snapshot}
use search_trust_rd.Prelude.{
  ℕ, String, Bool, true, false, ◌&&◌, ◌||◌, Option, none, some, ltb, leb, ◌==◌, is_none, is_some,
  all, codes,
}

pub data JobStatus : Type 0 where
  queued running succeeded failed : JobStatus

pub data JobStage : Type 0 where
  queued collecting_site collecting_market collecting_competitors building_evidence : JobStage
  evaluating generating_copy validating persisting completed failed : JobStage

-- A V2.2 report, or a capability report with its own id and the case of its input manifest.
pub data DurableReport : Type 0 where
  report_v22 : ℕ → DurableReport
  capability_report : ℕ → ℕ → DurableReport

pub record JobErrorState : Type 0 where
  pub error_code : String
  pub user_message : String
  pub retryable : Bool
  pub stage : JobStage
  pub diagnostic_id : ℕ

pub record JobState : Type 0 where
  pub job_id : ℕ
  pub case_id : ℕ
  pub status : JobStatus
  pub stage : JobStage
  pub progress : ℕ
  pub message : String
  pub attempt_count : ℕ
  pub run_generation : ℕ
  pub revision : ℕ
  pub request_digest : ℕ
  pub idempotency_key_digest : ℕ
  pub heartbeat_at : Option ℕ
  pub created_at : ℕ
  pub deadline_at : ℕ
  pub updated_at : ℕ
  pub completed_at : Option ℕ
  pub report : Option DurableReport
  pub error : Option JobErrorState
  pub cost_counters : Counters
  pub callback_synced_revision : ℕ

-- `Field(min_length=…, max_length=…)`
unfoldable pub length_between : ℕ → ℕ → String → Bool
length_between lo hi text = leb lo (count text) && leb (count text) hi

-- a character of `^[A-Z0-9_]+$`
is_code_char : ℕ → Bool
is_code_char c = (leb b'A' c && leb c b'Z') || (leb b'0' c && leb c b'9') || c == b'_'

unfoldable pub valid_error : JobErrorState → Bool
unfolding length_between is_code_char
valid_error e =
    length_between 1 120 e.error_code
    && all is_code_char (codes e.error_code)
    && length_between 1 500 e.user_message

unfoldable pub valid_error_field : Option JobErrorState → Bool
unfolding valid_error
valid_error_field none = true
valid_error_field (some e) = valid_error e

-- The constraints that the fields declare.
unfoldable pub valid_fields : JobState → Bool
unfolding length_between
valid_fields s =
    leb s.progress 100
    && length_between 1 500 s.message
    && leb 1 s.run_generation
    && leb 1 s.revision
    && valid_error_field s.error
    && validate_cost_counters_snapshot s.cost_counters

abbrev pub is_completed : JobStage → Bool
is_completed JobStage.completed = true
is_completed _ = false

abbrev pub is_failed_stage : JobStage → Bool
is_failed_stage JobStage.failed = true
is_failed_stage _ = false

-- a capability result must belong to this task and case
abbrev pub report_belongs : ℕ → ℕ → Option DurableReport → Bool
report_belongs job case none = false
report_belongs job case (some (report_v22 n)) = true
report_belongs job case (some (capability_report id owner)) = id == job && owner == case

unfoldable pub valid_status : JobStatus → JobState → Bool
valid_status JobStatus.succeeded s =
    is_some s.report
    && is_none s.error
    && is_completed s.stage
    && s.progress == 100
    && is_some s.completed_at
    && report_belongs s.job_id s.case_id s.report
valid_status JobStatus.failed s =
    is_some s.error && is_none s.report && is_failed_stage s.stage && is_some s.completed_at
valid_status _ s = is_none s.report && is_none s.error && is_none s.completed_at

unfoldable pub validate_lifecycle : JobState → Bool
unfolding valid_status
validate_lifecycle s =
    leb s.created_at s.updated_at
    && ltb s.created_at s.deadline_at
    && leb s.callback_synced_revision s.revision
    && valid_status s.status s

-- `JobState.model_validate`
unfoldable pub is_valid : JobState → Bool
is_valid s = valid_fields s && validate_lifecycle s

abbrev pub is_terminal : JobStatus → Bool
is_terminal JobStatus.succeeded = true
is_terminal JobStatus.failed = true
is_terminal _ = false

unfoldable pub terminal : JobState → Bool
terminal s = is_terminal s.status

-- `validation_error` is pydantic's, `overflow_error` and `value_error` are Python's. Those of cost
-- and recovery are raised by cost_ledger.py; the others are the classes of errors.py that the store
-- raises.
pub data JobError : Type 0 where
  idempotency_conflict job_identity_conflict job_not_found job_not_retryable : JobError
  invalid_job_transition job_lease_lost validation_error overflow_error value_error : JobError
  cost_ledger_unavailable cost_claim_conflict cost_limit_exceeded : JobError
  capability_recovery_required : JobError

pub data Result {ℓ} (A : Type ℓ) : Type ℓ where
  ok : A → Result A
  err : JobError → Result A
