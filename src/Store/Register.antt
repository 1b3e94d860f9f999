-- ===== src/Store/Register.antt =====
-- `register_job`: a new task, or the replay of one that the idempotency key already names.
use search_trust_rd.Prelude.{
  ℕ, ◌+◌, ◌*◌, String, true, false, not, ◌||◌, Option, none, some, List, [], ◌∷◌, ◌==◌, whole,
  if◌then◌else◌,
}
use search_trust_rd.Cost.Counters.{Counters}
use search_trust_rd.Model.{
  JobStatus, JobStage, JobState, is_valid, Result, ok, err, idempotency_conflict,
  job_identity_conflict, validation_error,
}
use search_trust_rd.Redis.{
  Key, Redis, state, request, idempotency, active, sync_pending, job, set, zadd,
}
use search_trust_rd.Transaction.{Round, stop, commit, attempt}
use search_trust_rd.Store.Base.{
  JobValue, state_json, request_json, identity_json, Payload, Hashes, request_digest, StoreConfig,
  TransitionResult, JobCommand, JobPlan, get_state, announce,
}

pub record Registration : Type 0 where
  pub job_id : ℕ
  pub case_id : ℕ
  pub idempotency_key : String
  pub request_payload : Payload
  pub now : ℕ
  pub created_at : Option ℕ
  pub deadline_at : Option ℕ
  pub initial_generation : ℕ
  pub initial_revision : ℕ
  pub initial_attempt_count : ℕ
  pub initial_cost_counters : Counters

-- `a or b`, for a time that may be absent
abbrev pub or_else : Option ℕ → ℕ → ℕ
or_else none d = d
or_else (some t) d = t

module _ (H : Hashes) (c : StoreConfig) (r : Registration) where
  unfoldable pub initial_state : JobState
  unfolding request_digest
  initial_state = record {
    job_id = r.job_id;
    case_id = r.case_id;
    status = JobStatus.queued;
    stage = JobStage.queued;
    progress = 0;
    message = "Queued. Analysis will begin shortly.";
    attempt_count = r.initial_attempt_count;
    run_generation = r.initial_generation;
    revision = r.initial_revision;
    request_digest = request_digest H r.request_payload;
    idempotency_key_digest = H.sha256 r.idempotency_key;
    heartbeat_at = none;
    created_at = or_else r.created_at r.now;
    deadline_at = or_else r.deadline_at (r.now + 1_000_000 * c.job_timeout_seconds);
    updated_at = r.now;
    completed_at = none;
    report = none;
    error = none;
    cost_counters = r.initial_cost_counters;
    callback_synced_revision = 0;
  }

  abbrev pub idem_key : Key
  idem_key = idempotency r.case_id (H.sha256 r.idempotency_key)

  unfoldable pub register_commands : List JobCommand
  unfolding request_digest
  register_commands =
      set idem_key (identity_json r.job_id r.case_id (request_digest H r.request_payload))
        c.state_ttl_seconds
      ∷ set (request r.job_id) (request_json r.request_payload) c.state_ttl_seconds
      ∷ set (state r.job_id) (state_json initial_state) c.state_ttl_seconds
      ∷ zadd active (job r.job_id) (whole r.now)
      ∷ zadd sync_pending (job r.job_id) (whole initial_state.revision)
      ∷ []

  abbrev replay : JobState → JobPlan TransitionResult
  replay existing = stop (ok (record { state = existing; applied = false }))

  -- an idempotency key that is known
  abbrev replay_known : Result (Option JobState) → JobPlan TransitionResult
  replay_known (err e) = stop (err e)
  replay_known (ok none) = stop (err job_identity_conflict)
  replay_known (ok (some existing)) = replay existing

  abbrev check_identity : JobValue → Result (Option JobState) → JobPlan TransitionResult
  check_identity (identity_json known_job known_case digest) existing =
      if not (digest == request_digest H r.request_payload)
      then stop (err idempotency_conflict)
      else if not (known_job == r.job_id)
      then stop (err job_identity_conflict)
      else replay_known existing
  check_identity _ existing = stop (err idempotency_conflict)

  -- a new idempotency key, and perhaps a known job
  abbrev register_new : Result (Option JobState) → JobPlan TransitionResult
  register_new (err e) = stop (err e)
  register_new (ok none) =
      commit register_commands (record { state = initial_state; applied = true })
  register_new (ok (some existing)) =
      if not (existing.case_id == r.case_id)
        || not (existing.request_digest == request_digest H r.request_payload)
        || not (existing.idempotency_key_digest == H.sha256 r.idempotency_key)
      then stop (err job_identity_conflict)
      else replay existing

  -- The result is RegistrationResult with `applied` for `not replayed`.
  unfoldable pub register_plan :
      Option JobValue → Result (Option JobState) → JobPlan TransitionResult
  register_plan (some known) existing = check_identity known existing
  register_plan none existing = register_new existing

  abbrev pub register_watched : List Key
  register_watched = idem_key ∷ state r.job_id ∷ []

  module _ (R : Redis JobValue) where
    open R use {Db, get}

    unfoldable pub register_body : Db → JobPlan TransitionResult
    unfolding register_plan get_state
    register_body db = register_plan (get db idem_key) (get_state R r.job_id db)

    -- The snapshot is validated when it is built, before anything is read.
    unfoldable pub register_job : List (Round R) → Db → Result TransitionResult × Db
    unfolding register_body announce initial_state
    register_job rounds db =
        if is_valid initial_state
        then announce R r.job_id (attempt R register_watched register_body rounds db)
        else (err validation_error, db)
