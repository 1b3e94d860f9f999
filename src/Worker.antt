-- ===== src/Worker.antt =====
-- app/jobs_v22/worker.py: one physical run of a job (`execute_v22_job`), and how it ends. What other
-- parts answer in the run is an argument, as are the times that it reads.
pub mod Failures
pub mod Updates
pub mod Runs
pub mod Delay
pub mod Valid
pub mod Settled
pub mod Attempts
pub mod Succeeded
pub mod Exhausted
pub mod Notices
use search_trust_rd.Prelude.{
  ℕ, ◌+◌, String, Bool, true, false, ◌&&◌, ◌||◌, not, Option, none, some, List, [], ◌∷◌, ltb, leb,
  ◌==◌, max, is_some, if◌then◌else◌,
}
use search_trust_rd.Cost.Counters.{Counters}
use search_trust_rd.Model.{
  JobStatus, JobStage, JobState, JobError, job_lease_lost, validation_error, valid_error,
  JobErrorState, DurableReport, terminal, Result, ok, err,
}
use search_trust_rd.Redis.{Redis}
use search_trust_rd.Store.Base.{
  JobValue, Payload, Hashes, StoreConfig, TransitionResult, require_state, get_request,
}
use search_trust_rd.Store.Transition.{Update, transition}
use search_trust_rd.Store.Lease.{acquire_lease, release_lease}
use search_trust_rd.Capability.{Decision, Handled, is_capability, capability_terminal_transition}
use search_trust_rd.Reconcile.{Sending, Action, World, sync}
use search_trust_rd.Worker.Failures.{
  JobException, raised, job_deadline_exceeded, request_missing, classify_job_exception,
  ClassifiedJobError, retry_delay_seconds,
}

-- How a run leaves the worker: ARQ calls it again after `Retry`, or it returns, or it raises.
pub data Ending : Type 0 where
  returns cancelled : Ending
  retries_in : ℕ → Ending
  raises : JobError → Ending

-- `synchronizer` and `coordinator` may be absent; `summaries` says whether the outbox takes a summary.
pub record Context : Type 0 where
  pub synchronizer : Option Sending
  pub coordinator : Option Decision
  pub summaries : Bool
  pub max_attempts : ℕ
  pub diagnostic_id : ℕ
  pub digest_byte : ℕ

-- The times at which a failure is recorded, by a coordinator and without one.
pub record Failing : Type 0 where
  pub exc : JobException
  pub counters : Option Counters
  pub decided_at : ℕ
  pub failed_at : ℕ

abbrev pub is_lease_lost : JobException → Bool
is_lease_lost (raised job_lease_lost) = true
is_lease_lost _ = false

abbrev pub will_retry : Context → JobState → JobException → Bool
will_retry ctx s exc =
    (classify_job_exception exc).retryable && ltb (max s.attempt_count 1) ctx.max_attempts

unfoldable pub queue_update : JobState → ℕ → Failing → Update
queue_update s generation f = record {
  status = JobStatus.queued;
  stage = JobStage.queued;
  progress = s.progress;
  message = "A temporary issue occurred. The task will retry automatically.";
  now = f.failed_at;
  attempt_count = some (max s.attempt_count 1);
  heartbeat_at = none;
  report = none;
  error = none;
  cost_counters = f.counters;
  expected_generation = some generation;
}

abbrev pub failure_code : ClassifiedJobError → String
failure_code e = if e.retryable then "JOB_RETRY_EXHAUSTED" else e.error_code

abbrev pub failure_message : ClassifiedJobError → String
failure_message e =
    if e.retryable
    then "The analysis could not be completed after multiple attempts. Please retry later."
    else e.user_message

unfoldable pub failure_error : ClassifiedJobError → ℕ → JobErrorState
failure_error e id = record {
  error_code = failure_code e;
  user_message = failure_message e;
  retryable = e.retryable;
  stage = JobStage.failed;
  diagnostic_id = id;
}

unfoldable pub failed_update : JobState → ℕ → Failing → JobErrorState → Update
failed_update s generation f e = record {
  status = JobStatus.failed;
  stage = JobStage.failed;
  progress = s.progress;
  message = e.user_message;
  now = f.failed_at;
  attempt_count = some (max s.attempt_count 1);
  heartbeat_at = none;
  report = none;
  error = some e;
  cost_counters = f.counters;
  expected_generation = some generation;
}

unfoldable pub enqueue_cost_summary : Bool → JobState → List JobState → List JobState
enqueue_cost_summary outbox s summaries =
    if outbox && terminal s && is_some s.completed_at then s ∷ summaries else summaries

module _ (R : Redis JobValue) (c : StoreConfig) where
  open R use {Db}

  -- What a run leaves: the store and the callbacks sent, and the summaries that the outbox took.
  abbrev pub Trace : Type 0
  Trace = World R c × List JobState

  -- A failure of the callback is logged.
  unfoldable pub notify_state : Option Sending → ℕ → World R c → World R c
  unfolding sync
  notify_state none id w = w
  notify_state (some sending) id w = (sync R c sending id w).1

  -- What follows an applied update: a callback, and a summary if the job has ended.
  unfoldable pub announced : Context → ℕ → TransitionResult → World R c → List JobState → Trace
  unfolding notify_state enqueue_cost_summary
  announced ctx id t w summaries =
      if t.applied
      then (
        notify_state ctx.synchronizer id w,
        enqueue_cost_summary ctx.summaries t.state summaries,
      )
      else (w, summaries)

  unfoldable pub queued_again :
      Context
      → JobState
      → List Action
      → List JobState
      → Result TransitionResult × Db
      → Ending × Trace
  unfolding notify_state
  queued_again ctx s sent summaries (err e, db) = (raises e, ((db, sent), summaries))
  queued_again ctx s sent summaries (ok t, db) = (
    retries_in (retry_delay_seconds ctx.digest_byte (max s.attempt_count 1)),
    (
      if t.applied then notify_state ctx.synchronizer s.job_id (db, sent) else (db, sent),
      summaries,
    ),
  )

  unfoldable pub ended :
      Context → ℕ → List Action → List JobState → Result TransitionResult × Db → Ending × Trace
  unfolding announced
  ended ctx id sent summaries (err e, db) = (raises e, ((db, sent), summaries))
  ended ctx id sent summaries (ok t, db) = (returns, announced ctx id t (db, sent) summaries)

  unfoldable pub fails_for_good :
      Context
      → JobState
      → (generation : ℕ) → Failing
      → JobErrorState
      → List Action
      → List JobState
      → Result Handled × Db
      → Ending × Trace
  unfolding ended
  fails_for_good ctx s generation f e sent summaries (err x, db) =
      (raises x, ((db, sent), summaries))
  fails_for_good ctx s generation f e sent summaries (ok (true, none), db) =
      (retries_in 30, ((db, sent), summaries))
  fails_for_good ctx s generation f e sent summaries (ok (true, some t), db) =
      ended ctx s.job_id sent summaries (ok t, db)
  fails_for_good ctx s generation f e sent summaries (ok (false, t), db) =
      ended ctx s.job_id sent summaries
        (transition R c s.job_id (failed_update s generation f e) [] db)

  -- `_finish_failure`
  unfoldable pub finish_failure :
      Context → JobState → (generation : ℕ) → Failing → Trace → Ending × Trace
  unfolding queued_again fails_for_good
  finish_failure ctx s generation f ((db, sent), summaries) =
      if is_lease_lost f.exc
      then (returns, ((db, sent), summaries))
      else if will_retry ctx s f.exc
      then queued_again ctx s sent summaries
          (transition R c s.job_id (queue_update s generation f) [] db)
      else let e = failure_error (classify_job_exception f.exc) ctx.diagnostic_id in
        if not (valid_error e)
        then (raises validation_error, ((db, sent), summaries))
        else fails_for_good ctx s generation f e sent summaries
            (capability_terminal_transition R c ctx.coordinator s e f.decided_at f.counters db)
