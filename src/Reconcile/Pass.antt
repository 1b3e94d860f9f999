-- ===== src/Reconcile/Pass.antt =====
-- `reconcile_once` of app/jobs_v22/reconciler.py: the pending recoveries, the pending callbacks and
-- the stale jobs, in this order. The calls of one pass come one after another.
pub mod Stale
use search_trust_rd.Prelude.{
  ℕ, ◌-◌, ◌*◌, Bool, true, false, not, ◌&&◌, ◌||◌, Option, none, some, List, [], ◌∷◌, ◌==◌, any,
  is_some, leb, if◌then◌else◌,
}
use search_trust_rd.Model.{
  JobStatus, JobStage, JobState, JobError, JobErrorState, terminal, Result, ok, err, job_not_found,
}
use search_trust_rd.Redis.{Redis}
use search_trust_rd.Store.Base.{JobValue, StoreConfig, TransitionResult, require_state}
use search_trust_rd.Store.Transition.{transition}
use search_trust_rd.Store.Recovery.{take_over_stale}
use search_trust_rd.Store.Indexes.{
  discard_missing_job_indexes, discard_pending_recovery, pending_recovery_generation,
  list_pending_recoveries, list_pending_callbacks, list_stale_jobs,
}
use search_trust_rd.Capability.{
  Handled, fail_update, deadline_error, capability_terminal_transition,
}
use search_trust_rd.Reconcile.{
  Sending, Action, Outside, World, sync, after_update, finish_pending_recovery,
}

-- The error of a job without attempts left.
unfoldable pub exhausted_error : ℕ → JobErrorState
exhausted_error id = record {
  error_code = "JOB_RETRY_EXHAUSTED";
  user_message = "The analysis could not be completed after multiple attempts. Please retry later.";
  retryable = true;
  stage = JobStage.failed;
  diagnostic_id = id;
}

-- The error with which a coordinator is asked whether a run is still going on.
unfoldable pub probe_error : ℕ → JobErrorState
probe_error id = record {
  error_code = "JOB_RETRY_EXHAUSTED";
  user_message = "The previous analysis run did not finish.";
  retryable = true;
  stage = JobStage.failed;
  diagnostic_id = id;
}

unfoldable pub stale_error : Bool → ℕ → JobErrorState
unfolding exhausted_error
stale_error deadline_exceeded id =
    if deadline_exceeded then deadline_error id else exhausted_error id

abbrev pub out_of_attempts : JobState → ℕ → Bool
out_of_attempts s max_attempts = runs s.status && leb max_attempts s.attempt_count
  where
    runs : JobStatus → Bool
    runs JobStatus.running = true
    runs _ = false

abbrev pub ended_update : Option TransitionResult → Option TransitionResult
ended_update none = none
ended_update (some t) = if terminal t.state then some t else none

module _ (R : Redis JobValue) (c : StoreConfig) where
  open R use {Db}

  abbrev pub Step : Type 0
  Step = Result {0} Unit × World R c

  abbrev and_then : Step → (World R c → Step) → Step
  and_then (err e, w) k = (err e, w)
  and_then (ok u, w) k = k w

  -- The update of the job's failure, and the callback of an ended job.
  unfoldable pub stale_failed :
      Option Sending → ℕ → List Action → Result TransitionResult × Db → Step
  stale_failed synchronizer id sent (err e, db) = (err e, (db, sent))
  stale_failed synchronizer id sent (ok t, db) =
      (ok tt, after_update R c synchronizer id (ended_update (some t)) (db, sent))

  -- A stale job that ends: a coordinator decides, or the job fails.
  unfoldable pub stale_ends :
      Outside → ℕ → JobState → Bool → (now : ℕ) → List Action → Result Handled × Db → Step
  unfolding stale_failed stale_error
  stale_ends o id s deadline_exceeded now sent (err e, db) = (err e, (db, sent))
  stale_ends o id s deadline_exceeded now sent (ok (true, t), db) =
      (ok tt, after_update R c o.synchronizer id t (db, sent))
  stale_ends o id s deadline_exceeded now sent (ok (false, t), db) =
      stale_failed o.synchronizer id sent (
        transition R c id (fail_update s (stale_error deadline_exceeded o.diagnostic_id) now none)
          [] db)

  -- The recovery that is pending after a takeover, handed on at once.
  abbrev recovered : Outside → (id now : ℕ) → List Action → Option ℕ × Db → Step
  recovered o id now sent (none, db) = (ok tt, (db, sent))
  recovered o id now sent (some generation, db) =
      finish_pending_recovery R c o id generation now (db, sent)

  unfoldable pub taken_over :
      Outside → Outside → (id now : ℕ) → List Action → Result TransitionResult × Db → Step
  unfolding pending_recovery_generation finish_pending_recovery
  taken_over o recovery id now sent (err e, db) = (err e, (db, sent))
  taken_over o recovery id now sent (ok t, db) =
      and_then (recovered recovery id now sent (pending_recovery_generation R id [] db))
        (λ w. (ok tt, after_update R c o.synchronizer id (ended_update (some t)) w))

  -- A stale job that may go on: unless a coordinator knows its end, it is taken over.
  unfoldable pub stale_goes_on :
      Outside → Outside → ℕ → JobState → (now : ℕ) → List Action → Result Handled × Db → Step
  unfolding taken_over
  stale_goes_on o recovery id s now sent (err e, db) = (err e, (db, sent))
  stale_goes_on o recovery id s now sent (ok (true, t), db) =
      (ok tt, after_update R c o.synchronizer id t (db, sent))
  stale_goes_on o recovery id s now sent (ok (false, t), db) =
      taken_over o recovery id now sent (take_over_stale R c id s.run_generation now [] db)

  -- A recovery of another generation is dropped.
  abbrev dropped : ℕ → ℕ → Option ℕ × Db → Option ℕ × Db
  dropped id generation (none, db) = (none, db)
  dropped id generation (some g, db) =
      if g == generation then (some g, db) else (none, (discard_pending_recovery R id g [] db).1)

  unfoldable pub stale_pending :
      Outside → Outside → (id now max_attempts : ℕ) → JobState → List Action → Option ℕ × Db → Step
  unfolding stale_ends stale_goes_on
  stale_pending o recovery id now max_attempts s sent (pending, db) =
      let deadline_exceeded = leb s.deadline_at now in
      if is_some pending && not deadline_exceeded
      then (ok tt, (db, sent))
      else if deadline_exceeded || out_of_attempts s max_attempts
      then stale_ends o id s deadline_exceeded now sent (
          capability_terminal_transition R c o.coordinator s
            (stale_error deadline_exceeded o.diagnostic_id) now none db)
      else stale_goes_on o recovery id s now sent (
          capability_terminal_transition R c o.coordinator s (probe_error o.diagnostic_id) now none
            db)

  unfoldable pub stale_state :
      Outside → Outside → (id now max_attempts : ℕ) → Result JobState → World R c → Step
  unfolding stale_pending
  stale_state o recovery id now max_attempts (err job_not_found) (db, sent) =
      (ok tt, ((discard_missing_job_indexes R id [] db).1, sent))
  stale_state o recovery id now max_attempts (err e) w = (err e, w)
  stale_state o recovery id now max_attempts (ok s) (db, sent) =
      if terminal s
      then (ok tt, (db, sent))
      else stale_pending o recovery id now max_attempts s sent
          (dropped id s.run_generation (pending_recovery_generation R id [] db))

  -- One turn of the loop over the stale jobs. The second answers are those that its recovery gets.
  unfoldable pub stale_job : Outside → Outside → (id now max_attempts : ℕ) → World R c → Step
  unfolding stale_state
  stale_job o recovery id now max_attempts (db, sent) =
      stale_state o recovery id now max_attempts (require_state R id db) (db, sent)

  module _ (first recovery : ℕ → Outside) where
    unfoldable pub stale_jobs : (now max_attempts : ℕ) → List ℕ → World R c → Step
    unfolding stale_job
    stale_jobs now max_attempts [] w = (ok tt, w)
    stale_jobs now max_attempts (id ∷ ids) w =
        and_then (stale_job (first id) (recovery id) id now max_attempts w)
          (stale_jobs now max_attempts ids)

    unfoldable pub pending_recoveries : (now : ℕ) → List (ℕ × ℕ) → World R c → Step
    unfolding finish_pending_recovery
    pending_recoveries now [] w = (ok tt, w)
    pending_recoveries now ((id, generation) ∷ rest) w =
        and_then (finish_pending_recovery R c (first id) id generation now w)
          (pending_recoveries now rest)

  -- A callback that is not part of a recovery; its failures are logged.
  abbrev pending_callback : Sending → ℕ → Result JobState → World R c → World R c
  pending_callback sending id (err job_not_found) (db, sent) =
      ((discard_missing_job_indexes R id [] db).1, sent)
  pending_callback sending id (err e) w = w
  pending_callback sending id (ok s) w = (sync R c sending id w).1

  unfoldable pub pending_callbacks : (ℕ → Sending) → List (ℕ × ℕ) → List ℕ → World R c → World R c
  unfolding sync
  pending_callbacks sending recoveries [] w = w
  pending_callbacks sending recoveries (id ∷ ids) (db, sent) =
      let skipped = pending_callbacks sending recoveries ids (db, sent) in
      let called =
        pending_callbacks sending recoveries ids
          (pending_callback (sending id) id (require_state R id db) (db, sent)) in
      if any (λ r. r.0 == id) recoveries then skipped else called

  abbrev callbacks_listed : Option (ℕ → Sending) → List (ℕ × ℕ) → World R c → World R c
  callbacks_listed none recoveries w = w
  callbacks_listed (some sending) recoveries (db, sent) =
      let (ids, db') = list_pending_callbacks R 100 (λ m. []) db in
      pending_callbacks sending recoveries ids (db', sent)

  abbrev stale_listed :
      (ℕ → Outside) → (ℕ → Outside) → (now stale_seconds max_attempts : ℕ) → World R c → Step
  stale_listed first recovery now stale_seconds max_attempts (db, sent) =
      let (ids, db') = list_stale_jobs R (now - stale_seconds * 1000000) 100 (λ m. []) db in
      stale_jobs first recovery now max_attempts ids (db', sent)

  -- Answers are given for each job: to its recovery, to its callback, and to its stale run.
  unfoldable pub reconcile_once :
      (ℕ → Outside)
      → Option (ℕ → Sending)
      → (ℕ → Outside)
      → (ℕ → Outside)
      → (now stale_seconds max_attempts : ℕ) → World R c
      → Step
  unfolding stale_jobs pending_recoveries pending_callbacks list_pending_recoveries
      list_pending_callbacks list_stale_jobs
  reconcile_once first synchronizer stale recovery now stale_seconds max_attempts (db, sent) =
      let (recoveries, db') = list_pending_recoveries R 100 (λ m. []) db in
      and_then (pending_recoveries first recovery now recoveries (db', sent)) (λ w.
        stale_listed stale recovery now stale_seconds max_attempts
          (callbacks_listed synchronizer recoveries w))
