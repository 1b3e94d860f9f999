-- ===== src/Worker/Runs.antt =====
-- `execute_v22_job` and `_execute_with_lease`: the lease, the start, the execution and its end. The
-- ledger, the executor and the heartbeat answer by arguments.
use search_trust_rd.Prelude.{
  ℕ, String, Bool, true, false, ◌||◌, not, Option, none, some, List, [], ◌==◌, leb, if◌then◌else◌,
}
use search_trust_rd.Cost.Counters.{Counters}
use search_trust_rd.Model.{JobState, job_lease_lost, DurableReport, terminal, Result, ok, err}
use search_trust_rd.Redis.{Redis}
use search_trust_rd.Store.Base.{
  JobValue, Payload, Hashes, StoreConfig, TransitionResult, require_state, get_request,
}
use search_trust_rd.Store.Transition.{transition}
use search_trust_rd.Store.Lease.{acquire_lease, release_lease}
use search_trust_rd.Capability.{is_capability}
use search_trust_rd.Reconcile.{Sending, Action, World}
use search_trust_rd.Worker.{
  Ending, returns, retries_in, raises, cancelled, Context, Failing, Trace, notify_state, ended,
  finish_failure,
}
use search_trust_rd.Worker.Failures.{JobException, raised, job_deadline_exceeded, request_missing}
use search_trust_rd.Worker.Updates.{
  Execution, reports, fails, times_out, is_cancelled, LedgerAnswers, Times, RunStage, runs_now,
  stage_update, start_update, success_update,
}

module _ (R : Redis JobValue) (c : StoreConfig) where
  open R use {Db}

  abbrev reported :
      Option Sending → ℕ → List Action → Result TransitionResult × Db → Result {0} Unit × World R c
  reported synchronizer id sent (err e, db) = (err e, (db, sent))
  reported synchronizer id sent (ok t, db) =
      if t.applied
      then (ok tt, notify_state R c synchronizer id (db, sent))
      else (err job_lease_lost, (db, sent))

  abbrev stage_reported :
      Option Sending
      → Bool
      → RunStage
      → (id generation now : ℕ) → Result JobState
      → World R c
      → Result {0} Unit × World R c
  stage_reported synchronizer lost stage id generation now (err e) w = (err e, w)
  stage_reported synchronizer lost stage id generation now (ok s) (db, sent) =
      if not (s.run_generation == generation) || not (runs_now s.status) || lost
      then (err job_lease_lost, (db, sent))
      else reported synchronizer id sent
          (transition R c id (stage_update s stage generation now) [] db)

  -- The function `report_stage`, which the executor calls.
  unfoldable pub report_stage :
      Option Sending
      → Bool
      → RunStage
      → (id generation now : ℕ) → World R c
      → Result {0} Unit × World R c
  unfolding notify_state
  report_stage synchronizer lost stage id generation now (db, sent) =
      stage_reported synchronizer lost stage id generation now (require_state R id db) (db, sent)

  abbrev pub failing : JobException → Counters → Times → Failing
  failing exc counters times = record {
    exc = exc;
    counters = some counters;
    decided_at = times.decided_at;
    failed_at = times.ended_at;
  }

  -- A failure with the counters of the ledger, which may not answer.
  unfoldable pub fails_with :
      Context
      → JobState
      → (generation : ℕ) → JobException
      → Result Counters
      → Times
      → Trace R c
      → Ending × Trace R c
  unfolding finish_failure
  fails_with ctx s generation exc (err e) times w = (raises e, w)
  fails_with ctx s generation exc (ok counters) times w =
      finish_failure R c ctx s generation (failing exc counters times) w

  abbrev succeeds_with :
      Context
      → (id generation : ℕ) → DurableReport
      → Result Counters
      → Times
      → Trace R c
      → Ending × Trace R c
  succeeds_with ctx id generation report (err e) times w = (raises e, w)
  succeeds_with ctx id generation report (ok counters) times ((db, sent), summaries) =
      ended R c ctx id sent summaries
        (transition R c id (success_update report counters generation times.ended_at) [] db)

  abbrev is_cancelled_with : Result Counters → Trace R c → Ending × Trace R c
  is_cancelled_with (err e) w = (raises e, w)
  is_cancelled_with (ok counters) w = (cancelled, w)

  -- From the `try` on: `s` is the snapshot of the start, `lost` whether the heartbeat has lost it.
  unfoldable pub execution_ended :
      Context
      → JobState
      → (id generation : ℕ) → Bool
      → LedgerAnswers
      → Times
      → Execution × Trace R c
      → Ending × Trace R c
  unfolding fails_with ended
  execution_ended ctx s id generation lost ledger times (fails exc, w) =
      fails_with ctx s generation exc ledger.closing times w
  execution_ended ctx s id generation lost ledger times (times_out, w) =
      fails_with ctx s generation job_deadline_exceeded ledger.closing times w
  execution_ended ctx s id generation lost ledger times (is_cancelled, w) =
      is_cancelled_with ledger.closing w
  execution_ended ctx s id generation true ledger times (reports report, w) =
      fails_with ctx s generation (raised job_lease_lost) ledger.closing times w
  execution_ended ctx s id generation false ledger times (reports report, w) =
      succeeds_with ctx id generation report ledger.closing times w

  module _ (execute : Trace R c → Execution × Trace R c) where
    abbrev pub started :
        Context
        → (id generation : ℕ) → Bool
        → LedgerAnswers
        → Times
        → List Action
        → List JobState
        → Result TransitionResult × Db
        → Ending × Trace R c
    started ctx id generation lost ledger times sent summaries (err e, db) =
        (raises e, ((db, sent), summaries))
    started ctx id generation lost ledger times sent summaries (ok t, db) =
        if t.applied
        then execution_ended ctx t.state id generation lost ledger times
            (execute (notify_state R c ctx.synchronizer id (db, sent), summaries))
        else (returns, ((db, sent), summaries))

    abbrev requested :
        Context
        → JobState
        → (id generation : ℕ) → Bool
        → LedgerAnswers
        → Times
        → Option Payload
        → Trace R c
        → Ending × Trace R c
    requested ctx s id generation lost ledger times none w =
        fails_with ctx s generation request_missing ledger.opening times w
    requested ctx s id generation lost ledger times (some p) ((db, sent), summaries) =
        started ctx id generation lost ledger times sent summaries (
          transition R c id (start_update s (is_capability (some p)) generation times.started_at) []
            db)

    abbrev after_ensured :
        Context
        → JobState
        → (id generation : ℕ) → Bool
        → LedgerAnswers
        → Times
        → Option Payload
        → Result {0} Unit
        → Trace R c
        → Ending × Trace R c
    after_ensured ctx s id generation lost ledger times p (err e) w =
        (if is_capability p then retries_in 30 else raises e, w)
    after_ensured ctx s id generation lost ledger times p (ok u) w =
        if leb s.deadline_at times.checked_at
        then fails_with ctx s generation job_deadline_exceeded ledger.opening times w
        else requested ctx s id generation lost ledger times p w

    -- `_execute_with_lease`
    unfoldable pub execute_with_lease :
        Context
        → JobState
        → (id generation : ℕ) → Bool
        → LedgerAnswers
        → Times
        → Trace R c
        → Ending × Trace R c
    unfolding fails_with execution_ended notify_state
    execute_with_lease ctx s id generation lost ledger times ((db, sent), summaries) =
        after_ensured ctx s id generation lost ledger times (get_request R id db) ledger.ensured
          ((db, sent), summaries)

    module _ (H : Hashes) (token : String) (ttl : ℕ) where
      -- The `finally` block; an error of it replaces the run's end.
      abbrev released : Ending → List Action → List JobState → Result Bool × Db → Ending × Trace R c
      released e sent summaries (err x, db) = (raises x, ((db, sent), summaries))
      released e sent summaries (ok b, db) = (e, ((db, sent), summaries))

      abbrev finally_release : (id generation : ℕ) → Ending × Trace R c → Ending × Trace R c
      finally_release id generation (e, ((db, sent), summaries)) =
          released e sent summaries (release_lease R H id generation token [] db)

      abbrev leased :
          Context
          → JobState
          → (id generation : ℕ) → Bool
          → LedgerAnswers
          → Times
          → List Action
          → List JobState
          → Bool × Db
          → Ending × Trace R c
      leased ctx s id generation lost ledger times sent summaries (false, db) =
          (returns, ((db, sent), summaries))
      leased ctx s id generation lost ledger times sent summaries (true, db) =
          finally_release id generation
            (execute_with_lease ctx s id generation lost ledger times ((db, sent), summaries))

      abbrev pub executed :
          Context
          → (id generation : ℕ) → Bool
          → LedgerAnswers
          → Times
          → Result JobState
          → Trace R c
          → Ending × Trace R c
      executed ctx id generation lost ledger times (err e) w = (raises e, w)
      executed ctx id generation lost ledger times (ok s) ((db, sent), summaries) =
          if terminal s || not (s.run_generation == generation)
          then (returns, ((db, sent), summaries))
          else leased ctx s id generation lost ledger times sent summaries
              (acquire_lease R H id generation token ttl db)

      unfoldable pub execute_v22_job :
          Context
          → (id generation : ℕ) → Bool
          → LedgerAnswers
          → Times
          → Trace R c
          → Ending × Trace R c
      unfolding execute_with_lease
      execute_v22_job ctx id generation lost ledger times ((db, sent), summaries) =
          executed ctx id generation lost ledger times (require_state R id db)
            ((db, sent), summaries)
