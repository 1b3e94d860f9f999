-- ===== src/Worker/Attempts.antt =====
-- One physical run from its start to its failure.
use search_trust_rd.Prelude.{
  sym, ℕ, ◌≤◌, ◌≡◌, refl, subst, Bool, true, false, some, List, [], leb, max, arith, ==_refl,
}
use search_trust_rd.Cost.Counters.{Counters}
use search_trust_rd.Model.{
  JobStatus, JobState, is_valid, valid_fields, valid_error, valid_error_field, valid_status,
  length_between, terminal, is_terminal, Result, ok,
}
use search_trust_rd.Redis.{Redis}
use search_trust_rd.Store.Base.{JobValue, Payload, StoreConfig, get_request}
use search_trust_rd.Store.Transition.{allowed, superseded, transition, transition_next}
use search_trust_rd.Store.Applied.{Holds, transition_applies}
use search_trust_rd.Capability.{is_capability}
use search_trust_rd.Reconcile.{Action}
use search_trust_rd.Worker.{Context, Trace, is_lease_lost, failure_error, notify_state}
use search_trust_rd.Worker.Failures.{JobException, classify_job_exception}
use search_trust_rd.Store.Fitting.{next_valid}
use search_trust_rd.Worker.Settled.{Settled, Owned, finish-Settled}
use search_trust_rd.Worker.Updates.{Execution, fails, Times, start_update}
use search_trust_rd.Worker.Runs.{failing, fails_with, execution_ended, execute_with_lease}

-- The snapshot that a run of a job other than a capability task starts from.
unfoldable pub started_state : JobState → (generation now : ℕ) → JobState
started_state s generation now = transition_next (start_update s false generation now) s

progress_started : (s : JobState) → is_valid s ≡ true → leb (max s.progress 1) 100 ≡ true
unfolding is_valid valid_fields
progress_started s h = ground arith

start_valid :
    (s : JobState) (generation now : ℕ)
    → is_valid s ≡ true
    → s.created_at ≤ now
    → is_valid (started_state s generation now) ≡ true
unfolding started_state start_update length_between valid_error_field valid_status transition_next
start_valid s generation now h k = next_valid (start_update s false generation now) s h (record {
  progress_fits = progress_started s h;
  message_fits = refl;
  error_fits = refl;
  counters_fit = tt;
  in_time = k;
  status_fits = refl;
})

may_start : (s : JobState) → terminal s ≡ false → allowed s.status JobStatus.running ≡ true
unfolding terminal
may_start s h = by_status s.status h
  where
    by_status : (x : JobStatus) → is_terminal x ≡ false → allowed x JobStatus.running ≡ true
    by_status JobStatus.queued h = refl
    by_status JobStatus.running h = refl
    by_status JobStatus.succeeded h = cc
    by_status JobStatus.failed h = cc

module _ (R : Redis JobValue) (c : StoreConfig) (ctx : Context) (s : JobState) (generation : ℕ)
    (counters : Counters) (times : Times) (execute : Trace R c → Execution × Trace R c) where
  open R use {Db}

  abbrev first : JobState
  first = started_state s generation times.started_at

  -- What an executor leaves that raises `exc`: it may have reported stages, and the job is still its own.
  pub record Fails (exc : JobException) (w : Trace R c) : Type 0 where
    pub after : Trace R c
    pub raises_it : execute w ≡ (fails exc, after)
    pub current : JobState
    pub owned : Owned R c ctx first generation (failing R c exc counters times) after.0.0 current
    pub plain : is_capability (get_request R s.job_id after.0.0) ≡ false

  -- What the executor is called on: the store after the start and its callback.
  abbrev pub handed_over : Db → List Action → List JobState → Trace R c
  handed_over db sent summaries = (
    notify_state R c ctx.synchronizer s.job_id (
      (transition R c s.job_id (start_update s false generation times.started_at) [] db).1,
      sent,
    ),
    summaries,
  )

  -- What the run finds.
  pub record IsReady (db : Db) (p : Payload) : Type 0 where
    pub held : Holds R c s.job_id db s
    pub same_generation : s.run_generation ≡ generation
    pub is_open : terminal s ≡ false
    pub requested : get_request R s.job_id db ≡ some p
    pub plain : is_capability (some p) ≡ false
    pub before_deadline : leb s.deadline_at times.checked_at ≡ false
    pub in_time : s.created_at ≤ times.started_at

  -- A run that finds this starts, and ends as its execution does.
  pub run_starts :
      (db : Db) (p : Payload) (lost : Bool) (opening : Result Counters) (sent : List Action)
      (summaries : List JobState)
      → IsReady db p
      → execute_with_lease R c execute ctx s s.job_id generation lost
          (record { ensured = ok tt; opening = opening; closing = ok counters })
          times
          ((db, sent), summaries)
        ≡ execution_ended R c ctx first s.job_id generation lost
            (record { ensured = ok tt; opening = opening; closing = ok counters })
            times
            (execute (handed_over db sent summaries))
  unfolding execute_with_lease started_state start_update
  run_starts db p lost opening sent summaries ready =
      let (mid, e, held) =
        transition_applies R c s.job_id db s (start_update s false generation times.started_at)
          ready.held (not_superseded ready.same_generation) ready.is_open
          (may_start s ready.is_open)
          (start_valid s generation times.started_at ready.held.valid ready.in_time) in
      rw (ready.requested, ready.before_deadline, ready.plain, e) refl
    where
      not_superseded :
          s.run_generation ≡ generation → superseded (some generation) s.run_generation ≡ false
      not_superseded h = rw (h, ==_refl) refl

  -- A run of an open job of its generation, of no capability task, within its deadline, whose request
  -- is present and whose ledger answers, and whose executor raises `exc`, which is no loss of the
  -- lease, with the job still its own: it counts one attempt more, and leaves the job queued again,
  -- when `exc` is retryable and attempts are left, or failed with `failure_error` of `exc`, which for
  -- a retryable failure without attempts left is JOB_RETRY_EXHAUSTED. That error is one that the model
  -- accepts, and no clock runs back in the run.
  pub run-Settled :
      (exc : JobException) (db : Db) (p : Payload) (lost : Bool) (opening : Result Counters)
      (sent : List Action) (summaries : List JobState)
      → IsReady db p
      → Fails exc (handed_over db sent summaries)
      → is_lease_lost exc ≡ false
      → valid_error (failure_error (classify_job_exception exc) ctx.diagnostic_id) ≡ true
      → Settled R c ctx first generation (failing R c exc counters times) (
          execute_with_lease R c execute ctx s s.job_id generation lost
            (record { ensured = ok tt; opening = opening; closing = ok counters })
            times
            ((db, sent), summaries))
  unfolding execution_ended fails_with started_state transition_next start_update
  run-Settled exc db p lost opening sent summaries ready works owns valid =
      subst (Settled R c ctx first generation (failing R c exc counters times))
        (sym (run_starts db p lost opening sent summaries ready))
        (rw works.raises_it (
          finish-Settled R c ctx first generation (failing R c exc counters times) works.after.0.0
            works.current works.after.0.1 works.after.1 works.owned owns works.plain valid))
