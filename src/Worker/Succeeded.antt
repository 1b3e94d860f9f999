-- ===== src/Worker/Succeeded.antt =====
-- A run whose executor returns a report.
use search_trust_rd.Prelude.{ℕ, ◌≤◌, ◌≡◌, refl, sym, subst, true, false, some, List, [], ==_refl}
use search_trust_rd.Cost.Counters.{Counters, validate_cost_counters_snapshot}
use search_trust_rd.Model.{
  JobStatus, JobState, DurableReport, report_belongs, is_valid, length_between, valid_error_field,
  valid_status, terminal, Result, ok,
}
use search_trust_rd.Redis.{Redis}
use search_trust_rd.Store.Base.{JobValue, Payload, StoreConfig}
use search_trust_rd.Store.Transition.{allowed, superseded, transition, transition_next}
use search_trust_rd.Store.Applied.{Holds, transition_applies}
use search_trust_rd.Store.Fitting.{next_valid}
use search_trust_rd.Reconcile.{Action}
use search_trust_rd.Reconcile.Receipts.{HoldsUpTo}
use search_trust_rd.Worker.{Ending, returns, Context, Trace, announced, ended}
use search_trust_rd.Worker.Updates.{Execution, reports, Times, success_update}
use search_trust_rd.Worker.Runs.{execution_ended, execute_with_lease}
use search_trust_rd.Worker.Notices.{notify-HoldsUpTo}
use search_trust_rd.Worker.Attempts.{IsReady, handed_over, run_starts}

success_valid :
    (s : JobState) (report : DurableReport) (counters : Counters) (generation now : ℕ)
    → is_valid s ≡ true
    → s.created_at ≤ now
    → validate_cost_counters_snapshot counters ≡ true
    → report_belongs s.job_id s.case_id (some report) ≡ true
    → is_valid (transition_next (success_update report counters generation now) s) ≡ true
unfolding success_update length_between valid_error_field valid_status transition_next
success_valid s report counters generation now h k counted belongs =
    next_valid (success_update report counters generation now) s h (record {
      progress_fits = refl;
      message_fits = refl;
      error_fits = refl;
      counters_fit = counted;
      in_time = k;
      status_fits = rw belongs refl;
    })

module _ (R : Redis JobValue) (c : StoreConfig) (ctx : Context) (s : JobState) (generation : ℕ)
    (counters : Counters) (times : Times) (execute : Trace R c → Execution × Trace R c) where
  open R use {Db}

  -- What an executor leaves that returns a report: the job is running and still its own.
  pub record Reports (report : DurableReport) (w : Trace R c) : Type 0 where
    pub after : Trace R c
    pub reports_it : execute w ≡ (reports report, after)
    pub current : JobState
    pub held : Holds R c s.job_id after.0.0 current
    pub same_job : current.job_id ≡ s.job_id
    pub same_generation : current.run_generation ≡ generation
    pub is_running : current.status ≡ JobStatus.running
    pub in_time : current.created_at ≤ times.ended_at
    pub belongs : report_belongs current.job_id current.case_id (some report) ≡ true

  -- The job has succeeded with the report.
  abbrev pub SucceedsWith : DurableReport → Ending × Trace R c → Type 0
  SucceedsWith report run =
      (run.0 ≡ returns)
      × (t : JobState) × HoldsUpTo R c s.job_id t run.1.0.0
      × (t.status ≡ JobStatus.succeeded)
      × (t.report ≡ some report)
      × (t.cost_counters ≡ counters)

  open_running :
      (t : JobState)
      → t.status ≡ JobStatus.running
      → (terminal t ≡ false) × (allowed t.status JobStatus.succeeded ≡ true)
  unfolding terminal
  open_running t h = rw h (refl, refl)

  succeeds :
      (report : DurableReport) (t : JobState) (db : Db) (sent : List Action)
      (summaries : List JobState)
      → Holds R c s.job_id db t
      → t.job_id ≡ s.job_id
      → t.run_generation ≡ generation
      → t.status ≡ JobStatus.running
      → t.created_at ≤ times.ended_at
      → report_belongs t.job_id t.case_id (some report) ≡ true
      → validate_cost_counters_snapshot counters ≡ true
      → SucceedsWith report (
          ended R c ctx s.job_id sent summaries (
            transition R c s.job_id
              (success_update report counters generation times.ended_at)
              []
              db))
  unfolding ended announced success_update transition_next
  succeeds report t db sent summaries h own same running in_time belongs counted =
      let u = success_update report counters generation times.ended_at in
      let next = transition_next u t in
      let (after, e, held) =
        transition_applies R c s.job_id db t u h (not_superseded same) (open_running t running).0
          (open_running t running).1
          (success_valid t report counters generation times.ended_at h.valid in_time counted
            belongs) in
      rw e (
        refl,
        next,
        notify-HoldsUpTo R c s.job_id ctx.synchronizer next after sent own held,
        refl,
        refl,
        refl,
      )
    where
      not_superseded :
          t.run_generation ≡ generation → superseded (some generation) t.run_generation ≡ false
      not_superseded h = rw (h, ==_refl) refl

  -- A run of an open job of its generation, of no capability task, within its deadline, whose request
  -- is present and whose ledger answers, whose heartbeat has not lost the lease, and whose executor
  -- returns a report for this job and leaves it running and in the same generation: the job has
  -- succeeded with this report and the ledger's counters, where these are valid and no clock runs
  -- back in the run.
  pub run-SucceedsWith :
      (report : DurableReport) (db : Db) (p : Payload) (opening : Result Counters)
      (sent : List Action) (summaries : List JobState)
      → IsReady R c ctx s generation counters times execute db p
      → Reports report (handed_over R c ctx s generation counters times execute db sent summaries)
      → validate_cost_counters_snapshot counters ≡ true
      → SucceedsWith report (
          execute_with_lease R c execute ctx s s.job_id generation false
            (record { ensured = ok tt; opening = opening; closing = ok counters })
            times
            ((db, sent), summaries))
  unfolding execution_ended
  run-SucceedsWith report db p opening sent summaries ready works counted =
      subst (SucceedsWith report)
        (sym (
          run_starts R c ctx s generation counters times execute db p false opening sent summaries
            ready))
        (rw works.reports_it (
          succeeds report works.current works.after.0.0 works.after.0.1 works.after.1 works.held
            works.same_job works.same_generation works.is_running works.in_time works.belongs
            counted))
