-- ===== src/Worker/Exhausted.antt =====
-- The runs of a job whose every run fails, one after another.
use search_trust_rd.Prelude.{ℕ, zero, suc, ◌≡◌, Bool, true, false, List}
use search_trust_rd.Cost.Counters.{Counters}
use search_trust_rd.Model.{JobState, valid_error, Result, ok}
use search_trust_rd.Redis.{Redis}
use search_trust_rd.Store.Base.{JobValue, Payload, StoreConfig}
use search_trust_rd.Reconcile.{Action}
use search_trust_rd.Worker.{Ending, Context, Trace, is_lease_lost, failure_error}
use search_trust_rd.Worker.Failures.{JobException, classify_job_exception}
use search_trust_rd.Worker.Updates.{Execution, Times}
use search_trust_rd.Worker.Runs.{execute_with_lease}
use search_trust_rd.Worker.Attempts.{IsReady, Fails, handed_over}

module _ (R : Redis JobValue) (c : StoreConfig) (ctx : Context) (id generation : ℕ) where
  open R use {Db, get}

  -- A run of the job, no capability task, that starts in time and fails for another reason than the
  -- loss of its lease, with the job still its own.
  pub record FailingRun (db : Db) : Type 0 where
    pub s : JobState
    pub same_job : s.job_id ≡ id
    pub exc : JobException
    pub counters : Counters
    pub times : Times
    pub execute : Trace R c → Execution × Trace R c
    pub payload : Payload
    pub lost : Bool
    pub opening : Result Counters
    pub sent : List Action
    pub summaries : List JobState
    pub ready : IsReady R c ctx s generation counters times execute db payload
    pub works :
        Fails R c ctx s generation counters times execute exc
          (handed_over R c ctx s generation counters times execute db sent summaries)
    pub owns : is_lease_lost exc ≡ false
    pub valid : valid_error (failure_error (classify_job_exception exc) ctx.diagnostic_id) ≡ true

  abbrev pub result_of : {db : Db} → FailingRun db → Ending × Trace R c
  result_of {db} r =
      execute_with_lease R c r.execute ctx r.s r.s.job_id generation r.lost
        (record { ensured = ok tt; opening = r.opening; closing = ok r.counters }) r.times
        ((db, r.sent), r.summaries)

  -- So many failing runs, each on what the one before it left.
  pub data FailingRuns : ℕ → Db → Db → Type 0 where
    no_run : {db : Db} → FailingRuns zero db db
    one_more :
        {n : ℕ} {db after : Db} (r : FailingRun db)
        → FailingRuns n (result_of r).1.0.0 after
        → FailingRuns (suc n) db after
