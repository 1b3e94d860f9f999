-- ===== src/Worker/Settled.antt =====
-- How `_finish_failure` leaves a job whose run still owns it.
use search_trust_rd.Prelude.{
  ℕ, ◌≤◌, ◌≡◌, refl, sym, subst, true, false, Bool-cases, ◌⊎◌, inl, inr, some, List, [], ==_refl,
  leb, max,
}
use search_trust_rd.Model.{JobStatus, JobState, is_terminal, terminal, valid_error}
use search_trust_rd.Redis.{Redis}
use search_trust_rd.Store.Base.{JobValue, StoreConfig, get_request}
use search_trust_rd.Store.Transition.{allowed, superseded, transition, transition_next}
use search_trust_rd.Store.Applied.{Holds, transition_applies}
use search_trust_rd.Capability.{is_capability, capability_terminal_transition}
use search_trust_rd.Reconcile.{Action}
use search_trust_rd.Worker.{
  Ending, returns, retries_in, Context, Failing, Trace, is_lease_lost, will_retry, queue_update,
  failure_error, failed_update, announced, queued_again, ended, fails_for_good, finish_failure,
}
use search_trust_rd.Worker.Failures.{classify_job_exception, retry_delay_seconds}
use search_trust_rd.Reconcile.Receipts.{HoldsUpTo}
use search_trust_rd.Worker.Notices.{notify-HoldsUpTo}
use search_trust_rd.Store.Fitting.{IsCounted}
use search_trust_rd.Worker.Valid.{queue_update_valid, failed_update_valid}

may_end :
    (s : JobState)
    → terminal s ≡ false
    → (allowed s.status JobStatus.queued ≡ true) × (allowed s.status JobStatus.failed ≡ true)
unfolding terminal
may_end s h = by_status s.status h
  where
    by_status :
        (x : JobStatus)
        → is_terminal x ≡ false
        → (allowed x JobStatus.queued ≡ true) × (allowed x JobStatus.failed ≡ true)
    by_status JobStatus.queued h = (refl, refl)
    by_status JobStatus.running h = (refl, refl)
    by_status JobStatus.succeeded h = cc
    by_status JobStatus.failed h = cc

module _ (R : Redis JobValue) (c : StoreConfig) (ctx : Context) (s0 : JobState) (generation : ℕ)
    (f : Failing) where
  open R use {Db}

  -- Queued again for a later attempt, or failed for good; `t` up to the receipt of its callback.
  abbrev pub Settled : Ending × Trace R c → Type 0
  Settled (e, ((db, sent), summaries)) =
      (t : JobState) × HoldsUpTo R c s0.job_id t db
      × (t.run_generation ≡ generation)
      × (t.attempt_count ≡ max s0.attempt_count 1)
      × (((t.status ≡ JobStatus.queued)
            × (will_retry ctx s0 f.exc ≡ true)
            × (e ≡ retries_in (retry_delay_seconds ctx.digest_byte (max s0.attempt_count 1))))
          ⊎ ((t.status ≡ JobStatus.failed)
              × (will_retry ctx s0 f.exc ≡ false)
              × (e ≡ returns)
              × (t.error ≡ some (failure_error (classify_job_exception f.exc) ctx.diagnostic_id))))

  -- What a run that owns its job knows of it.
  pub record Owned (db : Db) (s : JobState) : Type 0 where
    pub held : Holds R c s0.job_id db s
    pub same_job : s.job_id ≡ s0.job_id
    pub progress_fits : leb s0.progress 100 ≡ true
    pub same_generation : s.run_generation ≡ generation
    pub is_open : terminal s ≡ false
    pub in_time : s.created_at ≤ f.failed_at
    pub counted : IsCounted f.counters

  not_superseded :
      (s : JobState)
      → s.run_generation ≡ generation
      → superseded (some generation) s.run_generation ≡ false
  not_superseded s h = rw (h, ==_refl) refl

  queued-Settled :
      (db : Db) (s : JobState) (sent : List Action) (summaries : List JobState)
      → Owned db s
      → will_retry ctx s0 f.exc ≡ true
      → Settled (
          queued_again R c ctx s0 sent summaries
            (transition R c s0.job_id (queue_update s0 generation f) [] db))
  unfolding queued_again queue_update transition_next
  queued-Settled db s sent summaries o retry =
      let (after, e, held) =
        transition_applies R c s0.job_id db s (queue_update s0 generation f) o.held
          (not_superseded s o.same_generation) o.is_open (may_end s o.is_open).0
          (queue_update_valid s s0 generation f o.held.valid o.progress_fits o.counted o.in_time) in
      let next = transition_next (queue_update s0 generation f) s in
      rw e (
        next,
        notify-HoldsUpTo R c s0.job_id ctx.synchronizer next after sent o.same_job held,
        o.same_generation,
        refl,
        inl (refl, retry, refl),
      )

  failed-Settled :
      (db : Db) (s : JobState) (sent : List Action) (summaries : List JobState)
      → Owned db s
      → will_retry ctx s0 f.exc ≡ false
      → valid_error (failure_error (classify_job_exception f.exc) ctx.diagnostic_id) ≡ true
      → Settled (
          ended R c ctx s0.job_id sent summaries (
            transition R c s0.job_id
              (failed_update s0 generation f
                (failure_error (classify_job_exception f.exc) ctx.diagnostic_id))
              []
              db))
  unfolding ended announced failed_update transition_next
  failed-Settled db s sent summaries o gives_up valid =
      let x = failure_error (classify_job_exception f.exc) ctx.diagnostic_id in
      let next = transition_next (failed_update s0 generation f x) s in
      let (after, e, held) =
        transition_applies R c s0.job_id db s (failed_update s0 generation f x) o.held
          (not_superseded s o.same_generation) o.is_open (may_end s o.is_open).1
          (failed_update_valid s s0 generation f o.held.valid o.progress_fits o.counted o.in_time x
            valid) in
      rw e (
        next,
        notify-HoldsUpTo R c s0.job_id ctx.synchronizer next after sent o.same_job held,
        o.same_generation,
        refl,
        inr (refl, gives_up, refl, refl),
      )

  finish_retries :
      (db : Db) (sent : List Action) (summaries : List JobState)
      → is_lease_lost f.exc ≡ false
      → will_retry ctx s0 f.exc ≡ true
      → finish_failure R c ctx s0 generation f ((db, sent), summaries)
        ≡ queued_again R c ctx s0 sent summaries
            (transition R c s0.job_id (queue_update s0 generation f) [] db)
  unfolding finish_failure
  finish_retries db sent summaries owns e = rw (owns, e) refl

  finish_gives_up :
      (db : Db) (sent : List Action) (summaries : List JobState)
      → is_lease_lost f.exc ≡ false
      → will_retry ctx s0 f.exc ≡ false
      → is_capability (get_request R s0.job_id db) ≡ false
      → valid_error (failure_error (classify_job_exception f.exc) ctx.diagnostic_id) ≡ true
      → finish_failure R c ctx s0 generation f ((db, sent), summaries)
        ≡ ended R c ctx s0.job_id sent summaries (
            transition R c s0.job_id
              (failed_update s0 generation f
                (failure_error (classify_job_exception f.exc) ctx.diagnostic_id))
              []
              db)
  unfolding finish_failure fails_for_good capability_terminal_transition
  finish_gives_up db sent summaries owns e plain valid = rw (owns, e, valid, plain) refl

  -- A failure other than the loss of the lease, in a run that owns its job, which is no capability
  -- task: the job is queued again and ARQ is asked to retry, just when the failure is retryable and
  -- attempts are left; else it has failed with `failure_error` of that failure, which is
  -- JOB_RETRY_EXHAUSTED for a retryable failure without attempts left. That error is one that the
  -- model accepts.
  pub finish-Settled :
      (db : Db) (s : JobState) (sent : List Action) (summaries : List JobState)
      → Owned db s
      → is_lease_lost f.exc ≡ false
      → is_capability (get_request R s0.job_id db) ≡ false
      → valid_error (failure_error (classify_job_exception f.exc) ctx.diagnostic_id) ≡ true
      → Settled (finish_failure R c ctx s0 generation f ((db, sent), summaries))
  finish-Settled db s sent summaries o owns plain valid =
      elim (Bool-cases (will_retry ctx s0 f.exc)) [
        | inl e ↦
            subst Settled (sym (finish_retries db sent summaries owns e))
              (queued-Settled db s sent summaries o e)
        | inr e ↦
            subst Settled (sym (finish_gives_up db sent summaries owns e plain valid))
              (failed-Settled db s sent summaries o e valid)
      ]
