-- ===== src/Store/Recovery.antt =====
-- `take_over_stale`, `retry_failed` and `mark_recovery_enqueued`: new generations of a job.
use search_trust_rd.Prelude.{
  ℕ, ◌+◌, Bool, true, false, not, ◌||◌, Option, none, some, List, [], ◌∷◌, ◌==◌, Number, whole,
  fractional, negative, infinite, minus_infinite, is_some, if◌then◌else◌,
}
use search_trust_rd.Model.{
  JobStatus, JobStage, JobState, JobErrorState, terminal, Result, ok, err, job_not_retryable,
  overflow_error,
}
use search_trust_rd.Redis.{
  Key, Redis, state, request, lease, active, sync_pending, recovery_pending, job, set, expire,
  delete, zadd, zrem,
}
use search_trust_rd.Transaction.{Round, stop, commit, attempt}
use search_trust_rd.Store.Base.{
  JobValue, state_json, StoreConfig, TransitionResult, JobCommand, JobPlan, get_state, with_state,
  revalidated, announce,
}

unfoldable pub take_over_next : ℕ → JobState → JobState
take_over_next now current = record current {
  status = JobStatus.queued;
  stage = JobStage.queued;
  message = "Queued for recovery after a lost worker heartbeat.";
  run_generation = current.run_generation + 1;
  revision = current.revision + 1;
  heartbeat_at = none;
  updated_at = now;
}

unfoldable pub take_over_commands : StoreConfig → ℕ → ℕ → JobState → List JobCommand
take_over_commands c id now next =
    set (state id) (state_json next) c.state_ttl_seconds
    ∷ delete (lease id)
    ∷ zadd active (job id) (whole now)
    ∷ zadd sync_pending (job id) (whole next.revision)
    ∷ zadd recovery_pending (job id) (whole next.run_generation)
    ∷ []

-- The former worker is fenced only if the generation is the expected one and none is pending.
unfoldable pub take_over_plan :
    StoreConfig → ℕ → ℕ → ℕ → Option Number → JobState → JobPlan TransitionResult
unfolding take_over_next take_over_commands terminal revalidated
take_over_plan c id expected now pending current =
    if terminal current || not (current.run_generation == expected)
    then stop (ok (record { state = current; applied = false }))
    else if is_some pending
    then stop (ok (record { state = current; applied = false }))
    else let next = take_over_next now current in
      revalidated next
        (commit (take_over_commands c id now next) (record { state = next; applied = true }))

unfoldable pub retry_next : ℕ → JobState → JobState
retry_next now current = record current {
  status = JobStatus.queued;
  stage = JobStage.queued;
  progress = 0;
  message = "Queued for a manual retry.";
  run_generation = current.run_generation + 1;
  revision = current.revision + 1;
  heartbeat_at = none;
  updated_at = now;
  completed_at = none;
  report = none;
  error = none;
}

abbrev pub is_failed : JobStatus → Bool
is_failed JobStatus.failed = true
is_failed _ = false

abbrev pub is_retryable : Option JobErrorState → Bool
is_retryable none = false
is_retryable (some e) = e.retryable

unfoldable pub retry_commands : StoreConfig → ℕ → ℕ → JobState → List JobCommand
retry_commands c id now next =
    set (state id) (state_json next) c.state_ttl_seconds
    ∷ expire (request id) c.state_ttl_seconds
    ∷ zadd active (job id) (whole now)
    ∷ zadd sync_pending (job id) (whole next.revision)
    ∷ []

unfoldable pub retry_plan : StoreConfig → ℕ → ℕ → JobState → JobPlan TransitionResult
unfolding retry_next retry_commands revalidated
retry_plan c id now current =
    if not (is_failed current.status) || not (is_retryable current.error)
    then stop (err job_not_retryable)
    else let next = retry_next now current in
      revalidated next
        (commit (retry_commands c id now next) (record { state = next; applied = true }))

-- `int(score)`, which a negative score never makes a generation
unfoldable pub enqueued_generation : Number → Result (Option ℕ)
enqueued_generation (whole n) = ok (some n)
enqueued_generation (fractional n k) = ok (some n)
enqueued_generation (negative k) = ok none
enqueued_generation infinite = err overflow_error
enqueued_generation minus_infinite = err overflow_error

abbrev same_generation : Option ℕ → ℕ → Bool
same_generation none g = false
same_generation (some n) g = n == g

unfoldable pub enqueued_commands : ℕ → ℕ → JobState → List JobCommand
unfolding terminal
enqueued_commands id now current =
    zrem recovery_pending (job id)
    ∷ (if terminal current then [] else zadd active (job id) (whole now) ∷ [])

abbrev pub close_pending : ℕ → ℕ → ℕ → Result (Option ℕ) → JobState → JobPlan Bool
close_pending id generation now (err e) current = stop (err e)
close_pending id generation now (ok pending) current =
    if not (same_generation pending generation) || not (current.run_generation == generation)
    then stop (ok false)
    else commit (enqueued_commands id now current) true

unfoldable pub mark_enqueued_plan : ℕ → ℕ → ℕ → Option Number → JobState → JobPlan Bool
unfolding enqueued_commands enqueued_generation
mark_enqueued_plan id generation now none current = stop (ok false)
mark_enqueued_plan id generation now (some score) current =
    close_pending id generation now (enqueued_generation score) current

abbrev pub recovery_watched : ℕ → List Key
recovery_watched id = state id ∷ recovery_pending ∷ []

abbrev pub retry_watched : ℕ → List Key
retry_watched id = state id ∷ []

module _ (R : Redis JobValue) (c : StoreConfig) (id : ℕ) where
  open R use {Db, zscore}

  unfoldable pub take_over_body : (expected now : ℕ) → Db → JobPlan TransitionResult
  unfolding with_state get_state take_over_plan
  take_over_body expected now db =
      with_state (get_state R id db)
        (take_over_plan c id expected now (zscore db recovery_pending (job id)))

  unfoldable pub take_over_stale :
      (expected now : ℕ) → List (Round R) → Db → Result TransitionResult × Db
  unfolding take_over_body announce
  take_over_stale expected now rounds db =
      announce R id (attempt R (recovery_watched id) (take_over_body expected now) rounds db)

  unfoldable pub retry_body : (now : ℕ) → Db → JobPlan TransitionResult
  unfolding with_state get_state retry_plan
  retry_body now db = with_state (get_state R id db) (retry_plan c id now)

  unfoldable pub retry_failed : (now : ℕ) → List (Round R) → Db → Result TransitionResult × Db
  unfolding retry_body announce
  retry_failed now rounds db =
      announce R id (attempt R (retry_watched id) (retry_body now) rounds db)

  unfoldable pub mark_enqueued_body : (generation now : ℕ) → Db → JobPlan Bool
  unfolding with_state get_state mark_enqueued_plan
  mark_enqueued_body generation now db =
      with_state (get_state R id db)
        (mark_enqueued_plan id generation now (zscore db recovery_pending (job id)))

  unfoldable pub mark_recovery_enqueued :
      (generation now : ℕ) → List (Round R) → Db → Result Bool × Db
  unfolding mark_enqueued_body
  mark_recovery_enqueued generation now rounds db =
      attempt R (recovery_watched id) (mark_enqueued_body generation now) rounds db
