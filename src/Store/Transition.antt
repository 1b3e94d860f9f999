-- ===== src/Store/Transition.antt =====
-- `transition` and `heartbeat`: a worker reports progress or an end, fenced by its generation.
use search_trust_rd.Prelude.{
  ℕ, ◌+◌, String, Bool, true, false, not, Option, none, some, List, [], ◌∷◌, ◌++◌, ◌==◌, whole,
  if◌then◌else◌,
}
use search_trust_rd.Cost.Counters.{Counters}
use search_trust_rd.Model.{
  JobStatus, JobStage, JobState, DurableReport, JobErrorState, is_terminal, terminal, Result, ok,
  err, invalid_job_transition, job_lease_lost,
}
use search_trust_rd.Redis.{
  Key, Redis, state, request, active, sync_pending, recovery_pending, job, set, expire, zadd, zrem,
  run_all,
}
use search_trust_rd.Transaction.{Round, stop, commit, attempt}
use search_trust_rd.Store.Base.{
  JobValue, state_json, StoreConfig, TransitionResult, JobCommand, JobPlan, get_state,
  require_state, with_state, revalidated, announce,
}

-- _ALLOWED_TRANSITIONS
abbrev pub allowed : JobStatus → JobStatus → Bool
allowed JobStatus.queued JobStatus.queued = true
allowed JobStatus.queued JobStatus.running = true
allowed JobStatus.queued JobStatus.failed = true
allowed JobStatus.running _ = true
allowed _ _ = false

-- The arguments of `transition`; `none` leaves a field as it is, or unchecked.
pub record Update : Type 0 where
  pub status : JobStatus
  pub stage : JobStage
  pub progress : ℕ
  pub message : String
  pub now : ℕ
  pub attempt_count : Option ℕ
  pub heartbeat_at : Option ℕ
  pub report : Option DurableReport
  pub error : Option JobErrorState
  pub cost_counters : Option Counters
  pub expected_generation : Option ℕ

abbrev pub superseded : Option ℕ → ℕ → Bool
superseded none generation = false
superseded (some expected) generation = not (generation == expected)

abbrev pub given {ℓ} : {A : Type ℓ} → Option A → A → A
given none old = old
given (some new) old = new

abbrev is_running : JobStatus → Bool
is_running JobStatus.running = true
is_running _ = false

abbrev pub next_heartbeat : Option ℕ → JobStatus → ℕ → Option ℕ → Option ℕ
next_heartbeat (some t) status now old = some t
next_heartbeat none status now old = if is_running status then some now else old

unfoldable pub transition_next : Update → JobState → JobState
transition_next u current = record current {
  status = u.status;
  stage = u.stage;
  progress = u.progress;
  message = u.message;
  attempt_count = given u.attempt_count current.attempt_count;
  revision = current.revision + 1;
  heartbeat_at = next_heartbeat u.heartbeat_at u.status u.now current.heartbeat_at;
  updated_at = u.now;
  completed_at = if is_terminal u.status then some u.now else none;
  report = u.report;
  error = u.error;
  cost_counters = given u.cost_counters current.cost_counters;
}

-- a terminal job leaves both work indexes
abbrev pub index_commands : Bool → ℕ → ℕ → List JobCommand
index_commands true id now = zrem active (job id) ∷ zrem recovery_pending (job id) ∷ []
index_commands false id now = zadd active (job id) (whole now) ∷ []

unfoldable pub transition_commands : StoreConfig → ℕ → ℕ → JobState → List JobCommand
unfolding terminal
transition_commands c id now next =
    set (state id) (state_json next) c.state_ttl_seconds
    ∷ expire (request id) c.state_ttl_seconds
    ∷ (index_commands (terminal next) id now
        ++ zadd sync_pending (job id) (whole next.revision) ∷ [])

unfoldable pub transition_plan : StoreConfig → ℕ → Update → JobState → JobPlan TransitionResult
unfolding transition_next transition_commands terminal revalidated
transition_plan c id u current =
    if superseded u.expected_generation current.run_generation
    then stop (err job_lease_lost)
    else if terminal current
    then stop (ok (record { state = current; applied = false }))
    else if not (allowed current.status u.status)
    then stop (err invalid_job_transition)
    else let next = transition_next u current in
      revalidated next
        (commit (transition_commands c id u.now next) (record { state = next; applied = true }))

abbrev pub transition_watched : ℕ → List Key
transition_watched id = state id ∷ []

module _ (R : Redis JobValue) (c : StoreConfig) (id : ℕ) where
  open R use {Db}

  unfoldable pub transition_body : Update → Db → JobPlan TransitionResult
  unfolding with_state get_state transition_plan
  transition_body u db = with_state (get_state R id db) (transition_plan c id u)

  unfoldable pub transition : Update → List (Round R) → Db → Result TransitionResult × Db
  unfolding transition_body announce
  transition u rounds db =
      announce R id (attempt R (transition_watched id) (transition_body u) rounds db)

  -- The snapshot that a heartbeat repeats may be old: `between` comes before the transaction.
  abbrev heartbeat_update : ℕ → ℕ → JobState → Update
  heartbeat_update generation now current = record {
    status = current.status;
    stage = current.stage;
    progress = current.progress;
    message = current.message;
    now = now;
    attempt_count = none;
    heartbeat_at = some now;
    report = none;
    error = none;
    cost_counters = none;
    expected_generation = some generation;
  }

  unfoldable pub heartbeat :
      (generation now : ℕ) → List JobCommand → List (Round R) → Db → Result TransitionResult × Db
  unfolding transition require_state
  heartbeat generation now between rounds db = elim (require_state R id db) [
    | err e ↦ (err e, db)
    | ok current ↦
        transition (heartbeat_update generation now current) rounds (run_all R db between)
  ]
