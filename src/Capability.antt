-- ===== src/Capability.antt =====
-- app/jobs_v22/capability_terminal.py: how a capability task ends, as its coordinator decides. The
-- coordinator's answer is an argument.
use search_trust_rd.Prelude.{
  ℕ, Bool, true, false, Option, none, some, List, [], ◌∷◌, ◌==◌, codes, ◌&&◌, if◌then◌else◌,
}
use search_trust_rd.Cost.Counters.{Counters}
use search_trust_rd.Model.{
  JobStatus, JobStage, JobState, JobErrorState, DurableReport, Result, ok, err,
}
use search_trust_rd.Redis.{Redis}
use search_trust_rd.Store.Base.{JobValue, Payload, StoreConfig, TransitionResult, get_request}
use search_trust_rd.Store.Transition.{Update, transition}

-- `coordinator.decide`
pub data Decision : Type 0 where
  active_task failed_task decide_fails : Decision
  completed_task : DurableReport → Decision

same_codes : List ℕ → List ℕ → Bool
same_codes [] [] = true
same_codes (x ∷ xs) (y ∷ ys) = x == y && same_codes xs ys
same_codes _ _ = false

unfoldable pub is_capability : Option Payload → Bool
unfolding same_codes
is_capability none = false
is_capability (some p) =
    same_codes (codes p.schema_version) (codes "v22_capability_request_envelope_v1")

unfoldable pub fail_update : JobState → JobErrorState → ℕ → Option Counters → Update
fail_update s e now counters = record {
  status = JobStatus.failed;
  stage = JobStage.failed;
  progress = s.progress;
  message = e.user_message;
  now = now;
  attempt_count = none;
  heartbeat_at = none;
  report = none;
  error = some e;
  cost_counters = counters;
  expected_generation = some s.run_generation;
}

unfoldable pub restore_update : JobState → ℕ → Update
restore_update s now = record {
  status = JobStatus.running;
  stage = JobStage.collecting_site;
  progress = s.progress;
  message = "Restoring the completed diagnosis.";
  now = now;
  attempt_count = none;
  heartbeat_at = none;
  report = none;
  error = none;
  cost_counters = none;
  expected_generation = some s.run_generation;
}

unfoldable pub complete_update : JobState → DurableReport → ℕ → Option Counters → Update
complete_update s report now counters = record {
  status = JobStatus.succeeded;
  stage = JobStage.completed;
  progress = 100;
  message = "Analysis complete.";
  now = now;
  attempt_count = none;
  heartbeat_at = none;
  report = some report;
  error = none;
  cost_counters = counters;
  expected_generation = some s.run_generation;
}

unfoldable pub deadline_error : ℕ → JobErrorState
deadline_error id = record {
  error_code = "JOB_DEADLINE_EXCEEDED";
  user_message = "The analysis exceeded its processing deadline.";
  retryable = false;
  stage = JobStage.failed;
  diagnostic_id = id;
}

abbrev is_queued : JobStatus → Bool
is_queued JobStatus.queued = true
is_queued _ = false

-- The update of a handled task, where there is one.
abbrev pub Handled : Type 0
Handled = Bool × Option TransitionResult

abbrev handled : {D : Type 0} → Result TransitionResult × D → Result Handled × D
handled (err e, db) = (err e, db)
handled (ok t, db) = (ok (true, some t), db)

module _ (R : Redis JobValue) (c : StoreConfig) where
  open R use {Db}

  -- A queued job is set running before it is completed.
  unfoldable pub restored :
      JobState
      → DurableReport
      → ℕ
      → Option Counters
      → Result TransitionResult × Db
      → Result Handled × Db
  restored s report now counters (err e, db) = (err e, db)
  restored s report now counters (ok t, db) =
      if t.applied
      then handled (transition R c s.job_id (complete_update s report now counters) [] db)
      else (ok (true, some t), db)

  unfoldable pub decided :
      Decision → JobState → JobErrorState → ℕ → Option Counters → Db → Result Handled × Db
  unfolding restored
  decided decide_fails s e now counters db = (ok (true, none), db)
  decided active_task s e now counters db = (ok (false, none), db)
  decided failed_task s e now counters db =
      handled (transition R c s.job_id (fail_update s e now counters) [] db)
  decided (completed_task report) s e now counters db =
      if is_queued s.status
      then restored s report now counters (transition R c s.job_id (restore_update s now) [] db)
      else handled (transition R c s.job_id (complete_update s report now counters) [] db)

  abbrev coordinated :
      Option Decision → JobState → JobErrorState → ℕ → Option Counters → Db → Result Handled × Db
  coordinated none s e now counters db = (ok (true, none), db)
  coordinated (some d) s e now counters db = decided d s e now counters db

  -- The envelope's validation is in the coordinator's answer.
  unfoldable pub capability_terminal_transition :
      Option Decision → JobState → JobErrorState → ℕ → Option Counters → Db → Result Handled × Db
  unfolding decided
  capability_terminal_transition coordinator s e now counters db =
      if is_capability (get_request R s.job_id db)
      then coordinated coordinator s e now counters db
      else (ok (false, none), db)
