-- ===== src/Examples/Jobs.antt =====
-- A job that is registered, runs, loses its worker and is taken over.
use Prim.Native.String.{count}
use search_trust_rd.Prelude.{◌≡◌, refl, inl, inr, true, none, some, List, [], ◌∷◌, arith, whole}
use search_trust_rd.Cost.Counters.{validate_cost_counters_snapshot}
use search_trust_rd.Model.{
  JobStatus, JobStage, is_valid, valid_fields, valid_error_field, validate_lifecycle, ok, err,
  job_lease_lost,
}
use search_trust_rd.Redis.{Redis, state, active, job, delete, zadd, run_all}
use search_trust_rd.Redis.Journal.{journal}
use search_trust_rd.Transaction.{Round, IsSeen, attempt, settle}
use search_trust_rd.Store.Base.{JobValue, state_json, Hashes, StoreConfig, JobCommand}
use search_trust_rd.Store.Register.{Registration, initial_state, register_commands, register_job}
use search_trust_rd.Store.Transition.{Update, transition_next, transition}
use search_trust_rd.Store.Recovery.{
  take_over_next, take_over_stale, retry_failed, mark_recovery_enqueued,
}
use search_trust_rd.Store.Callbacks.{mark_callback_synced}
use search_trust_rd.Store.Lease.{refresh_lease, release_lease}
use search_trust_rd.Store.Indexes.{
  discard_index_member, discard_missing_job_indexes, discard_missing_job_recovery,
}
use search_trust_rd.Store.Atomic.{IsAtomic, operations-IsAtomic}
use search_trust_rd.Store.History.{
  Call, registers, transitions, takes_over, marks_synced, perform, history,
}
use search_trust_rd.Store.Tracked.Histories.{IsConsistent, history-IsConsistent}
use search_trust_rd.Store.Evolved.Histories.{Later, history-Evolves}
use search_trust_rd.Store.Evolved.Fencing.{superseded_worker_refused}
use search_trust_rd.Store.Isolation.{SameJob, history-SameJob}
use search_trust_rd.Store.Replay.{AnswersAgain, register_again}

abbrev pub server : Redis JobValue
server = journal JobValue

abbrev pub hashes : Hashes
hashes = record { canonical_json = λ p. p.schema_version; sha256 = count }

abbrev pub config : StoreConfig
config = record { state_ttl_seconds = 86400; job_timeout_seconds = 1200 }

abbrev pub seven : Registration
seven = record {
  job_id = 7;
  case_id = 3;
  idempotency_key = "key-1";
  request_payload = record { schema_version = "v1"; body = 5 };
  now = 1000;
  created_at = none;
  deadline_at = none;
  initial_generation = 1;
  initial_revision = 1;
  initial_attempt_count = 0;
  initial_cost_counters = [];
}

abbrev start : Update
start = record {
  status = JobStatus.running;
  stage = JobStage.collecting_site;
  progress = 5;
  message = "Collecting.";
  now = 2000;
  attempt_count = some 1;
  heartbeat_at = none;
  report = none;
  error = none;
  cost_counters = none;
  expected_generation = some 1;
}

abbrev calls : List Call
calls = transitions 7 start ∷ takes_over 7 1 9000 ∷ marks_synced 7 3 ∷ []

-- Two disturbed rounds: one that reads before the snapshot is deleted, and one in whose course the
-- active index gets an entry, which its reads have seen.
abbrev rival : List (Round server)
rival =
    record { seen = []; between = delete (state 7) ∷ [] }
    ∷ record {
      seen = zadd active (job 7) (whole 1) ∷ delete (state 7) ∷ [];
      between = zadd active (job 7) (whole 1) ∷ [];
    }
    ∷ []

abbrev pub registered : List JobCommand
registered = perform server hashes config (registers seven) []

abbrev pub taken_over : List JobCommand
taken_over =
    perform server hashes config (takes_over 7 1 9000)
      (perform server hashes config (transitions 7 start) registered)

-- The state key holds the first snapshot.
pub registered_held :
    server.get registered (state 7) ≡ some (state_json (initial_state hashes config seven))
unfolding perform register_job attempt settle is_valid valid_fields valid_error_field
    validate_cost_counters_snapshot validate_lifecycle run_all register_commands
registered_held = refl

registered-IsConsistent : IsConsistent server hashes config 7 registered
unfolding history
registered-IsConsistent = history-IsConsistent server hashes config 7 (registers seven ∷ []) [] tt

-- The worker of the first generation reports again after the takeover.
taken_over_held :
    server.get taken_over (state 7)
    ≡ some (
        state_json
          (take_over_next 9000 (transition_next start (initial_state hashes config seven))))
unfolding perform register_job transition take_over_stale attempt settle is_valid valid_fields
    valid_error_field validate_cost_counters_snapshot validate_lifecycle run_all register_commands
taken_over_held = refl

taken_over-IsConsistent : IsConsistent server hashes config 7 taken_over
unfolding history
taken_over-IsConsistent =
    history-IsConsistent server hashes config 7
      (registers seven ∷ transitions 7 start ∷ takes_over 7 1 9000 ∷ []) [] tt

history-IsConsistent_example :
    IsConsistent server hashes config 7 (history server hashes config (registers seven ∷ calls) [])
history-IsConsistent_example =
    history-IsConsistent server hashes config 7 (registers seven ∷ calls) [] tt

history-Evolves_example :
    Later server hashes config 7
      (initial_state hashes config seven)
      (history server hashes config calls registered)
history-Evolves_example =
    history-Evolves server hashes config 7 calls registered (initial_state hashes config seven)
      registered-IsConsistent registered_held refl

superseded_worker_refused_example :
    transition server config 7 start []
      (history server hashes config (marks_synced 7 3 ∷ []) taken_over)
    ≡ (err job_lease_lost, history server hashes config (marks_synced 7 3 ∷ []) taken_over)
superseded_worker_refused_example =
    superseded_worker_refused server hashes config 7 1 start (marks_synced 7 3 ∷ []) taken_over
      (take_over_next 9000 (transition_next start (initial_state hashes config seven)))
      taken_over-IsConsistent taken_over_held
      (unfold take_over_next transition_next initial_state in omega arith) refl refl

rival-IsSeen : IsSeen server rival []
unfolding run_all
rival-IsSeen = ((λ k. inl (refl, λ m. refl)), ((λ k. inr (refl, λ m. refl)), tt))

operations-IsAtomic_example :
    IsAtomic server (register_job hashes config seven server) rival []
    × IsAtomic server (transition server config 7 start) rival []
    × IsAtomic server (take_over_stale server config 7 1 9000) rival []
    × IsAtomic server (retry_failed server config 7 9000) rival []
    × IsAtomic server (mark_recovery_enqueued server config 7 1 9000) rival []
    × IsAtomic server (mark_callback_synced server config 7 3) rival []
    × IsAtomic server (refresh_lease server hashes 7 1 "token" 60) rival []
    × IsAtomic server (release_lease server hashes 7 1 "token") rival []
    × IsAtomic server (discard_index_member server active (job 7) (whole 2000)) rival []
    × IsAtomic server (discard_missing_job_indexes server 7) rival []
    × IsAtomic server (discard_missing_job_recovery server 7 1) rival []
operations-IsAtomic_example =
    operations-IsAtomic server hashes config seven start 7 1 9000 3 60 "token" active (job 7)
      (whole 2000) rival [] rival-IsSeen

registered_result :
    (register_job hashes config seven server [] []).0
    ≡ ok (record { state = initial_state hashes config seven; applied = true })
unfolding register_job attempt settle is_valid valid_fields valid_error_field
    validate_cost_counters_snapshot validate_lifecycle
registered_result = refl

pub again_valid : is_valid (initial_state hashes config seven) ≡ true
unfolding initial_state is_valid valid_fields valid_error_field validate_cost_counters_snapshot
    validate_lifecycle
again_valid = refl

register_again_example :
    AnswersAgain server hashes config seven seven
      (history server hashes config calls (register_job hashes config seven server [] []).1)
register_again_example =
    register_again server hashes config seven seven calls []
      (record { state = initial_state hashes config seven; applied = true }) tt registered_result
      refl refl refl again_valid refl refl

history-SameJob_example :
    SameJob server hashes config 8 registered (history server hashes config calls registered)
history-SameJob_example = history-SameJob server hashes config 8 calls registered refl
