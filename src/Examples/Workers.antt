-- ===== src/Examples/Workers.antt =====
-- A job with one attempt, whose run fails for want of a network.
use search_trust_rd.Prelude.{◌+◌, ◌≤◌, ◌≡◌, refl, true, false, none, some, [], arith}
use search_trust_rd.Model.{
  report_v22, JobState, is_valid, valid_fields, valid_error_field, valid_error, validate_lifecycle,
  terminal, ok,
}
use search_trust_rd.Cost.Counters.{validate_cost_counters_snapshot}
use search_trust_rd.Redis.{run_all}
use search_trust_rd.Transaction.{attempt, settle}
use search_trust_rd.Store.Base.{Payload, get_request}
use search_trust_rd.Store.Register.{initial_state, register_job, register_commands}
use search_trust_rd.Store.Transition.{transition, transition_next}
use search_trust_rd.Store.History.{perform}
use search_trust_rd.Store.Applied.{Holds}
use search_trust_rd.Worker.Succeeded.{Reports, SucceedsWith, run-SucceedsWith}
use search_trust_rd.Capability.{is_capability}
use search_trust_rd.Worker.{Context, Trace, notify_state, failure_error, finish_failure}
use search_trust_rd.Worker.Failures.{network_error, classify_job_exception, retry_delay_seconds}
use search_trust_rd.Worker.Delay.{retry_delay_seconds_bounds}
use search_trust_rd.Worker.Updates.{Execution, fails, reports, Times, start_update}
use search_trust_rd.Worker.Runs.{failing, execute_with_lease}
use search_trust_rd.Worker.Settled.{Settled, Owned, finish-Settled}
use search_trust_rd.Worker.Attempts.{started_state, IsReady, Fails, handed_over, run-Settled}
use search_trust_rd.Worker.Exhausted.{FailingRun}
use search_trust_rd.Examples.Jobs.{
  server, hashes, config, seven, registered, registered_held, again_valid,
}

retry_delay_seconds_bounds_example :
    (5 ≤ retry_delay_seconds 7 1)
    × (retry_delay_seconds 7 4 ≤ 63)
    × (retry_delay_seconds 7 1 ≤ retry_delay_seconds 9 4 + 3)
retry_delay_seconds_bounds_example = retry_delay_seconds_bounds 7 9 1 4 (omega arith)

abbrev context : Context
context = record {
  synchronizer = none;
  coordinator = none;
  summaries = true;
  max_attempts = 1;
  diagnostic_id = 1;
  digest_byte = 7;
}

abbrev times : Times
times = record { checked_at = 2000; started_at = 2000; decided_at = 3000; ended_at = 3000 }

abbrev fails_at_once : Trace server config → Execution × Trace server config
fails_at_once w = (fails network_error, w)

abbrev queued_job : JobState
queued_job = initial_state hashes config seven

abbrev payload : Payload
payload = record { schema_version = "v1"; body = 5 }

request_held : get_request server 7 registered ≡ some payload
unfolding get_request perform register_job attempt settle is_valid valid_fields valid_error_field
    validate_cost_counters_snapshot validate_lifecycle run_all register_commands
request_held = refl

held : Holds server config 7 registered queued_job
held = record { stored = registered_held; valid = again_valid }

ready : IsReady server config context queued_job 1 [] times fails_at_once registered payload
unfolding initial_state terminal is_capability
ready = record {
  held = held;
  same_generation = refl;
  is_open = refl;
  requested = request_held;
  plain = refl;
  before_deadline = refl;
  in_time = omega arith;
}

abbrev begun : JobState
begun = started_state queued_job 1 2000

-- What the executor is given, and leaves.
abbrev given_on : Trace server config
given_on = handed_over server config context queued_job 1 [] times fails_at_once registered [] []

begun_held : Holds server config 7 given_on.0.0 begun
unfolding perform register_job transition attempt settle is_valid valid_fields valid_error_field
    validate_cost_counters_snapshot validate_lifecycle run_all register_commands started_state
    notify_state start_update
begun_held = record { stored = refl; valid = refl }

begun-Owned :
    Owned server config context begun 1
      (failing server config network_error [] times)
      given_on.0.0
      begun
unfolding started_state transition_next start_update initial_state terminal
    validate_cost_counters_snapshot
begun-Owned = record {
  held = begun_held;
  same_job = refl;
  progress_fits = refl;
  same_generation = refl;
  is_open = refl;
  in_time = omega arith;
  counted = refl;
}

begun_plain : is_capability (get_request server 7 given_on.0.0) ≡ false
unfolding perform register_job transition attempt settle is_valid valid_fields valid_error_field
    validate_cost_counters_snapshot validate_lifecycle run_all register_commands notify_state
    get_request is_capability start_update
begun_plain = refl

exhausted_valid : valid_error (failure_error (classify_job_exception network_error) 1) ≡ true
unfolding valid_error failure_error classify_job_exception
exhausted_valid = refl

works : Fails server config context queued_job 1 [] times fails_at_once network_error given_on
unfolding get_request is_capability initial_state
works = record {
  after = given_on;
  raises_it = refl;
  current = begun;
  owned = begun-Owned;
  plain = begun_plain;
}

run-Settled_example :
    Settled server config context begun 1 (failing server config network_error [] times) (
      execute_with_lease server config fails_at_once context queued_job queued_job.job_id 1 false
        (record { ensured = ok tt; opening = ok []; closing = ok [] })
        times
        ((registered, []), []))
run-Settled_example =
    run-Settled server config context queued_job 1 [] times fails_at_once network_error registered
      payload false (ok []) [] [] ready works refl exhausted_valid

finish-Settled_example :
    Settled server config context begun 1 (failing server config network_error [] times) (
      finish_failure server config context begun 1
        (failing server config network_error [] times)
        ((given_on.0.0, []), []))
unfolding get_request is_capability started_state transition_next initial_state
finish-Settled_example =
    finish-Settled server config context begun 1 (failing server config network_error [] times)
      given_on.0.0 begun [] [] begun-Owned refl begun_plain exhausted_valid

seventh : queued_job.job_id ≡ 7
unfolding initial_state
seventh = refl

abbrev only_run : FailingRun server config context 7 1 registered
only_run = record {
  s = queued_job;
  same_job = seventh;
  exc = network_error;
  counters = [];
  times = times;
  execute = fails_at_once;
  payload = payload;
  lost = false;
  opening = ok [];
  sent = [];
  summaries = [];
  ready = ready;
  works = works;
  owns = refl;
  valid = exhausted_valid;
}

abbrev reports_at_once : Trace server config → Execution × Trace server config
reports_at_once w = (reports (report_v22 4), w)

reporting-IsReady :
    IsReady server config context queued_job 1 [] times reports_at_once registered payload
unfolding initial_state terminal is_capability
reporting-IsReady = record {
  held = held;
  same_generation = refl;
  is_open = refl;
  requested = request_held;
  plain = refl;
  before_deadline = refl;
  in_time = omega arith;
}

reported_on :
    Reports server config context queued_job 1 [] times reports_at_once (report_v22 4) given_on
unfolding started_state transition_next start_update initial_state
reported_on = record {
  after = given_on;
  reports_it = refl;
  current = begun;
  held = begun_held;
  same_job = refl;
  same_generation = refl;
  is_running = refl;
  in_time = omega arith;
  belongs = refl;
}

no_counters : validate_cost_counters_snapshot [] ≡ true
unfolding validate_cost_counters_snapshot
no_counters = refl

run-SucceedsWith_example :
    SucceedsWith server config context queued_job 1 [] times reports_at_once (report_v22 4) (
      execute_with_lease server config reports_at_once context queued_job queued_job.job_id 1 false
        (record { ensured = ok tt; opening = ok []; closing = ok [] })
        times
        ((registered, []), []))
run-SucceedsWith_example =
    run-SucceedsWith server config context queued_job 1 [] times reports_at_once (report_v22 4)
      registered payload (ok []) [] [] reporting-IsReady reported_on no_counters
