-- ===== src/Worker/Updates.antt =====
-- What a run gets from outside, and the updates that it asks the store for.
use search_trust_rd.Prelude.{ℕ, ◌+◌, String, Bool, true, false, none, some, max, if◌then◌else◌}
use search_trust_rd.Cost.Counters.{Counters}
use search_trust_rd.Model.{JobStatus, JobStage, JobState, DurableReport, Result}
use search_trust_rd.Store.Transition.{Update}
use search_trust_rd.Worker.Failures.{JobException}

-- `executor.execute` under its timeout
pub data Execution : Type 0 where
  reports : DurableReport → Execution
  fails : JobException → Execution
  times_out is_cancelled : Execution

-- `ledger.ensure`, the counters before a run, and those after `record_job_attempt`.
pub record LedgerAnswers : Type 0 where
  pub ensured : Result {0} Unit
  pub opening : Result Counters
  pub closing : Result Counters

-- The times of a run: the check of the deadline, the start, and the end with or without a coordinator.
pub record Times : Type 0 where
  pub checked_at : ℕ
  pub started_at : ℕ
  pub decided_at : ℕ
  pub ended_at : ℕ

-- The stages that an executor reports.
pub data RunStage : Type 0 where
  market site competitors evidence evaluation validation saving : RunStage

abbrev pub stage_of : RunStage → JobStage
stage_of market = JobStage.collecting_market
stage_of site = JobStage.collecting_site
stage_of competitors = JobStage.collecting_competitors
stage_of evidence = JobStage.building_evidence
stage_of evaluation = JobStage.evaluating
stage_of validation = JobStage.validating
stage_of saving = JobStage.persisting

abbrev pub stage_message : RunStage → String
stage_message market = "Checking the saved search context and source validity."
stage_message site = "Checking website pages and the public business profile."
stage_message competitors = "Collecting the confirmed competitors' public evidence."
stage_message evidence = "Organising saved sources for the diagnosis."
stage_message evaluation = "Evaluating the evidence and supported actions."
stage_message validation = "Validating the report and its source references."
stage_message saving = "Saving the validated report."

abbrev pub runs_now : JobStatus → Bool
runs_now JobStatus.running = true
runs_now _ = false

unfoldable pub stage_update : JobState → RunStage → (generation now : ℕ) → Update
stage_update s stage generation now = record {
  status = JobStatus.running;
  stage = stage_of stage;
  progress = s.progress;
  message = stage_message stage;
  now = now;
  attempt_count = none;
  heartbeat_at = none;
  report = none;
  error = none;
  cost_counters = none;
  expected_generation = some generation;
}

unfoldable pub start_update : JobState → Bool → (generation now : ℕ) → Update
start_update s capability generation now = record {
  status = JobStatus.running;
  stage = if capability then JobStage.building_evidence else JobStage.collecting_site;
  progress = max s.progress 1;
  message = "Analysis is running.";
  now = now;
  attempt_count = some (s.attempt_count + 1);
  heartbeat_at = some now;
  report = none;
  error = none;
  cost_counters = none;
  expected_generation = some generation;
}

unfoldable pub success_update : DurableReport → Counters → (generation now : ℕ) → Update
success_update report counters generation now = record {
  status = JobStatus.succeeded;
  stage = JobStage.completed;
  progress = 100;
  message = "Analysis complete.";
  now = now;
  attempt_count = none;
  heartbeat_at = none;
  report = some report;
  error = none;
  cost_counters = some counters;
  expected_generation = some generation;
}
