-- ===== src/Lib.antt =====
-- SearchTrust V2.2 backend: a verification library for its durable job layer, for the planning of
-- actions and the difference of reports, and for the comparison of opening hours.
--
-- The program is a web service and a worker process that share a Redis server. A request is
-- registered as a job; workers run it, report progress, and are replaced when their heartbeat
-- stops; a reconciler hands jobs on and delivers state callbacks. A job's report has findings, from
-- which a plan of three actions is made; a later report is compared with it. The code is Python
-- under app/.
--
-- Parts and files:
--   Model: app/jobs_v22/models.py and errors.py. JobState with its field constraints (`valid_fields`)
--     and its lifecycle validator, and the errors of the store. `is_valid` is the acceptance by
--     `JobState.model_validate`.
--   Cost/Counters: the counter keys and their validation in app/jobs_v22/cost_models.py.
--   Redis: the server, as a record of reads, commands and laws that every definition takes as a
--     parameter, and the keys of app/jobs_v22/keys.py as data. Two laws say what GET and ZSCORE
--     return after each command (the documented effect); two more say that a listing shows scores
--     as they are. Redis/Journal is an instance, for the concrete runs.
--   Transaction: the WATCH, MULTI, EXEC loop in which app/jobs_v22/store.py does every change.
--     `attempt` runs a body through disturbed rounds and then a quiet one. A round has the other
--     clients' commands from its WATCH on, and what its reads return, which may be of different
--     moments; EXEC fails if a command has touched a watched key. The list of rounds is finite, so
--     the loop ends.
--   Store: app/jobs_v22/store.py. A method `m` is `m` here; `m_body` is its transaction body and
--     `m_plan` what the body decides after its reads. Store/Register has register_job,
--     Store/Transition transition and heartbeat, Store/Recovery take_over_stale, retry_failed and
--     mark_recovery_enqueued, Store/Callbacks mark_callback_synced, Store/Lease the three lease
--     methods, Store/Indexes the listings and removals. A RegistrationResult is a
--     TransitionResult whose `applied` is `not replayed`.
--   Store/History: the calls as data, and their runs one after another, with the lapse of keys. The
--     laws over histories stand below Store/Tracked and Store/Evolved, in Store/Isolation and in
--     Store/Replay, with the identities of registrations in Store/Identities; Store/Watched and Store/Atomic connect the calls to the loop.
--   Circuit: app/jobs_v22/circuit_breaker.py, the circuit of a provider and an operation over three
--     keys; Circuit/Laws has what callers rely on. A circuit's id stands for the digest in its keys.
--     The TTLs are passed to the server, but no clock of it is modelled: a lapse is a change of a key.
--   Cost/Claims, Cost/Book and Cost/Ledger: the models of app/jobs_v22/cost_models.py and the methods
--     of app/jobs_v22/cost_ledger.py. `claim_mutation` is the function `mutate` inside `claim`, and so
--     on; `mutate` is `_mutate`, `current_state` is `state`, `hit_mutation` and `attempt_mutation` are
--     those of record_checkpoint_hit and record_job_attempt. Cost/Growth, Cost/Limits and Cost/Mutations say
--     how a mutation changes a ledger, Cost/Histories what a sequence of calls does.
--   Cost/Summary: cost_counters_from_state. Cost/Conservation and Cost/Totals relate its counters. The
--     elapsed wall time, a product of floating-point numbers in the source, is its argument.
--   Capability: app/jobs_v22/capability_terminal.py, capability_terminal_transition.
--   Reconcile: `_finish_pending_recovery` of app/jobs_v22/reconciler.py, with CallbackSynchronizer.sync
--     of app/jobs_v22/callbacks.py; Reconcile/Barrier has its order of actions. Answers from outside
--     are arguments (`Outside`); a run keeps the callbacks and enqueues that it has made.
--   Hours/Clock, Hours/Periods, Hours/Week and Hours/Compare: app/report_v22/opening_hours.py, from the
--     groups that the regular expressions find. `clock_minutes` is the function of that name,
--     `parse_chunks` the `try` block of parse_week with its loops (`weekly_from`, `expand`,
--     `merge_days`), `compare_candidates` the function of that name. A ValueError is `refused`.
--   Store/Applied: what one applied update, or one receipt of a callback, makes of a held snapshot.
--   Worker/Failures, Worker, Worker/Updates and Worker/Runs: app/jobs_v22/errors.py (classify_job_exception) and
--     app/jobs_v22/worker.py: `finish_failure` is `_finish_failure`, `execute_with_lease` is
--     `_execute_with_lease`, `execute_v22_job` and `report_stage` the functions of those names. The
--     executor is a function argument; the ledger, the outbox, the clock and whether the heartbeat has
--     lost the lease are answers. Worker/Settled, Worker/Attempts and Worker/Exhausted are about
--     failures, Worker/Succeeded about a run that succeeds, Worker/Delay about the delay.
--   Reconcile/Pass: `reconcile_once` of app/jobs_v22/reconciler.py; `stale_job` is one turn of its last
--     loop. Reconcile/Receipts: a callback changes only its receipt. Store/Fitting and Store/Discards:
--     when an update's snapshot is valid, and what discarding leaves.
--   Selection: `select_key_pages` of app/collectors/site_inventory_selection.py, with the ranking as an
--     argument; Selection/Laws and Selection/Caps have its bounds.
--   Plan: app/report_v22/actions.py with the tables of public_action_catalog.py and the models of
--     action_models.py. Plan/Findings has the tables and the findings, Plan/Targets `_build_targets`,
--     Plan/Groups and Plan/Candidates the functions up to `_build_candidates`, Plan/Schedule `_add_dependencies` and
--     `_topological_order`, Plan/Skeleton `_build_action`, Plan/Build the two public functions and the
--     plan's validator; Plan/Sorting is `sorted` with a key. A text or an identifier is a number, its
--     place among the others; what depends on digests and URLs is an argument (`Texts`). The `while`
--     loop has the number of selected actions and one more as its fuel; Plan/Schedule/Laws shows that
--     it is enough where the dependencies have no cycle, and Plan/Schedule/Recovery that those which
--     the code adds have none. Plan/Candidates/Grouped, Ranked and Sound and Plan/Build/Made and Sound
--     are about the results. Errors of PublicActionError are the outcome `raised`.
--   Diff: app/report_v22/version_diff.py. Diff/Sources has what is compared, Diff/Relations the relations
--     of a finding, Diff/Changes the decision for a finding of the parent, Diff/Loops the two loops and
--     `build_version_diff` from there on; an entry and its audit entry are one record. Diff/Refs,
--     Diff/Compared and Diff/Partition are about the result. A VersionDiffError is `refused`.
--   Windows: app/report_v22/comparison_windows.py, with the conversions of time zones as an argument
--     (`Zones`).
--   Discovery: app/competitors_v22/selection.py, with what the two stores answer as an argument
--     (`Stores`); Discovery/Linked says what a link stands for.
--   Examples: concrete runs.
--
-- Representation: a UUID is its 128-bit number, a digest the number that its text writes, a time a
-- number of microseconds. SHA-256 and the JSON encoder are functions of a parameter (`Hashes`); no
-- law of them is used. A JSON document is the value that it encodes, so the decoders have the
-- program's checks and no syntax. Texts are taken to be stripped, as the models strip them.
--
-- Not modelled: the checks of a plan's and a difference's input before their loops, and the identity
-- digests; the order in which the server lists members; the publication of events beyond the
-- command that sends it; the other components of app/, which fetch pages, call providers, assemble
-- reports from templates of text and serve HTTP.
pub mod Prelude
pub mod Cost
pub mod Model
pub mod Redis
pub mod Transaction
pub mod Store
pub mod Circuit
pub mod Examples
pub mod Capability
pub mod Reconcile
pub mod Windows
pub mod Worker
pub mod Diff
pub mod Discovery
pub mod Hours
pub mod Plan
pub mod Selection
