-- ===== src/Store.antt =====
-- app/jobs_v22/store.py: the durable state operations. Each file below has one group of methods.
pub mod Base
pub mod Register
pub mod Transition
pub mod Recovery
pub mod Callbacks
pub mod Lease
pub mod Applied
pub mod Fitting
pub mod Indexes
pub mod Discards
pub mod Watched
pub mod Atomic
pub mod History
pub mod Tracked
pub mod Evolved
pub mod Isolation
pub mod Identities
pub mod Replay
