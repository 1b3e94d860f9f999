-- ===== src/Plan.antt =====
-- The planning of public actions: app/report_v22/actions.py.
pub mod Sorting
pub mod Findings
pub mod Outcome
pub mod Targets
pub mod Groups
pub mod Candidates
pub mod Schedule
pub mod Skeleton
pub mod Build
