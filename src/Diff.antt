-- ===== src/Diff.antt =====
-- The difference of a verified report to its parent: app/report_v22/version_diff.py.
pub mod Sources
pub mod Relations
pub mod Changes
pub mod Loops
pub mod Refs
pub mod Compared
pub mod Partition
