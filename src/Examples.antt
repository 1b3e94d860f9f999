-- ===== src/Examples.antt =====
-- Concrete runs: tests of the definitions by evaluation, and each theorem at an input that meets its
-- hypotheses.
pub mod Jobs
pub mod Circuits
pub mod Costs
pub mod Recoveries
pub mod Hours
pub mod Workers
pub mod Pages
pub mod Plans
pub mod Differences
pub mod Dates
pub mod Discoveries
