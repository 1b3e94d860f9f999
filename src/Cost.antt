-- ===== src/Cost.antt =====
-- Cost accounting: the counter snapshot that every job state carries, and the ledger behind it.
pub mod Counters
pub mod Claims
pub mod Book
pub mod Ledger
pub mod Growth
pub mod Limits
pub mod Mutations
pub mod Histories
pub mod Summary
pub mod Conservation
pub mod Totals
