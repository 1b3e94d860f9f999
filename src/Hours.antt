-- ===== src/Hours.antt =====
-- app/report_v22/opening_hours.py: the weekly hours that a text publishes, and the comparison of two
-- channels. The regular expressions are not part of the repository: what they match is the input.
pub mod Clock
pub mod Periods
pub mod Week
pub mod Compare
