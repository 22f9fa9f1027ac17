-- ===== src/Services/Statistics/VerdictLaws.antt =====
-- services/statistics_service.py: when a requirement is complete, and what the counts add up to.
pub mod Manual
pub mod Tally
pub mod Counting
pub mod Automated
pub mod Completion
