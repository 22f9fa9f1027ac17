-- ===== src/Services/Statistics/TotalsLaws.antt =====
-- services/statistics_service.py: what the totals add up to.
pub mod Bounds
pub mod Kinds
pub mod Tallies
