-- ===== src/Services/Statistics.antt =====
-- services/statistics_service.py: the completion verdict of a requirement and the totals.
mod Records
mod Verdict
mod Totals
pub mod VerdictLaws
pub mod TotalsLaws
unfoldable pub use Records.*
unfoldable pub use Verdict.*
unfoldable pub use Totals.*
