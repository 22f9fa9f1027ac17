-- ===== src/Commands.antt =====
-- commands/*.py: the verdicts of the commands.
pub mod Pipeline
pub mod Validate
pub mod GroupBy
