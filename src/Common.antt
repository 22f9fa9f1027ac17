-- ===== src/Common.antt =====
-- common/*.py: what the sources' filters are read into.
pub mod FilterParser
pub mod SnapshotFingerprint
