-- ===== src/Validators.antt =====
-- common/validators/*.py.
pub mod Lifecycle
pub mod Semantic
