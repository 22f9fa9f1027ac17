-- ===== src/Services.antt =====
-- The services over the repository: services/*.py.
pub mod Statistics
pub mod Export
