-- ===== src/Models.antt =====
-- The data model: common/models/*.py, models/*.py and filters/*.py.
pub mod UrnId
pub mod Entities
pub mod Datasets
