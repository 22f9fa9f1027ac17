-- ===== src/Storage/Filters.antt =====
-- storage/database_filter_processor.py: `DatabaseFilterProcessor`.
mod Deletion
mod Selection
pub mod Conditions
pub mod Orphans
pub mod Outcome
pub mod Requirements
pub mod Termination
pub mod Exactness
unfoldable pub use Deletion.*
unfoldable pub use Selection.*
