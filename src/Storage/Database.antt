-- ===== src/Storage/Database.antt =====
-- storage/schema.py and storage/database.py: the tables, and the insert interface. A statement that
-- the schema refuses is `integrity_error`; where the source catches it, it logs a warning and
-- the table stays as it was.
mod Rows
mod State
mod Specs
mod Evidence
mod Deletion
pub mod Integrity
pub use Rows.*
unfoldable pub use State.*
unfoldable pub use Specs.*
unfoldable pub use Evidence.*
unfoldable pub use Deletion.*
