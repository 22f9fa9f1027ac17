-- ===== src/Storage.antt =====
-- The in-memory SQLite database and what is built on it: storage/*.py.
pub mod Table
pub mod Database
pub mod Repository
pub mod Populator
pub mod Expressions
pub mod Filters
