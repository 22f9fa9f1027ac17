-- ===== src/Storage/Repository.antt =====
-- storage/requirements_repository.py: the queries that the services and commands read through.
mod Like
mod Entities
mod Ranking
mod Evidence
pub mod LikeLaws
pub mod RankingLaws
pub mod EvidenceLaws
unfoldable pub use Like.*
unfoldable pub use Entities.*
unfoldable pub use Ranking.*
unfoldable pub use Evidence.*
