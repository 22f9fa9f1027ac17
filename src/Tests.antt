-- ===== src/Tests.antt =====
-- Small inputs, the values that the definitions compute on them, and the theorems applied to them.
mod Sample
mod ModelTests
mod StorageTests
mod FilterTests
mod GeneratorTests
mod ServiceTests
mod ExpressionTests
mod ValidatorTests
mod FileTests
mod SnapshotTests
mod ExportTests
mod CommandTests
