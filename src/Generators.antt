-- ===== src/Generators.antt =====
-- model_generators/*.py: what is built from the sources.
pub mod SourceLines
pub mod RequirementsModel
pub mod SvcsModel
pub mod MvrsModel
pub mod AnnotationsModel
pub mod TestDataModel
pub mod Sources
pub mod CombinedRawDatasets
