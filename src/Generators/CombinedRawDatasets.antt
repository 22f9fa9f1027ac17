-- ===== src/Generators/CombinedRawDatasets.antt =====
-- model_generators/combined_raw_datasets_generator.py: `CombinedRawDatasetsGenerator`, the traversal of
-- imports and implementations and the storing of what was parsed. Reading and parsing one source is
-- the parameter `parse`; the nesting level, which is for logging, is left out.
mod Imports
mod Population
pub mod Distinct
pub mod Fuel
pub mod PopulationLaws
unfoldable pub use Imports.*
unfoldable pub use Population.*
