-- ===== src/Lib.antt =====
-- A verification library of reqstool-client: requirements traceability over one in-memory database.
--
-- The program reads requirements, software verification cases (SVCs), manual verification results
-- (MVRs), annotations and test results of a tree of sources, stores them in an SQLite database
-- (src/reqstool/storage), and answers queries and computes verdicts from it (src/reqstool/services).
--
-- Prelude: equality as Python's `==`, lists, and the result of code that may raise.
-- Models: UrnId is src/reqstool/common/models/urn_id.py with the id conversions of
-- src/reqstool/common/utils.py; Entities and Datasets are src/reqstool/models/*.py,
-- src/reqstool/common/models/lifecycle.py and src/reqstool/filters/*.py. A dict is the list of its
-- entries in insertion order, a revision the normalised text of its version, and a date the number of
-- microseconds from the first representable instant.
-- Storage.Table: a table is the list of its rows in insertion order, with the keys, references and
-- cascades of src/reqstool/storage/schema.py.
-- Storage.Database: `RequirementsDatabase` of src/reqstool/storage/database.py, by the method
-- names; an operation that may raise `sqlite3.IntegrityError` returns a `Result`. Integrity states
-- what the schema declares as the invariant `IsConsistent`.
-- Storage.Populator: src/reqstool/storage/populator.py, and when it succeeds (Source).
-- Storage.Repository: src/reqstool/storage/requirements_repository.py, its SQL as functions on the
-- rows: LIKE (Like), the entities (Entities), `ROW_NUMBER()` over the dates of MVRs (Ranking), and
-- the resolution of test annotations (Evidence).
-- Storage.Filters: src/reqstool/storage/database_filter_processor.py: the deletions (Deletion) and what
-- is kept (Selection). The recursion over the imports takes fuel; fuel above the depth of the imports
-- is enough (Termination). Compiling an expression is the parameter `compile`, which Conditions
-- instantiates with the compiler.
-- Storage.Expressions: the tree of a filter expression (Syntax), its evaluation for one id, which is
-- src/reqstool/expression_languages/generic_el_transformer.py (Evaluator), and its compilation to a
-- WHERE clause, src/reqstool/storage/el_to_sql_compiler.py (Compiler). lark's parser, the matching of
-- patterns and SQLite's reading of a clause are parameters.
-- Services.Statistics: src/reqstool/services/statistics_service.py: the verdict on a requirement
-- (Verdict) and the totals (Totals). Services.Export: the selection of items by
-- src/reqstool/services/export_service.py, with the items in place of their texts.
-- Generators: RequirementsModel, SvcsModel, MvrsModel, AnnotationsModel and TestDataModel are the
-- generators of src/reqstool/model_generators by those names, from the documents that the schemas have
-- accepted; Sources is what is parsed of one source.
-- Generators.CombinedRawDatasets: src/reqstool/model_generators/combined_raw_datasets_generator.py: the
-- traversal of imports and implementations (Imports), on fuel above its depth (Fuel) and with the
-- parameter `parse` for reading one source, and storing the datasets (Population).
-- Common: FilterParser and SnapshotFingerprint are src/reqstool/common/filter_parser.py and
-- snapshot_fingerprint.py, with the file system as a parameter. Validators.Lifecycle and
-- Validators.Semantic are src/reqstool/common/validators/lifecycle_validator.py and
-- semantic_validator.py, whose messages are values that name what the text names.
-- Commands: Pipeline is src/reqstool/storage/pipeline.py, which composes the parts above, and Validate
-- src/reqstool/commands/validate/validate.py, without its texts. GroupBy is
-- src/reqstool/commands/report/criterias/group_by.py, without the sorting of each group.
-- Tests: a sample dataset, runs on it, and the theorems applied to it.
--
-- Strings are the native ones, numbers the native ℕ, except `total_tests`, which may fall below zero
-- and is an integer. SQLite promises no order among rows of equal rank; the order in which it meets
-- them is an instance argument of the queries that rank (`TieOrder`). Loops are structural but for the
-- recursions over imports, which take fuel.
--
-- Not modelled: connections, commits and backups of the database; reading YAML, XML and archives; the
-- network; the command line, the language server and the rendering of reports and messages.
pub mod Prelude
pub mod Models
pub mod Storage
pub mod Services
pub mod Common
pub mod Validators
pub mod Commands
pub mod Tests
pub mod Generators
