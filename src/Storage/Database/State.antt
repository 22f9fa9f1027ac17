-- ===== src/Storage/Database/State.antt =====
-- storage/database.py: `RequirementsDatabase`, the tables of storage/schema.py.
use reqstool_client.Prelude.{ℕ, Bool, ◌&&◌, List, [], ◌==◌, string_eq}
use reqstool_client.Prelude.Result.{Result, ok, err}
use reqstool_client.Models.UrnId.{UrnId, urn_id_eq}
use reqstool_client.Models.Entities.{category_eq}
use reqstool_client.Storage.Table.{has}
use reqstool_client.Storage.Database.Rows.{
  RequirementRow, CategoryRow, SvcRow, MvrRow, Link, AnnotationRow, TestResultRow, EdgeRow,
  UrnMetadataRow, MetadataRow, requirement_key, svc_key, mvr_key,
}

-- `RequirementsDatabase`
pub record Database : Type 0 where
  pub requirements : List RequirementRow
  pub requirement_categories : List CategoryRow
  pub requirement_references : List Link
  pub svcs : List SvcRow
  pub svc_requirement_links : List Link
  pub mvrs : List MvrRow
  pub mvr_svc_links : List Link
  pub annotations_impls : List AnnotationRow
  pub annotations_tests : List AnnotationRow
  pub test_results : List TestResultRow
  pub parsing_graph : List EdgeRow
  pub urn_metadata : List UrnMetadataRow
  pub metadata : List MetadataRow
  pub next_parse_position : ℕ

-- `RequirementsDatabase.__init__`
abbrev pub empty_database : Database
empty_database = record {
  requirements = [];
  requirement_categories = [];
  requirement_references = [];
  svcs = [];
  svc_requirement_links = [];
  mvrs = [];
  mvr_svc_links = [];
  annotations_impls = [];
  annotations_tests = [];
  test_results = [];
  parsing_graph = [];
  urn_metadata = [];
  metadata = [];
  next_parse_position = 0;
}

-- `except sqlite3.IntegrityError`: the statement has changed nothing.
abbrev pub or_unchanged : Result Database → Database → Database
or_unchanged (ok db') db = db'
or_unchanged (err e) db = db

abbrev pub has_requirement : Database → UrnId → Bool
has_requirement db = has requirement_key db.requirements

abbrev pub has_svc : Database → UrnId → Bool
has_svc db = has svc_key db.svcs

abbrev pub has_mvr : Database → UrnId → Bool
has_mvr db = has mvr_key db.mvrs

-- The `PRIMARY KEY` of a table of links is the whole row.
abbrev pub same_link : UrnId → UrnId → Link → Bool
same_link owner target l = l.owner == owner && l.target == target
