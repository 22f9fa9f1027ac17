-- ===== src/Storage/Database/Integrity.antt =====
-- Referential integrity: what storage/schema.py declares by PRIMARY KEY, UNIQUE and FOREIGN KEY.
pub mod Parents
pub mod Children
pub mod Deletes
pub mod Operations
use reqstool_client.Prelude.{
  ◌&&◌, ◌==◌, eqb, Bool, ◌<◌, All, String, Option, arith, string_eq, inl, inr, Bool-cases,
}
use reqstool_client.Prelude.Result.{◌>>=◌, Result, ok, err}
use reqstool_client.Models.UrnId.{UrnId, urn_id_eq}
use reqstool_client.Models.Entities.{Category, category_eq, AnnotationData, MetaData}
use reqstool_client.Storage.Table.{
  NoTwice, Unique, Refers, Unique-add, Unique-filter, Refers-add_parent, Refers-add_child,
  Refers-filter, Refers-cascade,
}
use reqstool_client.Storage.Database.Rows.{
  metadata_key, UrnMetadataRow, EdgeRow, TestResultRow, AnnotationRow, Link, CategoryRow,
  requirement_key, svc_key, mvr_key, owner_of, target_of, category_key, annotation_key, urn_key,
  RequirementRow, SvcRow, MvrRow,
}
use reqstool_client.Storage.Database.State.{
  same_link, or_unchanged, Database, empty_database, has_requirement, has_svc,
}
use reqstool_client.Storage.Database.Specs.{
  insert_category, insert_reference, insert_requirement_row, insert_svc_link, insert_svc_row,
  insert_mvr_link, insert_mvr_row,
}
use reqstool_client.Storage.Database.Evidence.{
  same_edge, annotation_row, urn_metadata_row, insert_annotation_impl, insert_annotation_test,
  insert_urn_metadata,
}
use reqstool_client.Storage.Database.Deletion.{
  delete_requirement_row, delete_svc_row, delete_mvr_row,
}

abbrev pub same_category_row : CategoryRow → CategoryRow → Bool
same_category_row x r = x.key == r.key && x.category == r.category

abbrev pub same_link_row : Link → Link → Bool
same_link_row x r = same_link r.owner r.target x

abbrev pub same_annotation_row : AnnotationRow → AnnotationRow → Bool
same_annotation_row x r = x.key == r.key && (x.element_kind == r.element_kind && x.fqn == r.fqn)

abbrev pub same_result_row : TestResultRow → TestResultRow → Bool
same_result_row x r = x.urn == r.urn && x.fqn == r.fqn

abbrev pub same_edge_row : EdgeRow → EdgeRow → Bool
same_edge_row x r = same_edge r.parent_urn r.child_urn x

abbrev pub same_position : UrnMetadataRow → UrnMetadataRow → Bool
same_position x r = eqb x.parse_position r.parse_position

-- The primary keys of all thirteen tables and the parse positions are unique, no row refers to one that
-- is not there, and the next parse position is new.
pub record IsConsistent (db : Database) : Type 0 where
  pub requirements : Unique requirement_key db.requirements
  pub svcs : Unique svc_key db.svcs
  pub mvrs : Unique mvr_key db.mvrs
  pub urns : Unique urn_key db.urn_metadata
  pub positions : All (λ r. r.parse_position < db.next_parse_position) db.urn_metadata
  pub categories : Refers requirement_key category_key db.requirements db.requirement_categories
  pub references : Refers requirement_key owner_of db.requirements db.requirement_references
  pub link_svcs : Refers svc_key owner_of db.svcs db.svc_requirement_links
  pub link_requirements : Refers requirement_key target_of db.requirements db.svc_requirement_links
  pub link_mvrs : Refers mvr_key owner_of db.mvrs db.mvr_svc_links
  pub mvr_link_svcs : Refers svc_key target_of db.svcs db.mvr_svc_links
  pub impls : Refers requirement_key annotation_key db.requirements db.annotations_impls
  pub tests : Refers svc_key annotation_key db.svcs db.annotations_tests
  pub category_keys : NoTwice same_category_row db.requirement_categories
  pub reference_keys : NoTwice same_link_row db.requirement_references
  pub svc_link_keys : NoTwice same_link_row db.svc_requirement_links
  pub mvr_link_keys : NoTwice same_link_row db.mvr_svc_links
  pub impl_keys : NoTwice same_annotation_row db.annotations_impls
  pub test_keys : NoTwice same_annotation_row db.annotations_tests
  pub result_keys : NoTwice same_result_row db.test_results
  pub edge_keys : NoTwice same_edge_row db.parsing_graph
  pub position_keys : NoTwice same_position db.urn_metadata
  pub metadata_keys : Unique metadata_key db.metadata

-- What an operation that may raise leaves behind when it succeeds.
abbrev pub Leaves : (Database → Type 0) → Result Database → Type 0
Leaves P (ok db) = P db
Leaves P (err e) = Unit

pub empty-IsConsistent : IsConsistent empty_database
empty-IsConsistent = record {
  requirements = tt;
  svcs = tt;
  mvrs = tt;
  urns = tt;
  positions = tt;
  categories = tt;
  references = tt;
  link_svcs = tt;
  link_requirements = tt;
  link_mvrs = tt;
  mvr_link_svcs = tt;
  impls = tt;
  tests = tt;
  category_keys = tt;
  reference_keys = tt;
  svc_link_keys = tt;
  mvr_link_keys = tt;
  impl_keys = tt;
  test_keys = tt;
  result_keys = tt;
  edge_keys = tt;
  position_keys = tt;
  metadata_keys = tt;
}

-- A handler that leaves the database unchanged.
pub or_unchanged-Leaves :
    (P : Database → Type 0) (r : Result Database) (db : Database)
    → Leaves P r
    → P db
    → P (or_unchanged r db)
or_unchanged-Leaves P (ok db') db h p = h
or_unchanged-Leaves P (err e) db h p = p

-- A sequence of two operations.
pub bind-Leaves :
    (P : Database → Type 0) (r : Result Database) (f : Database → Result Database)
    → Leaves P r
    → ((db : Database) → P db → Leaves P (f db))
    → Leaves P (r >>= f)
bind-Leaves P (ok db) f h k = k db h
bind-Leaves P (err e) f h k = tt
