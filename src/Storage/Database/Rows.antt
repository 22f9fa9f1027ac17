-- ===== src/Storage/Database/Rows.antt =====
-- storage/schema.py: the columns of each table. The pair of columns (urn, id) is a `UrnId`, and
-- the columns that an enum's value is written to hold the enum.
use reqstool_client.Prelude.{ℕ, String, Bool, Option}
use reqstool_client.Models.UrnId.{UrnId}
use reqstool_client.Models.Entities.{
  Significance, LifecycleData, Implementation, SourceSpan, Category, VerificationType,
  VerificationPhase, Datetime, TestRunStatus, Variant,
}
use reqstool_client.Models.Datasets.{EdgeType}

-- `requirements`
pub record RequirementRow : Type 0 where
  pub key : UrnId
  pub title : String
  pub significance : Significance
  pub lifecycle : LifecycleData
  pub implementation : Implementation
  pub description : String
  pub rationale : Option String
  pub revision : String
  pub span : SourceSpan

-- `requirement_categories`
pub record CategoryRow : Type 0 where
  pub key : UrnId
  pub category : Category

-- `svcs`
pub record SvcRow : Type 0 where
  pub key : UrnId
  pub title : String
  pub verification : VerificationType
  pub phase : VerificationPhase
  pub lifecycle : LifecycleData
  pub description : Option String
  pub instructions : Option String
  pub revision : String
  pub span : SourceSpan

-- `mvrs`
pub record MvrRow : Type 0 where
  pub key : UrnId
  pub passed : Bool
  pub comment : Option String
  pub date : Option Datetime
  pub span : SourceSpan

-- `requirement_references`, `svc_requirement_links` and `mvr_svc_links`: the first pair of columns
-- and the second
pub record Link : Type 0 where
  pub owner : UrnId
  pub target : UrnId

-- `annotations_impls` and `annotations_tests`
pub record AnnotationRow : Type 0 where
  pub key : UrnId
  pub element_kind : String
  pub fqn : String

-- `test_results`
pub record TestResultRow : Type 0 where
  pub urn : String
  pub fqn : String
  pub status : TestRunStatus

-- `parsing_graph`
pub record EdgeRow : Type 0 where
  pub parent_urn : String
  pub child_urn : String
  pub edge_type : EdgeType

-- `urn_metadata`
pub record UrnMetadataRow : Type 0 where
  pub urn : String
  pub variant : Option Variant
  pub title : String
  pub url : Option String
  pub parse_position : ℕ
  pub location_type : Option String
  pub location_uri : Option String

-- `metadata`
pub record MetadataRow : Type 0 where
  pub key : String
  pub value : String

-- The columns that keys and references name.
abbrev pub requirement_key : RequirementRow → UrnId
requirement_key r = r.key

abbrev pub category_key : CategoryRow → UrnId
category_key r = r.key

abbrev pub svc_key : SvcRow → UrnId
svc_key r = r.key

abbrev pub mvr_key : MvrRow → UrnId
mvr_key r = r.key

abbrev pub owner_of : Link → UrnId
owner_of l = l.owner

abbrev pub target_of : Link → UrnId
target_of l = l.target

abbrev pub annotation_key : AnnotationRow → UrnId
annotation_key r = r.key

abbrev pub urn_key : UrnMetadataRow → String
urn_key r = r.urn

abbrev pub metadata_key : MetadataRow → String
metadata_key r = r.key
