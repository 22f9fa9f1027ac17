-- ===== src/Models/Entities.antt =====
-- common/models/lifecycle.py and models/{requirements,svcs,mvrs,annotations,test_data}.py: the
-- entities of a dataset. A pydantic default is what a caller writes out.
use reqstool_client.Prelude.{ℕ, String, Bool, true, false, Option, List, ◌/◌, Eq}
use reqstool_client.Models.UrnId.{UrnId}

-- `LIFECYCLESTATE`
pub data LifecycleState : Type 0 where
  draft effective deprecated obsolete : LifecycleState

-- `lifecycle_state_sort_order`
unfoldable pub sort_order : LifecycleState → ℕ
sort_order obsolete = 0
sort_order deprecated = 1
sort_order effective = 2
sort_order draft = 3

-- `LifecycleData`
pub record LifecycleData : Type 0 where
  pub state : LifecycleState
  pub reason : Option String

-- `state in (LIFECYCLESTATE.DEPRECATED, LIFECYCLESTATE.OBSOLETE)`
unfoldable pub is_defunct : LifecycleState → Bool
is_defunct deprecated = true
is_defunct obsolete = true
is_defunct _ = false

-- `state in (LIFECYCLESTATE.EFFECTIVE, LIFECYCLESTATE.DRAFT)`
unfoldable pub is_in_use : LifecycleState → Bool
is_in_use effective = true
is_in_use draft = true
is_in_use _ = false

-- `VARIANTS`
pub data Variant : Type 0 where
  system microservice external : Variant

-- `SIGNIFICANCETYPES`
pub data Significance : Type 0 where
  shall should may : Significance

-- `CATEGORIES`
pub data Category : Type 0 where
  functional_suitability performance_efficiency compatibility : Category
  interaction_capability reliability security : Category
  maintainability flexibility safety : Category

unfoldable pub category_dec : Discrete Category
category_dec = hlevel

instance unfoldable pub category_eq : Eq Category
category_eq = record { dec = category_dec }

-- `IMPLEMENTATION`
pub data Implementation : Type 0 where
  in_code configuration platform framework not_applicable : Implementation

-- `implementation in NON_CODE_IMPLEMENTATIONS`
unfoldable pub is_non_code : Implementation → Bool
is_non_code in_code = false
is_non_code _ = true

-- `ReferenceData`, its set as a list
pub record ReferenceData : Type 0 where
  pub requirement_ids : List UrnId

-- where an id stands in its YAML file, if it was captured
pub record SourceSpan : Type 0 where
  pub source_line : Option ℕ
  pub source_col_start : Option ℕ
  pub source_col_end : Option ℕ

-- `RequirementData`; a revision is the text of its `packaging.version.Version`.
pub record RequirementData : Type 0 where
  pub id : UrnId
  pub title : String
  pub significance : Significance
  pub description : String
  pub rationale : Option String
  pub revision : String
  pub lifecycle : LifecycleData
  pub implementation : Implementation
  pub categories : List Category
  pub references : List ReferenceData
  pub span : SourceSpan

-- `MetaData`
pub record MetaData : Type 0 where
  pub urn : String
  pub variant : Option Variant
  pub title : String
  pub url : Option String

-- `VERIFICATIONTYPES`
pub data VerificationType : Type 0 where
  automated_test manual_test review platform other : VerificationType

-- `VERIFICATIONPHASE`
pub data VerificationPhase : Type 0 where
  build post_build : VerificationPhase

-- `verification in EXPECTS_MVRS`
unfoldable pub expects_mvrs : VerificationType → Bool
expects_mvrs automated_test = false
expects_mvrs _ = true

-- `verification in EXPECTS_AUTOMATED_TESTS`
unfoldable pub expects_automated_tests : VerificationType → Bool
expects_automated_tests automated_test = true
expects_automated_tests _ = false

-- `phase == VERIFICATIONPHASE.BUILD`
unfoldable pub is_build : VerificationPhase → Bool
is_build build = true
is_build post_build = false

-- `SVCData`
pub record SvcData : Type 0 where
  pub id : UrnId
  pub title : String
  pub description : Option String
  pub verification : VerificationType
  pub phase : VerificationPhase
  pub instructions : Option String
  pub revision : String
  pub lifecycle : LifecycleData
  pub requirement_ids : List UrnId
  pub span : SourceSpan

-- An aware `datetime`: the microseconds from the first instant that Python can represent, in UTC.
pub record Datetime : Type 0 where
  pub instant : ℕ

-- SQLite's `datetime()` renders a date in UTC to the second, and drops the fraction.
unfoldable pub to_second : Datetime → ℕ
to_second d = d.instant / 1000000

-- `MVRData`
pub record MvrData : Type 0 where
  pub id : UrnId
  pub comment : Option String
  pub passed : Bool
  pub date : Option Datetime
  pub svc_ids : List UrnId
  pub span : SourceSpan

-- `AnnotationData`
pub record AnnotationData : Type 0 where
  pub element_kind : String
  pub fully_qualified_name : String

-- `TEST_RUN_STATUS`
pub data TestRunStatus : Type 0 where
  passed failed skipped missing : TestRunStatus

-- `TestData`
pub record TestData : Type 0 where
  pub fully_qualified_name : String
  pub status : TestRunStatus
