-- ===== src/Tests/Sample.antt =====
-- The dataset that the tests run on: one urn with two requirements, two SVCs and their evidence.
use reqstool_client.Storage.Repository.RankingLaws.{forwards}
use reqstool_client.Storage.Repository.{TieOrder}
use reqstool_client.Prelude.{false, ◌∷◌, true, List, Bool, [], some, Option, none, ℕ, String}
use reqstool_client.Models.UrnId.{UrnId}
use reqstool_client.Models.Entities.{
  manual_test, automated_test, safety, configuration, security, build, SvcData, shall, in_code,
  microservice, Datetime, RequirementData, passed, VerificationType, Implementation, effective,
  MetaData, TestData, AnnotationData, MvrData, LifecycleData, SourceSpan,
}
use reqstool_client.Models.Datasets.{RawDataset}
use reqstool_client.Storage.Database.{MvrRow, RequirementRow, SvcRow, empty_database, Database}

abbrev pub req_1 : UrnId
req_1 = record { urn = "ms"; id = "REQ_1" }

abbrev pub req_2 : UrnId
req_2 = record { urn = "ms"; id = "REQ_2" }

abbrev pub svc_1 : UrnId
svc_1 = record { urn = "ms"; id = "SVC_1" }

abbrev pub svc_2 : UrnId
svc_2 = record { urn = "ms"; id = "SVC_2" }

abbrev pub mvr_1 : UrnId
mvr_1 = record { urn = "ms"; id = "MVR_1" }

abbrev pub no_span : SourceSpan
no_span = record { source_line = none; source_col_start = none; source_col_end = none }

abbrev pub in_effect : LifecycleData
in_effect = record { state = effective; reason = none }

abbrev pub requirement : UrnId → Implementation → RequirementData
requirement k implementation = record {
  id = k;
  title = "title";
  significance = shall;
  description = "description";
  rationale = none;
  revision = "1.0.0";
  lifecycle = in_effect;
  implementation = implementation;
  categories = security ∷ safety ∷ [];
  references = record { requirement_ids = record { urn = "other"; id = "REQ_9" } ∷ [] } ∷ [];
  span = no_span;
}

abbrev pub svc : UrnId → VerificationType → List UrnId → SvcData
svc k verification reqs = record {
  id = k;
  title = "title";
  description = none;
  verification = verification;
  phase = build;
  instructions = none;
  revision = "1.0.0";
  lifecycle = in_effect;
  requirement_ids = reqs;
  span = no_span;
}

abbrev pub dated : ℕ → Option Datetime
dated n = some (record { instant = n })

abbrev pub mvr : MvrData
mvr = record {
  id = mvr_1;
  comment = none;
  passed = true;
  date = dated 5000000;
  svc_ids = svc_2 ∷ record { urn = "ms"; id = "SVC_9" } ∷ [];
  span = no_span;
}

abbrev pub method : String → AnnotationData
method fqn = record { element_kind = "METHOD"; fully_qualified_name = fqn }

abbrev pub test_passed_of : String → TestData
test_passed_of fqn = record { fully_qualified_name = fqn; status = passed }

abbrev pub metadata : MetaData
metadata = record { urn = "ms"; variant = some microservice; title = "title"; url = none }

-- What was parsed of the urn; the second SVC names a requirement that does not exist.
abbrev pub raw : RawDataset
raw = record {
  requirements_data = record {
    metadata = metadata;
    implementations = [];
    imports = [];
    filters = [];
    requirements =
        (req_1, requirement req_1 in_code) ∷ (req_2, requirement req_2 configuration) ∷ [];
  };
  svcs_data = some (record {
    cases =
        (svc_1, svc svc_1 automated_test (req_1 ∷ []))
        ∷ (svc_2, svc svc_2 manual_test (req_1 ∷ record { urn = "ms"; id = "REQ_9" } ∷ []))
        ∷ [];
    filters = [];
  });
  annotations_data = some (record {
    implementations = (req_1, method "a.B.c" ∷ []) ∷ [];
    tests = (svc_1, method "a.BTest.c" ∷ []) ∷ [];
  });
  automated_tests = some (record {
    tests = (record { urn = "ms"; id = "a.BTest.c" }, test_passed_of "a.BTest.c") ∷ [];
  });
  mvrs_data = some (record { results = (mvr_1, mvr) ∷ [] });
  location_type = none;
  location_uri = none;
}

abbrev pub svc_row_of : UrnId → VerificationType → SvcRow
svc_row_of k verification = record {
  key = k;
  title = "title";
  verification = verification;
  phase = build;
  lifecycle = in_effect;
  description = none;
  instructions = none;
  revision = "1.0.0";
  span = no_span;
}

abbrev pub requirement_row_of : UrnId → Implementation → RequirementRow
requirement_row_of k implementation = record {
  key = k;
  title = "title";
  significance = shall;
  lifecycle = in_effect;
  implementation = implementation;
  description = "description";
  rationale = none;
  revision = "1.0.0";
  span = no_span;
}

abbrev pub mvr_row_of : UrnId → Bool → Option Datetime → MvrRow
mvr_row_of k verdict date = record {
  key = k;
  passed = verdict;
  comment = none;
  date = date;
  span = no_span;
}

abbrev pub sample : Database
sample = record empty_database {
  requirements = requirement_row_of req_1 in_code ∷ requirement_row_of req_2 configuration ∷ [];
  svcs = svc_row_of svc_1 automated_test ∷ svc_row_of svc_2 manual_test ∷ [];
  svc_requirement_links =
      record { owner = svc_1; target = req_1 } ∷ record { owner = svc_2; target = req_1 } ∷ [];
  mvrs =
      mvr_row_of mvr_1 true (dated 5000000)
      ∷ mvr_row_of (record { urn = "ms"; id = "MVR_0" }) false (dated 1000000)
      ∷ [];
  mvr_svc_links =
      record { owner = mvr_1; target = svc_2 }
      ∷ record { owner = record { urn = "ms"; id = "MVR_0" }; target = svc_2 }
      ∷ [];
  annotations_impls = record { key = req_1; element_kind = "METHOD"; fqn = "a.B.c" } ∷ [];
  annotations_tests = record { key = svc_1; element_kind = "METHOD"; fqn = "a.BTest.c" } ∷ [];
  test_results = record { urn = "ms"; fqn = "a.BTest.c"; status = passed } ∷ [];
}

-- The rows are met as the table holds them.
instance abbrev pub table_order : TieOrder
table_order = forwards
