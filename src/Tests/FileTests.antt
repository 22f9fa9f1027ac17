-- ===== src/Tests/FileTests.antt =====
-- Tests of the generators that read the files of a source.
use reqstool_client.Prelude.{
  ◌==◌, if◌then◌else◌, string_eq, refl, map, false, some, none, ◌≡◌, ◌∷◌, Option, [], true, List,
  Bool, String,
}
use reqstool_client.Generators.RequirementsModel.{
  RequirementEntry, generate_requirements, RequirementsFile,
}
use reqstool_client.Generators.SvcsModel.{SvcsFile, SvcEntry}
use reqstool_client.Validators.Semantic.{ValidationErrorHolder}
use reqstool_client.Prelude.Result.{◌>>=◌, ok, Result}
use reqstool_client.Models.UrnId.{urn_id_eq, UrnId}
use reqstool_client.Generators.TestDataModel.{TestCase, parse_test_data}
use reqstool_client.Generators.TestDataModel.Laws.{parse_test_data-IsKept, statuses, IsKept}
use reqstool_client.Generators.Sources.{union_tests}
use reqstool_client.Tests.Sample.{metadata}
use reqstool_client.Models.Datasets.{values, get, RequirementsData}
use reqstool_client.Models.Entities.{
  RequirementData, passed, automated_test, security, failed, shall,
}

-- Two entries have the same id.
abbrev req_entry : String → String → RequirementEntry
req_entry id title = record {
  id = id;
  title = title;
  significance = shall;
  description = "description";
  rationale = none;
  categories = security ∷ [];
  references = some ("lib:REQ_9" ∷ []);
  revision = "2023.01.05";
  implementation = none;
  lifecycle = none;
}

abbrev requirements_file : RequirementsFile
requirements_file = record {
  metadata = metadata;
  imports = [];
  implementations = [];
  filters = none;
  has_systems = false;
  requirements = some (req_entry "REQ_1" "first" ∷ req_entry "REQ_1" "second" ∷ []);
}

abbrev svc_entry : SvcEntry
svc_entry = record {
  id = "SVC_1";
  requirement_ids = "REQ_1" ∷ "lib:REQ_9" ∷ [];
  title = "title";
  description = none;
  verification = automated_test;
  phase = none;
  instructions = none;
  revision = "1.0.0";
  lifecycle = none;
}

abbrev svcs_file : SvcsFile
svcs_file = record { cases = svc_entry ∷ []; filters = none }

abbrev any_version : String → Bool
any_version s = true

-- Leading zeros go.
abbrev normal_text : String → String
normal_text s = if s == "2023.01.05" then "2023.1.5" else s

abbrev none_before : ValidationErrorHolder
none_before = record { errors = [] }

abbrev titles : Result (RequirementsData × ValidationErrorHolder) → Result (List String)
titles r = r >>= (λ (d, after). ok (map (λ (x : RequirementData). x.title) (values d.requirements)))

generate_requirements-first :
    titles (generate_requirements any_version normal_text [] requirements_file none_before)
    ≡ ok ("first" ∷ [])
unfolding generate_requirements
generate_requirements-first = refl

abbrev revisions : Result (RequirementsData × ValidationErrorHolder) → Result (List String)
revisions r =
    r >>= (λ (d, after). ok (map (λ (x : RequirementData). x.revision) (values d.requirements)))

generate_requirements-revision :
    revisions (generate_requirements any_version normal_text [] requirements_file none_before)
    ≡ ok ("2023.1.5" ∷ [])
unfolding generate_requirements string_eq
generate_requirements-revision = refl

-- Every name is that of a method.
abbrev match_all : String → String → Option String
match_all pattern text = some text

abbrev testcase : Bool → TestCase
testcase failure = record {
  name = "c";
  classname = "a.BTest";
  has_failure = failure;
  has_skipped = false;
}

abbrev results : List (Option (List TestCase))
results = some (testcase true ∷ testcase false ∷ []) ∷ none ∷ []

abbrev the_test : UrnId
the_test = record { urn = "ms"; id = "a.BTest.c" }

parse_test_data-worst :
    parse_test_data match_all "ms" results []
    ≡ (the_test, record { fully_qualified_name = "a.BTest.c"; status = failed }) ∷ []
unfolding parse_test_data
parse_test_data-worst = refl

parse_test_data-IsKept_example :
    IsKept the_test
      (statuses match_all "ms" the_test results)
      (get (parse_test_data match_all "ms" results []) the_test)
parse_test_data-IsKept_example = parse_test_data-IsKept match_all "ms" results the_test

-- A success that a later pattern finds takes the place of a failure that an earlier one found.
union_tests-last :
    union_tests any_version normal_text match_all [] "ms"
      (results ∷ (some (testcase false ∷ []) ∷ []) ∷ [])
      []
    ≡ (the_test, record { fully_qualified_name = "a.BTest.c"; status = passed }) ∷ []
unfolding union_tests
union_tests-last = refl
