-- ===== src/Generators/TestDataModel.antt =====
-- model_generators/testdata_model_generator.py: `TestDataModelGenerator`, from the elements that the XML
-- library finds. The first group of `re.match(pattern, text)` is given.
pub mod Laws
use reqstool_client.Prelude.{
  [], ltb, none, ◌<>◌, ◌∷◌, true, some, if◌then◌else◌, List, ℕ, Bool, Option, String,
}
use reqstool_client.Models.Entities.{missing, skipped, passed, failed, TestData, TestRunStatus}
use reqstool_client.Models.UrnId.{UrnId, urn_id_eq}
use reqstool_client.Models.Datasets.{put, get, Dict}

-- A `testcase` element
pub record TestCase : Type 0 where
  pub name : String
  pub classname : String
  pub has_failure : Bool
  pub has_skipped : Bool

-- `_status_priority`
unfoldable pub status_priority : TestRunStatus → ℕ
status_priority passed = 0
status_priority skipped = 1
status_priority failed = 2
status_priority missing = 0

abbrev unit_method_identifier_regex : String
unit_method_identifier_regex = "^([a-zA-Z_$][a-zA-Z0-9_$]*).*$"

abbrev karate_method_identifier_regex : String
karate_method_identifier_regex = "\\[\\d+(?:\\.\\d+)?:\\d+\\]\\s*(.+)"

abbrev or_else {ℓ} : {A : Type ℓ} → Option A → Option A → Option A
or_else none o = o
or_else (some a) o = some a

-- The status of a `testcase`
unfoldable pub status_of : TestCase → TestRunStatus
status_of testcase =
    if testcase.has_failure then failed else if testcase.has_skipped then skipped else passed

abbrev pub replaces : Option TestData → TestRunStatus → Bool
replaces none status = true
replaces (some existing) status = ltb (status_priority existing.status) (status_priority status)

-- `existing is None or _status_priority(…) > _status_priority(existing.status)`
unfoldable pub record_result : UrnId → TestRunStatus → Dict UrnId TestData → Dict UrnId TestData
unfolding status_priority urn_id_eq
record_result k status r_testdata =
    if replaces (get r_testdata k) status
    then put r_testdata k (record { fully_qualified_name = k.id; status = status })
    else r_testdata

module _ (re_match : String → String → Option String) (urn : String) where
  -- `methodname`, if the name of the test case is of a known form
  unfoldable pub method_name : TestCase → Option String
  method_name testcase =
      or_else (re_match unit_method_identifier_regex testcase.name)
        (re_match karate_method_identifier_regex testcase.name)

  abbrev pub test_id : TestCase → String → UrnId
  test_id testcase methodname = record { urn = urn; id = testcase.classname <> ("." <> methodname) }

  abbrev record_testcase : TestCase → Option String → Dict UrnId TestData → Dict UrnId TestData
  record_testcase testcase none r_testdata = r_testdata
  record_testcase testcase (some methodname) r_testdata =
      record_result (test_id testcase methodname) (status_of testcase) r_testdata

  -- The loop over the test cases of one file
  unfoldable pub parse_testcases : List TestCase → Dict UrnId TestData → Dict UrnId TestData
  unfolding method_name record_result status_of
  parse_testcases [] r_testdata = r_testdata
  parse_testcases (testcase ∷ testcases) r_testdata =
      parse_testcases testcases (record_testcase testcase (method_name testcase) r_testdata)

  -- `__parse_test_data`; a file that is not there is skipped.
  unfoldable pub parse_test_data :
      List (Option (List TestCase)) → Dict UrnId TestData → Dict UrnId TestData
  unfolding parse_testcases
  parse_test_data [] r_testdata = r_testdata
  parse_test_data (none ∷ files) r_testdata = parse_test_data files r_testdata
  parse_test_data (some testcases ∷ files) r_testdata =
      parse_test_data files (parse_testcases testcases r_testdata)
