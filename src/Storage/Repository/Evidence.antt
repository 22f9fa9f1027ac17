-- ===== src/Storage/Repository/Evidence.antt =====
-- storage/requirements_repository.py: annotations, and the test results that they resolve to.
use reqstool_client.Prelude.{
  ◌||◌, none, ◌++◌, ◌==◌, all, false, some, if◌then◌else◌, [], find?, map, filter, true, ◌∷◌, Bool,
  string_eq, Option, List, String,
}
use reqstool_client.Storage.Repository.Like.{in_class}
use reqstool_client.Storage.Database.{annotation_key, TestResultRow, Database, AnnotationRow}
use reqstool_client.Models.Datasets.{Dict}
use reqstool_client.Models.UrnId.{UrnId, urn_id_eq}
use reqstool_client.Models.Entities.{
  passed, failed, TestData, missing, AnnotationData, TestRunStatus,
}

abbrev pub to_annotation : AnnotationRow → AnnotationData
to_annotation r = record { element_kind = r.element_kind; fully_qualified_name = r.fqn }

-- `result.setdefault(key, []).append(value)`
abbrev pub append_at {ℓ} : {V : Type ℓ} → Dict UrnId (List V) → UrnId → V → Dict UrnId (List V)
append_at [] k v = (k, v ∷ []) ∷ []
append_at ((j, vs) ∷ d) k v =
    let rest = append_at d k v in if j == k then (j, vs ++ v ∷ []) ∷ d else (j, vs) ∷ rest

abbrev pub group_annotations :
    List AnnotationRow → Dict UrnId (List AnnotationData) → Dict UrnId (List AnnotationData)
group_annotations [] result = result
group_annotations (r ∷ rows) result =
    group_annotations rows (append_at result r.key (to_annotation r))

abbrev pub of_urn : Option String → AnnotationRow → Bool
of_urn none r = true
of_urn (some urn) r = urn == "" || r.key.urn == urn

-- `get_annotations_impls`
unfoldable pub get_annotations_impls : Database → Option String → Dict UrnId (List AnnotationData)
unfolding urn_id_eq string_eq
get_annotations_impls db urn = group_annotations (filter (of_urn urn) db.annotations_impls) []

-- `get_annotations_tests`
unfoldable pub get_annotations_tests : Database → Option String → Dict UrnId (List AnnotationData)
unfolding urn_id_eq string_eq
get_annotations_tests db urn = group_annotations (filter (of_urn urn) db.annotations_tests) []

-- `get_annotations_impls_for_req`
unfoldable pub get_annotations_impls_for_req : Database → UrnId → List AnnotationData
unfolding urn_id_eq
get_annotations_impls_for_req db k =
    map to_annotation (filter (λ r. annotation_key r == k) db.annotations_impls)

-- `get_annotations_tests_for_svc`
unfoldable pub get_annotations_tests_for_svc : Database → UrnId → List AnnotationData
unfolding urn_id_eq
get_annotations_tests_for_svc db k =
    map to_annotation (filter (λ r. annotation_key r == k) db.annotations_tests)

abbrev pub is_passed : TestRunStatus → Bool
is_passed passed = true
is_passed _ = false

abbrev statuses : List TestResultRow → List TestRunStatus
statuses rows = map (λ (r : TestResultRow). r.status) rows

-- The verdict over all the statuses found for a class
abbrev pub aggregate : List TestRunStatus → TestRunStatus
aggregate [] = missing
aggregate (s ∷ rest) = if all is_passed (s ∷ rest) then passed else failed

-- `_process_class_annotated_test_results`; the urn is not looked at.
unfoldable pub class_test_data : Database → String → TestData
unfolding in_class string_eq
class_test_data db fqn = record {
  fully_qualified_name = fqn;
  status = aggregate (
      statuses (filter (λ r. in_class fqn r.fqn) db.test_results)
      ++ statuses (filter (λ r. r.fqn == fqn) db.test_results));
}

abbrev found_or_missing : String → Option TestResultRow → TestData
found_or_missing fqn none = record { fully_qualified_name = fqn; status = missing }
found_or_missing fqn (some r) = record { fully_qualified_name = r.fqn; status = r.status }

-- An annotation of another kind names a test: the first result of that name, in any urn.
unfoldable pub method_test_data : Database → String → TestData
unfolding string_eq
method_test_data db fqn = found_or_missing fqn (find? (λ r. r.fqn == fqn) db.test_results)

unfoldable pub resolve : Database → AnnotationData → TestData
unfolding class_test_data method_test_data string_eq
resolve db a =
    if a.element_kind == "CLASS"
    then class_test_data db a.fully_qualified_name
    else method_test_data db a.fully_qualified_name

-- `get_test_results_for_annotations`
unfoldable pub get_test_results_for_annotations : Database → List AnnotationData → List TestData
unfolding resolve
get_test_results_for_annotations db annotations = map (resolve db) annotations

-- `get_test_results_for_svc`
unfoldable pub get_test_results_for_svc : Database → UrnId → List TestData
unfolding get_test_results_for_annotations get_annotations_tests_for_svc
get_test_results_for_svc db svc =
    get_test_results_for_annotations db (get_annotations_tests_for_svc db svc)

abbrev pub automated_results :
    Database → List AnnotationRow → Dict UrnId (List TestData) → Dict UrnId (List TestData)
automated_results db [] result = result
automated_results db (r ∷ rows) result =
    automated_results db rows
      (append_at result (record { urn = r.key.urn; id = r.fqn }) (resolve db (to_annotation r)))

-- `get_automated_test_results`: keyed by the SVC's urn and the annotated name
unfoldable pub get_automated_test_results : Database → Dict UrnId (List TestData)
unfolding resolve urn_id_eq
get_automated_test_results db = automated_results db db.annotations_tests []
