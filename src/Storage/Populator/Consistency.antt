-- ===== src/Storage/Populator/Consistency.antt =====
-- Storing a source keeps the database consistent.
use reqstool_client.Prelude.{
  refl, arith, false, ◌≡◌, any, Bool, none, [], some, ◌∷◌, Option, List, String,
}
use reqstool_client.Storage.Populator.{
  populate_from_raw_dataset, populate_test_results, insert_results, populate_annotations,
  insert_all_tests, insert_all_impls, insert_tests, insert_impls, populate_mvrs, populate_svcs,
  insert_all_mvrs, insert_all_svcs, insert_all_requirements,
}
use reqstool_client.Storage.Database.{
  not_result, TestResultRow, insert_mvr, insert_svc, insert_requirement, insert_annotation_test,
  insert_annotation_impl, Database, insert_test_result,
}
use reqstool_client.Models.UrnId.{UrnId}
use reqstool_client.Models.Datasets.{
  values, TestsData, AnnotationsData, MvrsData, SvcsData, RawDataset, Dict,
}
use reqstool_client.Models.Entities.{
  TestData, AnnotationData, MvrData, SvcData, RequirementData, TestRunStatus,
}
use reqstool_client.Storage.Database.Integrity.{same_result_row, bind-Leaves, Leaves, IsConsistent}
use reqstool_client.Storage.Database.Integrity.Children.{
  insert_annotation_test-IsConsistent, insert_annotation_impl-IsConsistent,
}
use reqstool_client.Storage.Database.Integrity.Operations.{
  insert_mvr-IsConsistent, insert_svc-IsConsistent, insert_requirement-IsConsistent,
}
use reqstool_client.Storage.Table.{NoTwice, NoTwice-add}

pub insert_all_requirements-IsConsistent :
    (urn : String) (reqs : List RequirementData) (db : Database)
    → IsConsistent db
    → Leaves IsConsistent (insert_all_requirements urn reqs db)
unfolding insert_all_requirements
insert_all_requirements-IsConsistent urn [] db c = c
insert_all_requirements-IsConsistent urn (req ∷ reqs) db c =
    bind-Leaves IsConsistent (insert_requirement urn req db) (insert_all_requirements urn reqs)
      (insert_requirement-IsConsistent urn req db c) (insert_all_requirements-IsConsistent urn reqs)

insert_all_svcs-IsConsistent :
    (urn : String) (svcs : List SvcData) (db : Database)
    → IsConsistent db
    → Leaves IsConsistent (insert_all_svcs urn svcs db)
unfolding insert_all_svcs
insert_all_svcs-IsConsistent urn [] db c = c
insert_all_svcs-IsConsistent urn (svc ∷ svcs) db c =
    bind-Leaves IsConsistent (insert_svc urn svc db) (insert_all_svcs urn svcs)
      (insert_svc-IsConsistent urn svc db c) (insert_all_svcs-IsConsistent urn svcs)

insert_all_mvrs-IsConsistent :
    (urn : String) (mvrs : List MvrData) (db : Database)
    → IsConsistent db
    → Leaves IsConsistent (insert_all_mvrs urn mvrs db)
unfolding insert_all_mvrs
insert_all_mvrs-IsConsistent urn [] db c = c
insert_all_mvrs-IsConsistent urn (mvr ∷ mvrs) db c =
    bind-Leaves IsConsistent (insert_mvr urn mvr db) (insert_all_mvrs urn mvrs)
      (insert_mvr-IsConsistent urn mvr db c) (insert_all_mvrs-IsConsistent urn mvrs)

pub populate_svcs-IsConsistent :
    (urn : String) (d : Option SvcsData) (db : Database)
    → IsConsistent db
    → Leaves IsConsistent (populate_svcs urn d db)
unfolding populate_svcs
populate_svcs-IsConsistent urn none db c = c
populate_svcs-IsConsistent urn (some d) db c =
    insert_all_svcs-IsConsistent urn (values d.cases) db c

pub populate_mvrs-IsConsistent :
    (urn : String) (d : Option MvrsData) (db : Database)
    → IsConsistent db
    → Leaves IsConsistent (populate_mvrs urn d db)
unfolding populate_mvrs
populate_mvrs-IsConsistent urn none db c = c
populate_mvrs-IsConsistent urn (some d) db c =
    insert_all_mvrs-IsConsistent urn (values d.results) db c

insert_impls-IsConsistent :
    (k : UrnId) (anns : List AnnotationData) (db : Database)
    → IsConsistent db
    → IsConsistent (insert_impls k anns db)
unfolding insert_impls
insert_impls-IsConsistent k [] db c = c
insert_impls-IsConsistent k (a ∷ anns) db c =
    insert_impls-IsConsistent k anns (insert_annotation_impl k a db)
      (insert_annotation_impl-IsConsistent k a db c)

insert_tests-IsConsistent :
    (k : UrnId) (anns : List AnnotationData) (db : Database)
    → IsConsistent db
    → IsConsistent (insert_tests k anns db)
unfolding insert_tests
insert_tests-IsConsistent k [] db c = c
insert_tests-IsConsistent k (a ∷ anns) db c =
    insert_tests-IsConsistent k anns (insert_annotation_test k a db)
      (insert_annotation_test-IsConsistent k a db c)

insert_all_impls-IsConsistent :
    (d : Dict UrnId (List AnnotationData)) (db : Database)
    → IsConsistent db
    → IsConsistent (insert_all_impls d db)
unfolding insert_all_impls
insert_all_impls-IsConsistent [] db c = c
insert_all_impls-IsConsistent ((k, anns) ∷ d) db c =
    insert_all_impls-IsConsistent d (insert_impls k anns db) (insert_impls-IsConsistent k anns db c)

insert_all_tests-IsConsistent :
    (d : Dict UrnId (List AnnotationData)) (db : Database)
    → IsConsistent db
    → IsConsistent (insert_all_tests d db)
unfolding insert_all_tests
insert_all_tests-IsConsistent [] db c = c
insert_all_tests-IsConsistent ((k, anns) ∷ d) db c =
    insert_all_tests-IsConsistent d (insert_tests k anns db) (insert_tests-IsConsistent k anns db c)

pub populate_annotations-IsConsistent :
    (d : Option AnnotationsData) (db : Database)
    → IsConsistent db
    → IsConsistent (populate_annotations d db)
unfolding populate_annotations
populate_annotations-IsConsistent none db c = c
populate_annotations-IsConsistent (some d) db c =
    insert_all_tests-IsConsistent d.tests (insert_all_impls d.implementations db)
      (insert_all_impls-IsConsistent d.implementations db c)

none_remains :
    (p : TestResultRow → Bool) (urn fqn : String) (rows : List TestResultRow)
    → any p rows ≡ false
    → any p (not_result urn fqn rows) ≡ false
none_remains p urn fqn [] h = refl
none_remains p urn fqn (r ∷ rows) h = ground (arith, none_remains p urn fqn rows)

NoTwice-not_result :
    (urn fqn : String) (rows : List TestResultRow)
    → NoTwice same_result_row rows
    → NoTwice same_result_row (not_result urn fqn rows)
NoTwice-not_result urn fqn [] u = u
NoTwice-not_result urn fqn (r ∷ rows) u =
    ground (
      arith,
      NoTwice-not_result urn fqn rows u.1,
      none_remains (same_result_row r) urn fqn rows u.0,
    )

any-not_result :
    (urn fqn : String) (s : TestRunStatus) (rows : List TestResultRow)
    → any
        (λ x. same_result_row x (record { urn = urn; fqn = fqn; status = s }))
        (not_result urn fqn rows)
      ≡ false
any-not_result urn fqn s [] = refl
any-not_result urn fqn s (r ∷ rows) = ground (arith, any-not_result urn fqn s rows)

insert_test_result-IsConsistent :
    (urn fqn : String) (s : TestRunStatus) (db : Database)
    → IsConsistent db
    → IsConsistent (insert_test_result urn fqn s db)
unfolding insert_test_result
insert_test_result-IsConsistent urn fqn s db c = record {
  requirements = c.requirements;
  svcs = c.svcs;
  mvrs = c.mvrs;
  urns = c.urns;
  category_keys = c.category_keys;
  reference_keys = c.reference_keys;
  svc_link_keys = c.svc_link_keys;
  mvr_link_keys = c.mvr_link_keys;
  impl_keys = c.impl_keys;
  test_keys = c.test_keys;
  result_keys =
      NoTwice-add same_result_row _ (record { urn = urn; fqn = fqn; status = s })
        (NoTwice-not_result urn fqn _ c.result_keys) (any-not_result urn fqn s db.test_results);
  edge_keys = c.edge_keys;
  position_keys = c.position_keys;
  metadata_keys = c.metadata_keys;
  positions = c.positions;
  categories = c.categories;
  references = c.references;
  link_svcs = c.link_svcs;
  link_requirements = c.link_requirements;
  link_mvrs = c.link_mvrs;
  mvr_link_svcs = c.mvr_link_svcs;
  impls = c.impls;
  tests = c.tests;
}

insert_results-IsConsistent :
    (d : Dict UrnId TestData) (db : Database) → IsConsistent db → IsConsistent (insert_results d db)
unfolding insert_results
insert_results-IsConsistent [] db c = c
insert_results-IsConsistent ((k, t) ∷ d) db c =
    insert_results-IsConsistent d (insert_test_result k.urn t.fully_qualified_name t.status db)
      (insert_test_result-IsConsistent k.urn t.fully_qualified_name t.status db c)

pub populate_test_results-IsConsistent :
    (d : Option TestsData) (db : Database)
    → IsConsistent db
    → IsConsistent (populate_test_results d db)
unfolding populate_test_results
populate_test_results-IsConsistent none db c = c
populate_test_results-IsConsistent (some d) db c = insert_results-IsConsistent d.tests db c

pub populate_from_raw_dataset-IsConsistent :
    (urn : String) (rd : RawDataset) (db : Database)
    → IsConsistent db
    → Leaves IsConsistent (populate_from_raw_dataset urn rd db)
unfolding populate_from_raw_dataset
populate_from_raw_dataset-IsConsistent urn rd db c =
    bind-Leaves IsConsistent _ _
      (bind-Leaves IsConsistent _ _
        (bind-Leaves IsConsistent _ _
          (insert_all_requirements-IsConsistent urn (values rd.requirements_data.requirements) db c)
          (populate_svcs-IsConsistent urn rd.svcs_data))
        (populate_mvrs-IsConsistent urn rd.mvrs_data))
      (λ db' c'.
        populate_test_results-IsConsistent rd.automated_tests _
          (populate_annotations-IsConsistent rd.annotations_data db' c'))
