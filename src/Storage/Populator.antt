-- ===== src/Storage/Populator.antt =====
-- storage/populator.py: `DatabasePopulator`, which stores what was parsed for one urn.
pub mod Consistency
pub mod Totality
mod Success
pub mod Source
use reqstool_client.Prelude.{none, [], some, ◌∷◌, Option, List, String, suc}
use reqstool_client.Models.Datasets.{
  values, TestsData, AnnotationsData, MvrsData, SvcsData, RawDataset, Dict, RequirementsData,
}
use reqstool_client.Models.UrnId.{UrnId}
use reqstool_client.Models.Entities.{TestData, AnnotationData, MvrData, SvcData, RequirementData}
use reqstool_client.Storage.Database.{
  insert_mvr, insert_svc, insert_requirement, insert_test_result, insert_annotation_test,
  insert_annotation_impl, Database,
}
use reqstool_client.Prelude.Result.{◌>>=◌, ok, Result}

unfoldable pub insert_all_requirements : String → List RequirementData → Database → Result Database
insert_all_requirements urn [] db = ok db
insert_all_requirements urn (req ∷ reqs) db =
    insert_requirement urn req db >>= insert_all_requirements urn reqs

-- `_populate_requirements`
abbrev pub populate_requirements : String → RequirementsData → Database → Result Database
populate_requirements urn d db = insert_all_requirements urn (values d.requirements) db

unfoldable pub insert_all_svcs : String → List SvcData → Database → Result Database
insert_all_svcs urn [] db = ok db
insert_all_svcs urn (svc ∷ svcs) db = insert_svc urn svc db >>= insert_all_svcs urn svcs

-- `_populate_svcs`, if there are SVCs
unfoldable pub populate_svcs : String → Option SvcsData → Database → Result Database
unfolding insert_all_svcs
populate_svcs urn none db = ok db
populate_svcs urn (some d) db = insert_all_svcs urn (values d.cases) db

unfoldable pub insert_all_mvrs : String → List MvrData → Database → Result Database
insert_all_mvrs urn [] db = ok db
insert_all_mvrs urn (mvr ∷ mvrs) db = insert_mvr urn mvr db >>= insert_all_mvrs urn mvrs

-- `_populate_mvrs`, if there are MVRs
unfoldable pub populate_mvrs : String → Option MvrsData → Database → Result Database
unfolding insert_all_mvrs
populate_mvrs urn none db = ok db
populate_mvrs urn (some d) db = insert_all_mvrs urn (values d.results) db

-- The inner loops of `_populate_annotations`
unfoldable pub insert_impls : UrnId → List AnnotationData → Database → Database
insert_impls req [] db = db
insert_impls req (a ∷ annotations) db =
    insert_impls req annotations (insert_annotation_impl req a db)

unfoldable pub insert_tests : UrnId → List AnnotationData → Database → Database
insert_tests svc [] db = db
insert_tests svc (a ∷ annotations) db =
    insert_tests svc annotations (insert_annotation_test svc a db)

unfoldable pub insert_all_impls : Dict UrnId (List AnnotationData) → Database → Database
unfolding insert_impls
insert_all_impls [] db = db
insert_all_impls ((req, annotations) ∷ rest) db =
    insert_all_impls rest (insert_impls req annotations db)

unfoldable pub insert_all_tests : Dict UrnId (List AnnotationData) → Database → Database
unfolding insert_tests
insert_all_tests [] db = db
insert_all_tests ((svc, annotations) ∷ rest) db =
    insert_all_tests rest (insert_tests svc annotations db)

-- `_populate_annotations`, if there are annotations
unfoldable pub populate_annotations : Option AnnotationsData → Database → Database
unfolding insert_all_impls insert_all_tests
populate_annotations none db = db
populate_annotations (some d) db = insert_all_tests d.tests (insert_all_impls d.implementations db)

unfoldable pub insert_results : Dict UrnId TestData → Database → Database
insert_results [] db = db
insert_results ((k, t) ∷ tests) db =
    insert_results tests (insert_test_result k.urn t.fully_qualified_name t.status db)

-- `_populate_test_results`, if there are test results
unfoldable pub populate_test_results : Option TestsData → Database → Database
unfolding insert_results
populate_test_results none db = db
populate_test_results (some d) db = insert_results d.tests db

-- `populate_from_raw_dataset`
unfoldable pub populate_from_raw_dataset : String → RawDataset → Database → Result Database
unfolding populate_svcs populate_mvrs populate_annotations populate_test_results
populate_from_raw_dataset urn rd db =
    populate_requirements urn rd.requirements_data db
    >>= populate_svcs urn rd.svcs_data
    >>= populate_mvrs urn rd.mvrs_data
    >>= (λ db'.
        ok
          (populate_test_results rd.automated_tests (populate_annotations rd.annotations_data db')))
