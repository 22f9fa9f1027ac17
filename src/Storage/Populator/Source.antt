-- ===== src/Storage/Populator/Source.antt =====
-- Storing a whole source whose ids are new succeeds.
use reqstool_client.Prelude.{
  refl, inr, inl, ap, arith, true, not, none, Bool-cases, some, ◌∙◌, ◌∷◌, [], false, ◌≡◌, All, List,
  String, Option, Bool, ◌||◌,
}
use reqstool_client.Models.UrnId.{UrnId, urn_id_eq}
use reqstool_client.Storage.Populator.{
  insert_all_mvrs, insert_all_svcs, populate_mvrs, populate_svcs, insert_all_requirements,
  populate_from_raw_dataset, populate_test_results, insert_results, populate_annotations,
  insert_all_tests, insert_all_impls, insert_tests, insert_impls,
}
use reqstool_client.Storage.Database.{
  insert_mvr, insert_svc, insert_requirement, ignores_annotation, has_mvr, has_svc, has_requirement,
  Database, insert_test_result, insert_annotation_test, insert_annotation_impl,
}
use reqstool_client.Models.Datasets.{
  values, RawDataset, MvrsData, SvcsData, TestsData, AnnotationsData, Dict,
}
use reqstool_client.Models.Entities.{RequirementData, MvrData, SvcData, TestData, AnnotationData}
use reqstool_client.Storage.Populator.Totality.{
  insert_requirement-total, left_over, are_different, mvr_id, svc_id, requirement_id, Keeps-trans,
  Keeps-refl, Keeps,
}
use reqstool_client.Storage.Database.Integrity.{IsConsistent}
use reqstool_client.Storage.Table.{has, Unique}
use reqstool_client.Prelude.Result.{ok}
use reqstool_client.Storage.Populator.Success.{insert_mvr-total, insert_svc-total, loop-total}
use reqstool_client.Storage.Populator.Consistency.{populate_from_raw_dataset-IsConsistent}

insert_annotation_impl-Keeps :
    (k : UrnId) (a : AnnotationData) (db : Database) → Keeps db (insert_annotation_impl k a db)
unfolding insert_annotation_impl
insert_annotation_impl-Keeps k a db =
    elim (Bool-cases (ignores_annotation db.annotations_impls k a || not (has_requirement db k))) [
      | inl ignored ↦ rw ignored (Keeps-refl db)
      | inr added ↦ rw added (Keeps-refl db)
    ]

insert_impls-Keeps :
    (k : UrnId) (items : List AnnotationData) (db : Database) → Keeps db (insert_impls k items db)
unfolding insert_impls
insert_impls-Keeps k [] db = Keeps-refl db
insert_impls-Keeps k (a ∷ items) db =
    let next = insert_annotation_impl k a db in
    Keeps-trans db next (insert_impls k items next) (insert_annotation_impl-Keeps k a db)
      (insert_impls-Keeps k items next)

insert_annotation_test-Keeps :
    (k : UrnId) (a : AnnotationData) (db : Database) → Keeps db (insert_annotation_test k a db)
unfolding insert_annotation_test
insert_annotation_test-Keeps k a db =
    elim (Bool-cases (ignores_annotation db.annotations_tests k a || not (has_svc db k))) [
      | inl ignored ↦ rw ignored (Keeps-refl db)
      | inr added ↦ rw added (Keeps-refl db)
    ]

insert_tests-Keeps :
    (k : UrnId) (items : List AnnotationData) (db : Database) → Keeps db (insert_tests k items db)
unfolding insert_tests
insert_tests-Keeps k [] db = Keeps-refl db
insert_tests-Keeps k (a ∷ items) db =
    let next = insert_annotation_test k a db in
    Keeps-trans db next (insert_tests k items next) (insert_annotation_test-Keeps k a db)
      (insert_tests-Keeps k items next)

insert_all_impls-Keeps :
    (d : Dict UrnId (List AnnotationData)) (db : Database) → Keeps db (insert_all_impls d db)
unfolding insert_all_impls
insert_all_impls-Keeps [] db = Keeps-refl db
insert_all_impls-Keeps ((k, items) ∷ d) db =
    Keeps-trans db (insert_impls k items db) (insert_all_impls d (insert_impls k items db))
      (insert_impls-Keeps k items db) (insert_all_impls-Keeps d (insert_impls k items db))

insert_all_tests-Keeps :
    (d : Dict UrnId (List AnnotationData)) (db : Database) → Keeps db (insert_all_tests d db)
unfolding insert_all_tests
insert_all_tests-Keeps [] db = Keeps-refl db
insert_all_tests-Keeps ((k, items) ∷ d) db =
    Keeps-trans db (insert_tests k items db) (insert_all_tests d (insert_tests k items db))
      (insert_tests-Keeps k items db) (insert_all_tests-Keeps d (insert_tests k items db))

populate_annotations-Keeps :
    (o : Option AnnotationsData) (db : Database) → Keeps db (populate_annotations o db)
unfolding populate_annotations
populate_annotations-Keeps none db = Keeps-refl db
populate_annotations-Keeps (some d) db =
    Keeps-trans db (insert_all_impls d.implementations db)
      (insert_all_tests d.tests (insert_all_impls d.implementations db))
      (insert_all_impls-Keeps d.implementations db)
      (insert_all_tests-Keeps d.tests (insert_all_impls d.implementations db))

insert_results-Keeps : (d : Dict UrnId TestData) (db : Database) → Keeps db (insert_results d db)
unfolding insert_results insert_test_result
insert_results-Keeps [] db = Keeps-refl db
insert_results-Keeps ((k, t) ∷ d) db =
    let next = insert_test_result k.urn t.fully_qualified_name t.status db in
    Keeps-trans db next (insert_results d next) (Keeps-refl db) (insert_results-Keeps d next)

populate_test_results-Keeps :
    (o : Option TestsData) (db : Database) → Keeps db (populate_test_results o db)
unfolding populate_test_results
populate_test_results-Keeps none db = Keeps-refl db
populate_test_results-Keeps (some d) db = insert_results-Keeps d.tests db

-- The items are not there yet, and no two of them have the same id.
abbrev pub AreNew {ℓ} : {A : Type ℓ} → (UrnId → Bool) → (A → UrnId) → List A → Type 0
AreNew is_there key items = All (λ x. is_there (key x) ≡ false) items × Unique key items

abbrev pub svcs_in : Option SvcsData → List SvcData
svcs_in none = []
svcs_in (some d) = values d.cases

abbrev pub mvrs_in : Option MvrsData → List MvrData
mvrs_in none = []
mvrs_in (some d) = values d.results

All-any : {A : Type 0} (items : List A) → All (λ (x : A). x ≡ x) items
All-any [] = tt
All-any (x ∷ items) = (refl, All-any items)

module _ (urn : String) where
  requirements-total :
      (items : List RequirementData) (db : Database)
      → IsConsistent db
      → AreNew (has_requirement db) (requirement_id urn) items
      → All (λ (r : RequirementData). are_different r.categories ≡ true) items
      → (db' : Database) × (insert_all_requirements urn items db ≡ ok db')
        × IsConsistent db'
        × ((j : UrnId)
            → has_requirement db' j ≡ (has_requirement db j || has (requirement_id urn) items j))
        × ((j : UrnId) → has_svc db' j ≡ has_svc db j)
        × ((j : UrnId) → has_mvr db' j ≡ has_mvr db j)
  unfolding insert_all_requirements
  requirements-total items db c (new, unique) good =
      loop-total (insert_requirement urn) (insert_all_requirements urn) has_requirement has_svc
        has_mvr (requirement_id urn) (λ (r : RequirementData). are_different r.categories ≡ true)
        (λ x. refl) (λ r rs x. refl) (insert_requirement-total urn) items db c new unique good

  populate_svcs-total :
      (o : Option SvcsData) (db : Database)
      → IsConsistent db
      → AreNew (has_svc db) (svc_id urn) (svcs_in o)
      → (db' : Database) × (populate_svcs urn o db ≡ ok db')
        × IsConsistent db'
        × ((j : UrnId) → has_svc db' j ≡ (has_svc db j || has (svc_id urn) (svcs_in o) j))
        × ((j : UrnId) → has_requirement db' j ≡ has_requirement db j)
        × ((j : UrnId) → has_mvr db' j ≡ has_mvr db j)
  unfolding populate_svcs insert_all_svcs
  populate_svcs-total none db c new = (db, refl, c, λ j. ground arith, λ j. refl, λ j. refl)
  populate_svcs-total (some d) db c (new, unique) =
      loop-total (insert_svc urn) (insert_all_svcs urn) has_svc has_requirement has_mvr (svc_id urn)
        (λ (x : SvcData). x ≡ x) (λ x. refl) (λ s ss x. refl)
        (λ s x k n u. insert_svc-total urn s x k n) (values d.cases) db c new unique
        (All-any (values d.cases))

  populate_mvrs-total :
      (o : Option MvrsData) (db : Database)
      → IsConsistent db
      → AreNew (has_mvr db) (mvr_id urn) (mvrs_in o)
      → (db' : Database) × (populate_mvrs urn o db ≡ ok db')
        × IsConsistent db'
        × ((j : UrnId) → has_mvr db' j ≡ (has_mvr db j || has (mvr_id urn) (mvrs_in o) j))
        × ((j : UrnId) → has_requirement db' j ≡ has_requirement db j)
        × ((j : UrnId) → has_svc db' j ≡ has_svc db j)
  unfolding populate_mvrs insert_all_mvrs
  populate_mvrs-total none db c new = (db, refl, c, λ j. ground arith, λ j. refl, λ j. refl)
  populate_mvrs-total (some d) db c (new, unique) =
      loop-total (insert_mvr urn) (insert_all_mvrs urn) has_mvr has_requirement has_svc (mvr_id urn)
        (λ (x : MvrData). x ≡ x) (λ x. refl) (λ m ms x. refl)
        (λ m x k n u. insert_mvr-total urn m x k n) (values d.results) db c new unique
        (All-any (values d.results))

All-same {ℓ} :
    {A : Type ℓ} (p q : UrnId → Bool) (key : A → UrnId) (items : List A)
    → ((j : UrnId) → q j ≡ p j)
    → All (λ x. p (key x) ≡ false) items
    → All (λ x. q (key x) ≡ false) items
All-same p q key [] same h = tt
All-same p q key (x ∷ items) same (new, h) = (same (key x) ∙ new, All-same p q key items same h)

-- If the ids of a source's requirements, SVCs and MVRs, under its urn, are different and not in the
-- database, and no requirement lists a category twice, then the source is stored: nothing is raised, the
-- database stays consistent, and it then has the items it had and exactly those of the source.
pub populate_from_raw_dataset-total :
    (urn : String) (rd : RawDataset) (db : Database)
    → IsConsistent db
    → AreNew (has_requirement db) (requirement_id urn) (values rd.requirements_data.requirements)
    → All
        (λ (r : RequirementData). are_different r.categories ≡ true)
        (values rd.requirements_data.requirements)
    → AreNew (has_svc db) (svc_id urn) (svcs_in rd.svcs_data)
    → AreNew (has_mvr db) (mvr_id urn) (mvrs_in rd.mvrs_data)
    → (db' : Database) × (populate_from_raw_dataset urn rd db ≡ ok db')
      × ((j : UrnId)
          → has_requirement db' j ≡ (
              has_requirement db j
              || has (requirement_id urn) (values rd.requirements_data.requirements) j))
      × ((j : UrnId) → has_svc db' j ≡ (has_svc db j || has (svc_id urn) (svcs_in rd.svcs_data) j))
      × ((j : UrnId) → has_mvr db' j ≡ (has_mvr db j || has (mvr_id urn) (mvrs_in rd.mvrs_data) j))
      × IsConsistent db'
unfolding populate_from_raw_dataset
populate_from_raw_dataset-total urn rd db c reqs categories (svcs, svcs_u) (mvrs, mvrs_u) =
    let (d1, p1, c1, r1, s1, m1) =
      requirements-total urn (values rd.requirements_data.requirements) db c reqs categories in
    let (d2, p2, c2, s2, r2, m2) =
      populate_svcs-total urn rd.svcs_data d1 c1
        (All-same (has_svc db) (has_svc d1) (svc_id urn) (svcs_in rd.svcs_data) s1 svcs, svcs_u) in
    let (d3, p3, c3, m3, r3, s3) = populate_mvrs-total urn rd.mvrs_data d2 c2 (
      All-same (has_mvr db) (has_mvr d2) (mvr_id urn) (mvrs_in rd.mvrs_data) (λ j. m2 j ∙ m1 j)
          mvrs,
      mvrs_u,
    ) in
    let d4 = populate_annotations rd.annotations_data d3 in
    let (r4, s4, m4) = populate_annotations-Keeps rd.annotations_data d3 in
    let d5 = populate_test_results rd.automated_tests d4 in
    let (r5, s5, m5) = populate_test_results-Keeps rd.automated_tests d4 in
    let done : populate_from_raw_dataset urn rd db ≡ ok d5 = rw (p1, p2, p3) in
    (
      d5,
      done,
      λ j. r5 j ∙ r4 j ∙ r3 j ∙ r2 j ∙ r1 j,
      λ j.
          s5 j
          ∙ s4 j
          ∙ s3 j
          ∙ s2 j
          ∙ ap (λ b. b || has (svc_id urn) (svcs_in rd.svcs_data) j) (s1 j),
      λ j.
          m5 j
          ∙ m4 j
          ∙ m3 j
          ∙ ap (λ b. b || has (mvr_id urn) (mvrs_in rd.mvrs_data) j) (m2 j ∙ m1 j),
      left_over (populate_from_raw_dataset urn rd db)
          (populate_from_raw_dataset-IsConsistent urn rd db c) done,
    )
