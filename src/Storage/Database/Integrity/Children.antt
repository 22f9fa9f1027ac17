-- ===== src/Storage/Database/Integrity/Children.antt =====
-- A row that refers to others is inserted only if they are there.
use reqstool_client.Prelude.{
  any, List, inr, inl, true, false, ◌≡◌, not, ◌||◌, Bool-cases, Bool, arith, string_eq,
}
use reqstool_client.Models.UrnId.{UrnId, urn_id_eq}
use reqstool_client.Models.Entities.{Category, category_eq, AnnotationData}
use reqstool_client.Storage.Table.{NoTwice-add, Refers-add_child}
use reqstool_client.Storage.Database.Rows.{
  AnnotationRow, requirement_key, svc_key, mvr_key, owner_of, target_of, category_key,
  annotation_key,
}
use reqstool_client.Storage.Database.State.{has_svc, has_requirement, Database}
use reqstool_client.Storage.Database.Specs.{
  insert_category, insert_reference, insert_svc_link, insert_mvr_link,
}
use reqstool_client.Storage.Database.Evidence.{
  ignores_annotation, annotation_row, insert_annotation_impl, insert_annotation_test,
}
use reqstool_client.Storage.Database.Integrity.{
  same_annotation_row, same_link_row, same_category_row, IsConsistent, Leaves,
}

or-not-eq-false : (a b : Bool) → (a || not b) ≡ false → b ≡ true
or-not-eq-false a b h = ground arith

pub insert_category-IsConsistent :
    (k : UrnId) (x : Category) (db : Database)
    → IsConsistent db
    → Leaves IsConsistent (insert_category k x db)
unfolding insert_category
insert_category-IsConsistent k x db c = ground (
  arith,
  Refers-add_child requirement_key category_key db.requirements db.requirement_categories
      (record { key = k; category = x }) c.categories,
  NoTwice-add same_category_row db.requirement_categories (record { key = k; category = x })
      c.category_keys,
)

pub insert_reference-IsConsistent :
    (k ref : UrnId) (db : Database)
    → IsConsistent db
    → Leaves IsConsistent (insert_reference k ref db)
unfolding insert_reference
insert_reference-IsConsistent k ref db c = ground (
  arith,
  Refers-add_child requirement_key owner_of db.requirements db.requirement_references
      (record { owner = k; target = ref }) c.references,
  NoTwice-add same_link_row db.requirement_references (record { owner = k; target = ref })
      c.reference_keys,
)

pub insert_svc_link-IsConsistent :
    (svc req : UrnId) (db : Database)
    → IsConsistent db
    → Leaves IsConsistent (insert_svc_link svc req db)
unfolding insert_svc_link
insert_svc_link-IsConsistent svc req db c = ground (
  arith,
  Refers-add_child svc_key owner_of db.svcs db.svc_requirement_links
      (record { owner = svc; target = req }) c.link_svcs,
  Refers-add_child requirement_key target_of db.requirements db.svc_requirement_links
      (record { owner = svc; target = req }) c.link_requirements,
  NoTwice-add same_link_row db.svc_requirement_links (record { owner = svc; target = req })
      c.svc_link_keys,
)

pub insert_mvr_link-IsConsistent :
    (mvr svc : UrnId) (db : Database)
    → IsConsistent db
    → Leaves IsConsistent (insert_mvr_link mvr svc db)
unfolding insert_mvr_link
insert_mvr_link-IsConsistent mvr svc db c = ground (
  arith,
  Refers-add_child mvr_key owner_of db.mvrs db.mvr_svc_links (record { owner = mvr; target = svc })
      c.link_mvrs,
  Refers-add_child svc_key target_of db.svcs db.mvr_svc_links (record { owner = mvr; target = svc })
      c.mvr_link_svcs,
  NoTwice-add same_link_row db.mvr_svc_links (record { owner = mvr; target = svc }) c.mvr_link_keys,
)

not_stored :
    (rows : List AnnotationRow) (k : UrnId) (a : AnnotationData) (b : Bool)
    → (ignores_annotation rows k a || not b) ≡ false
    → any (λ x. same_annotation_row x (annotation_row k a)) rows ≡ false
unfolding ignores_annotation
not_stored rows k a b h = ground (arith, h)

pub insert_annotation_impl-IsConsistent :
    (req : UrnId) (a : AnnotationData) (db : Database)
    → IsConsistent db
    → IsConsistent (insert_annotation_impl req a db)
unfolding insert_annotation_impl
insert_annotation_impl-IsConsistent req a db c =
    elim (Bool-cases
      (ignores_annotation db.annotations_impls req a || not (has_requirement db req))) [
        | inl skipped ↦ rw skipped c
        | inr stored ↦ rw stored (record {
          requirements = c.requirements;
          svcs = c.svcs;
          mvrs = c.mvrs;
          urns = c.urns;
          category_keys = c.category_keys;
          reference_keys = c.reference_keys;
          svc_link_keys = c.svc_link_keys;
          mvr_link_keys = c.mvr_link_keys;
          impl_keys =
              NoTwice-add same_annotation_row _ (annotation_row req a) c.impl_keys
                (not_stored db.annotations_impls req a _ stored);
          test_keys = c.test_keys;
          result_keys = c.result_keys;
          edge_keys = c.edge_keys;
          position_keys = c.position_keys;
          metadata_keys = c.metadata_keys;
          positions = c.positions;
          categories = c.categories;
          references = c.references;
          link_svcs = c.link_svcs;
          link_requirements = c.link_requirements;
          link_mvrs = c.link_mvrs;
          mvr_link_svcs = c.mvr_link_svcs;
          impls =
              Refers-add_child requirement_key annotation_key db.requirements _
                (annotation_row req a) c.impls (or-not-eq-false _ _ stored);
          tests = c.tests;
        })
      ]

pub insert_annotation_test-IsConsistent :
    (svc : UrnId) (a : AnnotationData) (db : Database)
    → IsConsistent db
    → IsConsistent (insert_annotation_test svc a db)
unfolding insert_annotation_test
insert_annotation_test-IsConsistent svc a db c =
    elim (Bool-cases (ignores_annotation db.annotations_tests svc a || not (has_svc db svc))) [
      | inl skipped ↦ rw skipped c
      | inr stored ↦ rw stored (record {
        requirements = c.requirements;
        svcs = c.svcs;
        mvrs = c.mvrs;
        urns = c.urns;
        category_keys = c.category_keys;
        reference_keys = c.reference_keys;
        svc_link_keys = c.svc_link_keys;
        mvr_link_keys = c.mvr_link_keys;
        impl_keys = c.impl_keys;
        test_keys =
            NoTwice-add same_annotation_row _ (annotation_row svc a) c.test_keys
              (not_stored db.annotations_tests svc a _ stored);
        result_keys = c.result_keys;
        edge_keys = c.edge_keys;
        position_keys = c.position_keys;
        metadata_keys = c.metadata_keys;
        positions = c.positions;
        categories = c.categories;
        references = c.references;
        link_svcs = c.link_svcs;
        link_requirements = c.link_requirements;
        link_mvrs = c.link_mvrs;
        mvr_link_svcs = c.mvr_link_svcs;
        impls = c.impls;
        tests =
            Refers-add_child svc_key annotation_key db.svcs _ (annotation_row svc a) c.tests
              (or-not-eq-false _ _ stored);
      })
    ]
