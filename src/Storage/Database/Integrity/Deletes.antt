-- ===== src/Storage/Database/Integrity/Deletes.antt =====
-- A deletion takes the rows that refer to the deleted one with it.
use reqstool_client.Prelude.{string_eq}
use reqstool_client.Models.UrnId.{UrnId, urn_id_eq}
use reqstool_client.Models.Entities.{category_eq}
use reqstool_client.Storage.Table.{NoTwice-filter, Unique-filter, Refers-filter, Refers-cascade}
use reqstool_client.Storage.Database.Rows.{
  requirement_key, svc_key, mvr_key, owner_of, target_of, category_key, annotation_key,
}
use reqstool_client.Storage.Database.State.{Database}
use reqstool_client.Storage.Database.Deletion.{
  delete_requirement_row, delete_svc_row, delete_mvr_row,
}
use reqstool_client.Storage.Database.Integrity.{
  same_annotation_row, same_link_row, same_category_row, IsConsistent,
}

pub delete_requirement_row-IsConsistent :
    (k : UrnId) (db : Database) → IsConsistent db → IsConsistent (delete_requirement_row k db)
unfolding delete_requirement_row
delete_requirement_row-IsConsistent k db c = record {
  requirements = Unique-filter requirement_key _ db.requirements c.requirements;
  svcs = c.svcs;
  mvrs = c.mvrs;
  urns = c.urns;
  category_keys = NoTwice-filter same_category_row _ _ c.category_keys;
  reference_keys = NoTwice-filter same_link_row _ _ c.reference_keys;
  svc_link_keys = NoTwice-filter same_link_row _ _ c.svc_link_keys;
  mvr_link_keys = c.mvr_link_keys;
  impl_keys = NoTwice-filter same_annotation_row _ _ c.impl_keys;
  test_keys = c.test_keys;
  result_keys = c.result_keys;
  edge_keys = c.edge_keys;
  position_keys = c.position_keys;
  metadata_keys = c.metadata_keys;
  positions = c.positions;
  categories = Refers-cascade requirement_key category_key k db.requirements _ c.categories;
  references = Refers-cascade requirement_key owner_of k db.requirements _ c.references;
  link_svcs = Refers-filter svc_key owner_of _ db.svcs _ c.link_svcs;
  link_requirements =
      Refers-cascade requirement_key target_of k db.requirements _ c.link_requirements;
  link_mvrs = c.link_mvrs;
  mvr_link_svcs = c.mvr_link_svcs;
  impls = Refers-cascade requirement_key annotation_key k db.requirements _ c.impls;
  tests = c.tests;
}

pub delete_svc_row-IsConsistent :
    (k : UrnId) (db : Database) → IsConsistent db → IsConsistent (delete_svc_row k db)
unfolding delete_svc_row
delete_svc_row-IsConsistent k db c = record {
  requirements = c.requirements;
  svcs = Unique-filter svc_key _ db.svcs c.svcs;
  mvrs = c.mvrs;
  urns = c.urns;
  category_keys = c.category_keys;
  reference_keys = c.reference_keys;
  svc_link_keys = NoTwice-filter same_link_row _ _ c.svc_link_keys;
  mvr_link_keys = NoTwice-filter same_link_row _ _ c.mvr_link_keys;
  impl_keys = c.impl_keys;
  test_keys = NoTwice-filter same_annotation_row _ _ c.test_keys;
  result_keys = c.result_keys;
  edge_keys = c.edge_keys;
  position_keys = c.position_keys;
  metadata_keys = c.metadata_keys;
  positions = c.positions;
  categories = c.categories;
  references = c.references;
  link_svcs = Refers-cascade svc_key owner_of k db.svcs _ c.link_svcs;
  link_requirements =
      Refers-filter requirement_key target_of _ db.requirements _ c.link_requirements;
  link_mvrs = Refers-filter mvr_key owner_of _ db.mvrs _ c.link_mvrs;
  mvr_link_svcs = Refers-cascade svc_key target_of k db.svcs _ c.mvr_link_svcs;
  impls = c.impls;
  tests = Refers-cascade svc_key annotation_key k db.svcs _ c.tests;
}

pub delete_mvr_row-IsConsistent :
    (k : UrnId) (db : Database) → IsConsistent db → IsConsistent (delete_mvr_row k db)
unfolding delete_mvr_row
delete_mvr_row-IsConsistent k db c = record {
  requirements = c.requirements;
  svcs = c.svcs;
  mvrs = Unique-filter mvr_key _ db.mvrs c.mvrs;
  urns = c.urns;
  category_keys = c.category_keys;
  reference_keys = c.reference_keys;
  svc_link_keys = c.svc_link_keys;
  mvr_link_keys = NoTwice-filter same_link_row _ _ c.mvr_link_keys;
  impl_keys = c.impl_keys;
  test_keys = c.test_keys;
  result_keys = c.result_keys;
  edge_keys = c.edge_keys;
  position_keys = c.position_keys;
  metadata_keys = c.metadata_keys;
  positions = c.positions;
  categories = c.categories;
  references = c.references;
  link_svcs = c.link_svcs;
  link_requirements = c.link_requirements;
  link_mvrs = Refers-cascade mvr_key owner_of k db.mvrs _ c.link_mvrs;
  mvr_link_svcs = Refers-filter svc_key target_of _ db.svcs _ c.mvr_link_svcs;
  impls = c.impls;
  tests = c.tests;
}
