-- ===== src/Storage/Database/Deletion.antt =====
-- Deleting one row by its key, with the cascades that storage/schema.py declares.
use reqstool_client.Prelude.{string_eq}
use reqstool_client.Models.UrnId.{UrnId, urn_id_eq}
use reqstool_client.Models.Entities.{category_eq}
use reqstool_client.Storage.Table.{delete_key}
use reqstool_client.Storage.Database.Rows.{
  requirement_key, svc_key, mvr_key, owner_of, target_of, category_key, annotation_key,
}
use reqstool_client.Storage.Database.State.{Database}

-- `DELETE FROM requirements WHERE urn = ? AND id = ?`, with the cascades of the schema
unfoldable pub delete_requirement_row : UrnId → Database → Database
unfolding urn_id_eq
delete_requirement_row k db = record db {
  requirements = delete_key requirement_key k db.requirements;
  requirement_categories = delete_key category_key k db.requirement_categories;
  requirement_references = delete_key owner_of k db.requirement_references;
  svc_requirement_links = delete_key target_of k db.svc_requirement_links;
  annotations_impls = delete_key annotation_key k db.annotations_impls;
}

-- `DELETE FROM svcs WHERE urn = ? AND id = ?`, with the cascades of the schema
unfoldable pub delete_svc_row : UrnId → Database → Database
unfolding urn_id_eq
delete_svc_row k db = record db {
  svcs = delete_key svc_key k db.svcs;
  svc_requirement_links = delete_key owner_of k db.svc_requirement_links;
  mvr_svc_links = delete_key target_of k db.mvr_svc_links;
  annotations_tests = delete_key annotation_key k db.annotations_tests;
}

-- `DELETE FROM mvrs WHERE urn = ? AND id = ?`, with the cascades of the schema
unfoldable pub delete_mvr_row : UrnId → Database → Database
unfolding urn_id_eq
delete_mvr_row k db = record db {
  mvrs = delete_key mvr_key k db.mvrs;
  mvr_svc_links = delete_key owner_of k db.mvr_svc_links;
}
