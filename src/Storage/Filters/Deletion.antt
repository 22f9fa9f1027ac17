-- ===== src/Storage/Filters/Deletion.antt =====
-- storage/database_filter_processor.py: deleting requirements and SVCs with what hangs on them.
use reqstool_client.Prelude.{◌==◌, [], if◌then◌else◌, ◌∷◌, Bool, List}
use reqstool_client.Models.UrnId.{urn_id_eq, UrnId}
use reqstool_client.Storage.Database.{
  delete_mvr_row, owner_of, Link, delete_requirement_row, delete_svc_row, Database,
}
use reqstool_client.Storage.Table.{has}

-- The owners of the links to `k`, as the first query of the two methods selects them
abbrev pub owners_of : UrnId → List Link → List UrnId
owners_of k [] = []
owners_of k (l ∷ links) =
    let rest = owners_of k links in if l.target == k then l.owner ∷ rest else rest

abbrev pub has_svc_link : Database → UrnId → Bool
has_svc_link db k = has owner_of db.svc_requirement_links k

abbrev pub has_mvr_link : Database → UrnId → Bool
has_mvr_link db k = has owner_of db.mvr_svc_links k

-- The loop of `_delete_svc`: MVRs without a link are deleted.
unfoldable pub delete_unlinked_mvrs : List UrnId → Database → Database
unfolding urn_id_eq
delete_unlinked_mvrs [] db = db
delete_unlinked_mvrs (k ∷ ks) db =
    delete_unlinked_mvrs ks (if has_mvr_link db k then db else delete_mvr_row k db)

-- `_delete_svc`
unfoldable pub delete_svc : UrnId → Database → Database
unfolding delete_unlinked_mvrs delete_svc_row urn_id_eq
delete_svc k db = delete_unlinked_mvrs (owners_of k db.mvr_svc_links) (delete_svc_row k db)

-- The loop of `_delete_requirement`: SVCs without a link are deleted.
unfoldable pub delete_unlinked_svcs : List UrnId → Database → Database
unfolding delete_svc urn_id_eq
delete_unlinked_svcs [] db = db
delete_unlinked_svcs (k ∷ ks) db =
    delete_unlinked_svcs ks (if has_svc_link db k then db else delete_svc k db)

-- `_delete_requirement`
unfoldable pub delete_requirement : UrnId → Database → Database
unfolding delete_unlinked_svcs delete_requirement_row urn_id_eq
delete_requirement k db =
    delete_unlinked_svcs (owners_of k db.svc_requirement_links) (delete_requirement_row k db)

-- The deletions of `_apply_req_filters`
unfoldable pub delete_requirements : List UrnId → Database → Database
unfolding delete_requirement
delete_requirements [] db = db
delete_requirements (k ∷ ks) db = delete_requirements ks (delete_requirement k db)

-- The deletions of `_apply_svc_filters`
unfoldable pub delete_svcs : List UrnId → Database → Database
unfolding delete_svc
delete_svcs [] db = db
delete_svcs (k ∷ ks) db = delete_svcs ks (delete_svc k db)
