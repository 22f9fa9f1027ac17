-- ===== src/Storage/Filters/Outcome.antt =====
-- What is left of the database after the filters.
use reqstool_client.Prelude.{refl, ◌∙◌, [], sym, ◌∷◌, filter, ◌≡◌, List}
use reqstool_client.Storage.Filters.Deletion.{delete_svc, delete_svcs}
use reqstool_client.Storage.Filters.Selection.{
  requirement_keys, only_implements, remove_implementation_requirements, delete_requirement_rows,
}
use reqstool_client.Storage.Database.{get_metadata, Database, delete_requirement_row}
use reqstool_client.Models.UrnId.{UrnId}
use reqstool_client.Storage.Database.Integrity.{IsConsistent}
use reqstool_client.Storage.Filters.Orphans.{
  delete_svc-svcs, delete_svc-AreMvrsLinked, AreMvrsLinked,
}
use reqstool_client.Storage.Filters.Exactness.{
  filter_kept-delete_key, filter_kept-nil, delete_svc-IsConsistent, is_kept,
}
use reqstool_client.Storage.Database.Integrity.Deletes.{delete_requirement_row-IsConsistent}

delete_svcs-AreKept :
    (ks : List UrnId) (db : Database)
    → IsConsistent db
    → AreMvrsLinked db
    → IsConsistent (delete_svcs ks db)
      × AreMvrsLinked (delete_svcs ks db)
      × ((delete_svcs ks db).requirements ≡ db.requirements)
unfolding delete_svcs
delete_svcs-AreKept [] db c v = (c, v, refl)
delete_svcs-AreKept (k ∷ ks) db c v =
    let (c', v', e) =
      delete_svcs-AreKept ks (delete_svc k db) (delete_svc-IsConsistent k db c)
        (delete_svc-AreMvrsLinked k db v) in
    (c', v', e ∙ (delete_svc-svcs k db).2)

-- Deleting rows of requirements leaves every SVC and MVR in its table.
delete_requirement_rows_lem :
    (ks : List UrnId) (db : Database)
    → ((delete_requirement_rows ks db).requirements ≡ filter (is_kept ks) db.requirements)
      × ((delete_requirement_rows ks db).svcs ≡ db.svcs)
      × ((delete_requirement_rows ks db).mvrs ≡ db.mvrs)
      × ((delete_requirement_rows ks db).mvr_svc_links ≡ db.mvr_svc_links)
unfolding delete_requirement_rows delete_requirement_row
delete_requirement_rows_lem [] db = (sym (filter_kept-nil db.requirements), refl, refl, refl)
delete_requirement_rows_lem (k ∷ ks) db =
    let (rows, svcs, mvrs, links) = delete_requirement_rows_lem ks (delete_requirement_row k db) in
    (rows ∙ filter_kept-delete_key k ks db.requirements, svcs, mvrs, links)

delete_requirement_rows-IsConsistent :
    (ks : List UrnId) (db : Database)
    → IsConsistent db
    → IsConsistent (delete_requirement_rows ks db)
unfolding delete_requirement_rows
delete_requirement_rows-IsConsistent [] db c = c
delete_requirement_rows-IsConsistent (k ∷ ks) db c =
    delete_requirement_rows-IsConsistent ks (delete_requirement_row k db)
      (delete_requirement_row-IsConsistent k db c)

pub remove_implementation_requirements-IsConsistent :
    (db : Database) → IsConsistent db → IsConsistent (remove_implementation_requirements db)
unfolding remove_implementation_requirements
remove_implementation_requirements-IsConsistent db c =
    delete_requirement_rows-IsConsistent
      (filter (λ k. only_implements db (get_metadata db "initial_urn") k.urn) (requirement_keys db))
      db c

-- Removing the requirements of sources that are reached by implementation only takes no SVC and no MVR
-- out of the database, not even those that verified nothing else.
pub remove_implementation_requirements-svcs :
    (db : Database)
    → ((remove_implementation_requirements db).svcs ≡ db.svcs)
      × ((remove_implementation_requirements db).mvrs ≡ db.mvrs)
unfolding remove_implementation_requirements
remove_implementation_requirements-svcs db =
    let ks =
      filter (λ k. only_implements db (get_metadata db "initial_urn") k.urn)
        (requirement_keys db) in
    let (rows, svcs, mvrs, links) = delete_requirement_rows_lem ks db in (svcs, mvrs)
