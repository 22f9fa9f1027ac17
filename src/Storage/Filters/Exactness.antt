-- ===== src/Storage/Filters/Exactness.antt =====
-- Which rows the deletions of the filters take away, and that the database stays consistent.
use reqstool_client.Prelude.{
  ◌∙◌, refl, arith, sym, ap, true, [], contains, ◌∷◌, ◌≡◌, if◌then◌else◌, filter, not, List, Bool,
}
use reqstool_client.Storage.Filters.Deletion.{
  has_svc_link, has_mvr_link, owners_of, delete_requirements, delete_requirement,
  delete_unlinked_svcs, delete_svc, delete_unlinked_mvrs,
}
use reqstool_client.Models.UrnId.{urn_id_eq, UrnId}
use reqstool_client.Storage.Database.{
  requirement_key, delete_svc_row, delete_mvr_row, RequirementRow, delete_requirement_row, Database,
}
use reqstool_client.Storage.Database.Integrity.{IsConsistent}
use reqstool_client.Storage.Filters.Orphans.{delete_svc-svcs}
use reqstool_client.Storage.Table.{delete_key}
use reqstool_client.Storage.Database.Integrity.Deletes.{
  delete_svc_row-IsConsistent, delete_requirement_row-IsConsistent, delete_mvr_row-IsConsistent,
}
use mathlib.Core.Bool.{false}

next_mvrs-IsConsistent :
    (b : Bool) (k : UrnId) (db : Database)
    → IsConsistent db
    → IsConsistent (if b then db else delete_mvr_row k db)
next_mvrs-IsConsistent true k db c = c
next_mvrs-IsConsistent false k db c = delete_mvr_row-IsConsistent k db c

delete_unlinked_mvrs-IsConsistent :
    (ks : List UrnId) (db : Database) → IsConsistent db → IsConsistent (delete_unlinked_mvrs ks db)
unfolding delete_unlinked_mvrs
delete_unlinked_mvrs-IsConsistent [] db c = c
delete_unlinked_mvrs-IsConsistent (k ∷ ks) db c =
    delete_unlinked_mvrs-IsConsistent ks (if has_mvr_link db k then db else delete_mvr_row k db)
      (next_mvrs-IsConsistent (has_mvr_link db k) k db c)

pub delete_svc-IsConsistent :
    (k : UrnId) (db : Database) → IsConsistent db → IsConsistent (delete_svc k db)
unfolding delete_svc
delete_svc-IsConsistent k db c =
    delete_unlinked_mvrs-IsConsistent (owners_of k db.mvr_svc_links) (delete_svc_row k db)
      (delete_svc_row-IsConsistent k db c)

next_svcs-IsConsistent :
    (b : Bool) (k : UrnId) (db : Database)
    → IsConsistent db
    → IsConsistent (if b then db else delete_svc k db)
next_svcs-IsConsistent true k db c = c
next_svcs-IsConsistent false k db c = delete_svc-IsConsistent k db c

delete_unlinked_svcs-IsConsistent :
    (ks : List UrnId) (db : Database) → IsConsistent db → IsConsistent (delete_unlinked_svcs ks db)
unfolding delete_unlinked_svcs
delete_unlinked_svcs-IsConsistent [] db c = c
delete_unlinked_svcs-IsConsistent (k ∷ ks) db c =
    delete_unlinked_svcs-IsConsistent ks (if has_svc_link db k then db else delete_svc k db)
      (next_svcs-IsConsistent (has_svc_link db k) k db c)

delete_requirement-IsConsistent :
    (k : UrnId) (db : Database) → IsConsistent db → IsConsistent (delete_requirement k db)
unfolding delete_requirement
delete_requirement-IsConsistent k db c =
    delete_unlinked_svcs-IsConsistent (owners_of k db.svc_requirement_links)
      (delete_requirement_row k db) (delete_requirement_row-IsConsistent k db c)

next_svcs-requirements :
    (b : Bool) (k : UrnId) (db : Database)
    → (if b then db else delete_svc k db).requirements ≡ db.requirements
next_svcs-requirements true k db = refl
next_svcs-requirements false k db = (delete_svc-svcs k db).2

delete_unlinked_svcs-requirements :
    (ks : List UrnId) (db : Database) → (delete_unlinked_svcs ks db).requirements ≡ db.requirements
unfolding delete_unlinked_svcs
delete_unlinked_svcs-requirements [] db = refl
delete_unlinked_svcs-requirements (k ∷ ks) db =
    delete_unlinked_svcs-requirements ks (if has_svc_link db k then db else delete_svc k db)
    ∙ next_svcs-requirements (has_svc_link db k) k db

delete_requirement-requirements :
    (k : UrnId) (db : Database)
    → (delete_requirement k db).requirements ≡ delete_key requirement_key k db.requirements
unfolding delete_requirement delete_requirement_row
delete_requirement-requirements k db =
    delete_unlinked_svcs-requirements (owners_of k db.svc_requirement_links)
      (delete_requirement_row k db)

abbrev pub is_kept : List UrnId → RequirementRow → Bool
is_kept ks r = not (contains ks r.key)

pub filter_kept-nil : (rows : List RequirementRow) → filter (is_kept []) rows ≡ rows
filter_kept-nil [] = refl
filter_kept-nil (r ∷ rows) = ap (λ rs. r ∷ rs) (filter_kept-nil rows)

pub filter_kept-delete_key :
    (k : UrnId) (ks : List UrnId) (rows : List RequirementRow)
    → filter (is_kept ks) (delete_key requirement_key k rows) ≡ filter (is_kept (k ∷ ks)) rows
filter_kept-delete_key k ks [] = refl
filter_kept-delete_key k ks (r ∷ rows) = ground (arith, filter_kept-delete_key k ks rows)

-- Deleting requirements takes exactly those requirements out of the table, in whatever order and
-- however often they are named, and leaves a consistent database.
pub delete_requirements-requirements :
    (ks : List UrnId) (db : Database)
    → IsConsistent db
    → ((delete_requirements ks db).requirements
        ≡ filter (λ r. not (contains ks r.key)) db.requirements)
      × IsConsistent (delete_requirements ks db)
unfolding delete_requirements
delete_requirements-requirements [] db c = (sym (filter_kept-nil db.requirements), c)
delete_requirements-requirements (k ∷ ks) db c =
    let (left, c') =
      delete_requirements-requirements ks (delete_requirement k db)
        (delete_requirement-IsConsistent k db c) in
    (
      left
          ∙ ap (filter (is_kept ks)) (delete_requirement-requirements k db)
          ∙ filter_kept-delete_key k ks db.requirements,
      c',
    )
