-- ===== src/Storage/Populator/Success.antt =====
-- Storing what was parsed of one source succeeds, and stores every item, when its ids are new.
use reqstool_client.Prelude.{
  refl, arith, ◌∙◌, inr, All, inl, ◌&&◌, false, not, ◌≡◌, any, [], ◌∷◌, Bool-cases, Bool, String,
  List, ◌==◌, ◌++◌, ◌||◌,
}
use reqstool_client.Models.UrnId.{UrnId, urn_id_eq}
use reqstool_client.Storage.Database.{
  mvr_key, svc_key, mvr_row, svc_row, has_requirement, has_mvr, has_svc, same_link, or_unchanged,
  insert_mvr_row, insert_svc_row, Database, insert_mvr, insert_svc, insert_mvr_links,
  insert_mvr_link, insert_svc_links, insert_svc_link,
}
use reqstool_client.Storage.Populator.Totality.{
  has_last, left_over, Adds, mvr_id, svc_id, Keeps-trans, Keeps-refl, Keeps,
}
use reqstool_client.Prelude.Result.{◌>>=◌, ok, Result}
use reqstool_client.Models.Entities.{MvrData, SvcData}
use reqstool_client.Storage.Database.Integrity.{IsConsistent}
use reqstool_client.Storage.Table.{Unique, has}
use reqstool_client.Storage.Database.Integrity.Operations.{
  insert_mvr-IsConsistent, insert_svc-IsConsistent,
}

insert_svc_link-Keeps :
    (svc req : UrnId) (db : Database) → Keeps db (or_unchanged (insert_svc_link svc req db) db)
unfolding insert_svc_link
insert_svc_link-Keeps svc req db =
    elim (Bool-cases (
      any (same_link svc req) db.svc_requirement_links
      || not (has_svc db svc && has_requirement db req))) [
        | inl refused ↦ rw refused (Keeps-refl db)
        | inr accepted ↦ rw accepted (Keeps-refl db)
      ]

insert_svc_links-Keeps :
    (svc : UrnId) (reqs : List UrnId) (db : Database) → Keeps db (insert_svc_links svc reqs db)
unfolding insert_svc_links
insert_svc_links-Keeps svc [] db = Keeps-refl db
insert_svc_links-Keeps svc (req ∷ reqs) db =
    let next = or_unchanged (insert_svc_link svc req db) db in
    Keeps-trans db next (insert_svc_links svc reqs next) (insert_svc_link-Keeps svc req db)
      (insert_svc_links-Keeps svc reqs next)

insert_mvr_link-Keeps :
    (mvr svc : UrnId) (db : Database) → Keeps db (or_unchanged (insert_mvr_link mvr svc db) db)
unfolding insert_mvr_link
insert_mvr_link-Keeps mvr svc db =
    elim (Bool-cases
      (any (same_link mvr svc) db.mvr_svc_links || not (has_mvr db mvr && has_svc db svc))) [
        | inl refused ↦ rw refused (Keeps-refl db)
        | inr accepted ↦ rw accepted (Keeps-refl db)
      ]

insert_mvr_links-Keeps :
    (mvr : UrnId) (svcs : List UrnId) (db : Database) → Keeps db (insert_mvr_links mvr svcs db)
unfolding insert_mvr_links
insert_mvr_links-Keeps mvr [] db = Keeps-refl db
insert_mvr_links-Keeps mvr (svc ∷ svcs) db =
    let next = or_unchanged (insert_mvr_link mvr svc db) db in
    Keeps-trans db next (insert_mvr_links mvr svcs next) (insert_mvr_link-Keeps mvr svc db)
      (insert_mvr_links-Keeps mvr svcs next)

pub insert_svc-total :
    (urn : String) (svc : SvcData) (db : Database)
    → IsConsistent db
    → has_svc db (svc_id urn svc) ≡ false
    → (db' : Database) × (insert_svc urn svc db ≡ ok db')
      × Adds has_svc (svc_id urn svc) db db'
      × ((j : UrnId) → has_requirement db' j ≡ has_requirement db j)
      × ((j : UrnId) → has_mvr db' j ≡ has_mvr db j)
unfolding insert_svc insert_svc_row
insert_svc-total urn svc db c new =
    let k = svc_id urn svc in
    let row = svc_row urn svc in
    let first : Database = record db { svcs = db.svcs ++ row ∷ [] } in
    let (r, s, m) = insert_svc_links-Keeps k svc.requirement_ids first in
    let db' = insert_svc_links k svc.requirement_ids first in
    let done : insert_svc urn svc db ≡ ok db' = rw new in
    (
      db',
      done,
      (
        left_over (insert_svc urn svc db) (insert_svc-IsConsistent urn svc db c) done,
        λ j. s j ∙ has_last svc_key db.svcs row j,
      ),
      r,
      m,
    )

pub insert_mvr-total :
    (urn : String) (mvr : MvrData) (db : Database)
    → IsConsistent db
    → has_mvr db (mvr_id urn mvr) ≡ false
    → (db' : Database) × (insert_mvr urn mvr db ≡ ok db')
      × Adds has_mvr (mvr_id urn mvr) db db'
      × ((j : UrnId) → has_requirement db' j ≡ has_requirement db j)
      × ((j : UrnId) → has_svc db' j ≡ has_svc db j)
unfolding insert_mvr insert_mvr_row
insert_mvr-total urn mvr db c new =
    let k = mvr_id urn mvr in
    let row = mvr_row urn mvr in
    let first : Database = record db { mvrs = db.mvrs ++ row ∷ [] } in
    let (r, s, m) = insert_mvr_links-Keeps k mvr.svc_ids first in
    let db' = insert_mvr_links k mvr.svc_ids first in
    let done : insert_mvr urn mvr db ≡ ok db' = rw new in
    (
      db',
      done,
      (
        left_over (insert_mvr urn mvr db) (insert_mvr-IsConsistent urn mvr db c) done,
        λ j. m j ∙ has_last mvr_key db.mvrs row j,
      ),
      r,
      s,
    )

-- A loop that inserts new items one by one
module _ {A : Type 0} (insert : A → Database → Result Database)
    (loop : List A → Database → Result Database)
    (has_item has_left has_right : Database → UrnId → Bool) (key : A → UrnId) (IsGood : A → Type 0)
    (empty : (db : Database) → loop [] db ≡ ok db)
    (step : (a : A) (items : List A) (db : Database)
      → loop (a ∷ items) db ≡ (insert a db >>= loop items))
    (total : (a : A) (db : Database)
      → IsConsistent db
      → has_item db (key a) ≡ false
      → IsGood a
      → (db' : Database) × (insert a db ≡ ok db')
        × Adds has_item (key a) db db'
        × ((j : UrnId) → has_left db' j ≡ has_left db j)
        × ((j : UrnId) → has_right db' j ≡ has_right db j)) where
  still_new :
      (db db' : Database) (a : A) (items : List A)
      → ((j : UrnId) → has_item db' j ≡ (has_item db j || key a == j))
      → has key items (key a) ≡ false
      → All (λ x. has_item db (key x) ≡ false) items
      → All (λ x. has_item db' (key x) ≡ false) items
  still_new db db' a [] adds unlike h = tt
  still_new db db' a (x ∷ items) adds unlike (new, h) =
      (adds (key x) ∙ ground (arith, new), still_new db db' a items adds (ground (arith, unlike)) h)

  pub loop-total :
      (items : List A) (db : Database)
      → IsConsistent db
      → All (λ a. has_item db (key a) ≡ false) items
      → Unique key items
      → All IsGood items
      → (db' : Database) × (loop items db ≡ ok db')
        × IsConsistent db'
        × ((j : UrnId) → has_item db' j ≡ (has_item db j || has key items j))
        × ((j : UrnId) → has_left db' j ≡ has_left db j)
        × ((j : UrnId) → has_right db' j ≡ has_right db j)
  loop-total [] db c new unique good = (db, empty db, c, λ j. ground arith, λ j. refl, λ j. refl)
  loop-total (a ∷ items) db c (new, news) (unlike, unique) (g, good) =
      let (one, p, (c1, adds), l1, r1) = total a db c new g in
      let (db', q, c2, more, l2, r2) =
        loop-total items one c1 (still_new db one a items adds unlike news) unique good in
      (
        db',
        step a items db ∙ rw (p, q),
        c2,
        λ j. more j ∙ rw (adds j) (ground arith),
        λ j. l2 j ∙ l1 j,
        λ j. r2 j ∙ r1 j,
      )
