-- ===== src/Storage/Filters/Orphans.antt =====
-- Filtering leaves no SVC and no MVR behind that has lost its last link, and keeps the database
-- consistent.
use mathlib.Core.Path.{subst}
use reqstool_client.Prelude.{
  sym, ◌∙◌, if◌then◌else◌, Bool, refl, inr, inl, Bool-cases, [], arith, contains, ◌∷◌, ◌||◌, true,
  ◌≡◌, List,
}
use reqstool_client.Storage.Database.{
  delete_requirement_row, svc_key, delete_svc_row, delete_mvr_row, target_of, owner_of, mvr_key,
  has_svc, has_mvr, Link, Database,
}
use reqstool_client.Models.UrnId.{urn_id_eq, UrnId}
use reqstool_client.Storage.Table.{has-delete_ne, has-delete_inv, delete_key, has}
use reqstool_client.Storage.Filters.Deletion.{
  delete_requirements, delete_requirement, delete_unlinked_svcs, delete_svc, delete_unlinked_mvrs,
  owners_of, has_svc_link, has_mvr_link,
}
use mathlib.Core.Bool.{false}

-- Every MVR in the table verifies some SVC.
abbrev pub AreMvrsLinked : Database → Type 0
AreMvrsLinked db = (k : UrnId) → has_mvr db k ≡ true → has_mvr_link db k ≡ true

-- Every SVC in the table verifies some requirement.
abbrev pub AreSvcsLinked : Database → Type 0
AreSvcsLinked db = (k : UrnId) → has_svc db k ≡ true → has_svc_link db k ≡ true

contains-owners_of :
    (links : List Link) (k j : UrnId)
    → has owner_of links j ≡ true
    → (has owner_of (delete_key target_of k links) j || contains (owners_of k links) j) ≡ true
contains-owners_of [] k j h = cc
contains-owners_of (l ∷ links) k j h = ground (arith, contains-owners_of links k j)

-- Every MVR has a link, or is still to be looked at.
abbrev AreMvrsCovered : List UrnId → Database → Type 0
AreMvrsCovered ks db =
    (j : UrnId) → has_mvr db j ≡ true → (has_mvr_link db j || contains ks j) ≡ true

covered_linked :
    (ks : List UrnId) (k : UrnId) (db : Database)
    → has_mvr_link db k ≡ true
    → AreMvrsCovered (k ∷ ks) db
    → AreMvrsCovered ks db
covered_linked ks k db linked h j m = ground (arith, h j m)

covered_delete :
    (ks : List UrnId) (k : UrnId) (db : Database)
    → AreMvrsCovered (k ∷ ks) db
    → AreMvrsCovered ks (delete_mvr_row k db)
unfolding delete_mvr_row
covered_delete ks k db h j m =
    let (before, other) = has-delete_inv mvr_key db.mvrs k j m in
    ground (arith, h j before, other, has-delete_ne owner_of db.mvr_svc_links k j)

abbrev next_mvrs : UrnId → Database → Database
next_mvrs k db = if has_mvr_link db k then db else delete_mvr_row k db

covered_step :
    (ks : List UrnId) (k : UrnId) (db : Database)
    → AreMvrsCovered (k ∷ ks) db
    → AreMvrsCovered ks (next_mvrs k db)
covered_step ks k db h = elim (Bool-cases (has_mvr_link db k)) [
  | inl linked ↦
      subst (λ b. AreMvrsCovered ks (if b then db else delete_mvr_row k db)) (sym linked)
        (covered_linked ks k db linked h)
  | inr unlinked ↦
      subst (λ b. AreMvrsCovered ks (if b then db else delete_mvr_row k db)) (sym unlinked)
        (covered_delete ks k db h)
]

delete_unlinked_mvrs-AreMvrsLinked :
    (ks : List UrnId) (db : Database)
    → AreMvrsCovered ks db
    → AreMvrsLinked (delete_unlinked_mvrs ks db)
unfolding delete_unlinked_mvrs
delete_unlinked_mvrs-AreMvrsLinked [] db h = λ j m. ground (arith, h j m)
delete_unlinked_mvrs-AreMvrsLinked (k ∷ ks) db h =
    delete_unlinked_mvrs-AreMvrsLinked ks (next_mvrs k db) (covered_step ks k db h)

-- Deleting an SVC leaves no MVR without an SVC.
pub delete_svc-AreMvrsLinked :
    (k : UrnId) (db : Database) → AreMvrsLinked db → AreMvrsLinked (delete_svc k db)
unfolding delete_svc delete_svc_row
delete_svc-AreMvrsLinked k db h =
    delete_unlinked_mvrs-AreMvrsLinked (owners_of k db.mvr_svc_links) (delete_svc_row k db)
      (λ j m. contains-owners_of db.mvr_svc_links k j (h j m))

-- What the deletion of MVRs leaves as it was
abbrev IsSpecsSame : Database → Database → Type 0
IsSpecsSame a b =
    (a.svcs ≡ b.svcs)
    × (a.svc_requirement_links ≡ b.svc_requirement_links)
    × (a.requirements ≡ b.requirements)

next_mvrs-IsSpecsSame : (k : UrnId) (db : Database) → IsSpecsSame (next_mvrs k db) db
unfolding delete_mvr_row
next_mvrs-IsSpecsSame k db = same (has_mvr_link db k)
  where
    same : (b : Bool) → IsSpecsSame (if b then db else delete_mvr_row k db) db
    same true = (refl, refl, refl)
    same false = (refl, refl, refl)

delete_unlinked_mvrs-IsSpecsSame :
    (ks : List UrnId) (db : Database) → IsSpecsSame (delete_unlinked_mvrs ks db) db
unfolding delete_unlinked_mvrs
delete_unlinked_mvrs-IsSpecsSame [] db = (refl, refl, refl)
delete_unlinked_mvrs-IsSpecsSame (k ∷ ks) db =
    let (svcs, links, requirements) = delete_unlinked_mvrs-IsSpecsSame ks (next_mvrs k db) in
    let (svcs', links', requirements') = next_mvrs-IsSpecsSame k db in
    (svcs ∙ svcs', links ∙ links', requirements ∙ requirements')

pub delete_svc-svcs :
    (k : UrnId) (db : Database)
    → ((delete_svc k db).svcs ≡ delete_key svc_key k db.svcs)
      × ((delete_svc k db).svc_requirement_links ≡ delete_key owner_of k db.svc_requirement_links)
      × ((delete_svc k db).requirements ≡ db.requirements)
unfolding delete_svc delete_svc_row
delete_svc-svcs k db =
    delete_unlinked_mvrs-IsSpecsSame (owners_of k db.mvr_svc_links) (delete_svc_row k db)

-- Every SVC has a link, or is still to be looked at.
abbrev AreSvcsCovered : List UrnId → Database → Type 0
AreSvcsCovered ks db =
    (j : UrnId) → has_svc db j ≡ true → (has_svc_link db j || contains ks j) ≡ true

svc_covered_linked :
    (ks : List UrnId) (k : UrnId) (db : Database)
    → has_svc_link db k ≡ true
    → AreSvcsCovered (k ∷ ks) db
    → AreSvcsCovered ks db
svc_covered_linked ks k db linked h j m = ground (arith, h j m)

svc_covered_delete :
    (ks : List UrnId) (k : UrnId) (db : Database)
    → AreSvcsCovered (k ∷ ks) db
    → AreSvcsCovered ks (delete_svc k db)
svc_covered_delete ks k db h j m =
    let (svcs, links, requirements) = delete_svc-svcs k db in
    let (before, other) = has-delete_inv svc_key db.svcs k j (rw svcs at m) in
    rw links
      (ground (arith, h j before, other, has-delete_ne owner_of db.svc_requirement_links k j))

AreLinked_step :
    (ks : List UrnId) (k : UrnId) (db : Database)
    → AreSvcsCovered (k ∷ ks) db
    → AreMvrsLinked db
    → let next = if has_svc_link db k then db else delete_svc k db in
      AreSvcsCovered ks next × AreMvrsLinked next
AreLinked_step ks k db h v =
    let Goal = λ (b : Bool).
      let next = if b then db else delete_svc k db in AreSvcsCovered ks next × AreMvrsLinked next in
    elim (Bool-cases (has_svc_link db k)) [
      | inl linked ↦ subst Goal (sym linked) (svc_covered_linked ks k db linked h, v)
      | inr unlinked ↦
          subst Goal (sym unlinked) (svc_covered_delete ks k db h, delete_svc-AreMvrsLinked k db v)
    ]

delete_unlinked_svcs-AreLinked :
    (ks : List UrnId) (db : Database)
    → AreSvcsCovered ks db
    → AreMvrsLinked db
    → AreSvcsLinked (delete_unlinked_svcs ks db) × AreMvrsLinked (delete_unlinked_svcs ks db)
unfolding delete_unlinked_svcs
delete_unlinked_svcs-AreLinked [] db h v = (λ j m. ground (arith, h j m), v)
delete_unlinked_svcs-AreLinked (k ∷ ks) db h v =
    let (h', v') = AreLinked_step ks k db h v in
    delete_unlinked_svcs-AreLinked ks (if has_svc_link db k then db else delete_svc k db) h' v'

delete_requirement-AreLinked :
    (k : UrnId) (db : Database)
    → AreSvcsLinked db
    → AreMvrsLinked db
    → AreSvcsLinked (delete_requirement k db) × AreMvrsLinked (delete_requirement k db)
unfolding delete_requirement delete_requirement_row
delete_requirement-AreLinked k db h v =
    delete_unlinked_svcs-AreLinked (owners_of k db.svc_requirement_links)
      (delete_requirement_row k db) (λ j m. contains-owners_of db.svc_requirement_links k j (h j m))
      v

-- When every SVC verifies some requirement and every MVR some SVC, then so it is after any requirements
-- are deleted: no SVC or MVR is left behind without one.
pub delete_requirements-AreLinked :
    (ks : List UrnId) (db : Database)
    → AreSvcsLinked db
    → AreMvrsLinked db
    → AreSvcsLinked (delete_requirements ks db) × AreMvrsLinked (delete_requirements ks db)
unfolding delete_requirements
delete_requirements-AreLinked [] db h v = (h, v)
delete_requirements-AreLinked (k ∷ ks) db h v =
    let (h', v') = delete_requirement-AreLinked k db h v in
    delete_requirements-AreLinked ks (delete_requirement k db) h' v'
