-- ===== src/Storage/Database/Integrity/Operations.antt =====
-- The operations of storage/database.py keep the database consistent.
use reqstool_client.Prelude.{[], ◌∷◌, List, String}
use reqstool_client.Storage.Database.Integrity.{
  IsConsistent, Leaves, bind-Leaves, or_unchanged-Leaves,
}
use reqstool_client.Storage.Database.Integrity.Parents.{
  insert_requirement_row-IsConsistent, insert_svc_row-IsConsistent, insert_mvr_row-IsConsistent,
}
use reqstool_client.Storage.Database.Integrity.Children.{
  insert_category-IsConsistent, insert_reference-IsConsistent, insert_svc_link-IsConsistent,
  insert_mvr_link-IsConsistent,
}
use reqstool_client.Storage.Database.Specs.{
  insert_mvr, insert_mvr_links, insert_svc, insert_svc_links, insert_requirement, insert_references,
  insert_reference_ids, insert_categories,
}
use reqstool_client.Models.UrnId.{UrnId}
use reqstool_client.Models.Entities.{ReferenceData, Category, MvrData, SvcData, RequirementData}
use reqstool_client.Storage.Database.State.{Database}

insert_categories-IsConsistent :
    (k : UrnId) (cs : List Category) (db : Database)
    → IsConsistent db
    → Leaves IsConsistent (insert_categories k cs db)
unfolding insert_categories
insert_categories-IsConsistent k [] db c = c
insert_categories-IsConsistent k (x ∷ cs) db c =
    bind-Leaves IsConsistent _ _ (insert_category-IsConsistent k x db c)
      (insert_categories-IsConsistent k cs)

insert_reference_ids-IsConsistent :
    (k : UrnId) (refs : List UrnId) (db : Database)
    → IsConsistent db
    → Leaves IsConsistent (insert_reference_ids k refs db)
unfolding insert_reference_ids
insert_reference_ids-IsConsistent k [] db c = c
insert_reference_ids-IsConsistent k (x ∷ refs) db c =
    bind-Leaves IsConsistent _ _ (insert_reference-IsConsistent k x db c)
      (insert_reference_ids-IsConsistent k refs)

insert_references-IsConsistent :
    (k : UrnId) (refs : List ReferenceData) (db : Database)
    → IsConsistent db
    → Leaves IsConsistent (insert_references k refs db)
unfolding insert_references
insert_references-IsConsistent k [] db c = c
insert_references-IsConsistent k (x ∷ refs) db c =
    bind-Leaves IsConsistent _ _ (insert_reference_ids-IsConsistent k x.requirement_ids db c)
      (insert_references-IsConsistent k refs)

-- Storing a requirement with its categories and references keeps the database consistent.
pub insert_requirement-IsConsistent :
    (urn : String) (req : RequirementData) (db : Database)
    → IsConsistent db
    → Leaves IsConsistent (insert_requirement urn req db)
unfolding insert_requirement
insert_requirement-IsConsistent urn req db c =
    bind-Leaves IsConsistent _ _ (insert_requirement_row-IsConsistent _ db c) λ db₁ c₁.
      bind-Leaves IsConsistent _ _ (insert_categories-IsConsistent _ req.categories db₁ c₁)
        (insert_references-IsConsistent _ req.references)

insert_svc_links-IsConsistent :
    (svc : UrnId) (reqs : List UrnId) (db : Database)
    → IsConsistent db
    → IsConsistent (insert_svc_links svc reqs db)
unfolding insert_svc_links
insert_svc_links-IsConsistent svc [] db c = c
insert_svc_links-IsConsistent svc (req ∷ reqs) db c =
    insert_svc_links-IsConsistent svc reqs _
      (or_unchanged-Leaves IsConsistent _ db (insert_svc_link-IsConsistent svc req db c) c)

-- Storing an SVC keeps the database consistent, whatever requirements it names.
pub insert_svc-IsConsistent :
    (urn : String) (svc : SvcData) (db : Database)
    → IsConsistent db
    → Leaves IsConsistent (insert_svc urn svc db)
unfolding insert_svc
insert_svc-IsConsistent urn svc db c =
    bind-Leaves IsConsistent _ _ (insert_svc_row-IsConsistent _ db c)
      (insert_svc_links-IsConsistent _ svc.requirement_ids)

insert_mvr_links-IsConsistent :
    (mvr : UrnId) (svcs : List UrnId) (db : Database)
    → IsConsistent db
    → IsConsistent (insert_mvr_links mvr svcs db)
unfolding insert_mvr_links
insert_mvr_links-IsConsistent mvr [] db c = c
insert_mvr_links-IsConsistent mvr (svc ∷ svcs) db c =
    insert_mvr_links-IsConsistent mvr svcs _
      (or_unchanged-Leaves IsConsistent _ db (insert_mvr_link-IsConsistent mvr svc db c) c)

-- Storing an MVR keeps the database consistent, whatever SVCs it names.
pub insert_mvr-IsConsistent :
    (urn : String) (mvr : MvrData) (db : Database)
    → IsConsistent db
    → Leaves IsConsistent (insert_mvr urn mvr db)
unfolding insert_mvr
insert_mvr-IsConsistent urn mvr db c =
    bind-Leaves IsConsistent _ _ (insert_mvr_row-IsConsistent _ db c)
      (insert_mvr_links-IsConsistent _ mvr.svc_ids)
