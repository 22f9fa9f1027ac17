-- ===== src/Storage/Database/Specs.antt =====
-- storage/database.py: the inserts of requirements, SVCs and MVRs with the rows that hang on them.
use reqstool_client.Prelude.{
  String, Bool, not, ◌&&◌, ◌||◌, List, [], ◌∷◌, ◌++◌, ◌==◌, string_eq, any, if◌then◌else◌,
}
use reqstool_client.Prelude.Result.{Result, ok, err, integrity_error, ◌>>=◌}
use reqstool_client.Models.UrnId.{UrnId, urn_id_eq}
use reqstool_client.Models.Entities.{
  RequirementData, ReferenceData, Category, category_eq, SvcData, MvrData,
}
use reqstool_client.Storage.Database.Rows.{RequirementRow, CategoryRow, SvcRow, MvrRow}
use reqstool_client.Storage.Database.State.{
  Database, or_unchanged, has_requirement, has_svc, has_mvr, same_link,
}

-- The row that `insert_requirement` writes.
abbrev pub requirement_row : String → RequirementData → RequirementRow
requirement_row urn req = record {
  key = record { urn = urn; id = req.id.id };
  title = req.title;
  significance = req.significance;
  lifecycle = req.lifecycle;
  implementation = req.implementation;
  description = req.description;
  rationale = req.rationale;
  revision = req.revision;
  span = req.span;
}

abbrev same_category : UrnId → Category → CategoryRow → Bool
same_category k c r = r.key == k && r.category == c

-- One `INSERT INTO requirement_categories`
unfoldable pub insert_category : UrnId → Category → Database → Result Database
unfolding urn_id_eq category_eq
insert_category k c db =
    if any (same_category k c) db.requirement_categories || not (has_requirement db k)
    then err integrity_error
    else ok (record db {
      requirement_categories = db.requirement_categories ++ record { key = k; category = c } ∷ [];
    })

unfoldable pub insert_categories : UrnId → List Category → Database → Result Database
insert_categories k [] db = ok db
insert_categories k (c ∷ cs) db = insert_category k c db >>= insert_categories k cs

-- One `INSERT OR IGNORE INTO requirement_references`: a duplicate is skipped.
unfoldable pub insert_reference : UrnId → UrnId → Database → Result Database
unfolding urn_id_eq
insert_reference k ref db =
    if any (same_link k ref) db.requirement_references
    then ok db
    else if not (has_requirement db k)
    then err integrity_error
    else ok (record db {
      requirement_references = db.requirement_references ++ record { owner = k; target = ref } ∷ [];
    })

unfoldable pub insert_reference_ids : UrnId → List UrnId → Database → Result Database
insert_reference_ids k [] db = ok db
insert_reference_ids k (ref ∷ refs) db = insert_reference k ref db >>= insert_reference_ids k refs

unfoldable pub insert_references : UrnId → List ReferenceData → Database → Result Database
insert_references k [] db = ok db
insert_references k (ref ∷ refs) db =
    insert_reference_ids k ref.requirement_ids db >>= insert_references k refs

-- The first statement of `insert_requirement`
unfoldable pub insert_requirement_row : RequirementRow → Database → Result Database
unfolding urn_id_eq
insert_requirement_row row db =
    if has_requirement db row.key
    then err integrity_error
    else ok (record db { requirements = db.requirements ++ row ∷ [] })

-- `insert_requirement`
unfoldable pub insert_requirement : String → RequirementData → Database → Result Database
insert_requirement urn req db =
    let k : UrnId = record { urn = urn; id = req.id.id } in
    insert_requirement_row (requirement_row urn req) db
    >>= (λ db₁. insert_categories k req.categories db₁ >>= insert_references k req.references)

abbrev pub svc_row : String → SvcData → SvcRow
svc_row urn svc = record {
  key = record { urn = urn; id = svc.id.id };
  title = svc.title;
  verification = svc.verification;
  phase = svc.phase;
  lifecycle = svc.lifecycle;
  description = svc.description;
  instructions = svc.instructions;
  revision = svc.revision;
  span = svc.span;
}

-- One `INSERT INTO svc_requirement_links`
unfoldable pub insert_svc_link : UrnId → UrnId → Database → Result Database
unfolding urn_id_eq
insert_svc_link svc req db =
    if any (same_link svc req) db.svc_requirement_links
      || not (has_svc db svc && has_requirement db req)
    then err integrity_error
    else ok (record db {
      svc_requirement_links = db.svc_requirement_links ++ record { owner = svc; target = req } ∷ [];
    })

-- The loop over `svc.requirement_ids`, with its handler
unfoldable pub insert_svc_links : UrnId → List UrnId → Database → Database
insert_svc_links svc [] db = db
insert_svc_links svc (req ∷ reqs) db =
    insert_svc_links svc reqs (or_unchanged (insert_svc_link svc req db) db)

unfoldable pub insert_svc_row : SvcRow → Database → Result Database
unfolding urn_id_eq
insert_svc_row row db =
    if has_svc db row.key
    then err integrity_error
    else ok (record db { svcs = db.svcs ++ row ∷ [] })

-- `insert_svc`
unfoldable pub insert_svc : String → SvcData → Database → Result Database
insert_svc urn svc db = insert_svc_row (svc_row urn svc) db >>= (λ db₁.
    ok (insert_svc_links (record { urn = urn; id = svc.id.id }) svc.requirement_ids db₁))

abbrev pub mvr_row : String → MvrData → MvrRow
mvr_row urn mvr = record {
  key = record { urn = urn; id = mvr.id.id };
  passed = mvr.passed;
  comment = mvr.comment;
  date = mvr.date;
  span = mvr.span;
}

-- One `INSERT INTO mvr_svc_links`
unfoldable pub insert_mvr_link : UrnId → UrnId → Database → Result Database
unfolding urn_id_eq
insert_mvr_link mvr svc db =
    if any (same_link mvr svc) db.mvr_svc_links || not (has_mvr db mvr && has_svc db svc)
    then err integrity_error
    else ok (record db {
      mvr_svc_links = db.mvr_svc_links ++ record { owner = mvr; target = svc } ∷ [];
    })

-- The loop over `mvr.svc_ids`, with its handler
unfoldable pub insert_mvr_links : UrnId → List UrnId → Database → Database
insert_mvr_links mvr [] db = db
insert_mvr_links mvr (svc ∷ svcs) db =
    insert_mvr_links mvr svcs (or_unchanged (insert_mvr_link mvr svc db) db)

unfoldable pub insert_mvr_row : MvrRow → Database → Result Database
unfolding urn_id_eq
insert_mvr_row row db =
    if has_mvr db row.key
    then err integrity_error
    else ok (record db { mvrs = db.mvrs ++ row ∷ [] })

-- `insert_mvr`
unfoldable pub insert_mvr : String → MvrData → Database → Result Database
insert_mvr urn mvr db =
    insert_mvr_row (mvr_row urn mvr) db
    >>= (λ db₁. ok (insert_mvr_links (record { urn = urn; id = mvr.id.id }) mvr.svc_ids db₁))
