-- ===== src/Storage/Database/Integrity/Parents.antt =====
-- A row that is inserted under a new key.
use reqstool_client.Prelude.{
  refl, false, ◌≡◌, any, [], ◌∷◌, ◌++◌, ◌+◌, ◌<◌, All, ℕ, List, String, Option, arith, string_eq,
  inl, inr, Bool-cases,
}
use reqstool_client.Models.UrnId.{urn_id_eq}
use reqstool_client.Models.Entities.{category_eq, MetaData}
use reqstool_client.Storage.Table.{NoTwice-add, has, Unique-add, Refers-add_parent}
use reqstool_client.Storage.Database.Rows.{
  UrnMetadataRow, requirement_key, svc_key, mvr_key, owner_of, target_of, category_key,
  annotation_key, urn_key, RequirementRow, SvcRow, MvrRow,
}
use reqstool_client.Storage.Database.State.{Database, has_requirement, has_svc}
use reqstool_client.Storage.Database.Specs.{insert_requirement_row, insert_svc_row, insert_mvr_row}
use reqstool_client.Storage.Database.Evidence.{urn_metadata_row, insert_urn_metadata}
use reqstool_client.Storage.Database.Integrity.{same_position, IsConsistent, Leaves}

pub insert_requirement_row-IsConsistent :
    (row : RequirementRow) (db : Database)
    → IsConsistent db
    → Leaves IsConsistent (insert_requirement_row row db)
unfolding insert_requirement_row
insert_requirement_row-IsConsistent row db c = elim (Bool-cases (has_requirement db row.key)) [
  | inl old ↦ rw old tt
  | inr new ↦ rw new (record {
    requirements = Unique-add requirement_key db.requirements row c.requirements new;
    svcs = c.svcs;
    mvrs = c.mvrs;
    urns = c.urns;
    category_keys = c.category_keys;
    reference_keys = c.reference_keys;
    svc_link_keys = c.svc_link_keys;
    mvr_link_keys = c.mvr_link_keys;
    impl_keys = c.impl_keys;
    test_keys = c.test_keys;
    result_keys = c.result_keys;
    edge_keys = c.edge_keys;
    position_keys = c.position_keys;
    metadata_keys = c.metadata_keys;
    positions = c.positions;
    categories = Refers-add_parent requirement_key category_key db.requirements row _ c.categories;
    references = Refers-add_parent requirement_key owner_of db.requirements row _ c.references;
    link_svcs = c.link_svcs;
    link_requirements =
        Refers-add_parent requirement_key target_of db.requirements row _ c.link_requirements;
    link_mvrs = c.link_mvrs;
    mvr_link_svcs = c.mvr_link_svcs;
    impls = Refers-add_parent requirement_key annotation_key db.requirements row _ c.impls;
    tests = c.tests;
  })
]

pub insert_svc_row-IsConsistent :
    (row : SvcRow) (db : Database) → IsConsistent db → Leaves IsConsistent (insert_svc_row row db)
unfolding insert_svc_row
insert_svc_row-IsConsistent row db c = elim (Bool-cases (has_svc db row.key)) [
  | inl old ↦ rw old tt
  | inr new ↦ rw new (record {
    requirements = c.requirements;
    svcs = Unique-add svc_key db.svcs row c.svcs new;
    mvrs = c.mvrs;
    urns = c.urns;
    category_keys = c.category_keys;
    reference_keys = c.reference_keys;
    svc_link_keys = c.svc_link_keys;
    mvr_link_keys = c.mvr_link_keys;
    impl_keys = c.impl_keys;
    test_keys = c.test_keys;
    result_keys = c.result_keys;
    edge_keys = c.edge_keys;
    position_keys = c.position_keys;
    metadata_keys = c.metadata_keys;
    positions = c.positions;
    categories = c.categories;
    references = c.references;
    link_svcs = Refers-add_parent svc_key owner_of db.svcs row _ c.link_svcs;
    link_requirements = c.link_requirements;
    link_mvrs = c.link_mvrs;
    mvr_link_svcs = Refers-add_parent svc_key target_of db.svcs row _ c.mvr_link_svcs;
    impls = c.impls;
    tests = Refers-add_parent svc_key annotation_key db.svcs row _ c.tests;
  })
]

pub insert_mvr_row-IsConsistent :
    (row : MvrRow) (db : Database) → IsConsistent db → Leaves IsConsistent (insert_mvr_row row db)
unfolding insert_mvr_row
insert_mvr_row-IsConsistent row db c = ground (
  arith,
  Unique-add mvr_key db.mvrs row c.mvrs,
  Refers-add_parent mvr_key owner_of db.mvrs row db.mvr_svc_links c.link_mvrs,
)

positions-add :
    (rows : List UrnMetadataRow) (row : UrnMetadataRow) (n : ℕ)
    → All (λ r. r.parse_position < n) rows
    → row.parse_position < n + 1
    → All (λ r. r.parse_position < n + 1) (rows ++ row ∷ [])
positions-add [] row n h k = (k, tt)
positions-add (r ∷ rows) row n h k = (omega arith, positions-add rows row n h.1 k)

fresh_position :
    (rows : List UrnMetadataRow) (row : UrnMetadataRow)
    → All (λ r. r.parse_position < row.parse_position) rows
    → any (λ r. same_position r row) rows ≡ false
fresh_position [] row h = refl
fresh_position (r ∷ rows) row h = ground (arith, fresh_position rows row h.1, h.0)

pub insert_urn_metadata-IsConsistent :
    (m : MetaData) (location_type location_uri : Option String) (db : Database)
    → IsConsistent db
    → Leaves IsConsistent (insert_urn_metadata m location_type location_uri db)
unfolding insert_urn_metadata
insert_urn_metadata-IsConsistent m t u db c =
    elim (Bool-cases (has urn_key db.urn_metadata m.urn)) [
      | inl old ↦ rw old tt
      | inr new ↦
          let row = urn_metadata_row m t u db.next_parse_position in
          rw new (record {
            requirements = c.requirements;
            svcs = c.svcs;
            mvrs = c.mvrs;
            urns = Unique-add urn_key db.urn_metadata row c.urns new;
            category_keys = c.category_keys;
            reference_keys = c.reference_keys;
            svc_link_keys = c.svc_link_keys;
            mvr_link_keys = c.mvr_link_keys;
            impl_keys = c.impl_keys;
            test_keys = c.test_keys;
            result_keys = c.result_keys;
            edge_keys = c.edge_keys;
            position_keys =
                NoTwice-add same_position db.urn_metadata row c.position_keys
                  (fresh_position db.urn_metadata row c.positions);
            metadata_keys = c.metadata_keys;
            positions =
                positions-add db.urn_metadata row db.next_parse_position c.positions (omega arith);
            categories = c.categories;
            references = c.references;
            link_svcs = c.link_svcs;
            link_requirements = c.link_requirements;
            link_mvrs = c.link_mvrs;
            mvr_link_svcs = c.mvr_link_svcs;
            impls = c.impls;
            tests = c.tests;
          })
    ]
