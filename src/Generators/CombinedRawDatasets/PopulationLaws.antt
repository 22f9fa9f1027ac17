-- ===== src/Generators/CombinedRawDatasets/PopulationLaws.antt =====
-- Storing all sources keeps the database consistent.
use reqstool_client.Prelude.{
  string_eq, inr, inl, none, some, any, [], Bool-cases, List, Option, ◌∷◌, String,
}
use reqstool_client.Storage.Database.Integrity.Parents.{insert_urn_metadata-IsConsistent}
use reqstool_client.Generators.CombinedRawDatasets.Population.{
  look_up, or_key_error, populate_database, populate_parsing_graph, insert_edges,
  populate_requirements_of, over_urns,
}
use reqstool_client.Storage.Database.{
  metadata_key, same_edge, Database, insert_parsing_graph_edge, set_metadata,
}
use reqstool_client.Models.Datasets.{values, CombinedRawDataset, Dict, EdgeType, RawDataset}
use reqstool_client.Prelude.Result.{ok, Result}
use reqstool_client.Storage.Database.Integrity.{same_edge_row, bind-Leaves, Leaves, IsConsistent}
use reqstool_client.Storage.Populator.Consistency.{
  populate_test_results-IsConsistent, populate_annotations-IsConsistent, populate_mvrs-IsConsistent,
  populate_svcs-IsConsistent, insert_all_requirements-IsConsistent,
}
use reqstool_client.Storage.Populator.{
  populate_test_results, populate_annotations, populate_mvrs, populate_svcs,
}
use reqstool_client.Storage.Table.{has-delete_self, Unique-filter, NoTwice-add, Unique-add}

or_key_error-IsConsistent :
    (o : Option RawDataset) (f : RawDataset → Database → Result Database) (db : Database)
    → ((rd : RawDataset) (x : Database) → IsConsistent x → Leaves IsConsistent (f rd x))
    → IsConsistent db
    → Leaves IsConsistent (or_key_error o f db)
or_key_error-IsConsistent none f db h c = tt
or_key_error-IsConsistent (some rd) f db h c = h rd db c

over_urns-IsConsistent :
    (f : String → RawDataset → Database → Result Database) (crd : CombinedRawDataset)
    (urns : List String) (db : Database)
    → ((urn : String) (rd : RawDataset) (x : Database)
        → IsConsistent x
        → Leaves IsConsistent (f urn rd x))
    → IsConsistent db
    → Leaves IsConsistent (over_urns f crd urns db)
unfolding over_urns
over_urns-IsConsistent f crd [] db h c = c
over_urns-IsConsistent f crd (urn ∷ urns) db h c =
    bind-Leaves IsConsistent (or_key_error (look_up crd urn) (f urn) db) (over_urns f crd urns)
      (or_key_error-IsConsistent (look_up crd urn) (f urn) db (h urn) c)
      (λ x k. over_urns-IsConsistent f crd urns x h k)

populate_requirements_of-IsConsistent :
    (urn : String) (rd : RawDataset) (db : Database)
    → IsConsistent db
    → Leaves IsConsistent (populate_requirements_of urn rd db)
unfolding populate_requirements_of
populate_requirements_of-IsConsistent urn rd db c =
    bind-Leaves IsConsistent _ _
      (insert_urn_metadata-IsConsistent rd.requirements_data.metadata rd.location_type
        rd.location_uri db c)
      (insert_all_requirements-IsConsistent urn (values rd.requirements_data.requirements))

pub set_metadata-IsConsistent :
    (k v : String) (db : Database) → IsConsistent db → IsConsistent (set_metadata k v db)
unfolding set_metadata
set_metadata-IsConsistent k v db c = record {
  requirements = c.requirements;
  svcs = c.svcs;
  mvrs = c.mvrs;
  urns = c.urns;
  category_keys = c.category_keys;
  reference_keys = c.reference_keys;
  svc_link_keys = c.svc_link_keys;
  mvr_link_keys = c.mvr_link_keys;
  impl_keys = c.impl_keys;
  test_keys = c.test_keys;
  result_keys = c.result_keys;
  edge_keys = c.edge_keys;
  position_keys = c.position_keys;
  metadata_keys =
      Unique-add metadata_key _ (record { key = k; value = v })
        (Unique-filter metadata_key _ db.metadata c.metadata_keys)
        (has-delete_self metadata_key db.metadata k);
  positions = c.positions;
  categories = c.categories;
  references = c.references;
  link_svcs = c.link_svcs;
  link_requirements = c.link_requirements;
  link_mvrs = c.link_mvrs;
  mvr_link_svcs = c.mvr_link_svcs;
  impls = c.impls;
  tests = c.tests;
}

insert_parsing_graph_edge-IsConsistent :
    (parent child : String) (kind : EdgeType) (db : Database)
    → IsConsistent db
    → IsConsistent (insert_parsing_graph_edge parent child kind db)
unfolding insert_parsing_graph_edge
insert_parsing_graph_edge-IsConsistent parent child kind db c =
    elim (Bool-cases (any (same_edge parent child) db.parsing_graph)) [
      | inl known ↦ rw known c
      | inr new ↦ rw new (record {
        requirements = c.requirements;
        svcs = c.svcs;
        mvrs = c.mvrs;
        urns = c.urns;
        category_keys = c.category_keys;
        reference_keys = c.reference_keys;
        svc_link_keys = c.svc_link_keys;
        mvr_link_keys = c.mvr_link_keys;
        impl_keys = c.impl_keys;
        test_keys = c.test_keys;
        result_keys = c.result_keys;
        edge_keys =
            NoTwice-add same_edge_row db.parsing_graph
              (record { parent_urn = parent; child_urn = child; edge_type = kind }) c.edge_keys new;
        position_keys = c.position_keys;
        metadata_keys = c.metadata_keys;
        positions = c.positions;
        categories = c.categories;
        references = c.references;
        link_svcs = c.link_svcs;
        link_requirements = c.link_requirements;
        link_mvrs = c.link_mvrs;
        mvr_link_svcs = c.mvr_link_svcs;
        impls = c.impls;
        tests = c.tests;
      })
    ]

insert_edges-IsConsistent :
    (parent : String) (edges : List (String × EdgeType)) (db : Database)
    → IsConsistent db
    → IsConsistent (insert_edges parent edges db)
unfolding insert_edges
insert_edges-IsConsistent parent [] db c = c
insert_edges-IsConsistent parent ((child, kind) ∷ edges) db c =
    insert_edges-IsConsistent parent edges (insert_parsing_graph_edge parent child kind db)
      (insert_parsing_graph_edge-IsConsistent parent child kind db c)

populate_parsing_graph-IsConsistent :
    (graph : Dict String (List (String × EdgeType))) (db : Database)
    → IsConsistent db
    → IsConsistent (populate_parsing_graph graph db)
unfolding populate_parsing_graph
populate_parsing_graph-IsConsistent [] db c = c
populate_parsing_graph-IsConsistent ((parent, edges) ∷ graph) db c =
    populate_parsing_graph-IsConsistent graph (insert_edges parent edges db)
      (insert_edges-IsConsistent parent edges db c)

-- Storing all the sources that were parsed, in passes over the parsing order, keeps the database
-- consistent, unless it raises.
pub populate_database-IsConsistent :
    (crd : CombinedRawDataset) (db : Database)
    → IsConsistent db
    → Leaves IsConsistent (populate_database crd db)
unfolding populate_database
populate_database-IsConsistent crd db c =
    let order = crd.urn_parsing_order in
    bind-Leaves IsConsistent _ _
      (bind-Leaves IsConsistent _ _
        (bind-Leaves IsConsistent _ _
          (bind-Leaves IsConsistent _ _
            (bind-Leaves IsConsistent _ _
              (over_urns-IsConsistent populate_requirements_of crd order _
                populate_requirements_of-IsConsistent
                (set_metadata-IsConsistent "initial_urn" crd.initial_model_urn db c))
              (λ x.
                over_urns-IsConsistent (λ urn rd. populate_svcs urn rd.svcs_data) crd order x
                  (λ urn rd. populate_svcs-IsConsistent urn rd.svcs_data)))
            (λ x.
              over_urns-IsConsistent (λ urn rd. populate_mvrs urn rd.mvrs_data) crd order x
                (λ urn rd. populate_mvrs-IsConsistent urn rd.mvrs_data)))
          (λ x.
            over_urns-IsConsistent (λ urn rd db₁. ok (populate_annotations rd.annotations_data db₁))
              crd order x (λ urn rd. populate_annotations-IsConsistent rd.annotations_data)))
        (λ x.
          over_urns-IsConsistent (λ urn rd db₁. ok (populate_test_results rd.automated_tests db₁))
            crd order x (λ urn rd. populate_test_results-IsConsistent rd.automated_tests)))
      (λ x. populate_parsing_graph-IsConsistent crd.parsing_graph x)
