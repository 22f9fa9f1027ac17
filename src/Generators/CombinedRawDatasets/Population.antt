-- ===== src/Generators/CombinedRawDatasets/Population.antt =====
-- model_generators/combined_raw_datasets_generator.py: `_populate_database`, in passes over all sources.
use reqstool_client.Prelude.{none, some, [], List, string_eq, Option, ◌∷◌, String}
use reqstool_client.Models.Datasets.{get, EdgeType, RawDataset, Dict, CombinedRawDataset}
use reqstool_client.Storage.Populator.{
  populate_requirements, populate_test_results, populate_annotations, populate_mvrs, populate_svcs,
  insert_all_requirements,
}
use reqstool_client.Storage.Database.{
  set_metadata, insert_urn_metadata, insert_parsing_graph_edge, Database,
}
use reqstool_client.Prelude.Result.{◌>>=◌, key_error, ok, err, Result}

abbrev pub look_up : CombinedRawDataset → String → Option RawDataset
look_up crd urn = get crd.raw_datasets urn

abbrev pub or_key_error :
    Option RawDataset → (RawDataset → Database → Result Database) → Database → Result Database
or_key_error none f db = err key_error
or_key_error (some rd) f db = f rd db

-- `for urn in crd.urn_parsing_order: rd = crd.raw_datasets[urn]; …`
unfoldable pub over_urns :
    (String → RawDataset → Database → Result Database)
    → CombinedRawDataset
    → List String
    → Database
    → Result Database
unfolding string_eq
over_urns f crd [] db = ok db
over_urns f crd (urn ∷ urns) db = or_key_error (look_up crd urn) (f urn) db >>= over_urns f crd urns

-- `__populate_requirements`, at one urn
unfoldable pub populate_requirements_of : String → RawDataset → Database → Result Database
unfolding insert_all_requirements
populate_requirements_of urn rd db =
    insert_urn_metadata rd.requirements_data.metadata rd.location_type rd.location_uri db
    >>= populate_requirements urn rd.requirements_data

unfoldable pub insert_edges : String → List (String × EdgeType) → Database → Database
insert_edges parent [] db = db
insert_edges parent ((child, kind) ∷ edges) db =
    insert_edges parent edges (insert_parsing_graph_edge parent child kind db)

-- `__populate_parsing_graph`
unfoldable pub populate_parsing_graph : Dict String (List (String × EdgeType)) → Database → Database
unfolding insert_edges
populate_parsing_graph [] db = db
populate_parsing_graph ((parent, edges) ∷ graph) db =
    populate_parsing_graph graph (insert_edges parent edges db)

-- `_populate_database`
unfoldable pub populate_database : CombinedRawDataset → Database → Result Database
unfolding over_urns populate_requirements_of populate_svcs populate_mvrs populate_annotations
    populate_test_results populate_parsing_graph set_metadata
populate_database crd db =
    over_urns populate_requirements_of crd crd.urn_parsing_order
      (set_metadata "initial_urn" crd.initial_model_urn db)
    >>= over_urns (λ urn rd. populate_svcs urn rd.svcs_data) crd crd.urn_parsing_order
    >>= over_urns (λ urn rd. populate_mvrs urn rd.mvrs_data) crd crd.urn_parsing_order
    >>= over_urns (λ urn rd db₁. ok (populate_annotations rd.annotations_data db₁)) crd
        crd.urn_parsing_order
    >>= over_urns (λ urn rd db₁. ok (populate_test_results rd.automated_tests db₁)) crd
        crd.urn_parsing_order
    >>= (λ db₁. ok (populate_parsing_graph crd.parsing_graph db₁))
