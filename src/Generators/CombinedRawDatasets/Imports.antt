-- ===== src/Generators/CombinedRawDatasets/Imports.antt =====
-- model_generators/combined_raw_datasets_generator.py: the traversal of imports and implementations.
use reqstool_client.Prelude.{
  zero, ◌++◌, ◌==◌, ℕ, contains, if◌then◌else◌, [], map, string_eq, List, ◌∷◌, String, suc,
}
use reqstool_client.Models.Datasets.{
  put, CombinedRawDataset, LocationRef, RawDataset, RequirementsData, Dict, import_edge,
  implementation_edge, EdgeType,
}
use reqstool_client.Prelude.Result.{
  out_of_fuel, err, ◌>>=◌, ok, circular_implementation, Result, circular_import, Error,
}

abbrev pub Graph : Type 0
Graph = Dict String (List (String × EdgeType))

-- `graph[urn].extend(edges)` on a `defaultdict`
abbrev pub extend_at : Graph → String → List (String × EdgeType) → Graph
extend_at [] urn edges = (urn, edges) ∷ []
extend_at ((u, es) ∷ graph) urn edges =
    let rest = extend_at graph urn edges in
    if u == urn then (u, es ++ edges) ∷ graph else (u, es) ∷ rest

-- What the traversal has found so far
pub record Traversal : Type 0 where
  pub raw_datasets : Dict String RawDataset
  pub parsing_order : List String
  pub parsing_graph : Graph
  pub visited : List String

abbrev pub edges_to : EdgeType → List String → List (String × EdgeType)
edges_to kind urns = map (λ u. (u, kind)) urns

-- The sources that a source names of one kind
abbrev pub sources_of : EdgeType → RequirementsData → List LocationRef
sources_of import_edge rd = rd.imports
sources_of implementation_edge rd = rd.implementations

abbrev pub circular : EdgeType → String → Error
circular import_edge urn = circular_import urn
circular implementation_edge urn = circular_implementation urn

-- `for sub_urn in sub_urns: graph[sub_urn].append((urn, "implementation"))`
abbrev link_back : String → List String → Graph → Graph
link_back urn [] graph = graph
link_back urn (u ∷ urns) graph =
    link_back urn urns (extend_at graph u ((urn, implementation_edge) ∷ []))

-- The edges that are added once the sources below a source are known
abbrev pub link : EdgeType → String → List String → Graph → Graph
link import_edge urn urns graph = extend_at graph urn (edges_to import_edge urns)
link implementation_edge urn [] graph = graph
link implementation_edge urn (u ∷ urns) graph =
    link_back urn (u ∷ urns) (extend_at graph urn (edges_to implementation_edge (u ∷ urns)))

abbrev pub urn_of : RawDataset → String
urn_of rd = rd.requirements_data.metadata.urn

-- A source is entered unless its urn was visited.
unfoldable pub enter : EdgeType → RawDataset → Traversal → Result Traversal
unfolding string_eq
enter kind rd t =
    if contains t.visited (urn_of rd)
    then err (circular kind (urn_of rd))
    else ok (record t {
      raw_datasets = put t.raw_datasets (urn_of rd) rd;
      parsing_order = t.parsing_order ++ urn_of rd ∷ [];
      visited = t.visited ++ urn_of rd ∷ [];
    })

abbrev pub add_links : EdgeType → String → List String → Traversal → Traversal
add_links kind urn urns t = record t { parsing_graph = link kind urn urns t.parsing_graph }

module _ (parse : LocationRef → Result RawDataset) (kind : EdgeType) where
  abbrev pub Below : Type 0
  Below = List LocationRef → Traversal → Result (List String × Traversal)

  -- One iteration of the loop, up to the edges
  unfoldable pub visit : Below → LocationRef → Traversal → Result (String × Traversal)
  unfolding enter string_eq
  visit below location t = parse location >>= (λ rd. enter kind rd t >>= (λ t₁.
      below (sources_of kind rd.requirements_data) t₁
      >>= (λ found. ok (urn_of rd, add_links kind (urn_of rd) found.0 found.1))))

  -- The loop over the sources
  unfoldable pub over_sources : Below → Below
  unfolding visit
  over_sources below [] t = ok ([], t)
  over_sources below (location ∷ locations) t = visit below location t >>= (λ first.
      over_sources below locations first.1 >>= (λ rest. ok (first.0 ∷ rest.0, rest.1)))

  -- `__import_systems` and `__import_implementations`; the fuel bounds the depth.
  unfoldable pub import_sources : ℕ → Below
  unfolding over_sources
  import_sources zero locations t = err out_of_fuel
  import_sources (suc fuel) locations t = over_sources (import_sources fuel) locations t

module _ (parse : LocationRef → Result RawDataset) (fuel : ℕ) where
  abbrev start : RawDataset → Traversal
  start rd = record {
    raw_datasets = (urn_of rd, rd) ∷ [];
    parsing_order = urn_of rd ∷ [];
    parsing_graph = [];
    visited = urn_of rd ∷ [];
  }

  abbrev handle_initial_systems : String → List LocationRef → Traversal → Result Traversal
  handle_initial_systems urn [] t = ok t
  handle_initial_systems urn (l ∷ ls) t =
      import_sources parse import_edge fuel (l ∷ ls) t
      >>= (λ found. ok (add_links import_edge urn found.0 found.1))

  -- The implementations start from an empty set of visited urns.
  abbrev handle_initial_implementations : String → List LocationRef → Traversal → Result Traversal
  handle_initial_implementations urn [] t = ok t
  handle_initial_implementations urn (l ∷ ls) t =
      import_sources parse implementation_edge fuel (l ∷ ls) (record t { visited = [] })
      >>= (λ found. ok (add_links implementation_edge urn found.0 found.1))

  -- `__handle_initial_imports`
  unfoldable pub handle_initial_imports : RawDataset → Traversal → Result Traversal
  unfolding import_sources string_eq
  handle_initial_imports rd t =
      handle_initial_systems (urn_of rd) rd.requirements_data.imports t
      >>= handle_initial_implementations (urn_of rd) rd.requirements_data.implementations

  abbrev to_combined : RawDataset → Traversal → CombinedRawDataset
  to_combined rd t = record {
    initial_model_urn = urn_of rd;
    urn_parsing_order = t.parsing_order;
    parsing_graph = t.parsing_graph;
    raw_datasets = t.raw_datasets;
  }

  -- `__generate`, up to the validation and the database
  unfoldable pub generate : LocationRef → Result CombinedRawDataset
  unfolding handle_initial_imports
  generate location =
      parse location
      >>= (λ rd. handle_initial_imports rd (start rd) >>= (λ t. ok (to_combined rd t)))
