-- ===== src/Tests/GeneratorTests.antt =====
-- Tests of the traversal of the sources and of storing them.
use mathlib.Core.Path.{subst}
use reqstool_client.Prelude.{
  ◌<◌, ◌≢◌, All, ℕ, refl, ◌≡◌, true, string_eq, if◌then◌else◌, false, arith, [], Bool, List, ◌∷◌,
  ◌==◌, String,
}
use reqstool_client.Models.Datasets.{RawDataset, CombinedRawDataset, LocationRef, import_edge}
use reqstool_client.Prelude.Result.{
  ok-injective, out_of_fuel, err, ok, Result, ◌>>=◌, circular_import,
}
use reqstool_client.Generators.CombinedRawDatasets.{
  enter, visit, over_sources, import_sources, handle_initial_imports, Traversal, generate,
}
use reqstool_client.Generators.CombinedRawDatasets.Distinct.{
  import_sources-IsDistinct, Holds, IsDistinct,
}
use reqstool_client.Tests.Sample.{metadata, raw}

abbrev at : String → LocationRef
at uri = record { uri = uri }

abbrev source : String → List LocationRef → RawDataset
source urn imports = record raw {
  requirements_data = record raw.requirements_data {
    metadata = record metadata { urn = urn };
    imports = imports;
  };
}

-- A system that imports two sources, which both import a third one if `deep` says so
abbrev parse_sources : Bool → LocationRef → Result RawDataset
parse_sources deep l =
    if l.uri == "app"
    then ok (source "app" (at "a" ∷ at "b" ∷ []))
    else if l.uri == "a"
    then ok (source "a" (at "c" ∷ []))
    else if l.uri == "b"
    then ok (source "b" (if deep then at "c" ∷ [] else []))
    else ok (source "c" [])

abbrev order_of : Result CombinedRawDataset → Result (List String)
order_of r = r >>= (λ crd. ok crd.urn_parsing_order)

generate_order :
    order_of (generate (parse_sources false) 3 (at "app")) ≡ ok ("app" ∷ "a" ∷ "c" ∷ "b" ∷ [])
unfolding generate handle_initial_imports import_sources over_sources visit enter string_eq
generate_order = refl

-- A source that two others import is taken for a circular import.
generate_diamond : order_of (generate (parse_sources true) 3 (at "app")) ≡ err (circular_import "c")
unfolding generate handle_initial_imports import_sources over_sources visit enter string_eq
generate_diamond = refl

abbrev begun : Traversal
begun = record {
  raw_datasets = [];
  parsing_order = "app" ∷ [];
  parsing_graph = [];
  visited = "app" ∷ [];
}

begun-IsDistinct : IsDistinct begun
begun-IsDistinct = ((refl, tt), λ u h. ground (arith, h))

import_sources-IsDistinct_example :
    Holds
      (λ (found : List String × Traversal). IsDistinct found.1)
      (import_sources (parse_sources false) import_edge 3 (at "a" ∷ at "b" ∷ []) begun)
import_sources-IsDistinct_example =
    import_sources-IsDistinct (parse_sources false) 3 (at "a" ∷ at "b" ∷ []) begun begun-IsDistinct

abbrev combined : CombinedRawDataset
combined = record {
  initial_model_urn = "ms";
  urn_parsing_order = "ms" ∷ [];
  parsing_graph = ("ms", []) ∷ [];
  raw_datasets = ("ms", raw) ∷ [];
}

-- A system that imports one source
abbrev source_if : Bool → Result RawDataset
source_if true = ok (source "app" (at "a" ∷ []))
source_if false = ok (source "a" [])

abbrev parse_two : LocationRef → Result RawDataset
parse_two l = source_if (l.uri == "app")

abbrev depth_if : Bool → ℕ
depth_if true = 1
depth_if false = 0

abbrev depth : LocationRef → ℕ
depth l = depth_if (l.uri == "app")

source_if-ne-out_of_fuel : (b : Bool) → source_if b ≢ err out_of_fuel
source_if-ne-out_of_fuel true = λ q. cc
source_if-ne-out_of_fuel false = λ q. cc

imports_descend :
    (b : Bool) (rd : RawDataset)
    → source_if b ≡ ok rd
    → All (λ l. depth l < depth_if b) rd.requirements_data.imports
unfolding string_eq
imports_descend true rd h =
    subst (λ (x : RawDataset). All (λ l. depth l < 1) x.requirements_data.imports)
      (ok-injective _ rd h) (omega arith, tt)
imports_descend false rd h =
    subst (λ (x : RawDataset). All (λ l. depth l < 0) x.requirements_data.imports)
      (ok-injective _ rd h) tt
