-- ===== src/Models/Datasets.antt =====
-- filters/*.py, models/raw_datasets.py and the containers of models/*.py. A Python dict is the
-- list of its entries in insertion order, a set the list of its elements.
pub mod Laws
use reqstool_client.Prelude.{
  String, Option, none, List, [], ◌∷◌, Bool, true, false, ◌&&◌, Eq, ◌==◌, if◌then◌else◌, some,
}
use reqstool_client.Models.UrnId.{UrnId}
use reqstool_client.Models.Entities.{
  RequirementData, MetaData, SvcData, MvrData, AnnotationData, TestData,
}

abbrev pub Dict {ℓ κ} : Type ℓ → Type κ → Type (ℓ ⊔ κ)
Dict K V = List (K × V)

module _ {ℓ κ} {K : Type ℓ} {V : Type κ} ⦃e : Eq K⦄ where
  -- `d.get(k)`
  abbrev pub get : Dict K V → K → Option V
  get [] k = none
  get ((j, v) ∷ d) k = let rest = get d k in if j == k then some v else rest

  -- `k in d`
  abbrev pub has_key : Dict K V → K → Bool
  has_key [] k = false
  has_key ((j, v) ∷ d) k = let rest = has_key d k in if j == k then true else rest

  -- `d[k] = v`
  abbrev pub put : Dict K V → K → V → Dict K V
  put [] k v = (k, v) ∷ []
  put ((j, w) ∷ d) k v = let rest = put d k v in if j == k then (j, v) ∷ d else (j, w) ∷ rest

module _ {ℓ κ} {K : Type ℓ} {V : Type κ} where
  -- `d.values()`
  abbrev pub values : Dict K V → List V
  values [] = []
  values ((k, v) ∷ d) = v ∷ values d

  -- `d.keys()`
  abbrev pub keys : Dict K V → List K
  keys [] = []
  keys ((k, v) ∷ d) = k ∷ keys d

-- `IDFilters`, with its subclasses `RequirementFilter` and `SVCFilter`
pub record IdFilters : Type 0 where
  pub urn_ids_imports : Option (List UrnId)
  pub urn_ids_excludes : Option (List UrnId)
  pub custom_imports : Option String
  pub custom_exclude : Option String

-- `IDFilters.is_all_none`
abbrev is_none {ℓ} : {A : Type ℓ} → Option A → Bool
is_none none = true
is_none (some a) = false

unfoldable pub is_all_none : IdFilters → Bool
is_all_none f =
    is_none f.urn_ids_imports
    && (is_none f.urn_ids_excludes && (is_none f.custom_imports && is_none f.custom_exclude))

-- A location that a source names; how locations are resolved and fetched is not modelled.
pub record LocationRef : Type 0 where
  pub uri : String

-- `RequirementsData`
pub record RequirementsData : Type 0 where
  pub metadata : MetaData
  pub implementations : List LocationRef
  pub imports : List LocationRef
  pub filters : Dict String IdFilters
  pub requirements : Dict UrnId RequirementData

-- `SVCsData`
pub record SvcsData : Type 0 where
  pub cases : Dict UrnId SvcData
  pub filters : Dict String IdFilters

-- `MVRsData`
pub record MvrsData : Type 0 where
  pub results : Dict UrnId MvrData

-- `AnnotationsData`
pub record AnnotationsData : Type 0 where
  pub implementations : Dict UrnId (List AnnotationData)
  pub tests : Dict UrnId (List AnnotationData)

-- `TestsData`
pub record TestsData : Type 0 where
  pub tests : Dict UrnId TestData

-- `RawDataset`; every source that is parsed has requirements data.
pub record RawDataset : Type 0 where
  pub requirements_data : RequirementsData
  pub svcs_data : Option SvcsData
  pub annotations_data : Option AnnotationsData
  pub automated_tests : Option TestsData
  pub mvrs_data : Option MvrsData
  pub location_type : Option String
  pub location_uri : Option String

-- `edge_type` of the parsing graph
pub data EdgeType : Type 0 where
  import_edge implementation_edge : EdgeType

-- `CombinedRawDataset`
pub record CombinedRawDataset : Type 0 where
  pub initial_model_urn : String
  pub urn_parsing_order : List String
  pub parsing_graph : Dict String (List (String × EdgeType))
  pub raw_datasets : Dict String RawDataset
