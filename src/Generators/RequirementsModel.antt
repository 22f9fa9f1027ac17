-- ===== src/Generators/RequirementsModel.antt =====
-- model_generators/requirements_model_generator.py: `RequirementsModelGenerator`, from the document that
-- the schema has accepted. Its locations are those that the document names, already resolved.
pub mod Laws
use mathlib.Core.Option
use reqstool_client.Prelude.{if◌then◌else◌, none, some, ◌∷◌, [], Bool, List, Option, String}
use reqstool_client.Models.Entities.{
  RequirementData, LifecycleData, in_code, Category, Implementation, ReferenceData, Significance,
  MetaData,
}
use reqstool_client.Validators.Semantic.Documents.{
  validate_no_duplicate_requirement_ids, validate_filter_has_excludes_xor_includes,
  RequirementsDocument,
}
use reqstool_client.Common.FilterParser.{FilterEntry, parse_filters}
use reqstool_client.Models.Datasets.{put, has_key, RequirementsData, Dict, LocationRef}
use reqstool_client.Generators.SourceLines.{span_of, from_dict, parse_version, SourceLines}
use reqstool_client.Models.UrnId.{UrnId, urn_id_eq, convert_ids_to_urn_id}
use reqstool_client.Validators.Semantic.{requirement_filters, ValidationErrorHolder}
use reqstool_client.Prelude.Result.{◌>>=◌, ok, Result}

-- An entry of `requirements`
pub record RequirementEntry : Type 0 where
  pub id : String
  pub title : String
  pub significance : Significance
  pub description : String
  pub rationale : Option String
  pub categories : List Category
  pub references : Option (List String)
  pub revision : String
  pub implementation : Option Implementation
  pub lifecycle : Option LifecycleData

-- A requirements.yml
pub record RequirementsFile : Type 0 where
  pub metadata : MetaData
  pub imports : List LocationRef
  pub implementations : List LocationRef
  pub filters : Option (Dict String FilterEntry)
  pub has_systems : Bool
  pub requirements : Option (List RequirementEntry)

abbrev refs_data : String → Option (List String) → List ReferenceData
refs_data urn none = []
refs_data urn (some ids) = record { requirement_ids = convert_ids_to_urn_id urn ids } ∷ []

abbrev implementation_of : Option Implementation → Implementation
implementation_of none = in_code
implementation_of (some implementation) = implementation

module _ (is_version : String → Bool) (version_text : String → String) (source_lines : SourceLines)
    (urn : String) where
  abbrev pub requirement_data : RequirementEntry → String → RequirementData
  requirement_data req revision = record {
    id = record { urn = urn; id = req.id };
    title = req.title;
    significance = req.significance;
    description = req.description;
    rationale = req.rationale;
    revision = revision;
    lifecycle = from_dict req.lifecycle;
    implementation = implementation_of req.implementation;
    categories = req.categories;
    references = refs_data urn req.references;
    span = span_of source_lines req.id;
  }

  unfoldable pub parse_requirement : RequirementEntry → Result RequirementData
  unfolding parse_version from_dict span_of convert_ids_to_urn_id
  parse_requirement req =
      parse_version is_version version_text req.revision
      >>= (λ revision. ok (requirement_data req revision))

  -- The loop of `__parse_requirements`: of two entries with the same id, the first one stays.
  unfoldable pub parse_requirements :
      List RequirementEntry → Dict UrnId RequirementData → Result (Dict UrnId RequirementData)
  unfolding parse_requirement urn_id_eq
  parse_requirements [] r_reqs = ok r_reqs
  parse_requirements (req ∷ reqs) r_reqs =
      parse_requirement req
      >>= (λ r. parse_requirements reqs (if has_key r_reqs r.id then r_reqs else put r_reqs r.id r))

abbrev pub entries_of : Option (List RequirementEntry) → List RequirementEntry
entries_of none = []
entries_of (some reqs) = reqs

abbrev ids_in : List RequirementEntry → List String
ids_in [] = []
ids_in (req ∷ reqs) = req.id ∷ ids_in reqs

abbrev pub document_of : RequirementsFile → RequirementsDocument
document_of file = record {
  urn = file.metadata.urn;
  has_systems = file.has_systems;
  requirements = Option.map ids_in file.requirements;
}

-- `__generate`, after the schema: the data, and the errors of the checks on the file
unfoldable pub generate_requirements :
    (String → Bool)
    → (String → String)
    → SourceLines
    → RequirementsFile
    → ValidationErrorHolder
    → Result (RequirementsData × ValidationErrorHolder)
unfolding parse_requirements parse_filters validate_filter_has_excludes_xor_includes
    validate_no_duplicate_requirement_ids
generate_requirements is_version version_text source_lines file holder =
    let (found, checked) =
      validate_filter_has_excludes_xor_includes requirement_filters file.filters holder in
    let (again, after) = validate_no_duplicate_requirement_ids (document_of file) checked in
    parse_requirements is_version version_text source_lines file.metadata.urn
      (entries_of file.requirements) []
    >>= (λ reqs. ok (
      record {
        metadata = file.metadata;
        implementations = file.implementations;
        imports = file.imports;
        filters = parse_filters file.filters;
        requirements = reqs;
      },
      after,
    ))
