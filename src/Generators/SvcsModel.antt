-- ===== src/Generators/SvcsModel.antt =====
-- model_generators/svcs_model_generator.py: `SVCsModelGenerator`, from the document that the schema has
-- accepted.
pub mod Laws
use mathlib.Core.Option
use reqstool_client.Prelude.{if◌then◌else◌, none, some, [], ◌∷◌, Bool, Option, List, String}
use reqstool_client.Common.FilterParser.{FilterEntry, parse_filters}
use reqstool_client.Models.Entities.{
  SvcData, build, LifecycleData, VerificationPhase, VerificationType,
}
use reqstool_client.Models.Datasets.{put, has_key, SvcsData, Dict}
use reqstool_client.Validators.Semantic.Documents.{
  validate_no_duplicate_svc_ids, validate_filter_has_excludes_xor_includes, CaseEntry,
}
use reqstool_client.Generators.SourceLines.{span_of, from_dict, parse_version, SourceLines}
use reqstool_client.Models.UrnId.{convert_ids_to_urn_id, UrnId, urn_id_eq}
use reqstool_client.Validators.Semantic.{svc_filters, ValidationErrorHolder}
use reqstool_client.Prelude.Result.{◌>>=◌, ok, Result}

-- An entry of `cases`
pub record SvcEntry : Type 0 where
  pub id : String
  pub requirement_ids : List String
  pub title : String
  pub description : Option String
  pub verification : VerificationType
  pub phase : Option VerificationPhase
  pub instructions : Option String
  pub revision : String
  pub lifecycle : Option LifecycleData

-- A svcs.yml
pub record SvcsFile : Type 0 where
  pub cases : List SvcEntry
  pub filters : Option (Dict String FilterEntry)

abbrev phase_of : Option VerificationPhase → VerificationPhase
phase_of none = build
phase_of (some phase) = phase

module _ (is_version : String → Bool) (version_text : String → String) (source_lines : SourceLines)
    (urn : String) where
  abbrev pub svc_data : SvcEntry → String → SvcData
  svc_data entry revision = record {
    id = record { urn = urn; id = entry.id };
    title = entry.title;
    description = entry.description;
    verification = entry.verification;
    phase = phase_of entry.phase;
    instructions = entry.instructions;
    revision = revision;
    lifecycle = from_dict entry.lifecycle;
    requirement_ids = convert_ids_to_urn_id urn entry.requirement_ids;
    span = span_of source_lines entry.id;
  }

  unfoldable pub parse_svc : SvcEntry → Result SvcData
  unfolding parse_version from_dict span_of convert_ids_to_urn_id
  parse_svc entry =
      parse_version is_version version_text entry.revision
      >>= (λ revision. ok (svc_data entry revision))

  -- `__parse_svcs`: of two cases with the same id, the first one stays.
  unfoldable pub parse_svcs : List SvcEntry → Dict UrnId SvcData → Result (Dict UrnId SvcData)
  unfolding parse_svc urn_id_eq
  parse_svcs [] r_result = ok r_result
  parse_svcs (entry ∷ entries) r_result = parse_svc entry >>= (λ svc.
      parse_svcs entries (if has_key r_result svc.id then r_result else put r_result svc.id svc))

abbrev pub case_entries : List SvcEntry → List CaseEntry
case_entries [] = []
case_entries (entry ∷ entries) =
    record { id = entry.id; requirement_ids = entry.requirement_ids } ∷ case_entries entries

-- `__generate`, after the schema
unfoldable pub generate_svcs :
    (String → Bool)
    → (String → String)
    → SourceLines
    → String
    → SvcsFile
    → ValidationErrorHolder
    → Result (SvcsData × ValidationErrorHolder)
unfolding parse_svcs parse_filters validate_filter_has_excludes_xor_includes
    validate_no_duplicate_svc_ids
generate_svcs is_version version_text source_lines urn file holder =
    let (again, checked) = validate_no_duplicate_svc_ids (some (case_entries file.cases)) holder in
    let (found, after) =
      validate_filter_has_excludes_xor_includes svc_filters file.filters checked in
    parse_svcs is_version version_text source_lines urn file.cases []
    >>= (λ cases. ok (record { cases = cases; filters = parse_filters file.filters }, after))
