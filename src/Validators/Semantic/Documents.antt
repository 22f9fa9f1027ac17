-- ===== src/Validators/Semantic/Documents.antt =====
-- The checks on a file before it is parsed: duplicate ids, and filters with both includes and excludes.
pub mod Checks
use reqstool_client.Prelude.{
  none, [], not, contains, if◌then◌else◌, false, true, ◌∷◌, some, ltb, List, Bool, Option,
  string_eq, String,
}
use reqstool_client.Validators.Semantic.{
  both_id_filters, duplicate_svc, no_requirements, duplicate_requirement, both_custom_filters,
  no_cases, ValidationError, get_no_of_errors, FilterKind, add_error, ValidationErrorHolder,
}
use reqstool_client.Common.FilterParser.{FilterEntry, CustomEntry, IdsEntry}
use reqstool_client.Models.Datasets.{Dict}

-- The part of a requirements.yml that the check reads: whether `systems` is there, and the ids of
-- `requirements`
pub record RequirementsDocument : Type 0 where
  pub urn : String
  pub has_systems : Bool
  pub requirements : Option (List String)

-- A case of a svcs.yml
pub record CaseEntry : Type 0 where
  pub id : String
  pub requirement_ids : List String

-- The loop over the requirements, with the set `all_reqs`
unfoldable pub check_requirement_ids :
    String → List String → List String → ValidationErrorHolder → ValidationErrorHolder
unfolding string_eq add_error
check_requirement_ids urn all_reqs [] holder = holder
check_requirement_ids urn all_reqs (id ∷ ids) holder =
    let known = contains all_reqs id in
    check_requirement_ids urn (if known then all_reqs else id ∷ all_reqs) ids
      (if known then add_error (duplicate_requirement id urn) holder else holder)

abbrev pub has_errors : ValidationErrorHolder → Bool × ValidationErrorHolder
has_errors holder = (ltb 0 (get_no_of_errors holder), holder)

abbrev pub check_requirements :
    RequirementsDocument → Option (List String) → ValidationErrorHolder → ValidationErrorHolder
check_requirements document none holder =
    if not document.has_systems then add_error (no_requirements document.urn) holder else holder
check_requirements document (some ids) holder = check_requirement_ids document.urn [] ids holder

-- `_validate_no_duplicate_requirement_ids`: its result says whether the holder has errors.
unfoldable pub validate_no_duplicate_requirement_ids :
    RequirementsDocument → ValidationErrorHolder → Bool × ValidationErrorHolder
unfolding check_requirement_ids add_error get_no_of_errors
validate_no_duplicate_requirement_ids document holder =
    has_errors (check_requirements document document.requirements holder)

-- The loop over the cases, with the set `all_svcs`
unfoldable pub check_case_ids :
    List String → List CaseEntry → ValidationErrorHolder → ValidationErrorHolder
unfolding string_eq add_error
check_case_ids all_svcs [] holder = holder
check_case_ids all_svcs (entry ∷ entries) holder =
    let known = contains all_svcs entry.id in
    check_case_ids (if known then all_svcs else entry.id ∷ all_svcs) entries
      (if known then add_error (duplicate_svc entry.id entry.requirement_ids) holder else holder)

abbrev pub check_cases : Option (List CaseEntry) → ValidationErrorHolder → ValidationErrorHolder
check_cases none holder = add_error no_cases holder
check_cases (some entries) holder = check_case_ids [] entries holder

-- `_validate_no_duplicate_svc_ids`
unfoldable pub validate_no_duplicate_svc_ids :
    Option (List CaseEntry) → ValidationErrorHolder → Bool × ValidationErrorHolder
unfolding check_case_ids add_error get_no_of_errors
validate_no_duplicate_svc_ids cases holder = has_errors (check_cases cases holder)

abbrev pub has_both {ℓ} : {A : Type ℓ} → Option A → Option A → Bool
has_both (some a) (some b) = true
has_both _ _ = false

abbrev pub both_ids : Option IdsEntry → Bool
both_ids none = false
both_ids (some e) = has_both e.includes e.excludes

abbrev pub both_custom : Option CustomEntry → Bool
both_custom none = false
both_custom (some e) = has_both e.includes e.excludes

abbrev pub add_if : Bool → ValidationError → ValidationErrorHolder → ValidationErrorHolder
add_if b error holder = if b then add_error error holder else holder

unfoldable pub check_filters :
    FilterKind → Dict String FilterEntry → ValidationErrorHolder → ValidationErrorHolder
unfolding add_error
check_filters kind [] holder = holder
check_filters kind ((urn, e) ∷ filters) holder = check_filters kind filters (
    add_if (both_custom e.custom) (both_custom_filters kind urn)
      (add_if (both_ids e.ids) (both_id_filters kind urn) holder))

abbrev pub check_given_filters :
    FilterKind → Option (Dict String FilterEntry) → ValidationErrorHolder → ValidationErrorHolder
check_given_filters kind none holder = holder
check_given_filters kind (some filters) holder = check_filters kind filters holder

-- `_validate_svc_imports_filter_has_excludes_xor_includes` and
-- `_validate_req_imports_filter_has_excludes_xor_includes`, which differ in their messages
unfoldable pub validate_filter_has_excludes_xor_includes :
    FilterKind
    → Option (Dict String FilterEntry)
    → ValidationErrorHolder
    → Bool × ValidationErrorHolder
unfolding check_filters get_no_of_errors
validate_filter_has_excludes_xor_includes kind filters holder =
    has_errors (check_given_filters kind filters holder)
