-- ===== src/Tests/ValidatorTests.antt =====
-- Tests of the validators.
use reqstool_client.Storage.Database.{Database}
use reqstool_client.Validators.Lifecycle.{referenced_by_svcs, annotated, validate}
use reqstool_client.Validators.Lifecycle.Warnings.{validate_warns, IsOrdered, IsReport}
use reqstool_client.Models.Datasets.{keys, CombinedRawDataset}
use reqstool_client.Validators.Semantic.{
  svc_filters, mvr_without_svc, duplicate_requirement, svc_without_requirement,
  ValidationErrorHolder,
}
use reqstool_client.Validators.Semantic.References.{validate_post_parsing}
use reqstool_client.Validators.Semantic.Documents.{
  validate_filter_has_excludes_xor_includes, validate_no_duplicate_svc_ids,
  validate_no_duplicate_requirement_ids, RequirementsDocument,
}
use reqstool_client.Validators.Semantic.Documents.Checks.{
  files-IsCheck, are_exclusive, are_distinct_cases, are_distinct_requirements, IsCheck,
}
use reqstool_client.Tests.Sample.{svc_1, req_2, svc_2, req_1, raw, requirement_row_of, sample}
use reqstool_client.Storage.Repository.{
  get_annotations_tests, get_annotations_impls, get_all_mvrs, get_all_svcs, get_all_requirements,
}
use reqstool_client.Prelude.{refl, ◌↔◌, true, some, none, ◌∷◌, ◌≡◌, false, []}
use reqstool_client.Models.Entities.{configuration, in_code, deprecated}
use reqstool_client.Validators.Semantic.References.Verdict.{validate_post_parsing_iff, IsFaultless}

-- The first requirement is deprecated, and still implemented and verified.
abbrev deprecating : Database
deprecating = record sample {
  requirements =
      record (requirement_row_of req_1 in_code) {
        lifecycle = record { state = deprecated; reason = none };
      }
      ∷ requirement_row_of req_2 configuration
      ∷ [];
}

validate-deprecating :
    validate deprecating
    ≡ record { state = deprecated; subject = annotated req_1 }
      ∷ record { state = deprecated; subject = referenced_by_svcs req_1 (svc_1 ∷ svc_2 ∷ []) }
      ∷ []
unfolding validate
validate-deprecating = refl

validate_warns_example :
    IsReport
      (get_all_requirements deprecating none none)
      (get_all_svcs deprecating none none)
      (get_all_mvrs deprecating none none)
      (keys (get_annotations_impls deprecating none))
      (keys (get_annotations_tests deprecating none))
      req_1
      (validate deprecating)
    × IsOrdered (validate deprecating)
validate_warns_example = validate_warns deprecating req_1

-- The second SVC and the manual verification result name what does not exist.
abbrev dangling : CombinedRawDataset
dangling = record {
  initial_model_urn = "ms";
  urn_parsing_order = "ms" ∷ [];
  parsing_graph = [];
  raw_datasets = ("ms", raw) ∷ [];
}

abbrev no_errors : ValidationErrorHolder
no_errors = record { errors = [] }

validate_dangling :
    (validate_post_parsing dangling no_errors).errors
    ≡ svc_without_requirement svc_2 (record { urn = "ms"; id = "REQ_9" })
      ∷ mvr_without_svc (record { urn = "ms"; id = "SVC_9" })
      ∷ []
unfolding validate_post_parsing
validate_dangling = refl

validate_post_parsing_iff_example :
    ((validate_post_parsing dangling no_errors).errors ≡ [])
    ↔ ((no_errors.errors ≡ []) × IsFaultless dangling)
validate_post_parsing_iff_example = validate_post_parsing_iff dangling no_errors

abbrev document : RequirementsDocument
document = record { urn = "ms"; has_systems = false; requirements = some ("REQ_1" ∷ "REQ_1" ∷ []) }

validate_no_duplicate_requirement_ids_ms :
    validate_no_duplicate_requirement_ids document no_errors
    ≡ (true, record { errors = duplicate_requirement "REQ_1" "ms" ∷ [] })
unfolding validate_no_duplicate_requirement_ids
validate_no_duplicate_requirement_ids_ms = refl

files-IsCheck_example :
    IsCheck
      (are_distinct_requirements document document.requirements)
      no_errors
      (validate_no_duplicate_requirement_ids document no_errors)
    × IsCheck (are_distinct_cases none) no_errors (validate_no_duplicate_svc_ids none no_errors)
    × IsCheck
        (are_exclusive none)
        no_errors
        (validate_filter_has_excludes_xor_includes svc_filters none no_errors)
files-IsCheck_example = files-IsCheck document none svc_filters none no_errors
