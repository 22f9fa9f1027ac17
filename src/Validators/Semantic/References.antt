-- ===== src/Validators/Semantic/References.antt =====
-- The checks on all parsed sources: that the ids they name exist, and that the manual verification
-- results of one SVC can be ordered by their dates.
mod Errors
mod Dates
mod Groups
pub mod Verdict
use mathlib.Core.Option
use reqstool_client.Models.Datasets.{
  keys, values, get, put, has_key, RawDataset, MvrsData, AnnotationsData, SvcsData,
  CombinedRawDataset, Dict,
}
use reqstool_client.Models.UrnId.{UrnId, urn_id_eq}
use reqstool_client.Prelude.{
  ◌==◌, length, none, ltb, not, ◌++◌, some, if◌then◌else◌, [], ◌∷◌, ℕ, Bool, String, nat_eq, List,
  string_eq, Option,
}
use reqstool_client.Validators.Semantic.{
  same_moment, annotation_without_svc, annotation_without_requirement, svc_without_requirement,
  mvr_without_date, mvr_without_svc, ValidationErrorHolder, ValidationError, add_errors,
}
use reqstool_client.Models.Entities.{RequirementData, AnnotationData, SvcData, MvrData, Datetime}
use reqstool_client.Storage.Repository.{append_at}

-- `Utils.flatten_all_reqs` and `Utils.flatten_all_svcs`
abbrev pub add_new {ℓ} : {V : Type ℓ} → Dict UrnId V → Dict UrnId V → Dict UrnId V
add_new all_items [] = all_items
add_new all_items ((k, v) ∷ items) =
    add_new (if has_key all_items k then all_items else put all_items k v) items

unfoldable pub flatten_all_reqs :
    Dict String RawDataset → Dict UrnId RequirementData → Dict UrnId RequirementData
unfolding urn_id_eq
flatten_all_reqs [] all_reqs = all_reqs
flatten_all_reqs ((model_id, rd) ∷ raw_datasets) all_reqs =
    flatten_all_reqs raw_datasets (add_new all_reqs rd.requirements_data.requirements)

abbrev pub cases_in : Option SvcsData → Dict UrnId SvcData
cases_in none = []
cases_in (some d) = d.cases

unfoldable pub flatten_all_svcs : Dict String RawDataset → Dict UrnId SvcData → Dict UrnId SvcData
unfolding urn_id_eq
flatten_all_svcs [] all_svcs = all_svcs
flatten_all_svcs ((model_id, rd) ∷ raw_datasets) all_svcs =
    flatten_all_svcs raw_datasets (add_new all_svcs (cases_in rd.svcs_data))

-- `_requirement_id_exists` and `_svc_id_exists`
unfoldable pub requirement_id_exists : CombinedRawDataset → UrnId → Bool
unfolding flatten_all_reqs
requirement_id_exists crd k = has_key (flatten_all_reqs crd.raw_datasets []) k

unfoldable pub svc_id_exists : CombinedRawDataset → UrnId → Bool
unfolding flatten_all_svcs
svc_id_exists crd k = has_key (flatten_all_svcs crd.raw_datasets []) k

-- An error for each id that does not exist
unfoldable pub check_ids :
    (UrnId → Bool) → (UrnId → ValidationError) → List UrnId → List ValidationError
check_ids exists error [] = []
check_ids exists error (k ∷ ks) =
    let rest = check_ids exists error ks in if exists k then rest else error k ∷ rest

unfoldable pub check_svcs : (UrnId → Bool) → Dict UrnId SvcData → List ValidationError
unfolding check_ids
check_svcs exists [] = []
check_svcs exists ((k, svc) ∷ svcs) =
    check_ids exists (svc_without_requirement svc.id) svc.requirement_ids ++ check_svcs exists svcs

-- The loop over the sources, of which all but the initial one are skipped
unfoldable pub of_initial :
    String → (RawDataset → List ValidationError) → Dict String RawDataset → List ValidationError
unfolding string_eq
of_initial initial check [] = []
of_initial initial check ((model, rd) ∷ raw_datasets) =
    let rest = of_initial initial check raw_datasets in
    if not (model == initial) then rest else check rd ++ rest

-- `_validate_svc_refers_to_existing_requirement_ids`
unfoldable pub validate_svc_refers_to_existing_requirement_ids :
    CombinedRawDataset → List ValidationError
unfolding requirement_id_exists check_svcs of_initial
validate_svc_refers_to_existing_requirement_ids crd =
    of_initial crd.initial_model_urn
      (λ (rd : RawDataset). check_svcs (requirement_id_exists crd) (cases_in rd.svcs_data))
      crd.raw_datasets

abbrev pub implementations_in : Option AnnotationsData → Dict UrnId (List AnnotationData)
implementations_in none = []
implementations_in (some d) = d.implementations

abbrev pub tests_in : Option AnnotationsData → Dict UrnId (List AnnotationData)
tests_in none = []
tests_in (some d) = d.tests

-- `_validate_annotation_impls_refers_to_existing_requirement_ids`
unfoldable pub validate_annotation_impls_refers_to_existing_requirement_ids :
    CombinedRawDataset → List ValidationError
unfolding requirement_id_exists check_ids of_initial
validate_annotation_impls_refers_to_existing_requirement_ids crd =
    of_initial crd.initial_model_urn
      (λ (rd : RawDataset).
        check_ids (requirement_id_exists crd) annotation_without_requirement
          (keys (implementations_in rd.annotations_data)))
      crd.raw_datasets

-- `_validate_annotation_tests_refers_to_existing_svc_ids`, which skips no source
unfoldable pub check_tests : (UrnId → Bool) → Dict String RawDataset → List ValidationError
unfolding check_ids
check_tests exists [] = []
check_tests exists ((model, rd) ∷ raw_datasets) =
    check_ids exists annotation_without_svc (keys (tests_in rd.annotations_data))
    ++ check_tests exists raw_datasets

unfoldable pub validate_annotation_tests_refers_to_existing_svc_ids :
    CombinedRawDataset → List ValidationError
unfolding svc_id_exists check_tests
validate_annotation_tests_refers_to_existing_svc_ids crd =
    check_tests (svc_id_exists crd) crd.raw_datasets

abbrev pub results_in : Option MvrsData → List MvrData
results_in none = []
results_in (some d) = values d.results

unfoldable pub check_mvrs : (UrnId → Bool) → List MvrData → List ValidationError
unfolding check_ids
check_mvrs exists [] = []
check_mvrs exists (m ∷ mvrs) = check_ids exists mvr_without_svc m.svc_ids ++ check_mvrs exists mvrs

-- `_validate_mvr_refers_to_existing_svc_ids`
unfoldable pub validate_mvr_refers_to_existing_svc_ids : CombinedRawDataset → List ValidationError
unfolding svc_id_exists check_mvrs of_initial
validate_mvr_refers_to_existing_svc_ids crd =
    of_initial crd.initial_model_urn
      (λ (rd : RawDataset). check_mvrs (svc_id_exists crd) (results_in rd.mvrs_data))
      crd.raw_datasets

-- The first loop of `_check_mvr_dates_for_svc`: the errors, and the list `dated`
abbrev pub missing_date : Option Datetime → UrnId → UrnId → List ValidationError
missing_date none mvr svc = mvr_without_date mvr svc ∷ []
missing_date (some d) mvr svc = []

unfoldable pub check_dated : UrnId → List MvrData → List ValidationError
check_dated svc [] = []
check_dated svc (m ∷ mvrs) = missing_date m.date m.id svc ++ check_dated svc mvrs

abbrev pub add_dated : Option Datetime → MvrData → List (ℕ × MvrData) → List (ℕ × MvrData)
add_dated none m dated = dated
add_dated (some d) m dated = (d.instant, m) ∷ dated

unfoldable pub collect_dated : List MvrData → List (ℕ × MvrData)
collect_dated [] = []
collect_dated (m ∷ mvrs) = add_dated m.date m (collect_dated mvrs)

-- Its second loop: aware dates are equal when they are the same instant.
abbrev pub same_as : Option MvrData → MvrData → UrnId → List ValidationError
same_as none m svc = []
same_as (some first) m svc = same_moment first.id m.id svc ∷ []

abbrev pub remember : Option MvrData → ℕ → MvrData → Dict ℕ MvrData → Dict ℕ MvrData
remember none ts m seen = put seen ts m
remember (some first) ts m seen = seen

unfoldable pub check_moments : UrnId → List (ℕ × MvrData) → Dict ℕ MvrData → List ValidationError
unfolding nat_eq
check_moments svc [] seen = []
check_moments svc ((ts, m) ∷ dated) seen =
    same_as (get seen ts) m svc ++ check_moments svc dated (remember (get seen ts) ts m seen)

-- `_check_mvr_dates_for_svc`
unfoldable pub check_mvr_dates_for_svc : UrnId → List MvrData → List ValidationError
unfolding check_dated collect_dated check_moments
check_mvr_dates_for_svc svc mvrs = check_dated svc mvrs ++ check_moments svc (collect_dated mvrs) []

-- `for svc_id in mvr_data.svc_ids: svc_to_mvrs.setdefault(svc_id, []).append(mvr_data)`
unfoldable pub group_mvr :
    List UrnId → MvrData → Dict UrnId (List MvrData) → Dict UrnId (List MvrData)
unfolding urn_id_eq
group_mvr [] m svc_to_mvrs = svc_to_mvrs
group_mvr (k ∷ ks) m svc_to_mvrs = group_mvr ks m (append_at svc_to_mvrs k m)

unfoldable pub group_mvrs : List MvrData → Dict UrnId (List MvrData) → Dict UrnId (List MvrData)
unfolding group_mvr
group_mvrs [] svc_to_mvrs = svc_to_mvrs
group_mvrs (m ∷ mvrs) svc_to_mvrs = group_mvrs mvrs (group_mvr m.svc_ids m svc_to_mvrs)

unfoldable pub check_groups : Dict UrnId (List MvrData) → List ValidationError
unfolding check_mvr_dates_for_svc
check_groups [] = []
check_groups ((k, mvrs) ∷ svc_to_mvrs) =
    (if ltb 1 (length mvrs) then check_mvr_dates_for_svc k mvrs else []) ++ check_groups svc_to_mvrs

-- `_validate_mvr_supersession`
unfoldable pub validate_mvr_supersession : CombinedRawDataset → List ValidationError
unfolding group_mvrs check_groups of_initial
validate_mvr_supersession crd =
    of_initial crd.initial_model_urn
      (λ (rd : RawDataset). check_groups (group_mvrs (results_in rd.mvrs_data) [])) crd.raw_datasets

-- `validate_post_parsing`: the errors that the holder then has
unfoldable pub validate_post_parsing :
    CombinedRawDataset → ValidationErrorHolder → ValidationErrorHolder
unfolding add_errors validate_svc_refers_to_existing_requirement_ids
    validate_annotation_impls_refers_to_existing_requirement_ids
    validate_annotation_tests_refers_to_existing_svc_ids validate_mvr_refers_to_existing_svc_ids
    validate_mvr_supersession
validate_post_parsing crd holder = add_errors (validate_mvr_supersession crd) (
    add_errors (validate_mvr_refers_to_existing_svc_ids crd) (
      add_errors (validate_annotation_tests_refers_to_existing_svc_ids crd) (
        add_errors (validate_annotation_impls_refers_to_existing_requirement_ids crd)
          (add_errors (validate_svc_refers_to_existing_requirement_ids crd) holder))))
