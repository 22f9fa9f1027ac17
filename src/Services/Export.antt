-- ===== src/Services/Export.antt =====
-- services/export_service.py: which items an export holds. The export is of the items themselves, where
-- the source writes them as dictionaries of texts.
use reqstool_client.Prelude.{
  none, not, some, true, false, [], contains, if◌then◌else◌, Bool, ◌∷◌, String, Option, List, ◌||◌,
  ◌&&◌, ◌++◌,
}
mod Selection
pub mod Outcome
use reqstool_client.Models.Datasets.{get, has_key, SvcsData, RequirementsData, Dict}
use reqstool_client.Models.UrnId.{has_separator, instance_of, UrnId, urn_id_eq, assure_urn_id}
use reqstool_client.Storage.Repository.{
  get_automated_test_results, get_annotations_tests, get_annotations_impls, get_all_mvrs,
  get_initial_urn, get_mvrs_for_svc, get_svcs_for_req, get_all_svcs, get_all_requirements,
}
use reqstool_client.Storage.Database.{Database}
use reqstool_client.Models.Entities.{TestData, AnnotationData, MvrData, SvcData, RequirementData}
use reqstool_client.Prelude.Result.{value_error, ◌>>=◌, ok, err, Result}

-- `to_export_dict`, without its metadata
pub record Export : Type 0 where
  pub requirements : Dict UrnId RequirementData
  pub svcs : Dict UrnId SvcData
  pub mvrs : Dict UrnId MvrData
  pub implementations : Dict UrnId (List AnnotationData)
  pub tests : Dict UrnId (List AnnotationData)
  pub test_results : Dict UrnId (List TestData)

-- `s.add(k)`
abbrev pub add : List UrnId → UrnId → List UrnId
add ks k = if contains ks k then ks else ks ++ k ∷ []

-- Without an initial urn, an id has to name its own.
abbrev pub resolve_id : Option String → String → Result UrnId
resolve_id none id = if has_separator id then instance_of id else err value_error
resolve_id (some urn) id = assure_urn_id urn id

-- `_resolve_ids`: an id that is not in the dataset is logged and left out.
module _ {V : Type 0} where
  unfoldable pub resolve_ids :
      List String → Option String → Dict UrnId V → List UrnId → Result (List UrnId)
  unfolding assure_urn_id instance_of has_separator urn_id_eq
  resolve_ids [] default_urn lookup resolved = ok resolved
  resolve_ids (id ∷ ids) default_urn lookup resolved = resolve_id default_urn id >>= (λ k.
      resolve_ids ids default_urn lookup (if has_key lookup k then add resolved k else resolved))

  -- `for k in ks: if k in lookup: kept.add(k)`
  unfoldable pub add_known : List UrnId → Dict UrnId V → List UrnId → List UrnId
  unfolding urn_id_eq
  add_known [] lookup kept = kept
  add_known (k ∷ ks) lookup kept =
      add_known ks lookup (if has_key lookup k then add kept k else kept)

  -- `_expand_related_svcs`, `_collect_related_mvrs` and `_expand_related_reqs`, each with its relation
  unfoldable pub expand : (UrnId → List UrnId) → List UrnId → Dict UrnId V → List UrnId → List UrnId
  unfolding add_known
  expand related [] lookup kept = kept
  expand related (k ∷ ks) lookup kept = expand related ks lookup (add_known (related k) lookup kept)

  -- `{k: v for k, v in d.items() if k in kept}`
  unfoldable pub restrict : List UrnId → Dict UrnId V → Dict UrnId V
  unfolding urn_id_eq
  restrict kept [] = []
  restrict kept ((k, v) ∷ d) =
      let rest = restrict kept d in if contains kept k then (k, v) ∷ rest else rest

-- The requirements of an SVC, if it is there
abbrev requirements_of_svc : Option SvcData → List UrnId
requirements_of_svc none = []
requirements_of_svc (some s) = s.requirement_ids

unfoldable pub requirements_of : Dict UrnId SvcData → UrnId → List UrnId
unfolding urn_id_eq
requirements_of all_svcs k = requirements_of_svc (get all_svcs k)

abbrev pub given : List String → Bool
given [] = false
given (id ∷ ids) = true

unfoldable pub everything : Database → Export
unfolding get_all_requirements get_all_svcs get_all_mvrs get_annotations_impls get_annotations_tests
    get_automated_test_results
everything db = record {
  requirements = get_all_requirements db none none;
  svcs = get_all_svcs db none none;
  mvrs = get_all_mvrs db none none;
  implementations = get_annotations_impls db none;
  tests = get_annotations_tests db none;
  test_results = get_automated_test_results db;
}

module _ (db : Database) where
  -- The items that are kept: the requirements, the SVCs and the MVRs
  unfoldable pub kept_svcs : List UrnId → List UrnId → Export → List UrnId
  unfolding expand get_svcs_for_req
  kept_svcs reqs svcs all_items = expand (get_svcs_for_req db) reqs all_items.svcs svcs

  unfoldable pub kept_reqs : Bool → List UrnId → List UrnId → Export → List UrnId
  unfolding expand requirements_of
  kept_reqs only_svcs reqs svcs all_items =
      if only_svcs
      then expand (requirements_of all_items.svcs) svcs all_items.requirements reqs
      else reqs

  unfoldable pub kept_mvrs : List UrnId → Export → List UrnId
  unfolding expand get_mvrs_for_svc
  kept_mvrs svcs all_items = expand (get_mvrs_for_svc db) svcs all_items.mvrs []

  -- The dictionaries that `_apply_id_filters` returns
  unfoldable pub select : Bool → List UrnId → List UrnId → Export → Export
  unfolding kept_svcs kept_reqs kept_mvrs restrict
  select only_svcs reqs svcs all_items =
      let s = kept_svcs reqs svcs all_items in
      let r = kept_reqs only_svcs reqs s all_items in
      record {
        requirements = restrict r all_items.requirements;
        svcs = restrict s all_items.svcs;
        mvrs = restrict (kept_mvrs s all_items) all_items.mvrs;
        implementations = restrict r all_items.implementations;
        tests = restrict s all_items.tests;
        test_results = restrict s all_items.test_results;
      }

  -- `_apply_id_filters`
  unfoldable pub apply_id_filters : List String → List String → Export → Result Export
  unfolding resolve_ids select get_initial_urn
  apply_id_filters req_ids svc_ids all_items =
      resolve_ids req_ids (get_initial_urn db) all_items.requirements [] >>= (λ reqs.
        resolve_ids svc_ids (get_initial_urn db) all_items.svcs []
        >>= (λ svcs. ok (select (given svc_ids && not (given req_ids)) reqs svcs all_items)))

  -- `to_export_dict`
  unfoldable pub to_export : List String → List String → Result Export
  unfolding everything apply_id_filters
  to_export req_ids svc_ids =
      let all_items = everything db in
      let selected = apply_id_filters req_ids svc_ids all_items in
      if given req_ids || given svc_ids then selected else ok all_items
