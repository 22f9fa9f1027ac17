-- ===== src/Tests/FilterTests.antt =====
-- Tests of the filters: a source that imports another one and excludes one of its requirements.
use mathlib.Core.Path.{subst}
use reqstool_client.Prelude.{
  inr, sym, not, refl, inl, filter, ◌==◌, contains, length, true, [], some, if◌then◌else◌, ◌⊎◌, ◌∷◌,
  arith, none, ◌≡◌, string_eq, ℕ, String,
}
use reqstool_client.Models.UrnId.{urn_id_eq, UrnId}
use reqstool_client.Models.Datasets.{import_edge, get, Dict, RawDataset, IdFilters}
use reqstool_client.Storage.Database.{delete_mvr_row, Database}
use reqstool_client.Prelude.Result.{◌>>=◌, ok, Result}
use reqstool_client.Storage.Filters.{
  delete_svc, delete_unlinked_mvrs, delete_unlinked_svcs, delete_requirement, imports_item,
  get_filtered_out, over_filters, own_requirements, over_imports, filters_of_requirements, children,
  process_filters_per_urn, Condition, apply_req_filters,
}
use reqstool_client.Storage.Filters.Orphans.{
  delete_requirements-AreLinked, AreMvrsLinked, AreSvcsLinked,
}
use reqstool_client.Storage.Filters.{delete_requirements}
use reqstool_client.Tests.Sample.{svc_2, svc_1, req_2, req_1, requirement_row_of, sample, raw}
use reqstool_client.Storage.Database.Integrity.{IsConsistent}
use reqstool_client.Models.Entities.{configuration, in_code}
use reqstool_client.Storage.Filters.Exactness.{delete_requirements-requirements}

abbrev lib_1 : UrnId
lib_1 = record { urn = "lib"; id = "REQ_1" }

abbrev lib_2 : UrnId
lib_2 = record { urn = "lib"; id = "REQ_2" }

abbrev exclude_lib_2 : IdFilters
exclude_lib_2 = record {
  urn_ids_imports = none;
  urn_ids_excludes = some (lib_2 ∷ []);
  custom_imports = none;
  custom_exclude = none;
}

abbrev raw_ms : RawDataset
raw_ms = record raw {
  requirements_data = record raw.requirements_data { filters = ("lib", exclude_lib_2) ∷ [] };
}

abbrev raw_lib : RawDataset
raw_lib = record raw { requirements_data = record raw.requirements_data { filters = [] } }

abbrev raws : Dict String RawDataset
raws = ("ms", raw_ms) ∷ ("lib", raw_lib) ∷ []

-- An SVC of the importing source verifies the excluded requirement only.
abbrev importing : Database
importing = record sample {
  requirements =
      requirement_row_of req_1 in_code
      ∷ requirement_row_of req_2 configuration
      ∷ requirement_row_of lib_1 in_code
      ∷ requirement_row_of lib_2 in_code
      ∷ [];
  svc_requirement_links =
      record { owner = svc_1; target = req_1 } ∷ record { owner = svc_2; target = lib_2 } ∷ [];
  parsing_graph = record { parent_urn = "ms"; child_urn = "lib"; edge_type = import_edge } ∷ [];
}

abbrev compile_none : Database → String → String → String → Result Condition
compile_none db table expression urn = ok (λ k. true)

abbrev IsSource : String → Type 0
IsSource urn = (urn ≡ "ms") ⊎ (urn ≡ "lib")

abbrev rank_of : String → ℕ
rank_of urn = if urn == "ms" then 1 else 0

abbrev sizes : Result Database → Result (ℕ × ℕ × ℕ)
sizes r = r >>= (λ db. ok (length db.requirements, length db.svcs, length db.mvrs))

-- The excluded requirement goes, with the SVC that verified it and the MVRs of that.
apply_req_filters_ms : sizes (apply_req_filters compile_none 2 raws "ms" importing) ≡ ok (3, 1, 0)
unfolding apply_req_filters process_filters_per_urn over_imports over_filters get_filtered_out
    imports_item children own_requirements delete_requirements delete_requirement
    delete_unlinked_svcs delete_unlinked_mvrs delete_svc delete_mvr_row urn_id_eq string_eq
apply_req_filters_ms = refl

IsConsistent-importing : IsConsistent importing
unfolding urn_id_eq string_eq
IsConsistent-importing = record {
  requirements = (refl, (refl, (refl, (refl, tt))));
  svcs = (refl, (refl, tt));
  mvrs = (refl, (refl, tt));
  urns = tt;
  positions = tt;
  categories = tt;
  references = tt;
  link_svcs = (refl, (refl, tt));
  link_requirements = (refl, (refl, tt));
  link_mvrs = (refl, (refl, tt));
  mvr_link_svcs = (refl, (refl, tt));
  impls = (refl, tt);
  tests = (refl, tt);
  category_keys = tt;
  reference_keys = tt;
  svc_link_keys = (refl, (refl, tt));
  mvr_link_keys = (refl, (refl, tt));
  impl_keys = (refl, tt);
  test_keys = (refl, tt);
  result_keys = (refl, tt);
  edge_keys = (refl, tt);
  position_keys = tt;
  metadata_keys = tt;
}

AreSvcsLinked-importing : AreSvcsLinked importing
AreSvcsLinked-importing k h = ground (arith, h)

AreMvrsLinked-importing : AreMvrsLinked importing
AreMvrsLinked-importing k h = ground (arith, h)

delete_requirements-AreLinked_example :
    AreSvcsLinked (delete_requirements (lib_2 ∷ []) importing)
    × AreMvrsLinked (delete_requirements (lib_2 ∷ []) importing)
delete_requirements-AreLinked_example =
    delete_requirements-AreLinked (lib_2 ∷ []) importing AreSvcsLinked-importing
      AreMvrsLinked-importing

delete_requirements-requirements_example :
    ((delete_requirements (lib_2 ∷ []) importing).requirements
      ≡ filter (λ r. not (contains (lib_2 ∷ []) r.key)) importing.requirements)
    × IsConsistent (delete_requirements (lib_2 ∷ []) importing)
delete_requirements-requirements_example =
    delete_requirements-requirements (lib_2 ∷ []) importing IsConsistent-importing

known_source : (urn : String) → IsSource urn → (rd : RawDataset) × (get raws urn ≡ some rd)
unfolding string_eq
known_source urn (inl e) =
    subst (λ u. (rd : RawDataset) × (get raws u ≡ some rd)) (sym e) (raw_ms, refl)
known_source urn (inr e) =
    subst (λ u. (rd : RawDataset) × (get raws u ≡ some rd)) (sym e) (raw_lib, refl)

source_filters :
    (urn : String)
    → IsSource urn
    → (fs : Dict String IdFilters) × (filters_of_requirements (get raws urn) ≡ ok fs)
source_filters urn s = let (rd, e) = known_source urn s in (rd.requirements_data.filters, rw e refl)
