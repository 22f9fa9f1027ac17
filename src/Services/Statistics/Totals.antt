-- ===== src/Services/Statistics/Totals.antt =====
-- services/statistics_service.py: `StatisticsService`, the totals over all requirements and tests.
use reqstool_client.Prelude.{
  ◌++◌, some, length, contains, not, String, [], ◌∷◌, if◌then◌else◌, none, ltb, ℕ, Bool, Option,
  List, ◌+◌,
}
use reqstool_client.Prelude.Result.{◌>>=◌, Result, ok}
use reqstool_client.Storage.Repository.{
  TieOrder, get_all_requirements, get_all_svcs, get_annotations_tests, get_automated_test_results,
  get_effective_mvr_verdict_counts,
}
use reqstool_client.Services.Statistics.Records.{
  pos, pred_ℤ, TestStats, RequirementStatus, TotalStats, zero_totals,
}
use reqstool_client.Services.Statistics.Verdict.{compute_requirement_status}
use reqstool_client.Models.Entities.{
  in_code, missing, framework, platform, skipped, configuration, failed, SvcData, AnnotationData,
  not_applicable, passed, TestData, RequirementData, Implementation, TestRunStatus,
}
use reqstool_client.Models.UrnId.{UrnId, urn_id_eq}
use reqstool_client.Models.Datasets.{get, put, Dict}
use reqstool_client.Storage.Database.{Database}

-- One test datum in `_count_automated_test_totals`
abbrev pub count_total : TestRunStatus → TotalStats → TotalStats
count_total passed t = record t {
  passed_tests = t.passed_tests + 1;
  passed_automatic_tests = t.passed_automatic_tests + 1;
}
count_total failed t = record t {
  failed_tests = t.failed_tests + 1;
  failed_automatic_tests = t.failed_automatic_tests + 1;
}
count_total skipped t = record t { skipped_tests = t.skipped_tests + 1 }
count_total missing t = record t { total_tests = pred_ℤ t.total_tests }

abbrev pub count_all : List TestData → TotalStats → TotalStats
count_all [] t = t
count_all (d ∷ ds) t = count_all ds (count_total d.status t)

abbrev pub or_empty : Option (List TestData) → List TestData
or_empty none = []
or_empty (some ds) = ds

-- The inner loop: each key is looked at once.
unfoldable pub count_annotations :
    Dict UrnId (List TestData)
    → String
    → List AnnotationData
    → List UrnId
    → TotalStats
    → List UrnId × TotalStats
unfolding urn_id_eq pred_ℤ
count_annotations results urn [] parsed t = (parsed, t)
count_annotations results urn (a ∷ annotations) parsed t =
    let k : UrnId = record { urn = urn; id = a.fully_qualified_name } in
    let seen = contains parsed k in
    count_annotations results urn annotations (if seen then parsed else parsed ++ k ∷ [])
      (if seen then t else count_all (or_empty (get results k)) t)

-- `_count_automated_test_totals`
unfoldable pub count_automated_test_totals :
    Dict UrnId (List AnnotationData)
    → Dict UrnId (List TestData)
    → List UrnId
    → TotalStats
    → TotalStats
unfolding count_annotations
count_automated_test_totals [] results parsed t = t
count_automated_test_totals ((svc, annotations) ∷ rest) results parsed t =
    let (parsed', t') = count_annotations results svc.urn annotations parsed t in
    count_automated_test_totals rest results parsed' t'

module _ ⦃order : TieOrder⦄ where
  -- `_calculate_global_totals`
  unfoldable pub calculate_global_totals :
      Database
      → Dict UrnId SvcData
      → Dict UrnId (List AnnotationData)
      → Dict UrnId (List TestData)
      → TotalStats
      → TotalStats
  unfolding count_automated_test_totals get_effective_mvr_verdict_counts
  calculate_global_totals db svcs annotations results t =
      let (eff_total, eff_passed, eff_failed) = get_effective_mvr_verdict_counts db in
      count_automated_test_totals annotations results [] (record t {
        total_svcs = length svcs;
        total_annotated_tests = length results;
        total_manual_tests = eff_total;
        passed_manual_tests = eff_passed;
        failed_manual_tests = eff_failed;
        passed_tests = t.passed_tests + eff_passed;
        failed_tests = t.failed_tests + eff_failed;
        total_tests = pos (length results + eff_total);
      })

-- `if completed: … += 1`
abbrev pub bump : Bool → ℕ → ℕ
bump b n = if b then n + 1 else n

-- The match on the kind of implementation
unfoldable pub count_implementation : Implementation → Bool → TotalStats → TotalStats
count_implementation not_applicable completed t = record t {
  without_implementation_total = t.without_implementation_total + 1;
  without_implementation_completed = bump completed t.without_implementation_completed;
}
count_implementation configuration completed t = record t {
  configuration_total = t.configuration_total + 1;
  configuration_completed = bump completed t.configuration_completed;
}
count_implementation platform completed t = record t {
  platform_total = t.platform_total + 1;
  platform_completed = bump completed t.platform_completed;
}
count_implementation framework completed t = record t {
  framework_total = t.framework_total + 1;
  framework_completed = bump completed t.framework_completed;
}
count_implementation in_code completed t = t

abbrev pub add_missing : TestStats → ℕ → ℕ
add_missing s n = if not s.not_applicable then n + s.missing else n

-- `_update_requirement_totals`, from what it reads of the requirement and its status
unfoldable pub update_totals :
    Implementation → Bool → Bool → TestStats → TestStats → TotalStats → TotalStats
unfolding count_implementation
update_totals kind completed implemented automated manual t =
    let t₁ = record t {
      total_requirements = t.total_requirements + 1;
      with_implementation = bump implemented t.with_implementation;
    } in
    let t₂ = count_implementation kind completed t₁ in
    record t₂ {
      completed_requirements = bump completed t₂.completed_requirements;
      missing_automated_tests = add_missing automated t₂.missing_automated_tests;
      missing_manual_tests = add_missing manual t₂.missing_manual_tests;
    }

unfoldable pub update_requirement_totals :
    RequirementData → RequirementStatus → TotalStats → TotalStats
unfolding update_totals
update_requirement_totals req st t =
    update_totals req.implementation st.completed (ltb 0 st.implementations) st.automated_tests
      st.manual_tests t

-- `StatisticsService`: the statistics by requirement, and the totals
pub record Statistics : Type 0 where
  pub requirement_stats : Dict UrnId RequirementStatus
  pub totals : TotalStats

module _ ⦃order : TieOrder⦄ where
  -- `_calculate_requirement_stats`
  unfoldable pub calculate_requirement_stats :
      Database → Bool → UrnId → RequirementData → Statistics → Result Statistics
  unfolding compute_requirement_status update_requirement_totals urn_id_eq
  calculate_requirement_stats db include_post_build k req s =
      compute_requirement_status db req include_post_build >>= (λ st. ok (record {
        requirement_stats = put s.requirement_stats k st;
        totals = update_requirement_totals req st s.totals;
      }))

  -- The loop over the requirements
  unfoldable pub calculate_all :
      Database → Bool → Dict UrnId RequirementData → Statistics → Result Statistics
  unfolding calculate_requirement_stats
  calculate_all db include_post_build [] s = ok s
  calculate_all db include_post_build ((k, req) ∷ reqs) s =
      calculate_requirement_stats db include_post_build k req s
      >>= calculate_all db include_post_build reqs

  -- `_calculate`, which the constructor runs
  unfoldable pub calculate : Database → Bool → Result Statistics
  unfolding calculate_all calculate_global_totals get_all_requirements get_all_svcs
      get_annotations_tests get_automated_test_results
  calculate db include_post_build =
      calculate_all db include_post_build (get_all_requirements db none none) (record {
        requirement_stats = [];
        totals =
            calculate_global_totals db (get_all_svcs db none none) (get_annotations_tests db none)
              (get_automated_test_results db) zero_totals;
      })
