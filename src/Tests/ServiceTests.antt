-- ===== src/Tests/ServiceTests.antt =====
-- Tests of the statistics and applications of their theorems.
use reqstool_client.Prelude.{
  ◌&&◌, refl, none, length, ◌+◌, [], false, map, ◌≡◌, ◌∷◌, true, string_eq, List,
}
use reqstool_client.Services.Statistics.VerdictLaws.Completion.{
  completed_iff, is_verified, is_implemented, compute_requirement_status_raises, is_misplaced,
}
use reqstool_client.Services.Statistics.{
  zero_totals, verdict_svcs, code_reqs, code_completed, calculate, should_have_mvrs, Statistics,
  no_tests, compute_mvr_stats, count_tests, compute_test_stats, mvr_loop,
  compute_requirement_status, RequirementStatus,
}
use reqstool_client.Storage.Repository.{
  sort_rows, ranks_before, insert_ranked, ranked, candidates, get_annotations_impls_for_req,
  get_all_requirements, get_svc,
}
use reqstool_client.Models.Entities.{
  skipped, to_second, manual_test, missing, passed, automated_test, is_non_code, in_code, failed,
  SvcData, TestData,
}
use reqstool_client.Tests.Sample.{
  table_order, svc_2, test_passed_of, req_1, svc_1, requirement, svc, sample,
}
use reqstool_client.Models.UrnId.{urn_id_eq}
use reqstool_client.Prelude.Result.{type_error, ok, err}
use reqstool_client.Services.Statistics.VerdictLaws.Manual.{passes}
use reqstool_client.Services.Statistics.VerdictLaws.Tally.{
  compute_mvr_stats-tally, is_absent, compute_test_stats-tally, fails, of_status, wants_with,
  number,
}
use reqstool_client.Services.Statistics.TotalsLaws.Tallies.{
  calculate-IsCounted, is_complete_of, IsCounted,
}
use reqstool_client.Services.Statistics.TotalsLaws.Kinds.{is_of}

abbrev svcs : List SvcData
svcs = svc svc_1 automated_test (req_1 ∷ []) ∷ svc svc_2 manual_test (req_1 ∷ []) ∷ []

compute_requirement_status_raises_example :
    (is_misplaced sample (requirement req_1 in_code) ≡ true
      → compute_requirement_status sample (requirement req_1 in_code) false ≡ err type_error)
    × (is_misplaced sample (requirement req_1 in_code) ≡ false
        → (st : RequirementStatus) × (compute_requirement_status sample
              (requirement req_1 in_code)
              false
            ≡ ok st))
compute_requirement_status_raises_example =
    compute_requirement_status_raises sample (requirement req_1 in_code) false

abbrev expected : RequirementStatus
expected = record {
  completed = true;
  implementations = 1;
  implementation_type = in_code;
  automated_tests = record no_tests { total = 1; passed = 1 };
  manual_tests = record no_tests { total = 1; passed = 1 };
}

completed_iff_example : expected.completed ≡ (
    is_implemented (length (get_annotations_impls_for_req sample req_1)) in_code
    && is_verified sample (verdict_svcs sample req_1 false))
unfolding compute_requirement_status mvr_loop count_tests compute_test_stats candidates ranked
    sort_rows insert_ranked ranks_before to_second urn_id_eq string_eq
completed_iff_example =
    completed_iff sample (requirement req_1 in_code) false expected (refl, tt) refl

compute_mvr_stats-tally_example :
    let st =
      compute_mvr_stats sample (map (λ (s : SvcData). s.id) svcs) svcs (should_have_mvrs svcs) in
    (st.passed ≡ number (wants_with sample passes) svcs)
    × (st.failed ≡ number (wants_with sample fails) svcs)
    × (st.missing ≡ number (wants_with sample is_absent) svcs)
    × (st.total ≡ st.passed + st.failed)
unfolding get_svc urn_id_eq string_eq
compute_mvr_stats-tally_example = compute_mvr_stats-tally sample svcs (refl, (refl, tt))

abbrev failed_test : TestData
failed_test = record { fully_qualified_name = "a.BTest.d"; status = failed }

compute_test_stats-tally_example :
    let tests = failed_test ∷ test_passed_of "x" ∷ [] in
    let st = compute_test_stats tests svcs in
    (st.passed ≡ number (of_status passed) tests)
    × (st.failed ≡ number (of_status failed) tests)
    × (st.skipped ≡ number (of_status skipped) tests)
    × (st.missing ≡ number (of_status missing) tests)
compute_test_stats-tally_example =
    compute_test_stats-tally failed_test (test_passed_of "x" ∷ []) svcs

calculate-IsCounted_example :
    (s : Statistics) × (calculate sample false ≡ ok s)
    × IsCounted sample false (get_all_requirements sample none none) zero_totals s.totals
    × (code_reqs s.totals ≡ number (is_of in_code) (get_all_requirements sample none none))
    × (code_completed s.totals
        ≡ number (is_complete_of sample false in_code) (get_all_requirements sample none none))
unfolding get_all_requirements get_annotations_impls_for_req is_non_code urn_id_eq string_eq
calculate-IsCounted_example = calculate-IsCounted sample false (refl, (refl, tt))
