-- ===== src/Services/Statistics/Verdict.antt =====
-- services/statistics_service.py: `compute_requirement_status` and its helpers.
use reqstool_client.Prelude.{
  ◌||◌, ◌&&◌, true, none, ◌-◌, map, ltb, not, false, any, filter, some, [], ◌==◌, ◌++◌, length,
  Bool, if◌then◌else◌, ◌∷◌, ℕ, string_eq, Option, List, ◌+◌,
}
use reqstool_client.Prelude.Result.{◌>>=◌, Result, ok, err, type_error}
use reqstool_client.Storage.Repository.{
  TieOrder, get_svcs_for_req, get_svc, get_effective_mvr_for_svc, get_annotations_tests_for_svc,
  get_test_results_for_annotations, get_annotations_impls_for_req,
}
use reqstool_client.Services.Statistics.Records.{
  TestStats, no_tests, is_completed, RequirementStatus,
}
use reqstool_client.Storage.Database.{Database}
use reqstool_client.Models.Entities.{
  not_applicable, framework, platform, configuration, in_code, skipped, failed, AnnotationData,
  passed, RequirementData, Implementation, missing, MvrData, SvcData, TestRunStatus, TestData,
  expects_automated_tests, expects_mvrs, is_build,
}
use reqstool_client.Models.UrnId.{UrnId, urn_id_eq}
use reqstool_client.Models.Datasets.{get, put, Dict}

abbrev pub add_found : Option SvcData → List SvcData → List SvcData
add_found none svcs = svcs
add_found (some s) svcs = s ∷ svcs

-- `[s for s in (repo.get_svc(sid) for sid in svcs_urn_ids) if s is not None]`
abbrev pub found_svcs : Database → List UrnId → List SvcData
found_svcs db [] = []
found_svcs db (k ∷ ks) = add_found (get_svc db k) (found_svcs db ks)

-- The SVCs that the verdict rests on
unfoldable pub verdict_svcs : Database → UrnId → Bool → List SvcData
unfolding get_svcs_for_req get_svc is_build
verdict_svcs db req include_post_build =
    let svcs = found_svcs db (get_svcs_for_req db req) in
    if include_post_build then svcs else filter (λ s. is_build s.phase) svcs

unfoldable pub should_have_mvrs : List SvcData → Bool
unfolding expects_mvrs
should_have_mvrs svcs = any (λ s. expects_mvrs s.verification) svcs

unfoldable pub should_have_automated_tests : List SvcData → Bool
unfolding expects_automated_tests
should_have_automated_tests svcs = any (λ s. expects_automated_tests s.verification) svcs

-- `{s.id: s for s in svcs}`
abbrev pub svc_map : List SvcData → Dict UrnId SvcData → Dict UrnId SvcData
svc_map [] d = d
svc_map (s ∷ svcs) d = svc_map svcs (put d s.id s)

-- `svc is not None and svc.verification in EXPECTS_MVRS`
abbrev pub wants_mvr : Option SvcData → Bool
wants_mvr none = false
wants_mvr (some s) = expects_mvrs s.verification

abbrev pub count_mvr : Option MvrData → TestStats → TestStats
count_mvr none st = record st { missing = st.missing + 1 }
count_mvr (some m) st =
    if m.passed
    then record st { total = st.total + 1; passed = st.passed + 1 }
    else record st { total = st.total + 1; failed = st.failed + 1 }

module _ ⦃order : TieOrder⦄ where
  -- The loop of `_compute_requirement_mvr_stats`
  unfoldable pub mvr_loop : Database → Dict UrnId SvcData → List UrnId → TestStats → TestStats
  unfolding get_effective_mvr_for_svc expects_mvrs urn_id_eq
  mvr_loop db svcs [] st = st
  mvr_loop db svcs (k ∷ ks) st =
      mvr_loop db svcs ks
        (if wants_mvr (get svcs k) then count_mvr (get_effective_mvr_for_svc db k) st else st)

  -- `_compute_requirement_mvr_stats`
  unfoldable pub compute_mvr_stats : Database → List UrnId → List SvcData → Bool → TestStats
  unfolding mvr_loop urn_id_eq
  compute_mvr_stats db ids svcs should_have =
      if not should_have
      then record no_tests { not_applicable = true }
      else mvr_loop db (svc_map svcs []) ids no_tests

-- The test that stands for an automated SVC without annotations
abbrev pub absent_test : TestData
absent_test = record { fully_qualified_name = ""; status = missing }

abbrev pub tests_of : Database → SvcData → List AnnotationData → List TestData
tests_of db s [] = if expects_automated_tests s.verification then absent_test ∷ [] else []
tests_of db s (a ∷ annotations) = get_test_results_for_annotations db (a ∷ annotations)

-- The loop of `_compute_requirement_automated_stats`
unfoldable pub collect_tests : Database → List SvcData → List TestData
unfolding get_annotations_tests_for_svc get_test_results_for_annotations expects_automated_tests
collect_tests db [] = []
collect_tests db (s ∷ svcs) =
    tests_of db s (get_annotations_tests_for_svc db s.id) ++ collect_tests db svcs

abbrev pub count_status : TestRunStatus → TestStats → TestStats
count_status passed st = record st { passed = st.passed + 1 }
count_status failed st = record st { failed = st.failed + 1 }
count_status skipped st = record st { skipped = st.skipped + 1 }
count_status missing st = record st { missing = st.missing + 1 }

-- A test without a name is taken off the total; each was counted in it before.
abbrev pub uncount_unnamed : TestData → TestStats → TestStats
uncount_unnamed t st =
    if t.fully_qualified_name == "" then record st { total = st.total - 1 } else st

-- The loop of `_compute_test_stats`
unfoldable pub count_tests : List TestData → TestStats → TestStats
unfolding string_eq
count_tests [] st = st
count_tests (t ∷ tests) st = count_tests tests (count_status t.status (uncount_unnamed t st))

abbrev pub count_automated : List SvcData → ℕ
count_automated [] = 0
count_automated (s ∷ svcs) =
    (if expects_automated_tests s.verification then 1 else 0) + count_automated svcs

-- `_compute_test_stats`
unfoldable pub compute_test_stats : List TestData → List SvcData → TestStats
unfolding count_tests expects_automated_tests
compute_test_stats [] svcs = record no_tests { missing = count_automated svcs }
compute_test_stats (t ∷ tests) svcs =
    count_tests (t ∷ tests) (record no_tests { total = length (t ∷ tests) })

-- `_compute_requirement_automated_stats`
unfoldable pub compute_automated_stats : Database → List SvcData → Bool → TestStats
unfolding collect_tests compute_test_stats
compute_automated_stats db svcs should_have =
    if not should_have
    then record no_tests { not_applicable = true }
    else compute_test_stats (collect_tests db svcs) svcs

-- `_check_implementation`; the enum has no other value.
unfoldable pub check_implementation : ℕ → Implementation → Result Bool
check_implementation n in_code = ok (ltb 0 n)
check_implementation n configuration = if ltb 0 n then err type_error else ok true
check_implementation n platform = if ltb 0 n then err type_error else ok true
check_implementation n framework = if ltb 0 n then err type_error else ok true
check_implementation n not_applicable = if ltb 0 n then err type_error else ok true

module _ ⦃order : TieOrder⦄ where
  -- `compute_requirement_status`
  unfoldable pub compute_requirement_status :
      Database → RequirementData → Bool → Result RequirementStatus
  unfolding verdict_svcs should_have_mvrs should_have_automated_tests compute_mvr_stats
      compute_automated_stats check_implementation is_completed get_annotations_impls_for_req
  compute_requirement_status db req include_post_build =
      let svcs = verdict_svcs db req.id include_post_build in
      let mvrs = should_have_mvrs svcs in
      let automated = should_have_automated_tests svcs in
      let n = length (get_annotations_impls_for_req db req.id) in
      let mvr_stats = compute_mvr_stats db (map (λ (s : SvcData). s.id) svcs) svcs mvrs in
      let test_stats = compute_automated_stats db svcs automated in
      check_implementation n req.implementation >>= (λ implementation_ok. ok (record {
        completed =
            implementation_ok
            && (is_completed mvr_stats && (is_completed test_stats && (mvrs || automated)));
        implementations = n;
        implementation_type = req.implementation;
        automated_tests = test_stats;
        manual_tests = mvr_stats;
      }))
