-- ===== src/Services/Statistics/VerdictLaws/Tally.antt =====
-- `_compute_requirement_mvr_stats` and `_compute_test_stats`: what each of the counts is.
use reqstool_client.Prelude.{
  string_eq, sym, inr, inl, length, Bool-cases, refl, none, map, not, some, [], arith,
  if◌then◌else◌, false, true, ◌∷◌, ℕ, Option, List, Bool, ◌&&◌, ◌==◌, ◌+◌, ◌≡◌,
}
use reqstool_client.Models.Entities.{
  missing, skipped, expects_mvrs, failed, SvcData, passed, MvrData, TestData, TestRunStatus,
}
use reqstool_client.Services.Statistics.Verdict.{
  svc_map, mvr_loop, compute_mvr_stats, should_have_mvrs, count_tests, compute_test_stats,
}
use reqstool_client.Storage.Repository.{get_effective_mvr_for_svc, TieOrder}
use reqstool_client.Services.Statistics.Records.{no_tests, TestStats}
use reqstool_client.Storage.Database.{Database}
use reqstool_client.Services.Statistics.VerdictLaws.Counting.{
  count_tests-cons, count_tests-nil, count,
}
use reqstool_client.Models.UrnId.{UrnId}
use reqstool_client.Models.Datasets.{Dict}
use reqstool_client.Services.Statistics.VerdictLaws.Manual.{
  Wants-svc_map, mvr_loop-cons, mvr_loop-nil, id_of, passes, step, AreStored, Wants,
}

-- The number of elements with a property
abbrev pub number {ℓ} : {A : Type ℓ} → (A → Bool) → List A → ℕ
number p [] = 0
number p (x ∷ xs) = (if p x then 1 else 0) + number p xs

abbrev pub has_status : TestRunStatus → TestRunStatus → Bool
has_status passed passed = true
has_status failed failed = true
has_status skipped skipped = true
has_status missing missing = true
has_status s t = false

abbrev pub of_status : TestRunStatus → TestData → Bool
of_status s t = has_status s t.status

-- What a round adds to each count
abbrev Adds : TestRunStatus → TestStats → TestStats → Type 0
Adds s st r =
    (r.passed ≡ (if has_status passed s then 1 else 0) + st.passed)
    × (r.failed ≡ (if has_status failed s then 1 else 0) + st.failed)
    × (r.skipped ≡ (if has_status skipped s then 1 else 0) + st.skipped)
    × (r.missing ≡ (if has_status missing s then 1 else 0) + st.missing)

count-Adds : (unnamed : Bool) (s : TestRunStatus) (st : TestStats) → Adds s st (count unnamed s st)
count-Adds true passed st = (omega arith, omega arith, omega arith, omega arith)
count-Adds true failed st = (omega arith, omega arith, omega arith, omega arith)
count-Adds true skipped st = (omega arith, omega arith, omega arith, omega arith)
count-Adds true missing st = (omega arith, omega arith, omega arith, omega arith)
count-Adds false passed st = (omega arith, omega arith, omega arith, omega arith)
count-Adds false failed st = (omega arith, omega arith, omega arith, omega arith)
count-Adds false skipped st = (omega arith, omega arith, omega arith, omega arith)
count-Adds false missing st = (omega arith, omega arith, omega arith, omega arith)

count_tests-tally :
    (tests : List TestData) (st : TestStats)
    → let r = count_tests tests st in
      (r.passed ≡ number (of_status passed) tests + st.passed)
      × (r.failed ≡ number (of_status failed) tests + st.failed)
      × (r.skipped ≡ number (of_status skipped) tests + st.skipped)
      × (r.missing ≡ number (of_status missing) tests + st.missing)
count_tests-tally [] st = rw count_tests-nil (omega arith, omega arith, omega arith, omega arith)
count_tests-tally (t ∷ tests) st =
    let st₁ = count (t.fully_qualified_name == "") t.status st in
    let (a, b, c, d) = count-Adds (t.fully_qualified_name == "") t.status st in
    let (e, f, g, h) = count_tests-tally tests st₁ in
    rw count_tests-cons (omega arith, omega arith, omega arith, omega arith)

-- If there are tests, each count is the number of the tests with its status, whatever their names are.
pub compute_test_stats-tally :
    (t : TestData) (tests : List TestData) (svcs : List SvcData)
    → let st = compute_test_stats (t ∷ tests) svcs in
      (st.passed ≡ number (of_status passed) (t ∷ tests))
      × (st.failed ≡ number (of_status failed) (t ∷ tests))
      × (st.skipped ≡ number (of_status skipped) (t ∷ tests))
      × (st.missing ≡ number (of_status missing) (t ∷ tests))
unfolding compute_test_stats
compute_test_stats-tally t tests svcs =
    let (e, f, g, h) =
      count_tests-tally (t ∷ tests) (record no_tests { total = length (t ∷ tests) }) in
    (omega arith, omega arith, omega arith, omega arith)

-- The current verdict is a failure.
abbrev pub fails : Option MvrData → Bool
fails none = false
fails (some m) = not m.passed

abbrev pub is_absent : Option MvrData → Bool
is_absent none = true
is_absent (some m) = false

module _ ⦃order : TieOrder⦄ (db : Database) where
  -- The SVCs that expect a manual verdict and whose current one is of a kind
  abbrev pub wants_with : (Option MvrData → Bool) → SvcData → Bool
  wants_with p s = expects_mvrs s.verification && p (get_effective_mvr_for_svc db s.id)

  -- What a round adds to each count
  step-adds :
      (wanted : Bool) (k : UrnId) (st : TestStats)
      → let v = get_effective_mvr_for_svc db k in
        let r = step db wanted k st in
        (r.passed ≡ (if wanted && passes v then 1 else 0) + st.passed)
        × (r.failed ≡ (if wanted && fails v then 1 else 0) + st.failed)
        × (r.missing ≡ (if wanted && is_absent v then 1 else 0) + st.missing)
        × (r.total + st.passed + st.failed ≡ st.total + r.passed + r.failed)
  step-adds wanted k st = ground arith

  mvr_loop-tally :
      (d : Dict UrnId SvcData) (svcs : List SvcData) (st : TestStats)
      → Wants db d svcs
      → let r = mvr_loop db d (map (id_of db) svcs) st in
        (r.passed ≡ number (wants_with passes) svcs + st.passed)
        × (r.failed ≡ number (wants_with fails) svcs + st.failed)
        × (r.missing ≡ number (wants_with is_absent) svcs + st.missing)
        × (r.total + st.passed + st.failed ≡ st.total + r.passed + r.failed)
  mvr_loop-tally d [] st w =
      rw (mvr_loop-nil db) (omega arith, omega arith, omega arith, omega arith)
  mvr_loop-tally d (s ∷ svcs) st w =
      let wanted = expects_mvrs s.verification in
      let (a, b, c, t) = step-adds wanted s.id st in
      let (e, f, g, h) = mvr_loop-tally d svcs (step db wanted s.id st) w.1 in
      rw (mvr_loop-cons db d s (map (id_of db) svcs) st w.0)
        (omega arith, omega arith, omega arith, omega arith)

  none_wanted-tally :
      (p : Option MvrData → Bool) (svcs : List SvcData)
      → should_have_mvrs svcs ≡ false
      → number (wants_with p) svcs ≡ 0
  unfolding should_have_mvrs
  none_wanted-tally p [] h = refl
  none_wanted-tally p (s ∷ svcs) h = ground (arith, none_wanted-tally p svcs)

  -- If the SVCs are what the repository returns for their ids, then of those that expect a manual
  -- verdict the ones whose current verdict is a pass are counted as passed, the ones whose current
  -- verdict is a failure as failed, and the ones without a verdict as missing; the total is the
  -- number of verdicts.
  pub compute_mvr_stats-tally :
      (svcs : List SvcData)
      → AreStored db svcs
      → let st = compute_mvr_stats db (map (id_of db) svcs) svcs (should_have_mvrs svcs) in
        (st.passed ≡ number (wants_with passes) svcs)
        × (st.failed ≡ number (wants_with fails) svcs)
        × (st.missing ≡ number (wants_with is_absent) svcs)
        × (st.total ≡ st.passed + st.failed)
  unfolding compute_mvr_stats
  compute_mvr_stats-tally svcs a = elim (Bool-cases (should_have_mvrs svcs)) [
    | inl wanted ↦
        let (e, f, g, h) =
          mvr_loop-tally (svc_map svcs []) svcs no_tests (Wants-svc_map db svcs a) in
        rw wanted (omega arith, omega arith, omega arith, omega arith)
    | inr unwanted ↦ rw unwanted (
      sym (none_wanted-tally passes svcs unwanted),
      sym (none_wanted-tally fails svcs unwanted),
      sym (none_wanted-tally is_absent svcs unwanted),
      refl,
    )
  ]
