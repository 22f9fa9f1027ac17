-- ===== src/Services/Statistics/VerdictLaws/Counting.antt =====
-- `_compute_test_stats`: how the tests of a requirement are counted.
use reqstool_client.Prelude.{
  refl, ◌∙◌, ◌-◌, all, ◌∷◌, if◌then◌else◌, All, length, [], true, arith, List, string_eq, ◌&&◌, ◌⊎◌,
  ◌≤◌, suc, eqb, false, ◌≡◌, ◌==◌, Bool, ℕ, ◌+◌,
}
use reqstool_client.Storage.Repository.{is_passed}
use reqstool_client.Services.Statistics.Records.{no_tests, TestStats, is_completed}
use reqstool_client.Services.Statistics.Verdict.{compute_test_stats, count_status, count_tests}
use reqstool_client.Models.Entities.{
  SvcData, skipped, failed, passed, TestRunStatus, missing, TestData,
}
use reqstool_client.Models.UrnId.{urn_id_eq}

-- A test with a result has a name.
abbrev pub IsNamed : TestData → Type 0
IsNamed t = ((t.fully_qualified_name == "") ≡ false) ⊎ (t.status ≡ missing)

abbrev pub test_passed : TestData → Bool
test_passed t = is_passed t.status

-- No test is missing, and so far each test of the total has passed or is still to be counted.
abbrev is_on_course : TestStats → ℕ → Bool
is_on_course st n = eqb st.missing 0 && eqb st.total (st.passed + n)

-- One round of the loop, from whether the test has no name and from its status
abbrev pub count : Bool → TestRunStatus → TestStats → TestStats
count unnamed s st = count_status s (if unnamed then record st { total = st.total - 1 } else st)

-- What a round changes
abbrev Round : TestRunStatus → TestStats → TestStats → ℕ → Type 0
Round s st r n =
    (is_on_course r n ≡ (is_on_course st (suc n) && is_passed s))
    × (r.missing ≡ 0 → r.passed + n ≤ r.total)
    × (r.not_applicable ≡ st.not_applicable)
    × (r.passed + r.failed + r.skipped + r.missing
        ≡ suc (st.passed + st.failed + st.skipped + st.missing))
    × (is_passed s ≡ true → r.passed ≡ suc st.passed)

count-Round :
    (unnamed : Bool) (s : TestRunStatus) (st : TestStats) (n : ℕ)
    → (unnamed ≡ false) ⊎ (s ≡ missing)
    → (st.missing ≡ 0 → st.passed + suc n ≤ st.total)
    → Round s st (count unnamed s st) n
count-Round false passed st n named h =
    (ground arith, ground arith, refl, omega arith, λ e. omega arith)
count-Round false failed st n named h = (ground arith, ground arith, refl, omega arith, λ e. cc)
count-Round false skipped st n named h = (ground arith, ground arith, refl, omega arith, λ e. cc)
count-Round false missing st n named h = (ground arith, ground arith, refl, omega arith, λ e. cc)
count-Round true missing st n named h = (ground arith, ground arith, refl, omega arith, λ e. cc)
count-Round true passed st n named h = absurd (ground arith)
count-Round true failed st n named h = absurd (ground arith)
count-Round true skipped st n named h = absurd (ground arith)

-- What the loop leaves, from what it started with
abbrev LoopResult : List TestData → TestStats → TestStats → Type 0
LoopResult tests st r =
    (is_on_course r 0 ≡ (is_on_course st (length tests) && all test_passed tests))
    × (r.not_applicable ≡ st.not_applicable)
    × (r.passed + r.failed + r.skipped + r.missing
        ≡ length tests + st.passed + st.failed + st.skipped + st.missing)
    × (all test_passed tests ≡ true → r.passed ≡ st.passed + length tests)

and_assoc : (a b c : Bool) → ((a && b) && c) ≡ (a && (b && c))
and_assoc a b c = ground arith

and-eq-true : (a b : Bool) → (a && b) ≡ true → (a ≡ true) × (b ≡ true)
and-eq-true a b h = ground arith

pub count_tests-nil : (st : TestStats) → count_tests [] st ≡ st
unfolding count_tests
count_tests-nil st = refl

pub count_tests-cons :
    (t : TestData) (tests : List TestData) (st : TestStats)
    → count_tests (t ∷ tests) st
      ≡ count_tests tests (count (t.fully_qualified_name == "") t.status st)
unfolding count_tests
count_tests-cons t tests st = refl

count_tests_lem :
    (tests : List TestData) (st : TestStats)
    → All IsNamed tests
    → (st.missing ≡ 0 → st.passed + length tests ≤ st.total)
    → LoopResult tests st (count_tests tests st)
count_tests_lem [] st named h =
    rw count_tests-nil (ground arith, refl, omega arith, λ e. omega arith)
count_tests_lem (t ∷ tests) st named h =
    let st' = count (t.fully_qualified_name == "") t.status st in
    let (e₀, e₁, e₂, e₃, e₄) =
      count-Round (t.fully_qualified_name == "") t.status st (length tests) named.0 h in
    let (f₀, f₁, f₂, f₃) = count_tests_lem tests st' named.1 e₁ in
    rw count_tests-cons (
      rw (f₀, e₀)
          (and_assoc (is_on_course st (suc (length tests))) (test_passed t)
            (all test_passed tests)),
      f₁ ∙ e₂,
      omega arith,
      λ e.
          let (a, b) = and-eq-true (test_passed t) (all test_passed tests) e in
          omega (arith, f₃ b, e₄ a),
    )

is_completed_of_course :
    (st : TestStats) (n : ℕ) (passing : Bool)
    → st.not_applicable ≡ false
    → is_on_course st 0 ≡ passing
    → (passing ≡ true → st.passed ≡ suc n)
    → is_completed st ≡ passing
unfolding is_completed
is_completed_of_course st n passing e f g = rw e (ground arith)

-- A list of tests is complete exactly if every one of them has passed.
pub is_completed-compute_test_stats :
    (t : TestData) (tests : List TestData) (svcs : List SvcData)
    → All IsNamed (t ∷ tests)
    → is_completed (compute_test_stats (t ∷ tests) svcs) ≡ all test_passed (t ∷ tests)
unfolding compute_test_stats
is_completed-compute_test_stats t tests svcs named =
    let st : TestStats = record no_tests { total = length (t ∷ tests) } in
    let (e₀, e₁, e₂, e₃) = count_tests_lem (t ∷ tests) st named (λ _. omega arith) in
    is_completed_of_course (count_tests (t ∷ tests) st) (length tests) (all test_passed (t ∷ tests))
      e₁ (rw e₀ (ground arith)) (λ e. omega (arith, e₃ e))
