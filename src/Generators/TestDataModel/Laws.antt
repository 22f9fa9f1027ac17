-- ===== src/Generators/TestDataModel/Laws.antt =====
-- Which status a test has when several test cases are of the same method.
use reqstool_client.Prelude.{Bool, ◌<>◌}
use mathlib.Core.List.{append_assoc, append-nil}
use reqstool_client.Prelude.{
  inr, ==_iff, inl, sym, Bool-cases, Option-cases, All-map, All-append, refl, ◌≤◌, false, ==_refl,
  contains-append, All, if◌then◌else◌, none, ltb, arith, true, ◌≡◌, some, [], ◌∷◌, contains, Option,
  String, List, Eq, ◌==◌, ◌++◌,
}
use reqstool_client.Models.Entities.{missing, passed, skipped, failed, TestData, TestRunStatus}
use reqstool_client.Models.UrnId.{urn_id_eq, UrnId}
use reqstool_client.Models.Datasets.{put, get, Dict}
use reqstool_client.Generators.TestDataModel.{
  replaces, parse_test_data, parse_testcases, status_of, test_id, status_priority, record_result,
  method_name, TestCase,
}

unfoldable pub status_dec : Discrete TestRunStatus
status_dec = hlevel

instance unfoldable pub status_eq : Eq TestRunStatus
status_eq = record { dec = status_dec }

-- A result that is kept for a test of these statuses: there is one if there is any status, it is named
-- as the test, it is one of the statuses, and none of them is worse.
abbrev pub IsWorst : UrnId → List TestRunStatus → Option TestData → Type 0
IsWorst k statuses none = statuses ≡ []
IsWorst k statuses (some t) =
    (t.fully_qualified_name ≡ k.id)
    × (contains statuses t.status ≡ true)
    × All (λ s. status_priority s ≤ status_priority t.status) statuses

get-put :
    (d : Dict UrnId TestData) (j : UrnId) (t : TestData) (k : UrnId)
    → get (put d j t) k ≡ (if j == k then some t else get d k)
get-put [] j t k = refl
get-put ((i, x) ∷ d) j t k = ground (arith, get-put d j t k)

contains_last :
    (statuses : List TestRunStatus) (s : TestRunStatus) → contains (statuses ++ s ∷ []) s ≡ true
contains_last statuses s = ground (arith, contains-append statuses (s ∷ []) s, ==_refl s)

first-IsWorst :
    (k : UrnId) (s : TestRunStatus)
    → IsWorst k (s ∷ []) (some (record { fully_qualified_name = k.id; status = s }))
first-IsWorst k s = (refl, contains_last [] s, (omega arith, tt))

worse-IsWorst :
    (k : UrnId) (statuses : List TestRunStatus) (t : TestData) (s : TestRunStatus)
    → IsWorst k statuses (some t)
    → ltb (status_priority t.status) (status_priority s) ≡ true
    → IsWorst k (statuses ++ s ∷ []) (some (record { fully_qualified_name = k.id; status = s }))
worse-IsWorst k statuses t s (name, among, worst) worse =
    let less : status_priority t.status ≤ status_priority s = ground arith in
    (
      refl,
      contains_last statuses s,
      All-append (λ (x : TestRunStatus). status_priority x ≤ status_priority s) statuses (s ∷ [])
          (All-map (λ (x : TestRunStatus). status_priority x ≤ status_priority t.status)
            (λ (x : TestRunStatus). status_priority x ≤ status_priority s) (λ x h. omega arith)
            statuses worst)
          (omega arith, tt),
    )

kept-IsWorst :
    (k : UrnId) (statuses : List TestRunStatus) (t : TestData) (s : TestRunStatus)
    → IsWorst k statuses (some t)
    → ltb (status_priority t.status) (status_priority s) ≡ false
    → IsWorst k (statuses ++ s ∷ []) (some t)
kept-IsWorst k statuses t s (name, among, worst) better =
    let less : status_priority s ≤ status_priority t.status = ground arith in
    (
      name,
      ground (arith, contains-append statuses (s ∷ []) t.status),
      All-append (λ (x : TestRunStatus). status_priority x ≤ status_priority t.status) statuses
          (s ∷ []) worst (less, tt),
    )

-- What is recorded for a test
record_result-same :
    (s : TestRunStatus) (d : Dict UrnId TestData) (k : UrnId) (statuses : List TestRunStatus)
    → IsWorst k statuses (get d k)
    → IsWorst k (statuses ++ s ∷ []) (get (record_result k s d) k)
unfolding record_result
record_result-same s d k statuses h = elim (Option-cases (get d k)) [
  | inl absent ↦
      let none_yet : statuses ≡ [] = rw absent at h in
      rw
        (
          absent,
          get-put d k (record { fully_qualified_name = k.id; status = s }) k,
          ==_refl k,
          none_yet,
        )
        (first-IsWorst k s)
  | inr (t, found) ↦ elim (Bool-cases (ltb (status_priority t.status) (status_priority s))) [
    | inl worse ↦
        rw
          (
            found,
            worse,
            get-put d k (record { fully_qualified_name = k.id; status = s }) k,
            ==_refl k,
          )
          (worse-IsWorst k statuses t s (rw found at h) worse)
    | inr better ↦ rw (found, better, found) (kept-IsWorst k statuses t s (rw found at h) better)
  ]
]

record_result-other :
    (j : UrnId) (s : TestRunStatus) (d : Dict UrnId TestData) (k : UrnId)
    → (j == k) ≡ false
    → get (record_result j s d) k ≡ get d k
unfolding record_result
record_result-other j s d k other = elim (Bool-cases (replaces (get d j) s)) [
  | inl put_there ↦
      rw (put_there, get-put d j (record { fully_qualified_name = j.id; status = s }) k, other)
  | inr kept ↦ rw kept
]

record_result-IsWorst :
    (j : UrnId) (s : TestRunStatus) (d : Dict UrnId TestData) (k : UrnId)
    (statuses : List TestRunStatus)
    → IsWorst k statuses (get d k)
    → IsWorst k (statuses ++ (if j == k then s ∷ [] else [])) (get (record_result j s d) k)
record_result-IsWorst j s d k statuses h = elim (Bool-cases (j == k)) [
  | inl same ↦ rw (same, (==_iff j k).0 same) (record_result-same s d k statuses h)
  | inr other ↦ rw (other, record_result-other j s d k other, append-nil statuses) h
]

-- A failure is worse than all else, and a skip than a success.
abbrev pub is_worse : TestRunStatus → TestRunStatus → Bool
is_worse failed failed = false
is_worse failed t = true
is_worse skipped failed = false
is_worse skipped skipped = false
is_worse skipped t = true
is_worse s t = false

is_worse_of_priority :
    (s t : TestRunStatus) → status_priority s ≤ status_priority t → is_worse s t ≡ false
unfolding status_priority
is_worse_of_priority failed failed h = refl
is_worse_of_priority failed passed h = absurd (omega arith)
is_worse_of_priority failed skipped h = absurd (omega arith)
is_worse_of_priority failed missing h = absurd (omega arith)
is_worse_of_priority skipped failed h = refl
is_worse_of_priority skipped skipped h = refl
is_worse_of_priority skipped passed h = absurd (omega arith)
is_worse_of_priority skipped missing h = absurd (omega arith)
is_worse_of_priority passed t h = refl
is_worse_of_priority missing t h = refl

-- A result that is kept for a test of these statuses: there is one if there is any status, it is named
-- as the test, it is one of the statuses, and none of them is worse.
abbrev pub IsKept : UrnId → List TestRunStatus → Option TestData → Type 0
IsKept k statuses none = statuses ≡ []
IsKept k statuses (some t) =
    (t.fully_qualified_name ≡ k.id)
    × (contains statuses t.status ≡ true)
    × All (λ s. is_worse s t.status ≡ false) statuses

worst-IsKept :
    (k : UrnId) (statuses : List TestRunStatus) (o : Option TestData)
    → IsWorst k statuses o
    → IsKept k statuses o
worst-IsKept k statuses none h = h
worst-IsKept k statuses (some t) (name, among, worst) = (
  name,
  among,
  All-map (λ (s : TestRunStatus). status_priority s ≤ status_priority t.status)
      (λ (s : TestRunStatus). is_worse s t.status ≡ false) (λ s. is_worse_of_priority s t.status)
      statuses worst,
)

-- The outcome of a test case with a failure or not, and skipped or not
abbrev pub outcome_of : Bool → Bool → TestRunStatus
outcome_of true was_skipped = failed
outcome_of false true = skipped
outcome_of false false = passed

status_of-outcome_of :
    (testcase : TestCase)
    → status_of testcase ≡ outcome_of testcase.has_failure testcase.has_skipped
unfolding status_of
status_of-outcome_of testcase = ground arith

module _ (re_match : String → String → Option String) (urn : String) where
  -- The method of a test case: that of a unit test, or else that of a karate scenario
  abbrev pub method_of : String → Option String
  method_of name = elim (re_match "^([a-zA-Z_$][a-zA-Z0-9_$]*).*$" name) [
    | none ↦ re_match "\\[\\d+(?:\\.\\d+)?:\\d+\\]\\s*(.+)" name
    | some methodname ↦ some methodname
  ]

  method_name-method_of :
      (testcase : TestCase) → method_name re_match urn testcase ≡ method_of testcase.name
  unfolding method_name
  method_name-method_of testcase = ground arith

  -- The status that a test case gives to the test, if it is one of that test
  abbrev status_for : UrnId → TestCase → Option String → List TestRunStatus
  status_for k testcase none = []
  status_for k testcase (some methodname) =
      if (record { urn = urn; id = testcase.classname <> ("." <> methodname) }) == k
      then outcome_of testcase.has_failure testcase.has_skipped ∷ []
      else []

  abbrev statuses_in : UrnId → List TestCase → List TestRunStatus
  statuses_in k [] = []
  statuses_in k (testcase ∷ testcases) =
      status_for k testcase (method_of testcase.name) ++ statuses_in k testcases

  -- The statuses of a test in all the files that are there
  abbrev pub statuses : UrnId → List (Option (List TestCase)) → List TestRunStatus
  statuses k [] = []
  statuses k (none ∷ files) = statuses k files
  statuses k (some testcases ∷ files) = statuses_in k testcases ++ statuses k files

  parse_testcases-IsWorst :
      (testcases : List TestCase) (d : Dict UrnId TestData) (k : UrnId)
      (before : List TestRunStatus)
      → IsWorst k before (get d k)
      → IsWorst k
          (before ++ statuses_in k testcases)
          (get (parse_testcases re_match urn testcases d) k)
  unfolding parse_testcases
  parse_testcases-IsWorst [] d k before h = rw (append-nil before) h
  parse_testcases-IsWorst (testcase ∷ testcases) d k before h =
      rw (method_name-method_of testcase) (elim (Option-cases (method_of testcase.name)) [
        | inl unknown ↦ rw unknown (parse_testcases-IsWorst testcases d k before h)
        | inr (methodname, known) ↦
            let j = test_id re_match urn testcase methodname in
            let s = outcome_of testcase.has_failure testcase.has_skipped in
            let here = if j == k then s ∷ [] else [] in
            rw
              (
                known,
                status_of-outcome_of testcase,
                sym (append_assoc before here (statuses_in k testcases)),
              )
              (parse_testcases-IsWorst testcases (record_result j s d) k (before ++ here)
                (record_result-IsWorst j s d k before h))
      ])

  parse_files-IsWorst :
      (files : List (Option (List TestCase))) (d : Dict UrnId TestData) (k : UrnId)
      (before : List TestRunStatus)
      → IsWorst k before (get d k)
      → IsWorst k (before ++ statuses k files) (get (parse_test_data re_match urn files d) k)
  unfolding parse_test_data
  parse_files-IsWorst [] d k before h = rw (append-nil before) h
  parse_files-IsWorst (none ∷ files) d k before h = parse_files-IsWorst files d k before h
  parse_files-IsWorst (some testcases ∷ files) d k before h =
      rw (sym (append_assoc before (statuses_in k testcases) (statuses k files))) (
        parse_files-IsWorst files (parse_testcases re_match urn testcases d) k
          (before ++ statuses_in k testcases) (parse_testcases-IsWorst testcases d k before h))

  -- Of the test cases of one test, in all the files of a pattern, one with the worst status is kept: a
  -- failure before a skip before a success; a test without test cases has no result.
  pub parse_test_data-IsKept :
      (files : List (Option (List TestCase))) (k : UrnId)
      → IsKept k (statuses k files) (get (parse_test_data re_match urn files []) k)
  parse_test_data-IsKept files k =
      worst-IsKept k (statuses k files) (get (parse_test_data re_match urn files []) k)
        (parse_files-IsWorst files [] k [] refl)
