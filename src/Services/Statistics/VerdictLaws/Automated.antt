-- ===== src/Services/Statistics/VerdictLaws/Automated.antt =====
-- `_compute_requirement_automated_stats`: the automated tests of the SVCs of a requirement.
use reqstool_client.Prelude.{
  all-append, All-append, not, ap, Bool-cases, ◌||◌, ◌++◌, find?-passes, ==_iff, inr, filter, find?,
  inl, Option-cases, map, String, refl, ◌∙◌, all, ◌∷◌, All, [], true, arith, List, string_eq, ◌&&◌,
  false, ◌≡◌, ◌==◌, Bool,
}
use reqstool_client.Storage.Repository.{
  get_annotations_tests_for_svc, get_test_results_for_annotations, to_annotation, resolve,
  method_test_data, class_test_data,
}
use reqstool_client.Services.Statistics.Records.{no_tests, is_completed}
use reqstool_client.Services.Statistics.Verdict.{
  compute_automated_stats, should_have_automated_tests, collect_tests, tests_of, compute_test_stats,
}
use reqstool_client.Models.Entities.{expects_automated_tests, AnnotationData, SvcData, TestData}
use reqstool_client.Storage.Database.{annotation_key, AnnotationRow, Database}
use reqstool_client.Models.UrnId.{urn_id_eq, UrnId}
use reqstool_client.Services.Statistics.VerdictLaws.Counting.{
  is_completed-compute_test_stats, IsNamed, test_passed,
}

-- Every test annotation of the database has a name.
abbrev pub HasNames : Database → Type 0
HasNames db = All (λ r. (r.fqn == "") ≡ false) db.annotations_tests

class_name : (db : Database) (fqn : String) → (class_test_data db fqn).fully_qualified_name ≡ fqn
unfolding class_test_data
class_name db fqn = refl

method_name : (db : Database) (fqn : String) → (method_test_data db fqn).fully_qualified_name ≡ fqn
unfolding method_test_data
method_name db fqn = elim (Option-cases (find? (λ r. r.fqn == fqn) db.test_results)) [
  | inl gone ↦ rw gone
  | inr (r, found) ↦
      rw found ((==_iff r.fqn fqn).0 (find?-passes (λ x. x.fqn == fqn) db.test_results found))
]

resolve_name :
    (db : Database) (a : AnnotationData)
    → (resolve db a).fully_qualified_name ≡ a.fully_qualified_name
unfolding resolve
resolve_name db a =
    ground (arith, class_name db a.fully_qualified_name, method_name db a.fully_qualified_name)

named-annotations :
    (k : UrnId) (rows : List AnnotationRow)
    → All (λ r. (r.fqn == "") ≡ false) rows
    → All
        (λ a. (a.fully_qualified_name == "") ≡ false)
        (map to_annotation (filter (λ r. annotation_key r == k) rows))
named-annotations k [] h = tt
named-annotations k (r ∷ rows) h = ground (arith, named-annotations k rows h.1)

IsNamed-resolved :
    (db : Database) (annotations : List AnnotationData)
    → All (λ a. (a.fully_qualified_name == "") ≡ false) annotations
    → All IsNamed (map (resolve db) annotations)
IsNamed-resolved db [] h = tt
IsNamed-resolved db (a ∷ annotations) h =
    (inl (rw (resolve_name db a) h.0), IsNamed-resolved db annotations h.1)

-- All the tests that an SVC contributes have passed; an automated SVC without annotations contributes
-- a missing one.
abbrev pub tests_ok : Database → SvcData → Bool
tests_ok db s = all test_passed (tests_of db s (get_annotations_tests_for_svc db s.id))

IsNamed-tests_of :
    (db : Database) (s : SvcData) (annotations : List AnnotationData)
    → All (λ a. (a.fully_qualified_name == "") ≡ false) annotations
    → All IsNamed (tests_of db s annotations)
unfolding get_test_results_for_annotations
IsNamed-tests_of db s [] h = elim (Bool-cases (expects_automated_tests s.verification)) [
  | inl wanted ↦ rw wanted (inr refl, tt)
  | inr other ↦ rw other tt
]
IsNamed-tests_of db s (a ∷ annotations) h = IsNamed-resolved db (a ∷ annotations) h

IsNamed-collect_tests :
    (db : Database) (svcs : List SvcData) → HasNames db → All IsNamed (collect_tests db svcs)
unfolding collect_tests get_annotations_tests_for_svc
IsNamed-collect_tests db [] h = tt
IsNamed-collect_tests db (s ∷ svcs) h =
    All-append IsNamed _ (collect_tests db svcs)
      (IsNamed-tests_of db s (get_annotations_tests_for_svc db s.id)
        (named-annotations s.id db.annotations_tests h))
      (IsNamed-collect_tests db svcs h)

collect_tests-cons :
    (db : Database) (s : SvcData) (svcs : List SvcData)
    → collect_tests db (s ∷ svcs)
      ≡ tests_of db s (get_annotations_tests_for_svc db s.id) ++ collect_tests db svcs
collect_tests-cons db s svcs = unfold collect_tests in refl

all-collect_tests :
    (db : Database) (svcs : List SvcData)
    → all test_passed (collect_tests db svcs) ≡ all (tests_ok db) svcs
all-collect_tests db [] = unfold collect_tests in refl
all-collect_tests db (s ∷ svcs) =
    ap (all test_passed) (collect_tests-cons db s svcs)
    ∙ all-append test_passed (tests_of db s (get_annotations_tests_for_svc db s.id))
        (collect_tests db svcs)
    ∙ ap (λ b. tests_ok db s && b) (all-collect_tests db svcs)

abbrev is_cons {ℓ} : {A : Type ℓ} → List A → Bool
is_cons [] = false
is_cons (x ∷ xs) = true

is_cons-tests_of :
    (db : Database) (s : SvcData) (annotations : List AnnotationData)
    → expects_automated_tests s.verification ≡ true
    → is_cons (tests_of db s annotations) ≡ true
unfolding get_test_results_for_annotations
is_cons-tests_of db s [] h = rw h
is_cons-tests_of db s (a ∷ annotations) h = refl

is_cons-append {ℓ} : {A : Type ℓ} (xs ys : List A) → is_cons (xs ++ ys) ≡ (is_cons xs || is_cons ys)
is_cons-append [] ys = refl
is_cons-append (x ∷ xs) ys = refl

or-true : (a b : Bool) → b ≡ true → (a || b) ≡ true
or-true a b h = ground arith

is_cons-collect_tests :
    (db : Database) (svcs : List SvcData)
    → should_have_automated_tests svcs ≡ true
    → is_cons (collect_tests db svcs) ≡ true
unfolding should_have_automated_tests
is_cons-collect_tests db [] h = cc
is_cons-collect_tests db (s ∷ svcs) h =
    rw (collect_tests-cons db s svcs, is_cons-append)
      (elim (Bool-cases (expects_automated_tests s.verification)) [
        | inl wanted ↦
            rw (is_cons-tests_of db s (get_annotations_tests_for_svc db s.id) wanted) refl
        | inr other ↦ or-true _ _ (is_cons-collect_tests db svcs (rw other at h))
      ])

is_completed_of_tests :
    (tests : List TestData) (svcs : List SvcData)
    → is_cons tests ≡ true
    → All IsNamed tests
    → is_completed (compute_test_stats tests svcs) ≡ all test_passed tests
is_completed_of_tests [] svcs c named = cc
is_completed_of_tests (t ∷ tests) svcs c named = is_completed-compute_test_stats t tests svcs named

is_completed_of_not_applicable : is_completed (record no_tests { not_applicable = true }) ≡ true
unfolding is_completed
is_completed_of_not_applicable = refl

-- The automated part of the verdict: if an SVC is automated, then all the tests of all the SVCs have
-- passed, and every automated SVC has some.
pub is_completed-compute_automated_stats :
    (db : Database) (svcs : List SvcData)
    → HasNames db
    → is_completed (compute_automated_stats db svcs (should_have_automated_tests svcs))
      ≡ (not (should_have_automated_tests svcs) || all (tests_ok db) svcs)
unfolding compute_automated_stats
is_completed-compute_automated_stats db svcs names =
    elim (Bool-cases (should_have_automated_tests svcs)) [
      | inl wanted ↦ rw wanted (
          is_completed_of_tests (collect_tests db svcs) svcs (is_cons-collect_tests db svcs wanted)
            (IsNamed-collect_tests db svcs names)
          ∙ all-collect_tests db svcs)
      | inr other ↦ rw other is_completed_of_not_applicable
    ]
