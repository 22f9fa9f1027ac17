-- ===== src/Storage/Repository/EvidenceLaws.antt =====
-- What a test annotation resolves to.
use reqstool_client.Prelude.{if◌then◌else◌, ◌∷◌, [], ◌++◌, ◌==◌, ◌∙◌}
use reqstool_client.Prelude.{
  ◌∙◌, ◌++◌, filter, string_eq, ◌&&◌, any, map, not, false, refl, ◌∷◌, arith, true, all, [], ◌==◌,
  ◌≡◌, ◌||◌, Bool, List, String,
}
use reqstool_client.Storage.Repository.Like.{in_class}
use reqstool_client.Storage.Repository.Evidence.{
  to_annotation, resolve, class_test_data, is_passed, aggregate,
}
use reqstool_client.Storage.Database.{AnnotationRow, Database, TestResultRow}
use reqstool_client.Models.Entities.{TestData, missing, TestRunStatus}
use reqstool_client.Models.Datasets.{Dict}
use reqstool_client.Models.UrnId.{urn_id_eq, UrnId}

-- A result that counts for an annotated class: of one of its tests, or of its own name
abbrev pub counts_for : String → TestResultRow → Bool
counts_for fqn r = in_class fqn r.fqn || r.fqn == fqn

abbrev pub is_missing : TestRunStatus → Bool
is_missing missing = true
is_missing _ = false

abbrev non_empty {ℓ} : {A : Type ℓ} → List A → Bool
non_empty [] = false
non_empty (x ∷ xs) = true

is_passed-aggregate :
    (ss : List TestRunStatus) → is_passed (aggregate ss) ≡ (non_empty ss && all is_passed ss)
is_passed-aggregate [] = refl
is_passed-aggregate (s ∷ ss) = ground arith

is_missing-aggregate : (ss : List TestRunStatus) → is_missing (aggregate ss) ≡ not (non_empty ss)
is_missing-aggregate [] = refl
is_missing-aggregate (s ∷ ss) = ground arith

abbrev status_of : TestResultRow → TestRunStatus
status_of r = r.status

abbrev passes_if : (TestResultRow → Bool) → List TestResultRow → Bool
passes_if p rows = all (λ r. not (p r) || is_passed r.status) rows

module _ (p : TestResultRow → Bool) where
  non_empty-append :
      (rows : List TestResultRow) (ss : List TestRunStatus)
      → non_empty (map status_of (filter p rows) ++ ss) ≡ (any p rows || non_empty ss)
  non_empty-append [] ss = refl
  non_empty-append (r ∷ rows) ss = ground (arith, non_empty-append rows ss)

  non_empty-map :
      (rows : List TestResultRow) → non_empty (map status_of (filter p rows)) ≡ any p rows
  non_empty-map [] = refl
  non_empty-map (r ∷ rows) = ground (arith, non_empty-map rows)

  all-append :
      (rows : List TestResultRow) (ss : List TestRunStatus)
      → all is_passed (map status_of (filter p rows) ++ ss) ≡ (passes_if p rows && all is_passed ss)
  all-append [] ss = refl
  all-append (r ∷ rows) ss = ground (arith, all-append rows ss)

  all-map :
      (rows : List TestResultRow) → all is_passed (map status_of (filter p rows)) ≡ passes_if p rows
  all-map [] = refl
  all-map (r ∷ rows) = ground (arith, all-map rows)

module _ (p q : TestResultRow → Bool) where
  abbrev found : List TestResultRow → List TestRunStatus
  found rows = map status_of (filter p rows) ++ map status_of (filter q rows)

  any-or : (rows : List TestResultRow) → (any p rows || any q rows) ≡ any (λ r. p r || q r) rows
  any-or [] = refl
  any-or (r ∷ rows) = ground (arith, any-or rows)

  passes_if-or :
      (rows : List TestResultRow)
      → (passes_if p rows && passes_if q rows) ≡ passes_if (λ r. p r || q r) rows
  passes_if-or [] = refl
  passes_if-or (r ∷ rows) = ground (arith, passes_if-or rows)

  non_empty-found :
      (rows : List TestResultRow) → non_empty (found rows) ≡ any (λ r. p r || q r) rows
  non_empty-found rows = rw (non_empty-append p rows, non_empty-map q rows) (any-or rows)

  all-found :
      (rows : List TestResultRow) → all is_passed (found rows) ≡ passes_if (λ r. p r || q r) rows
  all-found rows = rw (all-append p rows, all-map q rows) (passes_if-or rows)

-- A class annotation is reported as passed exactly if some result counts for it and all that count
-- have passed, and as missing exactly if none counts.
pub class_test_data-status :
    (db : Database) (fqn : String)
    → (is_passed (class_test_data db fqn).status ≡ (
        any (counts_for fqn) db.test_results
        && all (λ r. not (counts_for fqn r) || is_passed r.status) db.test_results))
      × (is_missing (class_test_data db fqn).status ≡ not (any (counts_for fqn) db.test_results))
unfolding class_test_data
class_test_data-status db fqn =
    let p = λ (r : TestResultRow). in_class fqn r.fqn in
    let q = λ (r : TestResultRow). r.fqn == fqn in
    let rows = db.test_results in
    (
      is_passed-aggregate (found p q rows) ∙ rw (non_empty-found p q rows, all-found p q rows),
      is_missing-aggregate (found p q rows) ∙ rw (non_empty-found p q rows),
    )

-- The test data under a key, none if it is not there
abbrev pub entries_at : Dict UrnId (List TestData) → UrnId → List TestData
entries_at [] k = []
entries_at ((j, vs) ∷ d) k = let rest = entries_at d k in if j == k then vs else rest

-- The results of the annotations with this name that an SVC of this urn has
abbrev pub results_under : Database → UrnId → List AnnotationRow → List TestData
results_under db k [] = []
results_under db k (r ∷ rows) =
    let rest = results_under db k rows in
    if (record { urn = r.key.urn; id = r.fqn }) == k
    then resolve db (to_annotation r) ∷ rest
    else rest
