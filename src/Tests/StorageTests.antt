-- ===== src/Tests/StorageTests.antt =====
-- Tests of the database and its queries, and applications of their theorems.
use mathlib.Core.Option
use reqstool_client.Prelude.Result.{Result, ◌>>=◌, ok}
use reqstool_client.Prelude.{
  ◌||◌, ℕ, string_eq, ◌||◌, map, not, refl, all, ◌&&◌, some, length, any, [], ◌∷◌, true, false, ◌≡◌,
  ◌<>◌, List, Option, String,
}
use reqstool_client.Storage.Populator.{
  insert_results, populate_test_results, insert_all_tests, insert_all_impls, insert_tests,
  insert_impls, populate_annotations, populate_mvrs, populate_svcs, insert_all_mvrs,
  insert_all_svcs, insert_all_requirements, populate_from_raw_dataset,
}
use reqstool_client.Storage.Database.Integrity.{empty-IsConsistent, IsConsistent}
use reqstool_client.Storage.Database.{
  same_link, mvr_key, has_mvr, has_svc, has_requirement, Database, insert_test_result,
  ignores_annotation, insert_annotation_test, insert_annotation_impl, insert_mvr_link,
  insert_mvr_links, insert_mvr_row, insert_svc_link, insert_svc_links, insert_svc_row,
  insert_reference, insert_reference_ids, insert_references, insert_category, empty_database,
  insert_categories, insert_mvr, insert_svc, insert_requirement, insert_requirement_row, MvrRow,
}
use reqstool_client.Models.Entities.{category_dec, category_eq, to_second}
use reqstool_client.Storage.Repository.{
  get_superseded_mvrs_for_svc, row_to_mvr_data, get_effective_mvr_for_svc, candidates,
  class_test_data, in_class, is_passed,
}
use reqstool_client.Storage.Repository.EvidenceLaws.{class_test_data-status, is_missing, counts_for}
use reqstool_client.Tests.Sample.{table_order, svc_2, dated, sample, mvr_1, raw, mvr_row_of}
use reqstool_client.Storage.Repository.RankingLaws.{
  get_effective_mvr_for_svc_ambiguous, backwards, forwards, effective-IsVerdict, IsVerdict,
}
use reqstool_client.Storage.Repository.LikeLaws.{in_class-underscore}
use reqstool_client.Models.UrnId.{UrnId, urn_id_eq}
use reqstool_client.Storage.Table.{has}
use reqstool_client.Storage.Populator.Totality.{mvr_id, svc_id, requirement_id}
use reqstool_client.Models.Datasets.{values}
use reqstool_client.Storage.Populator.Source.{populate_from_raw_dataset-total, mvrs_in, svcs_in}

abbrev sizes : Result Database → Result (ℕ × ℕ × ℕ × ℕ)
sizes r = r >>= (λ db. ok (
  length db.requirements,
  length db.svc_requirement_links,
  length db.mvr_svc_links,
  length db.annotations_tests,
))

-- The link to the unknown requirement is left out.
populate_links : sizes (populate_from_raw_dataset "ms" raw empty_database) ≡ ok (2, 2, 1, 1)
unfolding populate_from_raw_dataset insert_requirement_row insert_requirement insert_categories
    insert_category insert_references insert_reference_ids insert_reference insert_svc
    insert_svc_row insert_svc_links insert_svc_link insert_mvr insert_mvr_row insert_mvr_links
    insert_mvr_link insert_all_requirements insert_all_svcs insert_all_mvrs insert_annotation_impl
    insert_annotation_test ignores_annotation insert_test_result populate_svcs populate_mvrs
    populate_annotations insert_impls insert_tests insert_all_impls insert_all_tests
    populate_test_results insert_results urn_id_eq string_eq category_eq category_dec
populate_links = refl

populate_from_raw_dataset-total_example :
    (db' : Database) × (populate_from_raw_dataset "ms" raw empty_database ≡ ok db')
    × ((j : UrnId)
        → has_requirement db' j ≡ (
            has_requirement empty_database j
            || has (requirement_id "ms") (values raw.requirements_data.requirements) j))
    × ((j : UrnId)
        → has_svc db' j ≡ (has_svc empty_database j || has (svc_id "ms") (svcs_in raw.svcs_data) j))
    × ((j : UrnId)
        → has_mvr db' j ≡ (has_mvr empty_database j || has (mvr_id "ms") (mvrs_in raw.mvrs_data) j))
    × IsConsistent db'
unfolding urn_id_eq category_eq category_dec
populate_from_raw_dataset-total_example =
    populate_from_raw_dataset-total "ms" raw empty_database empty-IsConsistent
      ((refl, (refl, tt)), (refl, (refl, tt))) (refl, (refl, tt))
      ((refl, (refl, tt)), (refl, (refl, tt))) ((refl, tt), (refl, tt))

effective-IsVerdict_example :
    ((k : UrnId)
      → has mvr_key (candidates sample.mvrs sample.mvr_svc_links svc_2) k
        ≡ (has_mvr sample k && any (same_link k svc_2) sample.mvr_svc_links))
    × (v : Option MvrRow) × (others : List MvrRow) × IsVerdict
        (candidates sample.mvrs sample.mvr_svc_links svc_2)
        v
        others
    × (get_effective_mvr_for_svc sample svc_2 ≡ Option.map (row_to_mvr_data sample) v)
    × (get_superseded_mvrs_for_svc sample svc_2 ≡ map (row_to_mvr_data sample) others)
effective-IsVerdict_example = effective-IsVerdict sample svc_2

abbrev first_row : MvrRow
first_row = mvr_row_of mvr_1 true (dated 5000000)

abbrev second_row : MvrRow
second_row = mvr_row_of (record { urn = "ms"; id = "MVR_0" }) false (dated 5999999)

-- Two verdicts of `SVC_2` in the same second
abbrev disputed : Database
disputed = record sample {
  mvrs = first_row ∷ second_row ∷ [];
  mvr_svc_links =
      record { owner = first_row.key; target = svc_2 }
      ∷ record { owner = second_row.key; target = svc_2 }
      ∷ [];
}

get_effective_mvr_for_svc_ambiguous_example :
    (get_effective_mvr_for_svc ⦃order = forwards⦄ disputed svc_2
      ≡ some (row_to_mvr_data disputed first_row))
    × (get_effective_mvr_for_svc ⦃order = backwards⦄ disputed svc_2
        ≡ some (row_to_mvr_data disputed second_row))
unfolding to_second candidates urn_id_eq string_eq
get_effective_mvr_for_svc_ambiguous_example =
    get_effective_mvr_for_svc_ambiguous disputed svc_2 first_row second_row
      (record { instant = 5000000 }) (record { instant = 5999999 }) refl refl refl refl

class_test_data-status_example :
    (is_passed (class_test_data sample "a.BTest").status ≡ (
      any (counts_for "a.BTest") sample.test_results
      && all (λ r. not (counts_for "a.BTest" r) || is_passed r.status) sample.test_results))
    × (is_missing (class_test_data sample "a.BTest").status
        ≡ not (any (counts_for "a.BTest") sample.test_results))
class_test_data-status_example = class_test_data-status sample "a.BTest"

in_class-underscore_example :
    in_class ("a.B" <> ("_" <> "T")) ("a.B" <> (String.◌∷◌ "x" ("T" <> ("." <> "c")))) ≡ true
in_class-underscore_example = in_class-underscore "a.B" "T" "c" "x"
