-- ===== src/Tests/CommandTests.antt =====
-- Tests of the pipeline and of the validate command.
use reqstool_client.Prelude.{◌∷◌, []}
use reqstool_client.Prelude.{
  refl, false, ◌≡◌, string_eq, ◌∷◌, true, [], String, eqb, ◌||◌, ◌&&◌, not, ◌≤◌,
}
use reqstool_client.Models.Entities.{category_eq}
use reqstool_client.Models.Datasets.{RawDataset, CombinedRawDataset, LocationRef}
use reqstool_client.Storage.Database.{Database}
use reqstool_client.Validators.Semantic.{ValidationErrorHolder}
use reqstool_client.Prelude.Result.{ok, Result}
use reqstool_client.Commands.Validate.{no_svc_defined, is_nil, run_validate}
use reqstool_client.Commands.Pipeline.{Build}
use reqstool_client.Tests.Sample.{req_2, raw, sample}
use reqstool_client.Storage.Filters.{Condition}
use reqstool_client.Models.UrnId.{urn_id_eq}
use reqstool_client.Commands.Validate.Laws.{run_validate-exit_code, is_covered}
use reqstool_client.Commands.GroupBy.{
  by_initial_imports, group_by_initial_imported, add_req_to_group, group_name, group_all, group,
}
use reqstool_client.Storage.Repository.{get_all_requirements, get_initial_urn}

abbrev here : LocationRef
here = record { uri = "." }

abbrev parse_raw : LocationRef → Result RawDataset
parse_raw l = ok raw

abbrev compile_any : Database → String → String → String → Result Condition
compile_any db table expression urn = ok (λ k. true)

abbrev no_error_yet : ValidationErrorHolder
no_error_yet = record { errors = [] }

abbrev combined_raw : CombinedRawDataset
combined_raw = record {
  initial_model_urn = "ms";
  urn_parsing_order = "ms" ∷ [];
  parsing_graph = [];
  raw_datasets = ("ms", raw) ∷ [];
}

abbrev built : Build
built = record { database = sample; combined = combined_raw; errors = no_error_yet; warnings = [] }

run_validate-exit_code_example :
    (eqb (run_validate true built).1 0
      ≡ (is_nil built.errors.errors && (not true || is_covered built.database)))
    × ((run_validate true built).1 ≤ 1)
run_validate-exit_code_example = run_validate-exit_code true built

-- The second requirement has no SVC, which is an error only when the command is strict.
run_validate-strict :
    (run_validate true built ≡ (no_svc_defined req_2 ∷ [], 1))
    × (run_validate false built ≡ (no_svc_defined req_2 ∷ [], 0))
unfolding run_validate
run_validate-strict = (refl, refl)

groups_of_sample :
    group by_initial_imports sample
    ≡ (
      "Imported",
      (record { urn = "ms"; id = "REQ_1" }) ∷ (record { urn = "ms"; id = "REQ_2" }) ∷ [],
    )
      ∷ []
unfolding group group_all group_name add_req_to_group group_by_initial_imported get_all_requirements
    get_initial_urn string_eq
groups_of_sample = refl
