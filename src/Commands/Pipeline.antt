-- ===== src/Commands/Pipeline.antt =====
-- storage/pipeline.py: `build_database`, which composes the generator, the checks and the filters.
pub mod Laws
use reqstool_client.Storage.Database.{empty_database, Database}
use reqstool_client.Models.Datasets.{RawDataset, CombinedRawDataset, LocationRef}
use reqstool_client.Prelude.Result.{◌>>=◌, ok, Result}
use reqstool_client.Validators.Semantic.{ValidationErrorHolder}
use reqstool_client.Prelude.{true, Bool, ℕ, String, List}
use reqstool_client.Validators.Lifecycle.{validate, Warning}
use reqstool_client.Storage.Filters.{apply_filters, Condition}
use reqstool_client.Generators.CombinedRawDatasets.{populate_database, generate}
use reqstool_client.Validators.Semantic.References.{validate_post_parsing}
use mathlib.Core.Bool.{false}

-- What the pipeline yields, with what the validators found
pub record Build : Type 0 where
  pub database : Database
  pub combined : CombinedRawDataset
  pub errors : ValidationErrorHolder
  pub warnings : List Warning

module _ (parse : LocationRef → Result RawDataset)
    (compile : Database → String → String → String → Result Condition) (fuel : ℕ) where
  abbrev pub filter_if : Bool → CombinedRawDataset → Database → Result Database
  filter_if true crd db = apply_filters compile fuel crd.raw_datasets db
  filter_if false crd db = ok db

  -- `build_database`; the holder has the errors of the parsing.
  unfoldable pub build_database : LocationRef → Bool → ValidationErrorHolder → Result Build
  unfolding generate validate_post_parsing populate_database apply_filters validate
  build_database location filter_data holder = generate parse fuel location >>= (λ crd.
      populate_database crd empty_database >>= (λ db. filter_if filter_data crd db >>= (λ left.
        ok (record {
          database = left;
          combined = crd;
          errors = validate_post_parsing crd holder;
          warnings = validate left;
        }))))
