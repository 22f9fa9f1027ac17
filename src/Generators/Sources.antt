-- ===== src/Generators/Sources.antt =====
-- model_generators/combined_raw_datasets_generator.py: what is parsed of one source, from its files.
use mathlib.Core.Option
use reqstool_client.Generators.RequirementsModel.{generate_requirements, RequirementsFile}
use reqstool_client.Models.UrnId.{UrnId, urn_id_eq}
use reqstool_client.Prelude.{none, some, [], ◌∷◌, List, Bool, Option, String}
use reqstool_client.Models.Datasets.{RawDataset, SvcsData, put, Dict}
use reqstool_client.Generators.SvcsModel.{generate_svcs, SvcsFile}
use reqstool_client.Generators.SourceLines.{SourceLines}
use reqstool_client.Models.Entities.{TestData}
use reqstool_client.Generators.TestDataModel.{TestCase, parse_test_data}
use reqstool_client.Validators.Semantic.{ValidationErrorHolder}
use reqstool_client.Generators.MvrsModel.{generate_mvrs, MvrEntry}
use reqstool_client.Prelude.Result.{◌>>=◌, ok, Result}
use reqstool_client.Generators.AnnotationsModel.{generate_annotations, Section}

-- The files of a source, of which all but requirements.yml may be missing, and those that each pattern
-- for test results matches
pub record SourceFiles : Type 0 where
  pub requirements_yml : RequirementsFile
  pub svcs_yml : Option SvcsFile
  pub mvrs_yml : Option (List MvrEntry)
  pub annotations_yml : Option (Option Section × Option Section)
  pub test_results : List (List (Option (List TestCase)))

-- `tests |= results`
unfoldable pub update : Dict UrnId TestData → Dict UrnId TestData → Dict UrnId TestData
unfolding urn_id_eq
update tests [] = tests
update tests ((k, t) ∷ results) = update (put tests k t) results

module _ (is_version : String → Bool) (version_text : String → String)
    (re_match : String → String → Option String) (source_lines : SourceLines) where
  unfoldable pub union_tests :
      String → List (List (Option (List TestCase))) → Dict UrnId TestData → Dict UrnId TestData
  unfolding update parse_test_data
  union_tests urn [] tests = tests
  union_tests urn (files ∷ patterns) tests =
      union_tests urn patterns (update tests (parse_test_data re_match urn files []))

  abbrev svcs_of_source :
      String
      → Option SvcsFile
      → ValidationErrorHolder
      → Result (Option SvcsData × ValidationErrorHolder)
  svcs_of_source urn none holder = ok (none, holder)
  svcs_of_source urn (some file) holder =
      generate_svcs is_version version_text source_lines urn file holder
      >>= (λ (d, after). ok (some d, after))

  -- `__parse_source` and `__parse_source_other`
  unfoldable pub parse_source :
      Option String
      → Option String
      → SourceFiles
      → ValidationErrorHolder
      → Result (RawDataset × ValidationErrorHolder)
  unfolding generate_requirements generate_svcs generate_mvrs generate_annotations union_tests
  parse_source location_type location_uri files holder =
      generate_requirements is_version version_text source_lines files.requirements_yml holder
      >>= (λ (requirements, checked).
          let urn = requirements.metadata.urn in
          svcs_of_source urn files.svcs_yml checked >>= (λ (svcs, after). ok (
            record {
              requirements_data = requirements;
              svcs_data = svcs;
              annotations_data =
                  Option.map
                    (λ (sections : Option Section × Option Section).
                      generate_annotations urn sections.0 sections.1)
                    files.annotations_yml;
              automated_tests = some (record { tests = union_tests urn files.test_results [] });
              mvrs_data = Option.map (generate_mvrs source_lines urn) files.mvrs_yml;
              location_type = location_type;
              location_uri = location_uri;
            },
            after,
          )))
