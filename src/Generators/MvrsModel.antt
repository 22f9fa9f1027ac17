-- ===== src/Generators/MvrsModel.antt =====
-- model_generators/mvrs_model_generator.py: `MVRsModelGenerator`, from the document that the schema has
-- accepted.
use reqstool_client.Prelude.{◌∷◌, [], Bool, Option, List, String}
use reqstool_client.Generators.SourceLines.{span_of, SourceLines}
use reqstool_client.Models.UrnId.{UrnId, convert_id_to_urn_id, convert_ids_to_urn_id, urn_id_eq}
use reqstool_client.Models.Datasets.{put, MvrsData, Dict}
use reqstool_client.Models.Entities.{MvrData, Datetime}

-- An entry of `results`
pub record MvrEntry : Type 0 where
  pub id : String
  pub svc_ids : List String
  pub comment : Option String
  pub passed : Bool
  pub date : Option Datetime

module _ (source_lines : SourceLines) (urn : String) where
  unfoldable pub parse_mvr : MvrEntry → MvrData
  unfolding span_of convert_ids_to_urn_id convert_id_to_urn_id
  parse_mvr entry = record {
    id = convert_id_to_urn_id urn entry.id;
    comment = entry.comment;
    passed = entry.passed;
    date = entry.date;
    svc_ids = convert_ids_to_urn_id urn entry.svc_ids;
    span = span_of source_lines entry.id;
  }

  -- `__parse_mvrs`: of two results with the same id, the last one stays.
  unfoldable pub parse_mvrs : List MvrEntry → Dict UrnId MvrData → Dict UrnId MvrData
  unfolding parse_mvr urn_id_eq
  parse_mvrs [] r_result = r_result
  parse_mvrs (entry ∷ entries) r_result =
      let mvr = parse_mvr entry in parse_mvrs entries (put r_result mvr.id mvr)

  -- `__generate`, after the schema
  unfoldable pub generate_mvrs : List MvrEntry → MvrsData
  unfolding parse_mvrs
  generate_mvrs results = record { results = parse_mvrs results [] }
