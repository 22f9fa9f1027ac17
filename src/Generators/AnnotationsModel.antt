-- ===== src/Generators/AnnotationsModel.antt =====
-- model_generators/annotations_model_generator.py: `AnnotationsModelGenerator`, from the document that
-- the schema has accepted.
use reqstool_client.Models.Datasets.{put, has_key, AnnotationsData, Dict}
use reqstool_client.Models.UrnId.{UrnId, convert_id_to_urn_id, urn_id_eq}
use reqstool_client.Prelude.{none, if◌then◌else◌, ◌∷◌, some, [], List, String, Option}
use reqstool_client.Models.Entities.{AnnotationData}
use reqstool_client.Storage.Repository.{append_at}

-- A section of the document: the annotations of each id
abbrev pub Section : Type 0
Section = Dict String (List AnnotationData)

abbrev pub with_key : Dict UrnId (List AnnotationData) → UrnId → Dict UrnId (List AnnotationData)
with_key dictionary k = if has_key dictionary k then dictionary else put dictionary k []

-- `for value in values: dictionary[urn_id].append(ad)`
unfoldable pub append_annotations :
    List AnnotationData
    → UrnId
    → Dict UrnId (List AnnotationData)
    → Dict UrnId (List AnnotationData)
unfolding urn_id_eq
append_annotations [] k dictionary = dictionary
append_annotations (ad ∷ annotations) k dictionary =
    append_annotations annotations k (append_at dictionary k ad)

-- `__parse_annotations`: the annotations of two ids that are converted to the same id are joined.
unfoldable pub parse_annotations :
    String → Section → Dict UrnId (List AnnotationData) → Dict UrnId (List AnnotationData)
unfolding append_annotations convert_id_to_urn_id urn_id_eq
parse_annotations urn [] dictionary = dictionary
parse_annotations urn ((id, annotations) ∷ section) dictionary =
    let k = convert_id_to_urn_id urn id in
    parse_annotations urn section (append_annotations annotations k (with_key dictionary k))

abbrev section_of : Option Section → Section
section_of none = []
section_of (some section) = section

-- `__generate`, after the schema
unfoldable pub generate_annotations : String → Option Section → Option Section → AnnotationsData
unfolding parse_annotations
generate_annotations urn tests implementations = record {
  implementations = parse_annotations urn (section_of implementations) [];
  tests = parse_annotations urn (section_of tests) [];
}
