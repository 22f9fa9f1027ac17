-- ===== src/Tests/ModelTests.antt =====
-- Tests of the ids and applications of their theorems.
use reqstool_client.Prelude.{refl, ◌<>◌, ◌≡◌}
use reqstool_client.Models.UrnId.{
  convert_id_to_urn_id, assure_urn_id, split_once, str, instance_of, has_separator, UrnId,
}
use reqstool_client.Tests.Sample.{req_1}
use reqstool_client.Prelude.Result.{ok}
use reqstool_client.Models.UrnId.Laws.{
  convert_truncates, convert-eq-assure, instance_of-str, str-instance_of,
}

abbrev nested : UrnId
nested = record { urn = "ms"; id = "a:b" }

instance_of-str_example : instance_of (str nested) ≡ ok nested
unfolding has_separator
instance_of-str_example = instance_of-str nested refl

str-instance_of_example : str nested ≡ "ms:a:b"
unfolding instance_of split_once
str-instance_of_example = str-instance_of "ms:a:b" nested refl

convert-eq-assure_example :
    (convert_id_to_urn_id "ms" (str req_1) ≡ req_1) × (assure_urn_id "ms" (str req_1) ≡ ok req_1)
unfolding has_separator
convert-eq-assure_example = convert-eq-assure "ms" req_1 refl refl

convert_truncates_example :
    (convert_id_to_urn_id "ms" ("x" <> (":" <> ("a" <> (":" <> "b"))))
      ≡ record { urn = "x"; id = "a" })
    × (assure_urn_id "ms" ("x" <> (":" <> ("a" <> (":" <> "b"))))
        ≡ ok (record { urn = "x"; id = "a" <> (":" <> "b") }))
unfolding has_separator
convert_truncates_example = convert_truncates "ms" "x" "a" "b" refl refl
