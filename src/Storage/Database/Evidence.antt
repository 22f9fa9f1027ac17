-- ===== src/Storage/Database/Evidence.antt =====
-- storage/database.py: the inserts of annotations and test results, the parsing graph and the
-- metadata.
use reqstool_client.Prelude.{
  ℕ, ◌+◌, String, Bool, not, ◌&&◌, ◌||◌, Option, none, some, List, [], ◌∷◌, ◌++◌, ◌==◌, string_eq,
  any, contains, if◌then◌else◌,
}
use reqstool_client.Prelude.Result.{Result, ok, err, integrity_error}
use reqstool_client.Models.UrnId.{UrnId, urn_id_eq}
use reqstool_client.Models.Entities.{category_eq, AnnotationData, MetaData, TestRunStatus}
use reqstool_client.Models.Datasets.{EdgeType}
use reqstool_client.Storage.Table.{has, delete_key}
use reqstool_client.Storage.Database.Rows.{
  UrnMetadataRow, AnnotationRow, TestResultRow, EdgeRow, MetadataRow, metadata_key, urn_key,
}
use reqstool_client.Storage.Database.State.{Database, has_requirement, has_svc}

-- `CHECK (element_kind IN …)`
abbrev element_kinds : List String
element_kinds =
    "FIELD" ∷ "METHOD" ∷ "CLASS" ∷ "ENUM" ∷ "INTERFACE" ∷ "ANNOTATION_TYPE" ∷ "RECORD" ∷ []

abbrev same_annotation : UrnId → AnnotationData → AnnotationRow → Bool
same_annotation k a r =
    r.key == k && (r.element_kind == a.element_kind && r.fqn == a.fully_qualified_name)

-- `INSERT OR IGNORE` skips a duplicate and a kind that the check refuses; an unknown key is an
-- error, which the caller catches.
unfoldable pub ignores_annotation : List AnnotationRow → UrnId → AnnotationData → Bool
unfolding urn_id_eq string_eq
ignores_annotation rows k a =
    any (same_annotation k a) rows || not (contains element_kinds a.element_kind)

abbrev pub annotation_row : UrnId → AnnotationData → AnnotationRow
annotation_row k a = record { key = k; element_kind = a.element_kind; fqn = a.fully_qualified_name }

-- `insert_annotation_impl`
unfoldable pub insert_annotation_impl : UrnId → AnnotationData → Database → Database
unfolding urn_id_eq
insert_annotation_impl req a db =
    if ignores_annotation db.annotations_impls req a || not (has_requirement db req)
    then db
    else record db { annotations_impls = db.annotations_impls ++ annotation_row req a ∷ [] }

-- `insert_annotation_test`
unfoldable pub insert_annotation_test : UrnId → AnnotationData → Database → Database
unfolding urn_id_eq
insert_annotation_test svc a db =
    if ignores_annotation db.annotations_tests svc a || not (has_svc db svc)
    then db
    else record db { annotations_tests = db.annotations_tests ++ annotation_row svc a ∷ [] }

abbrev pub not_result : String → String → List TestResultRow → List TestResultRow
not_result urn fqn [] = []
not_result urn fqn (r ∷ rows) =
    let rest = not_result urn fqn rows in if r.urn == urn && r.fqn == fqn then rest else r ∷ rest

-- `insert_test_result`: `INSERT OR REPLACE` deletes the old row and appends the new one.
unfoldable pub insert_test_result : String → String → TestRunStatus → Database → Database
unfolding string_eq
insert_test_result urn fqn status db = record db {
  test_results =
      not_result urn fqn db.test_results ++ record { urn = urn; fqn = fqn; status = status } ∷ [];
}

abbrev pub same_edge : String → String → EdgeRow → Bool
same_edge parent child r = r.parent_urn == parent && r.child_urn == child

-- `insert_parsing_graph_edge`: `INSERT OR IGNORE`
unfoldable pub insert_parsing_graph_edge : String → String → EdgeType → Database → Database
unfolding string_eq
insert_parsing_graph_edge parent child edge_type db =
    if any (same_edge parent child) db.parsing_graph then db else record db {
      parsing_graph =
          db.parsing_graph
          ++ record { parent_urn = parent; child_urn = child; edge_type = edge_type } ∷ [];
    }

-- The row that `insert_urn_metadata` writes.
abbrev pub urn_metadata_row : MetaData → Option String → Option String → ℕ → UrnMetadataRow
urn_metadata_row m location_type location_uri position = record {
  urn = m.urn;
  variant = m.variant;
  title = m.title;
  url = m.url;
  parse_position = position;
  location_type = location_type;
  location_uri = location_uri;
}

-- `insert_urn_metadata`
unfoldable pub insert_urn_metadata :
    MetaData → Option String → Option String → Database → Result Database
insert_urn_metadata m location_type location_uri db =
    if has urn_key db.urn_metadata m.urn
    then err integrity_error
    else ok (record db {
      urn_metadata =
          db.urn_metadata
          ++ urn_metadata_row m location_type location_uri db.next_parse_position ∷ [];
      next_parse_position = db.next_parse_position + 1;
    })

-- `set_metadata`: `INSERT OR REPLACE`
unfoldable pub set_metadata : String → String → Database → Database
unfolding string_eq
set_metadata k v db = record db {
  metadata = delete_key metadata_key k db.metadata ++ record { key = k; value = v } ∷ [];
}

abbrev find_value : String → List MetadataRow → Option String
find_value k [] = none
find_value k (r ∷ rows) = let rest = find_value k rows in if r.key == k then some r.value else rest

-- `get_metadata`
unfoldable pub get_metadata : Database → String → Option String
unfolding string_eq
get_metadata db k = find_value k db.metadata
