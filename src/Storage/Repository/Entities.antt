-- ===== src/Storage/Repository/Entities.antt =====
-- storage/requirements_repository.py: the metadata and entity queries. `SELECT` returns the rows
-- in the order of insertion.
use mathlib.Core.Option
use reqstool_client.Prelude.{
  none, ◌&&◌, ◌||◌, not, eqb, some, ◌++◌, filter, ltb, ◌==◌, if◌then◌else◌, true, [], false, find?,
  map, ◌∷◌, Bool, List, string_eq, Option, String,
}
use reqstool_client.Models.Datasets.{Dict, put}
use reqstool_client.Storage.Database.{
  category_key, mvr_key, requirement_key, CategoryRow, owner_of, svc_key, target_of, urn_key,
  MvrRow, SvcRow, RequirementRow, EdgeRow, UrnMetadataRow, Database, get_metadata,
}
use reqstool_client.Models.UrnId.{UrnId, urn_id_eq}
use reqstool_client.Models.Entities.{
  LifecycleData, MvrData, RequirementData, SvcData, sort_order, LifecycleState, ReferenceData,
}

-- `get_initial_urn`
unfoldable pub get_initial_urn : Database → Option String
unfolding get_metadata
get_initial_urn db = get_metadata db "initial_urn"

abbrev is_true : Option String → Bool
is_true none = false
is_true (some v) = v == "true"

-- `is_filtered`
unfoldable pub is_filtered : Database → Bool
unfolding get_metadata string_eq
is_filtered db = is_true (get_metadata db "filtered")

abbrev insert_by_position : UrnMetadataRow → List UrnMetadataRow → List UrnMetadataRow
insert_by_position r [] = r ∷ []
insert_by_position r (s ∷ rows) =
    let later = insert_by_position r rows in
    if ltb s.parse_position r.parse_position then s ∷ later else r ∷ s ∷ rows

abbrev sort_by_position : List UrnMetadataRow → List UrnMetadataRow
sort_by_position [] = []
sort_by_position (r ∷ rows) = insert_by_position r (sort_by_position rows)

-- `get_urn_parsing_order`
unfoldable pub get_urn_parsing_order : Database → List String
get_urn_parsing_order db = map (λ r. urn_key r) (sort_by_position db.urn_metadata)

-- `get_urn_location`: the type and the uri
unfoldable pub get_urn_location : Database → String → Option (Option String × Option String)
unfolding string_eq
get_urn_location db urn =
    Option.map (λ (r : UrnMetadataRow). (r.location_type, r.location_uri))
      (find? (λ r. r.urn == urn) db.urn_metadata)

abbrev append_child : Dict String (List String) → String → String → Dict String (List String)
append_child [] parent child = (parent, child ∷ []) ∷ []
append_child ((urn, children) ∷ graph) parent child =
    let rest = append_child graph parent child in
    if urn == parent then (urn, children ++ child ∷ []) ∷ graph else (urn, children) ∷ rest

abbrev add_edges : List EdgeRow → Dict String (List String) → Dict String (List String)
add_edges [] graph = graph
add_edges (r ∷ rows) graph = add_edges rows (append_child graph r.parent_urn r.child_urn)

-- `get_import_graph`
unfoldable pub get_import_graph : Database → Dict String (List String)
unfolding string_eq
get_import_graph db = add_edges db.parsing_graph (map (λ r. (urn_key r, [])) db.urn_metadata)

-- One `ReferenceData` holds all the references; there is none without rows.
abbrev as_references : List UrnId → List ReferenceData
as_references [] = []
as_references (u ∷ ids) = record { requirement_ids = u ∷ ids } ∷ []

-- `_row_to_requirement_data`
unfoldable pub row_to_requirement_data : Database → RequirementRow → RequirementData
unfolding urn_id_eq
row_to_requirement_data db row = record {
  id = row.key;
  title = row.title;
  significance = row.significance;
  description = row.description;
  rationale = row.rationale;
  revision = row.revision;
  lifecycle = row.lifecycle;
  implementation = row.implementation;
  categories =
      map (λ (r : CategoryRow). r.category)
        (filter (λ r. category_key r == row.key) db.requirement_categories);
  references =
      as_references (map target_of (filter (λ l. owner_of l == row.key) db.requirement_references));
  span = row.span;
}

-- `_row_to_svc_data`
unfoldable pub row_to_svc_data : Database → SvcRow → SvcData
unfolding urn_id_eq
row_to_svc_data db row = record {
  id = row.key;
  title = row.title;
  description = row.description;
  verification = row.verification;
  phase = row.phase;
  instructions = row.instructions;
  revision = row.revision;
  lifecycle = row.lifecycle;
  requirement_ids = map target_of (filter (λ l. owner_of l == row.key) db.svc_requirement_links);
  span = row.span;
}

-- `_row_to_mvr_data`; the stored text of a date is read back as the date.
unfoldable pub row_to_mvr_data : Database → MvrRow → MvrData
unfolding urn_id_eq
row_to_mvr_data db row = record {
  id = row.key;
  comment = row.comment;
  passed = row.passed;
  date = row.date;
  svc_ids = map target_of (filter (λ l. owner_of l == row.key) db.mvr_svc_links);
  span = row.span;
}

-- `result[key] = …` for each row
abbrev pub to_dict {ℓ κ} :
    {R : Type ℓ} {V : Type κ} → (R → UrnId) → (R → V) → List R → Dict UrnId V → Dict UrnId V
to_dict key f [] result = result
to_dict key f (r ∷ rows) result = to_dict key f rows (put result (key r) (f r))

-- `urn = ?`, only if an urn that is not empty is given
abbrev matches_urn : Option String → UrnId → Bool
matches_urn none k = true
matches_urn (some urn) k = urn == "" || k.urn == urn

abbrev matches_state : Option LifecycleState → LifecycleData → Bool
matches_state none l = true
matches_state (some state) l = eqb (sort_order state) (sort_order l.state)

abbrev matches_passed : Option Bool → Bool → Bool
matches_passed none p = true
matches_passed (some true) p = p
matches_passed (some false) p = not p

-- `get_all_requirements`
unfoldable pub get_all_requirements :
    Database → Option String → Option LifecycleState → Dict UrnId RequirementData
unfolding row_to_requirement_data urn_id_eq string_eq sort_order
get_all_requirements db urn state =
    to_dict requirement_key (row_to_requirement_data db)
      (filter (λ r. matches_urn urn r.key && matches_state state r.lifecycle) db.requirements) []

-- `get_all_svcs`
unfoldable pub get_all_svcs : Database → Option String → Option LifecycleState → Dict UrnId SvcData
unfolding row_to_svc_data urn_id_eq string_eq sort_order
get_all_svcs db urn state =
    to_dict svc_key (row_to_svc_data db)
      (filter (λ r. matches_urn urn r.key && matches_state state r.lifecycle) db.svcs) []

-- `get_all_mvrs`
unfoldable pub get_all_mvrs : Database → Option String → Option Bool → Dict UrnId MvrData
unfolding row_to_mvr_data urn_id_eq string_eq
get_all_mvrs db urn passed =
    to_dict mvr_key (row_to_mvr_data db)
      (filter (λ r. matches_urn urn r.key && matches_passed passed r.passed) db.mvrs) []

-- `get_svc`
unfoldable pub get_svc : Database → UrnId → Option SvcData
unfolding row_to_svc_data urn_id_eq
get_svc db k = Option.map (row_to_svc_data db) (find? (λ r. svc_key r == k) db.svcs)

-- `get_svcs_for_req`
unfoldable pub get_svcs_for_req : Database → UrnId → List UrnId
unfolding urn_id_eq
get_svcs_for_req db k = map owner_of (filter (λ l. target_of l == k) db.svc_requirement_links)

-- `get_mvrs_for_svc`
unfoldable pub get_mvrs_for_svc : Database → UrnId → List UrnId
unfolding urn_id_eq
get_mvrs_for_svc db k = map owner_of (filter (λ l. target_of l == k) db.mvr_svc_links)
