-- ===== src/Storage/Filters/Selection.antt =====
-- storage/database_filter_processor.py: which requirements and SVCs the filters keep. A Python set is
-- a list without repetitions; the order in which Python runs through one is not fixed.
use reqstool_client.Prelude.{
  zero, none, ◌&&◌, ◌||◌, contains, some, ◌==◌, if◌then◌else◌, true, any, false, not, ◌++◌, ℕ, ◌∷◌,
  Bool, [], map, filter, Option, string_eq, List, String, suc,
}
use reqstool_client.Models.UrnId.{urn_id_eq, UrnId}
use reqstool_client.Prelude.Result.{key_error, out_of_fuel, ◌>>=◌, err, ok, Result}
use reqstool_client.Storage.Database.{
  svc_key, set_metadata, get_metadata, requirement_key, EdgeRow, delete_requirement_row, Database,
}
use reqstool_client.Models.Datasets.{
  import_edge, implementation_edge, get, SvcsData, RawDataset, Dict, IdFilters, EdgeType,
}
use reqstool_client.Storage.Filters.Deletion.{delete_svcs, delete_requirements}

-- `a.update(b)` on sets
abbrev pub union : List UrnId → List UrnId → List UrnId
union a b = a ++ filter (λ k. not (contains a k)) b

-- `a - b` on sets
abbrev pub minus : List UrnId → List UrnId → List UrnId
minus a b = filter (λ k. not (contains b k)) a

-- `self._parsing_graph.get(urn, [])`
unfoldable pub children : Database → String → List (String × EdgeType)
unfolding string_eq
children db urn =
    map (λ (r : EdgeRow). (r.child_urn, r.edge_type))
      (filter (λ r. r.parent_urn == urn) db.parsing_graph)

-- The elements of an optional set: none and the empty set are both false.
abbrev pub elements : Option (List UrnId) → List UrnId
elements none = []
elements (some ks) = ks

abbrev is_cons : List UrnId → Bool
is_cons [] = false
is_cons (k ∷ ks) = true

-- What an expression says of an item, once it is compiled
abbrev pub Condition : Type 0
Condition = UrnId → Bool

abbrev is_given : Option Condition → Bool
is_given none = false
is_given (some c) = true

abbrev holds : Option Condition → UrnId → Bool
holds none k = false
holds (some c) k = c k

-- `imports_item`: excludes come before imports.
unfoldable pub imports_item : IdFilters → Option Condition → Option Condition → UrnId → Bool
unfolding urn_id_eq
imports_item f custom_imports custom_exclude k =
    if is_cons (elements f.urn_ids_excludes) || is_given custom_exclude
    then not (contains (elements f.urn_ids_excludes) k || holds custom_exclude k)
    else if is_cons (elements f.urn_ids_imports) || is_given custom_imports
    then contains (elements f.urn_ids_imports) k || holds custom_imports k
    else true

-- The sets of kept and of filtered out items
abbrev pub Sets : Type 0
Sets = List UrnId × List UrnId

-- The loop over the imports; implementations are passed over.
unfoldable pub over_imports : (String → Result Sets) → List (String × EdgeType) → Sets → Result Sets
unfolding urn_id_eq
over_imports process [] sets = ok sets
over_imports process ((child, implementation_edge) ∷ edges) sets = over_imports process edges sets
over_imports process ((child, import_edge) ∷ edges) (kept, filtered_out) =
    process child
    >>= (λ found. over_imports process edges (union kept found.0, union filtered_out found.1))

-- `ELToSQLCompiler.compile` of an expression for a urn, with the evaluation on a row
module _ (compile : String → String → Result Condition) where
  abbrev pub compile_if_given : Option String → String → Result (Option Condition)
  compile_if_given none urn = ok none
  compile_if_given (some expression) urn = compile expression urn >>= (λ c. ok (some c))

  -- `_get_filtered_out`
  unfoldable pub get_filtered_out : List UrnId → String → IdFilters → Result (List UrnId)
  unfolding imports_item
  get_filtered_out accessible urn f = compile_if_given f.custom_imports urn >>= (λ custom_imports.
      compile_if_given f.custom_exclude urn >>= (λ custom_exclude.
        ok (filter (λ k. not (imports_item f custom_imports custom_exclude k)) accessible)))

  -- The loop over the filters of a source
  unfoldable pub over_filters :
      Dict String IdFilters → List UrnId → List UrnId → Result (List UrnId)
  unfolding get_filtered_out string_eq urn_id_eq
  over_filters [] kept_imports filtered_out = ok filtered_out
  over_filters ((urn, f) ∷ filters) kept_imports filtered_out =
      get_filtered_out (filter (λ k. k.urn == urn) kept_imports) urn f
      >>= (λ found. over_filters filters kept_imports (union filtered_out found))

  -- `_process_req_filters_per_urn` and `_process_svc_filters_per_urn`, from the children, the filters
  -- and the own items of each urn; the fuel bounds the depth of the imports.
  module _ (edges : String → List (String × EdgeType))
      (filters : String → Result (Dict String IdFilters)) (own : String → List UrnId) where
    abbrev pub finish : String → Sets → Result Sets
    finish urn (kept_imports, filtered_out_imports) = filters urn >>= (λ fs.
        over_filters fs kept_imports [] >>= (λ filtered_out. ok (
          union (minus kept_imports filtered_out) (own urn),
          union filtered_out filtered_out_imports,
        )))

    unfoldable pub process_filters_per_urn : ℕ → String → Result Sets
    unfolding over_imports over_filters urn_id_eq
    process_filters_per_urn zero urn = err out_of_fuel
    process_filters_per_urn (suc fuel) urn =
        over_imports (process_filters_per_urn fuel) (edges urn) ([], []) >>= finish urn

abbrev pub filters_of_requirements : Option RawDataset → Result (Dict String IdFilters)
filters_of_requirements none = err key_error
filters_of_requirements (some rd) = ok rd.requirements_data.filters

abbrev filters_if_any : Option SvcsData → Dict String IdFilters
filters_if_any none = []
filters_if_any (some d) = d.filters

abbrev pub filters_of_svcs : Option RawDataset → Result (Dict String IdFilters)
filters_of_svcs none = err key_error
filters_of_svcs (some rd) = ok (filters_if_any rd.svcs_data)

abbrev pub requirement_keys : Database → List UrnId
requirement_keys db = map requirement_key db.requirements

-- `SELECT urn, id FROM requirements WHERE urn = ?`
unfoldable pub own_requirements : Database → String → List UrnId
unfolding string_eq
own_requirements db urn = filter (λ k. k.urn == urn) (requirement_keys db)

-- `SELECT urn, id FROM svcs WHERE urn = ?`
unfoldable pub own_svcs : Database → String → List UrnId
unfolding string_eq
own_svcs db urn = filter (λ k. k.urn == urn) (map svc_key db.svcs)

abbrev contains_urn : List String → String → Bool
contains_urn urns urn = any (λ u. u == urn) urns

abbrev pub is_import : EdgeType → Bool
is_import import_edge = true
is_import implementation_edge = false

-- The urns of the subquery of `_remove_implementation_requirements`
unfoldable pub only_implements : Database → Option String → String → Bool
unfolding string_eq
only_implements db initial_urn urn =
    any (λ r. r.child_urn == urn && not (is_import r.edge_type)) db.parsing_graph
    && (not (any (λ r. r.child_urn == urn && is_import r.edge_type) db.parsing_graph)
        && not (is_initial initial_urn))
  where
    is_initial : Option String → Bool
    is_initial none = false
    is_initial (some u) = u == urn

unfoldable pub delete_requirement_rows : List UrnId → Database → Database
unfolding delete_requirement_row
delete_requirement_rows [] db = db
delete_requirement_rows (k ∷ ks) db = delete_requirement_rows ks (delete_requirement_row k db)

-- `_remove_implementation_requirements`: one `DELETE`, with the cascades of the schema
unfoldable pub remove_implementation_requirements : Database → Database
unfolding only_implements delete_requirement_rows
remove_implementation_requirements db =
    delete_requirement_rows
      (filter (λ k. only_implements db (get_metadata db "initial_urn") k.urn) (requirement_keys db))
      db

-- `compile` is given the database and the table that a condition is evaluated on.
module _ (compile : Database → String → String → String → Result Condition) (fuel : ℕ)
    (raw : Dict String RawDataset) where
  -- `_apply_req_filters`
  unfoldable pub apply_req_filters : String → Database → Result Database
  unfolding process_filters_per_urn delete_requirements own_requirements children string_eq
      urn_id_eq
  apply_req_filters initial_urn db =
      process_filters_per_urn (compile db "requirements") (children db)
        (λ urn. filters_of_requirements (get raw urn)) (own_requirements db) fuel initial_urn
      >>= (λ sets. ok (delete_requirements (minus (requirement_keys db) sets.0) db))

  -- `_apply_svc_filters`
  unfoldable pub apply_svc_filters : String → Database → Result Database
  unfolding process_filters_per_urn delete_svcs own_svcs children string_eq urn_id_eq
  apply_svc_filters initial_urn db =
      process_filters_per_urn (compile db "svcs") (children db)
        (λ urn. filters_of_svcs (get raw urn)) (own_svcs db) fuel initial_urn
      >>= (λ sets. ok (delete_svcs sets.1 db))

  -- Without an initial urn its raw dataset is looked up in vain.
  unfoldable pub filter_from : Option String → Database → Result Database
  unfolding apply_req_filters apply_svc_filters set_metadata
  filter_from none db = err key_error
  filter_from (some initial_urn) db =
      apply_req_filters initial_urn db
      >>= apply_svc_filters initial_urn
      >>= (λ db'. ok (set_metadata "filtered" "true" db'))

  -- `apply_filters`
  unfoldable pub apply_filters : Database → Result Database
  unfolding remove_implementation_requirements filter_from
  apply_filters db =
      let left = remove_implementation_requirements db in
      filter_from (get_metadata left "initial_urn") left
