-- ===== src/Common/FilterParser.antt =====
-- common/filter_parser.py: the `filters` section of a requirements.yml or svcs.yml file.
pub mod Laws
use reqstool_client.Prelude.{
  contains, if◌then◌else◌, [], none, some, List, string_eq, Option, String, ◌∷◌,
}
use reqstool_client.Models.UrnId.{UrnId, check_ids_to_filter, convert_ids_to_urn_id, urn_id_eq}
use reqstool_client.Models.Datasets.{put, IdFilters, Dict}

-- The parts of a filter in the file, each of which may be missing
pub record IdsEntry : Type 0 where
  pub includes : Option (List String)
  pub excludes : Option (List String)

pub record CustomEntry : Type 0 where
  pub includes : Option String
  pub excludes : Option String

pub record FilterEntry : Type 0 where
  pub ids : Option IdsEntry
  pub custom : Option CustomEntry

-- `set(ids)`
unfoldable pub to_set : List UrnId → List UrnId
unfolding urn_id_eq
to_set [] = []
to_set (k ∷ ks) = let rest = to_set ks in if contains ks k then rest else k ∷ rest

abbrev pub parse_given : String → Option (List String) → Option (List UrnId)
parse_given urn none = none
parse_given urn (some ids) = some (to_set (convert_ids_to_urn_id urn (check_ids_to_filter ids urn)))

abbrev pub includes_of : Option IdsEntry → Option (List String)
includes_of none = none
includes_of (some e) = e.includes

abbrev pub excludes_of : Option IdsEntry → Option (List String)
excludes_of none = none
excludes_of (some e) = e.excludes

abbrev custom_includes_of : Option CustomEntry → Option String
custom_includes_of none = none
custom_includes_of (some e) = e.includes

abbrev custom_excludes_of : Option CustomEntry → Option String
custom_excludes_of none = none
custom_excludes_of (some e) = e.excludes

-- The body of the loop of `parse_filters`
unfoldable pub parse_filter : String → FilterEntry → IdFilters
unfolding to_set convert_ids_to_urn_id check_ids_to_filter
parse_filter urn e = record {
  urn_ids_imports = parse_given urn (includes_of e.ids);
  urn_ids_excludes = parse_given urn (excludes_of e.ids);
  custom_imports = custom_includes_of e.custom;
  custom_exclude = custom_excludes_of e.custom;
}

unfoldable pub parse_entries :
    Dict String FilterEntry → Dict String IdFilters → Dict String IdFilters
unfolding parse_filter string_eq
parse_entries [] r_filters = r_filters
parse_entries ((urn, e) ∷ entries) r_filters =
    parse_entries entries (put r_filters urn (parse_filter urn e))

-- `parse_filters`, after `validate_fn`
unfoldable pub parse_filters : Option (Dict String FilterEntry) → Dict String IdFilters
unfolding parse_entries
parse_filters none = []
parse_filters (some entries) = parse_entries entries []
