-- ===== src/Commands/GroupBy.antt =====
-- commands/report/criterias/group_by.py: `GroupByOrganizor`, up to the sorting of each group.
use reqstool_client.Prelude.{
  ◌==◌, none, [], if◌then◌else◌, some, ◌∷◌, String, Option, List, ◌++◌, ◌<>◌, string_eq,
}
pub mod Laws
pub mod Names
use reqstool_client.Models.Entities.{
  safety, flexibility, maintainability, security, reliability, interaction_capability,
  compatibility, performance_efficiency, functional_suitability, RequirementData, Category,
}
use reqstool_client.Models.UrnId.{UrnId}
use reqstool_client.Storage.Repository.{get_initial_urn, get_all_requirements}
use reqstool_client.Models.Datasets.{Dict}
use reqstool_client.Storage.Database.{Database}

-- `GroupbyOptions`
pub data GroupbyOption : Type 0 where
  by_initial_imports by_category : GroupbyOption

-- The value of a category
unfoldable pub category_value : Category → String
category_value functional_suitability = "functional-suitability"
category_value performance_efficiency = "performance-efficiency"
category_value compatibility = "compatibility"
category_value interaction_capability = "interaction-capability"
category_value reliability = "reliability"
category_value security = "security"
category_value maintainability = "maintainability"
category_value flexibility = "flexibility"
category_value safety = "safety"

-- `group_by_category`
unfoldable pub group_by_category : List Category → String
unfolding category_value
group_by_category [] = "No Category"
group_by_category (c ∷ cs) = category_value c

-- `group_by_initial_imported`
unfoldable pub group_by_initial_imported : UrnId → Option String → String
unfolding string_eq
group_by_initial_imported k none = "Imported"
group_by_initial_imported k (some initial_urn) =
    if k.urn == initial_urn then "Initial URN (" <> (initial_urn <> ")") else "Imported"

-- `group_by_functions`
unfoldable pub group_name : GroupbyOption → Option String → RequirementData → String
unfolding group_by_category group_by_initial_imported
group_name by_category initial_urn r = group_by_category r.categories
group_name by_initial_imports initial_urn r = group_by_initial_imported r.id initial_urn

-- `_add_req_to_group`
unfoldable pub add_req_to_group :
    String → UrnId → Dict String (List UrnId) → Dict String (List UrnId)
unfolding string_eq
add_req_to_group group k [] = (group, k ∷ []) ∷ []
add_req_to_group group k ((name, ks) ∷ groups) =
    let rest = add_req_to_group group k groups in
    if name == group then (name, ks ++ k ∷ []) ∷ groups else (name, ks) ∷ rest

unfoldable pub group_all :
    (RequirementData → String)
    → Dict UrnId RequirementData
    → Dict String (List UrnId)
    → Dict String (List UrnId)
unfolding add_req_to_group
group_all name [] groups = groups
group_all name ((k, r) ∷ reqs) groups = group_all name reqs (add_req_to_group (name r) k groups)

-- `_group`
unfoldable pub group : GroupbyOption → Database → Dict String (List UrnId)
unfolding group_name group_all get_all_requirements get_initial_urn
group option db =
    group_all (group_name option (get_initial_urn db)) (get_all_requirements db none none) []
