-- ===== src/Commands/GroupBy/Laws.antt =====
-- commands/report/criterias/group_by.py: what the groups hold.
use reqstool_client.Prelude.{some, Option, ◌∷◌, [], ◌==◌, ◌∙◌}
use reqstool_client.Prelude.{
  none, true, ◌∙◌, [], if◌then◌else◌, ◌∷◌, List, String, Bool, ◌==◌, string_eq,
}
use reqstool_client.Models.Datasets.{Dict}
use reqstool_client.Models.Entities.{category_eq, Category, RequirementData}
use reqstool_client.Models.UrnId.{UrnId}
use reqstool_client.Storage.Database.{Database}
use mathlib.Core.Bool.{false}

-- The ids of a group, none if there is no such group
abbrev pub ids_of_group : Dict String (List UrnId) → String → List UrnId
ids_of_group [] g = []
ids_of_group ((name, ks) ∷ groups) g =
    let rest = ids_of_group groups g in if name == g then ks else rest

-- The ids of the requirements that have a group, in order
abbrev members : (RequirementData → String) → String → Dict UrnId RequirementData → List UrnId
members name g [] = []
members name g ((k, r) ∷ reqs) =
    let rest = members name g reqs in if name r == g then k ∷ rest else rest

-- The ids of the requirements with a property, in order
abbrev pub ids_with : (RequirementData → Bool) → Dict UrnId RequirementData → List UrnId
ids_with q [] = []
ids_with q ((k, r) ∷ reqs) = let rest = ids_with q reqs in if q r then k ∷ rest else rest

-- The category that comes first is this one.
abbrev pub begins_with : Category → List Category → Bool
begins_with c [] = false
begins_with c (d ∷ ds) = d == c

abbrev pub has_none : List Category → Bool
has_none [] = true
has_none (d ∷ ds) = false

-- The requirement is one of the initial urn.
abbrev pub is_initial : Option String → RequirementData → Bool
is_initial none r = false
is_initial (some urn) r = r.id.urn == urn
