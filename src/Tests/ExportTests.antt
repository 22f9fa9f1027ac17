-- ===== src/Tests/ExportTests.antt =====
-- Tests of the export.
use reqstool_client.Prelude.{contains, refl, length, ◌≡◌, ◌∷◌, List, [], ℕ, ◌&&◌, not, string_eq}
use reqstool_client.Storage.Database.{set_metadata, Database}
use reqstool_client.Prelude.Result.{ok, ◌>>=◌, Result}
use reqstool_client.Services.Export.{given, everything, apply_id_filters, Export, to_export}
use reqstool_client.Storage.Repository.{get_initial_urn}
use reqstool_client.Tests.Sample.{sample}
use reqstool_client.Models.UrnId.{urn_id_eq, UrnId}
use reqstool_client.Models.Datasets.{has_key}
use reqstool_client.Services.Export.Outcome.{apply_id_filters-IsSelection, IsSelection, names}

abbrev named : Database
named = set_metadata "initial_urn" "ms" sample

-- The export of one requirement holds its SVCs with their MVRs, but not their test results.
abbrev sizes : Result Export → Result (ℕ × ℕ × ℕ × ℕ)
sizes r =
    r >>= (λ x. ok (length x.requirements, length x.svcs, length x.mvrs, length x.test_results))

to_export-requirement : sizes (to_export named ("REQ_1" ∷ []) []) ≡ ok (1, 2, 2, 0)
unfolding to_export set_metadata string_eq
to_export-requirement = refl

to_export-everything : sizes (to_export named [] []) ≡ ok (2, 2, 2, 1)
unfolding to_export set_metadata string_eq
to_export-everything = refl

apply_id_filters-IsSelection_example :
    (x : Export) × (reqs : List UrnId) × (svcs : List UrnId) × (chosen : List UrnId)
    × (apply_id_filters named ("REQ_1" ∷ []) [] (everything named) ≡ ok x)
    × ((k : UrnId)
        → contains reqs k
          ≡ (has_key (everything named).requirements k && names "ms" ("REQ_1" ∷ []) k))
    × ((k : UrnId) → contains svcs k ≡ (has_key (everything named).svcs k && names "ms" [] k))
    × ((k : UrnId)
        → IsSelection named
            (given [] && not (given ("REQ_1" ∷ [])))
            reqs
            svcs
            chosen
            (everything named)
            x
            k)
unfolding get_initial_urn set_metadata string_eq
apply_id_filters-IsSelection_example =
    apply_id_filters-IsSelection named "ms" ("REQ_1" ∷ []) [] (everything named) refl
