-- ===== src/Commands/Pipeline/Laws.antt =====
-- The pipeline yields a consistent database.
use reqstool_client.Storage.Filters.{
  requirement_keys, minus, delete_requirements, own_svcs, own_requirements, filters_of_svcs,
  filters_of_requirements, remove_implementation_requirements, children, process_filters_per_urn,
  apply_filters, filter_from, apply_svc_filters, apply_req_filters, delete_svc, Condition,
  delete_svcs,
}
use reqstool_client.Storage.Database.{empty_database, get_metadata, Database}
use reqstool_client.Prelude.{
  true, ◌↔◌, ◌≡◌, Bool, string_eq, none, some, [], Option, ◌∷◌, ℕ, String, List,
}
use reqstool_client.Prelude.Result.{err, ok, ◌>>=◌, Result}
use reqstool_client.Models.UrnId.{UrnId}
use reqstool_client.Storage.Database.Integrity.{
  empty-IsConsistent, bind-Leaves, IsConsistent, Leaves,
}
use reqstool_client.Models.Datasets.{LocationRef, CombinedRawDataset, get, RawDataset, Dict}
use reqstool_client.Storage.Filters.Exactness.{
  delete_requirements-requirements, delete_svc-IsConsistent,
}
use reqstool_client.Storage.Filters.Outcome.{remove_implementation_requirements-IsConsistent}
use reqstool_client.Generators.CombinedRawDatasets.PopulationLaws.{
  populate_database-IsConsistent, set_metadata-IsConsistent,
}
use reqstool_client.Generators.CombinedRawDatasets.Distinct.{Holds-any, bind-Holds, Holds}
use reqstool_client.Validators.Semantic.{ValidationErrorHolder}
use reqstool_client.Commands.Pipeline.{filter_if, Build, build_database}
use reqstool_client.Generators.CombinedRawDatasets.{populate_database, generate}
use reqstool_client.Validators.Semantic.References.Verdict.{validate_post_parsing_iff, IsFaultless}
use mathlib.Core.Bool.{false}
use reqstool_client.Validators.Lifecycle.Warnings.{validate-IsOrdered, IsOrdered}

delete_svcs-IsConsistent :
    (ks : List UrnId) (db : Database) → IsConsistent db → IsConsistent (delete_svcs ks db)
unfolding delete_svcs
delete_svcs-IsConsistent [] db c = c
delete_svcs-IsConsistent (k ∷ ks) db c =
    delete_svcs-IsConsistent ks (delete_svc k db) (delete_svc-IsConsistent k db c)

-- A result that is turned into a database
map-Leaves {ℓ} :
    {A : Type ℓ} (P : Database → Type 0) (m : Result A) (f : A → Database)
    → ((a : A) → P (f a))
    → Leaves P (m >>= (λ a. ok (f a)))
map-Leaves P (ok a) f h = h a
map-Leaves P (err e) f h = tt

module _ (compile : Database → String → String → String → Result Condition) (fuel : ℕ)
    (raw : Dict String RawDataset) where
  apply_req_filters-IsConsistent :
      (urn : String) (db : Database)
      → IsConsistent db
      → Leaves IsConsistent (apply_req_filters compile fuel raw urn db)
  unfolding apply_req_filters
  apply_req_filters-IsConsistent urn db c =
      map-Leaves IsConsistent
        (process_filters_per_urn (compile db "requirements") (children db)
          (λ u. filters_of_requirements (get raw u)) (own_requirements db) fuel urn)
        (λ sets. delete_requirements (minus (requirement_keys db) sets.0) db)
        (λ sets. (delete_requirements-requirements (minus (requirement_keys db) sets.0) db c).1)

  apply_svc_filters-IsConsistent :
      (urn : String) (db : Database)
      → IsConsistent db
      → Leaves IsConsistent (apply_svc_filters compile fuel raw urn db)
  unfolding apply_svc_filters
  apply_svc_filters-IsConsistent urn db c =
      map-Leaves IsConsistent
        (process_filters_per_urn (compile db "svcs") (children db)
          (λ u. filters_of_svcs (get raw u)) (own_svcs db) fuel urn)
        (λ sets. delete_svcs sets.1 db) (λ sets. delete_svcs-IsConsistent sets.1 db c)

  filter_from-IsConsistent :
      (o : Option String) (db : Database)
      → IsConsistent db
      → Leaves IsConsistent (filter_from compile fuel raw o db)
  unfolding filter_from
  filter_from-IsConsistent none db c = tt
  filter_from-IsConsistent (some urn) db c =
      bind-Leaves IsConsistent _ _
        (bind-Leaves IsConsistent _ _ (apply_req_filters-IsConsistent urn db c)
          (apply_svc_filters-IsConsistent urn))
        (λ x k. set_metadata-IsConsistent "filtered" "true" x k)

  apply_filters-IsConsistent :
      (db : Database) → IsConsistent db → Leaves IsConsistent (apply_filters compile fuel raw db)
  unfolding apply_filters
  apply_filters-IsConsistent db c =
      filter_from-IsConsistent (get_metadata (remove_implementation_requirements db) "initial_urn")
        (remove_implementation_requirements db)
        (remove_implementation_requirements-IsConsistent db c)

filter_if-IsConsistent :
    (compile : Database → String → String → String → Result Condition) (fuel : ℕ)
    (filter_data : Bool) (crd : CombinedRawDataset) (parse : LocationRef → Result RawDataset)
    (db : Database)
    → IsConsistent db
    → Leaves IsConsistent (filter_if parse compile fuel filter_data crd db)
filter_if-IsConsistent compile fuel true crd parse db c =
    apply_filters-IsConsistent compile fuel crd.raw_datasets db c
filter_if-IsConsistent compile fuel false crd parse db c = c

of_Leaves : (P : Database → Type 0) (r : Result Database) → Leaves P r → Holds P r
of_Leaves P (ok db) h = h
of_Leaves P (err e) h = tt

-- What is wanted of a build: a consistent database, and errors exactly for faults of the sources
abbrev pub IsSoundBuild : ValidationErrorHolder → Build → Type 0
IsSoundBuild holder b =
    IsConsistent b.database
    × ((b.errors.errors ≡ []) ↔ ((holder.errors ≡ []) × IsFaultless b.combined))
    × IsOrdered b.warnings

-- Whatever the sources, the filters and the fuel, a build that the pipeline yields has a consistent
-- database; it has no errors exactly if the parsing left none and the sources have no faults; and its
-- warnings are ordered by state.
pub build_database-IsSoundBuild :
    (parse : LocationRef → Result RawDataset)
    (compile : Database → String → String → String → Result Condition) (fuel : ℕ)
    (location : LocationRef) (filter_data : Bool) (holder : ValidationErrorHolder)
    → Holds (IsSoundBuild holder) (build_database parse compile fuel location filter_data holder)
unfolding build_database
build_database-IsSoundBuild parse compile fuel location filter_data holder =
    bind-Holds (λ crd. Unit) (IsSoundBuild holder) (generate parse fuel location) _
      (Holds-any (generate parse fuel location))
      (λ crd u.
        bind-Holds IsConsistent (IsSoundBuild holder) (populate_database crd empty_database) _
          (of_Leaves IsConsistent (populate_database crd empty_database)
            (populate_database-IsConsistent crd empty_database empty-IsConsistent))
          (λ db c.
            bind-Holds IsConsistent (IsSoundBuild holder)
              (filter_if parse compile fuel filter_data crd db) _
              (of_Leaves IsConsistent (filter_if parse compile fuel filter_data crd db)
                (filter_if-IsConsistent compile fuel filter_data crd parse db c))
              (λ left k. (k, validate_post_parsing_iff crd holder, validate-IsOrdered left))))
