-- ===== src/Generators/CombinedRawDatasets/Fuel.antt =====
-- The fuel that the traversal needs.
use reqstool_client.Prelude.{
  [], All-map, List, refl, ◌<◌, ap, All, arith, ℕ, ◌≢◌, ◌≡◌, ◌∷◌, String, suc, zero,
}
use reqstool_client.Models.Datasets.{
  implementation_edge, import_edge, RawDataset, LocationRef, EdgeType,
}
use reqstool_client.Prelude.Result.{◌>>=◌, ok, out_of_fuel, err, Result, Error}
use reqstool_client.Generators.CombinedRawDatasets.Imports.{
  import_sources, over_sources, visit, sources_of, Traversal, enter,
}

err-injective {ℓ} : {A : Type ℓ} (e d : Error) → ◌≡◌ {A = Result A} (err e) (err d) → e ≡ d
err-injective e d h = cc

bind-ne-out_of_fuel {ℓ κ} :
    {A : Type ℓ} {B : Type κ} (m : Result A) (f : A → Result B)
    → m ≢ err out_of_fuel
    → ((a : A) → m ≡ ok a → f a ≢ err out_of_fuel)
    → (m >>= f) ≢ err out_of_fuel
bind-ne-out_of_fuel (ok a) f h k = k a refl
bind-ne-out_of_fuel (err e) f h k = λ p. h (ap err (err-injective e out_of_fuel p))

enter-ne-out_of_fuel :
    (kind : EdgeType) (rd : RawDataset) (t : Traversal) → enter kind rd t ≢ err out_of_fuel
unfolding enter
enter-ne-out_of_fuel import_edge rd t = ground arith
enter-ne-out_of_fuel implementation_edge rd t = ground arith

module _ (parse : LocationRef → Result RawDataset) (kind : EdgeType) (rank : LocationRef → ℕ)
    (ends : (location : LocationRef) → parse location ≢ err out_of_fuel)
    (descends : (location : LocationRef) (rd : RawDataset)
      → parse location ≡ ok rd
      → All (λ l. rank l < rank location) (sources_of kind rd.requirements_data)) where
  visit-ne-out_of_fuel :
      (below : List LocationRef → Traversal → Result (List String × Traversal))
      (location : LocationRef) (t : Traversal)
      → ((locations : List LocationRef) (x : Traversal)
          → All (λ l. rank l < rank location) locations
          → below locations x ≢ err out_of_fuel)
      → visit parse kind below location t ≢ err out_of_fuel
  unfolding visit
  visit-ne-out_of_fuel below location t deeper =
      bind-ne-out_of_fuel (parse location) _ (ends location) (λ rd parsed.
        bind-ne-out_of_fuel (enter kind rd t) _ (enter-ne-out_of_fuel kind rd t) (λ t₁ entered.
          bind-ne-out_of_fuel (below (sources_of kind rd.requirements_data) t₁) _
            (deeper (sources_of kind rd.requirements_data) t₁ (descends location rd parsed))
            (λ found p. λ q. ground (arith, q))))

  over_sources-ne-out_of_fuel :
      (below : List LocationRef → Traversal → Result (List String × Traversal)) (n : ℕ)
      (locations : List LocationRef) (t : Traversal)
      → ((location : LocationRef) (t : Traversal)
          → rank location < n
          → visit parse kind below location t ≢ err out_of_fuel)
      → All (λ l. rank l < n) locations
      → over_sources parse kind below locations t ≢ err out_of_fuel
  unfolding over_sources
  over_sources-ne-out_of_fuel below n [] t visits h = λ q. cc
  over_sources-ne-out_of_fuel below n (location ∷ locations) t visits (less, h) =
      bind-ne-out_of_fuel (visit parse kind below location t) _ (visits location t less) (λ first p.
        bind-ne-out_of_fuel (over_sources parse kind below locations first.1) _
          (over_sources-ne-out_of_fuel below n locations first.1 visits h) (λ rest q r. cc))

  -- Where parsing ends and the sources below a source have a lower rank, fuel above the ranks is enough:
  -- the traversal returns what it found, or an error of the source, but never runs out.
  pub import_sources-ne-out_of_fuel :
      (n : ℕ) (locations : List LocationRef) (t : Traversal)
      → All (λ l. rank l < n) locations
      → import_sources parse kind (suc n) locations t ≢ err out_of_fuel
  unfolding import_sources
  import_sources-ne-out_of_fuel zero locations t h =
      over_sources-ne-out_of_fuel (import_sources parse kind zero) zero locations t
        (λ location x less. λ q. omega arith) h
  import_sources-ne-out_of_fuel (suc n) locations t h =
      over_sources-ne-out_of_fuel (import_sources parse kind (suc n)) (suc n) locations t
        (λ location x less.
          visit-ne-out_of_fuel (import_sources parse kind (suc n)) location x (λ ls y lower.
            import_sources-ne-out_of_fuel n ls y (
              All-map (λ l. rank l < rank location) (λ l. rank l < n) (λ l q. omega arith) ls
                lower)))
        h
