-- ===== src/Generators/CombinedRawDatasets/Distinct.antt =====
-- The traversal enters no urn twice.
use reqstool_client.Prelude.{
  inr, zero, contains-append, arith, string_eq, inl, [], ◌++◌, ℕ, false, contains, true, ◌≡◌,
  Bool-cases, List, ◌∷◌, ◌==◌, String, suc, any-append,
}
use reqstool_client.Models.Datasets.{import_edge, LocationRef, RawDataset, EdgeType}
use reqstool_client.Generators.CombinedRawDatasets.Imports.{
  sources_of, import_sources, over_sources, visit, urn_of, enter, Traversal,
}
use reqstool_client.Prelude.Result.{err, ok, ◌>>=◌, Result}
use reqstool_client.Storage.Table.{Unique-add, has, Unique}

abbrev pub self : String → String
self u = u

-- No urn stands twice in the parsing order, and each that stands in it was visited.
abbrev pub IsDistinct : Traversal → Type 0
IsDistinct t =
    Unique self t.parsing_order
    × ((u : String) → has self t.parsing_order u ≡ true → contains t.visited u ≡ true)

-- What holds of the value, if there is one
abbrev pub Holds {ℓ} : {A : Type ℓ} → (A → Type 0) → Result A → Type 0
Holds P (ok a) = P a
Holds P (err e) = Unit

pub bind-Holds {ℓ κ} :
    {A : Type ℓ} {B : Type κ} (P : A → Type 0) (Q : B → Type 0) (m : Result A) (f : A → Result B)
    → Holds P m
    → ((a : A) → P a → Holds Q (f a))
    → Holds Q (m >>= f)
bind-Holds P Q (ok a) f h k = k a h
bind-Holds P Q (err e) f h k = tt

pub Holds-any {ℓ} : {A : Type ℓ} (m : Result A) → Holds (λ a. Unit) m
Holds-any (ok a) = tt
Holds-any (err e) = tt

module _ (order seen : List String) (urn : String)
    (visited : (u : String) → has self order u ≡ true → contains seen u ≡ true) where
  is_new : contains seen urn ≡ false → has self order urn ≡ false
  is_new fresh = ground (arith, visited urn, fresh)

  visited-append :
      (u : String) → has self (order ++ urn ∷ []) u ≡ true → contains (seen ++ urn ∷ []) u ≡ true
  visited-append u h =
      rw (contains-append seen (urn ∷ []) u)
        (ground (arith, visited u, rw (any-append (λ r. self r == u) order (urn ∷ [])) at h))

enter-IsDistinct :
    (kind : EdgeType) (rd : RawDataset) (t : Traversal)
    → IsDistinct t
    → Holds IsDistinct (enter kind rd t)
unfolding enter
enter-IsDistinct kind rd t (u, v) = elim (Bool-cases (contains t.visited (urn_of rd))) [
  | inl seen ↦ rw seen tt
  | inr fresh ↦ rw fresh (
    Unique-add self t.parsing_order (urn_of rd) u
        (is_new t.parsing_order t.visited (urn_of rd) v fresh),
    visited-append t.parsing_order t.visited (urn_of rd) v,
  )
]

-- What is asked of the traversal of the sources below one
abbrev KeepsDistinct : (List LocationRef → Traversal → Result (List String × Traversal)) → Type 0
KeepsDistinct below =
    (locations : List LocationRef) (t : Traversal)
    → IsDistinct t
    → Holds (λ (found : List String × Traversal). IsDistinct found.1) (below locations t)

module _ (parse : LocationRef → Result RawDataset) (kind : EdgeType) where
  visit-IsDistinct :
      (below : List LocationRef → Traversal → Result (List String × Traversal))
      (location : LocationRef) (t : Traversal)
      → KeepsDistinct below
      → IsDistinct t
      → Holds
          (λ (found : String × Traversal). IsDistinct found.1)
          (visit parse kind below location t)
  unfolding visit
  visit-IsDistinct below location t keeps d =
      bind-Holds (λ rd. Unit) (λ (found : String × Traversal). IsDistinct found.1) (parse location)
        _ (Holds-any (parse location))
        (λ rd u.
          bind-Holds IsDistinct (λ (found : String × Traversal). IsDistinct found.1)
            (enter kind rd t) _ (enter-IsDistinct kind rd t d)
            (λ t₁ d₁.
              bind-Holds (λ (found : List String × Traversal). IsDistinct found.1)
                (λ (found : String × Traversal). IsDistinct found.1)
                (below (sources_of kind rd.requirements_data) t₁) _
                (keeps (sources_of kind rd.requirements_data) t₁ d₁) (λ found h. h)))

  over_sources-IsDistinct :
      (below : List LocationRef → Traversal → Result (List String × Traversal))
      → KeepsDistinct below
      → KeepsDistinct (over_sources parse kind below)
  unfolding over_sources
  over_sources-IsDistinct below keeps [] t d = d
  over_sources-IsDistinct below keeps (location ∷ locations) t d =
      bind-Holds (λ (found : String × Traversal). IsDistinct found.1)
        (λ (found : List String × Traversal). IsDistinct found.1)
        (visit parse kind below location t) _ (visit-IsDistinct below location t keeps d)
        (λ first d₁.
          bind-Holds (λ (found : List String × Traversal). IsDistinct found.1)
            (λ (found : List String × Traversal). IsDistinct found.1)
            (over_sources parse kind below locations first.1) _
            (over_sources-IsDistinct below keeps locations first.1 d₁) (λ rest h. h))

  -- Below a source of either kind
  traverse-IsDistinct :
      (fuel : ℕ) (locations : List LocationRef) (t : Traversal)
      → IsDistinct t
      → Holds
          (λ (found : List String × Traversal). IsDistinct found.1)
          (import_sources parse kind fuel locations t)
  unfolding import_sources
  traverse-IsDistinct zero locations t d = tt
  traverse-IsDistinct (suc fuel) locations t d =
      over_sources-IsDistinct (import_sources parse kind fuel) (traverse-IsDistinct fuel) locations
        t d

-- While sources are imported, no urn is entered a second time: if no urn stands twice in the parsing
-- order and each urn that stands in it was visited, as when the imports of the initial source begin,
-- then this still holds after them, unless the traversal raises.
pub import_sources-IsDistinct :
    (parse : LocationRef → Result RawDataset) (fuel : ℕ) (locations : List LocationRef)
    (t : Traversal)
    → IsDistinct t
    → Holds
        (λ (found : List String × Traversal). IsDistinct found.1)
        (import_sources parse import_edge fuel locations t)
import_sources-IsDistinct parse fuel locations t d =
    traverse-IsDistinct parse import_edge fuel locations t d
