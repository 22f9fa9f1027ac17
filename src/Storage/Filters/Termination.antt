-- ===== src/Storage/Filters/Termination.antt =====
-- The recursion over the imports ends, and keeps what a source itself declares.
use reqstool_client.Prelude.{
  string_eq, ◌∷◌, ◌==◌, zero, refl, arith, contains-filter, none, All-map, [], not, contains-append,
  some, filter, ◌<◌, true, ◌≡◌, Option, contains, All, List, ℕ, String, suc,
}
use reqstool_client.Prelude.Result.{ok, Result}
use reqstool_client.Storage.Filters.Selection.{
  is_import, minus, imports_item, process_filters_per_urn, finish, union, compile_if_given,
  over_filters, get_filtered_out, Sets, Condition, over_imports,
}
use reqstool_client.Models.Datasets.{import_edge, implementation_edge, IdFilters, Dict, EdgeType}
use reqstool_client.Models.UrnId.{urn_id_eq, UrnId}

-- Every expression is compiled.
abbrev pub IsCompiling : (String → String → Result Condition) → Type 0
IsCompiling compile = (expression urn : String) → (c : Condition) × (compile expression urn ≡ ok c)

-- Every source that is imported is known, and has a lower rank than the source that imports it.
abbrev pub IsDescending : (String → Type 0) → (String → ℕ) → ℕ → List (String × EdgeType) → Type 0
IsDescending IsKnown rank n edges =
    All (λ (e : String × EdgeType). is_import e.1 ≡ true → IsKnown e.0 × (rank e.0 < n)) edges

contains-union :
    (a b : List UrnId) (k : UrnId) → contains b k ≡ true → contains (union a b) k ≡ true
contains-union a b k h =
    rw
      (
        contains-append a (filter (λ j. not (contains a j)) b) k,
        contains-filter (λ j. not (contains a j)) b k,
      )
      (ground (arith, h))

over_imports-total :
    (process : String → Result Sets) (edges : List (String × EdgeType)) (sets : Sets)
    → All
        (λ (e : String × EdgeType). is_import e.1 ≡ true → (s : Sets) × (process e.0 ≡ ok s))
        edges
    → (s : Sets) × (over_imports process edges sets ≡ ok s)
unfolding over_imports
over_imports-total process [] sets h = (sets, refl)
over_imports-total process ((child, implementation_edge) ∷ edges) sets (e, h) =
    over_imports-total process edges sets h
over_imports-total process ((child, import_edge) ∷ edges) (kept, filtered_out) (now, h) =
    let (found, e) = now refl in
    let (s, p) =
      over_imports-total process edges (union kept found.0, union filtered_out found.1) h in
    (s, rw e p)

module _ (compile : String → String → Result Condition) (compiles : IsCompiling compile) where
  compile_if_given-total :
      (e : Option String) (urn : String)
      → (c : Option Condition) × (compile_if_given compile e urn ≡ ok c)
  compile_if_given-total none urn = (none, refl)
  compile_if_given-total (some e) urn = let (c, p) = compiles e urn in (some c, rw p refl)

  get_filtered_out-total :
      (accessible : List UrnId) (urn : String) (f : IdFilters)
      → (ks : List UrnId) × (get_filtered_out compile accessible urn f ≡ ok ks)
  unfolding get_filtered_out
  get_filtered_out-total accessible urn f =
      let (custom_imports, p) = compile_if_given-total f.custom_imports urn in
      let (custom_exclude, q) = compile_if_given-total f.custom_exclude urn in
      (
        filter (λ k. not (imports_item f custom_imports custom_exclude k)) accessible,
        rw (p, q) refl,
      )

  over_filters-total :
      (filters : Dict String IdFilters) (kept_imports filtered_out : List UrnId)
      → (ks : List UrnId) × (over_filters compile filters kept_imports filtered_out ≡ ok ks)
  unfolding over_filters
  over_filters-total [] kept_imports filtered_out = (filtered_out, refl)
  over_filters-total ((urn, f) ∷ filters) kept_imports filtered_out =
      let (found, p) = get_filtered_out-total (filter (λ k. k.urn == urn) kept_imports) urn f in
      let (ks, q) = over_filters-total filters kept_imports (union filtered_out found) in
      (ks, rw p q)

  module _ (edges : String → List (String × EdgeType))
      (filters : String → Result (Dict String IdFilters)) (own : String → List UrnId)
      (IsKnown : String → Type 0)
      (known : (urn : String) → IsKnown urn → (fs : Dict String IdFilters) × (filters urn ≡ ok fs))
      (rank : String → ℕ)
      (descends : (urn : String)
        → IsKnown urn
        → IsDescending IsKnown rank (rank urn) (edges urn)) where
    finish-total :
        (urn : String) (sets : Sets)
        → IsKnown urn
        → (s : Sets) × (finish compile edges filters own urn sets ≡ ok s)
          × ((k : UrnId) → contains (own urn) k ≡ true → contains s.0 k ≡ true)
    finish-total urn (kept, filtered_out) is_known =
        let (fs, p) = known urn is_known in
        let (gone, q) = over_filters-total fs kept [] in
        (
          (union (minus kept gone) (own urn), union gone filtered_out),
          rw (p, q) refl,
          λ k h. contains-union (minus kept gone) (own urn) k h,
        )

    -- Where the imports descend, the recursion ends on fuel above the rank of a source, and keeps the
    -- source's own items.
    pub process_filters_per_urn-total :
        (fuel : ℕ) (urn : String)
        → IsKnown urn
        → rank urn < fuel
        → (s : Sets) × (process_filters_per_urn compile edges filters own fuel urn ≡ ok s)
          × ((k : UrnId) → contains (own urn) k ≡ true → contains s.0 k ≡ true)
    unfolding process_filters_per_urn
    process_filters_per_urn-total zero urn is_known below = absurd (omega arith)
    process_filters_per_urn-total (suc fuel) urn is_known below =
        let process = process_filters_per_urn compile edges filters own fuel in
        let imports =
          All-map
            (λ (e : String × EdgeType). is_import e.1 ≡ true → IsKnown e.0 × (rank e.0 < rank urn))
            (λ (e : String × EdgeType). is_import e.1 ≡ true → (s : Sets) × (process e.0 ≡ ok s))
            (λ e lower i.
              let (child, less) = lower i in
              let (s, p, kept) = process_filters_per_urn-total fuel e.0 child (omega arith) in
              (s, p))
            (edges urn) (descends urn is_known) in
        let (imported, p) = over_imports-total process (edges urn) ([], []) imports in
        let (s, q, kept) = finish-total urn imported is_known in (s, rw p q, kept)
