-- ===== src/Services/Export/Selection.antt =====
-- Which items an export with ids holds.
use reqstool_client.Models.Datasets.{Dict, has_key}
use reqstool_client.Prelude.{
  refl, contains-append, inr, ==_iff, ap, [], sym, inl, if◌then◌else◌, ◌∙◌, false, Bool-cases, ◌∷◌,
  arith, true, ◌≡◌, any, contains, List, ◌||◌, ◌&&◌, ◌==◌,
}
use reqstool_client.Services.Export.{add, restrict, expand, add_known}
use reqstool_client.Models.UrnId.{urn_id_eq, UrnId}

pub contains-add :
    (ks : List UrnId) (k j : UrnId) → contains (add ks k) j ≡ (contains ks j || k == j)
contains-add ks k j = elim (Bool-cases (contains ks k)) [
  | inl known ↦ rw known (known_again ks k j known)
  | inr new ↦ rw (new, contains-append ks (k ∷ []) j) (ground arith)
]
  where
    known_again :
        (ks : List UrnId) (k j : UrnId)
        → contains ks k ≡ true
        → contains ks j ≡ (contains ks j || k == j)
    known_again ks k j known = elim (Bool-cases (k == j)) [
      | inl same ↦ rw (same, sym (ap (contains ks) ((==_iff k j).0 same)) ∙ known)
      | inr other ↦ rw other (ground arith)
    ]

module _ {V : Type 0} where
  pub contains-add_known :
      (ks : List UrnId) (lookup : Dict UrnId V) (kept : List UrnId) (j : UrnId)
      → contains (add_known ks lookup kept) j
        ≡ (contains kept j || has_key lookup j && contains ks j)
  unfolding add_known
  contains-add_known [] lookup kept j = ground arith
  contains-add_known (k ∷ ks) lookup kept j = elim (Bool-cases (has_key lookup k)) [
    | inl known ↦ rw known (
        contains-add_known ks lookup (add kept k) j
        ∙ rw (contains-add kept k j) (joined k ks lookup kept j known))
    | inr unknown ↦
        rw unknown (contains-add_known ks lookup kept j ∙ left_out k ks lookup kept j unknown)
  ]
    where
      joined :
          (k : UrnId) (ks : List UrnId) (lookup : Dict UrnId V) (kept : List UrnId) (j : UrnId)
          → has_key lookup k ≡ true
          → ((contains kept j || k == j) || has_key lookup j && contains ks j)
            ≡ (contains kept j || has_key lookup j && contains (k ∷ ks) j)
      joined k ks lookup kept j known = elim (Bool-cases (k == j)) [
        | inl same ↦
            let there : has_key lookup j ≡ true =
              sym (ap (has_key lookup) ((==_iff k j).0 same)) ∙ known in
            ground (arith, there)
        | inr other ↦ ground arith
      ]

      left_out :
          (k : UrnId) (ks : List UrnId) (lookup : Dict UrnId V) (kept : List UrnId) (j : UrnId)
          → has_key lookup k ≡ false
          → (contains kept j || has_key lookup j && contains ks j)
            ≡ (contains kept j || has_key lookup j && contains (k ∷ ks) j)
      left_out k ks lookup kept j unknown = elim (Bool-cases (k == j)) [
        | inl same ↦
            let absent : has_key lookup j ≡ false =
              sym (ap (has_key lookup) ((==_iff k j).0 same)) ∙ unknown in
            ground (arith, absent)
        | inr other ↦ ground arith
      ]

  pub contains-expand :
      (related : UrnId → List UrnId) (ks : List UrnId) (lookup : Dict UrnId V) (kept : List UrnId)
      (j : UrnId)
      → contains (expand related ks lookup kept) j
        ≡ (contains kept j || has_key lookup j && any (λ k. contains (related k) j) ks)
  unfolding expand
  contains-expand related [] lookup kept j = ground arith
  contains-expand related (k ∷ ks) lookup kept j =
      contains-expand related ks lookup (add_known (related k) lookup kept) j
      ∙ rw (contains-add_known (related k) lookup kept j) (ground arith)

  pub has_key-restrict :
      (kept : List UrnId) (d : Dict UrnId V) (k : UrnId)
      → has_key (restrict kept d) k ≡ (has_key d k && contains kept k)
  unfolding restrict
  has_key-restrict kept [] k = refl
  has_key-restrict kept ((j, v) ∷ d) k = elim (Bool-cases (contains kept j)) [
    | inl there ↦ rw (there, has_key-restrict kept d k) (here kept j k d there)
    | inr absent ↦ rw (absent, has_key-restrict kept d k) (gone kept j k d absent)
  ]
    where
      here :
          (kept : List UrnId) (j k : UrnId) (d : Dict UrnId V)
          → contains kept j ≡ true
          → (if j == k then true else has_key d k && contains kept k)
            ≡ ((if j == k then true else has_key d k) && contains kept k)
      here kept j k d there = elim (Bool-cases (j == k)) [
        | inl same ↦ rw (same, sym (ap (contains kept) ((==_iff j k).0 same)) ∙ there)
        | inr other ↦ rw other
      ]

      gone :
          (kept : List UrnId) (j k : UrnId) (d : Dict UrnId V)
          → contains kept j ≡ false
          → (has_key d k && contains kept k)
            ≡ ((if j == k then true else has_key d k) && contains kept k)
      gone kept j k d absent = elim (Bool-cases (j == k)) [
        | inl same ↦
            rw (same, sym (ap (contains kept) ((==_iff j k).0 same)) ∙ absent) (ground arith)
        | inr other ↦ rw other
      ]
