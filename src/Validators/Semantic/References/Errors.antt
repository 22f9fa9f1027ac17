-- ===== src/Validators/Semantic/References/Errors.antt =====
-- When a check of references finds no error, and which ids exist.
use reqstool_client.Prelude.{
  inr, string_eq, ==_iff, sym, ◌==◌, inl, refl, ◌∙◌, Bool-cases, ◌||◌, not, arith, ◌∷◌, all, [],
  any, true, ◌≡◌, Bool, String, List,
}
use reqstool_client.Models.Datasets.{keys, put, RawDataset, has_key, CombinedRawDataset, Dict}
use reqstool_client.Validators.Semantic.References.{
  tests_in, add_new, cases_in, check_tests, check_mvrs, check_svcs, check_ids, of_initial,
  svc_id_exists, requirement_id_exists, flatten_all_svcs, flatten_all_reqs,
}
use reqstool_client.Models.UrnId.{urn_id_eq, UrnId}
use reqstool_client.Validators.Semantic.{
  is_clean-append, is_clean, annotation_without_svc, mvr_without_svc, svc_without_requirement,
  ValidationError,
}
use reqstool_client.Models.Entities.{MvrData, SvcData, RequirementData}

has_key-put {ℓ} :
    {V : Type ℓ} (d : Dict UrnId V) (j : UrnId) (v : V) (k : UrnId)
    → has_key (put d j v) k ≡ (has_key d k || j == k)
has_key-put [] j v k = ground arith
has_key-put ((i, w) ∷ d) j v k = ground (arith, has_key-put d j v k)

known_same {ℓ} :
    {V : Type ℓ} (d : Dict UrnId V) (j : UrnId) (v : V) (items : Dict UrnId V) (k : UrnId)
    → has_key d j ≡ true
    → j ≡ k
    → (has_key d k || has_key items k) ≡ (has_key d k || has_key ((j, v) ∷ items) k)
known_same d j v items k known p = rw (sym p, known)

known_key {ℓ} :
    {V : Type ℓ} (d : Dict UrnId V) (j : UrnId) (v : V) (items : Dict UrnId V) (k : UrnId)
    → has_key d j ≡ true
    → (has_key d k || has_key items k) ≡ (has_key d k || has_key ((j, v) ∷ items) k)
known_key d j v items k known = elim (Bool-cases (j == k)) [
  | inl same ↦ known_same d j v items k known ((==_iff j k).0 same)
  | inr other ↦ rw other
]

has_key-add_new {ℓ} :
    {V : Type ℓ} (d items : Dict UrnId V) (k : UrnId)
    → has_key (add_new d items) k ≡ (has_key d k || has_key items k)
has_key-add_new d [] k = ground arith
has_key-add_new d ((j, v) ∷ items) k = elim (Bool-cases (has_key d j)) [
  | inl known ↦ rw known (has_key-add_new d items k ∙ known_key d j v items k known)
  | inr new ↦ rw new (has_key-add_new (put d j v) items k ∙ rw (has_key-put d j v k) (ground arith))
]

has_key-flatten_all_reqs :
    (rds : Dict String RawDataset) (d : Dict UrnId RequirementData) (k : UrnId)
    → has_key (flatten_all_reqs rds d) k ≡ (
        has_key d k
        || any (λ (e : String × RawDataset). has_key e.1.requirements_data.requirements k) rds)
unfolding flatten_all_reqs
has_key-flatten_all_reqs [] d k = ground arith
has_key-flatten_all_reqs ((u, rd) ∷ rds) d k =
    has_key-flatten_all_reqs rds (add_new d rd.requirements_data.requirements) k
    ∙ rw (has_key-add_new d rd.requirements_data.requirements k) (ground arith)

has_key-flatten_all_svcs :
    (rds : Dict String RawDataset) (d : Dict UrnId SvcData) (k : UrnId)
    → has_key (flatten_all_svcs rds d) k
      ≡ (has_key d k || any (λ (e : String × RawDataset). has_key (cases_in e.1.svcs_data) k) rds)
unfolding flatten_all_svcs
has_key-flatten_all_svcs [] d k = ground arith
has_key-flatten_all_svcs ((u, rd) ∷ rds) d k =
    has_key-flatten_all_svcs rds (add_new d (cases_in rd.svcs_data)) k
    ∙ rw (has_key-add_new d (cases_in rd.svcs_data) k) (ground arith)

-- Some source defines the requirement, or the SVC.
abbrev pub defines_requirement : CombinedRawDataset → UrnId → Bool
defines_requirement crd k =
    any (λ (e : String × RawDataset). has_key e.1.requirements_data.requirements k) crd.raw_datasets

abbrev pub defines_svc : CombinedRawDataset → UrnId → Bool
defines_svc crd k =
    any (λ (e : String × RawDataset). has_key (cases_in e.1.svcs_data) k) crd.raw_datasets

pub requirement_id_exists_lem :
    (crd : CombinedRawDataset) (k : UrnId) → requirement_id_exists crd k ≡ defines_requirement crd k
unfolding requirement_id_exists
requirement_id_exists_lem crd k = has_key-flatten_all_reqs crd.raw_datasets [] k

pub svc_id_exists_lem :
    (crd : CombinedRawDataset) (k : UrnId) → svc_id_exists crd k ≡ defines_svc crd k
unfolding svc_id_exists
svc_id_exists_lem crd k = has_key-flatten_all_svcs crd.raw_datasets [] k

module _ (exists is_there : UrnId → Bool) (same : (k : UrnId) → exists k ≡ is_there k) where
  pub is_clean-check_ids :
      (error : UrnId → ValidationError) (ks : List UrnId)
      → is_clean (check_ids exists error ks) ≡ all is_there ks
  unfolding check_ids
  is_clean-check_ids error [] = refl
  is_clean-check_ids error (k ∷ ks) = ground (arith, same k, is_clean-check_ids error ks)

  pub is_clean-check_svcs :
      (svcs : Dict UrnId SvcData)
      → is_clean (check_svcs exists svcs)
        ≡ all (λ (e : UrnId × SvcData). all is_there e.1.requirement_ids) svcs
  unfolding check_svcs
  is_clean-check_svcs [] = refl
  is_clean-check_svcs ((j, svc) ∷ svcs) =
      is_clean-append (check_ids exists (svc_without_requirement svc.id) svc.requirement_ids)
        (check_svcs exists svcs)
      ∙ rw (
        is_clean-check_ids (svc_without_requirement svc.id) svc.requirement_ids,
        is_clean-check_svcs svcs,
      )

  pub is_clean-check_mvrs :
      (mvrs : List MvrData)
      → is_clean (check_mvrs exists mvrs) ≡ all (λ (m : MvrData). all is_there m.svc_ids) mvrs
  unfolding check_mvrs
  is_clean-check_mvrs [] = refl
  is_clean-check_mvrs (m ∷ mvrs) =
      is_clean-append (check_ids exists mvr_without_svc m.svc_ids) (check_mvrs exists mvrs)
      ∙ rw (is_clean-check_ids mvr_without_svc m.svc_ids, is_clean-check_mvrs mvrs)

  pub is_clean-check_tests :
      (rds : Dict String RawDataset)
      → is_clean (check_tests exists rds)
        ≡ all (λ (e : String × RawDataset). all is_there (keys (tests_in e.1.annotations_data))) rds
  unfolding check_tests
  is_clean-check_tests [] = refl
  is_clean-check_tests ((u, rd) ∷ rds) =
      is_clean-append
        (check_ids exists annotation_without_svc (keys (tests_in rd.annotations_data)))
        (check_tests exists rds)
      ∙ rw (
        is_clean-check_ids annotation_without_svc (keys (tests_in rd.annotations_data)),
        is_clean-check_tests rds,
      )

-- What the code checks of the initial source only
abbrev pub at_initial : String → (RawDataset → Bool) → Dict String RawDataset → Bool
at_initial initial p rds = all (λ (e : String × RawDataset). not (e.0 == initial) || p e.1) rds

pub is_clean-of_initial :
    (initial : String) (check : RawDataset → List ValidationError) (p : RawDataset → Bool)
    → ((rd : RawDataset) → is_clean (check rd) ≡ p rd)
    → (rds : Dict String RawDataset)
    → is_clean (of_initial initial check rds) ≡ at_initial initial p rds
unfolding of_initial
is_clean-of_initial initial check p h [] = refl
is_clean-of_initial initial check p h ((u, rd) ∷ rds) = ground (
  arith,
  h rd,
  is_clean-of_initial initial check p h rds,
  is_clean-append (check rd) (of_initial initial check rds),
)
