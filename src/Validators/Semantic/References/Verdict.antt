-- ===== src/Validators/Semantic/References/Verdict.antt =====
-- What the validator reports after parsing.
use reqstool_client.Prelude.{
  and_intro, and-true, ap, string_eq, inr, ==_iff, refl, Bool, inl, [], Bool-cases, ◌∙◌, ◌↔◌, ◌∷◌,
  sym, true, ◌≡◌, All, List, all, String, ◌==◌, ◌++◌,
}
use mathlib.Core.List.{append-nil, append_assoc}
use reqstool_client.Models.Datasets.{Dict, keys, RawDataset, CombinedRawDataset}
use reqstool_client.Validators.Semantic.{
  is_clean-append, is_clean, annotation_without_requirement, add_error, ValidationErrorHolder,
  ValidationError, add_errors,
}
use reqstool_client.Models.UrnId.{UrnId}
use reqstool_client.Models.Entities.{MvrData, SvcData}
use reqstool_client.Validators.Semantic.References.Errors.{
  is_clean-check_mvrs, svc_id_exists_lem, is_clean-check_ids, is_clean-check_tests,
  requirement_id_exists_lem, is_clean-check_svcs, defines_svc, defines_requirement,
}
use reqstool_client.Validators.Semantic.References.{
  group_mvrs, svc_id_exists, check_groups, check_mvrs, check_ids, validate_mvr_supersession,
  validate_mvr_refers_to_existing_svc_ids, requirement_id_exists,
  validate_annotation_tests_refers_to_existing_svc_ids, check_svcs,
  validate_annotation_impls_refers_to_existing_requirement_ids,
  validate_svc_refers_to_existing_requirement_ids, validate_post_parsing, results_in, tests_in,
  implementations_in, of_initial, cases_in,
}
use reqstool_client.Validators.Semantic.References.Groups.{
  check_groups_iff, referencing, is_orderly,
}
use mathlib.Core.Bool.{true≢false}

-- What holds of the initial source
abbrev pub AtInitial : CombinedRawDataset → (RawDataset → Type 0) → Type 0
AtInitial crd P =
    All (λ (e : String × RawDataset). e.0 ≡ crd.initial_model_urn → P e.1) crd.raw_datasets

-- Every id that is named exists: the requirements of the initial source's SVCs and of its
-- implementation annotations, the SVCs of its manual verification results, and the SVCs of the test
-- annotations of any source. The results that name the same SVC are dated, at different moments.
abbrev pub IsFaultless : CombinedRawDataset → Type 0
IsFaultless crd =
    AtInitial crd (λ rd.
      all (λ (e : UrnId × SvcData). all (defines_requirement crd) e.1.requirement_ids)
        (cases_in rd.svcs_data)
      ≡ true)
    × AtInitial crd
        (λ rd. all (defines_requirement crd) (keys (implementations_in rd.annotations_data)) ≡ true)
    × (all
          (λ (e : String × RawDataset).
            all (defines_svc crd) (keys (tests_in e.1.annotations_data)))
          crd.raw_datasets
        ≡ true)
    × AtInitial crd (λ rd.
      all (λ (m : MvrData). all (defines_svc crd) m.svc_ids) (results_in rd.mvrs_data) ≡ true)
    × AtInitial crd
        (λ rd. (k : UrnId) → is_orderly (referencing k (results_in rd.mvrs_data)) ≡ true)

module _ (initial : String) (check : RawDataset → List ValidationError) (P : RawDataset → Type 0)
    (sound : (rd : RawDataset) → (is_clean (check rd) ≡ true) ↔ P rd) where
  of_initial_iff :
      (rds : Dict String RawDataset)
      → (is_clean (of_initial initial check rds) ≡ true)
        ↔ All (λ (e : String × RawDataset). e.0 ≡ initial → P e.1) rds
  unfolding of_initial
  of_initial_iff [] = (λ h. tt, λ h. refl)
  of_initial_iff ((u, rd) ∷ rds) = elim (Bool-cases (u == initial)) [
    | inl same ↦
        rw (same, is_clean-append (check rd) (of_initial initial check rds))
          (
            λ h. (
              λ p. (sound rd).0 (and-true (is_clean (check rd)) h).0,
              (of_initial_iff rds).0 (and-true (is_clean (check rd)) h).1,
            ),
            λ h.
                and_intro ((sound rd).1 (h.0 ((==_iff u initial).0 same)))
                  ((of_initial_iff rds).1 h.1),
          )
    | inr other ↦ rw other (
      λ h. (
        λ p. absurd (true≢false (sym ((==_iff u initial).1 p) ∙ other)),
        (of_initial_iff rds).0 h,
      ),
      λ h. (of_initial_iff rds).1 h.1,
    )
  ]

errors-add_errors :
    (es : List ValidationError) (holder : ValidationErrorHolder)
    → (add_errors es holder).errors ≡ holder.errors ++ es
unfolding add_errors
errors-add_errors [] holder = sym (append-nil holder.errors)
errors-add_errors (e ∷ es) holder =
    errors-add_errors es (add_error e holder) ∙ append_assoc holder.errors (e ∷ []) es

along : {a b : Bool} → a ≡ b → (a ≡ true) ↔ (b ≡ true)
along p = (λ h. sym p ∙ h, λ h. p ∙ h)

to_empty : {es : List ValidationError} {P : Type 0} → (is_clean es ≡ true) ↔ P → P → es ≡ []
to_empty {es = []} f p = refl
to_empty {es = e ∷ es} f p = absurd (true≢false (sym (f.1 p)))

no_error : {es fs : List ValidationError} → es ++ fs ≡ [] → (es ≡ []) × (fs ≡ [])
no_error {es = []} h = (refl, h)
no_error {es = e ∷ es} h = cc

all_errors :
    (crd : CombinedRawDataset) (holder : ValidationErrorHolder)
    → (validate_post_parsing crd holder).errors
      ≡ holder.errors
        ++ (validate_svc_refers_to_existing_requirement_ids crd
            ++ (validate_annotation_impls_refers_to_existing_requirement_ids crd
                ++ (validate_annotation_tests_refers_to_existing_svc_ids crd
                    ++ (validate_mvr_refers_to_existing_svc_ids crd
                        ++ validate_mvr_supersession crd))))
unfolding validate_post_parsing
all_errors crd holder = simp (errors-add_errors, append_assoc)

-- Each of the five checks
module _ (crd : CombinedRawDataset) where
  abbrev SvcsResolve : RawDataset → Type 0
  SvcsResolve rd =
      all (λ (e : UrnId × SvcData). all (defines_requirement crd) e.1.requirement_ids)
        (cases_in rd.svcs_data)
      ≡ true

  abbrev ImplsResolve : RawDataset → Type 0
  ImplsResolve rd =
      all (defines_requirement crd) (keys (implementations_in rd.annotations_data)) ≡ true

  abbrev MvrsResolve : RawDataset → Type 0
  MvrsResolve rd =
      all (λ (m : MvrData). all (defines_svc crd) m.svc_ids) (results_in rd.mvrs_data) ≡ true

  abbrev MvrsOrdered : RawDataset → Type 0
  MvrsOrdered rd = (k : UrnId) → is_orderly (referencing k (results_in rd.mvrs_data)) ≡ true

  svcs_iff :
      (is_clean (validate_svc_refers_to_existing_requirement_ids crd) ≡ true)
      ↔ AtInitial crd SvcsResolve
  unfolding validate_svc_refers_to_existing_requirement_ids
  svcs_iff =
      of_initial_iff crd.initial_model_urn
        (λ (rd : RawDataset). check_svcs (requirement_id_exists crd) (cases_in rd.svcs_data))
        SvcsResolve
        (λ rd. along (
          is_clean-check_svcs (requirement_id_exists crd) (defines_requirement crd)
            (requirement_id_exists_lem crd) (cases_in rd.svcs_data)))
        crd.raw_datasets

  impls_iff :
      (is_clean (validate_annotation_impls_refers_to_existing_requirement_ids crd) ≡ true)
      ↔ AtInitial crd ImplsResolve
  unfolding validate_annotation_impls_refers_to_existing_requirement_ids
  impls_iff =
      of_initial_iff crd.initial_model_urn
        (λ (rd : RawDataset).
          check_ids (requirement_id_exists crd) annotation_without_requirement
            (keys (implementations_in rd.annotations_data)))
        ImplsResolve
        (λ rd. along (
          is_clean-check_ids (requirement_id_exists crd) (defines_requirement crd)
            (requirement_id_exists_lem crd) annotation_without_requirement
            (keys (implementations_in rd.annotations_data))))
        crd.raw_datasets

  tests_iff : (is_clean (validate_annotation_tests_refers_to_existing_svc_ids crd) ≡ true) ↔ (
      all
        (λ (e : String × RawDataset). all (defines_svc crd) (keys (tests_in e.1.annotations_data)))
        crd.raw_datasets
      ≡ true)
  unfolding validate_annotation_tests_refers_to_existing_svc_ids
  tests_iff = along (
      is_clean-check_tests (svc_id_exists crd) (defines_svc crd) (svc_id_exists_lem crd)
        crd.raw_datasets)

  mvrs_iff :
      (is_clean (validate_mvr_refers_to_existing_svc_ids crd) ≡ true) ↔ AtInitial crd MvrsResolve
  unfolding validate_mvr_refers_to_existing_svc_ids
  mvrs_iff =
      of_initial_iff crd.initial_model_urn
        (λ (rd : RawDataset). check_mvrs (svc_id_exists crd) (results_in rd.mvrs_data)) MvrsResolve
        (λ rd. along (
          is_clean-check_mvrs (svc_id_exists crd) (defines_svc crd) (svc_id_exists_lem crd)
            (results_in rd.mvrs_data)))
        crd.raw_datasets

  supersession_iff : (is_clean (validate_mvr_supersession crd) ≡ true) ↔ AtInitial crd MvrsOrdered
  unfolding validate_mvr_supersession
  supersession_iff =
      of_initial_iff crd.initial_model_urn
        (λ (rd : RawDataset). check_groups (group_mvrs (results_in rd.mvrs_data) [])) MvrsOrdered
        (λ rd. check_groups_iff (results_in rd.mvrs_data)) crd.raw_datasets

  -- The validator ends without errors exactly if it had none before, every id that the checked parts of
  -- the sources name exists, and the results of every SVC that several name can be ordered by their dates.
  pub validate_post_parsing_iff :
      (holder : ValidationErrorHolder)
      → ((validate_post_parsing crd holder).errors ≡ []) ↔ ((holder.errors ≡ []) × IsFaultless crd)
  validate_post_parsing_iff holder = rw (all_errors crd holder) (
    λ h.
        let (z, h0) = no_error h in
        let (a, h1) = no_error h0 in
        let (b, h2) = no_error h1 in
        let (c, h3) = no_error h2 in
        let (d, e) = no_error h3 in
        (
          z,
          (
            svcs_iff.0 (ap is_clean a),
            impls_iff.0 (ap is_clean b),
            tests_iff.0 (ap is_clean c),
            mvrs_iff.0 (ap is_clean d),
            supersession_iff.0 (ap is_clean e),
          ),
        ),
    λ (z, f).
        let (a, b, c, d, e) = f in
        rw (
          z,
          to_empty svcs_iff a,
          to_empty impls_iff b,
          to_empty tests_iff c,
          to_empty mvrs_iff d,
          to_empty supersession_iff e,
        ),
  )
