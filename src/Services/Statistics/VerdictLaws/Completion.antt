-- ===== src/Services/Statistics/VerdictLaws/Completion.antt =====
-- `compute_requirement_status`: when a requirement is complete.
use mathlib.Core.Path.{subst}
use mathlib.Core.Option.{none-ne-some, some-injective}
use reqstool_client.Prelude.{
  map, refl, not, arith, ltb, all, true, ◌&&◌, length, false, All-filter, [], ◌||◌, ℕ, Bool,
  find?-passes, ==_iff, ◌∙◌, ap, sym, inr, inl, ◌==◌, find?, Option-cases, some, ◌≡◌, ◌∷◌, List,
}
use reqstool_client.Prelude.Result.{ok-injective, ◌>>=◌, >>=-eq-ok, ok, err, type_error}
use reqstool_client.Storage.Repository.{
  TieOrder, get_svc, row_to_svc_data, get_svcs_for_req, get_annotations_impls_for_req,
}
use reqstool_client.Services.Statistics.Records.{is_completed, RequirementStatus}
use reqstool_client.Services.Statistics.Verdict.{
  found_svcs, verdict_svcs, should_have_mvrs, should_have_automated_tests, compute_mvr_stats,
  compute_automated_stats, check_implementation, compute_requirement_status,
}
use reqstool_client.Services.Statistics.VerdictLaws.Manual.{
  AreStored, mvr_ok, is_completed-compute_mvr_stats,
}
use reqstool_client.Services.Statistics.VerdictLaws.Automated.{
  HasNames, tests_ok, is_completed-compute_automated_stats,
}
use reqstool_client.Storage.Database.{svc_key, Database}
use reqstool_client.Models.UrnId.{urn_id_eq, UrnId}
use reqstool_client.Models.Entities.{
  other, platform, review, manual_test, automated_test, configuration, in_code,
  expects_automated_tests, expects_mvrs, is_build, Implementation, VerificationType,
  RequirementData, is_non_code, SvcData,
}

id-get_svc : (db : Database) (k : UrnId) (s : SvcData) → get_svc db k ≡ some s → s.id ≡ k
unfolding get_svc
id-get_svc db k s h = elim (Option-cases (find? (λ r. svc_key r == k) db.svcs)) [
  | inl gone ↦ absurd (none-ne-some s (rw gone at h))
  | inr (r, found) ↦
      let e : row_to_svc_data db r ≡ s = some-injective _ _ (rw found at h) in
      sym (ap (λ (x : SvcData). x.id) e)
      ∙ (==_iff r.key k).0 (find?-passes (λ x. svc_key x == k) db.svcs found)
]

AreStored-found_svcs : (db : Database) (ks : List UrnId) → AreStored db (found_svcs db ks)
AreStored-found_svcs db [] = tt
AreStored-found_svcs db (k ∷ ks) = elim (Option-cases (get_svc db k)) [
  | inl gone ↦ rw gone (AreStored-found_svcs db ks)
  | inr (s, found) ↦ rw found (
    subst (λ x. get_svc db x ≡ some s) (sym (id-get_svc db k s found)) found,
    AreStored-found_svcs db ks,
  )
]

pub AreStored-verdict_svcs :
    (db : Database) (req : UrnId) (include_post_build : Bool)
    → AreStored db (verdict_svcs db req include_post_build)
unfolding verdict_svcs
AreStored-verdict_svcs db req true = AreStored-found_svcs db (get_svcs_for_req db req)
AreStored-verdict_svcs db req false =
    All-filter (λ s. get_svc db s.id ≡ some s) (λ s. is_build s.phase)
      (found_svcs db (get_svcs_for_req db req)) (AreStored-found_svcs db (get_svcs_for_req db req))

abbrev pub is_cons {ℓ} : {A : Type ℓ} → List A → Bool
is_cons [] = false
is_cons (x ∷ xs) = true

-- Every SVC is of one of the two kinds.
some_kind :
    (svcs : List SvcData)
    → (should_have_mvrs svcs || should_have_automated_tests svcs) ≡ is_cons svcs
unfolding should_have_mvrs should_have_automated_tests
some_kind [] = refl
some_kind (s ∷ svcs) = one_kind s.verification _ _
  where
    one_kind :
        (v : VerificationType) (a b : Bool)
        → ((expects_mvrs v || a) || (expects_automated_tests v || b)) ≡ true
    one_kind automated_test a b = ground arith
    one_kind manual_test a b = refl
    one_kind review a b = refl
    one_kind platform a b = refl
    one_kind other a b = refl

module _ ⦃order : TieOrder⦄ where
  -- The specification: there is an SVC, every SVC that expects a manual verdict has a passing one, and
  -- if an SVC is automated then all the tests of all the SVCs have passed.
  abbrev pub is_verified : Database → List SvcData → Bool
  is_verified db svcs =
      is_cons svcs
      && (all (mvr_ok db) svcs
          && (not (should_have_automated_tests svcs) || all (tests_ok db) svcs))

-- A requirement that is implemented in code has an implementation; the others need none.
abbrev pub is_implemented : ℕ → Implementation → Bool
is_implemented n i = is_non_code i || ltb 0 n

check_implementation-ok :
    (n : ℕ) (i : Implementation) (b : Bool)
    → check_implementation n i ≡ ok b
    → b ≡ is_implemented n i
unfolding check_implementation is_non_code
check_implementation-ok n in_code b h = ground arith
check_implementation-ok n configuration b h = ground arith
check_implementation-ok n _ b h = ground arith

check_implementation-raises :
    (n : ℕ) (i : Implementation)
    → (is_non_code i && ltb 0 n) ≡ true
    → check_implementation n i ≡ err type_error
unfolding check_implementation is_non_code
check_implementation-raises n in_code h = cc
check_implementation-raises n configuration h = ground arith
check_implementation-raises n _ h = ground arith

check_implementation-total :
    (n : ℕ) (i : Implementation)
    → (is_non_code i && ltb 0 n) ≡ false
    → check_implementation n i ≡ ok (is_implemented n i)
unfolding check_implementation is_non_code
check_implementation-total n in_code h = ground arith
check_implementation-total n configuration h = ground arith
check_implementation-total n _ h = ground arith

module _ ⦃order : TieOrder⦄ where
  -- The status that is returned once the implementation is checked
  abbrev status : Database → RequirementData → List SvcData → Bool → RequirementStatus
  status db req svcs implementation_ok =
      let mvr_stats =
        compute_mvr_stats db (map (λ (s : SvcData). s.id) svcs) svcs (should_have_mvrs svcs) in
      let test_stats = compute_automated_stats db svcs (should_have_automated_tests svcs) in
      record {
        completed =
            implementation_ok
            && (is_completed mvr_stats
                && (is_completed test_stats
                    && (should_have_mvrs svcs || should_have_automated_tests svcs)));
        implementations = length (get_annotations_impls_for_req db req.id);
        implementation_type = req.implementation;
        automated_tests = test_stats;
        manual_tests = mvr_stats;
      }

  compute_requirement_status_lem :
      (db : Database) (req : RequirementData) (include_post_build : Bool)
      → compute_requirement_status db req include_post_build ≡ (
          check_implementation (length (get_annotations_impls_for_req db req.id)) req.implementation
          >>= (λ b. ok (status db req (verdict_svcs db req.id include_post_build) b)))
  unfolding compute_requirement_status
  compute_requirement_status_lem db req include_post_build = refl

  pub compute_requirement_status-implementations :
      (db : Database) (req : RequirementData) (include_post_build : Bool) (st : RequirementStatus)
      → compute_requirement_status db req include_post_build ≡ ok st
      → st.implementations ≡ length (get_annotations_impls_for_req db req.id)
  compute_requirement_status-implementations db req include_post_build st h =
      let svcs = verdict_svcs db req.id include_post_build in
      let n = length (get_annotations_impls_for_req db req.id) in
      let (b, checked, e) =
        >>=-eq-ok (check_implementation n req.implementation) (λ b. ok (status db req svcs b))
          (sym (compute_requirement_status_lem db req include_post_build) ∙ h) in
      sym (ap (λ (x : RequirementStatus). x.implementations) (ok-injective _ _ e))

  status-completed :
      (db : Database) (req : RequirementData) (svcs : List SvcData) (b : Bool)
      → HasNames db
      → AreStored db svcs
      → (status db req svcs b).completed ≡ (b && is_verified db svcs)
  status-completed db req svcs b names stored =
      rw
        (
          is_completed-compute_mvr_stats db svcs stored,
          is_completed-compute_automated_stats db svcs names,
          some_kind svcs,
        )
        (ground arith)

  -- A requirement is complete exactly if it is implemented and verified, provided that every test
  -- annotation names something.
  pub completed_iff :
      (db : Database) (req : RequirementData) (include_post_build : Bool) (st : RequirementStatus)
      → HasNames db
      → compute_requirement_status db req include_post_build ≡ ok st
      → st.completed ≡ (
          is_implemented (length (get_annotations_impls_for_req db req.id)) req.implementation
          && is_verified db (verdict_svcs db req.id include_post_build))
  completed_iff db req include_post_build st names h =
      let svcs = verdict_svcs db req.id include_post_build in
      let n = length (get_annotations_impls_for_req db req.id) in
      let (b, checked, e) =
        >>=-eq-ok (check_implementation n req.implementation) (λ b. ok (status db req svcs b))
          (sym (compute_requirement_status_lem db req include_post_build) ∙ h) in
      sym (ap (λ (x : RequirementStatus). x.completed) (ok-injective _ _ e))
      ∙ status-completed db req svcs b names (AreStored-verdict_svcs db req.id include_post_build)
      ∙ ap (λ x. x && is_verified db svcs) (check_implementation-ok n req.implementation b checked)

-- A requirement of a non-code kind that has implementations
abbrev pub is_misplaced : Database → RequirementData → Bool
is_misplaced db req =
    is_non_code req.implementation && ltb 0 (length (get_annotations_impls_for_req db req.id))

module _ ⦃order : TieOrder⦄ where
  -- The status is computed unless a requirement of a non-code kind has implementations: then, and only
  -- then, `TypeError` is raised.
  pub compute_requirement_status_raises :
      (db : Database) (req : RequirementData) (include_post_build : Bool)
      → (is_misplaced db req ≡ true
          → compute_requirement_status db req include_post_build ≡ err type_error)
        × (is_misplaced db req ≡ false
            → (st : RequirementStatus) × (compute_requirement_status db req include_post_build
                ≡ ok st))
  compute_requirement_status_raises db req include_post_build =
      let n = length (get_annotations_impls_for_req db req.id) in
      let svcs = verdict_svcs db req.id include_post_build in
      (
        λ bad.
            compute_requirement_status_lem db req include_post_build
            ∙ rw (check_implementation-raises n req.implementation bad),
        λ good. (
          status db req svcs (is_implemented n req.implementation),
          compute_requirement_status_lem db req include_post_build
              ∙ rw (check_implementation-total n req.implementation good),
        ),
      )
