-- ===== src/Commands/Validate/Laws.antt =====
-- When the validate command succeeds.
use reqstool_client.Prelude.{
  if◌then◌else◌, ◌∙◌, arith, refl, ◌≤◌, [], none, not, eqb, ◌∷◌, ◌≡◌, all, Bool, List, ◌||◌, ◌&&◌,
  ◌++◌,
}
use reqstool_client.Commands.Validate.{
  exit_code, is_nil, run_validate, check_coverage, check_svcs_covered, check_requirements_covered,
}
use reqstool_client.Storage.Database.{Database}
use reqstool_client.Models.Datasets.{Dict}
use reqstool_client.Models.UrnId.{UrnId}
use reqstool_client.Commands.Pipeline.{Build}
use reqstool_client.Models.Entities.{expects_mvrs, SvcData, RequirementData}
use reqstool_client.Storage.Repository.{
  get_mvrs_for_svc, get_all_svcs, get_svcs_for_req, get_all_requirements,
}

is_nil-append : {A : Type 0} (xs ys : List A) → is_nil (xs ++ ys) ≡ (is_nil xs && is_nil ys)
is_nil-append [] ys = refl
is_nil-append (x ∷ xs) ys = refl

requirements_covered_lem :
    (db : Database) (reqs : Dict UrnId RequirementData)
    → is_nil (check_requirements_covered db reqs)
      ≡ all (λ (e : UrnId × RequirementData). not (is_nil (get_svcs_for_req db e.0))) reqs
unfolding check_requirements_covered
requirements_covered_lem db [] = refl
requirements_covered_lem db ((k, r) ∷ reqs) = ground (arith, requirements_covered_lem db reqs)

svcs_covered_lem :
    (db : Database) (svcs : Dict UrnId SvcData)
    → is_nil (check_svcs_covered db svcs)
      ≡ all
          (λ (e : UrnId × SvcData).
            not (expects_mvrs e.1.verification) || not (is_nil (get_mvrs_for_svc db e.0)))
          svcs
unfolding check_svcs_covered
svcs_covered_lem db [] = refl
svcs_covered_lem db ((k, s) ∷ svcs) = ground (arith, svcs_covered_lem db svcs)

-- Every requirement has an SVC, and every SVC that expects manual results has one.
abbrev pub is_covered : Database → Bool
is_covered db =
    all (λ (e : UrnId × RequirementData). not (is_nil (get_svcs_for_req db e.0)))
      (get_all_requirements db none none)
    && all
        (λ (e : UrnId × SvcData).
          not (expects_mvrs e.1.verification) || not (is_nil (get_mvrs_for_svc db e.0)))
        (get_all_svcs db none none)

is_nil-check_coverage : (db : Database) → is_nil (check_coverage db) ≡ is_covered db
unfolding check_coverage
is_nil-check_coverage db =
    is_nil-append (check_requirements_covered db (get_all_requirements db none none))
      (check_svcs_covered db (get_all_svcs db none none))
    ∙ rw (
      requirements_covered_lem db (get_all_requirements db none none),
      svcs_covered_lem db (get_all_svcs db none none),
    )

-- The command exits with 0 or 1, and with 0 exactly if there are no errors and, when it is strict, every
-- requirement has an SVC and every SVC that expects manual verification results has one.
pub run_validate-exit_code :
    (strict : Bool) (b : Build)
    → (eqb (run_validate strict b).1 0
        ≡ (is_nil b.errors.errors && (not strict || is_covered b.database)))
      × ((run_validate strict b).1 ≤ 1)
unfolding run_validate exit_code
run_validate-exit_code strict b =
    let same = is_nil-check_coverage b.database in
    (
      verdict strict (is_nil b.errors.errors) (is_nil (check_coverage b.database))
          (is_covered b.database) same,
      bounded strict (is_nil b.errors.errors) (is_nil (check_coverage b.database)),
    )
  where
    verdict :
        (strict e w c : Bool)
        → w ≡ c
        → eqb (if e && w then 0 else if not e || (not w && strict) then 1 else 0) 0
          ≡ (e && (not strict || c))
    verdict strict e w c same = ground (arith, same)

    bounded :
        (strict e w : Bool)
        → (if e && w then 0 else if not e || (not w && strict) then 1 else 0) ≤ 1
    bounded strict e w = ground arith
