-- ===== src/Commands/Validate.antt =====
-- commands/validate/validate.py: `ValidateCommand`, without the texts.
pub mod Laws
use reqstool_client.Models.UrnId.{UrnId}
use reqstool_client.Prelude.{
  ◌||◌, not, [], ◌&&◌, if◌then◌else◌, ◌++◌, false, ℕ, none, ◌∷◌, true, Bool, List,
}
use reqstool_client.Storage.Repository.{
  get_all_svcs, get_all_requirements, get_mvrs_for_svc, get_svcs_for_req,
}
use reqstool_client.Models.Entities.{SvcData, RequirementData, expects_mvrs, VerificationType}
use reqstool_client.Storage.Database.{Database}
use reqstool_client.Validators.Semantic.{ValidationError}
use reqstool_client.Commands.Pipeline.{Build}
use reqstool_client.Models.Datasets.{Dict}

-- A warning of `_check_coverage`
pub data CoverageWarning : Type 0 where
  no_svc_defined : UrnId → CoverageWarning
  no_mvr_defined : UrnId → VerificationType → CoverageWarning

abbrev pub is_nil {ℓ} : {A : Type ℓ} → List A → Bool
is_nil [] = true
is_nil (x ∷ xs) = false

-- The loops of `_check_coverage`
unfoldable pub check_requirements_covered :
    Database → Dict UrnId RequirementData → List CoverageWarning
unfolding get_svcs_for_req
check_requirements_covered db [] = []
check_requirements_covered db ((k, r) ∷ reqs) =
    let rest = check_requirements_covered db reqs in
    if is_nil (get_svcs_for_req db k) then no_svc_defined k ∷ rest else rest

unfoldable pub check_svcs_covered : Database → Dict UrnId SvcData → List CoverageWarning
unfolding get_mvrs_for_svc expects_mvrs
check_svcs_covered db [] = []
check_svcs_covered db ((k, s) ∷ svcs) =
    let rest = check_svcs_covered db svcs in
    if expects_mvrs s.verification && is_nil (get_mvrs_for_svc db k)
    then no_mvr_defined k s.verification ∷ rest
    else rest

-- `_check_coverage`
unfoldable pub check_coverage : Database → List CoverageWarning
unfolding check_requirements_covered check_svcs_covered get_all_requirements get_all_svcs
check_coverage db =
    check_requirements_covered db (get_all_requirements db none none)
    ++ check_svcs_covered db (get_all_svcs db none none)

-- `exit_code`
unfoldable pub exit_code : Bool → List ValidationError → List CoverageWarning → ℕ
exit_code strict ref_errors coverage_warnings =
    if is_nil ref_errors && is_nil coverage_warnings
    then 0
    else if not (is_nil ref_errors) || (not (is_nil coverage_warnings) && strict)
    then 1
    else 0

-- `__run`, from the database and the errors that the pipeline yields
unfoldable pub run_validate : Bool → Build → List CoverageWarning × ℕ
unfolding check_coverage exit_code
run_validate strict b =
    let coverage_warnings = check_coverage b.database in
    (coverage_warnings, exit_code strict b.errors.errors coverage_warnings)
