-- ===== src/Services/Statistics/Records.antt =====
-- services/statistics_service.py: the records of counts.
use reqstool_client.Prelude.{
  eqb, ◌&&◌, ltb, true, zero, ◌-◌, if◌then◌else◌, suc, Bool, false, ℕ, ◌+◌,
}
use reqstool_client.Models.Entities.{Implementation}

-- Python's unbounded integers, for the one count that may fall below zero; `negsuc n` is -(n + 1).
pub data ℤ : Type 0 where
  pos : ℕ → ℤ
  negsuc : ℕ → ℤ

-- `n -= 1`
unfoldable pub pred_ℤ : ℤ → ℤ
pred_ℤ (pos zero) = negsuc 0
pred_ℤ (pos (suc n)) = pos n
pred_ℤ (negsuc n) = negsuc (suc n)

-- `TestStats`
pub record TestStats : Type 0 where
  pub total : ℕ
  pub passed : ℕ
  pub failed : ℕ
  pub skipped : ℕ
  pub missing : ℕ
  pub not_applicable : Bool

-- `TestStats()`
abbrev pub no_tests : TestStats
no_tests = record {
  total = 0;
  passed = 0;
  failed = 0;
  skipped = 0;
  missing = 0;
  not_applicable = false;
}

-- `TestStats.is_completed`
unfoldable pub is_completed : TestStats → Bool
is_completed s =
    if s.not_applicable
    then true
    else if ltb 0 s.missing
    then false
    else ltb 0 s.total && eqb s.total s.passed

-- `RequirementStatus`
pub record RequirementStatus : Type 0 where
  pub completed : Bool
  pub implementations : ℕ
  pub implementation_type : Implementation
  pub automated_tests : TestStats
  pub manual_tests : TestStats

-- `TotalStats`
pub record TotalStats : Type 0 where
  pub total_requirements : ℕ
  pub completed_requirements : ℕ
  pub with_implementation : ℕ
  pub without_implementation_total : ℕ
  pub without_implementation_completed : ℕ
  pub configuration_total : ℕ
  pub configuration_completed : ℕ
  pub platform_total : ℕ
  pub platform_completed : ℕ
  pub framework_total : ℕ
  pub framework_completed : ℕ
  pub total_svcs : ℕ
  pub total_tests : ℤ
  pub passed_tests : ℕ
  pub failed_tests : ℕ
  pub skipped_tests : ℕ
  pub missing_automated_tests : ℕ
  pub missing_manual_tests : ℕ
  pub total_manual_tests : ℕ
  pub total_annotated_tests : ℕ
  pub passed_manual_tests : ℕ
  pub failed_manual_tests : ℕ
  pub passed_automatic_tests : ℕ
  pub failed_automatic_tests : ℕ

-- `TotalStats()`
abbrev pub zero_totals : TotalStats
zero_totals = record {
  total_requirements = 0;
  completed_requirements = 0;
  with_implementation = 0;
  without_implementation_total = 0;
  without_implementation_completed = 0;
  configuration_total = 0;
  configuration_completed = 0;
  platform_total = 0;
  platform_completed = 0;
  framework_total = 0;
  framework_completed = 0;
  total_svcs = 0;
  total_tests = pos 0;
  passed_tests = 0;
  failed_tests = 0;
  skipped_tests = 0;
  missing_automated_tests = 0;
  missing_manual_tests = 0;
  total_manual_tests = 0;
  total_annotated_tests = 0;
  passed_manual_tests = 0;
  failed_manual_tests = 0;
  passed_automatic_tests = 0;
  failed_automatic_tests = 0;
}

-- `non_code_total`
unfoldable pub non_code_total : TotalStats → ℕ
non_code_total t =
    t.without_implementation_total + t.configuration_total + t.platform_total + t.framework_total

-- `non_code_completed`
unfoldable pub non_code_completed : TotalStats → ℕ
non_code_completed t =
    t.without_implementation_completed + t.configuration_completed + t.platform_completed
    + t.framework_completed

-- `code_reqs`; the difference is not negative (`calculate-IsCounted`).
unfoldable pub code_reqs : TotalStats → ℕ
unfolding non_code_total
code_reqs t = t.total_requirements - non_code_total t

-- `code_completed`; the difference is not negative (`calculate-IsCounted`).
unfoldable pub code_completed : TotalStats → ℕ
unfolding non_code_completed
code_completed t = t.completed_requirements - non_code_completed t
