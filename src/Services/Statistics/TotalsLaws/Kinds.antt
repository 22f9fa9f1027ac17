-- ===== src/Services/Statistics/TotalsLaws/Kinds.antt =====
-- The kinds of implementation, and what one requirement adds to the totals.
use reqstool_client.Prelude.{
  [], ◌∷◌, false, arith, if◌then◌else◌, length, true, ℕ, Bool, ◌&&◌, ◌+◌, ◌≡◌,
}
use reqstool_client.Models.Entities.{
  framework, platform, configuration, not_applicable, in_code, RequirementData, Implementation,
}
use reqstool_client.Services.Statistics.Totals.{update_totals}
use reqstool_client.Models.Datasets.{Dict}
use reqstool_client.Models.UrnId.{UrnId}
use reqstool_client.Services.Statistics.Records.{TestStats, TotalStats}
use reqstool_client.Services.Statistics.VerdictLaws.Tally.{number}

abbrev pub same_kind : Implementation → Implementation → Bool
same_kind in_code in_code = true
same_kind not_applicable not_applicable = true
same_kind configuration configuration = true
same_kind platform platform = true
same_kind framework framework = true
same_kind i j = false

abbrev pub one : Bool → ℕ
one b = if b then 1 else 0

-- What one requirement adds to the totals
pub record Adds (kind : Implementation) (completed implemented : Bool) (before after : TotalStats)
    : Type 0 where
  pub requirements : after.total_requirements ≡ 1 + before.total_requirements
  pub done : after.completed_requirements ≡ one completed + before.completed_requirements
  pub with_one : after.with_implementation ≡ one implemented + before.with_implementation
  pub not_applicable_total :
      after.without_implementation_total
      ≡ one (same_kind not_applicable kind) + before.without_implementation_total
  pub not_applicable_completed :
      after.without_implementation_completed
      ≡ one (same_kind not_applicable kind && completed) + before.without_implementation_completed
  pub configuration_total :
      after.configuration_total ≡ one (same_kind configuration kind) + before.configuration_total
  pub configuration_completed :
      after.configuration_completed
      ≡ one (same_kind configuration kind && completed) + before.configuration_completed
  pub platform_total : after.platform_total ≡ one (same_kind platform kind) + before.platform_total
  pub platform_completed :
      after.platform_completed
      ≡ one (same_kind platform kind && completed) + before.platform_completed
  pub framework_total :
      after.framework_total ≡ one (same_kind framework kind) + before.framework_total
  pub framework_completed :
      after.framework_completed
      ≡ one (same_kind framework kind && completed) + before.framework_completed

pub update_totals-Adds :
    (kind : Implementation) (completed implemented : Bool) (automated manual : TestStats)
    (t : TotalStats)
    → Adds kind completed implemented t
        (update_totals kind completed implemented automated manual t)
unfolding update_totals
update_totals-Adds in_code true true automated manual t = omega arith
update_totals-Adds in_code true false automated manual t = omega arith
update_totals-Adds in_code false true automated manual t = omega arith
update_totals-Adds in_code false false automated manual t = omega arith
update_totals-Adds not_applicable true true automated manual t = omega arith
update_totals-Adds not_applicable true false automated manual t = omega arith
update_totals-Adds not_applicable false true automated manual t = omega arith
update_totals-Adds not_applicable false false automated manual t = omega arith
update_totals-Adds configuration true true automated manual t = omega arith
update_totals-Adds configuration true false automated manual t = omega arith
update_totals-Adds configuration false true automated manual t = omega arith
update_totals-Adds configuration false false automated manual t = omega arith
update_totals-Adds platform true true automated manual t = omega arith
update_totals-Adds platform true false automated manual t = omega arith
update_totals-Adds platform false true automated manual t = omega arith
update_totals-Adds platform false false automated manual t = omega arith
update_totals-Adds framework true true automated manual t = omega arith
update_totals-Adds framework true false automated manual t = omega arith
update_totals-Adds framework false true automated manual t = omega arith
update_totals-Adds framework false false automated manual t = omega arith

-- A requirement of a kind
abbrev pub is_of : Implementation → UrnId × RequirementData → Bool
is_of kind p = same_kind kind p.1.implementation

-- Every requirement is of one kind.
kind_one :
    (kind : Implementation) (b : Bool)
    → one b
      ≡ one (same_kind in_code kind && b)
        + one (same_kind not_applicable kind && b)
        + one (same_kind configuration kind && b)
        + one (same_kind platform kind && b)
        + one (same_kind framework kind && b)
kind_one in_code true = omega arith
kind_one in_code false = omega arith
kind_one not_applicable true = omega arith
kind_one not_applicable false = omega arith
kind_one configuration true = omega arith
kind_one configuration false = omega arith
kind_one platform true = omega arith
kind_one platform false = omega arith
kind_one framework true = omega arith
kind_one framework false = omega arith

kind_all :
    (kind : Implementation)
    → 1
      ≡ one (same_kind in_code kind)
        + one (same_kind not_applicable kind)
        + one (same_kind configuration kind)
        + one (same_kind platform kind)
        + one (same_kind framework kind)
kind_all in_code = omega arith
kind_all not_applicable = omega arith
kind_all configuration = omega arith
kind_all platform = omega arith
kind_all framework = omega arith

pub length-kinds :
    (reqs : Dict UrnId RequirementData)
    → length reqs
      ≡ number (is_of in_code) reqs
        + number (is_of not_applicable) reqs
        + number (is_of configuration) reqs
        + number (is_of platform) reqs
        + number (is_of framework) reqs
length-kinds [] = omega arith
length-kinds (r ∷ reqs) = omega (arith, length-kinds reqs, kind_all r.1.implementation)

pub number-kinds :
    (p : UrnId × RequirementData → Bool) (reqs : Dict UrnId RequirementData)
    → number p reqs
      ≡ number (λ r. is_of in_code r && p r) reqs
        + number (λ r. is_of not_applicable r && p r) reqs
        + number (λ r. is_of configuration r && p r) reqs
        + number (λ r. is_of platform r && p r) reqs
        + number (λ r. is_of framework r && p r) reqs
number-kinds p [] = omega arith
number-kinds p (r ∷ reqs) = omega (arith, number-kinds p reqs, kind_one r.1.implementation (p r))
