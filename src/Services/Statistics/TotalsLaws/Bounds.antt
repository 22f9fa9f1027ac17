-- ===== src/Services/Statistics/TotalsLaws/Bounds.antt =====
-- The counts of requirements are consistent: parts do not exceed their wholes.
use mathlib.Core.Path.{subst}
use reqstool_client.Prelude.{
  refl, All, length, ◌++◌, [], contains, String, ◌∷◌, ltb, if◌then◌else◌, List, false, true, Bool,
  arith, suc, ◌≡◌, ℕ, ◌+◌, ◌≤◌,
}
use reqstool_client.Services.Statistics.Records.{
  zero_totals, RequirementStatus, TestStats, TotalStats, non_code_total, non_code_completed,
}
use reqstool_client.Services.Statistics.Totals.{
  Statistics, calculate_all, calculate_requirement_stats, calculate_global_totals, or_empty,
  count_all, count_total, count_automated_test_totals, count_annotations, update_requirement_totals,
  update_totals,
}
use reqstool_client.Models.Entities.{
  SvcData, missing, skipped, framework, failed, AnnotationData, passed, platform, configuration,
  TestData, RequirementData, not_applicable, TestRunStatus, in_code, Implementation,
}
use reqstool_client.Models.Datasets.{put, get, Dict}
use reqstool_client.Models.UrnId.{urn_id_eq, UrnId}
use reqstool_client.Storage.Database.{Database}
use reqstool_client.Prelude.Result.{ok-injective, >>=-eq-ok, ok}
use reqstool_client.Services.Statistics.Verdict.{compute_requirement_status}
use reqstool_client.Storage.Repository.{TieOrder}
use reqstool_client.Services.Statistics.VerdictLaws.Completion.{
  is_misplaced, compute_requirement_status_raises,
}

-- The counts of requirements in `TotalStats`
pub record IsBounded (n : ℕ) (t : TotalStats) : Type 0 where
  pub requirements : t.total_requirements ≡ n
  pub completed : t.completed_requirements ≤ t.total_requirements
  pub implemented : t.with_implementation ≤ t.total_requirements
  pub without_implementation : t.without_implementation_completed ≤ t.without_implementation_total
  pub configuration : t.configuration_completed ≤ t.configuration_total
  pub platform : t.platform_completed ≤ t.platform_total
  pub framework : t.framework_completed ≤ t.framework_total
  pub non_code_reqs : non_code_total t ≤ t.total_requirements
  pub non_code_done : non_code_completed t ≤ t.completed_requirements
  pub code :
      t.completed_requirements + non_code_total t ≤ t.total_requirements + non_code_completed t

update_totals-IsBounded :
    (kind : Implementation) (completed implemented : Bool) (automated manual : TestStats) (n : ℕ)
    (t : TotalStats)
    → IsBounded n t
    → IsBounded (suc n) (update_totals kind completed implemented automated manual t)
unfolding update_totals non_code_total non_code_completed
update_totals-IsBounded in_code true true automated manual n t b = omega arith
update_totals-IsBounded in_code true false automated manual n t b = omega arith
update_totals-IsBounded in_code false true automated manual n t b = omega arith
update_totals-IsBounded in_code false false automated manual n t b = omega arith
update_totals-IsBounded not_applicable true true automated manual n t b = omega arith
update_totals-IsBounded not_applicable true false automated manual n t b = omega arith
update_totals-IsBounded not_applicable false true automated manual n t b = omega arith
update_totals-IsBounded not_applicable false false automated manual n t b = omega arith
update_totals-IsBounded configuration true true automated manual n t b = omega arith
update_totals-IsBounded configuration true false automated manual n t b = omega arith
update_totals-IsBounded configuration false true automated manual n t b = omega arith
update_totals-IsBounded configuration false false automated manual n t b = omega arith
update_totals-IsBounded platform true true automated manual n t b = omega arith
update_totals-IsBounded platform true false automated manual n t b = omega arith
update_totals-IsBounded platform false true automated manual n t b = omega arith
update_totals-IsBounded platform false false automated manual n t b = omega arith
update_totals-IsBounded framework true true automated manual n t b = omega arith
update_totals-IsBounded framework true false automated manual n t b = omega arith
update_totals-IsBounded framework false true automated manual n t b = omega arith
update_totals-IsBounded framework false false automated manual n t b = omega arith

update_requirement_totals-IsBounded :
    (req : RequirementData) (st : RequirementStatus) (n : ℕ) (t : TotalStats)
    → IsBounded n t
    → IsBounded (suc n) (update_requirement_totals req st t)
unfolding update_requirement_totals
update_requirement_totals-IsBounded req st n t b =
    update_totals-IsBounded req.implementation st.completed (ltb 0 st.implementations)
      st.automated_tests st.manual_tests n t b

count_total-IsBounded :
    (s : TestRunStatus) (n : ℕ) (t : TotalStats) → IsBounded n t → IsBounded n (count_total s t)
unfolding non_code_total non_code_completed
count_total-IsBounded passed n t b = omega arith
count_total-IsBounded failed n t b = omega arith
count_total-IsBounded skipped n t b = omega arith
count_total-IsBounded missing n t b = omega arith

count_all-IsBounded :
    (ds : List TestData) (n : ℕ) (t : TotalStats) → IsBounded n t → IsBounded n (count_all ds t)
count_all-IsBounded [] n t b = b
count_all-IsBounded (d ∷ ds) n t b =
    count_all-IsBounded ds n (count_total d.status t) (count_total-IsBounded d.status n t b)

-- One annotation, whether or not its key was seen
count_step-IsBounded :
    (seen : Bool) (ds : List TestData) (n : ℕ) (t : TotalStats)
    → IsBounded n t
    → IsBounded n (if seen then t else count_all ds t)
count_step-IsBounded true ds n t b = b
count_step-IsBounded false ds n t b = count_all-IsBounded ds n t b

count_annotations-IsBounded :
    (results : Dict UrnId (List TestData)) (urn : String) (annotations : List AnnotationData)
    (parsed : List UrnId) (n : ℕ) (t : TotalStats)
    → IsBounded n t
    → IsBounded n (count_annotations results urn annotations parsed t).1
unfolding count_annotations
count_annotations-IsBounded results urn [] parsed n t b = b
count_annotations-IsBounded results urn (a ∷ annotations) parsed n t b =
    let k : UrnId = record { urn = urn; id = a.fully_qualified_name } in
    let seen = contains parsed k in
    count_annotations-IsBounded results urn annotations (if seen then parsed else parsed ++ k ∷ [])
      n (if seen then t else count_all (or_empty (get results k)) t)
      (count_step-IsBounded seen (or_empty (get results k)) n t b)

count_automated_test_totals-IsBounded :
    (annotations : Dict UrnId (List AnnotationData)) (results : Dict UrnId (List TestData))
    (parsed : List UrnId) (n : ℕ) (t : TotalStats)
    → IsBounded n t
    → IsBounded n (count_automated_test_totals annotations results parsed t)
unfolding count_automated_test_totals
count_automated_test_totals-IsBounded [] results parsed n t b = b
count_automated_test_totals-IsBounded ((svc, annotations) ∷ rest) results parsed n t b =
    let step = count_annotations results svc.urn annotations parsed t in
    count_automated_test_totals-IsBounded rest results step.0 n step.1
      (count_annotations-IsBounded results svc.urn annotations parsed n t b)

pub zero-IsBounded : IsBounded 0 zero_totals
unfolding non_code_total non_code_completed
zero-IsBounded = omega arith

module _ ⦃order : TieOrder⦄ where
  pub calculate_global_totals-IsBounded :
      (db : Database) (svcs : Dict UrnId SvcData) (annotations : Dict UrnId (List AnnotationData))
      (results : Dict UrnId (List TestData)) (n : ℕ) (t : TotalStats)
      → IsBounded n t
      → IsBounded n (calculate_global_totals db svcs annotations results t)
  unfolding calculate_global_totals non_code_total non_code_completed
  calculate_global_totals-IsBounded db svcs annotations results n t b =
      count_automated_test_totals-IsBounded annotations results [] n _ (record {
        requirements = b.requirements;
        completed = b.completed;
        implemented = b.implemented;
        without_implementation = b.without_implementation;
        configuration = b.configuration;
        platform = b.platform;
        framework = b.framework;
        non_code_reqs = b.non_code_reqs;
        non_code_done = b.non_code_done;
        code = b.code;
      })

  calculate_requirement_stats-IsBounded :
      (db : Database) (include_post_build : Bool) (k : UrnId) (req : RequirementData) (n : ℕ)
      (s s' : Statistics)
      → IsBounded n s.totals
      → calculate_requirement_stats db include_post_build k req s ≡ ok s'
      → IsBounded (suc n) s'.totals
  unfolding calculate_requirement_stats
  calculate_requirement_stats-IsBounded db include_post_build k req n s s' b h =
      let (st, computed, e) =
        >>=-eq-ok (compute_requirement_status db req include_post_build) _ h in
      subst (λ (x : Statistics). IsBounded (suc n) x.totals) (ok-injective _ s' e)
        (update_requirement_totals-IsBounded req st n s.totals b)

  calculate_all-IsBounded :
      (db : Database) (include_post_build : Bool) (reqs : Dict UrnId RequirementData) (n : ℕ)
      (s s' : Statistics)
      → IsBounded n s.totals
      → calculate_all db include_post_build reqs s ≡ ok s'
      → IsBounded (length reqs + n) s'.totals
  unfolding calculate_all
  calculate_all-IsBounded db include_post_build [] n s s' b h =
      subst (λ (x : Statistics). IsBounded (0 + n) x.totals) (ok-injective s s' h)
        (subst (λ m. IsBounded m s.totals) (omega arith) b)
  calculate_all-IsBounded db include_post_build ((k, req) ∷ reqs) n s s' b h =
      let (s₁, first, rest) =
        >>=-eq-ok (calculate_requirement_stats db include_post_build k req s) _ h in
      let b' =
        calculate_all-IsBounded db include_post_build reqs (suc n) s₁ s'
          (calculate_requirement_stats-IsBounded db include_post_build k req n s s₁ b first) rest in
      subst (λ m. IsBounded m s'.totals) (omega arith) b'

-- No requirement of a non-code kind has an implementation.
abbrev pub IsSound : Database → Dict UrnId RequirementData → Type 0
IsSound db reqs = All (λ (p : UrnId × RequirementData). is_misplaced db p.1 ≡ false) reqs

module _ ⦃order : TieOrder⦄ where
  pub calculate_all-total :
      (db : Database) (include_post_build : Bool) (reqs : Dict UrnId RequirementData)
      (s : Statistics)
      → IsSound db reqs
      → (s' : Statistics) × (calculate_all db include_post_build reqs s ≡ ok s')
  unfolding calculate_all calculate_requirement_stats
  calculate_all-total db include_post_build [] s good = (s, refl)
  calculate_all-total db include_post_build ((k, req) ∷ reqs) s (good, rest) =
      let (st, computed) = (compute_requirement_status_raises db req include_post_build).1 good in
      let s₁ : Statistics = record {
        requirement_stats = put s.requirement_stats k st;
        totals = update_requirement_totals req st s.totals;
      } in
      let (s', done) = calculate_all-total db include_post_build reqs s₁ rest in
      (s', rw computed done)
