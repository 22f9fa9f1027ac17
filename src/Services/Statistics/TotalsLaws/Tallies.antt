-- ===== src/Services/Statistics/TotalsLaws/Tallies.antt =====
-- What the totals over the requirements count.
use reqstool_client.Prelude.{[], none, false, ◌∷◌, arith, length, ltb, Bool, ◌&&◌, ◌+◌, ◌≡◌}
use reqstool_client.Models.Entities.{
  framework, platform, configuration, not_applicable, in_code, RequirementData, Implementation,
}
use reqstool_client.Services.Statistics.Totals.{
  Statistics, update_requirement_totals, calculate, calculate_all, calculate_requirement_stats,
}
use reqstool_client.Storage.Database.{Database}
use reqstool_client.Prelude.Result.{ok-injective, err, >>=-eq-ok, ok, Result}
use reqstool_client.Models.Datasets.{Dict}
use reqstool_client.Models.UrnId.{UrnId}
use reqstool_client.Storage.Repository.{
  get_automated_test_results, get_annotations_tests, get_all_svcs, get_all_requirements,
  get_annotations_impls_for_req, TieOrder,
}
use reqstool_client.Services.Statistics.Records.{
  zero_totals, code_completed, non_code_completed, TotalStats, code_reqs, non_code_total,
  RequirementStatus,
}
use reqstool_client.Services.Statistics.VerdictLaws.Tally.{number}
use reqstool_client.Services.Statistics.Verdict.{compute_requirement_status}
use reqstool_client.Services.Statistics.TotalsLaws.Bounds.{
  calculate_all-total, zero-IsBounded, calculate_global_totals-IsBounded, IsBounded, IsSound,
}
use mathlib.Core.Path.{subst}
use reqstool_client.Services.Statistics.VerdictLaws.Completion.{
  compute_requirement_status-implementations,
}
use reqstool_client.Services.Statistics.TotalsLaws.Kinds.{
  Adds, number-kinds, length-kinds, update_totals-Adds, is_of,
}

-- A requirement with an implementation
abbrev pub is_implemented_in : Database → UrnId × RequirementData → Bool
is_implemented_in db p = ltb 0 (length (get_annotations_impls_for_req db p.1.id))

abbrev completed_in : Result RequirementStatus → Bool
completed_in (ok st) = st.completed
completed_in (err e) = false

module _ ⦃order : TieOrder⦄ (db : Database) (post : Bool) where
  -- A requirement whose status is complete
  abbrev pub is_complete : UrnId × RequirementData → Bool
  is_complete p = completed_in (compute_requirement_status db p.1 post)

  abbrev pub is_complete_of : Implementation → UrnId × RequirementData → Bool
  is_complete_of kind p = is_of kind p && is_complete p

  -- What some requirements add to the totals
  pub record IsCounted (reqs : Dict UrnId RequirementData) (before after : TotalStats)
      : Type 0 where
    pub requirements : after.total_requirements ≡ length reqs + before.total_requirements
    pub done :
        after.completed_requirements ≡ number is_complete reqs + before.completed_requirements
    pub implemented :
        after.with_implementation ≡ number (is_implemented_in db) reqs + before.with_implementation
    pub not_applicable_total :
        after.without_implementation_total
        ≡ number (is_of not_applicable) reqs + before.without_implementation_total
    pub not_applicable_completed :
        after.without_implementation_completed
        ≡ number (is_complete_of not_applicable) reqs + before.without_implementation_completed
    pub configuration_total :
        after.configuration_total ≡ number (is_of configuration) reqs + before.configuration_total
    pub configuration_completed :
        after.configuration_completed
        ≡ number (is_complete_of configuration) reqs + before.configuration_completed
    pub platform_total : after.platform_total ≡ number (is_of platform) reqs + before.platform_total
    pub platform_completed :
        after.platform_completed ≡ number (is_complete_of platform) reqs + before.platform_completed
    pub framework_total :
        after.framework_total ≡ number (is_of framework) reqs + before.framework_total
    pub framework_completed :
        after.framework_completed
        ≡ number (is_complete_of framework) reqs + before.framework_completed

  -- One requirement and the others
  cons-IsCounted :
      (p : UrnId × RequirementData) (reqs : Dict UrnId RequirementData)
      (before between after : TotalStats)
      → Adds p.1.implementation (is_complete p) (is_implemented_in db p) before between
      → IsCounted reqs between after
      → IsCounted (p ∷ reqs) before after
  cons-IsCounted p reqs before between after a c = omega arith

  update_requirement_totals-Adds :
      (k : UrnId) (req : RequirementData) (st : RequirementStatus) (t : TotalStats)
      → compute_requirement_status db req post ≡ ok st
      → Adds req.implementation
          (is_complete (k, req))
          (is_implemented_in db (k, req))
          t
          (update_requirement_totals req st t)
  unfolding update_requirement_totals
  update_requirement_totals-Adds k req st t computed =
      rw (computed, ← compute_requirement_status-implementations db req post st computed)
        (update_totals-Adds req.implementation st.completed (ltb 0 st.implementations)
          st.automated_tests st.manual_tests t)

  calculate_requirement_stats-Adds :
      (k : UrnId) (req : RequirementData) (s s' : Statistics)
      → calculate_requirement_stats db post k req s ≡ ok s'
      → Adds req.implementation
          (is_complete (k, req))
          (is_implemented_in db (k, req))
          s.totals
          s'.totals
  unfolding calculate_requirement_stats
  calculate_requirement_stats-Adds k req s s' h =
      let (st, computed, e) = >>=-eq-ok (compute_requirement_status db req post) _ h in
      subst
        (λ (x : Statistics).
          Adds req.implementation (is_complete (k, req)) (is_implemented_in db (k, req)) s.totals
            x.totals)
        (ok-injective _ s' e) (update_requirement_totals-Adds k req st s.totals computed)

  calculate_all-IsCounted :
      (reqs : Dict UrnId RequirementData) (s s' : Statistics)
      → calculate_all db post reqs s ≡ ok s'
      → IsCounted reqs s.totals s'.totals
  unfolding calculate_all
  calculate_all-IsCounted [] s s' h =
      subst (λ (x : Statistics). IsCounted [] s.totals x.totals) (ok-injective s s' h) (omega arith)
  calculate_all-IsCounted ((k, req) ∷ reqs) s s' h =
      let (s₁, first, rest) = >>=-eq-ok (calculate_requirement_stats db post k req s) _ h in
      cons-IsCounted (k, req) reqs s.totals s₁.totals s'.totals
        (calculate_requirement_stats-Adds k req s s₁ first)
        (calculate_all-IsCounted reqs s₁ s' rest)

  from_nothing :
      (reqs : Dict UrnId RequirementData) (start after : TotalStats)
      → IsBounded 0 start
      → IsCounted reqs start after
      → IsCounted reqs zero_totals after
  unfolding non_code_total non_code_completed
  from_nothing reqs start after b c = omega arith

  code-counts :
      (reqs : Dict UrnId RequirementData) (t : TotalStats)
      → IsCounted reqs zero_totals t
      → (code_reqs t ≡ number (is_of in_code) reqs)
        × (code_completed t ≡ number (is_complete_of in_code) reqs)
  unfolding code_reqs code_completed non_code_total non_code_completed
  code-counts reqs t c =
      (omega (arith, length-kinds reqs), omega (arith, number-kinds is_complete reqs))

  -- Unless some requirement of a non-code kind has an implementation, the statistics are computed: each
  -- total over requirements, from nothing, is the number of all requirements, of the complete ones, of
  -- those with an implementation, and for each non-code kind of those of the kind and of the complete
  -- ones among them; the differences `code_reqs` and `code_completed` are the numbers of in-code
  -- requirements and of the complete ones among them.
  pub calculate-IsCounted :
      IsSound db (get_all_requirements db none none)
      → (s : Statistics) × (calculate db post ≡ ok s)
        × IsCounted (get_all_requirements db none none) zero_totals s.totals
        × (code_reqs s.totals ≡ number (is_of in_code) (get_all_requirements db none none))
        × (code_completed s.totals
            ≡ number (is_complete_of in_code) (get_all_requirements db none none))
  unfolding calculate
  calculate-IsCounted good =
      let reqs = get_all_requirements db none none in
      let start =
        calculate_global_totals-IsBounded db (get_all_svcs db none none)
          (get_annotations_tests db none) (get_automated_test_results db) 0 zero_totals
          zero-IsBounded in
      let (s, h) = calculate_all-total db post reqs _ good in
      let c = from_nothing reqs _ s.totals start (calculate_all-IsCounted reqs _ s h) in
      let (code, done) = code-counts reqs s.totals c in (s, h, c, code, done)
