-- ===== src/Services/Statistics/VerdictLaws/Manual.antt =====
-- `_compute_requirement_mvr_stats`: the manual verdicts of the SVCs of a requirement.
use reqstool_client.Prelude.{
  ◌<◌, All-zip, inr, sym, All-map, ==_iff, inl, ==_refl, ◌==◌, true, Bool-cases, any, ap, refl, [],
  ◌∙◌, map, ◌∷◌, all, ℕ, arith, none, ◌||◌, some, ◌≡◌, ◌≤◌, if◌then◌else◌, ◌&&◌, All, not, false,
  eqb, List, Bool, Option, ◌+◌,
}
use reqstool_client.Storage.Repository.{TieOrder, get_svc, get_effective_mvr_for_svc}
use reqstool_client.Services.Statistics.Records.{no_tests, is_completed, TestStats}
use reqstool_client.Services.Statistics.Verdict.{
  compute_mvr_stats, should_have_mvrs, svc_map, wants_mvr, mvr_loop, count_mvr,
}
use reqstool_client.Storage.Database.{Database}
use reqstool_client.Models.Entities.{expects_mvrs, SvcData, MvrData}
use reqstool_client.Models.UrnId.{urn_id_eq, UrnId}
use reqstool_client.Models.Datasets.{has_key, put, get, Dict}

-- The current manual verdict of an SVC is a pass.
abbrev pub passes : Option MvrData → Bool
passes none = false
passes (some m) = m.passed

and_assoc : (a b c : Bool) → ((a && b) && c) ≡ (a && (b && c))
and_assoc a b c = ground arith

module _ ⦃order : TieOrder⦄ where
  -- An SVC that expects a manual verdict has one, and it is a pass.
  abbrev pub mvr_ok : Database → SvcData → Bool
  mvr_ok db s = not (expects_mvrs s.verification) || passes (get_effective_mvr_for_svc db s.id)

-- The SVCs are what the repository returns for their ids.
abbrev pub AreStored : Database → List SvcData → Type 0
AreStored db svcs = All (λ s. get_svc db s.id ≡ some s) svcs

-- No verdict is missing or a failure so far.
abbrev is_good : TestStats → Bool
is_good st = eqb st.missing 0 && eqb st.total st.passed

module _ ⦃order : TieOrder⦄ (db : Database) where
  abbrev pub step : Bool → UrnId → TestStats → TestStats
  step wanted k st = if wanted then count_mvr (get_effective_mvr_for_svc db k) st else st

  is_good-step :
      (wanted : Bool) (k : UrnId) (st : TestStats)
      → st.passed ≤ st.total
      → (is_good (step wanted k st)
          ≡ (is_good st && (not wanted || passes (get_effective_mvr_for_svc db k))))
        × ((step wanted k st).passed ≤ (step wanted k st).total)
        × ((step wanted k st).not_applicable ≡ st.not_applicable)
        × ((step wanted k st).total + (step wanted k st).missing
            ≡ st.total + st.missing + (if wanted then 1 else 0))
        × ((step wanted k st).total + st.passed + st.failed
            ≡ st.total + (step wanted k st).passed + (step wanted k st).failed)
  is_good-step wanted k st h = ground arith

  -- The number of SVCs that expect a manual verdict
  abbrev pub count_wanting : List SvcData → ℕ
  count_wanting [] = 0
  count_wanting (s ∷ svcs) = (if expects_mvrs s.verification then 1 else 0) + count_wanting svcs

  abbrev pub id_of : SvcData → UrnId
  id_of s = s.id

  abbrev pub Wants : Dict UrnId SvcData → List SvcData → Type 0
  Wants d svcs = All (λ s. wants_mvr (get d s.id) ≡ expects_mvrs s.verification) svcs

  -- What the loop leaves, from what it started with
  abbrev LoopResult : List SvcData → TestStats → TestStats → Type 0
  LoopResult svcs st r =
      (is_good r ≡ (is_good st && all (mvr_ok db) svcs))
      × (r.not_applicable ≡ st.not_applicable)
      × (r.total + r.missing ≡ st.total + st.missing + count_wanting svcs)
      × (r.total + st.passed + st.failed ≡ st.total + r.passed + r.failed)

  pub mvr_loop-nil : (d : Dict UrnId SvcData) (st : TestStats) → mvr_loop db d [] st ≡ st
  unfolding mvr_loop
  mvr_loop-nil d st = refl

  pub mvr_loop-cons :
      (d : Dict UrnId SvcData) (s : SvcData) (ks : List UrnId) (st : TestStats)
      → wants_mvr (get d s.id) ≡ expects_mvrs s.verification
      → mvr_loop db d (s.id ∷ ks) st ≡ mvr_loop db d ks (step (expects_mvrs s.verification) s.id st)
  unfolding mvr_loop
  mvr_loop-cons d s ks st w = ap (λ b. mvr_loop db d ks (step b s.id st)) w

  mvr_loop_lem :
      (d : Dict UrnId SvcData) (svcs : List SvcData) (st : TestStats)
      → Wants d svcs
      → st.passed ≤ st.total
      → LoopResult svcs st (mvr_loop db d (map id_of svcs) st)
  mvr_loop_lem d [] st w h = rw mvr_loop-nil (ground arith, refl, omega arith, omega arith)
  mvr_loop_lem d (s ∷ svcs) st w h =
      let wanted = expects_mvrs s.verification in
      let (e₀, e₁, e₂, e₃, e₄) = is_good-step wanted s.id st h in
      let (f₀, f₁, f₂, f₃) = mvr_loop_lem d svcs (step wanted s.id st) w.1 e₁ in
      rw (mvr_loop-cons d s (map id_of svcs) st w.0) (
        rw (f₀, e₀) (and_assoc (is_good st) (mvr_ok db s) (all (mvr_ok db) svcs)),
        f₁ ∙ e₂,
        omega arith,
        omega arith,
      )

  -- The map holds what the repository returns for each of its keys.
  abbrev IsOf : Dict UrnId SvcData → Type 0
  IsOf [] = Unit
  IsOf ((k, s) ∷ d) = (get_svc db k ≡ some s) × IsOf d

  put-IsOf :
      (d : Dict UrnId SvcData) (k : UrnId) (s : SvcData)
      → IsOf d
      → get_svc db k ≡ some s
      → IsOf (put d k s)
  put-IsOf [] k s h e = (e, tt)
  put-IsOf ((j, x) ∷ d) k s h e = elim (Bool-cases (j == k)) [
    | inl same ↦ rw same (rw ((==_iff j k).0 same) e, h.1)
    | inr other ↦ rw other (h.0, put-IsOf d k s h.1 e)
  ]

  svc_map-IsOf :
      (svcs : List SvcData) (d : Dict UrnId SvcData)
      → AreStored db svcs
      → IsOf d
      → IsOf (svc_map svcs d)
  svc_map-IsOf [] d a h = h
  svc_map-IsOf (s ∷ svcs) d a h = svc_map-IsOf svcs (put d s.id s) a.1 (put-IsOf d s.id s h a.0)

  has_key-put :
      (d : Dict UrnId SvcData) (k j : UrnId) (s : SvcData)
      → has_key (put d k s) j ≡ (k == j || has_key d j)
  has_key-put [] k j s = ground arith
  has_key-put ((i, x) ∷ d) k j s = ground (arith, has_key-put d k j s)

  has_key-svc_map :
      (svcs : List SvcData) (d : Dict UrnId SvcData) (k : UrnId)
      → has_key (svc_map svcs d) k ≡ (any (λ s. s.id == k) svcs || has_key d k)
  has_key-svc_map [] d k = refl
  has_key-svc_map (s ∷ svcs) d k =
      has_key-svc_map svcs (put d s.id s) k ∙ rw (has_key-put d s.id k s) (ground arith)

  any_self : (svcs : List SvcData) → All (λ s. any (λ x. x.id == s.id) svcs ≡ true) svcs
  any_self [] = tt
  any_self (s ∷ svcs) = (
    rw (==_refl s.id),
    All-map (λ x. any (λ y. y.id == x.id) svcs ≡ true)
        (λ x. any (λ y. y.id == x.id) (s ∷ svcs) ≡ true) (λ x h. ground arith) svcs (any_self svcs),
  )

  get-of_has_key :
      (d : Dict UrnId SvcData) (k : UrnId) → IsOf d → has_key d k ≡ true → get d k ≡ get_svc db k
  get-of_has_key [] k h e = cc
  get-of_has_key ((j, x) ∷ d) k h e = elim (Bool-cases (j == k)) [
    | inl same ↦ rw same (rw (← (==_iff j k).0 same) (sym h.0))
    | inr other ↦ rw other (get-of_has_key d k h.1 (rw other at e))
  ]

  pub Wants-svc_map : (svcs : List SvcData) → AreStored db svcs → Wants (svc_map svcs []) svcs
  Wants-svc_map svcs a =
      All-zip (λ s. any (λ x. x.id == s.id) svcs ≡ true) (λ s. get_svc db s.id ≡ some s)
        (λ s. wants_mvr (get (svc_map svcs []) s.id) ≡ expects_mvrs s.verification)
        (λ s listed stored. rw (
          get-of_has_key (svc_map svcs []) s.id (svc_map-IsOf svcs [] a tt)
              (has_key-svc_map svcs [] s.id ∙ rw listed),
          stored,
        ))
        svcs (any_self svcs) a

  all-mvr_ok_of_none :
      (svcs : List SvcData) → should_have_mvrs svcs ≡ false → all (mvr_ok db) svcs ≡ true
  unfolding should_have_mvrs
  all-mvr_ok_of_none [] h = refl
  all-mvr_ok_of_none (s ∷ svcs) h = ground (arith, all-mvr_ok_of_none svcs)

  count_wanting-pos : (svcs : List SvcData) → should_have_mvrs svcs ≡ true → 0 < count_wanting svcs
  unfolding should_have_mvrs
  count_wanting-pos [] h = cc
  count_wanting-pos (s ∷ svcs) h = ground (arith, count_wanting-pos svcs)

  count_wanting_of_none :
      (svcs : List SvcData) → should_have_mvrs svcs ≡ false → count_wanting svcs ≡ 0
  unfolding should_have_mvrs
  count_wanting_of_none [] h = refl
  count_wanting_of_none (s ∷ svcs) h = ground (arith, count_wanting_of_none svcs)

  is_completed_of_good :
      (st : TestStats)
      → st.not_applicable ≡ false
      → 0 < st.total + st.missing
      → is_completed st ≡ is_good st
  unfolding is_completed
  is_completed_of_good st n h = rw n (ground arith)

  is_completed_of_not_applicable : is_completed (record no_tests { not_applicable = true }) ≡ true
  unfolding is_completed
  is_completed_of_not_applicable = refl

  -- The manual part of the verdict: every SVC that expects a manual verdict has a passing one.
  pub is_completed-compute_mvr_stats :
      (svcs : List SvcData)
      → AreStored db svcs
      → is_completed (compute_mvr_stats db (map id_of svcs) svcs (should_have_mvrs svcs))
        ≡ all (mvr_ok db) svcs
  unfolding compute_mvr_stats
  is_completed-compute_mvr_stats svcs a = elim (Bool-cases (should_have_mvrs svcs)) [
    | inl wanted ↦
        let r = mvr_loop db (svc_map svcs []) (map id_of svcs) no_tests in
        let (e₀, e₁, e₂, e₃) =
          mvr_loop_lem (svc_map svcs []) svcs no_tests (Wants-svc_map svcs a) (omega arith) in
        rw wanted (is_completed_of_good r e₁ (omega (arith, count_wanting-pos svcs wanted)) ∙ e₀)
    | inr none_wanted ↦
        rw none_wanted (is_completed_of_not_applicable ∙ sym (all-mvr_ok_of_none svcs none_wanted))
  ]
