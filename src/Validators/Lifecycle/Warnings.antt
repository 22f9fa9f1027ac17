-- ===== src/Validators/Lifecycle/Warnings.antt =====
-- Which warnings the lifecycle validator gives, and in which order.
use reqstool_client.Prelude.{
  refl, ◌∙◌, any, ◌&&◌, contains, All-map, inr, ◌||◌, arith, inl, ◌≡◌, none, ◌++◌, leb, [], ◌≤◌,
  Bool-cases, All, Bool, ℕ, List, ◌∷◌,
}
use reqstool_client.Validators.Lifecycle.{
  in_use, index_svcs, warn_svc_references, index_mvrs, warn_mvr_references, svc_state,
  requirement_state, check_defunct_annotations, collect_warnings, Warning, validate, Subject,
  sort_warnings, insert_warning,
}
use reqstool_client.Models.Datasets.{keys, Dict}
use reqstool_client.Models.UrnId.{urn_id_eq, UrnId}
use reqstool_client.Models.Entities.{MvrData, SvcData, sort_order, RequirementData}
use reqstool_client.Validators.Lifecycle.Segments.{
  has_entry-index_svcs, warn_svc_references_lem, has_key-index_mvrs, warn_mvr_references_lem,
  check_defunct_annotations-none, warn_svc_references-none, warn_mvr_references-none,
  check_defunct_annotations_lem, is_referenced_by_svcs, warns-sort_warnings, is_referenced_by_mvrs,
  defunct, warns-append, is_annotated, warns,
}
use reqstool_client.Storage.Database.{Database}
use reqstool_client.Storage.Repository.{
  get_annotations_tests, get_annotations_impls, get_all_mvrs, get_all_svcs, get_all_requirements,
}

-- Each warning stands before those of a later state: obsolete, deprecated, effective, draft.
abbrev pub IsOrdered : List Warning → Type 0
IsOrdered [] = Unit
IsOrdered (w ∷ ws) =
    All (λ (x : Warning). sort_order w.state ≤ sort_order x.state) ws × IsOrdered ws

All-insert_warning :
    (n : ℕ) (w : Warning) (ws : List Warning)
    → n ≤ sort_order w.state
    → All (λ (x : Warning). n ≤ sort_order x.state) ws
    → All (λ (x : Warning). n ≤ sort_order x.state) (insert_warning w ws)
unfolding insert_warning
All-insert_warning n w [] h k = (h, tt)
All-insert_warning n w (x ∷ ws) h (less, k) =
    elim (Bool-cases (leb (sort_order w.state) (sort_order x.state))) [
      | inl first ↦ rw first (h, (less, k))
      | inr later ↦ rw later (less, All-insert_warning n w ws h k)
    ]

insert_warning-IsOrdered :
    (w : Warning) (ws : List Warning) → IsOrdered ws → IsOrdered (insert_warning w ws)
unfolding insert_warning
insert_warning-IsOrdered w [] o = (tt, tt)
insert_warning-IsOrdered w (x ∷ ws) (a, o) =
    elim (Bool-cases (leb (sort_order w.state) (sort_order x.state))) [
      | inl first ↦
          let le : sort_order w.state ≤ sort_order x.state = ground arith in
          rw first (
            (
              le,
              All-map (λ (y : Warning). sort_order x.state ≤ sort_order y.state)
                  (λ (y : Warning). sort_order w.state ≤ sort_order y.state) (λ y h. omega arith) ws
                  a,
            ),
            (a, o),
          )
      | inr later ↦
          let le : sort_order x.state ≤ sort_order w.state = ground arith in
          rw later
            (All-insert_warning (sort_order x.state) w ws le a, insert_warning-IsOrdered w ws o)
    ]

sort_warnings-IsOrdered : (ws : List Warning) → IsOrdered (sort_warnings ws)
unfolding sort_warnings
sort_warnings-IsOrdered [] = tt
sort_warnings-IsOrdered (w ∷ ws) =
    insert_warning-IsOrdered w (sort_warnings ws) (sort_warnings-IsOrdered ws)

pub validate-IsOrdered : (db : Database) → IsOrdered (validate db)
unfolding validate
validate-IsOrdered db = sort_warnings-IsOrdered (collect_warnings db)

-- What the warnings of a database say of an item, in terms of the requirements, SVCs, MVRs and
-- annotations that the repository returns
abbrev pub IsReport :
    Dict UrnId RequirementData
    → Dict UrnId SvcData
    → Dict UrnId MvrData
    → List UrnId
    → List UrnId
    → UrnId
    → List Warning
    → Type 0
IsReport requirements svcs mvrs impls tests k ws =
    (warns (is_annotated k) ws ≡ (
      contains impls k && defunct (requirement_state requirements k)
      || contains tests k && defunct (svc_state svcs k)))
    × (warns (is_referenced_by_mvrs k) ws ≡ (
        defunct (svc_state svcs k) && any (λ (e : UrnId × MvrData). contains e.1.svc_ids k) mvrs))
    × (warns (is_referenced_by_svcs k) ws ≡ (
        defunct (requirement_state requirements k)
        && any
            (λ (e : UrnId × SvcData). contains e.1.requirement_ids k && in_use (svc_state svcs e.0))
            svcs))

warns_four :
    (p : Subject → Bool) (a b c d : List Warning)
    → warns p (a ++ (b ++ (c ++ d))) ≡ (warns p a || (warns p b || (warns p c || warns p d)))
warns_four p a b c d = simp warns-append

collect_warnings-IsReport :
    (requirements : Dict UrnId RequirementData) (svcs : Dict UrnId SvcData)
    (mvrs : Dict UrnId MvrData) (impls tests : List UrnId) (k : UrnId)
    → IsReport requirements svcs mvrs impls tests k (
        check_defunct_annotations impls (requirement_state requirements)
        ++ (check_defunct_annotations tests (svc_state svcs)
            ++ (warn_mvr_references (index_mvrs mvrs []) (svc_state svcs)
                ++ warn_svc_references
                    (index_svcs svcs [])
                    (requirement_state requirements)
                    (svc_state svcs))))
collect_warnings-IsReport requirements svcs mvrs impls tests k =
    let rs = requirement_state requirements in
    let ss = svc_state svcs in
    let used = λ (s : UrnId). in_use (ss s) in
    let a = check_defunct_annotations impls rs in
    let b = check_defunct_annotations tests ss in
    let c = warn_mvr_references (index_mvrs mvrs []) ss in
    let d = warn_svc_references (index_svcs svcs []) rs ss in
    (
      warns_four (is_annotated k) a b c d
          ∙ rw
              (
                check_defunct_annotations_lem impls rs k,
                check_defunct_annotations_lem tests ss k,
                warn_mvr_references-none (is_annotated k) (index_mvrs mvrs []) ss (λ j x. refl),
                warn_svc_references-none (is_annotated k) (index_svcs svcs []) rs ss (λ j x. refl),
              )
              (ground arith),
      warns_four (is_referenced_by_mvrs k) a b c d
          ∙ rw
              (
                check_defunct_annotations-none (is_referenced_by_mvrs k) impls rs (λ j. refl),
                check_defunct_annotations-none (is_referenced_by_mvrs k) tests ss (λ j. refl),
                warn_svc_references-none (is_referenced_by_mvrs k) (index_svcs svcs []) rs ss
                    (λ j x. refl),
                warn_mvr_references_lem (index_mvrs mvrs []) ss k,
                has_key-index_mvrs mvrs [] k,
              )
              (ground arith),
      warns_four (is_referenced_by_svcs k) a b c d
          ∙ rw (
            check_defunct_annotations-none (is_referenced_by_svcs k) impls rs (λ j. refl),
            check_defunct_annotations-none (is_referenced_by_svcs k) tests ss (λ j. refl),
            warn_mvr_references-none (is_referenced_by_svcs k) (index_mvrs mvrs []) ss
                (λ j x. refl),
            warn_svc_references_lem (index_svcs svcs []) rs ss k,
            has_entry-index_svcs k used svcs [],
          ),
    )

-- An item is warned of exactly if it is deprecated or obsolete and used: a requirement or SVC by an
-- annotation, an SVC by an MVR, a requirement by an SVC that is itself in use. The warnings on obsolete
-- items come first.
pub validate_warns :
    (db : Database) (k : UrnId)
    → IsReport
        (get_all_requirements db none none)
        (get_all_svcs db none none)
        (get_all_mvrs db none none)
        (keys (get_annotations_impls db none))
        (keys (get_annotations_tests db none))
        k
        (validate db)
      × IsOrdered (validate db)
unfolding validate collect_warnings
validate_warns db k =
    let ws = collect_warnings db in
    let (x, y, z) =
      collect_warnings-IsReport (get_all_requirements db none none) (get_all_svcs db none none)
        (get_all_mvrs db none none) (keys (get_annotations_impls db none))
        (keys (get_annotations_tests db none)) k in
    (
      (
        warns-sort_warnings (is_annotated k) ws ∙ x,
        warns-sort_warnings (is_referenced_by_mvrs k) ws ∙ y,
        warns-sort_warnings (is_referenced_by_svcs k) ws ∙ z,
      ),
      sort_warnings-IsOrdered ws,
    )
