-- ===== src/Validators/Lifecycle.antt =====
-- common/validators/lifecycle_validator.py: `LifecycleValidator`, without the texts of its messages.
mod Segments
pub mod Warnings
use mathlib.Core.Option
use reqstool_client.Prelude.{
  none, ◌&&◌, some, leb, filter, true, ◌++◌, if◌then◌else◌, false, [], List, Option, Bool, String,
  ◌∷◌,
}
use reqstool_client.Models.UrnId.{urn_id_eq, UrnId}
use reqstool_client.Models.Entities.{
  RequirementData, is_in_use, SvcData, MvrData, sort_order, is_defunct, LifecycleState,
}
use reqstool_client.Models.Datasets.{get, keys, Dict}
use reqstool_client.Storage.Repository.{
  get_annotations_tests, get_annotations_impls, get_all_mvrs, get_all_svcs, append_at,
  get_all_requirements,
}
use reqstool_client.Storage.Database.{Database}

-- `Warning`: the state, and what the message names
pub data Subject : Type 0 where
  annotated : UrnId → Subject
  referenced_by_mvrs referenced_by_svcs : UrnId → List UrnId → Subject

pub record Warning : Type 0 where
  pub state : LifecycleState
  pub subject : Subject

abbrev pub warn : Bool → LifecycleState → Subject → List Warning
warn b s subject = if b then record { state = s; subject = subject } ∷ [] else []

abbrev pub annotated_warning : Option LifecycleState → UrnId → List Warning
annotated_warning none k = []
annotated_warning (some s) k = warn (is_defunct s) s (annotated k)

-- `_check_defunct_annotations`, from the states of the items that are annotated
unfoldable pub check_defunct_annotations :
    List UrnId → (UrnId → Option LifecycleState) → List Warning
unfolding is_defunct
check_defunct_annotations [] state_of = []
check_defunct_annotations (k ∷ ks) state_of =
    annotated_warning (state_of k) k ++ check_defunct_annotations ks state_of

-- `for target in targets: index.setdefault(target, []).append(owner)`
unfoldable pub index_targets :
    List UrnId → UrnId → Dict UrnId (List UrnId) → Dict UrnId (List UrnId)
unfolding urn_id_eq
index_targets [] owner index = index
index_targets (target ∷ targets) owner index =
    index_targets targets owner (append_at index target owner)

unfoldable pub index_mvrs : Dict UrnId MvrData → Dict UrnId (List UrnId) → Dict UrnId (List UrnId)
unfolding index_targets
index_mvrs [] index = index
index_mvrs ((k, m) ∷ mvrs) index = index_mvrs mvrs (index_targets m.svc_ids k index)

unfoldable pub index_svcs : Dict UrnId SvcData → Dict UrnId (List UrnId) → Dict UrnId (List UrnId)
unfolding index_targets
index_svcs [] index = index
index_svcs ((k, s) ∷ svcs) index = index_svcs svcs (index_targets s.requirement_ids k index)

abbrev pub mvr_warning : Option LifecycleState → UrnId → List UrnId → List Warning
mvr_warning none k mvrs = []
mvr_warning (some s) k mvrs = warn (is_defunct s) s (referenced_by_mvrs k mvrs)

-- The second loop of `_check_mvr_references`
unfoldable pub warn_mvr_references :
    Dict UrnId (List UrnId) → (UrnId → Option LifecycleState) → List Warning
unfolding is_defunct
warn_mvr_references [] state_of = []
warn_mvr_references ((k, mvrs) ∷ index) state_of =
    mvr_warning (state_of k) k mvrs ++ warn_mvr_references index state_of

abbrev pub in_use : Option LifecycleState → Bool
in_use none = false
in_use (some s) = is_in_use s

abbrev pub non_empty : List UrnId → Bool
non_empty [] = false
non_empty (k ∷ ks) = true

abbrev pub svc_warning : Option LifecycleState → UrnId → List UrnId → List Warning
svc_warning none k svcs = []
svc_warning (some s) k svcs = warn (is_defunct s && non_empty svcs) s (referenced_by_svcs k svcs)

-- The second loop of `_check_svc_references`
unfoldable pub warn_svc_references :
    Dict UrnId (List UrnId)
    → (UrnId → Option LifecycleState)
    → (UrnId → Option LifecycleState)
    → List Warning
unfolding is_defunct is_in_use
warn_svc_references [] state_of svc_state_of = []
warn_svc_references ((k, svcs) ∷ index) state_of svc_state_of =
    svc_warning (state_of k) k (filter (λ s. in_use (svc_state_of s)) svcs)
    ++ warn_svc_references index state_of svc_state_of

-- `self.warnings.sort(key=…)`: Python's sort is stable.
unfoldable pub insert_warning : Warning → List Warning → List Warning
unfolding sort_order
insert_warning w [] = w ∷ []
insert_warning w (x ∷ ws) =
    let later = insert_warning w ws in
    if leb (sort_order w.state) (sort_order x.state) then w ∷ x ∷ ws else x ∷ later

unfoldable pub sort_warnings : List Warning → List Warning
unfolding insert_warning
sort_warnings [] = []
sort_warnings (w ∷ ws) = insert_warning w (sort_warnings ws)

unfoldable pub requirement_state : Dict UrnId RequirementData → UrnId → Option LifecycleState
unfolding urn_id_eq
requirement_state d k = Option.map (λ (r : RequirementData). r.lifecycle.state) (get d k)

unfoldable pub svc_state : Dict UrnId SvcData → UrnId → Option LifecycleState
unfolding urn_id_eq
svc_state d k = Option.map (λ (s : SvcData). s.lifecycle.state) (get d k)

-- `_validate`, up to the sorting
unfoldable pub collect_warnings : Database → List Warning
unfolding check_defunct_annotations index_mvrs index_svcs warn_mvr_references warn_svc_references
    requirement_state svc_state get_all_requirements get_all_svcs get_all_mvrs get_annotations_impls
    get_annotations_tests
collect_warnings db =
    let requirements = get_all_requirements db none none in
    let svcs = get_all_svcs db none none in
    check_defunct_annotations (keys (get_annotations_impls db none))
      (requirement_state requirements)
    ++ (check_defunct_annotations (keys (get_annotations_tests db none)) (svc_state svcs)
        ++ (warn_mvr_references (index_mvrs (get_all_mvrs db none none) []) (svc_state svcs)
            ++ warn_svc_references (index_svcs svcs []) (requirement_state requirements)
                (svc_state svcs)))

-- `_validate`
unfoldable pub validate : Database → List Warning
unfolding collect_warnings sort_warnings
validate db = sort_warnings (collect_warnings db)
