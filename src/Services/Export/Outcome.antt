-- ===== src/Services/Export/Outcome.antt =====
-- What an export with ids holds, in terms of the ids and of the links.
use reqstool_client.Prelude.{
  not, true, refl, ◌∙◌, [], if◌then◌else◌, ◌∷◌, arith, contains, some, ◌≡◌, any, false, List, Bool,
  String, ◌||◌, ◌&&◌, ◌==◌,
}
use reqstool_client.Prelude.Result.{err, ok, Result}
use reqstool_client.Services.Export.{
  given, apply_id_filters, restrict, add_known, requirements_of, add, expand, kept_mvrs, kept_reqs,
  Export, kept_svcs, select, resolve_ids,
}
use reqstool_client.Storage.Database.{Database}
use reqstool_client.Models.UrnId.{urn_id_eq, assure_urn_id, UrnId}
use reqstool_client.Models.Datasets.{has_key, Dict}
use reqstool_client.Storage.Repository.{get_initial_urn, get_mvrs_for_svc, get_svcs_for_req}
use reqstool_client.Services.Export.Selection.{
  contains-add_known, has_key-restrict, contains-expand,
}
use reqstool_client.Models.UrnId.Laws.{assure_urn_id-total}

-- The text stands for the item.
abbrev pub is_id : Result UrnId → UrnId → Bool
is_id (ok j) k = j == k
is_id (err e) k = false

-- Some of the texts stands for it.
abbrev pub names : String → List String → UrnId → Bool
names urn ids k = any (λ id. is_id (assure_urn_id urn id) k) ids

one_more :
    {V : Type 0} (lookup : Dict UrnId V) (resolved : List UrnId) (j k : UrnId)
    → contains (if has_key lookup j then add resolved j else resolved) k
      ≡ (contains resolved k || has_key lookup k && (j == k))
unfolding add_known
one_more lookup resolved j k = contains-add_known (j ∷ []) lookup resolved k ∙ ground arith

joined : (a b c d : Bool) → ((c || a && b) || a && d) ≡ (c || a && (b || d))
joined a b c d = ground arith

resolve_ids-total :
    {V : Type 0} (urn : String) (ids : List String) (lookup : Dict UrnId V) (resolved : List UrnId)
    → (ks : List UrnId) × (resolve_ids ids (some urn) lookup resolved ≡ ok ks)
      × ((k : UrnId) → contains ks k ≡ (contains resolved k || has_key lookup k && names urn ids k))
unfolding resolve_ids
resolve_ids-total urn [] lookup resolved = (resolved, refl, λ k. ground arith)
resolve_ids-total urn (id ∷ ids) lookup resolved =
    let (j, p) = assure_urn_id-total urn id in
    let (ks, q, h) =
      resolve_ids-total urn ids lookup (if has_key lookup j then add resolved j else resolved) in
    (
      ks,
      rw p q,
      λ k.
          h k
          ∙ rw (p, one_more lookup resolved j k)
              (joined (has_key lookup k) (j == k) (contains resolved k) (names urn ids k)),
    )

-- What an export holds of an item, if the texts stand for the requirements `reqs` and the SVCs `svcs`, and
-- if `chosen` are the SVCs that it holds
abbrev pub IsSelection :
    Database → Bool → List UrnId → List UrnId → List UrnId → Export → Export → UrnId → Type 0
IsSelection db only_svcs reqs svcs chosen all_items x k =
    (contains chosen k ≡ (
      contains svcs k
      || has_key all_items.svcs k && any (λ r. contains (get_svcs_for_req db r) k) reqs))
    × (has_key x.svcs k ≡ (has_key all_items.svcs k && contains chosen k))
    × (has_key x.mvrs k
        ≡ (has_key all_items.mvrs k && any (λ s. contains (get_mvrs_for_svc db s) k) chosen))
    × (has_key x.requirements k ≡ (
        has_key all_items.requirements k
        && (contains reqs k
            || only_svcs && any (λ s. contains (requirements_of all_items.svcs s) k) chosen)))
    × (has_key x.test_results k ≡ (has_key all_items.test_results k && contains chosen k))

absorbed : (a b : Bool) → (a && (false || a && b)) ≡ (a && b)
absorbed a b = ground arith

absorbed_or : (a b c : Bool) → (a && (c || a && b)) ≡ (a && (c || true && b))
absorbed_or a b c = ground arith

requirements_of_selection :
    (db : Database) (only_svcs : Bool) (reqs chosen : List UrnId) (all_items : Export) (k : UrnId)
    → has_key (restrict (kept_reqs db only_svcs reqs chosen all_items) all_items.requirements) k ≡ (
        has_key all_items.requirements k
        && (contains reqs k
            || only_svcs && any (λ s. contains (requirements_of all_items.svcs s) k) chosen))
unfolding kept_reqs
requirements_of_selection db true reqs chosen all_items k =
    has_key-restrict (expand (requirements_of all_items.svcs) chosen all_items.requirements reqs)
      all_items.requirements k
    ∙ rw (contains-expand (requirements_of all_items.svcs) chosen all_items.requirements reqs k) (
        absorbed_or (has_key all_items.requirements k)
          (any (λ s. contains (requirements_of all_items.svcs s) k) chosen) (contains reqs k))
requirements_of_selection db false reqs chosen all_items k =
    has_key-restrict reqs all_items.requirements k ∙ ground arith

select-IsSelection :
    (db : Database) (only_svcs : Bool) (reqs svcs : List UrnId) (all_items : Export) (k : UrnId)
    → IsSelection db only_svcs reqs svcs
        (kept_svcs db reqs svcs all_items)
        all_items
        (select db only_svcs reqs svcs all_items)
        k
unfolding select kept_svcs kept_reqs kept_mvrs
select-IsSelection db only_svcs reqs svcs all_items k =
    let chosen = expand (get_svcs_for_req db) reqs all_items.svcs svcs in
    (
      contains-expand (get_svcs_for_req db) reqs all_items.svcs svcs k,
      has_key-restrict chosen all_items.svcs k,
      has_key-restrict (expand (get_mvrs_for_svc db) chosen all_items.mvrs []) all_items.mvrs k
          ∙ rw (contains-expand (get_mvrs_for_svc db) chosen all_items.mvrs [] k) (
              absorbed (has_key all_items.mvrs k)
                (any (λ s. contains (get_mvrs_for_svc db s) k) chosen)),
      requirements_of_selection db only_svcs reqs chosen all_items k,
      has_key-restrict chosen all_items.test_results k,
    )

-- With an initial urn, an export with ids is made: it holds the SVCs that the ids name or that verify a
-- requirement that they name, the MVRs of those SVCs, and the requirements that the ids name, or, if they
-- name SVCs only, those that these SVCs verify. Test results are held only under the id of an SVC.
pub apply_id_filters-IsSelection :
    (db : Database) (urn : String) (req_ids svc_ids : List String) (all_items : Export)
    → get_initial_urn db ≡ some urn
    → (x : Export) × (reqs : List UrnId) × (svcs : List UrnId) × (chosen : List UrnId)
      × (apply_id_filters db req_ids svc_ids all_items ≡ ok x)
      × ((k : UrnId) → contains reqs k ≡ (has_key all_items.requirements k && names urn req_ids k))
      × ((k : UrnId) → contains svcs k ≡ (has_key all_items.svcs k && names urn svc_ids k))
      × ((k : UrnId)
          → IsSelection db (given svc_ids && not (given req_ids)) reqs svcs chosen all_items x k)
unfolding apply_id_filters
apply_id_filters-IsSelection db urn req_ids svc_ids all_items initial =
    let (reqs, p, r) = resolve_ids-total urn req_ids all_items.requirements [] in
    let (svcs, q, s) = resolve_ids-total urn svc_ids all_items.svcs [] in
    (
      select db (given svc_ids && not (given req_ids)) reqs svcs all_items,
      reqs,
      svcs,
      kept_svcs db reqs svcs all_items,
      rw (initial, p, q),
      r,
      s,
      select-IsSelection db (given svc_ids && not (given req_ids)) reqs svcs all_items,
    )
