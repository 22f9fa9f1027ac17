-- ===== src/Validators/Lifecycle/Segments.antt =====
-- What each check of the lifecycle validator warns of.
use reqstool_client.Prelude.{
  filter, refl, true, [], none, ap, arith, any-append, ◌&&◌, ◌∙◌, ◌++◌, some, ◌||◌, ◌==◌, contains,
  any, ◌≡◌, false, List, Bool, Option, ◌∷◌,
}
use reqstool_client.Models.UrnId.{urn_id_eq, UrnId}
use reqstool_client.Validators.Lifecycle.{
  warn_mvr_references, mvr_warning, in_use, warn_svc_references, svc_warning, non_empty, index_svcs,
  index_mvrs, index_targets, referenced_by_svcs, referenced_by_mvrs, annotated, annotated_warning,
  warn, Warning, check_defunct_annotations, sort_warnings, insert_warning, Subject,
}
use reqstool_client.Models.Entities.{SvcData, MvrData, is_defunct, LifecycleState}
use reqstool_client.Models.Datasets.{has_key, Dict}
use reqstool_client.Storage.Repository.{append_at}

abbrev pub is_annotated : UrnId → Subject → Bool
is_annotated k (annotated j) = j == k
is_annotated k _ = false

abbrev pub is_referenced_by_mvrs : UrnId → Subject → Bool
is_referenced_by_mvrs k (referenced_by_mvrs j mvrs) = j == k
is_referenced_by_mvrs k _ = false

abbrev pub is_referenced_by_svcs : UrnId → Subject → Bool
is_referenced_by_svcs k (referenced_by_svcs j svcs) = j == k
is_referenced_by_svcs k _ = false

-- Some warning has such a subject.
abbrev pub warns : (Subject → Bool) → List Warning → Bool
warns p ws = any (λ (w : Warning). p w.subject) ws

abbrev pub defunct : Option LifecycleState → Bool
defunct none = false
defunct (some s) = is_defunct s

pub warns-append :
    (p : Subject → Bool) (a b : List Warning) → warns p (a ++ b) ≡ (warns p a || warns p b)
warns-append p a b = any-append (λ (w : Warning). p w.subject) a b

pub warns-insert_warning :
    (p : Subject → Bool) (w : Warning) (ws : List Warning)
    → warns p (insert_warning w ws) ≡ (p w.subject || warns p ws)
unfolding insert_warning
warns-insert_warning p w [] = refl
warns-insert_warning p w (x ∷ ws) = ground (arith, warns-insert_warning p w ws)

pub warns-sort_warnings :
    (p : Subject → Bool) (ws : List Warning) → warns p (sort_warnings ws) ≡ warns p ws
unfolding sort_warnings
warns-sort_warnings p [] = refl
warns-sort_warnings p (w ∷ ws) =
    warns-insert_warning p w (sort_warnings ws)
    ∙ ap (λ b. p w.subject || b) (warns-sort_warnings p ws)

warn_lem :
    (p : Subject → Bool) (b : Bool) (s : LifecycleState) (x : Subject)
    → warns p (warn b s x) ≡ (b && p x)
warn_lem p true s x = ground arith
warn_lem p false s x = refl

-- The annotations
pub annotated_warning_lem :
    (o : Option LifecycleState) (j k : UrnId)
    → warns (is_annotated k) (annotated_warning o j) ≡ (defunct o && j == k)
annotated_warning_lem none j k = refl
annotated_warning_lem (some s) j k = warn_lem (is_annotated k) (is_defunct s) s (annotated j)

pub check_defunct_annotations_lem :
    (ks : List UrnId) (state_of : UrnId → Option LifecycleState) (k : UrnId)
    → warns (is_annotated k) (check_defunct_annotations ks state_of)
      ≡ (contains ks k && defunct (state_of k))
unfolding check_defunct_annotations
check_defunct_annotations_lem [] state_of k = refl
check_defunct_annotations_lem (j ∷ ks) state_of k =
    warns-append (is_annotated k) (annotated_warning (state_of j) j)
      (check_defunct_annotations ks state_of)
    ∙ rw (annotated_warning_lem (state_of j) j k, check_defunct_annotations_lem ks state_of k)
        (ground arith)

-- Some entry of this key holds an item that passes.
abbrev pub has_entry : UrnId → (UrnId → Bool) → Dict UrnId (List UrnId) → Bool
has_entry k p index = any (λ (e : UrnId × List UrnId). e.0 == k && any p e.1) index

any_snoc :
    (p : UrnId → Bool) (ks : List UrnId) (k : UrnId) → any p (ks ++ k ∷ []) ≡ (any p ks || p k)
any_snoc p ks k = any-append p ks (k ∷ []) ∙ ground arith

pub has_entry-append_at :
    (k : UrnId) (p : UrnId → Bool) (index : Dict UrnId (List UrnId)) (target owner : UrnId)
    → has_entry k p (append_at index target owner) ≡ (has_entry k p index || target == k && p owner)
has_entry-append_at k p [] target owner = ground arith
has_entry-append_at k p ((j, ks) ∷ index) target owner =
    ground (arith, has_entry-append_at k p index target owner, any_snoc p ks owner)

pub has_entry-index_targets :
    (k : UrnId) (p : UrnId → Bool) (targets : List UrnId) (owner : UrnId)
    (index : Dict UrnId (List UrnId))
    → has_entry k p (index_targets targets owner index)
      ≡ (has_entry k p index || contains targets k && p owner)
unfolding index_targets
has_entry-index_targets k p [] owner index = ground arith
has_entry-index_targets k p (target ∷ targets) owner index =
    has_entry-index_targets k p targets owner (append_at index target owner)
    ∙ rw (has_entry-append_at k p index target owner) (ground arith)

pub has_entry-index_svcs :
    (k : UrnId) (p : UrnId → Bool) (svcs : Dict UrnId SvcData) (index : Dict UrnId (List UrnId))
    → has_entry k p (index_svcs svcs index) ≡ (
        has_entry k p index
        || any (λ (e : UrnId × SvcData). contains e.1.requirement_ids k && p e.0) svcs)
unfolding index_svcs
has_entry-index_svcs k p [] index = ground arith
has_entry-index_svcs k p ((j, s) ∷ svcs) index =
    has_entry-index_svcs k p svcs (index_targets s.requirement_ids j index)
    ∙ rw (has_entry-index_targets k p s.requirement_ids j index) (ground arith)

non_empty-filter : (p : UrnId → Bool) (ks : List UrnId) → non_empty (filter p ks) ≡ any p ks
non_empty-filter p [] = refl
non_empty-filter p (k ∷ ks) = ground (arith, non_empty-filter p ks)

pub svc_warning_lem :
    (o : Option LifecycleState) (j k : UrnId) (svcs : List UrnId)
    → warns (is_referenced_by_svcs k) (svc_warning o j svcs)
      ≡ (defunct o && (j == k && non_empty svcs))
svc_warning_lem none j k svcs = refl
svc_warning_lem (some s) j k svcs =
    warn_lem (is_referenced_by_svcs k) (is_defunct s && non_empty svcs) s
      (referenced_by_svcs j svcs)
    ∙ ground arith

pub warn_svc_references_lem :
    (index : Dict UrnId (List UrnId)) (state_of svc_state_of : UrnId → Option LifecycleState)
    (k : UrnId)
    → warns (is_referenced_by_svcs k) (warn_svc_references index state_of svc_state_of)
      ≡ (defunct (state_of k) && has_entry k (λ s. in_use (svc_state_of s)) index)
unfolding warn_svc_references
warn_svc_references_lem [] state_of svc_state_of k = ground arith
warn_svc_references_lem ((j, svcs) ∷ index) state_of svc_state_of k =
    let used = λ (s : UrnId). in_use (svc_state_of s) in
    warns-append (is_referenced_by_svcs k) (svc_warning (state_of j) j (filter used svcs))
      (warn_svc_references index state_of svc_state_of)
    ∙ rw
        (
          svc_warning_lem (state_of j) j k (filter used svcs),
          non_empty-filter used svcs,
          warn_svc_references_lem index state_of svc_state_of k,
        )
        (ground arith)

has_key-append_at :
    (index : Dict UrnId (List UrnId)) (target owner k : UrnId)
    → has_key (append_at index target owner) k ≡ (has_key index k || target == k)
has_key-append_at [] target owner k = ground arith
has_key-append_at ((j, ks) ∷ index) target owner k =
    ground (arith, has_key-append_at index target owner k)

has_key-index_targets :
    (targets : List UrnId) (owner : UrnId) (index : Dict UrnId (List UrnId)) (k : UrnId)
    → has_key (index_targets targets owner index) k ≡ (has_key index k || contains targets k)
unfolding index_targets
has_key-index_targets [] owner index k = ground arith
has_key-index_targets (target ∷ targets) owner index k =
    has_key-index_targets targets owner (append_at index target owner) k
    ∙ rw (has_key-append_at index target owner k) (ground arith)

pub has_key-index_mvrs :
    (mvrs : Dict UrnId MvrData) (index : Dict UrnId (List UrnId)) (k : UrnId)
    → has_key (index_mvrs mvrs index) k
      ≡ (has_key index k || any (λ (e : UrnId × MvrData). contains e.1.svc_ids k) mvrs)
unfolding index_mvrs
has_key-index_mvrs [] index k = ground arith
has_key-index_mvrs ((j, m) ∷ mvrs) index k =
    has_key-index_mvrs mvrs (index_targets m.svc_ids j index) k
    ∙ rw (has_key-index_targets m.svc_ids j index k) (ground arith)

mvr_warning_lem :
    (o : Option LifecycleState) (j k : UrnId) (mvrs : List UrnId)
    → warns (is_referenced_by_mvrs k) (mvr_warning o j mvrs) ≡ (defunct o && j == k)
mvr_warning_lem none j k mvrs = refl
mvr_warning_lem (some s) j k mvrs =
    warn_lem (is_referenced_by_mvrs k) (is_defunct s) s (referenced_by_mvrs j mvrs)

pub warn_mvr_references_lem :
    (index : Dict UrnId (List UrnId)) (state_of : UrnId → Option LifecycleState) (k : UrnId)
    → warns (is_referenced_by_mvrs k) (warn_mvr_references index state_of)
      ≡ (defunct (state_of k) && has_key index k)
unfolding warn_mvr_references
warn_mvr_references_lem [] state_of k = ground arith
warn_mvr_references_lem ((j, mvrs) ∷ index) state_of k =
    warns-append (is_referenced_by_mvrs k) (mvr_warning (state_of j) j mvrs)
      (warn_mvr_references index state_of)
    ∙ rw (mvr_warning_lem (state_of j) j k mvrs, warn_mvr_references_lem index state_of k)
        (ground arith)

-- A check gives no warnings of the other kinds.
module _ (p : Subject → Bool) where
  warns-warn-false :
      (b : Bool) (s : LifecycleState) (x : Subject) → p x ≡ false → warns p (warn b s x) ≡ false
  warns-warn-false true s x h = rw h
  warns-warn-false false s x h = refl

  pub check_defunct_annotations-none :
      (ks : List UrnId) (state_of : UrnId → Option LifecycleState)
      → ((j : UrnId) → p (annotated j) ≡ false)
      → warns p (check_defunct_annotations ks state_of) ≡ false
  unfolding check_defunct_annotations
  check_defunct_annotations-none [] state_of h = refl
  check_defunct_annotations-none (j ∷ ks) state_of h =
      warns-append p (annotated_warning (state_of j) j) (check_defunct_annotations ks state_of)
      ∙ rw (none_here (state_of j), check_defunct_annotations-none ks state_of h)
    where
      none_here : (o : Option LifecycleState) → warns p (annotated_warning o j) ≡ false
      none_here none = refl
      none_here (some s) = warns-warn-false (is_defunct s) s (annotated j) (h j)

  pub warn_mvr_references-none :
      (index : Dict UrnId (List UrnId)) (state_of : UrnId → Option LifecycleState)
      → ((j : UrnId) (mvrs : List UrnId) → p (referenced_by_mvrs j mvrs) ≡ false)
      → warns p (warn_mvr_references index state_of) ≡ false
  unfolding warn_mvr_references
  warn_mvr_references-none [] state_of h = refl
  warn_mvr_references-none ((j, mvrs) ∷ index) state_of h =
      warns-append p (mvr_warning (state_of j) j mvrs) (warn_mvr_references index state_of)
      ∙ rw (none_here (state_of j), warn_mvr_references-none index state_of h)
    where
      none_here : (o : Option LifecycleState) → warns p (mvr_warning o j mvrs) ≡ false
      none_here none = refl
      none_here (some s) = warns-warn-false (is_defunct s) s (referenced_by_mvrs j mvrs) (h j mvrs)

  pub warn_svc_references-none :
      (index : Dict UrnId (List UrnId)) (state_of svc_state_of : UrnId → Option LifecycleState)
      → ((j : UrnId) (svcs : List UrnId) → p (referenced_by_svcs j svcs) ≡ false)
      → warns p (warn_svc_references index state_of svc_state_of) ≡ false
  unfolding warn_svc_references
  warn_svc_references-none [] state_of svc_state_of h = refl
  warn_svc_references-none ((j, svcs) ∷ index) state_of svc_state_of h =
      warns-append p (svc_warning (state_of j) j (filter (λ s. in_use (svc_state_of s)) svcs))
        (warn_svc_references index state_of svc_state_of)
      ∙ rw (
        none_here (filter (λ s. in_use (svc_state_of s)) svcs) (state_of j),
        warn_svc_references-none index state_of svc_state_of h,
      )
    where
      none_here :
          (used : List UrnId) (o : Option LifecycleState) → warns p (svc_warning o j used) ≡ false
      none_here used none = refl
      none_here used (some s) =
          warns-warn-false (is_defunct s && non_empty used) s (referenced_by_svcs j used) (h j used)
