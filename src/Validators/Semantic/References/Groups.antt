-- ===== src/Validators/Semantic/References/Groups.antt =====
-- The manual verification results, grouped by the SVCs that they name.
use reqstool_client.Prelude.{
  and-true, ◌↔◌, ==_iff, ==_refl, length, ◌||◌, ltb, not, ap, false, inr, all, Bool, true, inl,
  arith, Bool-cases, refl, ◌∙◌, if◌then◌else◌, [], sym, ◌≡◌, ◌∷◌, List, ◌==◌, ◌++◌,
}
use reqstool_client.Models.UrnId.{urn_id_eq, UrnId}
use reqstool_client.Models.Datasets.{has_key, Dict}
use reqstool_client.Validators.Semantic.References.{
  check_mvr_dates_for_svc, check_groups, group_mvrs, group_mvr,
}
use reqstool_client.Models.Entities.{MvrData}
use reqstool_client.Storage.Repository.{append_at}
use mathlib.Core.List.{append_assoc, append-nil}
use reqstool_client.Validators.Semantic.References.Errors.{}
use reqstool_client.Validators.Semantic.References.Dates.{
  is_clean-check_mvr_dates_for_svc, are_ordered,
}
use mathlib.Core.Path.{subst}
use reqstool_client.Validators.Semantic.{is_clean-append, is_clean}

-- The manual verification results that name an SVC, in order, and once for each time that they name it
abbrev pub times : List UrnId → UrnId → MvrData → List MvrData
times [] k m = []
times (j ∷ ks) k m = let rest = times ks k m in if j == k then m ∷ rest else rest

abbrev pub referencing : UrnId → List MvrData → List MvrData
referencing k [] = []
referencing k (m ∷ mvrs) = times m.svc_ids k m ++ referencing k mvrs

abbrev pub group_of : Dict UrnId (List MvrData) → UrnId → List MvrData
group_of [] k = []
group_of ((j, ms) ∷ d) k = let rest = group_of d k in if j == k then ms else rest

group_of-append_at :
    (d : Dict UrnId (List MvrData)) (j : UrnId) (m : MvrData) (k : UrnId)
    → group_of (append_at d j m) k ≡ group_of d k ++ (if j == k then m ∷ [] else [])
group_of-append_at [] j m k = refl
group_of-append_at ((i, ms) ∷ d) j m k = elim (Bool-cases (i == j)) [
  | inl same ↦ elim (Bool-cases (j == k)) [
    | inl here ↦ let first : (i == k) ≡ true = ground arith in rw (same, here, first)
    | inr there ↦
        let later : (i == k) ≡ false = ground arith in
        rw (same, there, later) (sym (append-nil (group_of d k)))
  ]
  | inr other ↦ elim (Bool-cases (i == k)) [
    | inl here ↦
        let far : (j == k) ≡ false = ground arith in rw (other, here, far) (sym (append-nil ms))
    | inr there ↦ rw (other, there) (group_of-append_at d j m k)
  ]
]

append_if :
    (b : Bool) (ms rest : List MvrData) (m : MvrData)
    → (ms ++ (if b then m ∷ [] else [])) ++ rest ≡ ms ++ (if b then m ∷ rest else rest)
append_if true ms rest m = append_assoc ms (m ∷ []) rest
append_if false ms rest m = ap (λ x. x ++ rest) (append-nil ms)

group_of-group_mvr :
    (ks : List UrnId) (m : MvrData) (d : Dict UrnId (List MvrData)) (k : UrnId)
    → group_of (group_mvr ks m d) k ≡ group_of d k ++ times ks k m
unfolding group_mvr
group_of-group_mvr [] m d k = sym (append-nil (group_of d k))
group_of-group_mvr (j ∷ ks) m d k =
    group_of-group_mvr ks m (append_at d j m) k
    ∙ rw (group_of-append_at d j m k) (append_if (j == k) (group_of d k) (times ks k m) m)

group_of-group_mvrs :
    (mvrs : List MvrData) (d : Dict UrnId (List MvrData)) (k : UrnId)
    → group_of (group_mvrs mvrs d) k ≡ group_of d k ++ referencing k mvrs
unfolding group_mvrs
group_of-group_mvrs [] d k = sym (append-nil (group_of d k))
group_of-group_mvrs (m ∷ mvrs) d k =
    group_of-group_mvrs mvrs (group_mvr m.svc_ids m d) k
    ∙ rw (group_of-group_mvr m.svc_ids m d k)
        (append_assoc (group_of d k) (times m.svc_ids k m) (referencing k mvrs))

-- The groups of different SVCs are kept apart.
abbrev AreApart : Dict UrnId (List MvrData) → Type 0
AreApart [] = Unit
AreApart ((k, ms) ∷ d) = (has_key d k ≡ false) × AreApart d

has_key-append_at :
    (d : Dict UrnId (List MvrData)) (j : UrnId) (m : MvrData) (k : UrnId)
    → has_key (append_at d j m) k ≡ (has_key d k || j == k)
has_key-append_at [] j m k = ground arith
has_key-append_at ((i, ms) ∷ d) j m k = ground (arith, has_key-append_at d j m k)

append_at-AreApart :
    (d : Dict UrnId (List MvrData)) (j : UrnId) (m : MvrData)
    → AreApart d
    → AreApart (append_at d j m)
append_at-AreApart [] j m a = (refl, tt)
append_at-AreApart ((i, ms) ∷ d) j m (new, a) = elim (Bool-cases (i == j)) [
  | inl same ↦ rw same (new, a)
  | inr other ↦
      let apart : has_key (append_at d j m) i ≡ false = has_key-append_at d j m i ∙ ground arith in
      rw other (apart, append_at-AreApart d j m a)
]

group_mvr-AreApart :
    (ks : List UrnId) (m : MvrData) (d : Dict UrnId (List MvrData))
    → AreApart d
    → AreApart (group_mvr ks m d)
unfolding group_mvr
group_mvr-AreApart [] m d a = a
group_mvr-AreApart (k ∷ ks) m d a =
    group_mvr-AreApart ks m (append_at d k m) (append_at-AreApart d k m a)

group_mvrs-AreApart :
    (mvrs : List MvrData) (d : Dict UrnId (List MvrData))
    → AreApart d
    → AreApart (group_mvrs mvrs d)
unfolding group_mvrs
group_mvrs-AreApart [] d a = a
group_mvrs-AreApart (m ∷ mvrs) d a =
    group_mvrs-AreApart mvrs (group_mvr m.svc_ids m d) (group_mvr-AreApart m.svc_ids m d a)

-- At most one result names the SVC, or all that name it can be ordered.
abbrev pub is_orderly : List MvrData → Bool
is_orderly ms = not (ltb 1 (length ms)) || are_ordered ms

is_clean-group :
    (k : UrnId) (ms : List MvrData)
    → is_clean (if ltb 1 (length ms) then check_mvr_dates_for_svc k ms else []) ≡ is_orderly ms
is_clean-group k ms = ground (arith, is_clean-check_mvr_dates_for_svc k ms)

is_clean-check_groups :
    (d : Dict UrnId (List MvrData))
    → is_clean (check_groups d) ≡ all (λ (e : UrnId × List MvrData). is_orderly e.1) d
unfolding check_groups
is_clean-check_groups [] = refl
is_clean-check_groups ((k, ms) ∷ d) =
    is_clean-append (if ltb 1 (length ms) then check_mvr_dates_for_svc k ms else [])
      (check_groups d)
    ∙ rw (is_clean-group k ms, is_clean-check_groups d)

group_of-absent :
    (d : Dict UrnId (List MvrData)) (k : UrnId) → has_key d k ≡ false → group_of d k ≡ []
group_of-absent [] k h = refl
group_of-absent ((j, ms) ∷ d) k h = ground (arith, group_of-absent d k)

-- The test of every group is the test of every SVC.
orderly_at :
    (d : Dict UrnId (List MvrData))
    → all (λ (e : UrnId × List MvrData). is_orderly e.1) d ≡ true
    → (k : UrnId) → is_orderly (group_of d k) ≡ true
orderly_at [] h k = refl
orderly_at ((j, ms) ∷ d) h k = elim (Bool-cases (j == k)) [
  | inl here ↦ rw here (and-true (is_orderly ms) h).0
  | inr there ↦ rw there (orderly_at d (and-true (is_orderly ms) h).1 k)
]

orderly_head :
    (j : UrnId) (ms : List MvrData) (d : Dict UrnId (List MvrData))
    → is_orderly (group_of ((j, ms) ∷ d) j) ≡ true
    → is_orderly ms ≡ true
orderly_head j ms d h = rw (==_refl j) at h

orderly_tail :
    (j : UrnId) (ms : List MvrData) (d : Dict UrnId (List MvrData)) (k : UrnId)
    → has_key d j ≡ false
    → is_orderly (group_of ((j, ms) ∷ d) k) ≡ true
    → is_orderly (group_of d k) ≡ true
orderly_tail j ms d k new h = elim (Bool-cases (j == k)) [
  | inl same ↦ rw (group_of-absent d k (ap (has_key d) (sym ((==_iff j k).0 same)) ∙ new))
  | inr other ↦ rw other at h
]

orderly_everywhere :
    (d : Dict UrnId (List MvrData))
    → AreApart d
    → ((k : UrnId) → is_orderly (group_of d k) ≡ true)
    → all (λ (e : UrnId × List MvrData). is_orderly e.1) d ≡ true
orderly_everywhere [] a h = refl
orderly_everywhere ((j, ms) ∷ d) (new, a) h =
    rw (orderly_head j ms d (h j)) (orderly_everywhere d a (λ k. orderly_tail j ms d k new (h k)))

-- The check of the groups finds nothing exactly if the results of every SVC can be ordered.
pub check_groups_iff :
    (mvrs : List MvrData)
    → (is_clean (check_groups (group_mvrs mvrs [])) ≡ true)
      ↔ ((k : UrnId) → is_orderly (referencing k mvrs) ≡ true)
check_groups_iff mvrs =
    let d = group_mvrs mvrs [] in
    (
      λ h k.
          subst (λ ms. is_orderly ms ≡ true) (group_of-group_mvrs mvrs [] k)
            (orderly_at d (sym (is_clean-check_groups d) ∙ h) k),
      λ h.
          is_clean-check_groups d
          ∙ orderly_everywhere d (group_mvrs-AreApart mvrs [] tt)
              (λ k. subst (λ ms. is_orderly ms ≡ true) (sym (group_of-group_mvrs mvrs [] k)) (h k)),
    )
