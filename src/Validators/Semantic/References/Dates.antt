-- ===== src/Validators/Semantic/References/Dates.antt =====
-- When the manual verification results of one SVC can be ordered by their dates.
use reqstool_client.Prelude.{
  ap, Option-cases, inr, Bool-cases, ◌∙◌, inl, arith, contains, refl, ◌⊎◌, ◌||◌, ◌&&◌, not, none,
  ◌≡◌, all, true, false, some, [], map, ◌∷◌, Bool, ℕ, List, Option, ◌==◌, nat_eq,
}
use reqstool_client.Validators.Semantic.References.{
  check_mvr_dates_for_svc, check_moments, collect_dated, check_dated,
}
use reqstool_client.Models.Datasets.{get, put, has_key, Dict}
use reqstool_client.Models.Entities.{MvrData, Datetime}
use reqstool_client.Models.UrnId.{UrnId}
use reqstool_client.Validators.Semantic.{is_clean-append, is_clean}

abbrev pub has_date : Option Datetime → Bool
has_date none = false
has_date (some d) = true

abbrev pub distinct : List ℕ → Bool
distinct [] = true
distinct (n ∷ ns) = not (contains ns n) && distinct ns

abbrev pub add_moment : Option Datetime → List ℕ → List ℕ
add_moment none ns = ns
add_moment (some d) ns = d.instant ∷ ns

-- The dates that are given
abbrev pub moments : List MvrData → List ℕ
moments [] = []
moments (m ∷ mvrs) = add_moment m.date (moments mvrs)

-- All are dated, and no two at the same moment.
abbrev pub are_ordered : List MvrData → Bool
are_ordered mvrs = all (λ (m : MvrData). has_date m.date) mvrs && distinct (moments mvrs)

is_clean-check_dated :
    (svc : UrnId) (mvrs : List MvrData)
    → is_clean (check_dated svc mvrs) ≡ all (λ (m : MvrData). has_date m.date) mvrs
unfolding check_dated
is_clean-check_dated svc [] = refl
is_clean-check_dated svc (m ∷ mvrs) = elim (Option-cases m.date) [
  | inl missing ↦ rw missing
  | inr (d, given) ↦ rw given (is_clean-check_dated svc mvrs)
]

moments-collect_dated :
    (mvrs : List MvrData) → map (λ (e : ℕ × MvrData). e.0) (collect_dated mvrs) ≡ moments mvrs
unfolding collect_dated
moments-collect_dated [] = refl
moments-collect_dated (m ∷ mvrs) = elim (Option-cases m.date) [
  | inl missing ↦ rw missing (moments-collect_dated mvrs)
  | inr (d, given) ↦ rw given (ap (λ ns. d.instant ∷ ns) (moments-collect_dated mvrs))
]

-- None of the moments was seen before.
abbrev are_new : List (ℕ × MvrData) → Dict ℕ MvrData → Bool
are_new dated seen = all (λ (e : ℕ × MvrData). not (has_key seen e.0)) dated

has_key-put :
    (d : Dict ℕ MvrData) (j : ℕ) (m : MvrData) (k : ℕ)
    → has_key (put d j m) k ≡ (has_key d k || j == k)
has_key-put [] j m k = ground arith
has_key-put ((i, w) ∷ d) j m k = ground (arith, has_key-put d j m k)

are_new-put :
    (dated : List (ℕ × MvrData)) (seen : Dict ℕ MvrData) (ts : ℕ) (m : MvrData)
    → are_new dated (put seen ts m)
      ≡ (are_new dated seen && not (contains (map (λ (e : ℕ × MvrData). e.0) dated) ts))
are_new-put [] seen ts m = refl
are_new-put ((n, x) ∷ dated) seen ts m =
    ground (arith, are_new-put dated seen ts m, has_key-put seen ts m n)

get-cases :
    (d : Dict ℕ MvrData) (k : ℕ)
    → ((get d k ≡ none) × (has_key d k ≡ false))
      ⊎ ((m : MvrData) × (get d k ≡ some m) × (has_key d k ≡ true))
get-cases [] k = inl (refl, refl)
get-cases ((j, m) ∷ d) k = elim (Bool-cases (j == k)) [
  | inl here ↦ rw here (inr (m, refl, refl))
  | inr there ↦ rw there (get-cases d k)
]

is_clean-check_moments :
    (svc : UrnId) (dated : List (ℕ × MvrData)) (seen : Dict ℕ MvrData)
    → is_clean (check_moments svc dated seen)
      ≡ (are_new dated seen && distinct (map (λ (e : ℕ × MvrData). e.0) dated))
unfolding check_moments
is_clean-check_moments svc [] seen = refl
is_clean-check_moments svc ((ts, m) ∷ dated) seen = elim (get-cases seen ts) [
  | inl (missing, absent) ↦
      rw (missing, absent)
        (is_clean-check_moments svc dated (put seen ts m)
          ∙ rw (are_new-put dated seen ts m) (ground arith))
  | inr (first, found, present) ↦ rw (found, present) refl
]

are_new-empty : (dated : List (ℕ × MvrData)) → are_new dated [] ≡ true
are_new-empty [] = refl
are_new-empty ((ts, m) ∷ dated) = are_new-empty dated

pub is_clean-check_mvr_dates_for_svc :
    (svc : UrnId) (mvrs : List MvrData)
    → is_clean (check_mvr_dates_for_svc svc mvrs) ≡ are_ordered mvrs
unfolding check_mvr_dates_for_svc
is_clean-check_mvr_dates_for_svc svc mvrs =
    is_clean-append (check_dated svc mvrs) (check_moments svc (collect_dated mvrs) [])
    ∙ rw (
      is_clean-check_dated svc mvrs,
      is_clean-check_moments svc (collect_dated mvrs) [],
      are_new-empty (collect_dated mvrs),
      moments-collect_dated mvrs,
    )
