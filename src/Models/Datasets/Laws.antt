-- ===== src/Models/Datasets/Laws.antt =====
-- Lookups in a dictionary, and dictionaries of items under their own ids.
use reqstool_client.Prelude.{
  ==_iff, ==_refl, ◌∙◌, sym, All-append, true, inr, ◌⊎◌, ◌||◌, ap, [], arith, ◌∷◌, refl, inl, false,
  if◌then◌else◌, none, Bool-cases, All, some, ◌≡◌, Eq, Option, ◌==◌, ◌++◌,
}
use reqstool_client.Storage.Table.{Unique, has, Unique-add}
use reqstool_client.Models.Datasets.{put, values, has_key, get, Dict}
use mathlib.Core.Bool.{true≢false}

-- The first value, or else the second
abbrev pub or_else {ℓ} : {A : Type ℓ} → Option A → Option A → Option A
or_else none o = o
or_else (some a) o = some a

pub or_else-none {ℓ} : {A : Type ℓ} (o : Option A) → or_else o none ≡ o
or_else-none none = refl
or_else-none (some a) = refl

pub or_else_assoc {ℓ} :
    {A : Type ℓ} (a b c : Option A) → or_else (or_else a b) c ≡ or_else a (or_else b c)
or_else_assoc none b c = refl
or_else_assoc (some x) b c = refl

module _ {ℓ κ} {K : Type ℓ} {V : Type κ} ⦃e : Eq K⦄ where
  pub get-put :
      (d : Dict K V) (j : K) (v : V) (k : K)
      → get (put d j v) k ≡ (if j == k then some v else get d k)
  get-put [] j v k = refl
  get-put ((i, w) ∷ d) j v k = ground (arith, get-put d j v k)

  pub has_key-put :
      (d : Dict K V) (j : K) (v : V) (k : K) → has_key (put d j v) k ≡ (has_key d k || j == k)
  has_key-put [] j v k = ground arith
  has_key-put ((i, w) ∷ d) j v k = ground (arith, has_key-put d j v k)

  pub get-cases :
      (d : Dict K V) (k : K)
      → ((get d k ≡ none) × (has_key d k ≡ false))
        ⊎ ((v : V) × (get d k ≡ some v) × (has_key d k ≡ true))
  get-cases [] k = inl (refl, refl)
  get-cases ((j, v) ∷ d) k = elim (Bool-cases (j == k)) [
    | inl here ↦ rw here (inr (v, refl, refl))
    | inr there ↦ rw there (get-cases d k)
  ]

  pub put-new : (d : Dict K V) (k : K) (v : V) → has_key d k ≡ false → put d k v ≡ d ++ (k, v) ∷ []
  put-new [] k v h = refl
  put-new ((j, w) ∷ d) k v h = elim (Bool-cases (j == k)) [
    | inl here ↦ absurd (true≢false (sym (rw here) ∙ h))
    | inr there ↦ rw there (ap (λ x. (j, w) ∷ x) (put-new d k v (rw there at h)))
  ]

  -- `if k not in d: d[k] = v`
  abbrev pub put_missing : Dict K V → K → V → Dict K V
  put_missing d k v = if has_key d k then d else put d k v

  get-put_missing_same :
      (d : Dict K V) (v : V) (k : K) → get (put_missing d k v) k ≡ or_else (get d k) (some v)
  get-put_missing_same d v k = elim (get-cases d k) [
    | inl (missing, new) ↦ rw (new, missing, get-put d k v k, ==_refl k)
    | inr (x, found, known) ↦ rw (known, found)
  ]

  pub get-put_missing :
      (d : Dict K V) (j : K) (v : V) (k : K)
      → get (put_missing d j v) k ≡ or_else (get d k) (if j == k then some v else none)
  get-put_missing d j v k = elim (Bool-cases (j == k)) [
    | inl same ↦ rw (same, (==_iff j k).0 same) (get-put_missing_same d v k)
    | inr other ↦ elim (Bool-cases (has_key d j)) [
      | inl known ↦ rw (known, other, or_else-none (get d k))
      | inr new ↦ rw (new, get-put d j v k, other, or_else-none (get d k))
    ]
  ]

  -- Each item is under its own id, and no id twice.
  abbrev pub IsKeyed : (V → K) → Dict K V → Type ℓ
  IsKeyed id_of d = All (λ (x : K × V). id_of x.1 ≡ x.0) d × Unique id_of (values d)

  has-values :
      (id_of : V → K) (d : Dict K V) (k : K)
      → All (λ (x : K × V). id_of x.1 ≡ x.0) d
      → has id_of (values d) k ≡ has_key d k
  has-values id_of [] k h = refl
  has-values id_of ((j, v) ∷ d) k (own, h) = rw (own, has-values id_of d k h) (ground arith)

  values-append : (d b : Dict K V) → values (d ++ b) ≡ values d ++ values b
  values-append [] b = refl
  values-append ((k, v) ∷ d) b = ap (λ x. v ∷ x) (values-append d b)

  pub put_missing-IsKeyed :
      (id_of : V → K) (d : Dict K V) (v : V)
      → IsKeyed id_of d
      → IsKeyed id_of (put_missing d (id_of v) v)
  put_missing-IsKeyed id_of d v (own, unique) = elim (Bool-cases (has_key d (id_of v))) [
    | inl known ↦ rw known (own, unique)
    | inr new ↦
        rw (new, put-new d (id_of v) v new, values-append d ((id_of v, v) ∷ []))
          (
            All-append (λ (x : K × V). id_of x.1 ≡ x.0) d ((id_of v, v) ∷ []) own (refl, tt),
            Unique-add id_of (values d) v unique (has-values id_of d (id_of v) own ∙ new),
          )
  ]
