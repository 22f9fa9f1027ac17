-- ===== src/Storage/Table.antt =====
-- Tables as lists of rows in the order of insertion, with the keys and references that
-- storage/schema.py declares.
use reqstool_client.Prelude.{
  ◌≡◌, refl, Bool, true, false, not, List, [], ◌∷◌, ◌++◌, arith, Eq, ◌==◌, any, filter, All,
  any-append,
}

module _ {ℓ κ} {A : Type ℓ} {K : Type κ} ⦃e : Eq K⦄ (key : A → K) where
  -- A row with this key is in the table.
  abbrev pub has : List A → K → Bool
  has rows k = any (λ r. key r == k) rows

  -- `DELETE FROM … WHERE key = k`
  abbrev pub delete_key : K → List A → List A
  delete_key k rows = filter (λ r. not (key r == k)) rows

  -- `PRIMARY KEY`: no two rows have the same key.
  abbrev pub Unique : List A → Type 0
  Unique [] = Unit
  Unique (r ∷ rows) = (has rows (key r) ≡ false) × Unique rows

  pub has-add : (rows : List A) (r : A) (k : K) → has rows k ≡ true → has (rows ++ r ∷ []) k ≡ true
  has-add [] r k h = cc
  has-add (x ∷ rows) r k h = ground (arith, has-add rows r k)

  pub has-add_self : (rows : List A) (r : A) → has (rows ++ r ∷ []) (key r) ≡ true
  has-add_self [] r = ground arith
  has-add_self (x ∷ rows) r = ground (arith, has-add_self rows r)

  pub has-delete_ne :
      (rows : List A) (k j : K)
      → has rows j ≡ true
      → (j == k) ≡ false
      → has (delete_key k rows) j ≡ true
  has-delete_ne [] k j h n = cc
  has-delete_ne (x ∷ rows) k j h n = ground (arith, has-delete_ne rows k j)

  pub has-delete_self : (rows : List A) (k : K) → has (delete_key k rows) k ≡ false
  has-delete_self [] k = refl
  has-delete_self (x ∷ rows) k = ground (arith, has-delete_self rows k)

  pub has-delete_inv :
      (rows : List A) (k j : K)
      → has (delete_key k rows) j ≡ true
      → (has rows j ≡ true) × ((j == k) ≡ false)
  has-delete_inv [] k j h = cc
  has-delete_inv (r ∷ rows) k j h = ground (arith, has-delete_inv rows k j)

  has-filter-false :
      (q : A → Bool) (rows : List A) (k : K) → has rows k ≡ false → has (filter q rows) k ≡ false
  has-filter-false q [] k h = refl
  has-filter-false q (x ∷ rows) k h = ground (arith, has-filter-false q rows k)

  pub Unique-add :
      (rows : List A) (r : A) → Unique rows → has rows (key r) ≡ false → Unique (rows ++ r ∷ [])
  Unique-add [] r u n = (refl, tt)
  Unique-add (x ∷ rows) r u n = (rw any-append (ground arith), Unique-add rows r u.1 (ground arith))

  pub Unique-filter : (q : A → Bool) (rows : List A) → Unique rows → Unique (filter q rows)
  Unique-filter q [] u = u
  Unique-filter q (x ∷ rows) u =
      ground (arith, Unique-filter q rows u.1, has-filter-false q rows (key x) u.0)

module _ {ℓ} {A : Type ℓ} (same : A → A → Bool) where
  -- `PRIMARY KEY` or `UNIQUE` on several columns: no two rows agree on all of them.
  abbrev pub NoTwice : List A → Type 0
  NoTwice [] = Unit
  NoTwice (r ∷ rows) = (any (same r) rows ≡ false) × NoTwice rows

  pub NoTwice-add :
      (rows : List A) (r : A)
      → NoTwice rows
      → any (λ x. same x r) rows ≡ false
      → NoTwice (rows ++ r ∷ [])
  NoTwice-add [] r u n = (refl, tt)
  NoTwice-add (x ∷ rows) r u n =
      (rw any-append (ground arith), NoTwice-add rows r u.1 (ground arith))

  any-filter-false :
      (p q : A → Bool) (rows : List A) → any p rows ≡ false → any p (filter q rows) ≡ false
  any-filter-false p q [] h = refl
  any-filter-false p q (x ∷ rows) h = ground (arith, any-filter-false p q rows)

  pub NoTwice-filter : (q : A → Bool) (rows : List A) → NoTwice rows → NoTwice (filter q rows)
  NoTwice-filter q [] u = u
  NoTwice-filter q (x ∷ rows) u =
      ground (arith, NoTwice-filter q rows u.1, any-filter-false (same x) q rows u.0)

module _ {ℓ κ μ} {A : Type ℓ} {C : Type μ} {K : Type κ} ⦃e : Eq K⦄ (key : A → K) (f : C → K) where
  -- `FOREIGN KEY`: the key that each child row names is in the parent table.
  abbrev pub Refers : List A → List C → Type 0
  Refers rows children = All (λ c. has key rows (f c) ≡ true) children

  pub Refers-add_parent :
      (rows : List A) (r : A) (children : List C)
      → Refers rows children
      → Refers (rows ++ r ∷ []) children
  Refers-add_parent rows r [] h = tt
  Refers-add_parent rows r (c ∷ children) h =
      (has-add key rows r (f c) h.0, Refers-add_parent rows r children h.1)

  pub Refers-add_child :
      (rows : List A) (children : List C) (c : C)
      → Refers rows children
      → has key rows (f c) ≡ true
      → Refers rows (children ++ c ∷ [])
  Refers-add_child rows [] c h k = (k, tt)
  Refers-add_child rows (d ∷ children) c h k = (h.0, Refers-add_child rows children c h.1 k)

  pub Refers-filter :
      (q : C → Bool) (rows : List A) (children : List C)
      → Refers rows children
      → Refers rows (filter q children)
  Refers-filter q rows [] h = tt
  Refers-filter q rows (c ∷ children) h = ground (arith, Refers-filter q rows children h.1)

  -- `ON DELETE CASCADE`
  pub Refers-cascade :
      (k : K) (rows : List A) (children : List C)
      → Refers rows children
      → Refers (delete_key key k rows) (delete_key f k children)
  Refers-cascade k rows [] h = tt
  Refers-cascade k rows (c ∷ children) h =
      ground (arith, Refers-cascade k rows children h.1, has-delete_ne key rows k (f c) h.0)
