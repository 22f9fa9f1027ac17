-- ===== src/Prelude/Result.antt =====
-- Python functions that may raise: the value, or the exception.
use Prim.Native.String.{String}
use mathlib.Core.Path.{◌≡◌, refl}

-- The exceptions that the modelled code raises or meets.
pub data Error : Type 0 where
  -- `ValueError`
  value_error : Error
  -- `TypeError`
  type_error : Error
  -- `KeyError`
  key_error : Error
  -- `sqlite3.IntegrityError`
  integrity_error : Error
  -- `CircularImportError` with the urn that was met again
  circular_import : String → Error
  -- `CircularImplementationError` with the urn that was met again
  circular_implementation : String → Error
  -- any other exception: reading or parsing a source failed
  source_error : Error
  -- no exception: the model ran out of fuel
  out_of_fuel : Error

pub data Result {ℓ} (A : Type ℓ) : Type ℓ where
  err : Error → Result A
  ok : A → Result A

pub ok-injective {ℓ} : {A : Type ℓ} (x y : A) → ok x ≡ ok y → x ≡ y
ok-injective x y p = cc

module _ {ℓ κ} {A : Type ℓ} {B : Type κ} where
  infixl 5 ◌>>=◌
  -- The rest of a function runs on the value, unless an exception was raised.
  abbrev pub ◌>>=◌ : Result A → (A → Result B) → Result B
  err raised >>= next = err raised
  ok value >>= next = next value

  -- What a successful sequence was made of
  pub >>=-eq-ok :
      (first : Result A) (next : A → Result B) {b : B}
      → (first >>= next) ≡ ok b
      → (a : A) × (first ≡ ok a) × (next a ≡ ok b)
  >>=-eq-ok (err raised) next p = cc
  >>=-eq-ok (ok value) next p = (value, refl, p)
