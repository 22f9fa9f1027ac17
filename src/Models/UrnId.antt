-- ===== src/Models/UrnId.antt =====
-- common/models/urn_id.py, and the id conversions of common/utils.py.
pub mod Laws
use Prim.Native.Char.{Char, code}
use mathlib.Core.Logic.{dite}
use mathlib.Core.Option
use text.Mathlib.Text.{is_lt}
use Prim.Native.String.{[] as empty, ◌∷◌ as ◌∷ₛ◌, compare}
use reqstool_client.Prelude.{
  ℕ, String, ◌<>◌, ◌≡◌, refl, ap, Bool, true, false, not, ◌||◌, Option, none, some, List, [], ◌∷◌,
  map, Eq, ◌==◌, string_eq, eqb, if◌then◌else◌,
}
use reqstool_client.Prelude.Result.{Result, ok, err, value_error}

-- `UrnId`
pub record UrnId : Type 0 where
  pub urn : String
  pub id : String

-- Equality of the frozen pydantic model: field by field.
unfoldable pub urn_id_dec : Discrete UrnId
unfolding string_eq
urn_id_dec a b =
    dite (string_eq.dec a.urn b.urn)
      (λ p.
        dite (string_eq.dec a.id b.id) (λ q. yes (λ i. record { urn = p i; id = q i }))
          (λ n. no (λ e. n (ap (λ (u : UrnId). u.id) e))))
      (λ n. no (λ e. n (ap (λ (u : UrnId). u.urn) e)))

instance unfoldable pub urn_id_eq : Eq UrnId
unfolding urn_id_dec
urn_id_eq = record { dec = urn_id_dec }

-- `URN_ID_SEPARATOR`
abbrev pub is_separator : Char → Bool
is_separator c = eqb (code c) b':'

-- `URN_ID_SEPARATOR in s`
unfoldable pub has_separator : String → Bool
has_separator String.[] = false
has_separator (String.◌∷◌ c s) = is_separator c || has_separator s

abbrev pub prepend : Char → String × String → String × String
prepend c (left, right) = (String.◌∷◌ c left, right)

-- `s.split(":", 1)` unpacked into two names: `none` where there is one part only.
unfoldable pub split_once : String → Option (String × String)
split_once String.[] = none
split_once (String.◌∷◌ c s) =
    let rest = split_once s in
    if is_separator c then some (String.[], s) else Option.map (prepend c) rest

abbrev pub prepend_first : Char → List String → List String
prepend_first c [] = []
prepend_first c (part ∷ parts) = String.◌∷◌ c part ∷ parts

-- `s.split(":")`
unfoldable pub split : String → List String
split String.[] = String.[] ∷ []
split (String.◌∷◌ c s) =
    let rest = split s in if is_separator c then String.[] ∷ rest else prepend_first c rest

-- `UrnId.__str__`
unfoldable pub str : UrnId → String
str u = u.urn <> (":" <> u.id)

abbrev of_parts : String × String → UrnId
of_parts (urn, id) = record { urn = urn; id = id }

abbrev unpack : Option (String × String) → Result UrnId
unpack none = err value_error
unpack (some parts) = ok (of_parts parts)

-- `UrnId.instance`: unpacking a single part raises `ValueError`.
unfoldable pub instance_of : String → Result UrnId
unfolding split_once
instance_of s = unpack (split_once s)

-- `UrnId.assure_urn_id`
unfoldable pub assure_urn_id : String → String → Result UrnId
unfolding has_separator instance_of
assure_urn_id urn id =
    if has_separator id then instance_of id else ok (record { urn = urn; id = id })

-- `UrnId.__lt__`: Python compares strings by code points.
unfoldable pub lt : UrnId → UrnId → Bool
unfolding string_eq
lt a b = if not (a.urn == b.urn) then is_lt (compare a.urn b.urn) else is_lt (compare a.id b.id)

-- `split[0]` and `split[1]`
abbrev pub first_two : String → List String → UrnId
first_two urn (a ∷ b ∷ rest) = record { urn = a; id = b }
first_two urn parts = record { urn = urn; id = String.[] }

-- `Utils.convert_id_to_urn_id`: with a separator there are at least two parts.
unfoldable pub convert_id_to_urn_id : String → String → UrnId
unfolding has_separator split
convert_id_to_urn_id urn id =
    if has_separator id then first_two urn (split id) else record { urn = urn; id = id }

-- `Utils.convert_ids_to_urn_id`
unfoldable pub convert_ids_to_urn_id : String → List String → List UrnId
unfolding convert_id_to_urn_id
convert_ids_to_urn_id urn ids = map (convert_id_to_urn_id urn) ids

abbrev pub first_part : List String → String
first_part [] = String.[]
first_part (a ∷ parts) = a

-- `Utils.check_ids_to_filter`: an id of another urn is logged and left out.
unfoldable pub check_ids_to_filter : List String → String → List String
unfolding has_separator split string_eq
check_ids_to_filter [] current_urn = []
check_ids_to_filter (id ∷ ids) current_urn =
    let rest = check_ids_to_filter ids current_urn in
    if has_separator id
    then (if not (first_part (split id) == current_urn) then rest else id ∷ rest)
    else (current_urn <> (":" <> id)) ∷ rest
