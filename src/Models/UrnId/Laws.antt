-- ===== src/Models/UrnId/Laws.antt =====
-- What printing and reading a `UrnId` (common/models/urn_id.py, common/utils.py) do to one another.
use Prim.Native.Char.{Char}
use mathlib.Core.Option.{some-injective}
use text.Mathlib.TextEquality.{Char-path}
use text.Mathlib.TextLemmas.{cons-append, nil-append}
use reqstool_client.Prelude.{
  String, ◌<>◌, ◌≡◌, refl, ap, true, false, some, [], ◌∷◌, arith, ◌∙◌, inl, inr, nat_eq, Bool-cases,
  Option-cases,
}
use reqstool_client.Prelude.Result.{ok}
use reqstool_client.Models.UrnId.{
  UrnId, is_separator, has_separator, prepend, split_once, split, str, instance_of, assure_urn_id,
  convert_id_to_urn_id,
}

-- The separator as a character in front.
colon-append : (t : String) → ":" <> t ≡ String.◌∷◌ ":" t
colon-append t = cons-append ":" "" t ∙ ap (String.◌∷◌ ":") (nil-append t)

separator-eq : (c : Char) → is_separator c ≡ true → c ≡ ":"
separator-eq c h = Char-path c ":" (ground arith)

-- Splitting at the first separator finds the text before it.
split_once-append :
    (s t : String) → has_separator s ≡ false → split_once (s <> (":" <> t)) ≡ some (s, t)
unfolding split_once has_separator
split_once-append String.[] t h = rw (nil-append, colon-append)
split_once-append (String.◌∷◌ c s) t h = rw cons-append (ground (arith, split_once-append s t))

-- What a split returns is the text again.
split_once-eq-some :
    (s a b : String)
    → split_once s ≡ some (a, b)
    → (s ≡ a <> (":" <> b)) × (has_separator a ≡ false)
unfolding split_once has_separator
split_once-eq-some String.[] a b h = cc
split_once-eq-some (String.◌∷◌ c s) a b h = elim (Bool-cases (is_separator c)) [
  | inl sep ↦
      let e : some (String.[], s) ≡ some (a, b) = rw (sep) at h in
      let p = some-injective _ _ e in
      let ea : String.[] ≡ a = ap (λ (x : String × String). x.0) p in
      let eb : s ≡ b = ap (λ (x : String × String). x.1) p in
      (rw (← ea, ← eb, nil-append, colon-append, separator-eq c sep), rw (← ea))
  | inr other ↦ elim (Option-cases (split_once s)) [
    | inl gone ↦ absurd (ground arith)
    | inr ((l, r), found) ↦
        let e : some (String.◌∷◌ c l, r) ≡ some (a, b) = rw (other, found) at h in
        let p = some-injective _ _ e in
        let ea : String.◌∷◌ c l ≡ a = ap (λ (x : String × String). x.0) p in
        let eb : r ≡ b = ap (λ (x : String × String). x.1) p in
        let ih = split_once-eq-some s l r found in
        (rw (← ea, ← eb, cons-append) (ap (String.◌∷◌ c) ih.0), rw (← ea, other) ih.1)
  ]
]

-- A text with a separator is split.
split_once-total :
    (s : String) → has_separator s ≡ true → (p : String × String) × (split_once s ≡ some p)
unfolding split_once has_separator
split_once-total String.[] h = cc
split_once-total (String.◌∷◌ c s) h = elim (Bool-cases (is_separator c)) [
  | inl sep ↦ ((String.[], s), rw sep)
  | inr other ↦ let (p, e) = split_once-total s (ground arith) in (prepend c p, rw (other, e))
]

pub split-of_single : (s : String) → has_separator s ≡ false → split s ≡ s ∷ []
unfolding split has_separator
split-of_single String.[] h = refl
split-of_single (String.◌∷◌ c s) h = ground (arith, split-of_single s)

pub split-append : (s t : String) → has_separator s ≡ false → split (s <> (":" <> t)) ≡ s ∷ split t
unfolding split has_separator
split-append String.[] t h = rw (nil-append, colon-append)
split-append (String.◌∷◌ c s) t h = rw cons-append (ground (arith, split-append s t))

-- A printed id whose urn holds no separator is read back as itself.
pub instance_of-str : (u : UrnId) → has_separator u.urn ≡ false → instance_of (str u) ≡ ok u
unfolding instance_of str
instance_of-str u h = rw (split_once-append u.urn u.id h)

-- An id that is read prints as the text it was read from.
pub str-instance_of : (s : String) (u : UrnId) → instance_of s ≡ ok u → str u ≡ s
unfolding instance_of str
str-instance_of s u h = elim (Option-cases (split_once s)) [
  | inl gone ↦ absurd (ground arith)
  | inr ((l, r), found) ↦ let ih = split_once-eq-some s l r found in ground (arith, ih.0)
]

-- `assure_urn_id` never raises: `instance` is called only where there is a separator.
pub assure_urn_id-total : (urn id : String) → (u : UrnId) × (assure_urn_id urn id ≡ ok u)
unfolding assure_urn_id instance_of
assure_urn_id-total urn id = elim (Bool-cases (has_separator id)) [
  | inl sep ↦ let ((l, r), e) = split_once-total id sep in (record { urn = l; id = r }, rw (sep, e))
  | inr plain ↦ (record { urn = urn; id = id }, rw plain)
]

pub has_separator-append : (s t : String) → has_separator (s <> (":" <> t)) ≡ true
unfolding has_separator
has_separator-append String.[] t = rw (nil-append, colon-append)
has_separator-append (String.◌∷◌ c s) t = rw cons-append (ground (arith, has_separator-append s t))

-- Where neither part of an id holds a separator the two conversions read its text alike.
pub convert-eq-assure :
    (urn : String) (u : UrnId)
    → has_separator u.urn ≡ false
    → has_separator u.id ≡ false
    → (convert_id_to_urn_id urn (str u) ≡ u) × (assure_urn_id urn (str u) ≡ ok u)
unfolding convert_id_to_urn_id assure_urn_id str
convert-eq-assure urn u h k = (
  rw (has_separator-append u.urn u.id, split-append u.urn u.id h, split-of_single u.id k),
  rw (has_separator-append u.urn u.id) (instance_of-str u h),
)

-- Where the id part holds a separator too, `convert_id_to_urn_id` drops what follows it and
-- `assure_urn_id` keeps it.
pub convert_truncates :
    (urn a b c : String)
    → has_separator a ≡ false
    → has_separator b ≡ false
    → let s = a <> (":" <> (b <> (":" <> c))) in
      (convert_id_to_urn_id urn s ≡ record { urn = a; id = b })
      × (assure_urn_id urn s ≡ ok (record { urn = a; id = b <> (":" <> c) }))
unfolding convert_id_to_urn_id assure_urn_id instance_of
convert_truncates urn a b c h k = (
  rw (
    has_separator-append a (b <> (":" <> c)),
    split-append a (b <> (":" <> c)) h,
    split-append b c k,
  ),
  rw (has_separator-append a (b <> (":" <> c)), split_once-append a (b <> (":" <> c)) h),
)
