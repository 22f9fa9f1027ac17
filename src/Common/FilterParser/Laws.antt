-- ===== src/Common/FilterParser/Laws.antt =====
-- What ids a parsed filter holds.
use reqstool_client.Prelude.{
  none, Option, ==_refl, sym, ap, some, ==_iff, string_eq, ◌<>◌, ◌∙◌, ◌==◌, true, refl, inr, [],
  inl, false, arith, ◌≡◌, Bool-cases, contains, All, List, String, ◌∷◌,
}
use reqstool_client.Common.FilterParser.{
  parse_given, excludes_of, includes_of, FilterEntry, parse_filter, to_set,
}
use reqstool_client.Models.UrnId.{
  split, first_two, convert_id_to_urn_id, first_part, urn_id_eq, has_separator, check_ids_to_filter,
  UrnId, convert_ids_to_urn_id,
}
use reqstool_client.Models.UrnId.Laws.{split-of_single, split-append, has_separator-append}

-- Every id is of the urn.
abbrev pub AreOf : String → List UrnId → Type 0
AreOf urn ks = All (λ (k : UrnId). k.urn ≡ urn) ks

All-to_set : (P : UrnId → Type 0) (ks : List UrnId) → All P ks → All P (to_set ks)
unfolding to_set
All-to_set P [] h = h
All-to_set P (k ∷ ks) (h, hs) = elim (Bool-cases (contains ks k)) [
  | inl known ↦ rw known (All-to_set P ks hs)
  | inr new ↦ rw new (h, All-to_set P ks hs)
]

contains-to_set : (ks : List UrnId) (k : UrnId) → contains (to_set ks) k ≡ contains ks k
unfolding to_set
contains-to_set [] k = refl
contains-to_set (j ∷ ks) k = ground (arith, contains-to_set ks k)

first_two-urn :
    (urn : String) (parts : List String)
    → (first_part parts == urn) ≡ true
    → (first_two urn parts).urn ≡ urn
first_two-urn urn [] h = refl
first_two-urn urn (a ∷ []) h = refl
first_two-urn urn (a ∷ b ∷ parts) h = (==_iff a urn).0 h

-- An id of the filter's urn is converted to an id of that urn.
convert-urn :
    (urn id : String)
    → has_separator id ≡ true
    → (first_part (split id) == urn) ≡ true
    → (convert_id_to_urn_id urn id).urn ≡ urn
unfolding convert_id_to_urn_id
convert-urn urn id sep h = rw sep (first_two-urn urn (split id) h)

-- An id without a urn is converted to that id of the filter's urn.
convert_plain :
    (urn id : String)
    → has_separator urn ≡ false
    → has_separator id ≡ false
    → convert_id_to_urn_id urn (urn <> (":" <> id)) ≡ record { urn = urn; id = id }
unfolding convert_id_to_urn_id
convert_plain urn id h k =
    rw (has_separator-append urn id, split-append urn id h, split-of_single id k)

-- What is wanted of the set of ids that a list of texts is read into
abbrev pub IsRead : String → List String → List UrnId → Type 0
IsRead urn ids ks =
    AreOf urn ks
    × ((id : String)
        → contains ids id ≡ true
        → has_separator id ≡ false
        → contains ks (record { urn = urn; id = id }) ≡ true)

abbrev read : String → List String → List UrnId
read urn ids = convert_ids_to_urn_id urn (check_ids_to_filter ids urn)

IsRead-skip :
    (urn id : String) (ids : List String) (ks : List UrnId)
    → has_separator id ≡ true
    → IsRead urn ids ks
    → IsRead urn (id ∷ ids) ks
IsRead-skip urn id ids ks sep (o, f) = (o, λ j m plain. f j (ground arith) plain)

contains_here :
    (urn id j : String) (k : UrnId) (ks : List UrnId)
    → j ≡ id
    → has_separator j ≡ false
    → (has_separator id ≡ false → k ≡ record { urn = urn; id = id })
    → contains (k ∷ ks) (record { urn = urn; id = j }) ≡ true
contains_here urn id j k ks p plain same = rw (
  p,
  same (ap has_separator (sym p) ∙ plain),
  ==_refl {A = UrnId} (record { urn = urn; id = id }),
)

IsRead-cons :
    (urn id : String) (ids : List String) (k : UrnId) (ks : List UrnId)
    → k.urn ≡ urn
    → (has_separator id ≡ false → k ≡ record { urn = urn; id = id })
    → IsRead urn ids ks
    → IsRead urn (id ∷ ids) (k ∷ ks)
IsRead-cons urn id ids k ks e same (o, f) = (
  (e, o),
  λ j m plain. elim (Bool-cases (j == id)) [
    | inl new ↦ contains_here urn id j k ks ((==_iff j id).0 new) plain same
    | inr old ↦ ground (arith, f j (ground arith) plain)
  ],
)

read-IsRead :
    (urn : String) (ids : List String) → has_separator urn ≡ false → IsRead urn ids (read urn ids)
unfolding convert_ids_to_urn_id check_ids_to_filter
read-IsRead urn [] h = (tt, λ id m plain. absurd (ground arith))
read-IsRead urn (id ∷ ids) h = elim (Bool-cases (has_separator id)) [
  | inl sep ↦ elim (Bool-cases (first_part (split id) == urn)) [
    | inl same ↦
        rw (sep, same)
          (IsRead-cons urn id ids (convert_id_to_urn_id urn id) (read urn ids)
            (convert-urn urn id sep same) (λ plain. absurd (ground arith)) (read-IsRead urn ids h))
    | inr other ↦
        rw (sep, other) (IsRead-skip urn id ids (read urn ids) sep (read-IsRead urn ids h))
  ]
  | inr plain ↦ rw plain (
      IsRead-cons urn id ids (convert_id_to_urn_id urn (urn <> (":" <> id))) (read urn ids)
        (rw (convert_plain urn id h plain)) (λ p. convert_plain urn id h plain)
        (read-IsRead urn ids h))
]

to_set-IsRead :
    (urn : String) (ids : List String) (ks : List UrnId)
    → IsRead urn ids ks
    → IsRead urn ids (to_set ks)
to_set-IsRead urn ids ks (o, f) = (
  All-to_set (λ (k : UrnId). k.urn ≡ urn) ks o,
  λ id m plain. contains-to_set ks (record { urn = urn; id = id }) ∙ f id m plain,
)

-- What is wanted of the set of ids that a list in the file is read into, if the list is there
abbrev pub IsParsed : String → Option (List String) → Option (List UrnId) → Type 0
IsParsed urn none o = o ≡ none
IsParsed urn (some ids) o = (ks : List UrnId) × (o ≡ some ks) × IsRead urn ids ks

parse_given-IsParsed :
    (urn : String) (o : Option (List String))
    → has_separator urn ≡ false
    → IsParsed urn o (parse_given urn o)
parse_given-IsParsed urn none h = refl
parse_given-IsParsed urn (some ids) h =
    (to_set (read urn ids), refl, to_set-IsRead urn ids (read urn ids) (read-IsRead urn ids h))

-- The ids of a filter, be it of includes or of excludes, are all of the filter's urn, and every id that
-- the file lists without a urn is among them, provided that the urn itself holds no separator; a list
-- that is not in the file gives no set.
pub parse_filter-IsRead :
    (urn : String) (e : FilterEntry)
    → has_separator urn ≡ false
    → IsParsed urn (includes_of e.ids) (parse_filter urn e).urn_ids_imports
      × IsParsed urn (excludes_of e.ids) (parse_filter urn e).urn_ids_excludes
unfolding parse_filter
parse_filter-IsRead urn e h =
    (parse_given-IsParsed urn (includes_of e.ids) h, parse_given-IsParsed urn (excludes_of e.ids) h)
