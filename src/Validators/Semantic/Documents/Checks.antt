-- ===== src/Validators/Semantic/Documents/Checks.antt =====
-- What the checks on the files report.
use reqstool_client.Prelude.{
  none, some, if◌then◌else◌, Option, arith, ◌∙◌, length, contains, refl, sym, not, ◌≡◌, all, false,
  [], ◌∷◌, ◌&&◌, ltb, true, String, List, Bool, ◌++◌, string_eq,
}
use mathlib.Core.List.{append-nil, append_assoc}
use reqstool_client.Validators.Semantic.{
  both_custom_filters, no_cases, no_requirements, both_id_filters, duplicate_svc, FilterKind,
  duplicate_requirement, is_clean-append, is_clean, ValidationError, get_no_of_errors, add_error,
  ValidationErrorHolder,
}
use reqstool_client.Validators.Semantic.Documents.{
  validate_filter_has_excludes_xor_includes, check_given_filters, both_custom,
  validate_no_duplicate_svc_ids, check_cases, check_requirements, both_ids,
  validate_no_duplicate_requirement_ids, RequirementsDocument, check_filters, add_if,
  check_case_ids, CaseEntry, check_requirement_ids,
}
use reqstool_client.Common.FilterParser.{FilterEntry}
use reqstool_client.Models.Datasets.{Dict}

-- The errors that a check adds to those the holder has, and its result: they are none exactly in the
-- good case, and the result says whether the holder has any error now.
abbrev pub IsCheck : Bool → ValidationErrorHolder → Bool × ValidationErrorHolder → Type 0
IsCheck good holder (result, after) =
    ((new : List ValidationError) × (after.errors ≡ holder.errors ++ new) × (is_clean new ≡ good))
    × (result ≡ not (is_clean after.errors))

-- No id is listed twice.
abbrev pub all_different : List String → Bool
all_different [] = true
all_different (id ∷ ids) = not (contains ids id) && all_different ids

-- The errors that are added
abbrev Adds : Bool → ValidationErrorHolder → ValidationErrorHolder → Type 0
Adds good holder after =
    (new : List ValidationError) × (after.errors ≡ holder.errors ++ new) × (is_clean new ≡ good)

Adds-nothing : (holder : ValidationErrorHolder) → Adds true holder holder
Adds-nothing holder = ([], sym (append-nil holder.errors), refl)

add_error-Adds :
    (e : ValidationError) (holder : ValidationErrorHolder) → Adds false holder (add_error e holder)
unfolding add_error
add_error-Adds e holder = (e ∷ [], refl, refl)

Adds-trans :
    (a b : Bool) (h0 h1 h2 : ValidationErrorHolder)
    → Adds a h0 h1
    → Adds b h1 h2
    → Adds (a && b) h0 h2
Adds-trans a b h0 h1 h2 (new, p, c) (more, q, d) =
    (new ++ more, rw (q, p) (append_assoc h0.errors new more), is_clean-append new more ∙ rw (c, d))

Adds-same : (a b : Bool) (h0 h1 : ValidationErrorHolder) → a ≡ b → Adds a h0 h1 → Adds b h0 h1
Adds-same a b h0 h1 p (new, q, c) = (new, q, c ∙ p)

result_lem :
    (holder : ValidationErrorHolder)
    → ltb 0 (get_no_of_errors holder) ≡ not (is_clean holder.errors)
unfolding get_no_of_errors
result_lem holder = of_errors holder.errors
  where
    of_errors : (es : List ValidationError) → ltb 0 (length es) ≡ not (is_clean es)
    of_errors [] = refl
    of_errors (e ∷ es) = ground arith

-- None of the ids is known.
abbrev none_known : List String → List String → Bool
none_known known ids = all (λ id. not (contains known id)) ids

none_known-cons :
    (ids known : List String) (id : String)
    → none_known (id ∷ known) ids ≡ (none_known known ids && not (contains ids id))
none_known-cons [] known id = refl
none_known-cons (j ∷ ids) known id = ground (arith, none_known-cons ids known id)

none_known-empty : (ids : List String) → none_known [] ids ≡ true
none_known-empty [] = refl
none_known-empty (id ∷ ids) = none_known-empty ids

-- One step of a loop over ids that keeps the set of those it met
id-Adds :
    (known ids : List String) (id : String) (e : ValidationError) (holder : ValidationErrorHolder)
    (next : List String → ValidationErrorHolder → ValidationErrorHolder) (b : Bool)
    → contains known id ≡ b
    → ((ks : List String) (h : ValidationErrorHolder)
        → Adds (none_known ks ids && all_different ids) h (next ks h))
    → Adds
        (none_known known (id ∷ ids) && all_different (id ∷ ids))
        holder
        (next (if b then known else id ∷ known) (if b then add_error e holder else holder))
id-Adds known ids id e holder next true again rest =
    Adds-same (false && (none_known known ids && all_different ids))
      (none_known known (id ∷ ids) && all_different (id ∷ ids)) holder
      (next known (add_error e holder)) (rw again)
      (Adds-trans false (none_known known ids && all_different ids) holder (add_error e holder)
        (next known (add_error e holder)) (add_error-Adds e holder)
        (rest known (add_error e holder)))
id-Adds known ids id e holder next false new rest =
    Adds-same (none_known (id ∷ known) ids && all_different ids)
      (none_known known (id ∷ ids) && all_different (id ∷ ids)) holder (next (id ∷ known) holder)
      (rw (none_known-cons ids known id, new) (ground arith)) (rest (id ∷ known) holder)

check_requirement_ids-Adds :
    (urn : String) (known ids : List String) (holder : ValidationErrorHolder)
    → Adds
        (none_known known ids && all_different ids)
        holder
        (check_requirement_ids urn known ids holder)
unfolding check_requirement_ids
check_requirement_ids-Adds urn known [] holder = Adds-nothing holder
check_requirement_ids-Adds urn known (id ∷ ids) holder =
    id-Adds known ids id (duplicate_requirement id urn) holder
      (λ ks h. check_requirement_ids urn ks ids h) (contains known id) refl
      (λ ks h. check_requirement_ids-Adds urn ks ids h)

abbrev pub ids_of : List CaseEntry → List String
ids_of [] = []
ids_of (entry ∷ entries) = entry.id ∷ ids_of entries

check_case_ids-Adds :
    (known : List String) (entries : List CaseEntry) (holder : ValidationErrorHolder)
    → Adds
        (none_known known (ids_of entries) && all_different (ids_of entries))
        holder
        (check_case_ids known entries holder)
unfolding check_case_ids
check_case_ids-Adds known [] holder = Adds-nothing holder
check_case_ids-Adds known (entry ∷ entries) holder =
    id-Adds known (ids_of entries) entry.id (duplicate_svc entry.id entry.requirement_ids) holder
      (λ ks h. check_case_ids ks entries h) (contains known entry.id) refl
      (λ ks h. check_case_ids-Adds ks entries h)

-- No filter has both includes and excludes, of either kind.
abbrev pub is_exclusive : FilterEntry → Bool
is_exclusive e = not (both_ids e.ids) && not (both_custom e.custom)

add_if-Adds :
    (b : Bool) (e : ValidationError) (holder : ValidationErrorHolder)
    → Adds (not b) holder (add_if b e holder)
add_if-Adds true e holder = add_error-Adds e holder
add_if-Adds false e holder = Adds-nothing holder

check_filters-Adds :
    (kind : FilterKind) (filters : Dict String FilterEntry) (holder : ValidationErrorHolder)
    → Adds
        (all (λ (e : String × FilterEntry). is_exclusive e.1) filters)
        holder
        (check_filters kind filters holder)
unfolding check_filters
check_filters-Adds kind [] holder = Adds-nothing holder
check_filters-Adds kind ((urn, e) ∷ filters) holder =
    let ids = add_if (both_ids e.ids) (both_id_filters kind urn) holder in
    let both = add_if (both_custom e.custom) (both_custom_filters kind urn) ids in
    let rest = all (λ (e : String × FilterEntry). is_exclusive e.1) filters in
    Adds-trans (is_exclusive e) rest holder both (check_filters kind filters both)
      (Adds-trans (not (both_ids e.ids)) (not (both_custom e.custom)) holder ids both
        (add_if-Adds (both_ids e.ids) (both_id_filters kind urn) holder)
        (add_if-Adds (both_custom e.custom) (both_custom_filters kind urn) ids))
      (check_filters-Adds kind filters both)

-- The good case of each file
abbrev pub are_distinct_requirements : RequirementsDocument → Option (List String) → Bool
are_distinct_requirements document none = document.has_systems
are_distinct_requirements document (some ids) = all_different ids

abbrev pub are_distinct_cases : Option (List CaseEntry) → Bool
are_distinct_cases none = false
are_distinct_cases (some entries) = all_different (ids_of entries)

abbrev pub are_exclusive : Option (Dict String FilterEntry) → Bool
are_exclusive none = true
are_exclusive (some filters) = all (λ (e : String × FilterEntry). is_exclusive e.1) filters

all-Adds :
    (ids : List String) (h0 h1 : ValidationErrorHolder)
    → Adds (none_known [] ids && all_different ids) h0 h1
    → Adds (all_different ids) h0 h1
all-Adds ids h0 h1 =
    Adds-same (none_known [] ids && all_different ids) (all_different ids) h0 h1
      (rw (none_known-empty ids))

check_requirements-Adds :
    (document : RequirementsDocument) (o : Option (List String)) (holder : ValidationErrorHolder)
    → Adds (are_distinct_requirements document o) holder (check_requirements document o holder)
check_requirements-Adds document none holder =
    Adds-same (not (not document.has_systems)) document.has_systems holder
      (add_if (not document.has_systems) (no_requirements document.urn) holder) (ground arith)
      (add_if-Adds (not document.has_systems) (no_requirements document.urn) holder)
check_requirements-Adds document (some ids) holder =
    all-Adds ids holder (check_requirement_ids document.urn [] ids holder)
      (check_requirement_ids-Adds document.urn [] ids holder)

check_cases-Adds :
    (o : Option (List CaseEntry)) (holder : ValidationErrorHolder)
    → Adds (are_distinct_cases o) holder (check_cases o holder)
check_cases-Adds none holder = add_error-Adds no_cases holder
check_cases-Adds (some entries) holder =
    all-Adds (ids_of entries) holder (check_case_ids [] entries holder)
      (check_case_ids-Adds [] entries holder)

check_given_filters-Adds :
    (kind : FilterKind) (o : Option (Dict String FilterEntry)) (holder : ValidationErrorHolder)
    → Adds (are_exclusive o) holder (check_given_filters kind o holder)
check_given_filters-Adds kind none holder = Adds-nothing holder
check_given_filters-Adds kind (some filters) holder = check_filters-Adds kind filters holder

-- The checks of a file add no error exactly if the file has a list of requirements or of systems, or of
-- test cases, be it empty, nothing is listed twice in it, and no filter has both includes and excludes;
-- the errors that the holder has are kept, and each result says whether the holder has any error now.
pub files-IsCheck :
    (document : RequirementsDocument) (cases : Option (List CaseEntry)) (kind : FilterKind)
    (filters : Option (Dict String FilterEntry)) (holder : ValidationErrorHolder)
    → IsCheck
        (are_distinct_requirements document document.requirements)
        holder
        (validate_no_duplicate_requirement_ids document holder)
      × IsCheck (are_distinct_cases cases) holder (validate_no_duplicate_svc_ids cases holder)
      × IsCheck
          (are_exclusive filters)
          holder
          (validate_filter_has_excludes_xor_includes kind filters holder)
unfolding validate_no_duplicate_requirement_ids validate_no_duplicate_svc_ids
    validate_filter_has_excludes_xor_includes
files-IsCheck document cases kind filters holder = (
  (
    check_requirements-Adds document document.requirements holder,
    result_lem (check_requirements document document.requirements holder),
  ),
  (check_cases-Adds cases holder, result_lem (check_cases cases holder)),
  (
    check_given_filters-Adds kind filters holder,
    result_lem (check_given_filters kind filters holder),
  ),
)
