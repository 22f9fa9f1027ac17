-- ===== src/Commands/GroupBy/Names.antt =====
-- commands/report/criterias/group_by.py: the names of the groups are told apart.
use reqstool_client.Prelude.{◌∷◌}
use reqstool_client.Prelude.{
  none, refl, arith, inr, ==_refl, ap, ◌∙◌, ==_iff, if◌then◌else◌, inl, sym, some, false, ℕ,
  Bool-cases, string_eq, Option, List, String, ◌==◌, ◌≡◌, ◌<>◌,
}
use reqstool_client.Commands.GroupBy.{category_value}
use reqstool_client.Models.Entities.{
  safety, flexibility, maintainability, category_eq, security, reliability, interaction_capability,
  compatibility, performance_efficiency, functional_suitability, Category,
}
use mathlib.Core.Option.{some-injective}
use reqstool_client.Storage.Repository.LikeLaws.{codes-append}
use mathlib.Core.Bool.{true≢false}
use reqstool_client.Storage.Repository.{codes}

-- Reads the value of a category.
abbrev category_of : String → Option Category
category_of s =
    if s == "functional-suitability"
    then some functional_suitability
    else if s == "performance-efficiency"
    then some performance_efficiency
    else if s == "compatibility"
    then some compatibility
    else if s == "interaction-capability"
    then some interaction_capability
    else if s == "reliability"
    then some reliability
    else if s == "security"
    then some security
    else if s == "maintainability"
    then some maintainability
    else if s == "flexibility"
    then some flexibility
    else if s == "safety"
    then some safety
    else none

category_of-category_value : (c : Category) → category_of (category_value c) ≡ some c
unfolding category_value string_eq
category_of-category_value functional_suitability = refl
category_of-category_value performance_efficiency = refl
category_of-category_value compatibility = refl
category_of-category_value interaction_capability = refl
category_of-category_value reliability = refl
category_of-category_value security = refl
category_of-category_value maintainability = refl
category_of-category_value flexibility = refl
category_of-category_value safety = refl

category_value-injective : (c d : Category) → category_value c ≡ category_value d → c ≡ d
category_value-injective c d h =
    some-injective c d
      (sym (category_of-category_value c) ∙ ap category_of h ∙ category_of-category_value d)

pub category_value-eq : (c d : Category) → (category_value c == category_value d) ≡ (c == d)
category_value-eq c d = elim (Bool-cases (c == d)) [
  | inl same ↦ rw ((==_iff c d).0 same, ==_refl (category_value d)) (sym (==_refl d))
  | inr other ↦ elim (Bool-cases (category_value c == category_value d)) [
    | inl alike ↦
        let e =
          category_value-injective c d ((==_iff (category_value c) (category_value d)).0 alike) in
        absurd (true≢false (sym (==_refl d) ∙ rw e at other))
    | inr unlike ↦ rw (other, unlike)
  ]
]

pub category_value-ne_none : (c : Category) → (category_value c == "No Category") ≡ false
unfolding category_value string_eq
category_value-ne_none functional_suitability = refl
category_value-ne_none performance_efficiency = refl
category_value-ne_none compatibility = refl
category_value-ne_none interaction_capability = refl
category_value-ne_none reliability = refl
category_value-ne_none security = refl
category_value-ne_none maintainability = refl
category_value-ne_none flexibility = refl
category_value-ne_none safety = refl

-- The second character of a text
abbrev second_code : List ℕ → ℕ
second_code (a ∷ b ∷ cs) = b
second_code _ = 0

pub initial-ne_imported : (s : String) → (("Initial URN (" <> s) == "Imported") ≡ false
initial-ne_imported s = elim (Bool-cases (("Initial URN (" <> s) == "Imported")) [
  | inl alike ↦
      let e : ("Initial URN (" <> s) ≡ "Imported" =
        (==_iff ("Initial URN (" <> s) "Imported").0 alike in
      let f : 110 ≡ 109 = ap second_code (sym (codes-append "Initial URN (" s) ∙ ap codes e) in
      absurd (omega (arith, f))
  | inr unlike ↦ unlike
]

-- Equality is tested either way round.
eq_comm : (s t : String) → (s == t) ≡ (t == s)
eq_comm s t = elim (Bool-cases (s == t)) [
  | inl same ↦ rw ((==_iff s t).0 same)
  | inr other ↦ elim (Bool-cases (t == s)) [
    | inl same ↦ rw ((==_iff t s).0 same)
    | inr unlike ↦ rw (other, unlike)
  ]
]

pub none-ne_category_value : (c : Category) → ("No Category" == category_value c) ≡ false
none-ne_category_value c = eq_comm "No Category" (category_value c) ∙ category_value-ne_none c

pub imported-ne_initial : (s : String) → ("Imported" == ("Initial URN (" <> s)) ≡ false
imported-ne_initial s = eq_comm "Imported" ("Initial URN (" <> s) ∙ initial-ne_imported s
