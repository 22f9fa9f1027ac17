-- ===== src/Validators/Semantic.antt =====
-- common/validators/semantic_validator.py: `SemanticValidator`, without the texts of its messages, and
-- common/validator_error_holder.py, whose state is the list of the errors.
pub mod Documents
pub mod References
use reqstool_client.Prelude.{
  refl, false, ◌&&◌, true, ◌≡◌, Bool, length, [], ◌++◌, ℕ, ◌∷◌, List, String,
}
use reqstool_client.Models.UrnId.{UrnId}

-- Which file a filter stands in
pub data FilterKind : Type 0 where
  svc_filters requirement_filters : FilterKind

-- `ValidationError`: the check that failed, and what its message names
pub data ValidationError : Type 0 where
  no_requirements : String → ValidationError
  duplicate_requirement : String → String → ValidationError
  no_cases : ValidationError
  duplicate_svc : String → List String → ValidationError
  both_id_filters both_custom_filters : FilterKind → String → ValidationError
  svc_without_requirement : UrnId → UrnId → ValidationError
  annotation_without_requirement annotation_without_svc mvr_without_svc : UrnId → ValidationError
  mvr_without_date : UrnId → UrnId → ValidationError
  same_moment : UrnId → UrnId → UrnId → ValidationError

-- `ValidationErrorHolder`
pub record ValidationErrorHolder : Type 0 where
  pub errors : List ValidationError

unfoldable pub add_error : ValidationError → ValidationErrorHolder → ValidationErrorHolder
add_error error holder = record { errors = holder.errors ++ error ∷ [] }

unfoldable pub add_errors : List ValidationError → ValidationErrorHolder → ValidationErrorHolder
unfolding add_error
add_errors [] holder = holder
add_errors (error ∷ errors) holder = add_errors errors (add_error error holder)

-- `get_no_of_errors`
unfoldable pub get_no_of_errors : ValidationErrorHolder → ℕ
get_no_of_errors holder = length holder.errors

-- No error was found.
abbrev pub is_clean : List ValidationError → Bool
is_clean [] = true
is_clean (e ∷ es) = false

pub is_clean-append :
    (es fs : List ValidationError) → is_clean (es ++ fs) ≡ (is_clean es && is_clean fs)
is_clean-append [] fs = refl
is_clean-append (e ∷ es) fs = refl
