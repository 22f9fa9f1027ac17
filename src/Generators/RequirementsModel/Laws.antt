-- ===== src/Generators/RequirementsModel/Laws.antt =====
-- Which requirements a file is read into.
use mathlib.Core.Option
use reqstool_client.Prelude.{
  inr, inl, Bool-cases, [], ◌∷◌, ◌==◌, false, ◌≡◌, all, find?, Option, List, Bool, String,
}
use reqstool_client.Generators.RequirementsModel.{
  entries_of, requirement_data, parse_requirement, RequirementsFile, parse_requirements,
  RequirementEntry, generate_requirements,
}
use reqstool_client.Generators.SourceLines.{the_id, parse_version, SourceLines}
use reqstool_client.Models.UrnId.{urn_id_eq, UrnId}
use reqstool_client.Models.Entities.{RequirementData}
use reqstool_client.Models.Datasets.{get, Dict}
use reqstool_client.Models.Datasets.Laws.{put_missing, IsKeyed, or_else}
use reqstool_client.Validators.Semantic.{ValidationErrorHolder}
use reqstool_client.Prelude.Result.{type_error, err}

module _ (is_version : String → Bool) (version_text : String → String) (source_lines : SourceLines)
    (urn : String) where
  abbrev data_of : RequirementEntry → RequirementData
  data_of e = requirement_data is_version version_text source_lines urn e (version_text e.revision)

  -- The first entry with an id, as a requirement
  abbrev pub first_entry : UrnId → List RequirementEntry → Option RequirementData
  first_entry k entries =
      Option.map data_of (find? (λ (e : RequirementEntry). the_id urn e.id == k) entries)

  -- What the entries are read into
  abbrev IsReading :
      List RequirementEntry → Dict UrnId RequirementData → Dict UrnId RequirementData → Type 0
  IsReading entries before d =
      (IsKeyed (λ (x : RequirementData). x.id) before → IsKeyed (λ (x : RequirementData). x.id) d)
      × ((k : UrnId) → get d k ≡ or_else (get before k) (first_entry k entries))

  parse_requirements_raises :
      (entries : List RequirementEntry) (before : Dict UrnId RequirementData)
      → all (λ (e : RequirementEntry). is_version e.revision) entries ≡ false
      → parse_requirements is_version version_text source_lines urn entries before ≡ err type_error
  unfolding parse_requirements parse_requirement parse_version
  parse_requirements_raises [] before h = cc
  parse_requirements_raises (e ∷ entries) before h = elim (Bool-cases (is_version e.revision)) [
    | inl valid ↦ rw valid (
        parse_requirements_raises entries (put_missing before (the_id urn e.id) (data_of e))
          (rw valid at h))
    | inr invalid ↦ rw invalid
  ]

generate_requirements_raises :
    (is_version : String → Bool) (version_text : String → String) (source_lines : SourceLines)
    (file : RequirementsFile) (holder : ValidationErrorHolder)
    → all (λ (e : RequirementEntry). is_version e.revision) (entries_of file.requirements) ≡ false
    → generate_requirements is_version version_text source_lines file holder ≡ err type_error
unfolding generate_requirements
generate_requirements_raises is_version version_text source_lines file holder h = rw (
    parse_requirements_raises is_version version_text source_lines file.metadata.urn
      (entries_of file.requirements) [] h)
