-- ===== src/Generators/SvcsModel/Laws.antt =====
-- Which SVCs a file is read into.
use mathlib.Core.Option
use reqstool_client.Prelude.{
  refl, ◌∙◌, inr, inl, and-true, Bool-cases, [], ◌∷◌, sym, none, some, ◌==◌, false, true, ◌≡◌,
  if◌then◌else◌, all, find?, Option, List, Bool, String,
}
use reqstool_client.Generators.SvcsModel.{
  case_entries, svc_data, parse_svc, SvcsFile, parse_svcs, SvcEntry, generate_svcs,
}
use reqstool_client.Generators.SourceLines.{the_id, parse_version, SourceLines}
use reqstool_client.Models.UrnId.{urn_id_eq, UrnId}
use reqstool_client.Models.Entities.{SvcData}
use reqstool_client.Models.Datasets.{SvcsData, get, Dict}
use reqstool_client.Models.Datasets.Laws.{
  or_else_assoc, get-put_missing, put_missing-IsKeyed, put_missing, or_else-none, IsKeyed, or_else,
}
use reqstool_client.Validators.Semantic.{svc_filters, ValidationErrorHolder}
use reqstool_client.Prelude.Result.{type_error, err, ok}
use reqstool_client.Common.FilterParser.{parse_filters}
use reqstool_client.Validators.Semantic.Documents.{
  validate_no_duplicate_svc_ids, validate_filter_has_excludes_xor_includes,
}

module _ (is_version : String → Bool) (version_text : String → String) (source_lines : SourceLines)
    (urn : String) where
  abbrev data_of : SvcEntry → SvcData
  data_of e = svc_data is_version version_text source_lines urn e (version_text e.revision)

  -- The first entry with an id, as an SVC
  abbrev pub first_case : UrnId → List SvcEntry → Option SvcData
  first_case k entries = Option.map data_of (find? (λ (e : SvcEntry). the_id urn e.id == k) entries)

  -- What the entries are read into
  abbrev IsReading : List SvcEntry → Dict UrnId SvcData → Dict UrnId SvcData → Type 0
  IsReading entries before d =
      (IsKeyed (λ (x : SvcData). x.id) before → IsKeyed (λ (x : SvcData). x.id) d)
      × ((k : UrnId) → get d k ≡ or_else (get before k) (first_case k entries))

  first_case-cons :
      (k : UrnId) (e : SvcEntry) (entries : List SvcEntry)
      → or_else (if the_id urn e.id == k then some (data_of e) else none) (first_case k entries)
        ≡ first_case k (e ∷ entries)
  first_case-cons k e entries = elim (Bool-cases (the_id urn e.id == k)) [
    | inl same ↦ rw same
    | inr other ↦ rw other
  ]

  parse_svcs_reads :
      (entries : List SvcEntry) (before : Dict UrnId SvcData)
      → all (λ (e : SvcEntry). is_version e.revision) entries ≡ true
      → (d : Dict UrnId SvcData) × (parse_svcs is_version version_text source_lines urn entries
            before
          ≡ ok d)
        × IsReading entries before d
  unfolding parse_svcs parse_svc parse_version
  parse_svcs_reads [] before h =
      (before, refl, (λ keyed. keyed, λ k. sym (or_else-none (get before k))))
  parse_svcs_reads (e ∷ entries) before h =
      let (valid, rest) = and-true (is_version e.revision) h in
      let (d, p, (keyed, found)) =
        parse_svcs_reads entries (put_missing before (the_id urn e.id) (data_of e)) rest in
      (
        d,
        rw valid p,
        (
          λ own. keyed (put_missing-IsKeyed (λ (x : SvcData). x.id) before (data_of e) own),
          λ k.
              found k
              ∙ rw (
                get-put_missing before (the_id urn e.id) (data_of e) k,
                or_else_assoc (get before k)
                    (if the_id urn e.id == k then some (data_of e) else none)
                    (first_case k entries),
                first_case-cons k e entries,
              ),
        ),
      )

  parse_svcs_raises :
      (entries : List SvcEntry) (before : Dict UrnId SvcData)
      → all (λ (e : SvcEntry). is_version e.revision) entries ≡ false
      → parse_svcs is_version version_text source_lines urn entries before ≡ err type_error
  unfolding parse_svcs parse_svc parse_version
  parse_svcs_raises [] before h = cc
  parse_svcs_raises (e ∷ entries) before h = elim (Bool-cases (is_version e.revision)) [
    | inl valid ↦ rw valid (
        parse_svcs_raises entries (put_missing before (the_id urn e.id) (data_of e))
          (rw valid at h))
    | inr invalid ↦ rw invalid
  ]

-- If every revision is a version, the file is read into SVCs under their own ids, each id once and with
-- the first case that the file has for it.
pub generate_svcs_lem :
    (is_version : String → Bool) (version_text : String → String) (source_lines : SourceLines)
    (urn : String) (file : SvcsFile) (holder : ValidationErrorHolder)
    → all (λ (e : SvcEntry). is_version e.revision) file.cases ≡ true
    → (d : SvcsData) × (after : ValidationErrorHolder) × (generate_svcs is_version version_text
          source_lines urn file holder
        ≡ ok (d, after))
      × IsKeyed (λ (x : SvcData). x.id) d.cases
      × ((k : UrnId)
          → get d.cases k ≡ first_case is_version version_text source_lines urn k file.cases)
unfolding generate_svcs
generate_svcs_lem is_version version_text source_lines urn file holder h =
    let (d, p, (keyed, found)) =
      parse_svcs_reads is_version version_text source_lines urn file.cases [] h in
    (
      record { cases = d; filters = parse_filters file.filters },
      (validate_filter_has_excludes_xor_includes svc_filters file.filters
          (validate_no_duplicate_svc_ids (some (case_entries file.cases)) holder).1).1,
      rw p,
      keyed (tt, tt),
      found,
    )

generate_svcs_raises :
    (is_version : String → Bool) (version_text : String → String) (source_lines : SourceLines)
    (urn : String) (file : SvcsFile) (holder : ValidationErrorHolder)
    → all (λ (e : SvcEntry). is_version e.revision) file.cases ≡ false
    → generate_svcs is_version version_text source_lines urn file holder ≡ err type_error
unfolding generate_svcs
generate_svcs_raises is_version version_text source_lines urn file holder h =
    rw (parse_svcs_raises is_version version_text source_lines urn file.cases [] h)
