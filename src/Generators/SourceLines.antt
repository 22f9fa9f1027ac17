-- ===== src/Generators/SourceLines.antt =====
-- What the model generators share: where an id stands in its file, versions and lifecycles.
use reqstool_client.Models.Datasets.{get, Dict}
use reqstool_client.Prelude.{none, if◌then◌else◌, some, Bool, ℕ, String, string_eq, Option}
use reqstool_client.Models.Entities.{effective, LifecycleData, SourceSpan}
use reqstool_client.Prelude.Result.{type_error, err, ok, Result}
use reqstool_client.Models.UrnId.{UrnId}

-- What `__capture_source_lines` finds in the text of a file: the line, and the first and the last column
abbrev pub SourceLines : Type 0
SourceLines = Dict String (ℕ × ℕ × ℕ)

abbrev span_at : Option (ℕ × ℕ × ℕ) → SourceSpan
span_at none = record { source_line = none; source_col_start = none; source_col_end = none }
span_at (some (line, start, end)) = record {
  source_line = some line;
  source_col_start = some start;
  source_col_end = some end;
}

-- `source_lines[id][…] if id in source_lines else None`
unfoldable pub span_of : SourceLines → String → SourceSpan
unfolding string_eq
span_of source_lines id = span_at (get source_lines id)

-- `LifecycleData.from_dict`
unfoldable pub from_dict : Option LifecycleData → LifecycleData
from_dict none = record { state = effective; reason = none }
from_dict (some given) = given

-- `Utils.parse_version`, as the text that the database stores of the `Version`. Which texts
-- `packaging.version` accepts, and the normalised text of the version that it makes of one, are given.
unfoldable pub parse_version : (String → Bool) → (String → String) → String → Result String
parse_version is_version version_text version_str =
    if is_version version_str then ok (version_text version_str) else err type_error

abbrev pub the_id : String → String → UrnId
the_id urn id = record { urn = urn; id = id }
