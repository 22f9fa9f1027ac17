-- ===== src/Tests/ExpressionTests.antt =====
-- Tests of the filters' expression language.
use reqstool_client.Storage.Expressions.{
  comp_id_regex_equals, op_not, comp_id_equals, op_and, Clause, evaluate, compile, Expr,
}
use reqstool_client.Common.FilterParser.{
  excludes_of, parse_filter, includes_of, parse_filters, FilterEntry,
}
use reqstool_client.Models.UrnId.{has_separator}
use reqstool_client.Prelude.{refl, none, true, [], ◌∷◌, ◌==◌, ◌≡◌, some, string_eq}
use reqstool_client.Storage.Expressions.Placeholders.{compile-IsSafe, IsSafe}
use reqstool_client.Prelude.Result.{ok}
use reqstool_client.Common.FilterParser.Laws.{IsParsed, parse_filter-IsRead}

-- `ids == "SVC_1", 'lib:SVC_2' and not ids == /SVC_3/` for the urn "ms"
abbrev expression : Expr
expression =
    op_and (comp_id_equals "\"SVC_1\"" ("'lib:SVC_2'" ∷ []))
      (op_not (comp_id_regex_equals "/SVC_3/"))

compile_text :
    compile "ms" expression
    ≡ ok (
      "(((urn, id) IN (VALUES (?, ?), (?, ?))) AND (NOT (regexp(?, urn || ':' || id))))",
      "ms" ∷ "SVC_1" ∷ "lib" ∷ "SVC_2" ∷ "SVC_3" ∷ [],
    )
unfolding compile
compile_text = refl

evaluate-expression :
    evaluate
      (λ pattern text. pattern == text)
      "ms"
      (record { urn = "lib"; id = "SVC_2" })
      expression
    ≡ ok true
unfolding evaluate string_eq
evaluate-expression = refl

compile-IsSafe_example : (clause : Clause) × (other : Clause) × IsSafe "ms" expression clause other
compile-IsSafe_example = compile-IsSafe "ms" expression

-- A filter of the svcs.yml of "ms", which lists an id of the urn "lib" too
abbrev entry : FilterEntry
entry = record {
  ids = some (record { includes = some ("SVC_1" ∷ "lib:SVC_2" ∷ "SVC_1" ∷ []); excludes = none });
  custom = none;
}

parse_filter_ms :
    parse_filters (some (("ms", entry) ∷ []))
    ≡ (
      "ms",
      record {
        urn_ids_imports = some (record { urn = "ms"; id = "SVC_1" } ∷ []);
        urn_ids_excludes = none;
        custom_imports = none;
        custom_exclude = none;
      },
    )
      ∷ []
unfolding parse_filters
parse_filter_ms = refl

parse_filter-IsRead_example :
    IsParsed "ms" (includes_of entry.ids) (parse_filter "ms" entry).urn_ids_imports
    × IsParsed "ms" (excludes_of entry.ids) (parse_filter "ms" entry).urn_ids_excludes
unfolding has_separator
parse_filter-IsRead_example = parse_filter-IsRead "ms" entry refl
