-- ===== src/Storage/Expressions/Meaning.antt =====
-- The WHERE clause of an expression means what the expression means.
use reqstool_client.Prelude.{ap, ◌<>◌, ◌++◌}
use reqstool_client.Prelude.{refl, [], ◌∷◌, ◌≡◌, contains, not, ◌||◌, ◌&&◌, Bool, List, String}
use reqstool_client.Storage.Expressions.Compiler.{
  id_params, placeholders, compile, Clause, in_clause, not_clause, infix_clause,
}
use reqstool_client.Models.UrnId.{str, UrnId, urn_id_eq}
use reqstool_client.Storage.Expressions.Evaluator.{evaluate, value_list}
use reqstool_client.Storage.Expressions.Syntax.{
  parenthesis, inner, comp_id_regex_equals, comp_id_not_equals, comp_id_equals, string_token,
  op_not, op_or, op_and, Expr,
}
use reqstool_client.Storage.Expressions.Evaluator.{value}
use reqstool_client.Prelude.Result.{ok}
use reqstool_client.Models.UrnId.Laws.{assure_urn_id-total}

-- The conditions of SQL that the compiler writes
pub data SqlCondition : Type 0 where
  conjunction disjunction : SqlCondition → SqlCondition → SqlCondition
  negation : SqlCondition → SqlCondition
  is_in is_not_in : List UrnId → SqlCondition
  is_matched : String → SqlCondition

-- A pair of placeholders for each id
rows_text : List UrnId → String
rows_text [] = ""
rows_text (k ∷ []) = "(?, ?)"
rows_text (k ∷ j ∷ ks) = "(?, ?), " <> rows_text (j ∷ ks)

values_of : List UrnId → List String
values_of [] = []
values_of (k ∷ ks) = k.urn ∷ k.id ∷ values_of ks

-- How a condition is written, as a text and the values of its placeholders
pub render : SqlCondition → Clause
unfolding rows_text values_of
render (conjunction a b) =
    let (s, ps) = render a in
    let (t, qs) = render b in ("(" <> (s <> (" AND " <> (t <> ")"))), ps ++ qs)
render (disjunction a b) =
    let (s, ps) = render a in
    let (t, qs) = render b in ("(" <> (s <> (" OR " <> (t <> ")"))), ps ++ qs)
render (negation a) = let (s, ps) = render a in ("(NOT " <> (s <> ")"), ps)
render (is_in ks) =
    ("((urn, id) " <> ("IN" <> (" (VALUES " <> (rows_text ks <> "))"))), values_of ks)
render (is_not_in ks) =
    ("((urn, id) " <> ("NOT IN" <> (" (VALUES " <> (rows_text ks <> "))"))), values_of ks)
render (is_matched pattern_str) = ("(regexp(?, urn || ':' || id))", pattern_str ∷ [])

placeholders-rows_text : (ks : List UrnId) → placeholders ks ≡ rows_text ks
unfolding placeholders rows_text
placeholders-rows_text [] = refl
placeholders-rows_text (k ∷ []) = refl
placeholders-rows_text (k ∷ j ∷ ks) = rw (placeholders-rows_text (j ∷ ks))

id_params-values_of : (ks : List UrnId) → id_params ks ≡ values_of ks
unfolding id_params values_of
id_params-values_of [] = refl
id_params-values_of (k ∷ ks) = rw (id_params-values_of ks)

in_clause-render :
    (ks : List UrnId)
    → (in_clause "IN" ks ≡ render (is_in ks)) × (in_clause "NOT IN" ks ≡ render (is_not_in ks))
unfolding in_clause render
in_clause-render ks = (
  rw (placeholders-rows_text ks, id_params-values_of ks),
  rw (placeholders-rows_text ks, id_params-values_of ks),
)

-- What SQLite makes of it on a row, whose columns `urn` and `id` are never null
unfoldable pub holds : (String → String → Bool) → UrnId → SqlCondition → Bool
unfolding urn_id_eq str
holds matches k (conjunction a b) = holds matches k a && holds matches k b
holds matches k (disjunction a b) = holds matches k a || holds matches k b
holds matches k (negation a) = not (holds matches k a)
holds matches k (is_in ks) = contains ks k
holds matches k (is_not_in ks) = not (contains ks k)
holds matches k (is_matched pattern_str) = matches pattern_str (str k)

value_list-total :
    (urn : String) (tokens : List String) → (ks : List UrnId) × (value_list urn tokens ≡ ok ks)
unfolding value_list value
value_list-total urn [] = ([], refl)
value_list-total urn (token ∷ tokens) =
    let (k, p) = assure_urn_id-total urn (string_token token) in
    let (ks, q) = value_list-total urn tokens in (k ∷ ks, rw (p, q))

-- A condition that an expression is compiled to, and that means what the expression means
abbrev pub IsMeaning : String → Expr → SqlCondition → Type 0
IsMeaning urn e c =
    (compile urn e ≡ ok (render c))
    × ((matches : String → String → Bool) (k : UrnId)
        → evaluate matches urn k e ≡ ok (holds matches k c))

pub compile_means : (urn : String) (e : Expr) → (c : SqlCondition) × IsMeaning urn e c
unfolding compile evaluate render holds infix_clause not_clause
compile_means urn (op_and l r) =
    let (a, (p, h)) = compile_means urn l in
    let (b, (q, k)) = compile_means urn r in
    (conjunction a b, (rw (p, q), λ m i. rw (h m i, k m i)))
compile_means urn (op_or l r) =
    let (a, (p, h)) = compile_means urn l in
    let (b, (q, k)) = compile_means urn r in
    (disjunction a b, (rw (p, q), λ m i. rw (h m i, k m i)))
compile_means urn (op_not e) =
    let (a, (p, h)) = compile_means urn e in (negation a, (rw p, λ m i. rw (h m i)))
compile_means urn (comp_id_equals token tokens) =
    let (ks, p) = value_list-total urn (token ∷ tokens) in
    (is_in ks, (rw p (ap ok (in_clause-render ks).0), λ m i. rw p))
compile_means urn (comp_id_not_equals token tokens) =
    let (ks, p) = value_list-total urn (token ∷ tokens) in
    (is_not_in ks, (rw p (ap ok (in_clause-render ks).1), λ m i. rw p))
compile_means urn (comp_id_regex_equals token) = (is_matched (inner token), (refl, λ m i. refl))
compile_means urn (parenthesis e) = let (a, (p, h)) = compile_means urn e in (a, (p, h))
