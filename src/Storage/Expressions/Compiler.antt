-- ===== src/Storage/Expressions/Compiler.antt =====
-- storage/el_to_sql_compiler.py: `ELToSQLCompiler`.
use reqstool_client.Prelude.{◌++◌, ◌<>◌, [], List, String, ◌∷◌}
use reqstool_client.Storage.Expressions.Evaluator.{value_list}
use reqstool_client.Models.UrnId.{UrnId}
use reqstool_client.Storage.Expressions.Syntax.{
  parenthesis, comp_id_regex_equals, comp_id_not_equals, comp_id_equals, op_not, op_or, op_and,
  Expr, inner,
}
use reqstool_client.Prelude.Result.{ok, ◌>>=◌, Result}

-- A WHERE clause with its parameters
abbrev pub Clause : Type 0
Clause = String × List String

-- `", ".join(["(?, ?)" for _ in urn_ids])`
unfoldable pub placeholders : List UrnId → String
placeholders [] = ""
placeholders (k ∷ []) = "(?, ?)"
placeholders (k ∷ j ∷ ks) = "(?, ?), " <> placeholders (j ∷ ks)

unfoldable pub id_params : List UrnId → List String
id_params [] = []
id_params (k ∷ ks) = k.urn ∷ k.id ∷ id_params ks

unfoldable pub infix_clause : String → Clause → Clause → Clause
infix_clause op (l, ps) (r, qs) = ("(" <> (l <> (op <> (r <> ")"))), ps ++ qs)

unfoldable pub not_clause : Clause → Clause
not_clause (s, ps) = ("(NOT " <> (s <> ")"), ps)

unfoldable pub in_clause : String → List UrnId → Clause
unfolding placeholders id_params
in_clause op ks =
    ("((urn, id) " <> (op <> (" (VALUES " <> (placeholders ks <> "))"))), id_params ks)

abbrev pub regex_clause : String → Clause
regex_clause pattern_str = ("(regexp(?, urn || ':' || id))", pattern_str ∷ [])

-- `compile`, from the tree
unfoldable pub compile : String → Expr → Result Clause
unfolding infix_clause not_clause in_clause value_list inner
compile urn (op_and l r) =
    compile urn l >>= (λ a. compile urn r >>= (λ b. ok (infix_clause " AND " a b)))
compile urn (op_or l r) =
    compile urn l >>= (λ a. compile urn r >>= (λ b. ok (infix_clause " OR " a b)))
compile urn (op_not e) = compile urn e >>= (λ a. ok (not_clause a))
compile urn (comp_id_equals token tokens) =
    value_list urn (token ∷ tokens) >>= (λ ks. ok (in_clause "IN" ks))
compile urn (comp_id_not_equals token tokens) =
    value_list urn (token ∷ tokens) >>= (λ ks. ok (in_clause "NOT IN" ks))
compile urn (comp_id_regex_equals token) = ok (regex_clause (inner token))
compile urn (parenthesis e) = compile urn e
