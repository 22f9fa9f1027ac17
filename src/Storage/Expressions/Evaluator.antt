-- ===== src/Storage/Expressions/Evaluator.antt =====
-- expression_languages/generic_el_transformer.py: `GenericELTransformer`, the meaning of an expression
-- for the id of an item.
use reqstool_client.Prelude.{contains, not, ◌||◌, ◌&&◌, [], Bool, List, String, ◌∷◌}
use reqstool_client.Storage.Expressions.Syntax.{
  parenthesis, comp_id_regex_equals, comp_id_not_equals, comp_id_equals, op_not, op_or, op_and,
  Expr, inner, string_token,
}
use reqstool_client.Models.UrnId.{urn_id_eq, str, UrnId, assure_urn_id}
use reqstool_client.Prelude.Result.{◌>>=◌, ok, Result}

-- `value`
unfoldable pub value : String → String → Result UrnId
unfolding string_token assure_urn_id
value urn token = assure_urn_id urn (string_token token)

-- `value_list`
unfoldable pub value_list : String → List String → Result (List UrnId)
unfolding value
value_list urn [] = ok []
value_list urn (token ∷ tokens) =
    value urn token >>= (λ k. value_list urn tokens >>= (λ ks. ok (k ∷ ks)))

-- Matching a pattern against the text of an id is given.
module _ (matches : String → String → Bool) (urn : String) (id : UrnId) where
  -- `GenericELTransformer.transform`
  unfoldable pub evaluate : Expr → Result Bool
  unfolding value_list inner str urn_id_eq
  evaluate (op_and l r) = evaluate l >>= (λ a. evaluate r >>= (λ b. ok (a && b)))
  evaluate (op_or l r) = evaluate l >>= (λ a. evaluate r >>= (λ b. ok (a || b)))
  evaluate (op_not e) = evaluate e >>= (λ a. ok (not a))
  evaluate (comp_id_equals token tokens) =
      value_list urn (token ∷ tokens) >>= (λ ks. ok (contains ks id))
  evaluate (comp_id_not_equals token tokens) =
      value_list urn (token ∷ tokens) >>= (λ ks. ok (not (contains ks id)))
  evaluate (comp_id_regex_equals token) = ok (matches (inner token) (str id))
  evaluate (parenthesis e) = evaluate e
