-- ===== src/Storage/Filters/Conditions.antt =====
-- storage/database_filter_processor.py: the conditions of the custom filters, from the text of an
-- expression. lark's parser and SQLite's evaluation of a WHERE clause on a row are given.
use reqstool_client.Prelude.{
  ◌&&◌, contains, map, string_eq, ◌≡◌, ◌==◌, if◌then◌else◌, Bool, List, String,
}
use reqstool_client.Storage.Database.{svc_key, Database}
use reqstool_client.Prelude.Result.{◌>>=◌, ok, Result}
use reqstool_client.Storage.Expressions.{compile, Clause, Expr}
use reqstool_client.Models.UrnId.{urn_id_eq, UrnId}
use reqstool_client.Storage.Filters.Selection.{Condition, requirement_keys}
use reqstool_client.Storage.Filters.Termination.{IsCompiling}
use reqstool_client.Storage.Expressions.Meaning.{render, compile_means}

abbrev keys_of : Database → String → List UrnId
keys_of db table = if table == "requirements" then requirement_keys db else map svc_key db.svcs

module _ (parse : String → Result Expr) (satisfies : Clause → UrnId → Bool) where
  -- `_eval_compiled_el`: the row is there, and the clause holds of it.
  unfoldable pub eval_compiled_el : Clause → UrnId → Database → String → Bool
  unfolding urn_id_eq string_eq
  eval_compiled_el clause k db table = contains (keys_of db table) k && satisfies clause k

  -- `ELToSQLCompiler.compile`, and what `_get_filtered_out` does with it
  unfoldable pub compile_condition : Database → String → String → String → Result Condition
  unfolding compile eval_compiled_el
  compile_condition db table expression urn =
      parse expression
      >>= (λ e. compile urn e >>= (λ clause. ok (λ k. eval_compiled_el clause k db table)))

  -- If every expression parses, every expression compiles.
  pub compile_condition-IsCompiling :
      ((expression : String) → (e : Expr) × (parse expression ≡ ok e))
      → (db : Database) (table : String) → IsCompiling (compile_condition db table)
  unfolding compile_condition
  compile_condition-IsCompiling parses db table expression urn =
      let (e, p) = parses expression in
      let (c, (q, h)) = compile_means urn e in
      ((λ k. eval_compiled_el (render c) k db table), rw (p, q))
