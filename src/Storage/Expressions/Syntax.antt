-- ===== src/Storage/Expressions/Syntax.antt =====
-- expression_languages/generic_el_transformer.py: the tree that the grammar describes, and its tokens.
use Prim.Native.Char.{Char, code}
use reqstool_client.Prelude.{List, String, eqb, ◌&&◌, if◌then◌else◌}

-- `expr` and `term`; a list of values is not empty. The tokens are as they stand in the text.
pub data Expr : Type 0 where
  op_and op_or : Expr → Expr → Expr
  op_not : Expr → Expr
  comp_id_equals comp_id_not_equals : String → List String → Expr
  comp_id_regex_equals : String → Expr
  parenthesis : Expr → Expr

-- `s[:-1]`
unfoldable pub drop_last : String → String
drop_last String.[] = String.[]
drop_last (String.◌∷◌ c String.[]) = String.[]
drop_last (String.◌∷◌ c (String.◌∷◌ d s)) = String.◌∷◌ c (drop_last (String.◌∷◌ d s))

-- `s[1:-1]`: the text between the delimiters
unfoldable pub inner : String → String
unfolding drop_last
inner String.[] = String.[]
inner (String.◌∷◌ c s) = drop_last s

-- `s.replace("\\" + q, q)`
unfoldable pub unescape : Char → String → String
unescape q String.[] = String.[]
unescape q (String.◌∷◌ c String.[]) = String.◌∷◌ c String.[]
unescape q (String.◌∷◌ c (String.◌∷◌ d s)) =
    let replaced = String.◌∷◌ q (unescape q s) in
    let kept = String.◌∷◌ c (unescape q (String.◌∷◌ d s)) in
    if eqb (code c) b'\\' && eqb (code d) (code q) then replaced else kept

-- `STRING`
unfoldable pub string_token : String → String
unfolding inner unescape
string_token token = unescape "'" (unescape "\"" (inner token))
