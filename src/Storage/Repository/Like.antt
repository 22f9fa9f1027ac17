-- ===== src/Storage/Repository/Like.antt =====
-- SQLite's `LIKE` without an escape character, as `_process_class_annotated_test_results` uses it:
-- `%` matches any text, `_` any one character, and ASCII letters match in either case.
use Prim.Native.Char.{code}
use reqstool_client.Prelude.{
  eqb, ◌+◌, false, ◌∷◌, true, leb, ◌++◌, if◌then◌else◌, [], Bool, ℕ, List, String, ◌&&◌,
}

-- The code points of a text.
abbrev pub codes : String → List ℕ
codes String.[] = []
codes (String.◌∷◌ c s) = code c ∷ codes s

-- SQLite folds the ASCII letters only.
unfoldable pub fold_case : ℕ → ℕ
fold_case c = if leb b'A' c && leb c b'Z' then c + 32 else c

unfoldable pub like : List ℕ → List ℕ → Bool
unfolding fold_case
like [] [] = true
like [] (c ∷ text) = false
like (p ∷ pattern) [] = let rest = like pattern [] in if eqb p b'%' then rest else false
like (p ∷ pattern) (c ∷ text) =
    let skip = like pattern (c ∷ text) in
    let take = like (p ∷ pattern) text in
    let next = like pattern text in
    if eqb p b'%'
    then (if skip then true else take)
    else if eqb p b'_'
    then next
    else if eqb (fold_case p) (fold_case c)
    then next
    else false

-- `fqn LIKE ? || '.%'`
unfoldable pub in_class : String → String → Bool
in_class class_fqn fqn = like (codes class_fqn ++ b'.' ∷ b'%' ∷ []) (codes fqn)
