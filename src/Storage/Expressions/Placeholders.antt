-- ===== src/Storage/Expressions/Placeholders.antt =====
-- The SQL text of an expression and its parameters belong together, and none of the expression's own
-- text enters the SQL text.
use Prim.Native.Char.{code}
use text.Mathlib.TextLemmas.{cons-append, nil-append}
use reqstool_client.Prelude.{
  map, ap, refl, [], ◌+◌, length-append, length, ◌≡◌, if◌then◌else◌, List, ◌<>◌, arith, ℕ, String,
  ◌∷◌, eqb,
}
use reqstool_client.Storage.Expressions.Compiler.{
  regex_clause, compile, id_params, in_clause, placeholders, not_clause, infix_clause, Clause,
}
use reqstool_client.Models.UrnId.{UrnId}
use reqstool_client.Storage.Expressions.Evaluator.{value, value_list}
use reqstool_client.Storage.Expressions.Syntax.{
  inner, parenthesis, comp_id_regex_equals, comp_id_not_equals, comp_id_equals, op_not,
  string_token, op_or, op_and, Expr,
}
use reqstool_client.Prelude.Result.{◌>>=◌, ok}
use reqstool_client.Models.UrnId.Laws.{assure_urn_id-total}

-- The question marks of a text
abbrev pub count_marks : String → ℕ
count_marks String.[] = 0
count_marks (String.◌∷◌ c s) = (if eqb (code c) b'?' then 1 else 0) + count_marks s

count_marks-append : (s t : String) → count_marks (s <> t) ≡ count_marks s + count_marks t
count_marks-append String.[] t = rw nil-append (omega arith)
count_marks-append (String.◌∷◌ c s) t = rw cons-append (omega (arith, count_marks-append s t))

ruleset marks = (arith, count_marks-append)

-- As many parameters as question marks
abbrev pub IsFilled : Clause → Type 0
IsFilled (s, params) = count_marks s ≡ length params

infix_clause-IsFilled :
    (op : String) (a b : Clause)
    → count_marks op ≡ 0
    → IsFilled a
    → IsFilled b
    → IsFilled (infix_clause op a b)
unfolding infix_clause
infix_clause-IsFilled op (l, ps) (r, qs) none_in h k =
    simp count_marks-append (omega (arith, length-append ps qs))

not_clause-IsFilled : (a : Clause) → IsFilled a → IsFilled (not_clause a)
unfolding not_clause
not_clause-IsFilled (s, ps) h = simp count_marks-append (omega arith)

placeholders-IsFilled : (ks : List UrnId) → count_marks (placeholders ks) ≡ length (id_params ks)
unfolding placeholders id_params
placeholders-IsFilled [] = refl
placeholders-IsFilled (k ∷ []) = refl
placeholders-IsFilled (k ∷ j ∷ ks) =
    simp count_marks-append (omega (arith, placeholders-IsFilled (j ∷ ks)))

in_clause-IsFilled :
    (op : String) (ks : List UrnId) → count_marks op ≡ 0 → IsFilled (in_clause op ks)
unfolding in_clause
in_clause-IsFilled op ks h = simp count_marks-append (omega (arith, placeholders-IsFilled ks))

placeholders-eq_of_length :
    (ks js : List UrnId) → length ks ≡ length js → placeholders ks ≡ placeholders js
unfolding placeholders
placeholders-eq_of_length [] [] h = refl
placeholders-eq_of_length [] (j ∷ js) h = absurd (omega arith)
placeholders-eq_of_length (k ∷ ks) [] h = absurd (omega arith)
placeholders-eq_of_length (k ∷ []) (j ∷ []) h = refl
placeholders-eq_of_length (k ∷ []) (j ∷ j' ∷ js) h = absurd (omega arith)
placeholders-eq_of_length (k ∷ k' ∷ ks) (j ∷ []) h = absurd (omega arith)
placeholders-eq_of_length (k ∷ k' ∷ ks) (j ∷ j' ∷ js) h =
    ap (λ s. "(?, ?), " <> s) (placeholders-eq_of_length (k' ∷ ks) (j' ∷ js) (omega arith))

value_list-length :
    (urn : String) (tokens : List String)
    → (ks : List UrnId) × (value_list urn tokens ≡ ok ks) × (length ks ≡ length tokens)
unfolding value_list value
value_list-length urn [] = ([], refl, refl)
value_list-length urn (token ∷ tokens) =
    let (k, p) = assure_urn_id-total urn (string_token token) in
    let (ks, q, n) = value_list-length urn tokens in (k ∷ ks, rw (p, q), omega arith)

abbrev pub blanks : List String → List String
blanks tokens = map (λ t. "") tokens

-- The expression with every text in it taken away
abbrev pub blank : Expr → Expr
blank (op_and l r) = op_and (blank l) (blank r)
blank (op_or l r) = op_or (blank l) (blank r)
blank (op_not e) = op_not (blank e)
blank (comp_id_equals token tokens) = comp_id_equals "" (blanks tokens)
blank (comp_id_not_equals token tokens) = comp_id_not_equals "" (blanks tokens)
blank (comp_id_regex_equals token) = comp_id_regex_equals ""
blank (parenthesis e) = parenthesis (blank e)

length-map_blank : (tokens : List String) → length (blanks tokens) ≡ length tokens
length-map_blank [] = refl
length-map_blank (t ∷ tokens) = omega (arith, length-map_blank tokens)

-- A clause that an expression is compiled to: each question mark has its parameter, and the text is
-- that of the blank expression.
abbrev pub IsSafe : String → Expr → Clause → Clause → Type 0
IsSafe urn e clause other =
    (compile urn e ≡ ok clause)
    × (compile urn (blank e) ≡ ok other)
    × (clause.0 ≡ other.0)
    × IsFilled clause

in_clause-eq_of_length :
    (op : String) (ks js : List UrnId)
    → length ks ≡ length js
    → (in_clause op ks).0 ≡ (in_clause op js).0
unfolding in_clause
in_clause-eq_of_length op ks js h = rw (placeholders-eq_of_length ks js h)

value_list-IsSafe :
    (op urn token : String) (tokens : List String)
    → count_marks op ≡ 0
    → (clause : Clause) × (other : Clause) × ((value_list urn (token ∷ tokens)
          >>= (λ ks. ok (in_clause op ks)))
        ≡ ok clause)
      × ((value_list urn ("" ∷ blanks tokens) >>= (λ ks. ok (in_clause op ks))) ≡ ok other)
      × (clause.0 ≡ other.0)
      × IsFilled clause
value_list-IsSafe op urn token tokens h =
    let (ks, p, n) = value_list-length urn (token ∷ tokens) in
    let (js, q, m) = value_list-length urn ("" ∷ blanks tokens) in
    (
      in_clause op ks,
      in_clause op js,
      rw p,
      rw q,
      in_clause-eq_of_length op ks js (omega (arith, length-map_blank tokens)),
      in_clause-IsFilled op ks h,
    )

infix_clause-text :
    (op : String) (a a' b b' : Clause)
    → a.0 ≡ a'.0
    → b.0 ≡ b'.0
    → (infix_clause op a b).0 ≡ (infix_clause op a' b').0
unfolding infix_clause
infix_clause-text op (l, ps) (l', ps') (r, qs) (r', qs') h k = rw (h, k)

not_clause-text : (a a' : Clause) → a.0 ≡ a'.0 → (not_clause a).0 ≡ (not_clause a').0
unfolding not_clause
not_clause-text (s, ps) (s', ps') h = rw h

-- The SQL text of an expression has a question mark for each of its parameters, and it is the text of
-- the same expression with all its strings and patterns taken away: nothing that a filter's author
-- quotes enters the SQL.
pub compile-IsSafe :
    (urn : String) (e : Expr) → (clause : Clause) × (other : Clause) × IsSafe urn e clause other
unfolding compile
compile-IsSafe urn (op_and l r) =
    let (a, a', (p, p', h, i)) = compile-IsSafe urn l in
    let (b, b', (q, q', k, j)) = compile-IsSafe urn r in
    (
      infix_clause " AND " a b,
      infix_clause " AND " a' b',
      (
        rw (p, q),
        rw (p', q'),
        infix_clause-text " AND " a a' b b' h k,
        infix_clause-IsFilled " AND " a b refl i j,
      ),
    )
compile-IsSafe urn (op_or l r) =
    let (a, a', (p, p', h, i)) = compile-IsSafe urn l in
    let (b, b', (q, q', k, j)) = compile-IsSafe urn r in
    (
      infix_clause " OR " a b,
      infix_clause " OR " a' b',
      (
        rw (p, q),
        rw (p', q'),
        infix_clause-text " OR " a a' b b' h k,
        infix_clause-IsFilled " OR " a b refl i j,
      ),
    )
compile-IsSafe urn (op_not e) =
    let (a, a', (p, p', h, i)) = compile-IsSafe urn e in
    (not_clause a, not_clause a', (rw p, rw p', not_clause-text a a' h, not_clause-IsFilled a i))
compile-IsSafe urn (comp_id_equals token tokens) =
    let (a, a', p, p', h, i) = value_list-IsSafe "IN" urn token tokens refl in
    (a, a', (p, p', h, i))
compile-IsSafe urn (comp_id_not_equals token tokens) =
    let (a, a', p, p', h, i) = value_list-IsSafe "NOT IN" urn token tokens refl in
    (a, a', (p, p', h, i))
compile-IsSafe urn (comp_id_regex_equals token) =
    (regex_clause (inner token), regex_clause (inner ""), (refl, refl, refl, refl))
compile-IsSafe urn (parenthesis e) = compile-IsSafe urn e
