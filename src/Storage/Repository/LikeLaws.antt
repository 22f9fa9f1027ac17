-- ===== src/Storage/Repository/LikeLaws.antt =====
-- Which test results the pattern of a class annotation matches.
use Prim.Native.Char.{Char, code}
use text.Mathlib.TextLemmas.{cons-append, nil-append}
use mathlib.Core.List.{append_assoc}
use reqstool_client.Prelude.{
  ◌||◌, ◌&&◌, not, false, all, refl, Bool, arith, ap, ◌++◌, true, [], ◌∷◌, ◌≡◌, eqb, ◌<>◌, ℕ, List,
  String,
}
use reqstool_client.Storage.Repository.Like.{codes, like, in_class, fold_case}

pub codes-append : (s t : String) → codes (s <> t) ≡ codes s ++ codes t
codes-append String.[] t = rw nil-append
codes-append (String.◌∷◌ c s) t = rw cons-append (ap (λ l. code c ∷ l) (codes-append s t))

like-percent : (text : List ℕ) → like (b'%' ∷ []) text ≡ true
unfolding like
like-percent [] = refl
like-percent (c ∷ text) = rw (like-percent text)

-- A wildcard may match nothing.
like_skip :
    (p : ℕ) (pattern text : List ℕ)
    → eqb p b'%' ≡ true
    → like pattern text ≡ true
    → like (p ∷ pattern) text ≡ true
unfolding like
like_skip p pattern [] e h = rw e h
like_skip p pattern (c ∷ text) e h = ground arith

-- Any pattern matches its own text, wildcards and all.
like-append_self : (p q text : List ℕ) → like q text ≡ true → like (p ++ q) (p ++ text) ≡ true
unfolding like
like-append_self [] q text h = h
like-append_self (x ∷ p) q text h =
    ground (arith, like-append_self p q text h, like_skip x (p ++ q) (p ++ text), h)

-- No character of the text is a wildcard.
abbrev pub no_wildcard : List ℕ → Bool
no_wildcard text = all (λ c. not (eqb c b'%' || eqb c b'_')) text

-- The text begins with these characters, up to the case of ASCII letters.
abbrev pub begins_folded : List ℕ → List ℕ → Bool
begins_folded [] text = true
begins_folded (p ∷ ps) [] = false
begins_folded (p ∷ ps) (c ∷ text) = eqb (fold_case p) (fold_case c) && begins_folded ps text

like-literal :
    (p text : List ℕ) → no_wildcard p ≡ true → like (p ++ b'%' ∷ []) text ≡ begins_folded p text
unfolding like
like-literal [] text h = like-percent text
like-literal (x ∷ p) [] h = ground arith
like-literal (x ∷ p) (c ∷ text) h = ground (arith, like-literal p text)

-- Every result whose name is the class's name, a dot and anything more is found.
pub in_class_complete :
    (class_fqn rest : String) → in_class class_fqn (class_fqn <> ("." <> rest)) ≡ true
unfolding in_class
in_class_complete class_fqn rest =
    rw (codes-append class_fqn ("." <> rest), codes-append "." rest)
      (like-append_self (codes class_fqn) (b'.' ∷ b'%' ∷ []) (b'.' ∷ codes rest)
        (like-append_self (b'.' ∷ []) (b'%' ∷ []) (codes rest) (like-percent (codes rest))))

no_wildcard-append :
    (p q : List ℕ) → no_wildcard p ≡ true → no_wildcard q ≡ true → no_wildcard (p ++ q) ≡ true
no_wildcard-append [] q h k = k
no_wildcard-append (x ∷ p) q h k = ground (arith, no_wildcard-append p q)

-- For a class name without wildcards nothing else is found, up to the case of ASCII letters.
pub in_class-literal :
    (class_fqn fqn : String)
    → no_wildcard (codes class_fqn) ≡ true
    → in_class class_fqn fqn ≡ begins_folded (codes class_fqn ++ b'.' ∷ []) (codes fqn)
unfolding in_class
in_class-literal class_fqn fqn h = rw (← append_assoc (codes class_fqn) (b'.' ∷ []) (b'%' ∷ [])) (
    like-literal (codes class_fqn ++ b'.' ∷ []) (codes fqn)
      (no_wildcard-append (codes class_fqn) (b'.' ∷ []) h refl))

like-underscore :
    (a b : List ℕ) (c : ℕ) (q text : List ℕ)
    → like q text ≡ true
    → like (a ++ (b'_' ∷ (b ++ q))) (a ++ (c ∷ (b ++ text))) ≡ true
unfolding like
like-underscore [] b c q text h = like-append_self b q text h
like-underscore (x ∷ a) b c q text h = ground (
  arith,
  like-underscore a b c q text h,
  like_skip x (a ++ (b'_' ∷ (b ++ q))) (a ++ (c ∷ (b ++ text))),
)

-- An underscore in a class name matches any character: the results of every class whose name
-- differs from it only there are taken for its own.
pub in_class-underscore :
    (a b rest : String) (c : Char)
    → in_class (a <> ("_" <> b)) (a <> (String.◌∷◌ c (b <> ("." <> rest)))) ≡ true
unfolding in_class
in_class-underscore a b rest c =
    rw
      (
        codes-append a ("_" <> b),
        codes-append "_" b,
        codes-append a (String.◌∷◌ c (b <> ("." <> rest))),
        codes-append b ("." <> rest),
        codes-append "." rest,
        append_assoc (codes a) (b'_' ∷ codes b) (b'.' ∷ b'%' ∷ []),
      )
      (like-underscore (codes a) (codes b) (code c) (b'.' ∷ b'%' ∷ []) (b'.' ∷ codes rest)
        (like-append_self (b'.' ∷ []) (b'%' ∷ []) (codes rest) (like-percent (codes rest))))
