-- ===== src/Tests/RegexTests.antt =====
-- The patterns of the suites, and searches for them.
use kong_coco.Prelude.{
  ◌≡◌, ◌↔◌, refl, Bool, true, false, Option, none, some, List, [], ◌∷◌, ◌++◌, map, Text, codes,
  list_eq, nat_eq, contains,
}
use kong_coco.Regex.{Regex, one, seq, plus, exactly, dot, found}
use kong_coco.Regex.Matches.{Matches}
use kong_coco.Regex.Search.{found_iff}
use kong_coco.Regex.Pattern.{compile, re_search}
use kong_coco.Regex.Pattern.Literal.{re_search-literal}
use kong_coco.Tests.Samples.{env}

abbrev is_some : Option Regex → Bool
is_some none = false
is_some (some r) = true

-- The patterns that suites.py searches for.
abbrev patterns : List Text
patterns =
    codes "libpcre.so.+"
    ∷ codes "libpcre.+.so.+"
    ∷ codes "libpcre2\\-(8|16|32).so.+"
    ∷ codes "with\\-debug"
    ∷ codes "OpenSSL 3.2.\\d"
    ∷ codes "kong:x:1000"
    ∷ []

all_compile : map (λ p. is_some (compile p)) patterns ≡ true ∷ true ∷ true ∷ true ∷ true ∷ true ∷ []
unfolding compile contains
all_compile = refl

finds_pcre2 :
    re_search env (codes "libpcre2\\-(8|16|32).so.+") (codes "/lib/libpcre2-16.so.0") ≡ true
unfolding re_search contains
finds_pcre2 = refl

no_bare_pcre2 : re_search env (codes "libpcre2\\-(8|16|32).so.+") (codes "libpcre2-16.so") ≡ false
unfolding re_search contains
no_bare_pcre2 = refl

finds_openssl : re_search env (codes "OpenSSL 3.2.\\d") (codes "with OpenSSL 3.2.1") ≡ true
unfolding re_search contains
finds_openssl = refl

abbrev so_name : Regex
so_name = seq (plus (one dot)) (one (exactly b'o'))

found_iff_example : (found so_name (codes "a.so") ≡ true) ↔ (
    (pre : Text) × (u : Text) × (post : Text) × (codes "a.so" ≡ pre ++ (u ++ post))
    × Matches so_name u)
found_iff_example = found_iff so_name (codes "a.so")

re_search-literal_example :
    (re_search env (codes "ssl") (codes "openssl") ≡ true)
    ↔ ((pre : Text) × (post : Text) × (codes "openssl" ≡ pre ++ (codes "ssl" ++ post)))
unfolding contains
re_search-literal_example =
    re_search-literal env (codes "ssl") (codes "openssl") (refl, (refl, (refl, tt)))
