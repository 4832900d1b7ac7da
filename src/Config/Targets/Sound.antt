-- ===== src/Config/Targets/Sound.antt =====
-- The test functions of suites.py use the chain as it wants to be used.
use kong_coco.Prelude.{
  ◌≡◌, refl, Bool, true, false, Option, none, some, List, [], ◌∷◌, ◌++◌, map, Text, list_eq, nat_eq,
  list_beq, contains,
}
use kong_coco.Expect.Script.{Step}
use kong_coco.Expect.Chain.{verb_of, rpath_name}
use kong_coco.Expect.Assertion.{
  Assertion, Context, with_assertion, both, assertions, assertions_of, suite_assertions,
}
use kong_coco.Suites.Libc.{not_above, libc, libcxx, cxxabi}
use kong_coco.Config.Targets.{Test, common, libc_libcpp, arm64, docker, script}

-- The calls make assertions, behind any others and by themselves.
abbrev MakesAny : Bool → List Step → Type 0
MakesAny use_rpath ss =
    ((ctx : Context) → (asked : List Assertion) × (assertions use_rpath ctx ss ≡ some asked))
    × ((asked : List Assertion) × (assertions_of use_rpath ss ≡ some asked))

with_assertion-some :
    (a : Assertion) {o : Option (List Assertion)}
    → (rest : List Assertion) × (o ≡ some rest)
    → (all : List Assertion) × (with_assertion a o ≡ some all)
with_assertion-some a (rest, p) = (a ∷ rest, rw p refl)

libc-Makes :
    (use_rpath : Bool) (limit : Option Text) (rest : List Step)
    → MakesAny use_rpath rest
    → MakesAny use_rpath (libc limit ++ rest)
unfolding libc not_above assertions_of assertions verb_of rpath_name contains list_beq
libc-Makes use_rpath none rest h = h
libc-Makes use_rpath (some []) rest h = h
libc-Makes true (some (c ∷ s)) rest (h, _) = (
  λ ctx.
      with_assertion-some _
        (with_assertion-some _ (with_assertion-some _ (with_assertion-some _ (h _)))),
  with_assertion-some _
      (with_assertion-some _ (with_assertion-some _ (with_assertion-some _ (h _)))),
)
libc-Makes false (some (c ∷ s)) rest (h, _) = (
  λ ctx.
      with_assertion-some _
        (with_assertion-some _ (with_assertion-some _ (with_assertion-some _ (h _)))),
  with_assertion-some _
      (with_assertion-some _ (with_assertion-some _ (with_assertion-some _ (h _)))),
)

libcxx-Makes :
    (use_rpath : Bool) (limit : Option Text) (rest : List Step)
    → MakesAny use_rpath rest
    → MakesAny use_rpath (libcxx limit ++ rest)
unfolding libcxx not_above assertions_of assertions verb_of rpath_name contains list_beq
libcxx-Makes use_rpath none rest h = h
libcxx-Makes use_rpath (some []) rest h = h
libcxx-Makes true (some (c ∷ s)) rest (h, _) =
    (λ ctx. with_assertion-some _ (h _), with_assertion-some _ (h _))
libcxx-Makes false (some (c ∷ s)) rest (h, _) =
    (λ ctx. with_assertion-some _ (h _), with_assertion-some _ (h _))

cxxabi-Makes : (use_rpath : Bool) (limit : Option Text) → MakesAny use_rpath (cxxabi limit)
unfolding cxxabi not_above assertions_of assertions verb_of rpath_name contains list_beq
cxxabi-Makes use_rpath none = (λ ctx. (_, refl), (_, refl))
cxxabi-Makes use_rpath (some []) = (λ ctx. (_, refl), (_, refl))
cxxabi-Makes true (some (c ∷ s)) = (λ ctx. (_, refl), (_, refl))
cxxabi-Makes false (some (c ∷ s)) = (λ ctx. (_, refl), (_, refl))

-- Every test function, with whatever arguments and under either reading of rpath, makes
-- assertions: no verb stands without an attribute, and no other name is called as a verb.
pub script-assertions_of :
    (t : Test) (use_rpath : Bool)
    → (asked : List Assertion) × (assertions_of use_rpath (script t) ≡ some asked)
unfolding script assertions_of verb_of rpath_name contains list_beq
script-assertions_of (common true) true = (_, refl)
script-assertions_of (common true) false = (_, refl)
script-assertions_of (common false) true = (_, refl)
script-assertions_of (common false) false = (_, refl)
script-assertions_of arm64 true = (_, refl)
script-assertions_of arm64 false = (_, refl)
script-assertions_of docker true = (_, refl)
script-assertions_of docker false = (_, refl)
script-assertions_of (libc_libcpp a b c) use_rpath =
    (libc-Makes use_rpath a (libcxx b ++ cxxabi c)
      (libcxx-Makes use_rpath b (cxxabi c) (cxxabi-Makes use_rpath c))).1

both-some :
    {o p : Option (List Assertion)}
    → (a : List Assertion) × (o ≡ some a)
    → (b : List Assertion) × (p ≡ some b)
    → (c : List Assertion) × (both o p ≡ some c)
both-some (a, h) (b, k) = (a ++ b, rw (h, k) refl)

pub scripts-suite_assertions :
    (ts : List Test) (use_rpath : Bool)
    → (asked : List Assertion) × (suite_assertions use_rpath (map script ts) ≡ some asked)
unfolding suite_assertions
scripts-suite_assertions [] use_rpath = ([], refl)
scripts-suite_assertions (t ∷ ts) use_rpath =
    both-some (script-assertions_of t use_rpath) (scripts-suite_assertions ts use_rpath)
