-- ===== src/Tests/CompareTests.antt =====
-- The theorems on single checks, at the files of the sample package.
use kong_coco.Prelude.{
  length, ◌≤◌, ◌≡◌, refl, inl, true, false, none, some, List, [], ◌∷◌, ◌++◌, map,
}
use kong_coco.Prelude.{Text, codes, list_eq, nat_eq, text_lt, list_beq, all, any, lookup}
use kong_coco.Result.{ok}
use kong_coco.Explain.Value.{dict, list, version, text, Literal}
use kong_coco.Explain.Info.{Info}
use kong_coco.Explain.Attributes.{attribute, has, object, getattr}
use kong_coco.Explain.Attributes.Caching.{read_all, getattr-read_all}
use kong_coco.Expect.State.{Chain, Failure, new, less_than, greater_than, found_in_list, fail_file}
use kong_coco.Expect.Operators.{contain, is_less_than, is_greater_than}
use kong_coco.Expect.Operators.Versions.{is_less_than-eq-all, is_greater_than-eq-all}
use kong_coco.Expect.Compare.{compare, select}
use kong_coco.Expect.Compare.Verdict.{Clean, Broken}
use kong_coco.Expect.Compare.Exact.{counted, compare-Clean_iff, compare-Broken_iff}
use kong_coco.Expect.Compare.Keyless.{compare-IsKeyless, compare-not_greater}
use kong_coco.Expect.Chain
use kong_coco.Expect.Chain.{verb_of}
use kong_coco.Expect.Chain.Names.{IsEnding, verb_of_lem, getattr-rpath}
use kong_coco.Tests.Samples.{
  env, env-IsVersioned, glibc, keyless_library, new_library, plain_file, infos,
}

is_less_than_example :
    is_less_than env (Literal.str (codes "3")) (list (map version (codes "1" ∷ codes "4" ∷ [])))
    ≡ ok (
      all (λ v. text_lt v (codes "3")) (codes "1" ∷ codes "4" ∷ []),
      less_than (Literal.str (codes "3")),
    )
is_less_than_example =
    is_less_than-eq-all env env-IsVersioned (codes "3") (codes "1") (codes "4" ∷ [])

is_greater_than_example :
    is_greater_than env (Literal.str (codes "3")) (list (map version (codes "1" ∷ codes "4" ∷ [])))
    ≡ ok (
      all (λ v. text_lt (codes "3") v) (codes "1" ∷ codes "4" ∷ []),
      greater_than (Literal.str (codes "3")),
    )
is_greater_than_example =
    is_greater_than-eq-all env env-IsVersioned (codes "3") (codes "1") (codes "4" ∷ [])

-- The chain while the glibc versions are compared.
abbrev limited : List Info → Chain
limited files = record (new infos) {
  files = files;
  logical_reverse = true;
  key_name = some glibc;
  last_attribute = some (codes "version_requirement");
}

-- GLIBC_2.34 is above the limit, and the check passes.
compare-not_greater_example :
    compare
      (codes "version_requirement")
      (is_greater_than env (Literal.str (codes "GLIBC_2.17")))
      (limited (new_library ∷ []))
    ≡ ok (true, counted (limited (new_library ∷ [])))
unfolding attribute lookup list_beq text_lt new
compare-not_greater_example =
    compare-not_greater env env-IsVersioned (codes "version_requirement") (codes "GLIBC_2.17")
      (codes "GLIBC_2.10") (codes "GLIBC_2.34" ∷ []) b'l' (codes "ibc.so.6")
      ((glibc, version (codes "GLIBC_2.10") ∷ version (codes "GLIBC_2.34") ∷ []) ∷ []) new_library
      (limited (new_library ∷ [])) refl refl refl refl refl (inl refl)

compare-IsKeyless_example :
    compare
      (codes "version_requirement")
      (is_greater_than env (Literal.str (codes "GLIBC_2.0")))
      (limited infos)
    ≡ ok (true, counted (limited infos))
unfolding attribute lookup list_beq select new
compare-IsKeyless_example =
    compare-IsKeyless (codes "version_requirement")
      (is_greater_than env (Literal.str (codes "GLIBC_2.0"))) (limited infos) [] keyless_library
      (new_library ∷ plain_file ∷ []) refl tt
      (record { value = dict []; is_attribute = refl; is_selected = refl })

abbrev asking : Chain
asking = record (new infos) { files = plain_file ∷ new_library ∷ [] }

compare-Clean_iff_example :
    Clean
      (codes "needed_libraries")
      (contain env (codes "needed_libraries") (Literal.str (codes "libm.so.6")))
      none
      false
      (plain_file ∷ new_library ∷ [])
unfolding compare attribute has lookup list_beq contain any new
compare-Clean_iff_example =
    (compare-Clean_iff (codes "needed_libraries")
        (contain env (codes "needed_libraries") (Literal.str (codes "libm.so.6"))) asking).0
      refl

abbrev missing : Failure
missing =
    fail_file (codes "/a.so") (codes "needed_libraries")
      (list (text (codes "libc.so.6") ∷ text (codes "libm.so.6") ∷ []))
      (found_in_list (Literal.str (codes "libz")) none) false

compare-Broken_iff_example :
    Broken
      (codes "needed_libraries")
      (contain env (codes "needed_libraries") (Literal.str (codes "libz")))
      none
      false
      missing
      (plain_file ∷ new_library ∷ [])
unfolding compare attribute has lookup list_beq contain any new
compare-Broken_iff_example =
    (compare-Broken_iff (codes "needed_libraries")
        (contain env (codes "needed_libraries") (Literal.str (codes "libz"))) asking missing).0
      refl

verb_of_lem_example :
    (e : Text) × IsEnding e
    × (codes "matches" ≡ verb_of (codes "matches") ++ e)
    × ((verb e' : Text)
        → IsEnding e'
        → codes "matches" ≡ verb ++ e'
        → length (verb_of (codes "matches")) ≤ length verb)
verb_of_lem_example = verb_of_lem (codes "matches")

getattr-rpath_example :
    Chain.getattr (codes "rpath") asking ≡ Chain.getattr (codes "runpath") asking
getattr-rpath_example = getattr-rpath asking

getattr-read_all_example :
    (getattr
      (codes "text_content")
      (read_all (codes "text_content" ∷ codes "uid" ∷ []) (object plain_file))).0
    ≡ attribute (codes "text_content") plain_file
getattr-read_all_example =
    getattr-read_all plain_file (codes "text_content" ∷ codes "uid" ∷ []) (codes "text_content")
