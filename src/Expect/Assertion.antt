-- ===== src/Expect/Assertion.antt =====
-- What the test functions ask for, without a chain: flat assertions, each decided by itself.
pub mod Agreement
pub mod Suite
use kong_coco.Prelude.{Bool, true, false, Option, none, some, List, [], ◌∷◌, ◌++◌, Text, not}
use kong_coco.Prelude.{list_eq, nat_eq, contains, keep, length, is_empty, if◌then◌else◌}
use kong_coco.Result.{Result, ok, err, type_error, ◌>>=◌}
use kong_coco.Env.{Env}
use kong_coco.Explain.Value.{Value, Literal}
use kong_coco.Explain.Info.{Info, relpath_of}
use kong_coco.Explain.Attributes.{attribute}
use kong_coco.Expect.State.{Failure, Reason, fail_file, fail_exist}
use kong_coco.Expect.Compare.{select, same}
use kong_coco.Expect.Chain.{
  verbs, verb_of, rpath_name, first_absent, verb_method, glob_match_ignore_slash,
}
use kong_coco.Expect.Script.{
  Step, expect, attr, check, key, do_not, does_not, is_not, to, exist, exists,
}

-- `holds` wants a verb to hold of an attribute, or of one key of it, in all files that the globs
-- select, and `present` wants that there are such files. The Boolean turns the wish around.
pub data Assertion : Type 0 where
  holds : List Text → Text → Option Text → Bool → Text → Literal → Assertion
  present : List Text → Bool → Assertion

-- What the calls so far have settled.
pub record Context : Type 0 where
  pub globs : List Text
  pub attr : Option Text
  pub key : Option Text
  pub reverse : Bool

abbrev pub fresh : List Text → Context
fresh globs = record { globs = globs; attr = none; key = none; reverse = false }

abbrev pub about : Text → Context → Context
about name ctx = record { globs = ctx.globs; attr = some name; key = none; reverse = false }

-- One more assertion, where the calls that follow make sense.
abbrev pub with_assertion : Assertion → Option (List Assertion) → Option (List Assertion)
with_assertion a none = none
with_assertion a (some asked) = some (a ∷ asked)

-- The assertion that a verb makes: none without an attribute to speak of.
unfoldable pub asserted :
    Context → Option Text → Text → Literal → Option (List Assertion) → Option (List Assertion)
asserted ctx none verb arg rest = none
asserted ctx (some name) verb arg rest =
    with_assertion (holds ctx.globs name ctx.key ctx.reverse verb arg) rest

-- The assertions that a sequence of calls makes, under a suite's `use_rpath`: `none` where a verb
-- stands without an attribute, or a name that is no verb is called as one.
unfoldable pub assertions : Bool → Context → List Step → Option (List Assertion)
unfolding contains asserted
assertions use_rpath ctx [] = some []
assertions use_rpath ctx (expect globs msg ∷ ss) = assertions use_rpath (fresh globs) ss
assertions use_rpath ctx (attr name ∷ ss) =
    let subject = rpath_name use_rpath name in
    let rest = assertions use_rpath (about subject ctx) ss in
    if contains (verb_of name) verbs then none else if is_empty subject then none else rest
assertions use_rpath ctx (check name arg ∷ ss) =
    let rest = assertions use_rpath ctx ss in
    if contains (verb_of name) verbs then asserted ctx ctx.attr (verb_of name) arg rest else none
assertions use_rpath ctx (key name ∷ ss) = assertions use_rpath (record ctx { key = some name }) ss
assertions use_rpath ctx (do_not ∷ ss) = assertions use_rpath (record ctx { reverse = true }) ss
assertions use_rpath ctx (does_not ∷ ss) = assertions use_rpath (record ctx { reverse = true }) ss
assertions use_rpath ctx (is_not ∷ ss) = assertions use_rpath (record ctx { reverse = true }) ss
assertions use_rpath ctx (to ∷ ss) = assertions use_rpath ctx ss
assertions use_rpath ctx (exist ∷ ss) =
    with_assertion (present ctx.globs ctx.reverse) (assertions use_rpath ctx ss)
assertions use_rpath ctx (exists ∷ ss) =
    with_assertion (present ctx.globs ctx.reverse) (assertions use_rpath ctx ss)

-- A test function: its first call starts an assertion.
unfoldable pub assertions_of : Bool → List Step → Option (List Assertion)
unfolding assertions
assertions_of use_rpath [] = some []
assertions_of use_rpath (expect globs msg ∷ ss) = assertions use_rpath (fresh globs) ss
assertions_of use_rpath _ = none

-- Two lists of assertions, if both make sense.
abbrev pub both : Option (List Assertion) → Option (List Assertion) → Option (List Assertion)
both none b = none
both (some a) none = none
both (some a) (some b) = some (a ++ b)

-- The assertions of all test functions of a suite.
unfoldable pub suite_assertions : Bool → List (List Step) → Option (List Assertion)
unfolding assertions_of
suite_assertions use_rpath [] = some []
suite_assertions use_rpath (t ∷ ts) =
    both (assertions_of use_rpath t) (suite_assertions use_rpath ts)

-- The first file, of those up to the first without the key, on which the verb fails.
unfoldable pub first_failure :
    Text → (Value → Result (Bool × Reason)) → Option Text → Bool → List Info → Result (List Failure)
first_failure name fn field reverse [] = ok []
first_failure name fn field reverse (f ∷ fs) =
    let rest = first_failure name fn field reverse fs in
    attribute name f >>= λ v. elim (select field v) [
      | none ↦ ok []
      | some w ↦ fn w >>= λ (good, reason).
          if same good reverse
          then ok (fail_file (relpath_of f) name w reason reverse ∷ [])
          else rest
    ]

unfoldable pub failure_of :
    Text
    → Option (Value → Result (Bool × Reason))
    → Option Text
    → Bool
    → List Info
    → Result (List Failure)
failure_of name none field reverse files = err type_error
failure_of name (some fn) field reverse files = first_failure name fn field reverse files

module _ (env : Env) where
  abbrev pub selected : List Info → List Text → List Info
  selected infos globs = keep (λ f. glob_match_ignore_slash env (relpath_of f) globs) infos

  -- The failures of one assertion on a package. Where a file lacks the attribute, it says nothing.
  unfoldable pub check_assertion : List Info → Assertion → Result (List Failure)
  unfolding first_absent failure_of
  check_assertion infos (holds globs name field reverse verb arg) =
      first_absent name (selected infos globs) >>= λ absent. elim absent [
        | some f ↦ ok []
        | none ↦
            failure_of name (verb_method env verb name arg) field reverse (selected infos globs)
      ]
  check_assertion infos (present globs reverse) = ok (
      if same (not (is_empty (selected infos globs))) reverse
      then fail_exist (length (selected infos globs)) globs ∷ []
      else [])

  unfoldable pub check_all : List Info → List Assertion → Result (List Failure)
  unfolding check_assertion
  check_all infos [] = ok []
  check_all infos (a ∷ asked) =
      check_assertion infos a >>= λ fs. check_all infos asked >>= λ gs. ok (fs ++ gs)
