-- ===== src/Config/Targets/Passes.antt =====
-- When the check of a package by one of the repository's suites ends with status 0.
use kong_coco.Prelude.{
  ◌≡◌, ◌↔◌, refl, sym, ◌∙◌, ap, Bool, true, false, Option, none, some, List, [], ◌∷◌, ◌++◌, map,
  Text, if◌then◌else◌, arith,
}
use kong_coco.Result.{ok}
use kong_coco.Env.{Env}
use kong_coco.Explain.Info.{Info}
use kong_coco.Expect.State.{Chain, ExpectSuite, Failure, new, print_fail, fail_manifest}
use kong_coco.Expect.Script.{
  Step, run, begin, end, check_manifest, compare_manifest, verify, exit_status,
}
use kong_coco.Expect.Script.Counts.{run_tests-Grows}
use kong_coco.Expect.Script.Exit.{run-exit_zero_iff}
use kong_coco.Expect.Assertion.{Assertion, suite_assertions, check_all}
use kong_coco.Expect.Assertion.Suite.{run-exit_zero_of_assertions}
use kong_coco.Config.Targets.{Test, script, runnable}
use kong_coco.Config.Targets.Sound.{scripts-suite_assertions}

module _ (env : Env) where
  -- The suite names no manifest, or diff finds none but differences of blanks in it.
  abbrev pub manifest_agrees : Option Text → Text → Bool
  manifest_agrees none given = true
  manifest_agrees (some []) given = true
  manifest_agrees (some (b ∷ file)) given = env.same_manifest (b ∷ file) given

  all_failures-check_manifest :
      (o : Option Text) (given : Text) (c : Chain)
      → (check_manifest env o given c).all_failures
        ≡ (if manifest_agrees o given then c.all_failures else c.all_failures ++ fail_manifest ∷ [])
  unfolding check_manifest print_fail
  all_failures-check_manifest none given c = refl
  all_failures-check_manifest (some []) given c = refl
  all_failures-check_manifest (some (b ∷ file)) given c = ground arith

  all_failures-compare_manifest :
      (suite : ExpectSuite (List Step)) (infos : List Info) (given : Text)
      → (compare_manifest env suite given (new infos)).all_failures
        ≡ (if manifest_agrees suite.manifest given then [] else fail_manifest ∷ [])
  unfolding compare_manifest begin end new
  all_failures-compare_manifest suite infos given =
      all_failures-check_manifest suite.manifest given _

  infos-check_manifest :
      (o : Option Text) (given : Text) (c : Chain) → (check_manifest env o given c).infos ≡ c.infos
  unfolding check_manifest print_fail
  infos-check_manifest none given c = refl
  infos-check_manifest (some []) given c = refl
  infos-check_manifest (some (b ∷ file)) given c = ground arith

  infos-compare_manifest :
      (suite : ExpectSuite (List Step)) (infos : List Info) (given : Text)
      → (compare_manifest env suite given (new infos)).infos ≡ infos
  unfolding compare_manifest begin end new
  infos-compare_manifest suite infos given = infos-check_manifest suite.manifest given _

  nil-of_append : {A : Type 0} (xs ys : List A) → xs ++ ys ≡ [] → xs ≡ []
  nil-of_append [] ys h = refl
  nil-of_append (x ∷ xs) ys h = cc

  clean-of_exit :
      (suite : ExpectSuite (List Step)) (c : Chain)
      → exit_status (run env suite c) ≡ 0
      → c.all_failures ≡ []
  unfolding begin
  clean-of_exit suite c h =
      let (c', p, q) = (run-exit_zero_iff env suite c).0 h in
      let g = run_tests-Grows env suite.tests _ p in
      nil-of_append c.all_failures g.added (sym g.all_failures ∙ q)

  true-of_clean : (b : Bool) (m : Failure) → (if b then [] else m ∷ []) ≡ [] → b ≡ true
  true-of_clean true m h = refl
  true-of_clean false m h = cc

  -- For every suite of test functions there are assertions that its tests make, and checking a
  -- package by the suite ends with status 0 exactly where the manifest agrees with the suite's and
  -- all of the assertions, each decided by itself without a chain, hold of the files.
  pub verify-exit_zero_iff :
      (suite : ExpectSuite Test) (infos : List Info) (given : Text)
      → (asked : List Assertion) × (suite_assertions suite.use_rpath (map script suite.tests)
          ≡ some asked)
        × ((exit_status (verify env (runnable suite) infos given) ≡ 0)
            ↔ ((manifest_agrees suite.manifest given ≡ true) × (check_all env infos asked ≡ ok [])))
  unfolding verify runnable
  verify-exit_zero_iff suite infos given =
      let (asked, made) = scripts-suite_assertions suite.tests suite.use_rpath in
      let c = compare_manifest env (runnable suite) given (new infos) in
      let same_infos = infos-compare_manifest (runnable suite) infos given in
      let failures = all_failures-compare_manifest (runnable suite) infos given in
      (
        asked,
        made,
        (
          λ h.
              let clean = clean-of_exit (runnable suite) c h in
              (
                true-of_clean _ fail_manifest (sym failures ∙ clean),
                ap (λ l. check_all env l asked) (sym same_infos)
                    ∙ (run-exit_zero_of_assertions env (runnable suite) c made clean).0 h,
              ),
          λ (m, h).
              (run-exit_zero_of_assertions env (runnable suite) c made
                  (failures ∙ ap (λ b. if b then [] else fail_manifest ∷ []) m)).1
                (ap (λ l. check_all env l asked) same_infos ∙ h),
        ),
      )
