-- ===== src/Tests/SuiteTests.antt =====
-- The suites of the repository, and their flat assertions.
use kong_coco.Prelude.{
  ◌≡◌, ◌↔◌, refl, true, false, none, some, List, [], ◌∷◌, ◌++◌, map, codes, list_eq, nat_eq,
  list_beq, contains, lookup, starts_with, insert,
}
use kong_coco.Result.{Result, ok, err}
use kong_coco.Explain.Value.{Literal}
use kong_coco.Expect.State.{ExpectSuite}
use kong_coco.Expect.Script.{begin, run_tests, verify, exit_status}
use kong_coco.Expect.Chain.{verb_of, rpath_name}
use kong_coco.Expect.Assertion.{Assertion, holds, assertions_of, suite_assertions, check_all}
use kong_coco.Expect.Assertion.Agreement.{Agrees}
use kong_coco.Expect.Assertion.Suite.{run_tests-Agrees}
use kong_coco.Suites.Libc.{arm64_suites}
use kong_coco.Config.Targets.{Test, common, libc_libcpp, arm64, Targets, script, runnable, derive}
use kong_coco.Config.Targets.Table.{written, targets}
use kong_coco.Config.Targets.Sound.{script-assertions_of}
use kong_coco.Config.Targets.Passes.{manifest_agrees, verify-exit_zero_iff}
use kong_coco.Config.Targets.Derived.{derive-runnable, populate-lookup}
use kong_coco.Tests.Samples.{env, infos, both}
use kong_coco.Tests.ExpectTests.{good, started}

-- What the test `good` asks for.
abbrev asked_by_good : List Assertion
asked_by_good =
    holds both (codes "runpath") none false (codes "equal")
      (Literal.str (codes "/usr/local/kong/lib"))
    ∷ holds both (codes "needed_libraries") none true (codes "contain_match")
        (Literal.str (codes "pcre"))
    ∷ []

good_asks : suite_assertions false (good ∷ []) ≡ some asked_by_good
unfolding suite_assertions verb_of rpath_name list_beq
good_asks = refl

run_tests-Agrees_example :
    Agrees started (run_tests env (good ∷ []) started) (check_all env started.infos asked_by_good)
unfolding begin
run_tests-Agrees_example = run_tests-Agrees env (good ∷ []) false started refl good_asks

abbrev small : ExpectSuite Test
small = record {
  name = codes "Small (amd64)";
  manifest = some (codes "fixtures/small-amd64.txt");
  use_rpath = true;
  tests = libc_libcpp none (some (codes "3.4")) none ∷ [];
}

verify-exit_zero_iff_example :
    (asked : List Assertion) × (suite_assertions small.use_rpath (map script small.tests)
      ≡ some asked)
    × ((exit_status (verify env (runnable small) infos []) ≡ 0)
        ↔ ((manifest_agrees env small.manifest [] ≡ true) × (check_all env infos asked ≡ ok [])))
verify-exit_zero_iff_example = verify-exit_zero_iff env small infos []

script-assertions_of_example :
    (asked : List Assertion) × (assertions_of true (script (common true)) ≡ some asked)
script-assertions_of_example = script-assertions_of (common true) true

abbrev small_arm64 : ExpectSuite Test
small_arm64 = record {
  name = codes "Small (arm64)";
  manifest = some (codes "fixtures/small-arm64.txt");
  use_rpath = true;
  tests = libc_libcpp none (some (codes "3.4")) none ∷ arm64 ∷ [];
}

derive-runnable_example : (runnable small_arm64).tests ≡ (runnable small).tests ++ arm64_suites ∷ []
unfolding derive starts_with list_beq
derive-runnable_example = derive-runnable (codes "el9-amd64") small (refl, tt) refl

-- The table with its suites for arm64.
abbrev table_of : Result Targets → Targets
table_of (ok t) = t
table_of (err e) = []

all_targets : Targets
unfolding targets starts_with list_beq contains lookup insert
all_targets = table_of targets

populate-lookup_example :
    lookup (codes "docker-image") all_targets ≡ lookup (codes "docker-image") written
unfolding all_targets
populate-lookup_example =
    populate-lookup (map (λ (target, e). target) written) written (codes "docker-image")
      (
        refl,
        (refl, (refl, (refl, (refl, (refl, (refl, (refl, (refl, (refl, (refl, (refl, tt))))))))))),
      )
      refl
