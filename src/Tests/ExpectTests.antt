-- ===== src/Tests/ExpectTests.antt =====
-- A small package checked by small suites.
use kong_coco.Prelude.{ℕ, ◌≡◌, refl, false, none, List, [], ◌∷◌, ◌++◌}
use kong_coco.Prelude.{
  codes, list_eq, nat_eq, contains, is_substring, text_lt, list_beq, all, any, keep, lookup,
}
use kong_coco.Tests.Samples.{env, infos, both}
use kong_coco.Result.{Result, ok, err}
use kong_coco.Explain.Value.{Literal}
use kong_coco.Explain.Attributes.{attribute, has}
use kong_coco.Expect.State.{Chain, ExpectSuite, new}
use kong_coco.Expect.Operators.{equal, contain, contain_match, is_greater_than}
use kong_coco.Expect.Script.Counts.{Grows, run_tests-Grows}
use kong_coco.Expect.Script.Exit.{run-exit_zero_iff, run-exit_of_failure}
use kong_coco.Expect.Script.{Step, expect, attr, check, do_not}
use kong_coco.Expect.Script.{steps, run_tests, run, begin, verify, exit_status}

-- A test that passes, and one that fails: there is no such library.
abbrev pub good : List Step
good =
    expect both (codes "runpath")
    ∷ attr (codes "rpath")
    ∷ check (codes "equals") (Literal.str (codes "/usr/local/kong/lib"))
    ∷ attr (codes "needed_libraries")
    ∷ do_not
    ∷ check (codes "contain_match") (Literal.str (codes "pcre"))
    ∷ []

abbrev bad : List Step
bad =
    attr (codes "needed_libraries") ∷ check (codes "contain") (Literal.str (codes "libz.so.1")) ∷ []

abbrev suite_of : List (List Step) → ExpectSuite (List Step)
suite_of tests = record { name = codes "Test"; manifest = none; use_rpath = false; tests = tests }

outcome : List (List Step) → ℕ
unfolding exit_status verify attribute has contains is_substring text_lt list_beq keep lookup any
    equal contain contain_match is_greater_than all
outcome tests = exit_status (verify env (suite_of tests) infos [])

good_passes : outcome (good ∷ []) ≡ 0
unfolding outcome
good_passes = refl

bad_fails : outcome ((good ++ bad) ∷ []) ≡ 1
unfolding outcome
bad_fails = refl

-- The state that a chain of calls leaves.
abbrev state_of : Result Chain → Chain
state_of (ok c) = c
state_of (err e) = new []

abbrev bad_suite : ExpectSuite (List Step)
bad_suite = suite_of ((good ++ bad) ∷ [])

abbrev pub started : Chain
started = begin (codes "run test suite") bad_suite (new infos)

after : List Step → Chain → Result Chain
unfolding outcome
after = steps env

run-exit_of_failure_example :
    exit_status (run env (suite_of (((good ++ bad) ++ good) ∷ [])) (new infos)) ≡ 1
unfolding after run_tests
run-exit_of_failure_example =
    run-exit_of_failure env (suite_of (((good ++ bad) ++ good) ∷ [])) (new infos) started
      (state_of (steps env (good ++ bad) started)) [] (good ++ bad) good [] refl refl refl (λ h. cc)

run-exit_zero_iff_example : exit_status (run env (suite_of (good ∷ [])) (new infos)) ≡ 0
unfolding after run_tests
run-exit_zero_iff_example =
    (run-exit_zero_iff env (suite_of (good ∷ [])) (new infos)).1
      (state_of (run_tests env (good ∷ []) started), refl, refl)

run_tests-Grows_example :
    Grows started (state_of (run_tests env ((good ++ bad) ∷ good ∷ []) started))
unfolding after run_tests
run_tests-Grows_example = run_tests-Grows env ((good ++ bad) ∷ good ∷ []) started refl
