-- ===== src/Expect/Assertion/Suite.antt =====
-- A whole suite passes exactly where its flat assertions do.
use mathlib.Core.List.{append_assoc}
use kong_coco.Prelude.{
  ◌≡◌, ◌↔◌, refl, sym, ◌∙◌, ap, Bool, Option, none, some, List, [], ◌∷◌, ◌++◌, codes,
}
use kong_coco.Result.{Result, ok, err, ◌>>=◌, ok-injective}
use kong_coco.Env.{Env}
use kong_coco.Explain.Info.{Info}
use kong_coco.Expect.State.{Chain, ExpectSuite, Failure}
use kong_coco.Expect.Script.{Step, run_tests, run, begin, exit_status}
use kong_coco.Expect.Script.Counts.{steps-Grows}
use kong_coco.Expect.Script.Exit.{run-exit_zero_iff}
use kong_coco.Expect.Assertion.{
  Assertion, both, assertions_of, suite_assertions, check_assertion, check_all,
}
use kong_coco.Expect.Assertion.Agreement.{Agrees, raises, records, Agrees-silent}
use kong_coco.Expect.Assertion.Agreement.Settled.{some-injective}
use kong_coco.Expect.Assertion.Agreement.Scripts.{Agrees-trans, script-Agrees}

both-eq-some :
    (o p : Option (List Assertion)) {asked : List Assertion}
    → both o p ≡ some asked
    → (a b : List Assertion) × (o ≡ some a) × (p ≡ some b) × (asked ≡ a ++ b)
both-eq-some none p h = cc
both-eq-some (some a) none h = cc
both-eq-some (some a) (some b) h = (a, b, refl, refl, cc)

-- The failures of two lists, one behind the other.
abbrev joined : Result (List Failure) → Result (List Failure) → Result (List Failure)
joined r s = r >>= λ fs. s >>= λ gs. ok (fs ++ gs)

joined-nil : (s : Result (List Failure)) → joined (ok []) s ≡ s
joined-nil (err e) = refl
joined-nil (ok gs) = refl

joined_assoc : (r s t : Result (List Failure)) → joined r (joined s t) ≡ joined (joined r s) t
joined_assoc (err e) s t = refl
joined_assoc (ok fs) (err e) t = refl
joined_assoc (ok fs) (ok gs) (err e) = refl
joined_assoc (ok fs) (ok gs) (ok hs) = ap ok (sym (append_assoc fs gs hs))

module _ (env : Env) where
  check_all-append :
      (infos : List Info) (a b : List Assertion)
      → check_all env infos (a ++ b) ≡ joined (check_all env infos a) (check_all env infos b)
  unfolding check_all
  check_all-append infos [] b = sym (joined-nil (check_all env infos b))
  check_all-append infos (x ∷ a) b =
      ap (joined (check_assertion env infos x)) (check_all-append infos a b)
      ∙ joined_assoc (check_assertion env infos x) (check_all env infos a) (check_all env infos b)

  -- Under a current suite, tests that make assertions raise what the flat assertions raise, or
  -- else add to the record of failures just those of the flat assertions, in their order.
  pub run_tests-Agrees :
      (ts : List (List Step)) (use_rpath : Bool) (c : Chain) {asked : List Assertion}
      → c.suite ≡ some use_rpath
      → suite_assertions use_rpath ts ≡ some asked
      → Agrees c (run_tests env ts c) (check_all env c.infos asked)
  unfolding run_tests suite_assertions check_all
  run_tests-Agrees ts use_rpath c u e = go ts c refl u e
    where
      go :
          (ts : List (List Step)) (d : Chain) {asked : List Assertion}
          → d.infos ≡ c.infos
          → d.suite ≡ some use_rpath
          → suite_assertions use_rpath ts ≡ some asked
          → Agrees d (run_tests env ts d) (check_all env c.infos asked)
      go [] d i u e = rw (← some-injective e) (Agrees-silent d d refl)
      go (t ∷ ts) d i u e =
          let (a, b, p, q, s) =
            both-eq-some (assertions_of use_rpath t) (suite_assertions use_rpath ts) e in
          rw (s, check_all-append c.infos a b)
            (Agrees-trans (run_tests env ts) (check_all env c.infos b)
              (script-Agrees env c.infos use_rpath t d i u p)
              (λ d' h. let g = steps-Grows env t d h in go ts d' (g.infos ∙ i) (g.suite ∙ u) q))

  -- From a run that agrees with the assertions: nothing on record, exactly where they hold.
  clean-of_Agrees :
      {c : Chain} {r : Result Chain} {s : Result (List Failure)}
      → Agrees c r s
      → c.all_failures ≡ []
      → ((c' : Chain) × (r ≡ ok c') × (c'.all_failures ≡ [])) ↔ (s ≡ ok [])
  clean-of_Agrees (raises e) f = (λ (c', p, q). cc, λ h. cc)
  clean-of_Agrees (records c' fs p) f = (
    λ (d, q, t). ap ok (sym (rw f at p) ∙ ap (λ c. c.all_failures) (ok-injective q) ∙ t),
    λ h. (c', refl, p ∙ ap (λ l. l ++ fs) f ∙ ok-injective h),
  )

  -- On a chain with nothing on record, a suite whose tests make assertions ends the process with
  -- status 0 exactly where all of these assertions hold of the package, each decided by itself.
  pub run-exit_zero_of_assertions :
      (suite : ExpectSuite (List Step)) (c : Chain) {asked : List Assertion}
      → suite_assertions suite.use_rpath suite.tests ≡ some asked
      → c.all_failures ≡ []
      → (exit_status (run env suite c) ≡ 0) ↔ (check_all env c.infos asked ≡ ok [])
  unfolding begin
  run-exit_zero_of_assertions suite c e f =
      let started = begin (codes "run test suite") suite c in
      let agrees = run_tests-Agrees suite.tests suite.use_rpath started refl e in
      let (there, back) = run-exit_zero_iff env suite c in
      let (holds, clean) = clean-of_Agrees agrees f in (λ h. holds (there h), λ h. back (clean h))
