-- ===== src/Expect/Script.antt =====
-- A test function of suites.py as the sequence of its calls on the chain, and `run`,
-- `compare_manifest` and the end of the process.
pub mod Checked
pub mod Counts
pub mod Exit
use kong_coco.Prelude.{ℕ, Option, none, some, List, [], ◌∷◌, Text, codes}
use kong_coco.Prelude.{if◌then◌else◌}
use kong_coco.Result.{Result, ok, err, ◌>>=◌}
use kong_coco.Env.{Env}
use kong_coco.Explain.Value.{Literal}
use kong_coco.Explain.Info.{Info}
use kong_coco.Expect.State.{ExpectSuite, Chain, new, log, start_block, finish_block}
use kong_coco.Expect.State.{fail_manifest, print_fail, print_result, print_all_fails}
use kong_coco.Expect.Compare
use kong_coco.Expect.Chain.{getattr, then_self, call}
use kong_coco.Expect.Chain

-- One call. `attr` reads an attribute of the chain by name and goes on with the result as a
-- chain; `check` reads one and calls it.
pub data Step : Type 0 where
  expect : List Text → Text → Step
  attr : Text → Step
  check : Text → Literal → Step
  key : Text → Step
  do_not does_not is_not : Step
  to : Step
  exist exists : Step

-- `write_block_desc` around a method that sets the current suite first, without the time taken
unfoldable pub begin : Text → ExpectSuite (List Step) → Chain → Chain
unfolding log
begin desc suite c = record (log (start_block desc suite.name) c) { suite = some suite.use_rpath }

unfoldable pub end : Text → ExpectSuite (List Step) → Chain → Chain
unfolding log
end desc suite c = log (finish_block desc suite.name) c

module _ (env : Env) where
  unfoldable pub step : Step → Chain → Result Chain
  unfolding Chain.expect Chain.key Chain.do_not Chain.verb_method Chain.run_method getattr call
      then_self Compare.compare Compare.exist
  step (expect globs msg) c = ok (Chain.expect env globs msg c)
  step (attr name) c = getattr name c >>= then_self
  step (check name arg) c = getattr name c >>= λ access. call env access arg
  step (key name) c = ok (Chain.key name c)
  step do_not c = ok (Chain.do_not c)
  step does_not c = ok (Chain.do_not c)
  step is_not c = ok (Chain.do_not c)
  step to c = ok c
  step exist c = ok (Compare.exist c)
  step exists c = ok (Compare.exist c)

  unfoldable pub steps : List Step → Chain → Result Chain
  unfolding step
  steps [] c = ok c
  steps (s ∷ ss) c = step s c >>= steps ss

  unfoldable pub run_tests : List (List Step) → Chain → Result Chain
  unfolding steps
  run_tests [] c = ok c
  run_tests (t ∷ ts) c = steps t c >>= run_tests ts

  -- `run(suite)`
  unfoldable pub run : ExpectSuite (List Step) → Chain → Result Chain
  unfolding run_tests begin end
  run suite c = run_tests suite.tests (begin (codes "run test suite") suite c) >>= λ c'.
      ok (end (codes "run test suite") suite (print_result c'))

  unfoldable pub check_manifest : Option Text → Text → Chain → Chain
  unfolding print_fail
  check_manifest none given c = c
  check_manifest (some []) given c = c
  check_manifest (some (b ∷ file)) given c =
      if env.same_manifest (b ∷ file) given then c else print_fail fail_manifest c

  -- `compare_manifest(suite, manifest)`
  unfoldable pub compare_manifest : ExpectSuite (List Step) → Text → Chain → Chain
  unfolding check_manifest begin end
  compare_manifest suite given c =
      end (codes "compare manifest") suite
        (check_manifest suite.manifest given (begin (codes "compare manifest") suite c))

  -- The chain's whole use by main.py, up to the end of the process.
  unfoldable pub verify : ExpectSuite (List Step) → List Info → Text → Result Chain
  unfolding new compare_manifest run
  verify suite infos manifest = run suite (compare_manifest suite manifest (new infos))

-- The exit status of the process: an exception ends it with 1, and so does the handler at exit
-- where it has failures to show.
unfoldable pub exit_status : Result Chain → ℕ
unfolding print_all_fails
exit_status (err e) = 1
exit_status (ok c) = elim (print_all_fails c).1 [ none ↦ 0 | some n ↦ n ]
