-- ===== src/Expect/Script/Exit.antt =====
-- The exit status of a run against the failures on record.
use kong_coco.Prelude.{◌≡◌, ◌≢◌, ◌↔◌, refl, ◌∙◌, sym, ap, inl, inr, false, List, []}
use kong_coco.Prelude.{◌∷◌, ◌++◌, Text, codes, is_empty, arith, if◌then◌else◌}
use kong_coco.Result.{Error, ok, err, ◌>>=◌, >>=-eq-ok, Result-cases}
use kong_coco.Env.{Env}
use kong_coco.Expect.State.{Chain, Failure, ExpectSuite, print_result}
use kong_coco.Expect.Script.{Step, step, steps, run_tests, run, begin, end, exit_status}
use kong_coco.Expect.Script.Counts.{Grows, Grows-trans, steps-Grows, run_tests-Grows}

exit_status-ok : (c : Chain) → exit_status (ok c) ≡ (if is_empty c.all_failures then 0 else 1)
unfolding exit_status
exit_status-ok c = ground arith

module _ (env : Env) where
  steps-append :
      (xs ys : List Step) (c : Chain) → steps env (xs ++ ys) c ≡ (steps env xs c >>= steps env ys)
  unfolding steps
  steps-append [] ys c = refl
  steps-append (x ∷ xs) ys c = elim (Result-cases (step env x c)) [
    | inl (c', e) ↦ rw (e, ◌>>=◌) (steps-append xs ys c')
    | inr (m, e) ↦ rw (e, ◌>>=◌)
  ]

  run_tests-append :
      (xs ys : List (List Step)) (c : Chain)
      → run_tests env (xs ++ ys) c ≡ (run_tests env xs c >>= run_tests env ys)
  unfolding run_tests
  run_tests-append [] ys c = refl
  run_tests-append (x ∷ xs) ys c = elim (Result-cases (steps env x c)) [
    | inl (c', e) ↦ rw (e, ◌>>=◌) (run_tests-append xs ys c')
    | inr (m, e) ↦ rw (e, ◌>>=◌)
  ]

  -- What `run` does to the state before and after the tests.
  abbrev start : ExpectSuite (List Step) → Chain → Chain
  start = begin (codes "run test suite")

  all_failures-end :
      (desc : Text) (suite : ExpectSuite (List Step)) (c : Chain)
      → (end desc suite (print_result c)).all_failures ≡ c.all_failures
  unfolding end print_result
  all_failures-end desc suite c = ground arith

  exit_status-run :
      (suite : ExpectSuite (List Step)) (c : Chain) {c' : Chain}
      → run_tests env suite.tests (start suite c) ≡ ok c'
      → exit_status (run env suite c) ≡ (if is_empty c'.all_failures then 0 else 1)
  unfolding run
  exit_status-run suite c {c'} h =
      rw (h, ◌>>=◌)
        (exit_status-ok _
          ∙ ap (λ l. if is_empty l then 0 else 1)
              (all_failures-end (codes "run test suite") suite c'))

  exit_status-run_raised :
      (suite : ExpectSuite (List Step)) (c : Chain) {e : Error}
      → run_tests env suite.tests (start suite c) ≡ err e
      → exit_status (run env suite c) ≡ 1
  unfolding run exit_status
  exit_status-run_raised suite c h = rw (h, ◌>>=◌)

  -- The process ends with status 0 exactly when no call of the suite's tests raises and no failure
  -- is on record at their end.
  pub run-exit_zero_iff :
      (suite : ExpectSuite (List Step)) (c : Chain)
      → (exit_status (run env suite c) ≡ 0) ↔ (
          (c' : Chain) × (run_tests env suite.tests (begin (codes "run test suite") suite c)
            ≡ ok c')
          × (c'.all_failures ≡ []))
  run-exit_zero_iff suite c = (there, λ (c', p, q). exit_status-run suite c p ∙ rw q)
    where
      there :
          exit_status (run env suite c) ≡ 0
          → (c' : Chain) × (run_tests env suite.tests (begin (codes "run test suite") suite c)
              ≡ ok c')
            × (c'.all_failures ≡ [])
      there h = elim (Result-cases (run_tests env suite.tests (start suite c))) [
        | inl (c', e) ↦ (c', e, ground (arith, exit_status-run suite c e))
        | inr (m, e) ↦ cc (h, exit_status-run_raised suite c e)
      ]

  -- What follows a call in the tests only adds to the record.
  Grows-rest :
      (xs : List (List Step)) (ys zs : List Step) (ws : List (List Step)) (c c₁ c₂ : Chain)
      {c' : Chain}
      → run_tests env xs c ≡ ok c₁
      → steps env ys c₁ ≡ ok c₂
      → run_tests env (xs ++ ((ys ++ zs) ∷ ws)) c ≡ ok c'
      → Grows c₂ c'
  unfolding run_tests
  Grows-rest xs ys zs ws c c₁ c₂ p q h =
      let after_xs = rw (run_tests-append xs ((ys ++ zs) ∷ ws) c, p, ◌>>=◌) at h in
      let after_ys = rw (steps-append ys zs c₁, q, ◌>>=◌) at after_xs in
      let (d, r, s) = >>=-eq-ok (steps env zs c₂) (run_tests env ws) after_ys in
      Grows-trans (steps-Grows env zs c₂ r) (run_tests-Grows env ws d s)

  nonempty-of-Grows :
      {c c' : Chain} → Grows c c' → c.all_failures ≢ [] → is_empty c'.all_failures ≡ false
  nonempty-of-Grows {c} g h = rw g.all_failures (go c.all_failures g.added h)
    where
      go : (l l' : List Failure) → l ≢ [] → is_empty (l ++ l') ≡ false
      go [] l' f = absurd (f refl)
      go (m ∷ l) l' f = refl

  -- Once a failure is on record in the middle of any test of a suite, the process ends with status
  -- 1, whatever calls and tests follow and whether or not they raise.
  pub run-exit_of_failure :
      (suite : ExpectSuite (List Step)) (c c₁ c₂ : Chain) (xs : List (List Step))
      (ys zs : List Step) (ws : List (List Step))
      → suite.tests ≡ xs ++ ((ys ++ zs) ∷ ws)
      → run_tests env xs (begin (codes "run test suite") suite c) ≡ ok c₁
      → steps env ys c₁ ≡ ok c₂
      → c₂.all_failures ≢ []
      → exit_status (run env suite c) ≡ 1
  run-exit_of_failure suite c c₁ c₂ xs ys zs ws t p q f =
      elim (Result-cases (run_tests env suite.tests (start suite c))) [
        | inl (c', e) ↦
            let g =
              Grows-rest xs ys zs ws _ c₁ c₂ p q
                (ap (λ ts. run_tests env ts (start suite c)) (sym t) ∙ e) in
            exit_status-run suite c e ∙ rw (nonempty-of-Grows g f)
        | inr (m, e) ↦ exit_status-run_raised suite c e
      ]

-- A chain that ends the process with status 0 has nothing on record.
pub all_failures-of_exit : (c : Chain) → exit_status (ok c) ≡ 0 → c.all_failures ≡ []
all_failures-of_exit c h = ground (arith, exit_status-ok c)
