-- ===== src/Expect/Script/Counts.antt =====
-- The record of failures and the counts, over whole scripts.
use kong_coco.Prelude.{◌≤◌, ◌≡◌, refl, ◌∙◌, sym, ap, List, []}
use kong_coco.Prelude.{◌∷◌, ◌++◌, Text, arith}
use mathlib.Core.List.{append-nil, append_assoc}
use kong_coco.Result.{ok, >>=-eq-ok, ok-injective}
use kong_coco.Env.{Env}
use kong_coco.Expect.State.{Chain, Failure, print_result, print_title, reset}
use kong_coco.Expect.Chain
use kong_coco.Expect.Chain.{Access, self, dummy_call, bound, getattr, then_self}
use kong_coco.Expect.Chain.Accesses.{Reads, attribute, getattr-Reads}
use kong_coco.Expect.Script.{
  Step, expect, attr, check, key, do_not, does_not, is_not, to, exist, exists,
}
use kong_coco.Expect.Script.{step, steps, run_tests}
use kong_coco.Expect.Script.Checked.{Checked, check-Checks, exist-Checked}

-- The failures on record stay, in their order, and new ones come behind them. Of a test, no more
-- checks fail than were made.
pub record Grows (c c' : Chain) : Type 0 where
  pub added : List Failure
  pub all_failures : c'.all_failures ≡ c.all_failures ++ added
  pub counts : c.failures_count ≤ c.checks_count → c'.failures_count ≤ c'.checks_count
  pub infos : c'.infos ≡ c.infos
  pub suite : c'.suite ≡ c.suite

pub Grows-refl : (c : Chain) → Grows c c
Grows-refl c = record {
  added = [];
  all_failures = sym (append-nil c.all_failures);
  counts = λ h. h;
  infos = refl;
  suite = refl;
}

pub Grows-trans : {a b c : Chain} → Grows a b → Grows b c → Grows a c
Grows-trans {a} {b} {c} g h = record {
  added = g.added ++ h.added;
  all_failures =
      h.all_failures
      ∙ ap (λ l. l ++ h.added) g.all_failures
      ∙ append_assoc a.all_failures g.added h.added;
  counts = λ p. h.counts (g.counts p);
  infos = h.infos ∙ g.infos;
  suite = h.suite ∙ g.suite;
}

Checked-Grows : {c c' : Chain} → Checked c c' → Grows c c'
Checked-Grows {c} {c'} k = record {
  added = k.added;
  all_failures = k.all_failures;
  counts = λ p. omega (arith, k.checks_count, k.failures_count);
  infos = k.infos;
  suite = k.suite;
}

-- What changes neither the record nor the counts.
same-Grows :
    (c c' : Chain)
    → c'.all_failures ≡ c.all_failures
    → (c.failures_count ≤ c.checks_count → c'.failures_count ≤ c'.checks_count)
    → c'.infos ≡ c.infos
    → c'.suite ≡ c.suite
    → Grows c c'
same-Grows c c' p q r s = record {
  added = [];
  all_failures = p ∙ sym (append-nil c.all_failures);
  counts = q;
  infos = r;
  suite = s;
}

pub print_result-Grows : (c : Chain) → Grows c (print_result c)
unfolding print_result
print_result-Grows c = same-Grows c _ (ground arith) (ground arith) (ground arith) (ground arith)

print_title-Grows : (c : Chain) → Grows c (print_title c)
unfolding print_title
print_title-Grows c = same-Grows c _ (ground arith) (ground arith) (ground arith) (ground arith)

reset-Grows : (msg : Text) (c : Chain) → Grows c (record (reset c) { msg = msg })
unfolding reset
reset-Grows msg c = same-Grows c _ refl (λ _. omega arith) refl refl

module _ (env : Env) where
  expect-Grows :
      (globs : List Text) (msg : Text) (c : Chain) → Grows c (Chain.expect env globs msg c)
  unfolding Chain.expect
  expect-Grows globs msg c = Grows-trans (print_result-Grows c) (
      Grows-trans (reset-Grows msg (print_result c)) (
        Grows-trans (print_title-Grows (record (reset (print_result c)) { msg = msg }))
          (same-Grows _ _ refl (λ h. h) refl refl)))

  then_self-Grows :
      (name : Text) (c : Chain) (a : Access) {c' : Chain}
      → Reads name c a
      → then_self a ≡ ok c'
      → Grows c c'
  unfolding then_self
  then_self-Grows name c (self c'') (attribute u _ e) h =
      rw (← ok-injective h, e) (same-Grows c _ refl (λ p. p) refl refl)
  then_self-Grows name c (dummy_call c'') r h = cc
  then_self-Grows name c (bound _ _ c'') r h = cc

  -- Every call keeps what is on record.
  pub step-Grows : (s : Step) (c : Chain) {c' : Chain} → step env s c ≡ ok c' → Grows c c'
  unfolding step
  step-Grows (expect globs msg) c h = rw (← ok-injective h) (expect-Grows globs msg c)
  step-Grows (attr name) c h =
      let (a, p, q) = >>=-eq-ok (getattr name c) then_self h in
      then_self-Grows name c a (getattr-Reads name c a p) q
  step-Grows (check name arg) c h = Checked-Grows (check-Checks env name arg c _ h)
  step-Grows (key name) c h = rw (← ok-injective h) (same-Grows c _ refl (λ p. p) refl refl)
  step-Grows do_not c h = rw (← ok-injective h) (same-Grows c _ refl (λ p. p) refl refl)
  step-Grows does_not c h = rw (← ok-injective h) (same-Grows c _ refl (λ p. p) refl refl)
  step-Grows is_not c h = rw (← ok-injective h) (same-Grows c _ refl (λ p. p) refl refl)
  step-Grows to c h = rw (← ok-injective h) (Grows-refl c)
  step-Grows exist c h = rw (← ok-injective h) (Checked-Grows (exist-Checked c))
  step-Grows exists c h = rw (← ok-injective h) (Checked-Grows (exist-Checked c))

  pub steps-Grows : (ss : List Step) (c : Chain) {c' : Chain} → steps env ss c ≡ ok c' → Grows c c'
  unfolding steps
  steps-Grows [] c h = rw (← ok-injective h) (Grows-refl c)
  steps-Grows (s ∷ ss) c h =
      let (c'', p, q) = >>=-eq-ok (step env s c) (steps env ss) h in
      Grows-trans (step-Grows s c p) (steps-Grows ss c'' q)

  -- Tests that raise nothing keep the failures on record, in their order, and put new ones behind
  -- them; the files and the suite stay; and no more failures than checks are counted, if that was
  -- so before.
  pub run_tests-Grows :
      (ts : List (List Step)) (c : Chain) {c' : Chain} → run_tests env ts c ≡ ok c' → Grows c c'
  unfolding run_tests
  run_tests-Grows [] c h = rw (← ok-injective h) (Grows-refl c)
  run_tests-Grows (t ∷ ts) c h =
      let (c'', p, q) = >>=-eq-ok (steps env t c) (run_tests env ts) h in
      Grows-trans (steps-Grows t c p) (run_tests-Grows ts c'' q)
