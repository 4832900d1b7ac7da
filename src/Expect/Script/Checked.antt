-- ===== src/Expect/Script/Checked.antt =====
-- What one call on the chain changes.
use kong_coco.Prelude.{◌+◌, ◌≤◌, ◌≡◌, refl, sym, Bool, true, false, List, []}
use kong_coco.Prelude.{◌∷◌, ◌++◌, Text, Option, none, some, length, arith}
use kong_coco.Prelude.{if◌then◌else◌}
use mathlib.Core.List.{append-nil}
use kong_coco.Result.{Result, ok, ◌>>=◌, >>=-eq-ok, ok-injective}
use kong_coco.Env.{Env}
use kong_coco.Explain.Value.{Value, Literal}
use kong_coco.Expect.State.{Chain, Failure, Message, Reason, print_fail, print_error}
use kong_coco.Expect.Compare.{compare, exist}
use kong_coco.Expect.Compare.Outcome.{passed, failed, compare-Ends}
use kong_coco.Expect.Chain.{Access, self, dummy_call, bound, getattr, call, run_method}
use kong_coco.Expect.Chain.Accesses.{Reads, refused, waits, getattr-Reads}
use kong_coco.Expect.Script.{step, check}

-- A call that checks: the record of failures grows by one at most, the counts go along with it,
-- and what the next call of the chain reads is as it was.
pub record Checked (c c' : Chain) : Type 0 where
  pub added : List Failure
  pub all_failures : c'.all_failures ≡ c.all_failures ++ added
  pub failures_count : c'.failures_count ≡ c.failures_count + length added
  pub checks_count : c.checks_count + length added ≤ c'.checks_count
  pub at_most_one : c'.checks_count ≤ c.checks_count + 1
  pub infos : c'.infos ≡ c.infos
  pub files : c'.files ≡ c.files
  pub logical_reverse : c'.logical_reverse ≡ c.logical_reverse
  pub path_glob : c'.path_glob ≡ c.path_glob
  pub last_attribute : c'.last_attribute ≡ c.last_attribute
  pub key_name : c'.key_name ≡ c.key_name
  pub suite : c'.suite ≡ c.suite

Checked-count : (c : Chain) → Checked c (record c { checks_count = c.checks_count + 1 })
Checked-count c = record {
  added = [];
  all_failures = sym (append-nil c.all_failures);
  failures_count = omega arith;
  checks_count = omega arith;
  at_most_one = omega arith;
  infos = refl;
  files = refl;
  logical_reverse = refl;
  path_glob = refl;
  last_attribute = refl;
  key_name = refl;
  suite = refl;
}

Checked-fail :
    (m : Failure) (c : Chain)
    → Checked c (print_fail m (record c { checks_count = c.checks_count + 1 }))
unfolding print_fail
Checked-fail m c = record {
  added = m ∷ [];
  all_failures = refl;
  failures_count = refl;
  checks_count = omega arith;
  at_most_one = omega arith;
  infos = refl;
  files = refl;
  logical_reverse = refl;
  path_glob = refl;
  last_attribute = refl;
  key_name = refl;
  suite = refl;
}

Checked-error : (c : Chain) (m : Message) → Checked c (print_error m c)
unfolding print_error
Checked-error c m = record {
  added = [];
  all_failures = sym (append-nil c.all_failures);
  failures_count = omega arith;
  checks_count = omega arith;
  at_most_one = omega arith;
  infos = refl;
  files = refl;
  logical_reverse = refl;
  path_glob = refl;
  last_attribute = refl;
  key_name = refl;
  suite = refl;
}

pub compare-Checked :
    (attr : Text) (fn : Value → Result (Bool × Reason)) (c : Chain) {b : Bool} {c' : Chain}
    → compare attr fn c ≡ ok (b, c')
    → Checked c c'
compare-Checked attr fn c h = elim (compare-Ends attr fn c _ _ h) [
  | passed e q ↦ rw q (Checked-count c)
  | failed m e q ↦ rw q (Checked-fail m c)
]

Checked-if : {c a b : Chain} (t : Bool) → Checked c a → Checked c b → Checked c (if t then a else b)
Checked-if true p q = p
Checked-if false p q = q

pub exist-Checked : (c : Chain) → Checked c (exist c)
unfolding exist
exist-Checked c = Checked-if _ (Checked-fail _ c) (Checked-count c)

-- Where `r` raises nothing, it checks in the state `c`.
abbrev pub Checks : Chain → Result Chain → Type 0
Checks c r = (c' : Chain) → r ≡ ok c' → Checked c c'

Checks-compare :
    (attr : Text) (fn : Value → Result (Bool × Reason)) (c : Chain)
    → Checks c (compare attr fn c >>= λ (_, c'). ok c')
Checks-compare attr fn c c' h =
    let ((b, c''), p, q) = >>=-eq-ok (compare attr fn c) (λ (_, c'). ok c') h in
    rw (ok-injective q) at (compare-Checked attr fn c p)

module _ (env : Env) where
  run_method-Checks :
      (attr : Text) (c : Chain) (fn : Option (Value → Result (Bool × Reason)))
      → Checks c (run_method env attr c fn)
  unfolding run_method
  run_method-Checks attr c none = λ c' h. cc
  run_method-Checks attr c (some fn) = Checks-compare attr fn c

  call-Checks :
      (name : Text) (c : Chain) (a : Access) (expect : Literal)
      → Reads name c a
      → Checks c (call env a expect)
  unfolding call
  call-Checks name c (self c') expect r = λ c'' h. cc
  call-Checks name c (dummy_call c') expect (refused m _ e) =
      λ c'' h. rw (← ok-injective h, e) (Checked-error c m)
  call-Checks name c (bound verb attr c') expect (waits _ _ _ e) = rw e (run_method-Checks attr c _)

  -- Reading a verb by its name and calling it.
  pub check-Checks :
      (name : Text) (expect : Literal) (c : Chain) → Checks c (step env (check name expect) c)
  unfolding step
  check-Checks name expect c c' h =
      let (a, p, q) = >>=-eq-ok (getattr name c) (λ access. call env access expect) h in
      call-Checks name c a expect (getattr-Reads name c a p) c' q
