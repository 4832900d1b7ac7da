-- ===== src/Expect/Assertion/Agreement/Scripts.antt =====
-- Whole test functions do what their flat assertions say.
use mathlib.Core.Path.{subst}
use mathlib.Core.List.{append_assoc}
use kong_coco.Prelude.{
  ◌≡◌, refl, ◌∙◌, ap, Bool, true, false, Option, none, some, List, [], ◌∷◌, ◌++◌,
}
use kong_coco.Prelude.{Text, list_eq, nat_eq, if◌then◌else◌, is_empty, contains}
use kong_coco.Result.{Result, ok, ◌>>=◌, ok-injective}
use kong_coco.Env.{Env}
use kong_coco.Explain.Value.{Literal}
use kong_coco.Explain.Info.{Info}
use kong_coco.Expect.State.{Chain, Failure}
use kong_coco.Expect.Compare
use kong_coco.Expect.Chain
use kong_coco.Expect.Chain.{verbs, verb_of, rpath_name, getattr, set_attribute, then_self}
use kong_coco.Expect.Script.{
  Step, expect, attr, check, key, do_not, does_not, is_not, to, exist, exists,
}
use kong_coco.Expect.Script.{step, steps}
use kong_coco.Expect.Script.Checked.{check-Checks}
use kong_coco.Expect.Assertion.{
  Assertion, holds, present, Context, fresh, about, with_assertion, asserted, assertions,
  assertions_of, check_assertion, check_all,
}
use kong_coco.Expect.Assertion.Agreement.Settled.{
  some-injective, all_failures-expect, Settled, Settled-expect, Settled-about, Settled-Checked,
  Settled-exist, Settled-key, Settled-do_not,
}
use kong_coco.Expect.Assertion.Agreement.{
  Agrees, raises, records, Agrees-silent, Agrees-from, check-Agrees, exist-Agrees,
}

Agrees-more :
    {c c' : Chain} (fs : List Failure) {r : Result Chain} {t : Result (List Failure)}
    → c'.all_failures ≡ c.all_failures ++ fs
    → Agrees c' r t
    → Agrees c r (t >>= λ gs. ok (fs ++ gs))
Agrees-more fs p (raises e) = raises e
Agrees-more {c} fs p (records d gs q) =
    records d (fs ++ gs) (q ∙ ap (λ l. l ++ gs) p ∙ append_assoc c.all_failures fs gs)

pub Agrees-trans :
    {c : Chain} {r : Result Chain} {s : Result (List Failure)} (k : Chain → Result Chain)
    (t : Result (List Failure))
    → Agrees c r s
    → ((c' : Chain) → r ≡ ok c' → Agrees c' (k c') t)
    → Agrees c (r >>= k) (s >>= λ fs. t >>= λ gs. ok (fs ++ gs))
Agrees-trans k t (raises e) h = raises e
Agrees-trans k t (records c' fs p) h = Agrees-more fs p (h c' refl)

with_assertion-eq-some :
    (a : Assertion) (o : Option (List Assertion)) {asked : List Assertion}
    → with_assertion a o ≡ some asked
    → (rest : List Assertion) × (o ≡ some rest) × (asked ≡ a ∷ rest)
with_assertion-eq-some a none h = cc
with_assertion-eq-some a (some rest) h = (rest, refl, cc)

if-eq-some :
    {A : Type 0} (b : Bool) {o : Option A} {a : A}
    → (if b then none else o) ≡ some a
    → (b ≡ false) × (o ≡ some a)
if-eq-some true h = cc
if-eq-some false h = (refl, h)

unless-eq-some :
    {A : Type 0} (b : Bool) {o : Option A} {a : A}
    → (if b then o else none) ≡ some a
    → (b ≡ true) × (o ≡ some a)
unless-eq-some true h = (refl, h)
unless-eq-some false h = cc

module _ (env : Env) (infos : List Info) (use_rpath : Bool) where
  set_attribute-known :
      (name : Text) (c : Chain) {o : Option Bool}
      → o ≡ some use_rpath
      → (set_attribute name c o >>= then_self)
        ≡ ok (record c {
          last_attribute = some (rpath_name use_rpath name);
          logical_reverse = false;
          key_name = none;
        })
  unfolding set_attribute then_self
  set_attribute-known name c e = rw e refl

  -- Reading an attribute.
  attr-known :
      (name : Text) (c : Chain)
      → contains (verb_of name) verbs ≡ false
      → c.suite ≡ some use_rpath
      → step env (attr name) c
        ≡ ok (record c {
          last_attribute = some (rpath_name use_rpath name);
          logical_reverse = false;
          key_name = none;
        })
  unfolding step getattr
  attr-known name c v s = rw v (set_attribute-known name c s)

  -- Calling a verb.
  check-Settled :
      (name : Text) (arg : Literal) (ctx : Context) (c : Chain) (o : Option Text)
      (rest : Option (List Assertion)) {asked : List Assertion}
      → Settled env infos use_rpath ctx c
      → contains (verb_of name) verbs ≡ true
      → ctx.attr ≡ o
      → asserted ctx o (verb_of name) arg rest ≡ some asked
      → (a : Assertion) × Agrees c (step env (check name arg) c) (check_assertion env infos a)
        × (with_assertion a rest ≡ some asked)
  unfolding asserted
  check-Settled name arg ctx c none rest h v o e = cc
  check-Settled name arg ctx c (some subject) rest h v o e =
      let (p, n, q) = h.subject subject o in
      let verb = verb_of name in
      (
        holds ctx.globs subject ctx.key ctx.reverse verb arg,
        subst
            (λ k.
              Agrees c (step env (check name arg) c)
                (check_assertion env infos (holds ctx.globs subject k ctx.reverse verb arg)))
            q
            (subst
              (λ r.
                Agrees c (step env (check name arg) c)
                  (check_assertion env infos (holds ctx.globs subject c.key_name r verb arg)))
              h.reverse (check-Agrees env infos ctx.globs subject name arg c h.files p n v)),
        e,
      )

  exist-Settled :
      (ctx : Context) (c : Chain)
      → Settled env infos use_rpath ctx c
      → Agrees c (ok (Compare.exist c)) (check_assertion env infos (present ctx.globs ctx.reverse))
  exist-Settled ctx c h =
      subst (λ r. Agrees c (ok (Compare.exist c)) (check_assertion env infos (present ctx.globs r)))
        h.reverse (exist-Agrees env infos ctx.globs c h.files h.path_glob)

  -- An assertion, and what comes behind it.
  asked-Agrees :
      (a : Assertion) (r : Result Chain) (k : Chain → Result Chain) (o : Option (List Assertion))
      {c : Chain} {asked : List Assertion}
      → Agrees c r (check_assertion env infos a)
      → with_assertion a o ≡ some asked
      → ((rest : List Assertion) (c' : Chain)
          → o ≡ some rest
          → r ≡ ok c'
          → Agrees c' (k c') (check_all env infos rest))
      → Agrees c (r >>= k) (check_all env infos asked)
  unfolding check_all
  asked-Agrees a r k o p e h =
      let (rest, q, s) = with_assertion-eq-some a o e in
      rw s (Agrees-trans k (check_all env infos rest) p (λ c' t. h rest c' q t))

  steps-Agrees :
      (ss : List Step) (ctx : Context) (c : Chain) {asked : List Assertion}
      → Settled env infos use_rpath ctx c
      → assertions use_rpath ctx ss ≡ some asked
      → Agrees c (steps env ss c) (check_all env infos asked)
  unfolding steps step assertions check_all
  steps-Agrees [] ctx c h e = rw (← some-injective e) (Agrees-silent c c refl)
  steps-Agrees (expect globs msg ∷ ss) ctx c h e =
      Agrees-from (all_failures-expect env globs msg c) (
        steps-Agrees ss (fresh globs) (Chain.expect env globs msg c)
          (Settled-expect env infos use_rpath globs msg c h.same_infos h.suite) e)
  steps-Agrees (attr name ∷ ss) ctx c h e =
      let (v, e₁) = if-eq-some (contains (verb_of name) verbs) e in
      let (n, e₂) = if-eq-some (is_empty (rpath_name use_rpath name)) e₁ in
      rw (attr-known name c v h.suite, ◌>>=◌)
        (Agrees-from refl (
          steps-Agrees ss (about (rpath_name use_rpath name) ctx) _
            (Settled-about env infos use_rpath name (rpath_name use_rpath name) c n h) e₂))
  steps-Agrees (check name arg ∷ ss) ctx c h e =
      let (v, e₁) = unless-eq-some (contains (verb_of name) verbs) e in
      let (a, p, e₂) =
        check-Settled name arg ctx c ctx.attr (assertions use_rpath ctx ss) h v refl e₁ in
      asked-Agrees a (step env (check name arg) c) (steps env ss) (assertions use_rpath ctx ss) p e₂
        (λ rest c' q t.
          steps-Agrees ss ctx c'
            (Settled-Checked env infos use_rpath (check-Checks env name arg c c' t) h) q)
  steps-Agrees (key name ∷ ss) ctx c h e = Agrees-from (unfold Chain.key in refl) (
      steps-Agrees ss (record ctx { key = some name }) (Chain.key name c)
        (Settled-key env infos use_rpath name c h) e)
  steps-Agrees (do_not ∷ ss) ctx c h e = Agrees-from (unfold Chain.do_not in refl) (
      steps-Agrees ss (record ctx { reverse = true }) (Chain.do_not c)
        (Settled-do_not env infos use_rpath c h) e)
  steps-Agrees (does_not ∷ ss) ctx c h e = Agrees-from (unfold Chain.do_not in refl) (
      steps-Agrees ss (record ctx { reverse = true }) (Chain.do_not c)
        (Settled-do_not env infos use_rpath c h) e)
  steps-Agrees (is_not ∷ ss) ctx c h e = Agrees-from (unfold Chain.do_not in refl) (
      steps-Agrees ss (record ctx { reverse = true }) (Chain.do_not c)
        (Settled-do_not env infos use_rpath c h) e)
  steps-Agrees (to ∷ ss) ctx c h e = steps-Agrees ss ctx c h e
  steps-Agrees (exist ∷ ss) ctx c h e =
      asked-Agrees (present ctx.globs ctx.reverse) (ok (Compare.exist c)) (steps env ss)
        (assertions use_rpath ctx ss) (exist-Settled ctx c h) e
        (λ rest c' q t.
          steps-Agrees ss ctx c' (rw (ok-injective t) at (Settled-exist env infos use_rpath c h)) q)
  steps-Agrees (exists ∷ ss) ctx c h e =
      asked-Agrees (present ctx.globs ctx.reverse) (ok (Compare.exist c)) (steps env ss)
        (assertions use_rpath ctx ss) (exist-Settled ctx c h) e
        (λ rest c' q t.
          steps-Agrees ss ctx c' (rw (ok-injective t) at (Settled-exist env infos use_rpath c h)) q)

  -- A test function does what its assertions say.
  pub script-Agrees :
      (ss : List Step) (c : Chain) {asked : List Assertion}
      → c.infos ≡ infos
      → c.suite ≡ some use_rpath
      → assertions_of use_rpath ss ≡ some asked
      → Agrees c (steps env ss c) (check_all env infos asked)
  unfolding assertions_of steps step check_all
  script-Agrees [] c i u e = rw (← some-injective e) (Agrees-silent c c refl)
  script-Agrees (expect globs msg ∷ ss) c i u e =
      Agrees-from (all_failures-expect env globs msg c) (
        steps-Agrees ss (fresh globs) (Chain.expect env globs msg c)
          (Settled-expect env infos use_rpath globs msg c i u) e)
  script-Agrees (_ ∷ ss) c i u e = cc
