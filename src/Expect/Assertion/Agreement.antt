-- ===== src/Expect/Assertion/Agreement.antt =====
-- One call of the chain does what the flat assertion says: the verbs.
pub mod Settled
pub mod Scripts
use mathlib.Core.Path.{subst}
use mathlib.Core.List.{append-nil}
use kong_coco.Prelude.{
  ◌+◌, ◌≡◌, refl, sym, ◌∙◌, ap, inl, inr, Bool, true, false, Option, none, some, List, [], ◌∷◌,
  ◌++◌,
}
use kong_coco.Prelude.{
  Text, list_eq, nat_eq, not, Bool-cases, Option-cases, if◌then◌else◌, is_empty, length, contains,
}
use kong_coco.Result.{
  Error, Result, ok, err, type_error, ◌>>=◌, >>=-eq-ok, ok-injective, Result-cases,
}
use kong_coco.Env.{Env}
use kong_coco.Explain.Value.{Value, Literal}
use kong_coco.Explain.Info.{Info, relpath_of}
use kong_coco.Explain.Attributes.{attribute, has}
use kong_coco.Expect.State.{Chain, Failure, Reason, print_fail, print_error, fail_file, fail_exist}
use kong_coco.Expect.Compare.{select, same, judge, judge_value, judge_file, compare_files, compare}
use kong_coco.Expect.Compare
use kong_coco.Expect.Chain.{
  verbs, verb_of, getattr, first_absent, bind_verb, access_verb, run_method, verb_method, call,
}
use kong_coco.Expect.Script.{step, check}
use kong_coco.Expect.Assertion.{
  first_failure, failure_of, check_assertion, holds, present, selected,
}

-- A run of the chain from `c`, and what flat assertions give: both raise the same, or the record
-- of failures grows by just theirs.
pub data Agrees (c : Chain) : Result Chain → Result (List Failure) → Type 0 where
  raises : (e : Error) → Agrees c (err e) (err e)
  records :
      (c' : Chain) (fs : List Failure)
      → c'.all_failures ≡ c.all_failures ++ fs
      → Agrees c (ok c') (ok fs)

pub Agrees-silent : (c c' : Chain) → c'.all_failures ≡ c.all_failures → Agrees c (ok c') (ok [])
Agrees-silent c c' p = records c' [] (p ∙ sym (append-nil c.all_failures))

pub Agrees-bind :
    {c : Chain} {A : Type 0} (r : Result A) (k : A → Result Chain) (l : A → Result (List Failure))
    → ((a : A) → r ≡ ok a → Agrees c (k a) (l a))
    → Agrees c (r >>= k) (r >>= l)
Agrees-bind (err e) k l h = raises e
Agrees-bind (ok a) k l h = h a refl

Agrees-if :
    {c : Chain} (b : Bool) {r r' : Result Chain} {s s' : Result (List Failure)}
    → Agrees c r s
    → Agrees c r' s'
    → Agrees c (if b then r else r') (if b then s else s')
Agrees-if true p q = p
Agrees-if false p q = q

-- The chain that `_compare` leaves, without the result that the verbs drop.
abbrev left : Result (Bool × Chain) → Result Chain
left r = r >>= λ (b, c). ok c

Agrees-left :
    {c : Chain} {A : Type 0} (r : Result A) (k : A → Result (Bool × Chain))
    (l : A → Result (List Failure))
    → ((a : A) → r ≡ ok a → Agrees c (left (k a)) (l a))
    → Agrees c (left (r >>= k)) (r >>= l)
Agrees-left (err e) k l h = raises e
Agrees-left (ok a) k l h = h a refl

Agrees-fail : (m : Failure) (c : Chain) → Agrees c (ok (print_fail m c)) (ok (m ∷ []))
unfolding print_fail
Agrees-fail m c = records _ (m ∷ []) refl

module _ (name : Text) (fn : Value → Result (Bool × Reason)) (c : Chain) where
  judge-Agrees :
      (f : Info) (v : Value) (rest : Result (Bool × Chain)) (s : Result (List Failure))
      (d : Bool × Reason)
      → Agrees c (left rest) s
      → Agrees c (left (judge name f v c rest d)) (
          if same d.0 c.logical_reverse
          then ok (fail_file (relpath_of f) name v d.1 c.logical_reverse ∷ [])
          else s)
  unfolding judge
  judge-Agrees f v rest s (good, reason) h = elim (Bool-cases (same good c.logical_reverse)) [
    | inl t ↦ rw t (Agrees-fail _ c)
    | inr t ↦ rw t h
  ]

  -- What the flat assertion makes of one file, from the value that the key selects.
  abbrev decided : Info → Result (List Failure) → Option Value → Result (List Failure)
  decided f s o = elim o [
    | none ↦ ok []
    | some w ↦ fn w >>= λ (good, reason).
        if same good c.logical_reverse
        then ok (fail_file (relpath_of f) name w reason c.logical_reverse ∷ [])
        else s
  ]

  judge_value-Agrees :
      (f : Info) (o : Option Value) (rest : Result (Bool × Chain)) (s : Result (List Failure))
      → Agrees c (left rest) s
      → Agrees c (left (judge_value name fn f c rest o)) (decided f s o)
  unfolding judge_value
  judge_value-Agrees f none rest s h = Agrees-silent c c refl
  judge_value-Agrees f (some w) rest s h =
      Agrees-left (fn w) (judge name f w c rest) _ (λ d _. judge-Agrees f w rest s d h)

  has-present :
      (f : Info) (fs : List Info)
      → first_absent name (f ∷ fs) ≡ ok none
      → (has (attribute name f) ≡ ok true) × (first_absent name fs ≡ ok none)
  unfolding first_absent
  has-present f fs h =
      let (found, p, q) = >>=-eq-ok (has (attribute name f)) _ h in
      elim (Bool-cases found) [ inl t ↦ (rw t at p, rw t at q) | inr t ↦ cc (rw t at q) ]

  -- On files that all have the attribute, the loop does what the flat assertion says.
  pub compare_files-Agrees :
      (fs : List Info)
      → first_absent name fs ≡ ok none
      → Agrees c
          (left (compare_files name fn fs c))
          (first_failure name fn c.key_name c.logical_reverse fs)
  unfolding compare_files first_failure judge_file
  compare_files-Agrees [] h = Agrees-silent c c refl
  compare_files-Agrees (f ∷ fs) h =
      let (p, q) = has-present f fs h in
      rw (p, ◌>>=◌)
        (Agrees-left (attribute name f)
          (λ v. judge_value name fn f c (compare_files name fn fs c) (select c.key_name v)) _
          (λ v _.
            judge_value-Agrees f (select c.key_name v) (compare_files name fn fs c) _
              (compare_files-Agrees fs q)))

pub Agrees-from :
    {c d : Chain} {r : Result Chain} {s : Result (List Failure)}
    → c.all_failures ≡ d.all_failures
    → Agrees c r s
    → Agrees d r s
Agrees-from p (raises e) = raises e
Agrees-from p (records c' fs q) = records c' fs (q ∙ ap (λ l. l ++ fs) p)

module _ (env : Env) where
  run_method-Agrees :
      (name : Text) (c : Chain) (fn : Option (Value → Result (Bool × Reason)))
      → first_absent name c.files ≡ ok none
      → Agrees c
          (run_method env name c fn)
          (failure_of name fn c.key_name c.logical_reverse c.files)
  unfolding run_method failure_of compare
  run_method-Agrees name c none h = raises type_error
  run_method-Agrees name c (some fn) h =
      Agrees-from refl
        (compare_files-Agrees name fn (record c { checks_count = c.checks_count + 1 }) c.files h)

  -- The flat assertion, once it is known whether a file lacks the attribute.
  abbrev unless_absent :
      Text → Text → Literal → Chain → List Info → Option Info → Result (List Failure)
  unless_absent verb attr arg c files absent = elim absent [
    | some f ↦ ok []
    | none ↦ failure_of attr (verb_method env verb attr arg) c.key_name c.logical_reverse files
  ]

  verb-Agrees :
      (name verb : Text) (attr : Text) (c : Chain) (arg : Literal) (r : Result (Option Info))
      → first_absent attr c.files ≡ r
      → Agrees c
          (r >>= bind_verb name verb attr c >>= λ access. call env access arg)
          (r >>= unless_absent verb attr arg c c.files)
  unfolding bind_verb call print_error
  verb-Agrees name verb attr c arg (err e) h = raises e
  verb-Agrees name verb attr c arg (ok (some f)) h = Agrees-silent c _ refl
  verb-Agrees name verb attr c arg (ok none) h =
      run_method-Agrees attr c (verb_method env verb attr arg) h

  access-Agrees :
      (name verb : Text) (attr : Text) (c : Chain) (arg : Literal) {last : Option Text}
      (files : List Info)
      → c.files ≡ files
      → last ≡ some attr
      → is_empty attr ≡ false
      → Agrees c
          (access_verb name verb c last >>= λ access. call env access arg)
          (first_absent attr files >>= unless_absent verb attr arg c files)
  unfolding access_verb
  access-Agrees name verb [] c arg files p e n = cc
  access-Agrees name verb (b ∷ attr) c arg files p e n = rw e (
      subst
        (λ l.
          Agrees c (access_verb name verb c (some (b ∷ attr)) >>= λ access. call env access arg)
            (first_absent (b ∷ attr) l >>= unless_absent verb (b ∷ attr) arg c l))
        p (verb-Agrees name verb (b ∷ attr) c arg _ refl))

  -- A verb, called where an attribute was read, does what the flat assertion says.
  pub check-Agrees :
      (infos : List Info) (globs : List Text) (attr name : Text) (arg : Literal) (c : Chain)
      → c.files ≡ selected env infos globs
      → c.last_attribute ≡ some attr
      → is_empty attr ≡ false
      → contains (verb_of name) verbs ≡ true
      → Agrees c (step env (check name arg) c) (
          check_assertion env infos
            (holds globs attr c.key_name c.logical_reverse (verb_of name) arg))
  unfolding step getattr check_assertion
  check-Agrees infos globs attr name arg c files last nonempty v =
      rw v (
        access-Agrees name (verb_of name) attr c arg (selected env infos globs) files last nonempty)

  pub exist-Agrees :
      (infos : List Info) (globs : List Text) (c : Chain)
      → c.files ≡ selected env infos globs
      → c.path_glob ≡ globs
      → Agrees c
          (ok (Compare.exist c))
          (check_assertion env infos (present globs c.logical_reverse))
  unfolding Compare.exist check_assertion
  exist-Agrees infos globs c files path =
      rw (← files, ← path)
        (elim (Bool-cases (same (not (is_empty c.files)) c.logical_reverse)) [
          | inl t ↦
              rw t
                (Agrees-from refl (Agrees-fail _ (record c { checks_count = c.checks_count + 1 })))
          | inr t ↦ rw t (Agrees-silent c _ refl)
        ])
