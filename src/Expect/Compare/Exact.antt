-- ===== src/Expect/Compare/Exact.antt =====
-- The loop of `_compare` concludes nothing else than the verdict of the files.
use kong_coco.Prelude.{
  ◌+◌, ◌≡◌, refl, sym, ◌∙◌, ap, inl, inr, Bool, true, false, Option, none, some,
}
use kong_coco.Prelude.{
  ◌↔◌, List, [], ◌∷◌, Text, not, arith, Bool-cases, get_last?, get_last?-append,
}
use mathlib.Core.Option.{some-injective}
use kong_coco.Result.{Result, ok, >>=-eq-ok}
use kong_coco.Explain.Value.{Value}
use kong_coco.Explain.Info.{Info, relpath_of}
use kong_coco.Explain.Attributes.{attribute, has}
use kong_coco.Expect.State.{Chain, Failure, Reason, fail_file, print_fail}
use kong_coco.Expect.Compare.{same, select, judge, judge_value, judge_file, compare_files, compare}
use kong_coco.Expect.Compare.Verdict.{
  Decides, Passes, Clean, Broken, compare_files-Clean, compare_files-Broken,
}

eq-of-same : (good rev : Bool) → same good rev ≡ true → good ≡ rev
unfolding same
eq-of-same good rev h = ground arith

eq-not-of-same : (good rev : Bool) → same good rev ≡ false → good ≡ not rev
unfolding same
eq-not-of-same good rev h = ground arith

module _ (attr : Text) (fn : Value → Result (Bool × Reason)) (c : Chain) where
  -- What the files from one on have come to.
  pub data Verdict (fs : List Info) (b : Bool) (c' : Chain) : Type 0 where
    clean : b ≡ true → c' ≡ c → Clean attr fn c.key_name c.logical_reverse fs → Verdict fs b c'
    broken :
        (m : Failure)
        → b ≡ false
        → c' ≡ print_fail m c
        → Broken attr fn c.key_name c.logical_reverse m fs
        → Verdict fs b c'

  pass :
      {f : Info} {fs : List Info} {b : Bool} {c' : Chain}
      → Passes attr fn c.key_name c.logical_reverse f
      → Verdict fs b c'
      → Verdict (f ∷ fs) b c'
  pass p (clean e q h) = clean e q (inr (p, h))
  pass p (broken m e q h) = broken m e q (inr (p, h))

  decides :
      (f : Info) {v v' : Value} {good : Bool} {reason : Reason} (wanted : Bool)
      → attribute attr f ≡ ok v
      → select c.key_name v ≡ some v'
      → fn v' ≡ ok (good, reason)
      → good ≡ wanted
      → Decides attr fn c.key_name c.logical_reverse f wanted
          (fail_file (relpath_of f) attr v' reason c.logical_reverse)
  decides f {v} {v'} {good} {reason} wanted p q d e = record {
    subject = v';
    reads = record { value = v; is_attribute = p; is_selected = q };
    reason = reason;
    decides = d ∙ ap (λ b. ok (b, reason)) e;
    is_failure = refl;
  }

  module _ (f : Info) (fs : List Info) {b : Bool} {c' : Chain} where
    judge-Verdict :
        {v v' : Value} {good : Bool} {reason : Reason} (rest : Result (Bool × Chain))
        → attribute attr f ≡ ok v
        → select c.key_name v ≡ some v'
        → fn v' ≡ ok (good, reason)
        → (rest ≡ ok (b, c') → Verdict fs b c')
        → judge attr f v' c rest (good, reason) ≡ ok (b, c')
        → Verdict (f ∷ fs) b c'
    unfolding judge
    judge-Verdict {good} rest p q d ih h = elim (Bool-cases (same good c.logical_reverse)) [
      | inl e ↦
          let r = rw (e, judge) at h in
          broken _ (cc r) (cc r) (inl (decides f _ p q d (eq-of-same good _ e)))
      | inr e ↦
          pass (inr (_, decides f _ p q d (eq-not-of-same good _ e))) (ih (rw (e, judge) at h))
    ]

    judge_value-Verdict :
        {v : Value} (rest : Result (Bool × Chain)) (o : Option Value)
        → attribute attr f ≡ ok v
        → select c.key_name v ≡ o
        → (rest ≡ ok (b, c') → Verdict fs b c')
        → judge_value attr fn f c rest o ≡ ok (b, c')
        → Verdict (f ∷ fs) b c'
    unfolding judge_value
    judge_value-Verdict rest none p q ih h =
        clean (cc) (cc) (inl (record { value = _; is_attribute = p; is_selected = q }))
    judge_value-Verdict rest (some v') p q ih h =
        let (r, d, e) = >>=-eq-ok (fn v') (judge attr f v' c rest) h in
        judge-Verdict rest p q d ih e

    judge_file-Verdict :
        (rest : Result (Bool × Chain)) (present : Bool)
        → has (attribute attr f) ≡ ok present
        → (rest ≡ ok (b, c') → Verdict fs b c')
        → judge_file attr fn f c rest present ≡ ok (b, c')
        → Verdict (f ∷ fs) b c'
    unfolding judge_file
    judge_file-Verdict rest false p ih h = pass (inl p) (ih h)
    judge_file-Verdict rest true p ih h =
        let (v, q, e) =
          >>=-eq-ok (attribute attr f) (λ v. judge_value attr fn f c rest (select c.key_name v))
            h in
        judge_value-Verdict rest (select c.key_name v) q refl ih e

  pub compare_files-Verdict :
      (fs : List Info) {b : Bool} {c' : Chain}
      → compare_files attr fn fs c ≡ ok (b, c')
      → Verdict fs b c'
  unfolding compare_files
  compare_files-Verdict [] h = clean (cc) (cc) tt
  compare_files-Verdict (f ∷ fs) h =
      let (present, p, e) =
        >>=-eq-ok (has (attribute attr f)) (judge_file attr fn f c (compare_files attr fn fs c))
          h in
      judge_file-Verdict f fs _ present p (compare_files-Verdict fs) e

-- A check in `c` is counted before its loop runs.
abbrev pub counted : Chain → Chain
counted c = record c { checks_count = c.checks_count + 1 }

print_fail-injective : (m m' : Failure) (c : Chain) → print_fail m c ≡ print_fail m' c → m ≡ m'
unfolding print_fail
print_fail-injective m m' c q = some-injective _ _ (
    sym (get_last?-append c.all_failures m)
    ∙ ap (λ (c' : Chain). get_last? c'.all_failures) q
    ∙ get_last?-append c.all_failures m')

module _ (attr : Text) (fn : Value → Result (Bool × Reason)) (c : Chain) where
  -- _compare raises nothing and records nothing exactly when every file, up to the first one whose
  -- dict lacks the key, either lacks the attribute or has a value on which the verb decides as is
  -- wanted.
  pub compare-Clean_iff :
      (compare attr fn c ≡ ok (true, counted c))
      ↔ Clean attr fn c.key_name c.logical_reverse c.files
  unfolding compare
  compare-Clean_iff = (there, compare_files-Clean attr fn (counted c) c.files)
    where
      there :
          compare_files attr fn c.files (counted c) ≡ ok (true, counted c)
          → Clean attr fn c.key_name c.logical_reverse c.files
      there h = elim (compare_files-Verdict attr fn (counted c) c.files h) [
        | clean e q k ↦ k
        | broken m e q k ↦ cc
      ]

  -- _compare raises nothing and records the failure m and nothing else exactly when m is the
  -- failure of a file on which the verb decides the other way, every file before it passes, and
  -- none of those lacks the key.
  pub compare-Broken_iff :
      (m : Failure)
      → (compare attr fn c ≡ ok (false, print_fail m (counted c)))
        ↔ Broken attr fn c.key_name c.logical_reverse m c.files
  unfolding compare
  compare-Broken_iff m = (there, compare_files-Broken attr fn (counted c) m c.files)
    where
      there :
          compare_files attr fn c.files (counted c) ≡ ok (false, print_fail m (counted c))
          → Broken attr fn c.key_name c.logical_reverse m c.files
      there h = elim (compare_files-Verdict attr fn (counted c) c.files h) [
        | clean e q k ↦ cc
        | broken m' e q k ↦ rw (print_fail-injective m m' (counted c) q) k
      ]
