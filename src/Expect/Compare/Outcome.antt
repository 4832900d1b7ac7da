-- ===== src/Expect/Compare/Outcome.antt =====
-- The two ways in which one check can end: nothing recorded, or one failure.
use kong_coco.Prelude.{◌+◌, ◌≡◌, Bool, true, false, Option, none, some, List, [], ◌∷◌}
use kong_coco.Prelude.{Text, if◌then◌else◌}
use kong_coco.Result.{Result, ok, ◌>>=◌, >>=-eq-ok}
use kong_coco.Explain.Value.{Value}
use kong_coco.Explain.Info.{Info}
use kong_coco.Explain.Attributes.{attribute, has}
use kong_coco.Expect.State.{Chain, Failure, Reason, print_fail}
use kong_coco.Expect.Compare.{select, judge_value, judge_file, compare_files, compare}

pub data Outcome (c : Chain) (b : Bool) (c' : Chain) : Type 0 where
  passed : b ≡ true → c' ≡ c → Outcome c b c'
  failed : (m : Failure) → b ≡ false → c' ≡ print_fail m c → Outcome c b c'

-- Where `r` raises nothing, it is the outcome of a check in the state `c`.
abbrev pub Ends : Chain → Result (Bool × Chain) → Type 0
Ends c r = (b : Bool) (c' : Chain) → r ≡ ok (b, c') → Outcome c b c'

Ends-bind :
    {A : Type 0} (c : Chain) (m : Result A) (f : A → Result (Bool × Chain))
    → ((a : A) → Ends c (f a))
    → Ends c (m >>= f)
Ends-bind c m f k b c' h = let (a, _, e) = >>=-eq-ok m f h in k a b c' e

Ends-pass : (c : Chain) → Ends c (ok (true, c))
Ends-pass c b c' h = passed (cc) (cc)

Ends-fail : (m : Failure) (c : Chain) → Ends c (ok (false, print_fail m c))
Ends-fail m c b c' h = failed m (cc) (cc)

Ends-if :
    (c : Chain) (t : Bool) (r s : Result (Bool × Chain))
    → Ends c r
    → Ends c s
    → Ends c (if t then r else s)
Ends-if c true r s hr hs = hr
Ends-if c false r s hr hs = hs

module _ (attr : Text) (fn : Value → Result (Bool × Reason)) (c : Chain) where
  judge_value-Ends :
      (f : Info) (rest : Result (Bool × Chain)) (v : Option Value)
      → Ends c rest
      → Ends c (judge_value attr fn f c rest v)
  unfolding judge_value
  judge_value-Ends f rest none h = Ends-pass c
  judge_value-Ends f rest (some v) h =
      Ends-bind c (fn v) _ λ (good, reason). Ends-if c _ _ rest (Ends-fail _ c) h

  judge_file-Ends :
      (f : Info) (rest : Result (Bool × Chain)) (present : Bool)
      → Ends c rest
      → Ends c (judge_file attr fn f c rest present)
  unfolding judge_file
  judge_file-Ends f rest false h = h
  judge_file-Ends f rest true h =
      Ends-bind c (attribute attr f) _ λ v. judge_value-Ends f rest (select c.key_name v) h

  pub compare_files-Ends : (fs : List Info) → Ends c (compare_files attr fn fs c)
  unfolding compare_files
  compare_files-Ends [] = Ends-pass c
  compare_files-Ends (f ∷ fs) =
      Ends-bind c (has (attribute attr f)) _
        λ present. judge_file-Ends f _ present (compare_files-Ends fs)

-- A check counts once, and records at most one failure.
pub compare-Ends :
    (attr : Text) (fn : Value → Result (Bool × Reason)) (c : Chain)
    → Ends (record c { checks_count = c.checks_count + 1 }) (compare attr fn c)
unfolding compare
compare-Ends attr fn c = compare_files-Ends attr fn _ c.files
