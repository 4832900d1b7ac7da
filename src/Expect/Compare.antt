-- ===== src/Expect/Compare.antt =====
-- `_compare` and `_exist`: one check over the files of the current test.
use kong_coco.Prelude.{◌+◌, Bool, true, false, Option, none, some, List, [], ◌∷◌, Text, not}
pub mod Outcome
pub mod Verdict
pub mod Exact
pub mod Keyless
use kong_coco.Prelude.{list_eq, nat_eq, lookup, length, is_empty, if◌then◌else◌}
use kong_coco.Result.{Result, ok, ◌>>=◌}
use kong_coco.Explain.Value.{Value, list, dict}
use kong_coco.Explain.Info.{Info, relpath_of}
use kong_coco.Explain.Attributes.{attribute, has}
use kong_coco.Expect.State.{Chain, Reason, fail_file, fail_exist, print_fail}

-- What the loop makes of an attribute's value under `_key_name`: `none` where a key is set and
-- the value is a dict that lacks it.
unfoldable pub select : Option Text → Value → Option Value
select (some (c ∷ key)) (dict d) = elim (lookup (c ∷ key) d) [
  | none ↦ none
  | some l ↦ some (list l)
]
select _ v = some v

-- `bool == bool`
unfoldable pub same : Bool → Bool → Bool
same true b = b
same false b = not b

-- The end of the loop's body for one file: `rest` is what the other files give.
unfoldable pub judge :
    Text → Info → Value → Chain → Result (Bool × Chain) → Bool × Reason → Result (Bool × Chain)
unfolding same relpath_of
judge attr f v c rest (good, reason) =
    if same good c.logical_reverse
    then ok (false, print_fail (fail_file (relpath_of f) attr v reason c.logical_reverse) c)
    else rest

unfoldable pub judge_value :
    Text
    → (Value → Result (Bool × Reason))
    → Info
    → Chain
    → Result (Bool × Chain)
    → Option Value
    → Result (Bool × Chain)
unfolding judge
judge_value attr fn f c rest none = ok (true, c)
judge_value attr fn f c rest (some v) = fn v >>= judge attr f v c rest

unfoldable pub judge_file :
    Text
    → (Value → Result (Bool × Reason))
    → Info
    → Chain
    → Result (Bool × Chain)
    → Bool
    → Result (Bool × Chain)
unfolding judge_value select
judge_file attr fn f c rest false = rest
judge_file attr fn f c rest true =
    attribute attr f >>= λ v. judge_value attr fn f c rest (select c.key_name v)

-- The loop of `_compare`. A file without the attribute is passed over, one without the key ends
-- the loop, and so does the first failure.
unfoldable pub compare_files :
    Text → (Value → Result (Bool × Reason)) → List Info → Chain → Result (Bool × Chain)
unfolding judge_file
compare_files attr fn [] c = ok (true, c)
compare_files attr fn (f ∷ fs) c =
    let rest = compare_files attr fn fs c in has (attribute attr f) >>= judge_file attr fn f c rest

-- `_compare`
unfoldable pub compare : Text → (Value → Result (Bool × Reason)) → Chain → Result (Bool × Chain)
unfolding compare_files
compare attr fn c = compare_files attr fn c.files (record c { checks_count = c.checks_count + 1 })

-- `_exist`
unfoldable pub exist : Chain → Chain
unfolding same
exist c =
    let c' = record c { checks_count = c.checks_count + 1 } in
    if same (not (is_empty c.files)) c.logical_reverse
    then print_fail (fail_exist (length c.files) c.path_glob) c'
    else c'
