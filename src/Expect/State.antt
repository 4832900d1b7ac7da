-- ===== src/Expect/State.antt =====
-- `ExpectChain`'s state, what it prints, and the methods that only print or reset.
use kong_coco.Prelude.{ℕ, ◌+◌, Bool, true, false, Option, none, some, List, [], ◌∷◌, ◌++◌}
use kong_coco.Prelude.{Text, length, if◌then◌else◌, nat_beq}
use kong_coco.Explain.Value.{Value, Literal}
use kong_coco.Explain.Info.{Info}

pub data Color : Type 0 where
  red green yellow white : Color

-- `term_colors`
unfoldable pub term_colors : Color → ℕ
term_colors red = 31
term_colors green = 32
term_colors yellow = 33
term_colors white = 37

-- The templates that the verbs give for a failure. `{NOT}` is filled by `fail_file`.
pub data Reason : Type 0 where
  equal_to : Literal → Reason
  matches : Literal → Reason
  less_than : Literal → Reason
  greater_than : Literal → Reason
  found_in_list : Literal → Option Text → Reason
  is_empty_list : Text → Reason
  is_not_a_list : Text → Reason

-- What is recorded as a failure, without the file and line of the suite that leads it.
pub data Failure : Type 0 where
  fail_file : Text → Text → Value → Reason → Bool → Failure
  fail_exist : ℕ → List Text → Failure
  fail_manifest : Failure

pub data Message : Type 0 where
  start_block finish_block : Text → Text → Message
  title : Text → Message
  failed : Failure → Message
  checks_passed : ℕ → ℕ → Message
  checks_failed : ℕ → ℕ → ℕ → Message
  no_attribute : Text → Message
  absent_attribute : Text → Text → Text → Message
  all_failed : List Failure → Message

-- What goes to the terminal: escape codes and lines.
pub data Output : Type 0 where
  set_color : ℕ → Output
  reset_color : Output
  line : Message → Output

-- `ExpectSuite`, over the type of its test functions.
pub record ExpectSuite (Test : Type 0) : Type 0 where
  pub name : Text
  pub manifest : Option Text
  pub use_rpath : Bool
  pub tests : List Test

-- `suite` is the `use_rpath` of the current suite. It and the glob are unset in a new chain: `none`
-- and `[]` here. No check reads the glob unset, since a test function gets the chain from `expect`,
-- which sets it.
pub record Chain : Type 0 where
  pub infos : List Info
  pub all_failures : List Failure
  pub logical_reverse : Bool
  pub files : List Info
  pub msg : Text
  pub title_shown : Bool
  pub checks_count : ℕ
  pub failures_count : ℕ
  pub last_attribute : Option Text
  pub key_name : Option Text
  pub path_glob : List Text
  pub suite : Option Bool
  pub output : List Output

-- `_reset`
unfoldable pub reset : Chain → Chain
reset c = record c {
  logical_reverse = false;
  files = [];
  msg = [];
  title_shown = false;
  checks_count = 0;
  failures_count = 0;
  last_attribute = none;
}

-- `ExpectChain(infos)`
unfoldable pub new : List Info → Chain
unfolding reset
new infos = reset (record {
  infos = infos;
  all_failures = [];
  logical_reverse = false;
  files = [];
  msg = [];
  title_shown = false;
  checks_count = 0;
  failures_count = 0;
  last_attribute = none;
  key_name = none;
  path_glob = [];
  suite = none;
  output = [];
})

emit : Output → Chain → Chain
emit o c = record c { output = c.output ++ o ∷ [] }

-- `_log`, without the time
unfoldable pub log : Message → Chain → Chain
unfolding emit
log m c = emit (line m) c

-- `write_color`, over the method that it wraps
unfoldable pub write_color : Color → (Chain → Chain) → Chain → Chain
unfolding emit term_colors
write_color color fn c = emit reset_color (fn (emit (set_color (term_colors color)) c))

unfoldable pub print_title : Chain → Chain
unfolding write_color log
print_title =
    write_color white
      (λ c. if c.title_shown then c else record (log (title c.msg) c) { title_shown = true })

unfoldable pub print_fail : Failure → Chain → Chain
unfolding write_color log
print_fail m = write_color red (λ c. record (log (failed m) c) {
  all_failures = c.all_failures ++ m ∷ [];
  failures_count = c.failures_count + 1;
})

unfoldable pub print_ok : Message → Chain → Chain
unfolding write_color log
print_ok m = write_color green (log m)

unfoldable pub print_error : Message → Chain → Chain
unfolding write_color log
print_error m = write_color yellow (log m)

unfoldable pub print_result : Chain → Chain
unfolding print_ok print_error
print_result c =
    if nat_beq c.checks_count 0
    then c
    else if nat_beq c.failures_count 0
    then print_ok (checks_passed c.checks_count (length c.files)) c
    else print_error (checks_failed c.failures_count c.checks_count (length c.files)) c

-- `os._exit` ends the process at once, so the color is not reset.
exit_if : List Failure → Chain → Chain × Option ℕ
unfolding print_error
exit_if [] c = (emit reset_color c, none)
exit_if (m ∷ ms) c = (print_error (all_failed (m ∷ ms)) c, some 1)

-- `_print_all_fails`, which runs at exit, in red: `some 1` where it calls `os._exit(1)`.
unfoldable pub print_all_fails : Chain → Chain × Option ℕ
unfolding print_result exit_if emit term_colors
print_all_fails c =
    let c' = print_result (emit (set_color (term_colors red)) c) in exit_if c'.all_failures c'
