-- ===== src/Expect/Chain.antt =====
-- The public methods of `ExpectChain`, and `__getattr__`, which makes attributes and verbs of names.
pub mod Accesses
pub mod Names
use kong_coco.Prelude.{Bool, true, false, Option, none, some, List, [], ◌∷◌, Text, codes, not}
use kong_coco.Prelude.{list_eq, nat_eq, ◌==◌, ◌&&◌, ◌||◌, contains, keep, map, if◌then◌else◌}
use kong_coco.Result.{Result, ok, err, type_error, attribute_error, recursion_error, ◌>>=◌}
use kong_coco.Env.{Env}
use kong_coco.Explain.Value.{Value, Literal}
use kong_coco.Explain.Info.{Info, relpath_of}
use kong_coco.Explain.Attributes.{attribute, has}
use kong_coco.Expect.State.{Chain, Reason, reset, print_title, print_error, print_result}
use kong_coco.Expect.State.{no_attribute, absent_attribute}
use kong_coco.Expect.Operators.{equal, match, is_less_than, is_greater_than, contain, contain_match}
use kong_coco.Expect.Compare.{compare}

-- `s[1:]` where `s` starts with a slash
unfoldable pub drop_slash : Text → Text
drop_slash [] = []
drop_slash (c ∷ s) = if c == b'/' then s else c ∷ s

-- `self.verbs`
abbrev pub verbs : List Text
verbs =
    codes "does_not"
    ∷ codes "equal"
    ∷ codes "match"
    ∷ codes "contain"
    ∷ codes "contain_match"
    ∷ codes "less_than"
    ∷ codes "greater_than"
    ∷ []

-- The group of `^(.*?)(?:s|es)?$`: the shortest text that an optional `s` or `es` completes.
unfoldable pub verb_of : Text → Text
verb_of [] = []
verb_of (c ∷ s) =
    let rest = verb_of s in if (c ∷ s == codes "s") || (c ∷ s == codes "es") then [] else c ∷ rest

-- The name that is looked up in place of `rpath` or `runpath`.
unfoldable pub rpath_name : Bool → Text → Text
rpath_name use_rpath name =
    if use_rpath && (name == codes "runpath")
    then codes "rpath"
    else if not use_rpath && (name == codes "rpath")
    then codes "runpath"
    else name

-- What `__getattr__` returns: the chain itself, `dummy_call`, or a verb that waits for its argument.
pub data Access : Type 0 where
  self : Chain → Access
  dummy_call : Chain → Access
  bound : Text → Text → Chain → Access

-- An attribute, under the current suite's `use_rpath`. Without a current suite, reading
-- `_current_suite` calls `__getattr__` again, without end.
unfoldable pub set_attribute : Text → Chain → Option Bool → Result Access
unfolding rpath_name
set_attribute name c none = err recursion_error
set_attribute name c (some use_rpath) = ok (
    self (record c {
      last_attribute = some (rpath_name use_rpath name);
      logical_reverse = false;
      key_name = none;
    }))

-- The first file that lacks the attribute.
unfoldable pub first_absent : Text → List Info → Result (Option Info)
first_absent attr [] = ok none
first_absent attr (f ∷ fs) =
    let rest = first_absent attr fs in
    has (attribute attr f) >>= λ present. if present then rest else ok (some f)

unfoldable pub bind_verb : Text → Text → Text → Chain → Option Info → Result Access
unfolding relpath_of
bind_verb name verb attr c none = ok (bound verb attr c)
bind_verb name verb attr c (some f) =
    ok (dummy_call (print_error (absent_attribute name attr (relpath_of f)) c))

-- A verb, with the attribute that was read last.
unfoldable pub access_verb : Text → Text → Chain → Option Text → Result Access
unfolding bind_verb first_absent
access_verb name verb c none = ok (dummy_call (print_error (no_attribute name) c))
access_verb name verb c (some []) = ok (dummy_call (print_error (no_attribute name) c))
access_verb name verb c (some (b ∷ attr)) =
    first_absent (b ∷ attr) c.files >>= bind_verb name verb (b ∷ attr) c

-- `__getattr__(self, name)`
unfoldable pub getattr : Text → Chain → Result Access
unfolding verb_of set_attribute access_verb
getattr name c =
    let verb = verb_of name in
    if contains verb verbs
    then access_verb name verb c c.last_attribute
    else set_attribute name c c.suite

-- What `__getattr__` returned, with a method of the chain called on it: only the chain has those.
unfoldable pub then_self : Access → Result Chain
then_self (self c) = ok c
then_self (dummy_call c) = err (attribute_error [])
then_self (bound verb attr c) = err (attribute_error [])

module _ (env : Env) where
  -- `glob_match_ignore_slash`
  unfoldable pub glob_match_ignore_slash : Text → List Text → Bool
  unfolding drop_slash
  glob_match_ignore_slash path globs = env.glob_match (drop_slash path) (map drop_slash globs)

  -- The method `"_%s" % verb`, by what it computes on a value. There is no `_does_not`.
  unfoldable pub verb_method : Text → Text → Literal → Option (Value → Result (Bool × Reason))
  verb_method verb attr expect =
      if verb == codes "equal"
      then some (equal expect)
      else if verb == codes "match"
      then some (match env expect)
      else if verb == codes "less_than"
      then some (is_less_than env expect)
      else if verb == codes "greater_than"
      then some (is_greater_than env expect)
      else if verb == codes "contain"
      then some (contain env attr expect)
      else if verb == codes "contain_match"
      then some (contain_match env attr expect)
      else none

  -- Every verb calls `_compare`, and drops what it returns. A name with no method is taken for an
  -- attribute, and the chain that this gives cannot be called.
  unfoldable pub run_method : Text → Chain → Option (Value → Result (Bool × Reason)) → Result Chain
  run_method attr c none = err type_error
  run_method attr c (some fn) = compare attr fn c >>= λ (_, c'). ok c'

  -- What `__getattr__` returned, called with one argument.
  unfoldable pub call : Access → Literal → Result Chain
  call (self c) expect = err type_error
  call (dummy_call c) expect = ok c
  call (bound verb attr c) expect = run_method attr c (verb_method verb attr expect)

  -- `expect(path_glob, msg)`
  unfoldable pub expect : List Text → Text → Chain → Chain
  unfolding glob_match_ignore_slash reset relpath_of print_result print_title
  expect path_glob msg c =
      let c' = print_title (record (reset (print_result c)) { msg = msg }) in
      record c' {
        path_glob = path_glob;
        files = keep (λ f. glob_match_ignore_slash (relpath_of f) path_glob) c'.infos;
      }

-- `do_not()`, and `does_not()` and `is_not()`, which call it
unfoldable pub do_not : Chain → Chain
do_not c = record c { logical_reverse = true }

-- `key(key)`
unfoldable pub key : Text → Chain → Chain
key name c = record c { key_name = some name }
