-- ===== src/Explain/Nginx.antt =====
-- `NginxInfo`: what the strings of the nginx binary say of its build, and its DWARF entries. The
-- regular expressions are written out as functions on texts.
pub mod Modules
use mathlib.Core.List.{reverse}
use kong_coco.Prelude.{
  ℕ, zero, suc, ◌+◌, ◌-◌, Bool, true, false, Option, none, some, List, [], ◌∷◌, ◌++◌, ◌&&◌, ◌||◌,
}
use kong_coco.Prelude.{
  Text, codes, list_beq, list_eq, nat_eq, ◌==◌, starts_with, is_substring, contains, is_empty,
  text_lt, length, if◌then◌else◌,
}
use kong_coco.Prelude.Sorting.{sorted}
use kong_coco.Prelude.Spaces.{drop_spaces, strip}
use kong_coco.Prelude.Posix.{basename, dirname, join_path}
use kong_coco.Result.{Result, ok, err, index_error, key_error, ◌>>=◌}
use kong_coco.Utf8.Decoding.{decode_strict}
use kong_coco.Explain.Info.{ElfInfo, NginxInfo}
use kong_coco.Explain.Load.{Binary, Entry}

-- `re.match("\s*--prefix=/", s)`
unfoldable pub is_configure_line : Text → Bool
unfolding drop_spaces starts_with
is_configure_line s = starts_with (codes "--prefix=/") (drop_spaces s)

-- The text after a prefix, if it is one.
unfoldable pub after_prefix : Text → Text → Option Text
after_prefix [] s = some s
after_prefix (b ∷ p) [] = none
after_prefix (b ∷ p) (c ∷ s) = if b == c then after_prefix p s else none

-- `(.*?) `: up to the first space, on one line
unfoldable pub up_to_space : Text → Option Text
up_to_space [] = none
up_to_space (c ∷ s) =
    if c == b' '
    then some []
    else if c == 10
    then none
    else elim (up_to_space s) [ none ↦ none | some m ↦ some (c ∷ m) ]

-- `add(?:-dynamic)?-module=(.*?) ` at the start of a text: the group, and how much is matched.
named : ℕ → Option Text → Option (Text × ℕ)
unfolding up_to_space
named n none = none
named n (some rest) = elim (up_to_space rest) [ none ↦ none | some m ↦ some (m, n + length m + 1) ]

unfoldable pub module_at : Text → Option (Text × ℕ)
unfolding named after_prefix
module_at s = elim (after_prefix (codes "add-dynamic-module=") s) [
  | some rest ↦ named 19 (some rest)
  | none ↦ named 11 (after_prefix (codes "add-module=") s)
]

-- `re.findall` from left to right: the search goes on behind a match, so `skip` counts what is
-- left of the last one.
unfoldable pub find_modules : ℕ → Text → List Text
unfolding module_at
find_modules skip [] = []
find_modules (suc skip) (c ∷ s) = find_modules skip s
find_modules zero (c ∷ s) = elim (module_at (c ∷ s)) [
  | none ↦ find_modules zero s
  | some (m, n) ↦ m ∷ find_modules (n - 1) s
]

-- The name under which a module is listed, if it is.
unfoldable pub module_name : Text → List Text
unfolding starts_with basename dirname join_path
module_name m =
    let pdir = basename (dirname m) in
    if starts_with (codes "../") m
    then []
    else if pdir == codes "external" || pdir == codes "distribution"
    then basename m ∷ []
    else join_path pdir (basename m) ∷ []

unfoldable pub module_names : List Text → List Text
unfolding module_name
module_names [] = []
module_names (m ∷ ms) = module_name m ++ module_names ms

-- The longest text on this line that " (running with" follows.
longest : Text → Option Text
unfolding starts_with
longest [] = none
longest (c ∷ s) =
    let here = if starts_with (codes " (running with") (c ∷ s) then some [] else none in
    let more = longest s in
    if c == 10 then here else elim more [ none ↦ here | some g ↦ some (c ∷ g) ]

not_empty_longest : Text → Option Text
unfolding longest
not_empty_longest [] = none
not_empty_longest (c ∷ s) =
    if c == 10 then none else elim (longest s) [ none ↦ none | some g ↦ some (c ∷ g) ]

-- The group of `^built with (.+) \(running with`, stripped.
unfoldable pub built_with : Text → Option Text
unfolding after_prefix not_empty_longest strip
built_with s = elim (after_prefix (codes "built with ") s) [
  | none ↦ none
  | some rest ↦ elim (not_empty_longest rest) [ none ↦ none | some g ↦ some (strip g) ]
]

-- One string of the binary.
read_string : Text → NginxInfo → NginxInfo
unfolding is_configure_line find_modules module_names built_with
read_string s n =
    if is_configure_line s
    then record n {
      nginx_compile_flags = some s;
      nginx_modules = sorted text_lt (n.nginx_modules ++ module_names (find_modules zero s));
    }
    else elim (built_with s) [ none ↦ n | some v ↦ record n { nginx_compiled_openssl = some v } ]

unfoldable pub read_strings : List Text → NginxInfo → NginxInfo
unfolding read_string
read_strings [] n = n
read_strings (s ∷ ss) n = read_strings ss (read_string s n)

abbrev request_name : Text
request_name = codes "ngx_http_request_t"

-- `value and value == "ngx_http_request_t"` for some entry of the unit: the names are decoded up to
-- the one that is sought.
names_request : List (Option (List ℕ)) → Result Bool
unfolding decode_strict list_beq
names_request [] = ok false
names_request (none ∷ ds) = names_request ds
names_request (some name ∷ ds) =
    let rest = names_request ds in
    decode_strict name >>= λ value. if value == request_name then ok true else rest

-- The loop over the units: it looks into those whose first entry names ngx_http_request, and
-- ends where the type is found.
unfoldable pub find_request : List (List (Option (List ℕ))) → Result Bool
unfolding names_request is_substring decode_strict
find_request [] = ok false
find_request ([] ∷ units) = err index_error
find_request ((none ∷ ds) ∷ units) = err (key_error (codes "DW_AT_name"))
find_request ((some name ∷ ds) ∷ units) =
    let rest = find_request units in
    let inside = names_request (some name ∷ ds) >>= λ found. if found then ok true else rest in
    decode_strict name >>= λ first.
    if is_substring (codes "ngx_http_request") first then inside else rest

strings_of : Option Binary → List Text
strings_of none = []
strings_of (some b) = b.strings

-- `NginxInfo(path, relpath)`, for what it adds to the ELF attributes.
unfoldable pub nginx_info : Entry → ElfInfo → Result (Option NginxInfo)
unfolding find_request read_strings strings_of
nginx_info e i = if is_empty i.needed_libraries then ok none else (do
  found ← find_request e.dwarf.units
  ok (
      some (
        read_strings (strings_of e.binary) (record {
          nginx_modules = [];
          nginx_compiled_openssl = none;
          nginx_compile_flags = none;
          has_dwarf_info = e.dwarf.has_dwarf_info;
          has_request_dwarf = found;
        }))))
