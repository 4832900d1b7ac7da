-- ===== src/Tests/Samples.antt =====
-- A small package, and functions in the place of what the program calls.
use kong_coco.Prelude.{◌++◌, false, none, some, List, [], ◌∷◌, Text, codes, list_eq, nat_eq}
use kong_coco.Prelude.{contains, is_substring, text_lt, list_beq}
use kong_coco.Prelude.TextOrder.{text_lt-IsOrder}
use kong_coco.Result.{ok}
use kong_coco.Env.{Env, IsVersioned}
use kong_coco.Explain.Info.{FileInfo, Info, elf, plain}

abbrev pub env : Env
env = record {
  glob_match = λ path globs. contains path globs;
  search = is_substring;
  version_lt = text_lt;
  version_eq = list_beq;
  close_match = λ word words. none;
  letter_close = λ names c. false;
  best_letter = λ c letters. c;
  same_manifest = list_beq;
}

pub env-IsVersioned : IsVersioned env
env-IsVersioned = record { version_order = text_lt-IsOrder }

abbrev pub file : Text → FileInfo
file path = record {
  path = codes "/tmp/x" ++ path;
  relpath = path;
  link = none;
  directory = false;
  mode = 33188;
  uid = 1000;
  gid = 0;
  size = some 3;
  content = ok (codes "abc");
}

-- A shared library with requirements on two libraries.
abbrev pub library : Text → List (Text × List Text) → Info
library path versions = elf (file path) (record {
  arch = some (codes "X86_64");
  needed_libraries = codes "libc.so.6" ∷ codes "libm.so.6" ∷ [];
  rpath = none;
  runpath = some (codes "/usr/local/kong/lib");
  symbols = some (record { exported = codes "f" ∷ []; imported = []; functions = codes "f" ∷ [] });
  version_requirement = versions;
})

abbrev pub glibc : Text
glibc = codes "libc.so.6"

-- Its newest requirement is above 2.17, and its oldest is not.
abbrev pub new_library : Info
new_library = library (codes "/a.so") ((glibc, codes "GLIBC_2.10" ∷ codes "GLIBC_2.34" ∷ []) ∷ [])

abbrev pub keyless_library : Info
keyless_library = library (codes "/k.so") []

abbrev pub plain_file : Info
plain_file = plain (file (codes "/etc/kong.conf"))

abbrev pub infos : List Info
infos = keyless_library ∷ new_library ∷ plain_file ∷ []

abbrev pub both : List Text
both = codes "k.so" ∷ codes "/a.so" ∷ []
