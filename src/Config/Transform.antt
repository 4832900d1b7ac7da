-- ===== src/Config/Transform.antt =====
-- `transform`: libraries whose build adds rpaths of its own are shown with the expected one only.
pub mod Settles
pub mod Rewrites
use kong_coco.Prelude.{Bool, false, Option, none, some, List, [], ◌∷◌}
use kong_coco.Prelude.{Text, codes, list_eq, nat_eq, ends_with, is_substring, if◌then◌else◌}
use kong_coco.Result.{Result, ok, err, attribute_error, ◌>>=◌}
use kong_coco.Env.{Env}
use kong_coco.Explain.Info.{ElfInfo, Info, plain, elf, nginx, base}

-- `expected_rpath in f.rpath` where there is one
unfoldable pub mentions : Text → Option Text → Bool
unfolding is_substring
mentions expected none = false
mentions expected (some r) = is_substring expected r

-- An RPATH that mentions the expected one becomes it; else a RUNPATH does.
unfoldable pub normalize : Text → ElfInfo → ElfInfo
unfolding mentions
normalize expected e =
    if mentions expected e.rpath
    then record e { rpath = some expected }
    else if mentions expected e.runpath
    then record e { runpath = some expected }
    else e

-- What reads and sets the two attributes. A plain file has neither of them.
unfoldable pub on_elf : (ElfInfo → ElfInfo) → Info → Result Info
on_elf g (plain f) = err (attribute_error (codes "rpath"))
on_elf g (elf f e) = ok (elf f (g e))
on_elf g (nginx f e n) = ok (nginx f (g e) n)

-- One of the two blocks, under its test.
unfoldable pub change : Bool → Text → Info → Result Info
unfolding on_elf normalize
change applies expected i = if applies then on_elf (normalize expected) i else ok i

abbrev pub kong_rpath : Text
kong_rpath = codes "/usr/local/kong/lib"

abbrev pub wasm_rpath : Text
wasm_rpath = codes "/usr/local/openresty/luajit/lib:/usr/local/kong/lib:/usr/local/openresty/lualib"

abbrev pub libxslt_globs : List Text
libxslt_globs = codes "**/kong/lib/libxslt.so*" ∷ codes "**/kong/lib/libexslt.so*" ∷ []

module _ (env : Env) where
  -- `transform(f)`
  unfoldable pub transform : Info → Result Info
  unfolding change ends_with base
  transform i =
      let path = (base i).path in
      change (env.glob_match path libxslt_globs) kong_rpath i
      >>= change (ends_with (codes "/modules/ngx_wasm_module.so") path) wasm_rpath
