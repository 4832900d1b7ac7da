-- ===== src/Tests/LoadTests.antt =====
-- Entries of a file system, and the theorems on loading and explaining them.
use kong_coco.Prelude.{
  contains, All, ◌≡◌, ◌↔◌, refl, true, false, Option, none, some, List, [], ◌∷◌, ◌++◌,
}
use kong_coco.Prelude.{Text, codes, list_eq, nat_eq, starts_with, list_beq, text_lt, insert}
use kong_coco.Prelude.Sorting.{sorted}
use kong_coco.Result.{Result, ok, err, attribute_error, decode_error}
use kong_coco.Explain.Info.{Info, elf, ElfInfo, NginxInfo, plain, nginx, base}
use kong_coco.Explain.Load.{
  Entry, Binary, Dynamic, needed, rpath, other, no_elf, elf_magic, file_info, elf_info,
}
use kong_coco.Explain.Load.Sections.{IsSorted, elf_info-IsSorted}
use kong_coco.Explain.Nginx.{nginx_info, find_modules, find_request}
use kong_coco.Explain.Nginx.Modules.{Within, find_modules-Within}
use kong_coco.Config.Transform.{wasm_rpath, transform}
use kong_coco.Config.Transform.Rewrites.{Transformed, transform-Transformed_iff}
use kong_coco.Explain.Lines.{ExplainOpts, explain}
use kong_coco.Explain.Lines.Missing.{explain-link_size, explain-nginx_no_libraries}
use kong_coco.Tests.Samples.{env, env-IsVersioned, glibc}

abbrev dynamic : List Dynamic
dynamic =
    record { tag = needed; name = codes "libc.so.6" }
    ∷ record { tag = rpath; name = codes "/old" }
    ∷ record { tag = needed; name = codes "libm.so.6" }
    ∷ record { tag = rpath; name = codes "/new" }
    ∷ record { tag = other; name = codes "libx.so" }
    ∷ []

abbrev binary : Binary
binary = record {
  machine_type = codes "AARCH64";
  dynamic_entries = dynamic;
  exported_symbols = codes "b" ∷ codes "a" ∷ [];
  imported_symbols = [];
  functions = codes "z" ∷ codes "b" ∷ [];
  symbols_version_requirement = (glibc, codes "GLIBC_2.4" ∷ codes "GLIBC_2.17" ∷ []) ∷ [];
  strings = [];
}

-- A file with some content, which may be a program.
abbrev pub entry : Text → Option Binary → Entry
entry content binary = record {
  symlink = none;
  is_dir = false;
  is_file = true;
  st_mode = 33188;
  st_uid = 0;
  st_gid = 0;
  st_size = 4;
  content = ok content;
  binary = binary;
  dwarf = record { has_dwarf_info = false; units = [] };
}

abbrev pub shared_object : Entry
shared_object = entry (elf_magic ++ codes "..") (some binary)

abbrev pub text_file : Entry
text_file = entry (codes "text") none

abbrev pub link_to : Text → Entry
link_to target = record text_file { symlink = some target }

abbrev pub quiet : ExplainOpts
quiet = record {
  owners = true;
  mode = true;
  size = false;
  arch = false;
  merge_rpaths_runpaths = false;
  imported_symbols = false;
  exported_symbols = false;
  version_requirement = false;
}

abbrev sized : ExplainOpts
sized = record quiet { size = true }

abbrev pub elf_of : Result ElfInfo → ElfInfo
elf_of (ok i) = i
elf_of (err e) = no_elf

loaded : Entry → Result ElfInfo
unfolding elf_info starts_with list_beq sorted text_lt insert
loaded e = elf_info env e

-- The loop over the RPATH entries keeps the last one.
loads_rpath : (elf_of (loaded shared_object)).rpath ≡ some (codes "/new")
unfolding loaded
loads_rpath = refl

sorts_functions :
    (elf_of (loaded shared_object)).symbols
    ≡ some (record {
      exported = codes "a" ∷ codes "b" ∷ [];
      imported = [];
      functions = codes "b" ∷ codes "z" ∷ [];
    })
unfolding loaded
sorts_functions = refl

elf_info-IsSorted_example : IsSorted env (elf_of (loaded shared_object))
unfolding loaded
elf_info-IsSorted_example = elf_info-IsSorted env env-IsVersioned shared_object refl

explain-link_size_example :
    explain sized (plain (file_info (codes "/tmp/x/l") (codes "/l") (link_to (codes "a.so"))))
    ≡ err (attribute_error (codes "size"))
unfolding base
explain-link_size_example =
    explain-link_size sized (codes "/tmp/x/l") (codes "/l") (link_to (codes "a.so"))
      (plain (file_info (codes "/tmp/x/l") (codes "/l") (link_to (codes "a.so")))) refl refl refl

explain-nginx_no_libraries_example :
    (n : Option NginxInfo) × (nginx_info text_file no_elf ≡ ok n)
    × (explain quiet
          (nginx (file_info (codes "/tmp/x/sbin/nginx") (codes "/sbin/nginx") text_file) no_elf n)
        ≡ err (attribute_error (codes "nginx_modules")))
explain-nginx_no_libraries_example =
    explain-nginx_no_libraries quiet (codes "/tmp/x/sbin/nginx") (codes "/sbin/nginx") text_file
      no_elf refl refl

-- A configure line with two modules.
abbrev configure_line : Text
configure_line =
    codes "--prefix=/usr --add-module=../lua-0.10 --add-dynamic-module=external/wasm --with-pcre"

finds_both : find_modules 0 configure_line ≡ codes "../lua-0.10" ∷ codes "external/wasm" ∷ []
unfolding find_modules
finds_both = refl

find_modules-Within_example : All (λ m. Within m configure_line) (find_modules 0 configure_line)
find_modules-Within_example = find_modules-Within configure_line 0

-- The wasm module with paths of its own around the expected ones.
abbrev linked_module : Option Text → Option Text → Info
linked_module first second =
    elf (file_info (codes "/tmp/x/modules/ngx_wasm_module.so") (codes "/m.so") shared_object)
      (record no_elf { rpath = first; runpath = second })

transform-Transformed_iff_example :
    transform env (linked_module (some (codes "/opt:" ++ wasm_rpath)) (some wasm_rpath))
      ≡ ok (linked_module (some wasm_rpath) (some wasm_rpath))
    ↔ Transformed env
        (linked_module (some (codes "/opt:" ++ wasm_rpath)) (some wasm_rpath))
        (linked_module (some wasm_rpath) (some wasm_rpath))
transform-Transformed_iff_example =
    transform-Transformed_iff env
      (linked_module (some (codes "/opt:" ++ wasm_rpath)) (some wasm_rpath))
      (linked_module (some wasm_rpath) (some wasm_rpath))

rewrites_rpath :
    transform env (linked_module (some (codes "/opt:" ++ wasm_rpath)) (some wasm_rpath))
    ≡ ok (linked_module (some wasm_rpath) (some wasm_rpath))
unfolding file_info base contains list_beq transform
rewrites_rpath = refl

rewrites_runpath :
    transform env (linked_module (some (codes "/opt")) (some (wasm_rpath ++ codes ":/opt")))
    ≡ ok (linked_module (some (codes "/opt")) (some wasm_rpath))
unfolding file_info base contains list_beq transform
rewrites_runpath = refl

-- A name that is no UTF-8 ends the search, if it stands before the one that is sought.
find_in_unit :
    find_request (
      (some (codes "ngx_http_request.c")
        ∷ none
        ∷ some (codes "ngx_http_request_t")
        ∷ some (0xFF ∷ [])
        ∷ [])
      ∷ [])
    ≡ ok true
unfolding find_request
find_in_unit = refl

find_malformed :
    find_request (
      (some (codes "ngx_http_request.c")
        ∷ some (0xFF ∷ [])
        ∷ some (codes "ngx_http_request_t")
        ∷ [])
      ∷ [])
    ≡ err decode_error
unfolding find_request
find_malformed = refl
