-- ===== src/Explain/Attributes.antt =====
-- Attribute access on a file by name: the instance dictionary, then `__getattr__` with its lazily
-- evaluated attributes and their cache.
pub mod Caching
use kong_coco.Prelude.{Bool, true, false, Option, none, some, List, [], ◌∷◌, ◌++◌, map}
use kong_coco.Prelude.{Text, codes, list_eq, nat_eq, lookup, insert, if◌then◌else◌}
use kong_coco.Utf8.Decoding.{decode_strict}
use kong_coco.Result.{Result, ok, err, attribute_error, ◌>>=◌}
use kong_coco.Explain.Value.{text, version, Value, none_value, bool, int, str, bytes, list}
use kong_coco.Explain.Value.{dict, function, truthy}
use kong_coco.Explain.Info.{FileInfo, Symbols, ElfInfo, NginxInfo, Info, plain, elf, nginx}

abbrev pub Dict : Type 0
Dict = List (Text × Value)

-- An object as `__getattr__` sees it: `__dict__`, `_lazy_evaluate_attrs` (each closure by its
-- result) and `_lazy_evaluate_cache`.
pub record Object : Type 0 where
  pub attrs : Dict
  pub lazy_evaluate_attrs : List (Text × Result Value)
  pub lazy_evaluate_cache : Dict

texts : List Text → Value
texts names = list (map text names)

-- `hasattr`-style: an attribute that is set only if there is a value
abbrev optional : Text → Option Value → Dict
optional name none = []
optional name (some v) = (name, v) ∷ []

or_none : Option Text → Value
or_none none = none_value
or_none (some s) = str s

abbrev option_map {ℓ κ} : {A : Type ℓ} {B : Type κ} → (A → B) → Option A → Option B
option_map f none = none
option_map f (some a) = some (f a)

-- The public attributes: the two private dictionaries are the other fields of `Object`.
file_attrs : FileInfo → Dict
unfolding or_none
file_attrs f =
    (codes "path", str f.path)
    ∷ (codes "relpath", str f.relpath)
    ∷ (codes "mode", int f.mode)
    ∷ (codes "uid", int f.uid)
    ∷ (codes "gid", int f.gid)
    ∷ (optional (codes "link") (option_map str f.link)
        ++ ((if f.directory then (codes "directory", bool true) ∷ [] else [])
            ++ optional (codes "size") (option_map int f.size)))

closure : Option Symbols → Value
closure none = none_value
closure (some _) = function

elf_attrs : ElfInfo → Dict
unfolding or_none texts closure
elf_attrs e =
    (codes "arch", or_none e.arch)
    ∷ (codes "needed_libraries", texts e.needed_libraries)
    ∷ (codes "rpath", or_none e.rpath)
    ∷ (codes "runpath", or_none e.runpath)
    ∷ (codes "get_exported_symbols", closure e.symbols)
    ∷ (codes "get_imported_symbols", closure e.symbols)
    ∷ (
      codes "version_requirement",
      dict (map (λ (name, vs). (name, map version vs)) e.version_requirement),
    )
    ∷ optional (codes "get_functions") (option_map (λ _. function) e.symbols)

nginx_attrs : Option NginxInfo → Dict
unfolding or_none texts
nginx_attrs none = []
nginx_attrs (some n) =
    (codes "nginx_modules", texts n.nginx_modules)
    ∷ (codes "nginx_compiled_openssl", or_none n.nginx_compiled_openssl)
    ∷ (codes "nginx_compile_flags", or_none n.nginx_compile_flags)
    ∷ (codes "has_dwarf_info", bool n.has_dwarf_info)
    ∷ (codes "has_ngx_http_request_t_DW", bool n.has_request_dwarf)
    ∷ []

file_lazy : FileInfo → List (Text × Result Value)
unfolding decode_strict
file_lazy f =
    (codes "binary_content", f.content >>= λ s. ok (bytes s))
    ∷ (codes "text_content", f.content >>= decode_strict >>= λ s. ok (str s))
    ∷ []

elf_lazy : ElfInfo → List (Text × Result Value)
unfolding texts
elf_lazy e = elim e.symbols [
  | none ↦ []
  | some s ↦
      (codes "exported_symbols", ok (texts s.exported))
      ∷ (codes "imported_symbols", ok (texts s.imported))
      ∷ (codes "functions", ok (texts s.functions))
      ∷ []
]

-- A file's object as its constructor leaves it.
unfoldable pub object : Info → Object
unfolding file_attrs elf_attrs nginx_attrs file_lazy elf_lazy
object (plain f) = record {
  attrs = file_attrs f;
  lazy_evaluate_attrs = file_lazy f;
  lazy_evaluate_cache = [];
}
object (elf f e) = record {
  attrs = file_attrs f ++ elf_attrs e;
  lazy_evaluate_attrs = file_lazy f ++ elf_lazy e;
  lazy_evaluate_cache = [];
}
object (nginx f e n) = record {
  attrs = file_attrs f ++ (elf_attrs e ++ nginx_attrs n);
  lazy_evaluate_attrs = file_lazy f ++ elf_lazy e;
  lazy_evaluate_cache = [];
}

-- `__getattr__`, called where `__dict__` lacks the name. A value that is not true, such as an
-- empty text, is neither cached nor returned.
unfoldable pub getattr_missing : Text → Object → Result Value × Object
getattr_missing name o = elim (lookup name o.lazy_evaluate_cache) [
  | some v ↦ (ok v, o)
  | none ↦ elim (lookup name o.lazy_evaluate_attrs) [
    | none ↦ (err (attribute_error name), o)
    | some (err e) ↦ (err e, o)
    | some (ok v) ↦
        if truthy v
        then (ok v, record o { lazy_evaluate_cache = insert name v o.lazy_evaluate_cache })
        else (err (attribute_error name), o)
  ]
]

-- `getattr(f, name)`
unfoldable pub getattr : Text → Object → Result Value × Object
unfolding getattr_missing
getattr name o = elim (lookup name o.attrs) [ some v ↦ (ok v, o) | none ↦ getattr_missing name o ]

-- The value of an attribute of a file on which nothing was read yet.
unfoldable pub attribute : Text → Info → Result Value
unfolding getattr object
attribute name i = (getattr name (object i)).0

-- `hasattr`: of the exceptions, only an AttributeError is an answer.
unfoldable pub has : Result Value → Result Bool
has (ok v) = ok true
has (err (attribute_error _)) = ok false
has (err e) = err e
