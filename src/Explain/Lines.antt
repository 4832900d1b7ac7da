-- ===== src/Explain/Lines.antt =====
-- `explain`: the entries that the manifest shows of a file.
pub mod Missing
use kong_coco.Prelude.{
  ℕ, Bool, true, false, Option, none, some, List, [], ◌∷◌, ◌++◌, map, ◌&&◌, not,
}
use kong_coco.Prelude.{Text, codes, list_eq, nat_eq, lookup, join, text_lt, is_empty, if◌then◌else◌}
use kong_coco.Prelude.Sorting.{sorted}
use kong_coco.Prelude.Digits.{show, oct}
use kong_coco.Result.{Result, ok, err, attribute_error, ◌>>=◌}
use kong_coco.Explain.Info.{FileInfo, Symbols, ElfInfo, NginxInfo, Info, plain, elf, nginx}

-- `ExplainOpts`
pub record ExplainOpts : Type 0 where
  pub owners : Bool
  pub mode : Bool
  pub size : Bool
  pub arch : Bool
  pub merge_rpaths_runpaths : Bool
  pub imported_symbols : Bool
  pub exported_symbols : Bool
  pub version_requirement : Bool

-- The value of an entry, as `%s` would print it, or a list of texts.
pub data Shown : Type 0 where
  one : Text → Shown
  many : List Text → Shown

abbrev pub Lines : Type 0
Lines = List (Text × Shown)

-- Entries that are appended under a test.
abbrev pub when : Bool → Lines → Lines
when true l = l
when false l = []

-- An attribute that is shown only where it is true: not `None`, and not empty.
unfoldable pub shown_text : Text → Option Text → Lines
shown_text key none = []
shown_text key (some []) = []
shown_text key (some (c ∷ s)) = (key, one (c ∷ s)) ∷ []

shown_list : Text → List Text → Lines
shown_list key [] = []
shown_list key (s ∷ ss) = (key, many (s ∷ ss)) ∷ []

type_lines : Option Text → Bool → Lines
type_lines (some target) directory =
    (codes "Link", one target) ∷ (codes "Type", one (codes "link")) ∷ []
type_lines none true = (codes "Type", one (codes "directory")) ∷ []
type_lines none false = []

-- `self.size`, which a symbolic link does not have
size_lines : Bool → Option ℕ → Result Lines
size_lines false size = ok []
size_lines true none = err (attribute_error (codes "size"))
size_lines true (some n) = ok ((codes "Size", one (show n)) ∷ [])

-- `FileInfo.explain`
unfoldable pub explain_file : ExplainOpts → FileInfo → Result Lines
unfolding type_lines size_lines show oct
explain_file opts f = size_lines opts.size f.size >>= λ size. ok (
    (codes "Path", one f.relpath)
    ∷ (type_lines f.link f.directory
        ++ (when opts.owners
              ((codes "Uid,Gid", one (show f.uid ++ (codes ", " ++ show f.gid))) ∷ [])
            ++ (when opts.mode ((codes "Mode", one (oct f.mode)) ∷ []) ++ size))))

exported_of : Option Symbols → Lines
exported_of none = []
exported_of (some s) = (codes "Exported", many s.exported) ∷ []

imported_of : Option Symbols → Lines
imported_of none = []
imported_of (some s) = (codes "Imported", many s.imported) ∷ []

requirement : List (Text × List Text) → Text → List Text
requirement d k = elim (lookup k d) [
  | none ↦ []
  | some versions ↦ (k ++ (codes ": " ++ join (codes ", ") versions)) ∷ []
]

requirements : List (Text × List Text) → List Text → List Text
unfolding requirement
requirements d [] = []
requirements d (k ∷ ks) = requirement d k ++ requirements d ks

requirement_lines : List (Text × List Text) → Lines
unfolding requirements
requirement_lines [] = []
requirement_lines (r ∷ d) =
    (
      codes "Version Requirement",
      many (requirements (r ∷ d) (sorted text_lt (map (λ (k, _). k) (r ∷ d)))),
    )
    ∷ []

-- What `ElfFileInfo.explain` adds
unfoldable pub elf_lines : ExplainOpts → ElfInfo → Lines
unfolding shown_text shown_list exported_of imported_of requirement_lines
elf_lines opts e =
    when opts.arch (shown_text (codes "Arch") e.arch)
    ++ (shown_list (codes "Needed") e.needed_libraries
        ++ (shown_text (codes "Rpath") e.rpath
            ++ (shown_text (codes "Runpath") e.runpath
                ++ (when opts.exported_symbols (exported_of e.symbols)
                    ++ (when opts.imported_symbols (imported_of e.symbols)
                        ++ when opts.version_requirement
                            (requirement_lines e.version_requirement))))))

show_bool : Bool → Text
show_bool true = codes "True"
show_bool false = codes "False"

show_optional : Option Text → Text
show_optional none = codes "None"
show_optional (some s) = s

-- What `NginxInfo.explain` adds. An object that was not parsed lacks the attributes.
unfoldable pub nginx_lines : Option NginxInfo → Result Lines
unfolding show_bool show_optional
nginx_lines none = err (attribute_error (codes "nginx_modules"))
nginx_lines (some n) = ok (
    (codes "Modules", many n.nginx_modules)
    ∷ (codes "OpenSSL", one (show_optional n.nginx_compiled_openssl))
    ∷ (codes "DWARF", one (show_bool n.has_dwarf_info))
    ∷ (codes "DWARF - ngx_http_request_t related DWARF DIEs", one (show_bool n.has_request_dwarf))
    ∷ [])

-- `explain(opts)`
unfoldable pub explain : ExplainOpts → Info → Result Lines
unfolding explain_file elf_lines nginx_lines
explain opts (plain f) = explain_file opts f
explain opts (elf f e) = explain_file opts f >>= λ pline. ok (pline ++ elf_lines opts e)
explain opts (nginx f e n) = do
  pline ← explain_file opts f
  lines ← nginx_lines n
  ok (pline ++ (elf_lines opts e ++ lines))
