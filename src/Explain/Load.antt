-- ===== src/Explain/Load.antt =====
-- The constructors of explain.py: from what the file system, lief and pyelftools say of a file
-- to its object.
pub mod Sections
use kong_coco.Prelude.{ℕ, ◌≤◌, Bool, true, false, Option, none, some, List, [], ◌∷◌, ◌++◌, map, not}
use kong_coco.Prelude.{
  Text, codes, list_eq, nat_eq, ◌==◌, starts_with, insert, is_empty, text_lt, if◌then◌else◌,
}
use kong_coco.Prelude.Sorting.{sorted}
use kong_coco.Result.{Result, ok, err, ◌>>=◌}
use kong_coco.Env.{Env}
use kong_coco.Explain.Info.{FileInfo, Symbols, ElfInfo, NginxInfo, Info, plain, elf, nginx}

-- An entry of the dynamic section, by its tag.
pub data Tag : Type 0 where
  needed rpath runpath other : Tag

pub record Dynamic : Type 0 where
  pub tag : Tag
  pub name : Text

-- What `lief.parse` returns for a file that it takes for a binary.
pub record Binary : Type 0 where
  pub machine_type : Text
  pub dynamic_entries : List Dynamic
  pub exported_symbols : List Text
  pub imported_symbols : List Text
  pub functions : List Text
  pub symbols_version_requirement : List (Text × List Text)
  pub strings : List Text

-- What pyelftools reads: for each compilation unit, the `DW_AT_name` of its entries, as bytes.
pub record Dwarf : Type 0 where
  pub has_dwarf_info : Bool
  pub units : List (List (Option (List ℕ)))

-- A path of the file system. `symlink` is the target of a symbolic link; `is_dir`, `is_file`,
-- `st_size` and the content are of what the path leads to, the other fields of the path itself.
pub record Entry : Type 0 where
  pub symlink : Option Text
  pub is_dir : Bool
  pub is_file : Bool
  pub st_mode : ℕ
  pub st_uid : ℕ
  pub st_gid : ℕ
  pub st_size : ℕ
  pub content : Result Text
  pub binary : Option Binary
  pub dwarf : Dwarf

abbrev pub is_none : Option Text → Bool
is_none none = true
is_none (some _) = false

-- `FileInfo(path, relpath)`
unfoldable pub file_info : Text → Text → Entry → FileInfo
file_info path relpath e = record {
  path = path;
  relpath = relpath;
  link = e.symlink;
  directory = if is_none e.symlink then e.is_dir else false;
  mode = e.st_mode;
  uid = e.st_uid;
  gid = e.st_gid;
  size = if is_none e.symlink then some e.st_size else none;
  content = e.content;
}

-- The attributes of an `ElfFileInfo` before the file is parsed.
abbrev pub no_elf : ElfInfo
no_elf = record {
  arch = none;
  needed_libraries = [];
  rpath = none;
  runpath = none;
  symbols = none;
  version_requirement = [];
}

-- `b"\x7fELF"`
abbrev pub elf_magic : Text
elf_magic = 0x7f ∷ codes "ELF"

add_tag : Tag → Text → ElfInfo → ElfInfo
add_tag needed name i = record i { needed_libraries = i.needed_libraries ++ name ∷ [] }
add_tag rpath name i = record i { rpath = some name }
add_tag runpath name i = record i { runpath = some name }
add_tag other name i = i

-- The loop over the dynamic entries: the last RPATH and the last RUNPATH stay.
unfoldable pub add_dynamic : List Dynamic → ElfInfo → ElfInfo
unfolding add_tag
add_dynamic [] i = i
add_dynamic (d ∷ ds) i = add_dynamic ds (add_tag d.tag d.name i)

module _ (env : Env) where
  -- The loop over the version requirements: a later one of a name takes the earlier one's place.
  unfoldable pub add_versions : List (Text × List Text) → ElfInfo → ElfInfo
  add_versions [] i = i
  add_versions ((name, versions) ∷ reqs) i = add_versions reqs (record i {
    version_requirement = insert name (sorted env.version_lt versions) i.version_requirement;
  })

  from_binary : Binary → ElfInfo
  unfolding add_dynamic add_versions
  from_binary b =
      add_versions b.symbols_version_requirement
        (record (add_dynamic b.dynamic_entries (record no_elf { arch = some b.machine_type })) {
          symbols = some (record {
            exported = sorted text_lt b.exported_symbols;
            imported = sorted text_lt b.imported_symbols;
            functions = sorted text_lt b.functions;
          });
        })

  parse : Option Binary → ElfInfo
  unfolding from_binary
  parse none = no_elf
  parse (some b) = from_binary b

  -- `ElfFileInfo(path, relpath)`, for what it adds
  unfoldable pub elf_info : Entry → Result ElfInfo
  unfolding parse starts_with
  elf_info e = if not e.is_file then ok no_elf else (do
    content ← e.content
    ok (if starts_with elf_magic content then parse e.binary else no_elf))
