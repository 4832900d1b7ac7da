-- ===== src/Explain/Info.antt =====
-- The objects of explain.py, with their attributes as fields. An attribute that the constructor
-- may leave unset is an `Option`.
use kong_coco.Prelude.{ℕ, Bool, Option, List, Text}
use kong_coco.Result.{Result}

-- `FileInfo`. `content` is what reading the file gives, as bytes.
pub record FileInfo : Type 0 where
  pub path : Text
  pub relpath : Text
  pub link : Option Text
  pub directory : Bool
  pub mode : ℕ
  pub uid : ℕ
  pub gid : ℕ
  pub size : Option ℕ
  pub content : Result Text

-- The three closures over the parsed binary, by their results.
pub record Symbols : Type 0 where
  pub exported : List Text
  pub imported : List Text
  pub functions : List Text

-- What `ElfFileInfo` adds. `symbols` is `none` where the file was not parsed as ELF.
pub record ElfInfo : Type 0 where
  pub arch : Option Text
  pub needed_libraries : List Text
  pub rpath : Option Text
  pub runpath : Option Text
  pub symbols : Option Symbols
  pub version_requirement : List (Text × List Text)

-- What `NginxInfo` adds, where the file needs some library.
pub record NginxInfo : Type 0 where
  pub nginx_modules : List Text
  pub nginx_compiled_openssl : Option Text
  pub nginx_compile_flags : Option Text
  pub has_dwarf_info : Bool
  pub has_request_dwarf : Bool

pub data Info : Type 0 where
  plain : FileInfo → Info
  elf : FileInfo → ElfInfo → Info
  nginx : FileInfo → ElfInfo → Option NginxInfo → Info

unfoldable pub base : Info → FileInfo
base (plain f) = f
base (elf f e) = f
base (nginx f e n) = f

unfoldable pub relpath_of : Info → Text
unfolding base
relpath_of i = (base i).relpath
