-- ===== src/Explain/Load/Sections.antt =====
-- What the loops over the sections of a binary collect.
use mathlib.Core.List.{append-nil, append_assoc}
use kong_coco.Prelude.{
  ◌≡◌, refl, sym, ◌∙◌, inl, inr, Bool, true, false, Option, none, some, List, [], ◌∷◌, ◌++◌, not,
}
use kong_coco.Prelude.{
  Text, list_eq, nat_eq, starts_with, All, All-insert, text_lt, if◌then◌else◌, Bool-cases,
}
use kong_coco.Prelude.Sorting.{sorted, Ascending, sorted-Ascending}
use kong_coco.Prelude.TextOrder.{text_lt-IsOrder}
use kong_coco.Result.{ok, >>=-eq-ok, ok-injective}
use kong_coco.Env.{Env, IsVersioned}
use kong_coco.Explain.Info.{Symbols, ElfInfo}
use kong_coco.Explain.Load.{
  Tag, needed, rpath, runpath, other, Dynamic, Binary, Entry, no_elf, elf_magic,
}
use kong_coco.Explain.Load.{add_tag, add_dynamic, add_versions, from_binary, parse, elf_info}

abbrev is_needed : Tag → Bool
is_needed needed = true
is_needed _ = false

abbrev is_rpath : Tag → Bool
is_rpath rpath = true
is_rpath _ = false

abbrev is_runpath : Tag → Bool
is_runpath runpath = true
is_runpath _ = false

-- The names of the entries whose tag passes a test, in their order.
abbrev pub names_of : (Tag → Bool) → List Dynamic → List Text
names_of p [] = []
names_of p (d ∷ ds) = if p d.tag then d.name ∷ names_of p ds else names_of p ds

-- The last of a list, or else what was there before.
abbrev pub last_or : Option Text → List Text → Option Text
last_or o [] = o
last_or o (s ∷ ss) = last_or (some s) ss

-- The record of what the loop over the dynamic entries leaves.
pub record Collects (ds : List Dynamic) (i i' : ElfInfo) : Type 0 where
  pub needed_libraries : i'.needed_libraries ≡ i.needed_libraries ++ names_of is_needed ds
  pub rpath : i'.rpath ≡ last_or i.rpath (names_of is_rpath ds)
  pub runpath : i'.runpath ≡ last_or i.runpath (names_of is_runpath ds)
  pub arch : i'.arch ≡ i.arch

add_tag-Collects :
    (t : Tag) (name : Text) (ds : List Dynamic) (i i' : ElfInfo)
    → Collects ds (add_tag t name i) i'
    → Collects (record { tag = t; name = name } ∷ ds) i i'
unfolding add_tag
add_tag-Collects needed name ds i i' h = record {
  needed_libraries =
      h.needed_libraries ∙ append_assoc i.needed_libraries (name ∷ []) (names_of is_needed ds);
  rpath = h.rpath;
  runpath = h.runpath;
  arch = h.arch;
}
add_tag-Collects rpath name ds i i' h = record {
  needed_libraries = h.needed_libraries;
  rpath = h.rpath;
  runpath = h.runpath;
  arch = h.arch;
}
add_tag-Collects runpath name ds i i' h = record {
  needed_libraries = h.needed_libraries;
  rpath = h.rpath;
  runpath = h.runpath;
  arch = h.arch;
}
add_tag-Collects other name ds i i' h = record {
  needed_libraries = h.needed_libraries;
  rpath = h.rpath;
  runpath = h.runpath;
  arch = h.arch;
}

-- The loop over the dynamic entries leaves the architecture, collects the names of the NEEDED
-- entries in their order, and keeps the last of the RPATH entries and the last of the RUNPATH
-- entries.
pub add_dynamic-Collects : (ds : List Dynamic) (i : ElfInfo) → Collects ds i (add_dynamic ds i)
unfolding add_dynamic
add_dynamic-Collects [] i = record {
  needed_libraries = sym (append-nil i.needed_libraries);
  rpath = refl;
  runpath = refl;
  arch = refl;
}
add_dynamic-Collects (d ∷ ds) i =
    add_tag-Collects d.tag d.name ds i _ (add_dynamic-Collects ds (add_tag d.tag d.name i))

abbrev SortedSymbols : Option Symbols → Type 0
SortedSymbols none = Unit
SortedSymbols (some s) =
    Ascending text_lt s.exported × Ascending text_lt s.imported × Ascending text_lt s.functions

-- Every list that is sorted on loading is in order.
pub record IsSorted (env : Env) (i : ElfInfo) : Type 0 where
  pub versions : All (λ (r : Text × List Text). Ascending env.version_lt r.1) i.version_requirement
  pub symbols : SortedSymbols i.symbols

module _ (env : Env) (h : IsVersioned env) where
  add_versions-All :
      (reqs : List (Text × List Text)) (i : ElfInfo)
      → All (λ (r : Text × List Text). Ascending env.version_lt r.1) i.version_requirement
      → All
          (λ (r : Text × List Text). Ascending env.version_lt r.1)
          (add_versions env reqs i).version_requirement
  unfolding add_versions
  add_versions-All [] i a = a
  add_versions-All ((name, versions) ∷ reqs) i a = add_versions-All reqs _ (
      All-insert (Ascending env.version_lt) name (sorted env.version_lt versions)
        i.version_requirement (sorted-Ascending env.version_lt h.version_order versions) a)

  symbols-add_versions :
      (reqs : List (Text × List Text)) (i : ElfInfo) → (add_versions env reqs i).symbols ≡ i.symbols
  unfolding add_versions
  symbols-add_versions [] i = refl
  symbols-add_versions ((name, versions) ∷ reqs) i = symbols-add_versions reqs _

  version_requirement-add_dynamic :
      (ds : List Dynamic) (i : ElfInfo)
      → (add_dynamic ds i).version_requirement ≡ i.version_requirement
  unfolding add_dynamic
  version_requirement-add_dynamic [] i = refl
  version_requirement-add_dynamic (d ∷ ds) i = version_requirement-add_dynamic ds _ ∙ go d.tag
    where
      go : (t : Tag) → (add_tag t d.name i).version_requirement ≡ i.version_requirement
      go needed = refl
      go _ = refl

  from_binary-IsSorted : (b : Binary) → IsSorted env (from_binary env b)
  unfolding from_binary
  from_binary-IsSorted b = record {
    versions =
        add_versions-All b.symbols_version_requirement _
          (rw (version_requirement-add_dynamic b.dynamic_entries) tt);
    symbols = rw (symbols-add_versions b.symbols_version_requirement) (
      sorted-Ascending text_lt text_lt-IsOrder b.exported_symbols,
      sorted-Ascending text_lt text_lt-IsOrder b.imported_symbols,
      sorted-Ascending text_lt text_lt-IsOrder b.functions,
    );
  }

  no_elf-IsSorted : IsSorted env no_elf
  no_elf-IsSorted = record { versions = tt; symbols = tt }

  parse-IsSorted : (o : Option Binary) → IsSorted env (parse env o)
  unfolding parse
  parse-IsSorted none = no_elf-IsSorted
  parse-IsSorted (some b) = from_binary-IsSorted b

  if-IsSorted :
      (b : Bool) {i j : ElfInfo}
      → IsSorted env i
      → IsSorted env j
      → IsSorted env (if b then i else j)
  if-IsSorted true p q = p
  if-IsSorted false p q = q

  -- In an ELF object that loads, every version list and every symbol list is in ascending order,
  -- whatever order the binary has them in, if the comparison of versions is an order.
  pub elf_info-IsSorted : (e : Entry) {i : ElfInfo} → elf_info env e ≡ ok i → IsSorted env i
  unfolding elf_info
  elf_info-IsSorted e p = elim (Bool-cases (not e.is_file)) [
    | inl t ↦ rw (← ok-injective (rw (t, elf_info) at p)) no_elf-IsSorted
    | inr t ↦
        let (content, _, q) = >>=-eq-ok e.content _ (rw (t, elf_info) at p) in
        rw (← ok-injective q)
          (if-IsSorted (starts_with elf_magic content) (parse-IsSorted e.binary) no_elf-IsSorted)
  ]
