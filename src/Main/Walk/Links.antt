-- ===== src/Main/Walk/Links.antt =====
-- What the walk leaves out, and what it keeps.
use kong_coco.Prelude.{
  ◌≡◌, inl, inr, Bool, true, false, Option, none, some, List, [], ◌∷◌, Text, All, arith, Bool-cases,
}
use kong_coco.Prelude.Posix.{join_path}
use kong_coco.Result.{ok, >>=-eq-ok, ok-injective}
use kong_coco.Env.{Env}
use kong_coco.Explain.Info.{FileInfo, ElfInfo, NginxInfo, Info, plain, elf, nginx, base}
use kong_coco.Explain.Load.{Entry, file_info, elf_info, is_none}
use kong_coco.Explain.Nginx.{nginx_info}
use kong_coco.Config.Transform.{
  on_elf, normalize, change, transform, kong_rpath, wasm_rpath, libxslt_globs,
}
use kong_coco.Main.Walk.{
  prettify, is_nginx, is_binary_path, info_of, nginx_object, elf_object, add, transformed,
  is_listed, walk_files,
}

-- An `ElfFileInfo` that is not nginx stands for no symbolic link.
pub data IsUnlinked : Info → Type 0 where
  plain_file : (f : FileInfo) → IsUnlinked (plain f)
  binary : (f : FileInfo) (e : ElfInfo) → f.link ≡ none → IsUnlinked (elf f e)
  nginx_file : (f : FileInfo) (e : ElfInfo) (n : Option NginxInfo) → IsUnlinked (nginx f e n)

change-IsUnlinked :
    (applies : Bool) (expected : Text) {i j : Info}
    → change applies expected i ≡ ok j
    → IsUnlinked i
    → IsUnlinked j
unfolding change on_elf
change-IsUnlinked false expected h u = rw (ok-injective h) at u
change-IsUnlinked true expected h (plain_file f) = cc
change-IsUnlinked true expected h (binary f e k) =
    rw (← ok-injective h) (binary f (normalize expected e) k)
change-IsUnlinked true expected h (nginx_file f e n) =
    rw (← ok-injective h) (nginx_file f (normalize expected e) n)

pub data EachUnlinked : Option Info → Type 0 where
  nothing : EachUnlinked none
  just : {i : Info} → IsUnlinked i → EachUnlinked (some i)

module _ (env : Env) where
  transform-IsUnlinked : {i j : Info} → transform env i ≡ ok j → IsUnlinked i → IsUnlinked j
  unfolding transform
  transform-IsUnlinked {i} h u =
      let (k, p, q) =
        >>=-eq-ok (change (env.glob_match (base i).path libxslt_globs) kong_rpath i) _ h in
      change-IsUnlinked _ wasm_rpath q (change-IsUnlinked _ kong_rpath p u)

  transformed-EachUnlinked :
      {o o' : Option Info} → transformed env o ≡ ok o' → EachUnlinked o → EachUnlinked o'
  unfolding transformed
  transformed-EachUnlinked h nothing = rw (← ok-injective h) nothing
  transformed-EachUnlinked h (just {i} u) =
      let (i', p, q) = >>=-eq-ok (transform env i) _ h in
      rw (← ok-injective q) (just (transform-IsUnlinked p u))

  nginx_object-EachUnlinked :
      (path file : Text) (e : Entry) {o : Option Info}
      → nginx_object env path file e ≡ ok o
      → EachUnlinked o
  unfolding nginx_object
  nginx_object-EachUnlinked path file e h =
      let (i, _, h₁) = >>=-eq-ok (elf_info env e) _ h in
      let (n, _, h₂) = >>=-eq-ok (nginx_info e i) _ h₁ in
      rw (← ok-injective h₂) (just (nginx_file (file_info path file e) i n))

  link-file_info :
      (path file : Text) (e : Entry)
      → is_none e.symlink ≡ true
      → (file_info path file e).link ≡ none
  unfolding file_info
  link-file_info path file e h = ground arith

  elf_object-EachUnlinked :
      (path file : Text) (e : Entry) {o : Option Info}
      → elf_object env path file e ≡ ok o
      → EachUnlinked o
  unfolding elf_object
  elf_object-EachUnlinked path file e h = elim (Bool-cases (is_none e.symlink)) [
    | inl t ↦
        let (i, _, q) = >>=-eq-ok (elf_info env e) _ (rw (t, elf_object) at h) in
        rw (← ok-injective q)
          (just (binary (file_info path file e) i (link-file_info path file e t)))
    | inr t ↦ rw (← ok-injective (rw (t, elf_object) at h)) nothing
  ]

  info_of-EachUnlinked :
      (path file : Text) (e : Entry) {o : Option Info}
      → info_of env path file e ≡ ok o
      → EachUnlinked o
  unfolding info_of
  info_of-EachUnlinked path file e h = elim (Bool-cases (is_nginx file)) [
    | inl t ↦ nginx_object-EachUnlinked path file e (rw (t, info_of) at h)
    | inr t ↦ elim (Bool-cases (is_binary_path file)) [
      | inl u ↦ elf_object-EachUnlinked path file e (rw (t, u, info_of) at h)
      | inr u ↦
          rw (← ok-injective (rw (t, u, info_of) at h)) (just (plain_file (file_info path file e)))
    ]
  ]

  add-All :
      {o : Option Info} (l : List Info)
      → EachUnlinked o
      → All IsUnlinked l
      → All IsUnlinked (add env o l)
  unfolding add
  add-All l nothing a = a
  add-All l (just h) a = (h, a)

  -- Of the files that walk_files returns, no ELF object but that of nginx stands for a symbolic
  -- link.
  pub walk_files-IsUnlinked :
      (path : Text) (globs : Option (List Text)) (tree : List (Text × Entry)) {l : List Info}
      → walk_files env path globs tree ≡ ok l
      → All IsUnlinked l
  unfolding walk_files
  walk_files-IsUnlinked path globs [] h = rw (← ok-injective h) tt
  walk_files-IsUnlinked path globs ((file, e) ∷ tree) h =
      elim (Bool-cases (is_listed env globs file)) [
        | inl t ↦
            let (o, p, h₁) =
              >>=-eq-ok (info_of env (join_path path file) (prettify file) e) _
                (rw (t, walk_files) at h) in
            let (shown, r, h₂) = >>=-eq-ok (transformed env o) _ h₁ in
            let (l, q, h₃) = >>=-eq-ok (walk_files env path globs tree) _ h₂ in
            rw (← ok-injective h₃) (
              add-All l
                (transformed-EachUnlinked r
                  (info_of-EachUnlinked (join_path path file) (prettify file) e p))
                (walk_files-IsUnlinked path globs tree q))
        | inr t ↦ walk_files-IsUnlinked path globs tree (rw (t, walk_files) at h)
      ]
