-- ===== src/Main/Walk.antt =====
-- `walk_files`: which object stands for each file of the package.
pub mod Links
use kong_coco.Prelude.{Bool, true, false, Option, none, some, List, [], ◌∷◌, ◌++◌, not, ◌&&◌, ◌||◌}
use kong_coco.Prelude.{Text, codes, list_eq, nat_eq, ◌==◌, contains, starts_with, ends_with}
use kong_coco.Prelude.{is_empty, if◌then◌else◌}
use kong_coco.Prelude.Posix.{basename, dirname, splitext, join_path}
use kong_coco.Result.{Result, ok, err, ◌>>=◌}
use kong_coco.Env.{Env}
use kong_coco.Explain.Info.{ElfInfo, NginxInfo, Info, plain, elf, nginx}
use kong_coco.Explain.Load.{Entry, file_info, elf_info, is_none}
use kong_coco.Explain.Nginx.{nginx_info}
use kong_coco.Expect.Chain.{glob_match_ignore_slash}
use kong_coco.Config.Transform.{transform}

-- `'/' + file` where it does not start as a path from the root or from here
unfoldable pub prettify : Text → Text
unfolding starts_with
prettify file =
    if not (starts_with (codes "/") file) && not (starts_with (codes "./") file)
    then b'/' ∷ file
    else file

unfoldable pub is_nginx : Text → Bool
unfolding ends_with
is_nginx = ends_with (codes "sbin/nginx")

abbrev binary_directories : List Text
binary_directories = codes "bin" ∷ codes "lib" ∷ codes "lib64" ∷ codes "sbin" ∷ []

unfoldable pub is_binary_path : Text → Bool
unfolding splitext basename dirname contains
is_binary_path file =
    splitext file == codes ".so" || contains (basename (dirname file)) binary_directories

module _ (env : Env) where
  nginx_object : Text → Text → Entry → Result (Option Info)
  nginx_object full_path file e = do
    i ← elf_info env e
    n ← nginx_info e i
    ok (some (nginx (file_info full_path file e) i n))

  -- A symbolic link in the place of a binary is passed over.
  elf_object : Text → Text → Entry → Result (Option Info)
  elf_object full_path file e =
      if is_none e.symlink
      then (do i ← elf_info env e; ok (some (elf (file_info full_path file e) i)))
      else ok none

  -- The object of one file, by its path in the package.
  unfoldable pub info_of : Text → Text → Entry → Result (Option Info)
  unfolding nginx_object elf_object is_nginx is_binary_path
  info_of full_path file e =
      if is_nginx file
      then nginx_object full_path file e
      else if is_binary_path file
      then elf_object full_path file e
      else ok (some (plain (file_info full_path file e)))

  is_listed : Option (List Text) → Text → Bool
  unfolding glob_match_ignore_slash
  is_listed none file = true
  is_listed (some []) file = true
  is_listed (some (g ∷ globs)) file = glob_match_ignore_slash env file (g ∷ globs)

  transformed : Option Info → Result (Option Info)
  unfolding transform
  transformed none = ok none
  transformed (some i) = transform env i >>= λ i'. ok (some i')

  add : Option Info → List Info → List Info
  add none results = results
  add (some i) results = i ∷ results

  -- `walk_files(path, globs)`, over the sorted paths below `path` and what is found there
  unfoldable pub walk_files : Text → Option (List Text) → List (Text × Entry) → Result (List Info)
  unfolding is_listed info_of prettify join_path transformed add
  walk_files path globs [] = ok []
  walk_files path globs ((file, e) ∷ tree) =
      let rest = walk_files path globs tree in
      if is_listed globs file
      then (do
        found ← info_of (join_path path file) (prettify file) e
        shown ← transformed found
        results ← rest
        ok (add shown results))
      else rest
