-- ===== src/Main.antt =====
-- scripts/explain_manifest/main.py: from the arguments to the exit status.
pub mod Walk
pub mod Manifest
pub mod Suggestion
pub mod Guards
pub mod Output
use kong_coco.Prelude.{
  ℕ, Bool, true, false, Option, none, some, List, [], ◌∷◌, ◌++◌, map, not, ◌&&◌, ◌||◌,
}
use kong_coco.Prelude.{
  Text, codes, list_eq, nat_eq, ◌==◌, ends_with, lookup, is_empty, if◌then◌else◌,
}
use kong_coco.Prelude.Posix.{splitext}
use kong_coco.Result.{Result, ok, err, raised, type_error, ◌>>=◌, ◌>>◌}
use kong_coco.Utf8.Encoding.{encode}
use kong_coco.Utf8.Decoding.{decode_strict}
use kong_coco.Env.{Env}
use kong_coco.Explain.Info.{Info}
use kong_coco.Explain.Load.{Entry}
use kong_coco.Explain.Lines.{ExplainOpts}
use kong_coco.Expect.State.{Chain, ExpectSuite}
use kong_coco.Expect.Script.{Step, verify}
use kong_coco.Expect.Script
use kong_coco.Config.Targets.{Test, Targets, runnable}
use Walk.{walk_files}
use Manifest.{write_manifest}
use Suggestion.{maybe}

-- What `parse_args` returns.
pub record Args : Type 0 where
  pub path : Option Text
  pub image : Option Text
  pub output : Option Text
  pub suite : Option Text
  pub file_list : Option Text
  pub opts : ExplainOpts

-- What the program reads of its surroundings. `extract` runs the commands that unpack an image or
-- an archive into a new directory, and is `none` where they fail; `tree` lists what is below a
-- directory, sorted; `read_lines` is a file's lines.
pub record World : Type 0 where
  pub uid : ℕ
  pub is_dir : Text → Bool
  pub extract : Text → Option Text
  pub tree : Text → List (Text × Entry)
  pub read_lines : Text → Result (List Text)

-- Where the manifest goes: as text to standard output, or as bytes into a file.
pub data Written : Type 0 where
  nowhere : Written
  stdout : Text → Written
  file : Text → List ℕ → Written

-- An argument that is there and not empty.
abbrev pub given : Option Text → Bool
given none = false
given (some s) = not (is_empty s)

-- `if test: raise Exception(message)`
abbrev pub raise_if : Bool → Text → Result (Unit {0})
raise_if true message = err (raised message)
raise_if false message = ok tt

-- A path that is there, and is a directory.
abbrev pub is_dir_path : (Text → Bool) → Option Text → Bool
is_dir_path is_dir none = false
is_dir_path is_dir (some path) = not (is_empty path) && is_dir path

-- The four tests of the arguments, in their order.
check_target : Args → Result (Unit {0})
check_target args =
    raise_if (not (given args.suite) && not (given args.output))
      (codes "At least one of --suite or --output is required")

check_source : Args → Result (Unit {0})
check_source args =
    raise_if (not (given args.path) && not (given args.image))
      (codes "At least one of --path or --image is required")

check_root : World → Args → Result (Unit {0})
check_root w args =
    raise_if (given args.image && not (w.uid == 0))
      (codes "Running as root is required to explain an image")

check_archive : World → Args → Result (Unit {0})
check_archive w args =
    raise_if (is_dir_path w.is_dir args.path)
      (codes "suite mode only works with archive files (deb, rpm, apk.tar.gz, etc.")

unfoldable pub check_args : World → Args → Result (Unit {0})
unfolding check_target check_source check_root check_archive
check_args w args = do check_target args; check_source args; check_root w args; check_archive w args

extracted : Text → Text → Option Text → Result Text
extracted what name none = err (raised (codes "Failed to extract " ++ (what ++ name)))
extracted what name (some dir) = ok dir

-- `gather_files` on a path
gather_path : World → Text → Result Text
unfolding splitext ends_with extracted
gather_path w path =
    let ext = splitext path in
    if ext == codes ".deb" || (ext == codes ".rpm" || ends_with (codes ".apk.tar.gz") path)
    then extracted [] path (w.extract path)
    else if not (w.is_dir path)
    then err (raised (codes "Don't know how to process \"" ++ (path ++ codes "\"")))
    else ok path

-- `gather_files(path, image)`
unfoldable pub gather_files : World → Option Text → Option Text → Result Text
unfolding gather_path extracted
gather_files w path (some (c ∷ image)) =
    extracted (codes "image ") (c ∷ image) (w.extract (c ∷ image))
gather_files w none image = err type_error
gather_files w (some path) image = gather_path w path

-- `read_glob(path)`
unfoldable pub read_glob : World → Option Text → Result (List Text)
read_glob w none = ok (codes "**" ∷ [])
read_glob w (some []) = ok (codes "**" ∷ [])
read_glob w (some (c ∷ path)) = w.read_lines (c ∷ path)

-- The last block of the program.
unfoldable pub write_output : Option Text → List ℕ → Result Written
unfolding decode_strict
write_output none manifest = ok nowhere
write_output (some []) manifest = ok nowhere
write_output (some (c ∷ path)) manifest =
    if c ∷ path == codes "-"
    then (decode_strict manifest >>= λ s. ok (stdout s))
    else ok (file (c ∷ path) manifest)

module _ (env : Env) (w : World) (targets : Targets) where
  -- `config.targets.keys()`
  suite_names : List Text
  suite_names = map (λ entry. entry.0) targets

  verify_suite : Option (ExpectSuite Test) → Text → List Info → Text → Result (Option Chain)
  unfolding verify runnable maybe suite_names
  verify_suite none name infos manifest =
      err (raised (codes "Unknown suite " ++ (name ++ maybe env suite_names name)))
  verify_suite (some suite) name infos manifest =
      verify env (runnable suite) infos manifest >>= λ c. ok (some c)

  -- `if args.suite: …`
  unfoldable pub run_suite : Option Text → List Info → Text → Result (Option Chain)
  unfolding verify_suite lookup
  run_suite none infos manifest = ok none
  run_suite (some []) infos manifest = ok none
  run_suite (some (c ∷ name)) infos manifest =
      verify_suite (lookup (c ∷ name) targets) (c ∷ name) infos manifest

  -- The program, up to its exit: where the manifest went, and the chain if there was a suite.
  unfoldable pub main : Args → Result (Written × Option Chain)
  unfolding encode write_output
  main args = do
    check_args w args
    directory ← gather_files w args.path args.image
    globs ← read_glob w args.file_list
    infos ←
        walk_files env directory (if given args.image then some globs else none) (w.tree directory)
    text ← write_manifest env globs args.opts infos
    manifest ← encode text
    chain ← run_suite args.suite infos manifest
    written ← write_output args.output manifest
    ok (written, chain)

  status_of : Result (Written × Option Chain) → ℕ
  status_of (err e) = 1
  status_of (ok (written, none)) = 0
  status_of (ok (written, some c)) = Script.exit_status (ok c)

  -- The exit status of the process.
  unfoldable pub exit_status : Args → ℕ
  unfolding status_of
  exit_status args = status_of (main args)
